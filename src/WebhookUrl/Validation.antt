-- ===== src/WebhookUrl/Validation.antt =====
-- internal/webhookurl/validation.go. url.Parse and net.ParseIP are parameters.
use cronlite.Base.{
  ℕ, ◌+◌, ◌%◌, ◌^◌, String, ◌*◌, ◌≡◌, ◌≢◌, Bool, true, false, ◌||◌, not, Option, none, some, [],
  ◌∷◌, map, arith, nat_beq, if◌then◌else◌, if-intro, ◌==◌, text_key,
}
use mathlib.Core.Path.{subst}
use cronlite.Base.Texts.{Text, is_nil, to_lower, same_text}
use cronlite.Dispatcher.Classify.{bytes}
use cronlite.WebhookUrl.{
  Addr, invalid, v4, v6, unmap, in_prefix, is_mapped, is_private4, check_addr, check_v4, check_v6,
  embeds, Reason, has_suffix,
}

-- What url.Parse gives: the scheme, the host with its port, and the host alone.
pub record Url : Type 0 where
  pub scheme : Text
  pub host : Text
  pub hostname : Text

pub data UrlError : Type 0 where
  malformed bad_scheme missing_host forbidden_host forbidden_ip : UrlError

unfoldable pub is_forbidden_hostname : Text → Bool
unfolding same_text has_suffix
is_forbidden_hostname host =
    same_text host (bytes "localhost")
    || has_suffix host (bytes ".localhost")
    || same_text host (bytes "metadata.google.internal")

-- The text before the last '%'.
unfoldable pub has_percent : Text → Bool
has_percent [] = false
has_percent (c ∷ s) = nat_beq c b'%' || has_percent s

unfoldable pub strip_ipv6_zone : Text → Text
unfolding has_percent
strip_ipv6_zone [] = []
strip_ipv6_zone (c ∷ s) =
    let rest = strip_ipv6_zone s in
    if nat_beq c b'%' then (if has_percent s then c ∷ rest else []) else c ∷ rest

-- The methods of net.IP; an address that embeds an IPv4 one is that one.
abbrev pub is_forbidden_unmapped : Addr → Bool
is_forbidden_unmapped invalid = false
is_forbidden_unmapped (v4 n) =
    nat_beq n 0
    || in_prefix 127 24 n
    || is_private4 n
    || in_prefix (169 * 256 + 254) 16 n
    || in_prefix (224 * 65536) 8 n
    || in_prefix 14 28 n
is_forbidden_unmapped (v6 n zone) =
    nat_beq n 0
    || nat_beq n 1
    || in_prefix 0x7e 121 n
    || in_prefix 0x3fa 118 n
    || in_prefix 0xff02 112 n
    || in_prefix 0xff 120 n

unfoldable pub is_forbidden_ip : Addr → Bool
is_forbidden_ip a = is_forbidden_unmapped (unmap a)

abbrev pub check_ip : Option Addr → Option UrlError
unfolding is_forbidden_ip
check_ip none = none
check_ip (some a) = if is_forbidden_ip a then some forbidden_ip else none

abbrev pub check_url : (Text → Option Addr) → Option Url → Option UrlError
unfolding is_forbidden_hostname strip_ipv6_zone is_forbidden_ip same_text
check_url parse_ip none = some malformed
check_url parse_ip (some u) =
    let host = map to_lower u.hostname in
    if not (same_text u.scheme (bytes "http") || same_text u.scheme (bytes "https"))
    then some bad_scheme
    else if is_nil u.host
    then some missing_host
    else if is_forbidden_hostname host
    then some forbidden_host
    else check_ip (parse_ip (strip_ipv6_zone host))

unfoldable pub validate : (Text → Option Url) → (Text → Option Addr) → Text → Option UrlError
unfolding check_url
validate parse parse_ip raw = check_url parse_ip (parse raw)

-- Link-local multicast is multicast.
link_local4 : (n : ℕ) → in_prefix (224 * 65536) 8 n ≡ true → in_prefix 14 28 n ≡ true
link_local4 n h = ground (arith, h)

link_local6 : (n : ℕ) → in_prefix 0xff02 112 n ≡ true → in_prefix 0xff 120 n ≡ true
link_local6 n h = ground (arith, h)

forbidden4 : (n : ℕ) → is_forbidden_unmapped (v4 n) ≡ true → check_v4 n false ≢ none
unfolding check_v4
forbidden4 n h = ground (arith, h, link_local4 n)

forbidden6 :
    (n : ℕ) (zone : String) → is_forbidden_unmapped (v6 n zone) ≡ true → check_v6 n false ≢ none
unfolding check_v6
forbidden6 n zone h = ground (arith, h, link_local6 n)

forbidden_mapped :
    (n : ℕ) (zone : String)
    → is_mapped n ≡ true
    → is_forbidden_ip (v6 n zone) ≡ true
    → is_forbidden_unmapped (v4 (n % 2 ^ 32)) ≡ true
unfolding is_forbidden_ip
forbidden_mapped n zone c h =
    subst (λ b. is_forbidden_unmapped (if b then v4 (n % 2 ^ 32) else v6 n zone) ≡ true) c h

forbidden_other :
    (n : ℕ) (zone : String)
    → is_mapped n ≡ false
    → is_forbidden_ip (v6 n zone) ≡ true
    → is_forbidden_unmapped (v6 n zone) ≡ true
unfolding is_forbidden_ip
forbidden_other n zone c h =
    subst (λ b. is_forbidden_unmapped (if b then v4 (n % 2 ^ 32) else v6 n zone) ≡ true) c h

-- An address that embeds an IPv4 one without being that one is not forbidden.
embeds_allowed :
    (n : ℕ) (zone : String)
    → embeds n ≡ true
    → is_forbidden_unmapped (v6 n zone) ≡ true
    → false ≡ true
embeds_allowed n zone d h = ground (arith, d, h)

-- Every address that a URL may not have as its host is one that the guard refuses to dial, unless
-- private addresses are allowed.
pub forbidden_refused : (a : Addr) → is_forbidden_ip a ≡ true → check_addr a false ≢ none
unfolding is_forbidden_ip check_addr
forbidden_refused invalid h = absurd (ground (arith, h))
forbidden_refused (v4 n) h = forbidden4 n h
forbidden_refused (v6 n zone) h =
    let P : Option Reason → Type 0 = λ r. r ≢ none in
    if-intro P (not (zone == "")) _ _ (λ b e. absurd (ground (arith, e)))
      (λ b.
        if-intro P (is_mapped n) _ _ (λ c. forbidden4 (n % 2 ^ 32) (forbidden_mapped n zone c h))
          (λ c.
            if-intro P (embeds n) _ _
              (λ d. absurd (ground (arith, embeds_allowed n zone d (forbidden_other n zone c h))))
              (λ d. forbidden6 n zone (forbidden_other n zone c h))))
