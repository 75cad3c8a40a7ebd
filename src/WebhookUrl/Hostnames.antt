-- ===== src/WebhookUrl/Hostnames.antt =====
-- internal/webhookurl/guard.go and tailnet_policy.go: checkHostnameSyntax, checkPolicyHost and
-- ParseAllowlist. A text is its Unicode code points; `is_literal` is isIPLiteral.
use cronlite.Base.{
  ℕ, Bool, true, false, ◌&&◌, ◌||◌, Option, none, some, List, [], ◌∷◌, map, leb, nat_beq, any,
  if◌then◌else◌,
}
use cronlite.Base.Texts.{Text, is_nil, split_on, trim_space, to_lower, same_text, points_key}
use cronlite.Dispatcher.Classify.{bytes}
use cronlite.WebhookUrl.{Allowlist, trim_dot}

pub data HostError : Type 0 where
  empty_hostname empty_label dotted ip_literal_host : HostError
  bad_character : ℕ → HostError

-- The first code point outside [a-z0-9-_.].
abbrev pub is_host_char : ℕ → Bool
is_host_char c =
    (leb b'a' c && leb c b'z')
    || (leb b'0' c && leb c b'9')
    || nat_beq c b'-'
    || nat_beq c b'_'
    || nat_beq c b'.'

unfoldable pub bad_char : Text → Option HostError
bad_char [] = none
bad_char (c ∷ s) = let rest = bad_char s in if is_host_char c then rest else some (bad_character c)

unfoldable pub check_hostname_syntax : Text → Option HostError
unfolding bad_char split_on any
check_hostname_syntax name =
    if is_nil name
    then some empty_hostname
    else if any is_nil (split_on b'.' name)
    then some empty_label
    else bad_char name

unfoldable pub contains_dot : Text → Bool
contains_dot [] = false
contains_dot (c ∷ s) = nat_beq c b'.' || contains_dot s

abbrev pub check_single : (Text → Bool) → Text → Option HostError → Option HostError
unfolding contains_dot
check_single is_literal h (some e) = some e
check_single is_literal h none =
    if contains_dot h then some dotted else (if is_literal h then some ip_literal_host else none)

unfoldable pub check_policy_host : (Text → Bool) → Text → Option HostError
unfolding check_hostname_syntax contains_dot
check_policy_host is_literal h = check_single is_literal h (check_hostname_syntax h)

pub data AllowlistError : Type 0 where
  empty_entry : AllowlistError
  literal_entry : Text → AllowlistError
  bad_name : Text → HostError → AllowlistError

pub data ParsedAllowlist : Type 0 where
  allowlist : Allowlist → ParsedAllowlist
  refused_entry : AllowlistError → ParsedAllowlist

abbrev pub add_entry : Bool → Text → ParsedAllowlist → ParsedAllowlist
add_entry suffix name (refused_entry e) = refused_entry e
add_entry true name (allowlist a) =
    allowlist (record { suffixes = name ∷ a.suffixes; exact = a.exact })
add_entry false name (allowlist a) =
    allowlist (record { suffixes = a.suffixes; exact = name ∷ a.exact })

abbrev pub add_checked_entry : Bool → Text → Option HostError → ParsedAllowlist → ParsedAllowlist
add_checked_entry suffix name (some e) rest = refused_entry (bad_name name e)
add_checked_entry suffix name none rest = add_entry suffix name rest

-- strings.HasPrefix(e, ".") and strings.TrimPrefix(e, ".").
abbrev pub starts_with_dot : Text → Bool
starts_with_dot [] = false
starts_with_dot (c ∷ s) = nat_beq c b'.'

abbrev pub trim_first_dot : Text → Text
trim_first_dot [] = []
trim_first_dot (c ∷ s) = if nat_beq c b'.' then s else c ∷ s

abbrev pub parse_allowlist_entry : (Text → Bool) → Text → ParsedAllowlist → ParsedAllowlist
unfolding check_hostname_syntax trim_space same_text trim_dot
parse_allowlist_entry is_literal raw rest =
    let e = map to_lower (trim_space raw) in
    let name = trim_first_dot (trim_dot e) in
    if is_nil e || same_text e (bytes ".")
    then refused_entry empty_entry
    else (if is_literal name
        then refused_entry (literal_entry name)
        else add_checked_entry (starts_with_dot (trim_dot e)) name (check_hostname_syntax name)
            rest)

unfoldable pub parse_allowlist : (Text → Bool) → List Text → ParsedAllowlist
unfolding parse_allowlist_entry
parse_allowlist is_literal [] = allowlist (record { suffixes = []; exact = [] })
parse_allowlist is_literal (raw ∷ more) =
    parse_allowlist_entry is_literal raw (parse_allowlist is_literal more)
