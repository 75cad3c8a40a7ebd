-- ===== src/WebhookUrl/Dial.antt =====
-- guard.go: what guardedDial hands to the dialer.
use cronlite.Base.{
  ℕ, ◌+◌, ◌≡◌, refl, sym, ◌∙◌, Bool, true, false, ◌||◌, Option, none, some, List, [], ◌∷◌, arith,
  any, All, text_key, if-intro,
}
use cronlite.WebhookUrl.{
  Addr, invalid, v4, v6, Reason, check_addr, unmap, Allowlist, Name, matches, is_empty, World,
  DialResult, refused, missing_host, Checked, bad, good, add_checked, check_all, first_error,
  dial_each, dial_literal, dial_checked, dial_resolved, dial_host, guarded_dial, DialError,
  dial_failed,
}

abbrev pub Passes : Bool → Addr → Type 0
Passes allow_private a = check_addr a allow_private ≡ none

unmap-Passes : (b : Bool) (a : Addr) → Passes b a → Passes b (unmap a)
unfolding check_addr
unmap-Passes b invalid h = h
unmap-Passes b (v4 n) h = h
unmap-Passes b (v6 n zone) h = ground (arith, h)

-- The checked addresses, if there are such.
abbrev pub AllGood : Bool → Checked → Type 0
AllGood b (bad a reason) = Unit
AllGood b (good more) = All (Passes b) more

add_checked-AllGood :
    (b : Bool) (a : Addr) (o : Option Reason) (rest : Checked)
    → check_addr a b ≡ o
    → AllGood b rest
    → AllGood b (add_checked a o rest)
add_checked-AllGood b a (some reason) rest e h = tt
add_checked-AllGood b a none (bad c reason) e h = tt
add_checked-AllGood b a none (good more) e h = (unmap-Passes b a e, h)

check_all-AllGood : (b : Bool) (addrs : List Addr) → AllGood b (check_all b addrs)
unfolding check_all
check_all-AllGood b [] = tt
check_all-AllGood b (a ∷ addrs) =
    add_checked-AllGood b a (check_addr a b) (check_all b addrs) refl (check_all-AllGood b addrs)

pub dial_each-All :
    (P : Addr → Type 0) (w : World) (i : ℕ) (err : Option DialError) (addrs : List Addr)
    → All P addrs
    → All P (dial_each w i err addrs).dialled
unfolding dial_each
dial_each-All P w i err [] h = tt
dial_each-All P w i err (a ∷ addrs) (ha, h) =
    let Q : DialResult → Type 0 = λ r. All P r.dialled in
    if-intro Q (w.ended i) _ _ (λ b. tt)
      (λ b.
        if-intro Q (w.connects a) _ _ (λ c. (ha, tt))
          (λ c. (ha, dial_each-All P w (i + 1) (first_error err dial_failed) addrs h)))

checked-All :
    (b : Bool) (w : World) (c : Checked) → AllGood b c → All (Passes b) (dial_checked w c).dialled
checked-All b w (bad a reason) h = tt
checked-All b w (good more) h = dial_each-All (Passes b) w 0 none more h

resolved-All :
    (b : Bool) (w : World) (o : Option (List Addr)) → All (Passes b) (dial_resolved w b o).dialled
resolved-All b w none = tt
resolved-All b w (some []) = tt
resolved-All b w (some (a ∷ addrs)) =
    checked-All b w (check_all b (a ∷ addrs)) (check_all-AllGood b (a ∷ addrs))

literal-All :
    (w : World) (a : Addr) (o : Option Reason)
    → check_addr a false ≡ o
    → All (Passes false) (dial_literal w a o).dialled
literal-All w a (some reason) e = tt
literal-All w a none e = (unmap-Passes false a e, tt)

-- Private addresses are allowed for a host that is no literal and is on the allowlist.
abbrev pub private_ok : World → Allowlist → Name → Option Addr → Bool
private_ok w allow host (some a) = false
private_ok w allow host none = matches w.ip_literal allow host

host-All :
    (w : World) (allow : Allowlist) (host : Name) (o : Option Addr)
    → All (Passes (private_ok w allow host o)) (dial_host w allow host o).dialled
host-All w allow host (some a) = literal-All w a (check_addr a false) refl
host-All w allow host none = resolved-All (matches w.ip_literal allow host) w (w.lookup_ip host)

-- Whatever the resolver answers, every address that the guard hands to the dialer passes its check,
-- with private addresses allowed only for a host that is no IP literal and matches the allowlist.
pub dial_safe :
    (w : World) (allow : Allowlist) (host : Name)
    → All (Passes (private_ok w allow host (w.parse_addr host))) (guarded_dial w allow host).dialled
unfolding guarded_dial
dial_safe w allow host =
    let P = Passes (private_ok w allow host (w.parse_addr host)) in
    if-intro (λ r. All P r.dialled) (is_empty host) (refused missing_host) _ (λ b. tt)
      (λ b. host-All w allow host (w.parse_addr host))

abbrev pub fails : Bool → Addr → Bool
fails b a = elim (check_addr a b) [ none ↦ false | some reason ↦ true ]

abbrev pub is_bad : Checked → Bool
is_bad (bad a reason) = true
is_bad (good more) = false

add_checked-bad :
    (b : Bool) (a : Addr) (o : Option Reason) (rest : Checked)
    → (elim o as (λ x. Bool) [ none ↦ false | some reason ↦ true ] || is_bad rest)
      ≡ is_bad (add_checked a o rest)
add_checked-bad b a (some reason) rest = refl
add_checked-bad b a none (bad c reason) = refl
add_checked-bad b a none (good more) = refl

check_all-bad : (b : Bool) (addrs : List Addr) → any (fails b) addrs ≡ is_bad (check_all b addrs)
unfolding check_all any
check_all-bad b [] = refl
check_all-bad b (a ∷ addrs) =
    ground (arith, check_all-bad b addrs, add_checked-bad b a (check_addr a b) (check_all b addrs))

bad-dials : (w : World) (c : Checked) → is_bad c ≡ true → (dial_checked w c).dialled ≡ []
bad-dials w (bad a reason) h = refl
bad-dials w (good more) h = ground arith

resolved-none :
    (w : World) (b : Bool) (addrs : List Addr)
    → any (fails b) addrs ≡ true
    → (dial_resolved w b (some addrs)).dialled ≡ []
resolved-none w b [] h = refl
resolved-none w b (a ∷ addrs) h =
    bad-dials w (check_all b (a ∷ addrs)) (sym (check_all-bad b (a ∷ addrs)) ∙ h)

-- If one of the addresses of a name fails the check, none of them is dialled.
pub one_bad_blocks_all :
    (w : World) (allow : Allowlist) (host : Name) (addrs : List Addr)
    → w.parse_addr host ≡ none
    → w.lookup_ip host ≡ some addrs
    → any (fails (matches w.ip_literal allow host)) addrs ≡ true
    → (guarded_dial w allow host).dialled ≡ []
unfolding guarded_dial
one_bad_blocks_all w allow host addrs name found h =
    let r = resolved-none w (matches w.ip_literal allow host) addrs h in
    ground (arith, name, found, r)
