-- ===== src/Breaker/Laws.antt =====
-- breaker.go: when a circuit opens, how many probes it lets through, and that circuits are apart.
use text.Mathlib.TextEquality.{eq_iff}
use mathlib.Core.Option
use native.Mathlib.Decide.{dec_le}
use cronlite.Base.{
  ℕ, zero, suc, ◌+◌, ◌≤◌, ◌<◌, ◌≡◌, refl, ◌↔◌, inl, inr, String, Bool, true, false, Option, none,
  some, List, [], ◌∷◌, arith, lookup, insert, lookup-insert, lookup-insert_self, lookup-delete,
  Option-cases, length, ◌==◌, min, if◌then◌else◌, text_key, get_elem?, ◌-◌, ◌≢◌, ap, ◌∙◌,
}
use cronlite.Breaker.{
  State, closed, open_, half_open, UrlState, CircuitBreaker, CancelProbe, Admission, probing,
  circuit_open, cancel_of, first_probe, next_probe, admit, allow_with_cancel, cancel_probe,
  record_success, record_failure, zero_state, fail,
}
use cronlite.Breaker.System.{System, Call, allows, cancels, succeeds, fails, step}

-- Failures of one URL with nothing in between, at the given times.
unfoldable pub fail_all : CircuitBreaker → String → List ℕ → CircuitBreaker
fail_all cb url [] = cb
fail_all cb url (t ∷ ts) = fail_all (record_failure cb t url) url ts

-- What a circuit looks like after `n` failures, the last at `t`.
record IsFailed (cb : CircuitBreaker) (threshold cooldown : ℕ) (url : String) (n t : ℕ)
    : Type 0 where
  circuit : UrlState
  at : lookup url cb.states ≡ some circuit
  failures : circuit.consecutive_failures ≡ n
  opened : threshold ≤ n → (circuit.state ≡ open_) × (circuit.opened_at ≡ t)
  shut : n < threshold → circuit.state ≡ closed
  same : cb.threshold ≡ threshold
  waits : cb.cooldown ≡ cooldown

first-IsFailed :
    (cb : CircuitBreaker) (url : String) (t : ℕ)
    → lookup url cb.states ≡ none
    → IsFailed (record_failure cb t url) cb.threshold cb.cooldown url 1 t
unfolding record_failure
first-IsFailed cb url t missing =
    rw (missing, record_failure)
      (record {
        circuit = fail cb.threshold t (zero_state cb.next_address);
        at = lookup-insert_self url _ cb.states;
        failures = ground arith;
        opened = λ h. ground arith;
        shut = λ h. ground arith;
        same = refl;
        waits = refl;
      })

next-IsFailed :
    (cb : CircuitBreaker) (k w n : ℕ) (url : String) (t t' : ℕ)
    → IsFailed cb k w url n t
    → IsFailed (record_failure cb t' url) k w url (suc n) t'
unfolding record_failure
next-IsFailed cb k w n url t t' f =
    rw (f.at, record_failure)
      (record {
        circuit = fail cb.threshold t' f.circuit;
        at = lookup-insert_self url _ cb.states;
        failures = ground (arith, f.failures);
        opened = λ h. ground (arith, f.failures, f.same);
        shut = λ h. ground (arith, f.failures, f.same, f.shut);
        same = f.same;
        waits = f.waits;
      })

-- The time of the last failure.
unfoldable pub last_of : ℕ → List ℕ → ℕ
last_of t [] = t
last_of t (u ∷ us) = last_of u us

fail_all-IsFailed :
    (cb : CircuitBreaker) (k w n : ℕ) (url : String) (t : ℕ) (ts : List ℕ)
    → IsFailed cb k w url n t
    → IsFailed (fail_all cb url ts) k w url (n + length ts) (last_of t ts)
unfolding fail_all last_of
fail_all-IsFailed cb k w n url t [] f = let e : n + length {A = ℕ} [] ≡ n = omega arith in rw e f
fail_all-IsFailed cb k w n url t (u ∷ us) f =
    let e : n + length (u ∷ us) ≡ suc n + length us = omega arith in
    rw e (
      fail_all-IsFailed (record_failure cb u url) k w (suc n) url u us
        (next-IsFailed cb k w n url t u f))

failed_open :
    (cb : CircuitBreaker) (k w n : ℕ) (url : String) (t now : ℕ)
    → IsFailed cb k w url n t
    → ((allow_with_cancel cb now url).1 ≡ circuit_open) ↔ ((k ≤ n) × (now < t + w))
unfolding allow_with_cancel
failed_open cb k w n url t now f =
    rw (f.at, allow_with_cancel)
      (elim (dec_le k n) [
        | yes enough ↦ ground (arith, f.opened enough, f.waits)
        | no few ↦ ground (arith, f.shut (omega arith))
      ])

-- Start with a URL that has no circuit and let it fail at `t` and then at each of `ts`, with no
-- other call in between. A request at `now` is refused exactly if the failures have reached the
-- threshold and the cooldown since the last of them is not over.
pub open_iff :
    (cb : CircuitBreaker) (url : String) (t : ℕ) (ts : List ℕ) (now : ℕ)
    → lookup url cb.states ≡ none
    → ((allow_with_cancel (fail_all cb url (t ∷ ts)) now url).1 ≡ circuit_open)
      ↔ ((cb.threshold ≤ suc (length ts)) × (now < last_of t ts + cb.cooldown))
unfolding fail_all
open_iff cb url t ts now missing =
    failed_open (fail_all (record_failure cb t url) url ts) cb.threshold cb.cooldown
      (suc (length ts)) url (last_of t ts) now
      (rw (suc_length ts) at (
        fail_all-IsFailed (record_failure cb t url) cb.threshold cb.cooldown 1 url t ts
          (first-IsFailed cb url t missing)))
  where
    suc_length : (us : List ℕ) → 1 + length us ≡ suc (length us)
    suc_length us = omega arith

-- Requests for one URL at the given times with nothing in between: how many are let through.
abbrev is_let_through : Admission → Bool
is_let_through circuit_open = false
is_let_through _ = true

unfoldable pub let_through : CircuitBreaker → String → List ℕ → ℕ
let_through cb url [] = 0
let_through cb url (t ∷ ts) =
    let (cb', a) = allow_with_cancel cb t url in
    let rest = let_through cb' url ts in if is_let_through a then suc rest else rest

-- A half-open circuit with `k` probes left lets through exactly `k` more.
half_open-let_through :
    (cb : CircuitBreaker) (url : String) (x : UrlState) (k : ℕ) (ts : List ℕ)
    → lookup url cb.states ≡ some x
    → x.state ≡ half_open
    → x.half_open_probes + k ≡ cb.half_open_probes
    → let_through cb url ts ≡ min (length ts) k
unfolding let_through
half_open-let_through cb url x k [] at half left = ground arith
half_open-let_through cb url x zero (t ∷ ts) at half left =
    let full : allow_with_cancel cb t url ≡ (cb, circuit_open) =
      unfold allow_with_cancel in ground arith in
    rw full (omega (arith, half_open-let_through cb url x zero ts at half left))
half_open-let_through cb url x (suc k) (t ∷ ts) at half left =
    let y : UrlState = next_probe x in
    let cb' : CircuitBreaker = record cb { states = insert url y cb.states } in
    let room : allow_with_cancel cb t url ≡ (cb', probing (cancel_of url y)) =
      unfold allow_with_cancel in ground arith in
    rw room (
      omega (
        arith,
        half_open-let_through cb' url y k ts (lookup-insert_self url y cb.states) half
            (omega arith),
      ))

-- An open circuit whose cooldown is over lets through exactly its number of probes, however many
-- requests come, until one of the probes reports or is cleaned up.
pub let_through_probes :
    (cb : CircuitBreaker) (url : String) (x : UrlState) (t : ℕ) (ts : List ℕ)
    → lookup url cb.states ≡ some x
    → x.state ≡ open_
    → x.opened_at + cb.cooldown ≤ t
    → 1 ≤ cb.half_open_probes
    → let_through cb url (t ∷ ts) ≡ min (suc (length ts)) cb.half_open_probes
unfolding let_through
let_through_probes cb url x t ts at open_now due some_probes =
    let y : UrlState = first_probe x in
    let cb' : CircuitBreaker = record cb { states = insert url y cb.states } in
    let first : allow_with_cancel cb t url ≡ (cb', probing (cancel_of url y)) =
      unfold allow_with_cancel in ground arith in
    rw first (
      omega (
        arith,
        half_open-let_through cb' url y (cb.half_open_probes - 1) ts
            (lookup-insert_self url y cb.states) refl (omega arith),
      ))

abbrev pub call_url : List CancelProbe → Call → Option String
call_url cs (allows now url) = some url
call_url cs (cancels i) = Option.map (λ c. c.url) (get_elem? cs i)
call_url cs (succeeds url) = some url
call_url cs (fails now url) = some url

admit-other :
    (st : State) (cb : CircuitBreaker) (now : ℕ) (url : String) (x : UrlState) (u : String)
    → (url == u) ≡ false
    → lookup u (admit st cb now url x).0.states ≡ lookup u cb.states
unfolding admit
admit-other closed cb now url x u ne = refl
admit-other open_ cb now url x u ne = ground (arith, lookup-insert url u (first_probe x) cb.states)
admit-other half_open cb now url x u ne =
    ground (arith, lookup-insert url u (next_probe x) cb.states)

allow-other :
    (cb : CircuitBreaker) (now : ℕ) (url u : String)
    → (url == u) ≡ false
    → lookup u (allow_with_cancel cb now url).0.states ≡ lookup u cb.states
unfolding allow_with_cancel
allow-other cb now url u ne = elim (Option-cases (lookup url cb.states)) [
  | inl missing ↦ rw (missing, allow_with_cancel)
  | inr (x, at) ↦ rw (at, allow_with_cancel) (admit-other x.state cb now url x u ne)
]

cancel-other :
    (cb : CircuitBreaker) (c : CancelProbe) (u : String)
    → (c.url == u) ≡ false
    → lookup u (cancel_probe cb c).0.states ≡ lookup u cb.states
unfolding cancel_probe
cancel-other cb c u ne = elim (Option-cases (lookup c.url cb.states)) [
  | inl missing ↦ ground arith
  | inr (x, at) ↦ ground (
    arith,
    lookup-insert c.url u (record x { half_open_probes = x.half_open_probes - 1 }) cb.states,
  )
]

failure-other :
    (cb : CircuitBreaker) (now : ℕ) (url u : String)
    → (url == u) ≡ false
    → lookup u (record_failure cb now url).states ≡ lookup u cb.states
unfolding record_failure
failure-other cb now url u ne = elim (Option-cases (lookup url cb.states)) [
  | inl missing ↦
      rw (missing, record_failure)
        (ground (
          arith,
          lookup-insert url u (fail cb.threshold now (zero_state cb.next_address)) cb.states,
        ))
  | inr (x, at) ↦
      rw (at, record_failure)
        (ground (arith, lookup-insert url u (fail cb.threshold now x) cb.states))
]

==-of_ne : (url u : String) → some url ≢ some u → (url == u) ≡ false
==-of_ne url u h = ground (arith, eq_iff url u)

-- A call changes no circuit but that of its URL (for a cleanup, the URL it was handed out for).
pub step-other :
    (s : System) (c : Call) (u : String)
    → call_url s.cleanups c ≢ some u
    → lookup u (step s c).breaker.states ≡ lookup u s.breaker.states
unfolding step
step-other s (allows now url) u h = allow-other s.breaker now url u (==-of_ne url u h)
step-other s (cancels i) u h = elim (Option-cases (get_elem? s.cleanups i)) [
  | inl none_there ↦ rw (none_there, step)
  | inr (c, at) ↦
      rw (at, step)
        (cancel-other s.breaker c u
          (==-of_ne c.url u (λ e. h (ap (Option.map (λ (d : CancelProbe). d.url)) at ∙ e))))
]
step-other s (succeeds url) u h =
    unfold record_success in ground (arith, ==-of_ne url u h, lookup-delete url u s.breaker.states)
step-other s (fails now url) u h = failure-other s.breaker now url u (==-of_ne url u h)
