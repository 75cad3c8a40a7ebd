-- ===== src/Breaker.antt =====
-- internal/circuitbreaker/breaker.go: one circuit per webhook URL.
-- Times are nanoseconds on the monotonic clock, which never runs backwards; counters of type `int`
-- do not overflow, and the `uint64` epoch keeps its wrap. The `*urlState` that a URL maps to is the
-- record under that URL; its address, which a cleanup compares, is the field `address`.
pub mod System
pub mod Permits
pub mod Laws
pub mod Safety
mod Examples
use cronlite.Base.{
  ℕ, suc, ◌+◌, ◌-◌, ◌%◌, ◌^◌, String, Bool, true, false, ◌&&◌, Option, none, some, List, [], ltb,
  leb, nat_beq, if◌then◌else◌, lookup, insert, delete, text_key,
}

pub data State : Type 0 where
  closed open_ half_open : State

pub record UrlState : Type 0 where
  pub address : ℕ
  pub state : State
  pub consecutive_failures : ℕ
  pub opened_at : ℕ
  pub half_open_probes : ℕ
  pub probe_epoch : ℕ  -- uint64

abbrev pub default_half_open_probes : ℕ
default_half_open_probes = 3

pub record CircuitBreaker : Type 0 where
  pub states : List (String × UrlState)
  pub threshold : ℕ
  pub cooldown : ℕ
  pub half_open_probes : ℕ
  pub next_address : ℕ

unfoldable pub new : ℕ → ℕ → CircuitBreaker
new threshold cooldown = record {
  states = [];
  threshold = threshold;
  cooldown = cooldown;
  half_open_probes = default_half_open_probes;
  next_address = 0;
}

unfoldable pub with_half_open_probes : CircuitBreaker → ℕ → CircuitBreaker
with_half_open_probes cb n = record cb { half_open_probes = if ltb n 1 then 1 else n }

-- The closure that `cancelProbe` returns: what it captured, and whether its `once` has run.
pub record CancelProbe : Type 0 where
  pub url : String
  pub admitted : ℕ
  pub epoch : ℕ
  pub fired : Bool

-- The results of `AllowWithCancel`: `(nil, nil)`, `(cleanup, nil)` and `(nil, ErrCircuitOpen)`.
pub data Admission : Type 0 where
  admitted : Admission
  probing : CancelProbe → Admission
  circuit_open : Admission

abbrev pub cancel_of : String → UrlState → CancelProbe
cancel_of url s = record { url = url; admitted = s.address; epoch = s.probe_epoch; fired = false }

abbrev pub first_probe : UrlState → UrlState
first_probe s = record s {
  state = half_open;
  half_open_probes = 1;
  probe_epoch = (s.probe_epoch + 1) % 2 ^ 64;
}

abbrev pub next_probe : UrlState → UrlState
next_probe s = record s { half_open_probes = s.half_open_probes + 1 }

abbrev pub admit_probe : CircuitBreaker → String → UrlState → CircuitBreaker × Admission
admit_probe cb url s = (record cb { states = insert url s cb.states }, probing (cancel_of url s))

-- The `switch` on the state.
unfoldable pub admit : State → CircuitBreaker → ℕ → String → UrlState → CircuitBreaker × Admission
admit closed cb now url s = (cb, admitted)
admit open_ cb now url s =
    if leb (s.opened_at + cb.cooldown) now
    then admit_probe cb url (first_probe s)
    else (cb, circuit_open)
admit half_open cb now url s =
    if ltb s.half_open_probes cb.half_open_probes
    then admit_probe cb url (next_probe s)
    else (cb, circuit_open)

unfoldable pub allow_with_cancel : CircuitBreaker → ℕ → String → CircuitBreaker × Admission
unfolding admit
allow_with_cancel cb now url = elim (lookup url cb.states) [
  | none ↦ (cb, admitted)
  | some s ↦ admit s.state cb now url s
]

abbrev pub is_half_open : State → Bool
is_half_open half_open = true
is_half_open _ = false

-- The conditions of the cleanup on the state that the URL maps to now.
abbrev pub holds_permit : CancelProbe → UrlState → Bool
holds_permit c s =
    nat_beq s.address c.admitted
    && is_half_open s.state
    && nat_beq s.probe_epoch c.epoch
    && ltb 0 s.half_open_probes

unfoldable pub release : CircuitBreaker → CancelProbe → CircuitBreaker
release cb c = elim (lookup c.url cb.states) [
  | none ↦ cb
  | some s ↦
      if holds_permit c s
      then record cb {
        states = insert c.url (record s { half_open_probes = s.half_open_probes - 1 }) cb.states;
      }
      else cb
]

-- Calling the closure: `once.Do` runs its body the first time only.
unfoldable pub cancel_probe : CircuitBreaker → CancelProbe → CircuitBreaker × CancelProbe
unfolding release
cancel_probe cb c = if c.fired then (cb, c) else (release cb c, record c { fired = true })

unfoldable pub record_success : CircuitBreaker → String → CircuitBreaker
record_success cb url = record cb { states = delete url cb.states }

abbrev pub zero_state : ℕ → UrlState
zero_state address = record {
  address = address;
  state = closed;
  consecutive_failures = 0;
  opened_at = 0;
  half_open_probes = 0;
  probe_epoch = 0;
}

abbrev pub fail : ℕ → ℕ → UrlState → UrlState
fail threshold now s =
    let failures = s.consecutive_failures + 1 in
    if leb threshold failures
    then record s { consecutive_failures = failures; state = open_; opened_at = now }
    else record s { consecutive_failures = failures }

unfoldable pub record_failure : CircuitBreaker → ℕ → String → CircuitBreaker
record_failure cb now url = elim (lookup url cb.states) [
  | none ↦ record cb {
    states = insert url (fail cb.threshold now (zero_state cb.next_address)) cb.states;
    next_address = suc cb.next_address;
  }
  | some s ↦ record cb { states = insert url (fail cb.threshold now s) cb.states }
]
