-- ===== src/Lease.antt =====
-- internal/dispatcher/ownership.go: the worker's own view of its claim, `executionLease`.
-- Times are microseconds. The worker's monotonic clock and the database's clock run at one rate, and
-- are read here as one clock. The mutexes make each operation one step, and a renewal two: the
-- statement and its answer.
pub mod Holds
pub mod Fence
mod Examples
use cronlite.Base.{
  ℕ, ◌+◌, ◌*◌, max, String, Bool, true, false, not, ◌&&◌, ◌||◌, Option, none, some, List, [], ◌∷◌,
  leb, if◌then◌else◌,
}
use cronlite.Store.{Store, StoreError, renew_execution_claim}
use cronlite.Store.Steps.{Op, step}

-- What the lease's context can end with.
pub data Cause : Type 0 where
  claim_lost ownership_uncertain deadline_exceeded cancelled : Cause

pub record ExecutionLease : Type 0 where
  pub deadline : ℕ
  pub duration : ℕ
  pub ended : Option Cause

unfoldable pub new_execution_lease : ℕ → ℕ → ExecutionLease
new_execution_lease claim_started duration = record {
  deadline = claim_started + duration;
  duration = duration;
  ended = none;
}

abbrev pub is_ended : ExecutionLease → Bool
is_ended l = elim l.ended [ none ↦ false | some c ↦ true ]

-- `cancel`: the first cause stays.
abbrev pub cancel : Cause → ExecutionLease → ExecutionLease
cancel c l = if is_ended l then l else record l { ended = some c }

-- One look of the watchdog.
unfoldable pub watch_expiry : ℕ → ExecutionLease → ExecutionLease
watch_expiry now l = if leb l.deadline now then cancel claim_lost l else l

-- The part of renew after the statement, which began at `started`.
unfoldable pub finish_renew : ℕ → ℕ → Bool → ExecutionLease → ExecutionLease
finish_renew started now ok l =
    if not ok
    then cancel ownership_uncertain l
    else if is_ended l
    then l
    else if leb l.deadline now
    then cancel claim_lost l
    else record l { deadline = started + l.duration }

-- A worker, the table, and the start of the renewal whose answer is under way, if the database
-- granted it.
pub record Worker : Type 0 where
  pub store : Store
  pub lease : ExecutionLease
  pub pending : Option ℕ

-- What happens: a statement of anybody, the worker's renewal that began at a time and reaches the
-- database now, its answer (false is an error), a look of the watchdog, the end of the context.
pub data Event : Type 0 where
  others : Op → Event
  renews_row : ℕ → Event
  hears : Bool → Event
  looks : Event
  ends : Cause → Event

abbrev pub granted : ℕ → Option StoreError → Option ℕ
granted started none = some started
granted started (some e) = none

abbrev pub hear : ℕ → Bool → Option ℕ → ExecutionLease → ExecutionLease
hear now ok none l = finish_renew 0 now false l
hear now ok (some started) l = finish_renew started now ok l

abbrev pub start_renewal : ℕ → String → ℕ → ℕ → ℕ → Option ℕ → Worker → Worker
start_renewal i ns generation now started (some t) w = w
start_renewal i ns generation now started none w =
    let (s, e) = renew_execution_claim w.store now i ns generation in
    record w { store = s; pending = granted started e }

-- The claim is that of row `i` in namespace `ns` under `generation`. A renewal under way holds off
-- the next one, and none begins once the context has ended.
unfoldable pub happens : ℕ → String → ℕ → ℕ → Event → Worker → Worker
happens i ns generation now (others op) w = record w { store = step w.store op }
happens i ns generation now (renews_row started) w =
    if is_ended w.lease then w else start_renewal i ns generation now started w.pending w
happens i ns generation now (hears ok) w = record w {
  lease = hear now ok w.pending w.lease;
  pending = none;
}
happens i ns generation now looks w = record w { lease = watch_expiry now w.lease }
happens i ns generation now (ends c) w = record w { lease = cancel c w.lease }

unfoldable pub run_worker : ℕ → String → ℕ → List (ℕ × Event) → Worker → Worker
run_worker i ns generation [] w = w
run_worker i ns generation ((now, event) ∷ rest) w =
    run_worker i ns generation rest (happens i ns generation now event w)
