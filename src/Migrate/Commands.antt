-- ===== src/Migrate/Commands.antt =====
-- run.go: Run from its start, NeedsBaseline and StatusOf. A database may lack the tracking table.
use cronlite.Base.{
  ℕ, ◌≡◌, refl, Bool, true, false, not, ◌&&◌, Option, none, some, List, [], ◌∷◌, map, arith, All,
  any, lookup, if◌then◌else◌, if-intro, text_key, id_key,
}
use cronlite.Base.Texts.{Text}
use cronlite.Migrate.Load.{Migration}
use cronlite.Migrate.{World, Schema, Rows, Recorded, Database, Outcome, run_tracked, has_relation}
use cronlite.Migrate.Recording.{IsRecorded}
use cronlite.Migrate.Runs.{RecordedIfDone, run-Recorded}
use cronlite.Migrate.Lock.{
  LockWorld, LockAnswer, acquired, query_failed, lock_timeout, wait_cancelled, still_waiting,
  acquire_lock,
}
use mathlib.Core.Path.{subst}

pub record Untracked : Type 0 where
  pub schema : Schema
  pub tracking : Option Rows

abbrev pub rows_of : Option Rows → Rows
rows_of none = []
rows_of (some rows) = rows

-- CREATE TABLE IF NOT EXISTS.
abbrev pub create_tracking_table : Untracked → Database
create_tracking_table db = record { schema = db.schema; rows = rows_of db.tracking }

abbrev pub with_tracking : Database → Untracked
with_tracking db = record { schema = db.schema; tracking = some db.rows }

-- Not connected, the lock not acquired, no tracking table made, or a run under the lock.
pub data Ended : Type 0 where
  not_connected : Ended
  not_locked : LockAnswer → Ended
  not_tracked : Ended
  ran : Outcome → Ended

abbrev pub run_locked : World → List Migration → Untracked → LockAnswer → Ended
unfolding run_tracked
run_locked w ms db acquired =
    if w.create_fails then not_tracked else ran (run_tracked w ms (create_tracking_table db))
run_locked w ms db answer = not_locked answer

unfoldable pub run :
    (connects : Bool) → LockWorld → ℕ → ℕ → World → List Migration → Untracked → Ended
unfolding acquire_lock run_tracked
run connects lock start timeout w ms db =
    if connects then run_locked w ms db (acquire_lock lock start timeout) else not_connected

abbrev pub database_after : Ended → Untracked → Untracked
database_after (ran o) db = with_tracking o.db
database_after e db = db

abbrev pub is_some {ℓ} : {A : Type ℓ} → Option A → Bool
is_some none = false
is_some (some a) = true

-- The tracking table is missing and the table of the jobs is there.
unfoldable pub needs_baseline : Untracked → Bool
unfolding has_relation
needs_baseline db = not (is_some db.tracking) && has_relation "jobs" db.schema

pub data State : Type 0 where
  state_applied state_baselined state_pending : State

abbrev pub state_of : Option Recorded → State
state_of none = state_pending
state_of (some r) = if r.baselined then state_baselined else state_applied

pub record Status : Type 0 where
  pub version : ℕ
  pub name : Text
  pub state : State

unfoldable pub status_of : Untracked → List Migration → List Status
unfolding lookup
status_of db ms =
    map
      (λ m. record {
        version = m.version;
        name = m.name;
        state = state_of (lookup m.version (rows_of db.tracking));
      })
      ms

abbrev pub is_pending : Status → Bool
is_pending s = elim s.state [ state_pending ↦ true | _ ↦ false ]

recorded_not_pending :
    (r : Option Recorded) (m : Migration)
    → elim r as (λ x. Bool) [ none ↦ false | some x ↦ true ] ≡ true
    → is_pending (record { version = m.version; name = m.name; state = state_of r }) ≡ false
recorded_not_pending none m h = absurd (ground (arith, h))
recorded_not_pending (some r) m h = ground arith

none_pending :
    (db : Database) (ms : List Migration)
    → All (IsRecorded db.rows) ms
    → any is_pending (status_of (with_tracking db) ms) ≡ false
unfolding status_of any
none_pending db [] h = refl
none_pending db (m ∷ ms) (hm, h) =
    let p = recorded_not_pending (lookup m.version db.rows) m hm in
    ground (arith, p, none_pending db ms h)

abbrev RecordedIfRan : List Migration → Ended → Type 0
RecordedIfRan ms (ran o) = RecordedIfDone ms o
RecordedIfRan ms e = Unit

locked_recorded :
    (w : World) (ms : List Migration) (db : Untracked) (a : LockAnswer)
    → RecordedIfRan ms (run_locked w ms db a)
unfolding run_locked
locked_recorded w ms db acquired =
    if-intro (RecordedIfRan ms) w.create_fails not_tracked _ (λ b. tt)
      (λ b. run-Recorded w ms (create_tracking_table db))
locked_recorded w ms db query_failed = tt
locked_recorded w ms db lock_timeout = tt
locked_recorded w ms db wait_cancelled = tt
locked_recorded w ms db still_waiting = tt

-- After a run that ends without an error, no migration's status is pending.
pub run-status :
    (connects : Bool) (lock : LockWorld) (start timeout : ℕ) (w : World) (ms : List Migration)
    (db : Untracked) (o : Outcome)
    → run connects lock start timeout w ms db ≡ ran o
    → o.error ≡ none
    → any is_pending (status_of (database_after (ran o) db) ms) ≡ false
unfolding run
run-status connects lock start timeout w ms db o e ok =
    let R = RecordedIfRan ms in
    let h =
      if-intro R connects _ _ (λ b. locked_recorded w ms db (acquire_lock lock start timeout))
        (λ b. tt) in
    none_pending o.db ms (subst R e h ok)
