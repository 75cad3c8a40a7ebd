-- ===== src/Jobs/Trigger.antt =====
-- internal/service/jobs.go: TriggerNow.
use cronlite.Base.{
  ℕ, zero, suc, ◌+◌, ◌*◌, ◌/◌, ◌≡◌, refl, String, Bool, false, ◌&&◌, not, Option, none, some, ◌∷◌,
  any, nat_beq, ltb, ◌==◌, text_key, if◌then◌else◌, if-intro,
}
use cronlite.Domain.{Execution, TriggerEvent, JobWithSchedule, manual, emitted}
use cronlite.Store.{Store, StoreError, insert_execution, inserted, conflicts}
use cronlite.Jobs.{
  Tables, Result, ok, err, JobError, job_disabled, duplicate_execution, database_failed,
  get_job_with_schedule_scoped, namespace_required,
}
use cronlite.Jobs.Service.{World, call}

-- Per attempt: the clock, the new id, and whether the insertion fails; and whether there is an emitter.
pub record Trigger : Type 0 where
  pub clock : ℕ → ℕ
  pub new_id : ℕ → ℕ
  pub insert_fails : ℕ → Bool
  pub has_emitter : Bool

abbrev pub max_insert_attempts : ℕ
max_insert_attempts = 5

-- Truncate(time.Microsecond).
abbrev pub whole_us : ℕ → ℕ
whole_us t = t / 1000 * 1000

-- After the timestamp of the attempt before, if there was one.
abbrev pub timestamp : ℕ → ℕ → ℕ
timestamp last now = if not (nat_beq last 0) && not (ltb last now) then last + 1000 else now

abbrev pub new_execution : ℕ → String → ℕ → ℕ → Execution
new_execution job_id ns id now = record {
  id = id;
  job_id = job_id;
  namespace = ns;
  trigger_type = manual;
  scheduled_at = now;
  fired_at = now;
  status = emitted;
  acknowledged_at = none;
  created_at = now;
  claimed_at = none;
  claim_generation = 0;
  lease_until = none;
}

abbrev pub with_executions : Tables → Store → Tables
with_executions t s = record t { executions = s.executions }

abbrev pub executions_store : Tables → Store
executions_store t = record { executions = t.executions; lease_ms = 0 }

abbrev pub after_insert :
    Tables
    → Execution
    → Store × Option StoreError
    → Tables × Result Execution
    → Tables × Result Execution
after_insert t e (s, none) next = (with_executions t s, ok e)
after_insert t e (s, some duplicate) next = next

-- The loop from attempt `i` on, with so many left; all of them were duplicates.
unfoldable pub insert_attempts :
    Trigger → ℕ → String → (left i last : ℕ) → Tables → Tables × Result Execution
insert_attempts g job_id ns zero i last t = (t, err duplicate_execution)
insert_attempts g job_id ns (suc left) i last t =
    let now = timestamp last (whole_us (g.clock i)) in
    let e = new_execution job_id ns (g.new_id i) now in
    let next = insert_attempts g job_id ns left (i + 1) now t in
    if g.insert_fails i
    then (t, err database_failed)
    else after_insert t e (insert_execution (executions_store t) e) next

abbrev pub trigger_event : Execution → TriggerEvent
trigger_event e = record {
  execution_id = e.id;
  job_id = e.job_id;
  namespace = e.namespace;
  scheduled_at = e.scheduled_at;
  fired_at = e.fired_at;
  created_at = e.created_at;
}

-- The tables, the reply, and the event given to the emitter.
pub record Triggered : Type 0 where
  pub tables : Tables
  pub reply : Result Execution
  pub event : Option TriggerEvent

abbrev pub no_event : Tables → JobError → Triggered
no_event t e = record { tables = t; reply = err e; event = none }

abbrev pub with_event : Trigger → Tables × Result Execution → Triggered
with_event g (t, err e) = no_event t e
with_event g (t, ok e) = record {
  tables = t;
  reply = ok e;
  event = if g.has_emitter then some (trigger_event e) else none;
}

abbrev pub trigger_found : Trigger → String → ℕ → Tables → Result JobWithSchedule → Triggered
trigger_found g ns id t (err e) = no_event t e
trigger_found g ns id t (ok f) =
    if not f.job.enabled
    then no_event t job_disabled
    else with_event g (insert_attempts g id ns max_insert_attempts 0 0 t)

unfoldable pub trigger_now : World → Trigger → String → ℕ → Tables → Triggered
trigger_now w g ns id t =
    if ns == ""
    then no_event t namespace_required
    else trigger_found g ns id t (call w.read_fails (get_job_with_schedule_scoped id ns t))

-- An error changes nothing; otherwise one new row, of that job and namespace, waits to be claimed.
abbrev pub InsertedOnce : ℕ → String → Tables → Tables × Result Execution → Type 0
InsertedOnce id ns t (after, err e) = after ≡ t
InsertedOnce id ns t (after, ok e) =
    (after ≡ record t { executions = inserted e ∷ t.executions })
    × (any (conflicts e) t.executions ≡ false)
    × (e.job_id ≡ id)
    × (e.namespace ≡ ns)
    × (e.status ≡ emitted)
    × (e.trigger_type ≡ manual)

insert-InsertedOnce :
    (id : ℕ) (ns : String) (new now : ℕ) (t : Tables) (next : Tables × Result Execution)
    → InsertedOnce id ns t next
    → InsertedOnce id ns t (
        after_insert t
          (new_execution id ns new now)
          (insert_execution (executions_store t) (new_execution id ns new now))
          next)
unfolding insert_execution
insert-InsertedOnce id ns new now t next h =
    let e = new_execution id ns new now in
    if-intro (λ r. InsertedOnce id ns t (after_insert t e r next)) (any (conflicts e) t.executions)
      _ _ (λ b. h) (λ b. (refl, b, refl, refl, refl, refl))

attempts-InsertedOnce :
    (g : Trigger) (id : ℕ) (ns : String) (left i last : ℕ) (t : Tables)
    → InsertedOnce id ns t (insert_attempts g id ns left i last t)
unfolding insert_attempts
attempts-InsertedOnce g id ns zero i last t = refl
attempts-InsertedOnce g id ns (suc left) i last t =
    let now = timestamp last (whole_us (g.clock i)) in
    if-intro (InsertedOnce id ns t) (g.insert_fails i) _ _ (λ b. refl)
      (λ b.
        insert-InsertedOnce id ns (g.new_id i) now t (insert_attempts g id ns left (i + 1) now t)
          (attempts-InsertedOnce g id ns left (i + 1) now t))

-- The row and the event of a manual run.
abbrev pub TriggersOnce : Trigger → ℕ → String → Tables → Triggered → Type 0
TriggersOnce g id ns t r =
    InsertedOnce id ns t (r.tables, r.reply)
    × (r.event ≡ elim r.reply as (λ x. Option TriggerEvent) [
      | ok e ↦ if g.has_emitter then some (trigger_event e) else none
      | err e ↦ none
    ])

with_event-TriggersOnce :
    (g : Trigger) (id : ℕ) (ns : String) (t : Tables) (r : Tables × Result Execution)
    → InsertedOnce id ns t r
    → TriggersOnce g id ns t (with_event g r)
with_event-TriggersOnce g id ns t (u, err e) h = (h, refl)
with_event-TriggersOnce g id ns t (u, ok e) h = (h, refl)

found-TriggersOnce :
    (g : Trigger) (ns : String) (id : ℕ) (t : Tables) (r : Result JobWithSchedule)
    → TriggersOnce g id ns t (trigger_found g ns id t r)
found-TriggersOnce g ns id t (err e) = (refl, refl)
found-TriggersOnce g ns id t (ok f) =
    if-intro (TriggersOnce g id ns t) (not f.job.enabled) _ _ (λ b. (refl, refl))
      (λ b.
        with_event-TriggersOnce g id ns t (insert_attempts g id ns max_insert_attempts 0 0 t)
          (attempts-InsertedOnce g id ns max_insert_attempts 0 0 t))

-- A manual trigger either fails and changes nothing, or adds one row, which no row conflicts with, of
-- that job and namespace, manual and emitted; an event goes to the emitter, if there is one, exactly
-- for the row that was added.
pub trigger_now-TriggersOnce :
    (w : World) (g : Trigger) (ns : String) (id : ℕ) (t : Tables)
    → TriggersOnce g id ns t (trigger_now w g ns id t)
unfolding trigger_now
trigger_now-TriggersOnce w g ns id t =
    if-intro (TriggersOnce g id ns t) (ns == "") _ _ (λ b. (refl, refl))
      (λ b. found-TriggersOnce g ns id t _)
