-- ===== src/Scheduler.antt =====
-- internal/scheduler/scheduler.go: one tick of the scheduler.
-- The clock, the time zones, the cron parser, the store and the emitter are a `World`; the answer to
-- the insertion of a job's slot number `i` of this tick, and to its emission, are `inserted` and
-- `accepts`. An instant is the same in every zone, so `In(loc)` is no operation here. An `int` or a
-- duration of the configuration that is not positive is 0. Log lines and metrics are left out.
pub mod Ticks
pub mod Fires
pub mod Pages
pub mod Tick
mod Examples
use cronlite.Base.{
  ℕ, zero, suc, ◌+◌, ◌-◌, ◌*◌, ◌%◌, String, Bool, true, false, not, ◌&&◌, ◌||◌, Option, none, some,
  List, [], ◌∷◌, ◌++◌, length, get_or, take, filter_by, sort_by, ltb, leb, nat_beq, ◌==◌, text_key,
  if◌then◌else◌,
}
use cronlite.Domain.{
  Execution, emitted, scheduled, TriggerEvent, Job, Schedule, JobWithSchedule, second,
}

pub record Config : Type 0 where
  pub tick_interval : ℕ
  pub max_fires_per_tick : ℕ

pub record Scheduler : Type 0 where
  pub config : Config
  pub last_tick : ℕ
  pub deferred_cursor : Bool

-- What `InsertExecution` answers.
pub data Inserted : Type 0 where
  stored duplicate insert_failed : Inserted

-- What `GetLastScheduledExecution` answers.
pub data LastScheduled : Type 0 where
  lookup_failed not_found : LastScheduled
  found : ℕ → LastScheduled

-- `last_scheduled` is none if the store has no such method; a job is named by its id.
pub record World : Type 0 where
  pub now : ℕ
  pub knows_zone : String → Bool
  pub parse : String → String → Option (ℕ → ℕ)
  pub last_scheduled : Option (ℕ → LastScheduled)
  pub inserted : ℕ → ℕ → Inserted
  pub accepts : ℕ → ℕ → Bool
  pub new_id : ℕ → ℕ → ℕ

pub data Effect : Type 0 where
  inserts : Execution → Inserted → Effect
  emits : TriggerEvent → Effect

pub data JobError : Type 0 where
  unknown_zone bad_cron not_inserted : JobError

-- `processJobResult`, with the error and the effects in order.
pub record JobResult : Type 0 where
  pub triggered : ℕ
  pub capped : Bool
  pub cursor : ℕ
  pub error : Option JobError
  pub effects : List Effect

abbrev pub minute : ℕ
minute = 60 * second

-- `Truncate(time.Minute)`.
abbrev pub truncate : ℕ → ℕ
truncate t = t - t % minute

unfoldable pub tick_interval : Config → ℕ
tick_interval c = if ltb 0 c.tick_interval then c.tick_interval else minute

-- The cursor that windowStart starts from.
unfoldable pub base_cursor : Scheduler → Job → ℕ → ℕ
base_cursor s job now =
    if not (nat_beq s.last_tick 0)
    then (if ltb s.last_tick job.created_at && leb job.created_at now
        then job.created_at
        else s.last_tick)
    else if nat_beq job.created_at 0 || ltb now job.created_at
    then now - tick_interval s.config
    else job.created_at

-- The resumption from the last scheduled execution.
abbrev pub resumed : Option (ℕ → LastScheduled) → ℕ → ℕ → ℕ
resumed none id cursor = cursor
resumed (some ask) id cursor = elim (ask id) [
  | found t ↦ if ltb cursor t then t else cursor
  | _ ↦ cursor
]

unfoldable pub window_start : World → Scheduler → Job → ℕ
window_start w s job =
    let cursor = base_cursor s job w.now in
    if not (nat_beq s.last_tick 0) && not s.deferred_cursor
    then cursor
    else resumed w.last_scheduled job.id cursor

abbrev pub execution_of : World → Job → ℕ → ℕ → Execution
execution_of w job i scheduled_at = record {
  id = w.new_id job.id i;
  job_id = job.id;
  namespace = job.namespace;
  trigger_type = scheduled;
  scheduled_at = scheduled_at;
  fired_at = w.now;
  status = emitted;
  acknowledged_at = none;
  created_at = w.now;
  claimed_at = none;
  claim_generation = 0;
  lease_until = none;
}

abbrev pub event_of : World → Job → ℕ → ℕ → TriggerEvent
event_of w job i scheduled_at = record {
  execution_id = w.new_id job.id i;
  job_id = job.id;
  namespace = job.namespace;
  scheduled_at = scheduled_at;
  fired_at = w.now;
  created_at = w.now;
}

-- `emitExecution`: whether the slot is durable, whether it counts as triggered, and the effects.
pub record Emission : Type 0 where
  pub persisted : Bool
  pub ok : Bool
  pub effects : List Effect

-- What follows the insertion of the slot, by its answer.
abbrev pub emission : World → Job → ℕ → ℕ → Inserted → Emission
emission w job i at stored = record {
  persisted = true;
  ok = w.accepts job.id i;
  effects = inserts (execution_of w job i at) stored ∷ emits (event_of w job i at) ∷ [];
}
emission w job i at duplicate = record {
  persisted = true;
  ok = true;
  effects = inserts (execution_of w job i at) duplicate ∷ [];
}
emission w job i at insert_failed = record {
  persisted = false;
  ok = false;
  effects = inserts (execution_of w job i at) insert_failed ∷ [];
}

unfoldable pub emit_execution : World → Job → ℕ → ℕ → Emission
emit_execution w job i at = emission w job i at (w.inserted job.id i)

-- A slot that was persisted is the new cursor.
abbrev pub advance : Emission → ℕ → JobResult → JobResult
advance e at r = record r {
  triggered = if e.ok then r.triggered + 1 else r.triggered;
  cursor = at;
  effects = r.effects ++ e.effects;
}

abbrev pub give_up : Emission → JobResult → JobResult
give_up e r = record r { error = some not_inserted; effects = r.effects ++ e.effects }

-- The loop over the due times from `t` on, iteration `i`, with `left` iterations to go.
unfoldable pub fire : (ℕ → ℕ) → World → Job → ℕ → ℕ → ℕ → JobResult → JobResult
fire next w job zero i t r = if leb t w.now then record r { capped = true } else r
fire next w job (suc left) i t r =
    let e = emit_execution w job i (truncate t) in
    let after = advance e (truncate t) r in
    let rest = fire next w job left (suc i) (next t) after in
    if not (leb t w.now)
    then r
    else if not e.persisted
    then give_up e r
    else if nat_beq (next t) 0 || leb (next t) t
    then after
    else rest

abbrev pub failed_early : JobError → JobResult
failed_early e = record { triggered = 0; capped = false; cursor = 0; error = some e; effects = [] }

unfoldable pub max_iterations : Config → ℕ
max_iterations c = if nat_beq c.max_fires_per_tick 0 then 1000 else c.max_fires_per_tick

abbrev pub at_start : ℕ → JobResult
at_start start = record {
  triggered = 0;
  capped = false;
  cursor = start;
  error = none;
  effects = [];
}

-- The part of processJobWithProgress from the first due time on.
unfoldable pub process_due : (ℕ → ℕ) → World → Config → Job → ℕ → JobResult
process_due next w c job start =
    if nat_beq (next start) 0 || leb (next start) start
    then at_start start
    else fire next w job (max_iterations c) 0 (next start) (at_start start)

unfoldable pub process_parsed : World → Scheduler → Job → Option (ℕ → ℕ) → JobResult
process_parsed w s job none = failed_early bad_cron
process_parsed w s job (some next) = process_due next w s.config job (window_start w s job)

abbrev pub zone_of : Schedule → String
zone_of schedule = if schedule.timezone == "" then "UTC" else schedule.timezone

unfoldable pub process_job : World → Scheduler → JobWithSchedule → JobResult
process_job w s jws =
    let tz = zone_of jws.schedule in
    if not (w.knows_zone tz)
    then failed_early unknown_zone
    else process_parsed w s jws.job (w.parse jws.schedule.cron_expression tz)

abbrev pub has_error : JobResult → Bool
has_error r = elim r.error [ none ↦ false | some e ↦ true ]
