-- ===== src/Reconciler.antt =====
-- internal/reconciler/reconciler.go: one cycle of the recovery of lost work, over the store.
-- What the cycle cannot decide is a `World`: the clock, whether the two statements fail, and, by the
-- number of the orphan, whether the context ended before it and whether the emitter took it.
-- Log lines are left out.
pub mod Cycle
mod Examples
use cronlite.Base.{
  ℕ, suc, ◌+◌, ◌-◌, ◌*◌, ◌/◌, Bool, true, false, List, [], ◌∷◌, length, nat_beq, if◌then◌else◌,
}
use cronlite.Domain.{Execution, TriggerEvent, second}
use cronlite.Dispatcher.{max_retry_duration}
use cronlite.Store.{Store, requeue_expired_executions, get_orphaned_executions}

abbrev pub safety_margin : ℕ
safety_margin = 150 * second

pub record Config : Type 0 where
  pub interval : ℕ
  pub threshold : ℕ
  pub batch_size : ℕ

-- In microseconds, as the clocks below and the times of the Store.
unfoldable pub default_config : Config
default_config = record {
  interval = 300 * second / 1000;
  threshold = (max_retry_duration + safety_margin) / 1000;
  batch_size = 100;
}

-- `db_now` is the database's clock, which decides the leases.
pub record World : Type 0 where
  pub now : ℕ
  pub db_now : ℕ
  pub requeue_fails : Bool
  pub orphans_fail : Bool
  pub cut_off : ℕ → Bool
  pub accepts : ℕ → Bool

-- An emission with the emitter's answer, or the report of the number of orphans.
pub data Effect : Type 0 where
  orphaned_executions_update : ℕ → Effect
  emits : TriggerEvent → Bool → Effect

abbrev pub event_of : World → Execution → TriggerEvent
event_of w x = record {
  execution_id = x.id;
  job_id = x.job_id;
  namespace = x.namespace;
  scheduled_at = x.scheduled_at;
  fired_at = x.fired_at;
  created_at = w.now;
}

-- The loop over the orphans from number `i` on. An emission that fails is not retried here.
unfoldable pub re_emit : World → ℕ → List Execution → List Effect
re_emit w i [] = []
re_emit w i (x ∷ xs) =
    let rest = re_emit w (suc i) xs in
    if w.cut_off i then [] else emits (event_of w x) (w.accepts i) ∷ rest

abbrev pub orphan_cutoff : Config → World → ℕ
orphan_cutoff c w = w.now - c.threshold

abbrev pub requeue : Config → World → Store → Store
requeue c w s =
    if w.requeue_fails then s else (requeue_expired_executions s w.db_now c.batch_size).0

-- `has_metrics` tells whether a sink is attached.
unfoldable pub run_cycle : Config → Bool → World → Store → Store × List Effect
run_cycle c has_metrics w s =
    let t = requeue c w s in
    let orphans = get_orphaned_executions t (orphan_cutoff c w) c.batch_size in
    let emissions = re_emit w 0 orphans in
    if w.orphans_fail
    then (t, [])
    else if has_metrics
    then (t, orphaned_executions_update (length orphans) ∷ emissions)
    else (t, emissions)
