-- ===== src/Dispatcher/Claimed.antt =====
-- dispatcher.go: the gates of a claimed execution, and the dispatch from its claim on.
use cronlite.Base.{◌&&◌, ◌||◌, Option, none, some, ltb, nat_beq, ◌==◌, text_key, if◌then◌else◌}
use cronlite.Domain.{Execution, TriggerEvent, Job}
use cronlite.Dispatcher.{
  Dispatcher, Environment, Gate, Outcome, cancels_probe, claim_failed, claim_lost, closes_lease,
  deliveries, emit_if, finally, finally_if, get_job_failed, in_flight_decr, in_flight_incr,
  no_webhook_url, outcome_metric, passes, passes_as_probe, records_analytics, refuses, stop,
}

-- The circuit breaker's gate; a probe's cleanup is deferred.
unfoldable pub gated : Gate → Dispatcher → Environment → Execution → TriggerEvent → Job → Outcome
gated refuses d env x event job = emit_if d.has_metrics (outcome_metric "circuit_open") (stop none)
gated passes d env x event job = deliveries d env x event job
gated passes_as_probe d env x event job = finally cancels_probe (deliveries d env x event job)

unfoldable pub with_job : Dispatcher → Environment → Execution → TriggerEvent → Option Job → Outcome
with_job d env x event none = stop (some get_job_failed)
with_job d env x event (some job) =
    emit_if (d.has_analytics && job.analytics.enabled) (records_analytics job.analytics) (
      if job.delivery.webhook_url == ""
      then stop (some no_webhook_url)
      else if d.has_breaker
      then gated env.gate d env x event job
      else deliveries d env x event job)

unfoldable pub dispatch_owned : Dispatcher → Environment → Execution → TriggerEvent → Outcome
dispatch_owned d env x event =
    if nat_beq x.claim_generation 0 || ltb env.lease_duration 1000000
    then stop (some claim_lost)
    else finally closes_lease (
        emit_if d.has_metrics in_flight_incr
          (finally_if d.has_metrics in_flight_decr (with_job d env x event env.job)))

abbrev pub event_of : Execution → TriggerEvent
event_of x = record {
  execution_id = x.id;
  job_id = x.job_id;
  namespace = x.namespace;
  scheduled_at = x.scheduled_at;
  fired_at = x.fired_at;
  created_at = x.created_at;
}

-- The result of `ClaimExecution`: an error, no row, or the claimed row.
pub data Claim : Type 0 where
  claim_error nothing_claimed : Claim
  claimed : Execution → Claim

-- The event names the execution; its other fields are read from the claimed row.
unfoldable pub dispatch : Dispatcher → Environment → Claim → Outcome
dispatch d env claim_error = stop (some claim_failed)
dispatch d env nothing_claimed = stop none
dispatch d env (claimed x) = dispatch_owned d env x (event_of x)
