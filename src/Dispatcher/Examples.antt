-- ===== src/Dispatcher/Examples.antt =====
-- Dispatches in a concrete world, and the theorems at concrete inputs.
use cronlite.Base.{
  ℕ, zero, suc, ◌≤◌, ◌<◌, ◌≡◌, ◌↔◌, text_key, refl, true, false, none, some, [], ◌∷◌, arith,
}
use cronlite.Domain.{Execution, in_progress, delivered, scheduled, Job}
use cronlite.Dispatcher.{
  Environment, Dispatcher, WebhookResult, max_attempts, default_backoff, max_retry_duration,
  max_webhook_attempt_timeout, Gate, passes, passes_as_probe,
}
use cronlite.Dispatcher.Claimed.{dispatch, claimed}
use cronlite.Dispatcher.Effects.{total, is_report}
use cronlite.Dispatcher.Bounds.{
  is_send, is_completion, time_of, dispatch_bounded, dispatch_duration,
}
use cronlite.Dispatcher.Verdict.{statuses, verdict, IsHealthy, dispatch_completes}
use cronlite.Dispatcher.Delivered.{FirstSuccess, delivered_iff}

abbrev claimed_row : Execution
claimed_row = record {
  id = 7;
  job_id = 1;
  namespace = "ns";
  trigger_type = scheduled;
  scheduled_at = 60;
  fired_at = 61;
  status = in_progress;
  acknowledged_at = none;
  created_at = 61;
  claimed_at = some 62;
  claim_generation = 1;
  lease_until = some 1000;
}

abbrev report_job : Job
report_job = record {
  id = 1;
  namespace = "ns";
  name = "report";
  enabled = true;
  schedule_id = 1;
  delivery = record { webhook_url = "https://a/"; secret = "s"; timeout = 30 };
  analytics = record { enabled = false; retention_seconds = 0 };
  created_at = 0;
  updated_at = 0;
}

abbrev usual : Dispatcher
usual = record {
  has_analytics = false;
  has_metrics = true;
  has_breaker = true;
  backoff = default_backoff;
}

-- The first attempt is answered by 503, every later one by 200.
abbrev recovering : ℕ → WebhookResult
recovering zero = record { status_code = 503; error = none; duration = 5 }
recovering (suc zero) = record { status_code = 503; error = none; duration = 5 }
recovering (suc (suc n)) = record { status_code = 200; error = none; duration = 5 }

abbrev world : Gate → Environment
world g = record {
  lease_duration = 2000000;
  job = some report_job;
  gate = g;
  cut_off = λ n. false;
  renewed = λ n. true;
  lost_before = λ n. false;
  answer = recovering;
  lost_after = λ n. false;
  attempt_id = λ n. n;
  end_lost = false;
  stored = true;
  stored_lost = false;
}

world-IsHealthy : (g : Gate) → IsHealthy (world g)
world-IsHealthy g = record {
  goes_on = λ n. refl;
  renews_it = λ n. refl;
  keeps_before = λ n. refl;
  keeps_after = λ n. refl;
  keeps_end = refl;
}

recovering-quick : (n : ℕ) → (recovering n).duration ≤ max_webhook_attempt_timeout
recovering-quick zero = omega arith
recovering-quick (suc zero) = omega arith
recovering-quick (suc (suc n)) = omega arith

dispatch_bounded_example :
    let effects = (dispatch usual (world passes_as_probe) (claimed claimed_row)).effects in
    (total is_send effects ≤ max_attempts)
    × (total is_report effects ≤ 1)
    × (total is_completion effects ≤ 1)
dispatch_bounded_example = dispatch_bounded usual (world passes_as_probe) (claimed claimed_row)

dispatch_duration_example :
    total (time_of (world passes)) (dispatch usual (world passes) (claimed claimed_row)).effects
    ≤ max_retry_duration
dispatch_duration_example =
    dispatch_duration usual (world passes) (claimed claimed_row) refl recovering-quick

dispatch_completes_example :
    statuses (dispatch usual (world passes_as_probe) (claimed claimed_row)).effects
    ≡ verdict (world passes_as_probe) max_attempts 1 ∷ []
dispatch_completes_example =
    dispatch_completes usual (world passes_as_probe) claimed_row report_job
      (world-IsHealthy passes_as_probe) (omega arith) (omega arith) refl refl refl

delivered_iff_example :
    (statuses (dispatch usual (world passes_as_probe) (claimed claimed_row)).effects
      ≡ delivered ∷ [])
    ↔ ((k : ℕ) × (k < 4) × FirstSuccess (world passes_as_probe) 1 k)
delivered_iff_example =
    delivered_iff usual (world passes_as_probe) claimed_row report_job
      (world-IsHealthy passes_as_probe) (omega arith) (omega arith) refl refl refl
