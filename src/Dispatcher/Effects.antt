-- ===== src/Dispatcher/Effects.antt =====
-- dispatcher.go: what a dispatch does, whatever the world answers: its attempts, its reports to the
-- circuit breaker, its completion and its time.
use cronlite.Base.{
  ℕ, zero, suc, ◌+◌, ◌≤◌, ◌≡◌, String, Option, none, some, List, [], ◌∷◌, ◌++◌, arith, text_key,
}
use cronlite.Domain.{Execution, ExecutionStatus, delivered, failed, TriggerEvent, Job}
use cronlite.Dispatcher.{
  Effect, in_flight_incr, in_flight_decr, closes_lease, cancels_probe, records_analytics,
  breaker_success, breaker_failure, outcome_metric, Environment, Dispatcher, WebhookRequest,
  WebhookResult, complete, fail_delivery, deliver, attempt, attempts, Gate, passes, passes_as_probe,
  refuses, request_of, zero_result, max_attempts,
}
use cronlite.Dispatcher.Claimed.{
  gated, with_job, dispatch_owned, dispatch, event_of, Claim, claim_error, nothing_claimed, claimed,
}

-- A total over the effects, by a weight for each.
unfoldable pub total : (Effect → ℕ) → List Effect → ℕ
total w [] = 0
total w (e ∷ es) = w e + total w es

total-append : (w : Effect → ℕ) (xs ys : List Effect) → total w (xs ++ ys) ≡ total w xs + total w ys
unfolding total
total-append w [] ys = omega arith
total-append w (x ∷ xs) ys = omega (arith, total-append w xs ys)

-- Effects that only a delivery has: the outer layers add none of them.
module _ (w : Effect → ℕ)
    (light : (w in_flight_incr ≡ 0)
      × (w in_flight_decr ≡ 0)
      × (w closes_lease ≡ 0)
      × (w cancels_probe ≡ 0))
    (quiet : (a : _) → w (records_analytics a) ≡ 0)
    (mute : (s : String) → w (outcome_metric s) ≡ 0) where
  total-gated :
      (bound : ℕ) (g : Gate) (d : Dispatcher) (env : Environment) (x : Execution)
      (event : TriggerEvent) (job : Job)
      → total w (attempts d env x (request_of x event job) max_attempts 1 zero_result).effects
        ≤ bound
      → total w (gated g d env x event job).effects ≤ bound
  unfolding gated total
  total-gated bound passes d env x event job h = h
  total-gated bound passes_as_probe d env x event job h = ground (
    arith,
    light,
    total-append w (attempts d env x (request_of x event job) max_attempts 1 zero_result).effects
        (cancels_probe ∷ []),
  )
  total-gated bound refuses d env x event job h = ground (arith, mute "circuit_open")

  total-with_job :
      (bound : ℕ) (d : Dispatcher) (env : Environment) (x : Execution) (event : TriggerEvent)
      (job : Option Job)
      → ((j : Job)
          → total w (attempts d env x (request_of x event j) max_attempts 1 zero_result).effects
            ≤ bound)
      → total w (with_job d env x event job).effects ≤ bound
  unfolding with_job total
  total-with_job bound d env x event none h = omega arith
  total-with_job bound d env x event (some job) h =
      ground
        (arith, quiet job.analytics, h job, total-gated bound env.gate d env x event job (h job))

  total-dispatch_owned :
      (bound : ℕ) (d : Dispatcher) (env : Environment) (x : Execution) (event : TriggerEvent)
      → ((j : Job)
          → total w (attempts d env x (request_of x event j) max_attempts 1 zero_result).effects
            ≤ bound)
      → total w (dispatch_owned d env x event).effects ≤ bound
  unfolding dispatch_owned total
  total-dispatch_owned bound d env x event h = ground (
    arith,
    light,
    total-with_job bound d env x event env.job h,
    total-append w (with_job d env x event env.job).effects (closes_lease ∷ []),
    total-append w
        (in_flight_incr ∷ (with_job d env x event env.job).effects ++ in_flight_decr ∷ [])
        (closes_lease ∷ []),
    total-append w (with_job d env x event env.job).effects (in_flight_decr ∷ []),
  )

  pub total-dispatch :
      (bound : ℕ) (d : Dispatcher) (env : Environment) (c : Claim)
      → ((x : Execution) (event : TriggerEvent) (j : Job)
          → total w (attempts d env x (request_of x event j) max_attempts 1 zero_result).effects
            ≤ bound)
      → total w (dispatch d env c).effects ≤ bound
  unfolding dispatch total
  total-dispatch bound d env claim_error h = omega arith
  total-dispatch bound d env nothing_claimed h = omega arith
  total-dispatch bound d env (claimed x) h =
      total-dispatch_owned bound d env x (event_of x) (h x (event_of x))

-- Reports to the circuit breaker.
abbrev pub is_report : Effect → ℕ
is_report (breaker_success url) = 1
is_report (breaker_failure url) = 1
is_report _ = 0

report-complete :
    (env : Environment) (s : ExecutionStatus) → total is_report (complete env s).effects ≡ 0
unfolding complete total
report-complete env s = ground arith

report-deliver :
    (d : Dispatcher) (env : Environment) (at : ℕ) → total is_report (deliver d env at).effects ≡ 0
unfolding deliver total
report-deliver d env at = ground (arith, report-complete env delivered)

report-fail :
    (d : Dispatcher) (env : Environment) (url : String) (r : WebhookResult)
    → total is_report (fail_delivery d env url r).effects ≤ 1
unfolding fail_delivery total
report-fail d env url r = ground (arith, report-complete env failed)

pub report-attempts :
    (d : Dispatcher) (env : Environment) (x : Execution) (req : WebhookRequest) (left n : ℕ)
    (last : WebhookResult)
    → total is_report (attempts d env x req left n last).effects ≤ 1
unfolding attempts attempt total
report-attempts d env x req zero n last = report-fail d env req.url last
report-attempts d env x req (suc left) n last = ground (
  arith,
  report-deliver d env req.scheduled_at,
  report-fail d env req.url (env.answer n),
  report-attempts d env x req left (suc n) (env.answer n),
)
