-- ===== src/Dispatcher/Verdict.antt =====
-- dispatcher.go: which status a delivery ends with, when its lease holds.
use cronlite.Base.{
  ℕ, zero, suc, ◌≤◌, ◌≡◌, ◌≢◌, refl, sym, ◌∙◌, ap, String, Bool, true, false, not, some, List, [],
  ◌∷◌, ◌++◌, arith, if◌then◌else◌, text_key, ◌==◌,
}
use cronlite.Domain.{Execution, ExecutionStatus, delivered, failed, TriggerEvent, Job}
use cronlite.Dispatcher.{
  Effect, in_flight_incr, in_flight_decr, closes_lease, cancels_probe, completes, Environment,
  Dispatcher, WebhookRequest, WebhookResult, complete, fail_delivery, deliver, attempt, attempts,
  Gate, passes, passes_as_probe, refuses, request_of, zero_result, max_attempts, is_success,
  is_retryable,
}
use cronlite.Dispatcher.Claimed.{gated, with_job, dispatch_owned, dispatch, claimed, event_of}

-- The statuses that a dispatch asks the store for.
abbrev pub status_of : Effect → List ExecutionStatus
status_of (completes s) = s ∷ []
status_of _ = []

unfoldable pub statuses : List Effect → List ExecutionStatus
statuses [] = []
statuses (e ∷ es) = status_of e ++ statuses es

statuses-snoc :
    (es : List Effect) (e : Effect) → status_of e ≡ [] → statuses (es ++ e ∷ []) ≡ statuses es
unfolding statuses
statuses-snoc [] e h = ground arith
statuses-snoc (x ∷ es) e h = ap (◌++◌ (status_of x)) (statuses-snoc es e h)

-- Nothing takes the lease away or ends the context.
pub record IsHealthy (env : Environment) : Type 0 where
  pub goes_on : (n : ℕ) → env.cut_off n ≡ false
  pub renews_it : (n : ℕ) → env.renewed n ≡ true
  pub keeps_before : (n : ℕ) → env.lost_before n ≡ false
  pub keeps_after : (n : ℕ) → env.lost_after n ≡ false
  pub keeps_end : env.end_lost ≡ false

-- The status by the answers from attempt `n` on, with `left` attempts to go.
unfoldable pub verdict : Environment → ℕ → ℕ → ExecutionStatus
verdict env zero n = failed
verdict env (suc left) n =
    let later = verdict env left (suc n) in
    if is_success (env.answer n)
    then delivered
    else if is_retryable (env.answer n)
    then later
    else failed

status-end :
    (d : Dispatcher) (env : Environment) (at : ℕ) (url : String) (r : WebhookResult)
    → env.end_lost ≡ false
    → (statuses (deliver d env at).effects ≡ delivered ∷ [])
      × (statuses (fail_delivery d env url r).effects ≡ failed ∷ [])
unfolding deliver fail_delivery complete statuses
status-end d env at url r alive = (ground arith, ground arith)

status-attempts :
    (d : Dispatcher) (env : Environment) (x : Execution) (req : WebhookRequest) (left n : ℕ)
    (last : WebhookResult)
    → IsHealthy env
    → statuses (attempts d env x req left n last).effects ≡ verdict env left n ∷ []
unfolding attempts attempt statuses verdict
status-attempts d env x req zero n last v = (status-end d env 0 req.url last v.keeps_end).1
status-attempts d env x req (suc left) n last v = ground (
  arith,
  v.goes_on n,
  v.renews_it n,
  v.keeps_before n,
  v.keeps_after n,
  status-end d env req.scheduled_at req.url (env.answer n) v.keeps_end,
  status-attempts d env x req left (suc n) (env.answer n) v,
)

abbrev pub admits : Dispatcher → Gate → Bool
admits d refuses = not d.has_breaker
admits d _ = true

status-gated :
    (g : Gate) (d : Dispatcher) (env : Environment) (x : Execution) (event : TriggerEvent)
    (job : Job)
    → IsHealthy env
    → g ≢ refuses
    → statuses (gated g d env x event job).effects ≡ verdict env max_attempts 1 ∷ []
unfolding gated
status-gated passes d env x event job v h =
    status-attempts d env x (request_of x event job) max_attempts 1 zero_result v
status-gated passes_as_probe d env x event job v h =
    statuses-snoc _ cancels_probe refl
    ∙ status-attempts d env x (request_of x event job) max_attempts 1 zero_result v
status-gated refuses d env x event job v h = absurd (h refl)

status-with_job :
    (d : Dispatcher) (env : Environment) (x : Execution) (event : TriggerEvent) (job : Job)
    → IsHealthy env
    → (job.delivery.webhook_url == "") ≡ false
    → admits d env.gate ≡ true
    → statuses (with_job d env x event (some job)).effects ≡ verdict env max_attempts 1 ∷ []
unfolding with_job statuses
status-with_job d env x event job v url through = ground (
  arith,
  status-gated env.gate d env x event job v,
  status-attempts d env x (request_of x event job) max_attempts 1 zero_result v,
)

-- A claimed execution of a job with a webhook URL, whose lease lasts to the end of the delivery and
-- whose circuit lets it through, is completed exactly once, with the status that the answers to
-- the attempts give: delivered at the first success, failed at the first answer that is neither a
-- success nor retryable, failed when the attempts are used up.
pub dispatch_completes :
    (d : Dispatcher) (env : Environment) (x : Execution) (job : Job)
    → IsHealthy env
    → 1 ≤ x.claim_generation
    → 1000000 ≤ env.lease_duration
    → env.job ≡ some job
    → (job.delivery.webhook_url == "") ≡ false
    → admits d env.gate ≡ true
    → statuses (dispatch d env (claimed x)).effects ≡ verdict env max_attempts 1 ∷ []
unfolding dispatch dispatch_owned statuses
dispatch_completes d env x job v owned long found url through =
    let body = with_job d env x (event_of x) env.job in
    ground (
      arith,
      rw (sym found) at (status-with_job d env x (event_of x) job v url through),
      statuses-snoc body.effects in_flight_decr refl,
      statuses-snoc (body.effects ++ in_flight_decr ∷ []) closes_lease refl,
      statuses-snoc (in_flight_incr ∷ body.effects ++ in_flight_decr ∷ []) closes_lease refl,
      statuses-snoc body.effects closes_lease refl,
    )
