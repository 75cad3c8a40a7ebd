-- ===== src/Dispatcher/Bounds.antt =====
-- dispatcher.go: the numbers of attempts, completions and reports of one dispatch, and its time.
use cronlite.Base.{
  ℕ, zero, suc, ◌+◌, ◌*◌, ◌≤◌, ◌≡◌, refl, String, true, false, none, some, arith, if◌then◌else◌,
  ltb, ap, ◌==◌, text_key,
}
use cronlite.Domain.{Execution, second, Job}
use cronlite.Dispatcher.{
  Effect, waits, sends, completes, Environment, Dispatcher, WebhookRequest, WebhookResult, complete,
  fail_delivery, deliver, attempt, attempts, max_attempts, backoff_of, default_backoff,
  max_retry_duration, max_webhook_attempt_timeout, request_of, zero_result, refuses,
}
use cronlite.Dispatcher.Claimed.{dispatch, Claim, claimed, dispatch_owned, with_job, gated}
use cronlite.Dispatcher.Effects.{total, total-dispatch, is_report, report-attempts}

abbrev pub is_send : Effect → ℕ
is_send (sends n req) = 1
is_send _ = 0

abbrev pub is_completion : Effect → ℕ
is_completion (completes s) = 1
is_completion _ = 0

-- The time that an effect takes: a backoff, or the sending of an attempt.
abbrev pub time_of : Environment → Effect → ℕ
time_of env (waits d) = d
time_of env (sends n req) = (env.answer n).duration
time_of env _ = 0

-- The end of a delivery sends nothing, takes no time and completes at most once.
end_bounds :
    (d : Dispatcher) (env : Environment) (at : ℕ) (url : String) (r : WebhookResult)
    → (total is_send (deliver d env at).effects ≡ 0)
      × (total is_send (fail_delivery d env url r).effects ≡ 0)
      × (total (time_of env) (deliver d env at).effects ≡ 0)
      × (total (time_of env) (fail_delivery d env url r).effects ≡ 0)
unfolding deliver fail_delivery complete total
end_bounds d env at url r = (ground arith, ground arith, ground arith, ground arith)

end_completes :
    (d : Dispatcher) (env : Environment) (at : ℕ) (url : String) (r : WebhookResult)
    → (total is_completion (deliver d env at).effects ≤ 1)
      × (total is_completion (fail_delivery d env url r).effects ≤ 1)
unfolding deliver fail_delivery complete total
end_completes d env at url r = (ground arith, ground arith)

send-attempts :
    (d : Dispatcher) (env : Environment) (x : Execution) (req : WebhookRequest) (left n : ℕ)
    (last : WebhookResult)
    → total is_send (attempts d env x req left n last).effects ≤ left
unfolding attempts attempt total
send-attempts d env x req zero n last = ground (arith, end_bounds d env 0 req.url last)
send-attempts d env x req (suc left) n last = ground (
  arith,
  end_bounds d env req.scheduled_at req.url (env.answer n),
  send-attempts d env x req left (suc n) (env.answer n),
)

completion-attempts :
    (d : Dispatcher) (env : Environment) (x : Execution) (req : WebhookRequest) (left n : ℕ)
    (last : WebhookResult)
    → total is_completion (attempts d env x req left n last).effects ≤ 1
unfolding attempts attempt total
completion-attempts d env x req zero n last = (end_completes d env 0 req.url last).1
completion-attempts d env x req (suc left) n last = ground (
  arith,
  end_completes d env req.scheduled_at req.url (env.answer n),
  completion-attempts d env x req left (suc n) (env.answer n),
)

-- Whatever the world answers, one dispatch sends the webhook at most `maxAttempts` times, reports
-- at most one outcome to the circuit breaker, and asks the store for at most one completion.
pub dispatch_bounded :
    (d : Dispatcher) (env : Environment) (c : Claim)
    → let effects = (dispatch d env c).effects in
      (total is_send effects ≤ max_attempts)
      × (total is_report effects ≤ 1)
      × (total is_completion effects ≤ 1)
dispatch_bounded d env c = (
  total-dispatch is_send (refl, refl, refl, refl) (λ a. refl) (λ s. refl) max_attempts d env c
      (λ x event j. send-attempts d env x (request_of x event j) max_attempts 1 zero_result),
  total-dispatch is_report (refl, refl, refl, refl) (λ a. refl) (λ s. refl) 1 d env c
      (λ x event j. report-attempts d env x (request_of x event j) max_attempts 1 zero_result),
  total-dispatch is_completion (refl, refl, refl, refl) (λ a. refl) (λ s. refl) 1 d env c
      (λ x event j. completion-attempts d env x (request_of x event j) max_attempts 1 zero_result),
)

-- One iteration, given its backoff and the time of the rest.
time-attempts :
    (d : Dispatcher) (env : Environment) (x : Execution) (req : WebhookRequest)
    (left n wait rest : ℕ) (last : WebhookResult)
    → (env.answer n).duration ≤ max_webhook_attempt_timeout
    → (if ltb 1 n then backoff_of d.backoff n else 0) ≡ wait
    → total (time_of env) (attempts d env x req left (suc n) (env.answer n)).effects ≤ rest
    → total (time_of env) (attempts d env x req (suc left) n last).effects
      ≤ wait + max_webhook_attempt_timeout + rest
unfolding attempts attempt total
time-attempts d env x req left n wait rest last quick waited h =
    ground (arith, end_bounds d env req.scheduled_at req.url (env.answer n))

time-all :
    (d : Dispatcher) (env : Environment) (x : Execution) (req : WebhookRequest)
    → d.backoff ≡ default_backoff
    → ((n : ℕ) → (env.answer n).duration ≤ max_webhook_attempt_timeout)
    → total (time_of env) (attempts d env x req max_attempts 1 zero_result).effects
      ≤ max_retry_duration
unfolding max_retry_duration backoff_of
time-all d env x req usual quick =
    let t1 =
      time-attempts d env x req 0 4 (600 * second) 0 (env.answer 3) (quick 4)
        (ap (λ ds. backoff_of ds 4) usual)
        (unfold attempts in ground (arith, end_bounds d env 0 req.url (env.answer 4))) in
    let t2 =
      time-attempts d env x req 1 3 (120 * second) _ (env.answer 2) (quick 3)
        (ap (λ ds. backoff_of ds 3) usual) t1 in
    let t3 =
      time-attempts d env x req 2 2 (30 * second) _ (env.answer 1) (quick 2)
        (ap (λ ds. backoff_of ds 2) usual) t2 in
    time-attempts d env x req 3 1 0 _ zero_result (quick 1) refl t3

-- With the default backoffs, and a sender that answers each attempt within a minute, the waits and
-- the attempts of one dispatch take at most `MaxRetryDuration()` in all.
pub dispatch_duration :
    (d : Dispatcher) (env : Environment) (c : Claim)
    → d.backoff ≡ default_backoff
    → ((n : ℕ) → (env.answer n).duration ≤ max_webhook_attempt_timeout)
    → total (time_of env) (dispatch d env c).effects ≤ max_retry_duration
dispatch_duration d env c usual quick =
    total-dispatch (time_of env) (refl, refl, refl, refl) (λ a. refl) (λ s. refl) max_retry_duration
      d env c (λ x event j. time-all d env x (request_of x event j) usual quick)

-- While the circuit of its URL is open, a claimed execution of a job with a URL is deferred without
-- an error: nothing is sent, the circuit breaker hears nothing, and the execution is not completed
-- (so its lease runs out and it can be recovered).
pub circuit_open_defers :
    (d : Dispatcher) (env : Environment) (x : Execution) (job : Job)
    → d.has_breaker ≡ true
    → env.gate ≡ refuses
    → env.job ≡ some job
    → (job.delivery.webhook_url == "") ≡ false
    → 1 ≤ x.claim_generation
    → 1000000 ≤ env.lease_duration
    → let o = dispatch d env (claimed x) in
      (total is_send o.effects ≡ 0)
      × (total is_report o.effects ≡ 0)
      × (total is_completion o.effects ≡ 0)
      × (o.error ≡ none)
unfolding dispatch dispatch_owned with_job gated total
circuit_open_defers d env x job guarded shut found url owned long =
    (ground arith, ground arith, ground arith, ground arith)
