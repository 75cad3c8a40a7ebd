-- ===== src/Dispatcher.antt =====
-- internal/dispatcher/dispatcher.go: the delivery of one claimed execution.
-- What happens outside (the job lookup, the waits, the lease, the sender) is an `Environment`; what
-- the dispatcher does is the list of its effects, in order, and its error. Log lines are left out.
-- Durations are nanoseconds.
pub mod Claimed
pub mod Effects
pub mod Bounds
pub mod Verdict
pub mod Delivered
pub mod Classify
mod Examples
use cronlite.Base.{
  ℕ, zero, suc, ◌+◌, ◌-◌, ◌*◌, String, Bool, true, false, not, ◌&&◌, ◌||◌, Option, none, some, List,
  [], ◌∷◌, ◌++◌, length, get_or, ltb, leb, nat_beq, ◌==◌, text_key, if◌then◌else◌,
}
use cronlite.Domain.{
  Execution, ExecutionStatus, delivered, failed, TriggerEvent, Job, AnalyticsConfig, second,
}

abbrev pub default_backoff : List ℕ
default_backoff = 0 ∷ (30 * second) ∷ (120 * second) ∷ (600 * second) ∷ []

abbrev pub max_attempts : ℕ
max_attempts = 4

abbrev pub max_webhook_attempt_timeout : ℕ
max_webhook_attempt_timeout = 60 * second

abbrev pub sum : List ℕ → ℕ
sum [] = 0
sum (d ∷ ds) = d + sum ds

unfoldable pub max_retry_duration : ℕ
max_retry_duration = max_attempts * max_webhook_attempt_timeout + sum default_backoff

-- `errors.Is(err, webhookurl.ErrDestinationBlocked)`, or another error with its text.
pub data SendError : Type 0 where
  destination_blocked : SendError
  other : String → SendError

pub record WebhookResult : Type 0 where
  pub status_code : ℕ
  pub error : Option SendError
  pub duration : ℕ

abbrev pub no_error : Option SendError → Bool
no_error none = true
no_error (some x) = false

abbrev pub is_blocked : Option SendError → Bool
is_blocked (some destination_blocked) = true
is_blocked _ = false

unfoldable pub is_success : WebhookResult → Bool
is_success r = no_error r.error && leb 200 r.status_code && ltb r.status_code 300

-- A blocked destination is permanent, every other error is transient.
unfoldable pub is_retryable : WebhookResult → Bool
is_retryable r = elim r.error [
  | some e ↦ not (is_blocked (some e))
  | none ↦ if nat_beq r.status_code 429 then true else leb 500 r.status_code
]

pub record WebhookRequest : Type 0 where
  pub url : String
  pub secret : String
  pub timeout : ℕ
  pub job_id : ℕ
  pub job_name : String
  pub execution_id : ℕ
  pub scheduled_at : ℕ
  pub fired_at : ℕ
  pub attempt_id : ℕ
  pub namespace : String

pub record DeliveryAttempt : Type 0 where
  pub id : ℕ
  pub execution_id : ℕ
  pub attempt : ℕ
  pub claim_generation : ℕ
  pub status_code : ℕ
  pub error : Option SendError

pub data DispatchError : Type 0 where
  claim_failed claim_lost get_job_failed no_webhook_url : DispatchError
  interrupted renewal_failed lease_ended completion_failed : DispatchError

pub data Effect : Type 0 where
  in_flight_incr in_flight_decr closes_lease cancels_probe : Effect
  records_analytics : AnalyticsConfig → Effect
  retry_metric : Bool → Effect
  waits : ℕ → Effect
  renews : Effect
  sends : ℕ → WebhookRequest → Effect
  breaker_success breaker_failure : String → Effect
  attempt_metric : ℕ → WebhookResult → Effect
  records_attempt : DeliveryAttempt → Effect
  outcome_metric : String → Effect
  latency_metric : ℕ → Effect
  completes : ExecutionStatus → Effect

-- The outcome of `AllowWithCancel`, with or without a cleanup.
pub data Gate : Type 0 where
  passes passes_as_probe refuses : Gate

-- What the world answers. The numbers are those of the attempts. `cut_off n` is a context that
-- ends in the wait before attempt `n`; `lost_before` and `lost_after` are the checks of the lease's
-- context around the send; `renewed` is false if the renewal returns an error.
pub record Environment : Type 0 where
  pub lease_duration : ℕ
  pub job : Option Job
  pub gate : Gate
  pub cut_off : ℕ → Bool
  pub renewed : ℕ → Bool
  pub lost_before : ℕ → Bool
  pub answer : ℕ → WebhookResult
  pub lost_after : ℕ → Bool
  pub attempt_id : ℕ → ℕ
  pub end_lost : Bool
  pub stored : Bool
  pub stored_lost : Bool

pub record Dispatcher : Type 0 where
  pub has_analytics : Bool
  pub has_metrics : Bool
  pub has_breaker : Bool
  pub backoff : List ℕ

pub record Outcome : Type 0 where
  pub effects : List Effect
  pub error : Option DispatchError

abbrev pub stop : Option DispatchError → Outcome
stop e = record { effects = []; error = e }

abbrev pub emit : Effect → Outcome → Outcome
emit x o = record o { effects = x ∷ o.effects }

abbrev pub emit_if : Bool → Effect → Outcome → Outcome
emit_if b x o = if b then emit x o else o

-- A deferred call, made when the function returns.
abbrev pub finally : Effect → Outcome → Outcome
finally x o = record o { effects = o.effects ++ x ∷ [] }

abbrev pub finally_if : Bool → Effect → Outcome → Outcome
finally_if b x o = if b then finally x o else o

-- `lease.complete` (ownership.go): the store is asked only while the lease's context lives, and
-- its answer counts only if the context still lives afterwards.
unfoldable pub complete : Environment → ExecutionStatus → Outcome
complete env status =
    if env.end_lost
    then stop (some lease_ended)
    else emit (completes status) (
        stop (
          if env.stored_lost
          then some lease_ended
          else if env.stored
          then none
          else some completion_failed))

-- After the loop.
unfoldable pub fail_delivery : Dispatcher → Environment → String → WebhookResult → Outcome
fail_delivery d env url last =
    emit_if (d.has_breaker && not (is_blocked last.error)) (breaker_failure url)
      (emit_if d.has_metrics (outcome_metric "failed") (complete env failed))

-- The latency is observed from the scheduled time.
unfoldable pub deliver : Dispatcher → Environment → ℕ → Outcome
deliver d env scheduled_at =
    emit_if d.has_metrics (outcome_metric "success")
      (emit_if d.has_metrics (latency_metric scheduled_at) (complete env delivered))

abbrev pub attempt_record : Execution → Environment → ℕ → DeliveryAttempt
attempt_record x env n = record {
  id = env.attempt_id n;
  execution_id = x.id;
  attempt = n;
  claim_generation = x.claim_generation;
  status_code = (env.answer n).status_code;
  error = (env.answer n).error;
}

-- The part of the loop's body from the renewal on; `again` is the next iteration.
unfoldable pub attempt :
    Dispatcher → Environment → Execution → WebhookRequest → ℕ → (WebhookResult → Outcome) → Outcome
attempt d env x req n again =
    let r = env.answer n in
    emit renews (
      if not (env.renewed n)
      then stop (some renewal_failed)
      else if env.lost_before n
      then stop (some lease_ended)
      else emit (sends n (record req { attempt_id = env.attempt_id n })) (
          emit_if (is_success r && d.has_breaker) (breaker_success req.url) (
            emit_if d.has_metrics (attempt_metric n r) (
              emit (records_attempt (attempt_record x env n)) (
                if env.lost_after n
                then stop (some lease_ended)
                else if is_success r
                then deliver d env req.scheduled_at
                else if not (is_retryable r)
                then fail_delivery d env req.url r
                else again r)))))

-- The backoff before attempt `n`: the entry `n - 1`, or the last one. The code gives a dispatcher the
-- four default backoffs; with no backoffs at all the index would be out of range.
unfoldable pub backoff_of : List ℕ → ℕ → ℕ
backoff_of ds n = get_or ds (if leb (length ds) (n - 1) then length ds - 1 else n - 1) 0

-- The loop, with `left` iterations to go; `last` is the result of the attempt before.
unfoldable pub attempts :
    Dispatcher → Environment → Execution → WebhookRequest → ℕ → ℕ → WebhookResult → Outcome
attempts d env x req zero n last = fail_delivery d env req.url last
attempts d env x req (suc left) n last =
    let body = attempt d env x req n (attempts d env x req left (suc n)) in
    if ltb 1 n
    then emit_if d.has_metrics (retry_metric (is_retryable last)) (
        emit (waits (backoff_of d.backoff n))
          (if env.cut_off n then stop (some interrupted) else body))
    else body

abbrev pub zero_result : WebhookResult
zero_result = record { status_code = 0; error = none; duration = 0 }

abbrev pub request_of : Execution → TriggerEvent → Job → WebhookRequest
request_of x event job = record {
  url = job.delivery.webhook_url;
  secret = job.delivery.secret;
  timeout = job.delivery.timeout;
  job_id = event.job_id;
  job_name = job.name;
  execution_id = event.execution_id;
  scheduled_at = event.scheduled_at;
  fired_at = event.fired_at;
  attempt_id = 0;
  namespace = x.namespace;
}

abbrev pub deliveries : Dispatcher → Environment → Execution → TriggerEvent → Job → Outcome
deliveries d env x event job = attempts d env x (request_of x event job) max_attempts 1 zero_result
