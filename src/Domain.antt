-- ===== src/Domain.antt =====
-- internal/domain: the records and enumerations that the components exchange.
-- A UUID is a number; a time is a number of nanoseconds since the zero `time.Time`, which is 0.
use cronlite.Base.{ℕ, String, Bool, true, false, Option}

pub data ExecutionStatus : Type 0 where
  emitted in_progress delivered failed : ExecutionStatus

pub data TriggerType : Type 0 where
  scheduled manual : TriggerType

abbrev pub is_emitted : ExecutionStatus → Bool
is_emitted emitted = true
is_emitted _ = false

abbrev pub is_in_progress : ExecutionStatus → Bool
is_in_progress in_progress = true
is_in_progress _ = false

-- `delivered` and `failed`.
abbrev pub is_terminal : ExecutionStatus → Bool
is_terminal delivered = true
is_terminal failed = true
is_terminal _ = false

abbrev pub is_scheduled : TriggerType → Bool
is_scheduled scheduled = true
is_scheduled manual = false

pub record Execution : Type 0 where
  pub id : ℕ
  pub job_id : ℕ
  pub namespace : String
  pub trigger_type : TriggerType
  pub scheduled_at : ℕ
  pub fired_at : ℕ
  pub status : ExecutionStatus
  pub acknowledged_at : Option ℕ
  pub created_at : ℕ
  pub claimed_at : Option ℕ
  pub claim_generation : ℕ
  pub lease_until : Option ℕ

pub record TriggerEvent : Type 0 where
  pub execution_id : ℕ
  pub job_id : ℕ
  pub namespace : String
  pub scheduled_at : ℕ
  pub fired_at : ℕ
  pub created_at : ℕ

-- The webhook of a job (delivery.go; the type is always "webhook") and its analytics settings.
pub record DeliveryConfig : Type 0 where
  pub webhook_url : String
  pub secret : String
  pub timeout : ℕ

pub record AnalyticsConfig : Type 0 where
  pub enabled : Bool
  pub retention_seconds : ℕ

pub record Job : Type 0 where
  pub id : ℕ
  pub namespace : String
  pub name : String
  pub enabled : Bool
  pub schedule_id : ℕ
  pub delivery : DeliveryConfig
  pub analytics : AnalyticsConfig
  pub created_at : ℕ
  pub updated_at : ℕ

pub record Schedule : Type 0 where
  pub id : ℕ
  pub cron_expression : String
  pub timezone : String
  pub created_at : ℕ
  pub updated_at : ℕ

pub record JobWithSchedule : Type 0 where
  pub job : Job
  pub schedule : Schedule

-- One `time.Second`, in nanoseconds.
abbrev pub second : ℕ
second = 1000000000
