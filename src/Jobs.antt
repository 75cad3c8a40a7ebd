-- ===== src/Jobs.antt =====
-- internal/store/postgres/store.go, control.go and queries.go: the tables of the jobs, their schedules
-- and tags, with the executions and delivery attempts that go when a job is deleted. A table with a
-- primary key is a map from it; of the attempts, only the keys. A transaction or statement that fails
-- leaves the tables as they were. Jobs/Service is the layer above.
pub mod Service
pub mod Isolation
pub mod Rows
pub mod Schedules
pub mod Tenancy
pub mod Listing
pub mod Phrases
pub mod Trigger
pub mod NextRuns
mod Examples
use cronlite.Base.{
  ℕ, ◌+◌, ◌*◌, ◌/◌, String, Bool, true, false, ◌&&◌, ◌||◌, not, Option, none, some, List, [], ◌∷◌,
  map, any, filter_by, nat_beq, lookup, insert, delete, ◌==◌, text_key, id_key, if◌then◌else◌,
}
use cronlite.Domain.{Execution, Job, Schedule, JobWithSchedule, DeliveryConfig}

-- A tag's key and value.
abbrev pub Tag : Type 0
Tag = String × String

-- The id of an attempt and of its execution.
abbrev pub Attempt : Type 0
Attempt = ℕ × ℕ

pub record Tables : Type 0 where
  pub jobs : List (ℕ × Job)
  pub schedules : List (ℕ × Schedule)
  pub tags : List (ℕ × List Tag)
  pub executions : List Execution
  pub attempts : List Attempt

pub data JobError : Type 0 where
  namespace_required job_not_found execution_not_found job_disabled duplicate_execution : JobError
  invalid_cron_expression invalid_timezone invalid_webhook_url webhook_host_not_allowed : JobError
  schedule_parse_failure constraint_violated database_failed : JobError

pub data Result {ℓ} (A : Type ℓ) : Type ℓ where
  ok : A → Result A
  err : JobError → Result A

abbrev pub and_then {ℓ κ} : {A : Type ℓ} {B : Type κ} → Result A → (A → Result B) → Result B
and_then (ok a) f = f a
and_then (err e) f = err e

abbrev pub or_not_found {ℓ} : {A : Type ℓ} → Option A → Result A
or_not_found none = err job_not_found
or_not_found (some a) = ok a

abbrev pub has {ℓ} : {A : Type ℓ} → ℕ → List (ℕ × A) → Bool
has k m = elim (lookup k m) [ none ↦ false | some a ↦ true ]

-- The timeout is stored in milliseconds.
abbrev pub whole_ms : ℕ → ℕ
whole_ms t = t / 1000000 * 1000000

abbrev pub stored_delivery : DeliveryConfig → DeliveryConfig
stored_delivery d = record d { timeout = whole_ms d.timeout }

unfoldable pub insert_schedule : Schedule → Tables → Result Tables
insert_schedule s t =
    if has s.id t.schedules
    then err constraint_violated
    else ok (record t { schedules = insert s.id s t.schedules })

-- The schedule must be there.
unfoldable pub insert_job : Job → Tables → Result Tables
insert_job j t =
    if has j.id t.jobs || not (has j.schedule_id t.schedules)
    then err constraint_violated
    else ok (record t {
      jobs = insert j.id (record j { delivery = stored_delivery j.delivery }) t.jobs;
    })

abbrev pub tags_or_none : Option (List Tag) → List Tag
tags_or_none none = []
tags_or_none (some tags) = tags

unfoldable pub tags_of : ℕ → Tables → List Tag
tags_of id t = tags_or_none (lookup id t.tags)

-- ON CONFLICT (job_id, key) DO UPDATE, for each tag.
unfoldable pub upsert_all : List Tag → List Tag → List Tag
upsert_all [] known = known
upsert_all (tag ∷ more) known = upsert_all more (insert tag.0 tag.1 known)

unfoldable pub upsert_tags : ℕ → List Tag → Tables → Tables
upsert_tags id tags t = record t { tags = insert id (upsert_all tags (tags_of id t)) t.tags }

-- Schedule, job and tags in one transaction.
unfoldable pub create_job_aggregate : Job → Schedule → List Tag → Tables → Result Tables
create_job_aggregate j s tags t =
    and_then (insert_schedule s t)
      (λ t1. and_then (insert_job j t1) (λ t2. ok (upsert_tags j.id tags t2)))

abbrev pub joined_to : Job → Option Schedule → Option JobWithSchedule
joined_to j none = none
joined_to j (some s) = some (record { job = j; schedule = s })

-- `WHERE id = $1 AND namespace = $2`.
abbrev pub in_namespace : String → Option Job → Option Job
in_namespace ns none = none
in_namespace ns (some j) = if j.namespace == ns then some j else none

unfoldable pub find_scoped : ℕ → String → Tables → Option Job
find_scoped id ns t = in_namespace ns (lookup id t.jobs)

unfoldable pub get_job_by_id : ℕ → Tables → Result Job
get_job_by_id id t = or_not_found (lookup id t.jobs)

abbrev pub joined : Tables → Option Job → Option JobWithSchedule
joined t none = none
joined t (some j) = joined_to j (lookup j.schedule_id t.schedules)

unfoldable pub get_job_with_schedule : ℕ → Tables → Result JobWithSchedule
get_job_with_schedule id t = or_not_found (joined t (lookup id t.jobs))

unfoldable pub get_job_with_schedule_scoped : ℕ → String → Tables → Result JobWithSchedule
get_job_with_schedule_scoped id ns t = or_not_found (joined t (find_scoped id ns t))

abbrev pub put_job : Job → Tables → Tables
put_job j t = record t { jobs = insert j.id j t.jobs }

-- queryUpdateJob writes these columns of the row that is there.
abbrev pub updated_job : Job → Job → Job
updated_job j row = record row {
  name = j.name;
  enabled = j.enabled;
  delivery = stored_delivery j.delivery;
  analytics = j.analytics;
  updated_at = j.updated_at;
}

-- queryUpdateJobConfiguration leaves `enabled` alone.
abbrev pub reconfigured_job : Job → Job → Job
reconfigured_job j row = record row {
  name = j.name;
  delivery = stored_delivery j.delivery;
  analytics = j.analytics;
  updated_at = j.updated_at;
}

abbrev pub update_row : (Job → Job) → ℕ → Tables → Option Job → Result Tables
update_row f id t none = err job_not_found
update_row f id t (some row) = ok (record t { jobs = insert id (f row) t.jobs })

unfoldable pub update_job : Job → Tables → Result Tables
update_job j t = update_row (updated_job j) j.id t (find_scoped j.id j.namespace t)

-- `UPDATE schedules … WHERE id = $4`; no row, no change.
abbrev pub set_schedule : Schedule → Tables → Option Schedule → Tables
set_schedule s t none = t
set_schedule s t (some row) = record t {
  schedules =
      insert s.id
        (record row {
          cron_expression = s.cron_expression;
          timezone = s.timezone;
          updated_at = s.updated_at;
        })
        t.schedules;
}

unfoldable pub update_schedule : Schedule → Tables → Tables
update_schedule s t = set_schedule s t (lookup s.id t.schedules)

unfoldable pub delete_tags : ℕ → Tables → Tables
delete_tags id t = record t { tags = delete id t.tags }

abbrev pub replace_tags : ℕ → Option (List Tag) → Tables → Tables
replace_tags id none t = t
replace_tags id (some tags) t = upsert_tags id tags (delete_tags id t)

unfoldable pub update_job_aggregate : Job → Schedule → Option (List Tag) → Tables → Result Tables
update_job_aggregate j s tags t =
    let t1 = update_schedule s t in
    and_then (update_row (reconfigured_job j) j.id t1 (find_scoped j.id j.namespace t1))
      (λ t2. ok (replace_tags j.id tags t2))

-- UPDATE … RETURNING, at the database's time.
abbrev pub enabled_job : Bool → ℕ → Job → Job
enabled_job enabled now row = record row { enabled = enabled; updated_at = now }

unfoldable pub set_job_enabled : ℕ → String → Bool → ℕ → Tables → Result (Tables × Job)
set_job_enabled id ns enabled now t = and_then (or_not_found (find_scoped id ns t)) (λ row. ok (
  record t { jobs = insert id (enabled_job enabled now row) t.jobs },
  enabled_job enabled now row,
))

abbrev pub is_of_job : ℕ → Execution → Bool
is_of_job id e = nat_beq e.job_id id

-- The attempt is of an execution of the job.
abbrev pub is_attempt_of : ℕ → List Execution → Attempt → Bool
is_attempt_of id es a = any (λ e. is_of_job id e && nat_beq e.id a.1) es

-- A schedule that another job refers to cannot go.
abbrev pub shares_schedule : ℕ → ℕ → ℕ × Job → Bool
shares_schedule id schedule_id r = not (nat_beq r.0 id) && nat_beq r.1.schedule_id schedule_id

abbrev pub delete_row : ℕ → Tables → Option Job → Result Tables
delete_row id t none = err job_not_found
delete_row id t (some j) =
    if any (shares_schedule id j.schedule_id) t.jobs
    then err constraint_violated
    else ok (record {
      jobs = delete id t.jobs;
      schedules = delete j.schedule_id t.schedules;
      tags = delete id t.tags;
      executions = filter_by (λ e. not (is_of_job id e)) t.executions;
      attempts = filter_by (λ a. not (is_attempt_of id t.executions a)) t.attempts;
    })

unfoldable pub delete_job : ℕ → String → Tables → Result Tables
delete_job id ns t = delete_row id t (find_scoped id ns t)
