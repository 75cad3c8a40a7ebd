-- ===== src/Jobs/Service.antt =====
-- internal/service/jobs.go and internal/cron/parser.go: the operations on jobs, each in the namespace
-- of its context. An operation gives the tables it leaves and its reply.
use cronlite.Base.{
  ℕ, zero, suc, ◌+◌, ◌*◌, String, Bool, true, false, ◌&&◌, ◌||◌, not, Option, none, some, List, [],
  ◌∷◌, nat_beq, leb, ◌==◌, text_key, if◌then◌else◌,
}
use cronlite.Domain.{Job, Schedule, JobWithSchedule, second}
use cronlite.Base.Texts.{Text}
use cronlite.Dispatcher.Classify.{bytes}
use cronlite.WebhookUrl.{Addr}
use cronlite.WebhookUrl.Policy.{TailnetPolicy}
use cronlite.WebhookUrl.Access.{check}
use cronlite.WebhookUrl.Validation.{Url, validate}
use cronlite.Jobs.{
  Tables, Tag, Result, ok, err, JobError, and_then, namespace_required, job_disabled,
  invalid_cron_expression, invalid_webhook_url, webhook_host_not_allowed, database_failed,
  create_job_aggregate, get_job_with_schedule_scoped, update_job_aggregate, set_job_enabled,
}

-- The first fire time after a time; 0 is Go's zero time.
abbrev pub CronSchedule : Type 0
CronSchedule = ℕ → ℕ

-- What the service asks of other code: the URL, address, IDNA and cron libraries, the zones, the
-- clock, new ids, and whether a call of the repository fails.
pub record World : Type 0 where
  pub parse_url : Text → Option Url
  pub parse_ip : Text → Option Addr
  pub is_literal : Text → Bool
  pub to_ascii : Text → Option Text
  pub parse_standard : Text → Option CronSchedule
  pub load_location : String → Bool
  pub now : ℕ
  pub new_job_id : ℕ
  pub new_schedule_id : ℕ
  pub read_fails : Bool
  pub write_fails : Bool

-- The service's settings.
pub record JobService : Type 0 where
  pub tailnet_policy : Option TailnetPolicy
  pub tailnet_suffix : Text

-- strings.HasPrefix.
unfoldable pub has_prefix : Text → Text → Bool
has_prefix s [] = true
has_prefix [] (c ∷ start) = false
has_prefix (a ∷ s) (c ∷ start) = nat_beq a c && has_prefix s start

-- The position after that of the first such byte, and 0 if there is none.
abbrev pub next_position : ℕ → ℕ
next_position zero = zero
next_position (suc n) = suc (suc n)

unfoldable pub position_after : ℕ → Text → ℕ
position_after c [] = 0
position_after c (d ∷ s) =
    let rest = position_after c s in if nat_beq d c then 1 else next_position rest

-- `space <= equal+1`, with the position before the first counted as -1.
abbrev pub is_bad_prefix : Text → Bool
is_bad_prefix s =
    (has_prefix s (bytes "TZ=") || has_prefix s (bytes "CRON_TZ="))
    && leb (position_after b' ' s) (position_after b'=' s + 1)

unfoldable pub parse_cron : World → Text → String → Option CronSchedule
parse_cron w expression timezone =
    if is_bad_prefix expression
    then none
    else (if w.load_location timezone then w.parse_standard expression else none)

abbrev pub is_parsed {ℓ} : {A : Type ℓ} → Option A → Bool
is_parsed none = false
is_parsed (some a) = true

abbrev pub hostname_of : Option Url → Option Text
hostname_of none = none
hostname_of (some u) = some u.hostname

-- The error of checkTailnetHost.
abbrev pub check_hostname : World → JobService → String → Option Text → Option JobError
check_hostname w s ns none = some invalid_webhook_url
check_hostname w s ns (some host) =
    if check w.is_literal w.to_ascii s.tailnet_policy (bytes ns) host s.tailnet_suffix
    then none
    else some webhook_host_not_allowed

unfoldable pub check_tailnet_host : World → JobService → (ns url : String) → Option JobError
check_tailnet_host w s ns url = check_hostname w s ns (hostname_of (w.parse_url (bytes url)))

unfoldable pub is_valid_url : World → String → Bool
is_valid_url w url = elim (validate w.parse_url w.parse_ip (bytes url)) [
  | none ↦ true
  | some e ↦ false
]

-- What every operation checks first.
abbrev pub in_context {ℓ} : {A : Type ℓ} → String → Tables → Tables × Result A → Tables × Result A
in_context ns t rest = if ns == "" then (t, err namespace_required) else rest

abbrev pub unless_error {ℓ} :
    {A : Type ℓ} → Option JobError → Tables → Tables × Result A → Tables × Result A
unless_error none t rest = rest
unless_error (some e) t rest = (t, err e)

abbrev pub replied {ℓ} : {A : Type ℓ} → Tables → Result Tables → A → Tables × Result A
replied t (err e) a = (t, err e)
replied t (ok t1) a = (t1, ok a)

-- A call of the repository that may fail.
abbrev pub call {ℓ} : {A : Type ℓ} → Bool → Result A → Result A
call fails r = if fails then err database_failed else r

pub record CreateJobInput : Type 0 where
  pub name : String
  pub cron_expression : String
  pub timezone : String
  pub webhook_url : String
  pub secret : String
  pub timeout : ℕ
  pub tags : List Tag

abbrev pub new_schedule : World → CreateJobInput → Schedule
new_schedule w i = record {
  id = w.new_schedule_id;
  cron_expression = i.cron_expression;
  timezone = i.timezone;
  created_at = w.now;
  updated_at = w.now;
}

abbrev pub new_job : World → String → CreateJobInput → Job
new_job w ns i = record {
  id = w.new_job_id;
  namespace = ns;
  name = i.name;
  enabled = true;
  schedule_id = w.new_schedule_id;
  delivery = record {
    webhook_url = i.webhook_url;
    secret = i.secret;
    timeout = if nat_beq i.timeout 0 then 30 * second else i.timeout;
  };
  analytics = record { enabled = false; retention_seconds = 0 };
  created_at = w.now;
  updated_at = w.now;
}

unfoldable pub create_job :
    World → JobService → String → CreateJobInput → Tables → Tables × Result (Job × Schedule)
create_job w s ns i t =
    let job = new_job w ns i in
    let schedule = new_schedule w i in
    let written = call w.write_fails (create_job_aggregate job schedule i.tags t) in
    in_context ns t (
      if not (is_parsed (parse_cron w (bytes i.cron_expression) i.timezone))
      then (t, err invalid_cron_expression)
      else if not (is_valid_url w i.webhook_url)
      then (t, err invalid_webhook_url)
      else unless_error (check_tailnet_host w s ns i.webhook_url) t
          (replied t written (job, schedule)))

pub record UpdateJobInput : Type 0 where
  pub name : Option String
  pub cron_expression : Option String
  pub timezone : Option String
  pub webhook_url : Option String
  pub secret : Option String
  pub timeout : Option ℕ
  pub tags : Option (List Tag)

abbrev pub or_else {ℓ} : {A : Type ℓ} → Option A → A → A
or_else none a = a
or_else (some b) a = b

-- An unchanged URL is not checked again against the policy.
abbrev pub check_new_url : World → JobService → (ns old : String) → Option String → Option JobError
check_new_url w s ns old none = none
check_new_url w s ns old (some url) =
    if not (is_valid_url w url)
    then some invalid_webhook_url
    else (if url == old then none else check_tailnet_host w s ns url)

abbrev pub changed_job : World → UpdateJobInput → Job → Job
changed_job w i j = record j {
  name = or_else i.name j.name;
  delivery = record {
    webhook_url = or_else i.webhook_url j.delivery.webhook_url;
    secret = or_else i.secret j.delivery.secret;
    timeout = or_else i.timeout j.delivery.timeout;
  };
  updated_at = w.now;
}

abbrev pub schedule_changed : UpdateJobInput → Bool
schedule_changed i = is_parsed i.cron_expression || is_parsed i.timezone

abbrev pub changed_schedule : World → UpdateJobInput → Schedule → Schedule
changed_schedule w i s =
    if schedule_changed i
    then record s {
      cron_expression = or_else i.cron_expression s.cron_expression;
      timezone = or_else i.timezone s.timezone;
      updated_at = w.now;
    }
    else s

-- After the job has been read.
abbrev pub update_read :
    World
    → JobService
    → String
    → UpdateJobInput
    → Tables
    → Result JobWithSchedule
    → Tables × Result (Job × Schedule)
update_read w s ns i t (err e) = (t, err e)
update_read w s ns i t (ok found) =
    let job = changed_job w i found.job in
    let schedule = changed_schedule w i found.schedule in
    let parsed = is_parsed (parse_cron w (bytes schedule.cron_expression) schedule.timezone) in
    let written = call w.write_fails (update_job_aggregate job schedule i.tags t) in
    unless_error (check_new_url w s ns found.job.delivery.webhook_url i.webhook_url) t (
      if schedule_changed i && not parsed
      then (t, err invalid_cron_expression)
      else replied t written (job, schedule))

unfoldable pub update_job :
    World → JobService → String → ℕ → UpdateJobInput → Tables → Tables × Result (Job × Schedule)
update_job w s ns id i t =
    in_context ns t
      (update_read w s ns i t (call w.read_fails (get_job_with_schedule_scoped id ns t)))

unfoldable pub delete_job : World → String → ℕ → Tables → Tables × Result Bool
delete_job w ns id t =
    in_context ns t (replied t (call w.write_fails (cronlite.Jobs.delete_job id ns t)) true)

abbrev pub with_row : Tables → Result (Tables × Job) → Tables × Result Job
with_row t (err e) = (t, err e)
with_row t (ok (t1, j)) = (t1, ok j)

-- PauseJob and ResumeJob; the repository is a jobEnabledRepository.
unfoldable pub set_enabled : World → String → ℕ → Bool → Tables → Tables × Result Job
set_enabled w ns id enabled t =
    in_context ns t (with_row t (call w.write_fails (set_job_enabled id ns enabled w.now t)))
