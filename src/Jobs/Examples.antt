-- ===== src/Jobs/Examples.antt =====
-- The theorems on jobs at concrete inputs: a table with a job in each of two namespaces.
use cronlite.Base.{
  ◌+◌, ◌≡◌, refl, true, false, none, some, [], ◌∷◌, arith, lookup, insert, id_key, text_key,
}
use cronlite.Dispatcher.Classify.{bytes}
use cronlite.Base.Texts.{same_text, trim_space, trim_left, trim_right}
use cronlite.WebhookUrl.{has_suffix, bytes_eq, trim_dot}
use cronlite.WebhookUrl.Access.{check, is_ascii}
use cronlite.WebhookUrl.Validation.{
  validate, is_forbidden_hostname, strip_ipv6_zone, has_percent, is_forbidden_ip,
}
use cronlite.Jobs.{
  Tables, ok, get_job_by_id, create_job_aggregate, insert_schedule, insert_job, upsert_tags,
}
use cronlite.Jobs.Service.{
  World, JobService, CreateJobInput, create_job, new_job, parse_cron, has_prefix, position_after,
  is_valid_url, check_tailnet_host,
}
use cronlite.Jobs.Schedules.{WellFormed}
use cronlite.Jobs.Isolation.{Isolated}
use cronlite.Jobs.Tenancy.{create, remove, serve, serve-Isolated}
use cronlite.Jobs.Trigger.{Trigger, trigger_now, TriggersOnce, trigger_now-TriggersOnce}
use cronlite.Jobs.Listing.{JobFilter, list_jobs, ListsOwn, list_jobs-ListsOwn}
use cronlite.Jobs.Phrases.{
  weekly, parse_natural_language, expression, description, parse_phrase, parse_lower, expect,
  blanks, skip_blanks, after_every, number, day_at, time_at, one_or_two_digits, minutes, two_digits,
  half, parse_time,
}
use cronlite.Jobs.Phrases.RoundTrip.{phrase_round_trip}

abbrev hourly_world : World
hourly_world = record {
  parse_url =
      λ s. some (record { scheme = bytes "https"; host = bytes "b.com"; hostname = bytes "b.com" });
  parse_ip = λ s. none;
  is_literal = λ s. false;
  to_ascii = λ s. none;
  parse_standard = λ s. some (λ after. after + 3600);
  load_location = λ s. true;
  now = 100;
  new_job_id = 2;
  new_schedule_id = 12;
  read_fails = false;
  write_fails = false;
}

abbrev no_tailnet : JobService
no_tailnet = record { tailnet_policy = none; tailnet_suffix = [] }

abbrev report : CreateJobInput
report = record {
  name = "report";
  cron_expression = "0 * * * *";
  timezone = "UTC";
  webhook_url = "https://b.com";
  secret = "s";
  timeout = 0;
  tags = ("team", "x") ∷ [];
}

abbrev no_tables : Tables
no_tables = record { jobs = []; schedules = []; tags = []; executions = []; attempts = [] }

no_tables-WellFormed : WellFormed no_tables
unfolding lookup
no_tables-WellFormed = (
  (λ a b ja jb ha hb e. absurd (ground (arith, ha)), λ a ja ha. absurd (ground (arith, ha))),
  λ k a h. absurd (ground (arith, h)),
  λ k a h. absurd (ground (arith, h)),
)

-- A job in the namespace "a".
abbrev one_table : Tables
one_table = serve hourly_world no_tailnet "a" (create report) no_tables

one_table-WellFormed : WellFormed one_table
one_table-WellFormed =
    (serve-Isolated hourly_world no_tailnet "a" (create report) no_tables no_tables-WellFormed).1

serve-Isolated_example :
    Isolated "b" one_table (serve hourly_world no_tailnet "b" (remove 2) one_table)
serve-Isolated_example =
    serve-Isolated hourly_world no_tailnet "b" (remove 2) one_table one_table-WellFormed

created_enabled :
    (get_job_by_id 2 one_table) ≡ ok (record (new_job hourly_world "a" report) { id = 2 })
unfolding serve create_job get_job_by_id lookup insert create_job_aggregate insert_schedule
    insert_job upsert_tags parse_cron has_prefix position_after is_valid_url validate
    is_forbidden_hostname strip_ipv6_zone has_percent same_text has_suffix bytes_eq
    check_tailnet_host check is_ascii trim_space trim_left trim_right trim_dot is_forbidden_ip
created_enabled = refl

abbrev trigger : Trigger
trigger = record {
  clock = λ i. 5000;
  new_id = λ i. 70 + i;
  insert_fails = λ i. false;
  has_emitter = true;
}

trigger_now-TriggersOnce_example :
    TriggersOnce trigger 2 "a" one_table (trigger_now hourly_world trigger "a" 2 one_table)
trigger_now-TriggersOnce_example = trigger_now-TriggersOnce hourly_world trigger "a" 2 one_table

abbrev everything : JobFilter
everything = record {
  namespace = "b";
  tags = [];
  enabled = none;
  name = "";
  params = record { limit = 5000; offset = 0 };
}

list_jobs-ListsOwn_example :
    ListsOwn "a" (list_jobs hourly_world (λ p s. true) "a" everything one_table)
list_jobs-ListsOwn_example = list_jobs-ListsOwn hourly_world (λ p s. true) "a" everything one_table

phrase_round_trip_example :
    parse_natural_language (description (weekly 1 9 5))
    ≡ some (expression (weekly 1 9 5), description (weekly 1 9 5))
phrase_round_trip_example =
    phrase_round_trip (weekly 1 9 5) (omega arith, (omega arith, omega arith))

spoken :
    parse_natural_language (bytes " Every Monday  at 9:05pm")
    ≡ some (bytes "5 21 * * 1", bytes "every monday at 21:05")
unfolding parse_natural_language parse_phrase parse_lower trim_space trim_left trim_right expect
    blanks skip_blanks after_every number same_text day_at time_at one_or_two_digits minutes
    two_digits half parse_time expression description
spoken = refl
