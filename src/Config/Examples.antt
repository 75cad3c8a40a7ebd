-- ===== src/Config/Examples.antt =====
-- internal/config/validate.go: configurations.
use cronlite.Base.{◌≡◌, refl, ◌*◌, ℕ, true, false, none, some, [], ◌∷◌, lookup, text_key, ◌==◌}
use cronlite.Domain.{second}
use cronlite.Dispatcher.{max_retry_duration}
use cronlite.Dispatcher.Classify.{bytes}
use cronlite.KeyCache.{ApiKey}
use cronlite.Keys.{Tables, ok}
use cronlite.Keys.Service as KeyService
use cronlite.Keys.Sessions.{start_session, session_for}
use cronlite.Config.{
  Config, World, Setting, validate, validate_basics, validate_leader, validate_timeouts,
  validate_listeners, validate_reconciler, validate_admin, validate_production, valid_node_name,
  reconcile_threshold_field, too_small, required, api_key_field,
}
use cronlite.WebhookUrl.Hostnames.{parse_allowlist}
use cronlite.Config.Accepted.{sign_in_starts, manager_of}

abbrev world : World
world = record {
  parse_duration = λ s. some second;
  equal_fold = λ a b. a == b;
  is_literal = λ s. false;
  supported = true;
}

abbrev not_given : Setting
not_given = record { value = 0; text = "" }

abbrev seconds : ℕ → Setting
seconds n = record { value = n * second; text = "given" }

abbrev production : Config
production = record {
  environment = "production";
  database_url = "postgres://";
  api_key = "secret";
  tick_interval = "1s";
  db_op_timeout = seconds 5;
  migrate_lock_timeout = not_given;
  db_max_open_conns = 10;
  metrics_enabled = true;
  reconcile_enabled = true;
  reconcile_interval = seconds 60;
  reconcile_threshold = seconds 1000;
  reconcile_requeue_threshold = seconds 30;
  circuit_breaker_threshold = 5;
  circuit_breaker_cooldown = seconds 60;
  dispatch_mode = "db";
  db_poll_interval = not_given;
  dispatcher_workers = 4;
  leader_retry_interval = seconds 5;
  leader_heartbeat_interval = seconds 2;
  admin_enabled = true;
  admin_session_ttl = 3600 * second;
  admin_session_absolute_ttl = 43200 * second;
  admin_cookie_secure = true;
  webhook_allowed_private_suffixes = [];
  webhook_allow_tailnet = false;
  webhook_tailnet_hosts = [];
  ts_listen = false;
  ts_hostname = [];
  ts_state_dir = "";
  ts_disable_public_listener = false;
  ts_identity_login = false;
}

production_accepted : validate world production ≡ []
unfolding validate validate_basics validate_leader validate_timeouts validate_listeners
    validate_reconciler validate_admin validate_production parse_allowlist max_retry_duration
production_accepted = refl

short_threshold :
    validate world (record production { reconcile_threshold = seconds 900; api_key = "" })
    ≡ (reconcile_threshold_field, too_small) ∷ (api_key_field, required) ∷ []
unfolding validate validate_basics validate_leader validate_timeouts validate_listeners
    validate_reconciler validate_admin validate_production parse_allowlist max_retry_duration
short_threshold = refl

good_name : valid_node_name (bytes "cron-1") ≡ true
unfolding valid_node_name
good_name = refl

bad_name : valid_node_name (bytes "cron-") ≡ false
unfolding valid_node_name
bad_name = refl

abbrev stored_key : ApiKey
stored_key = record {
  id = 1;
  namespace = "ops";
  token_hash = "h";
  label = "first";
  enabled = true;
  created_at = 10;
  last_used_at = none;
  tailnet_login = "";
}

abbrev one_key : Tables
one_key = record { keys = (1, stored_key) ∷ []; sessions = [] }

abbrev sign_in : KeyService.World
sign_in = record {
  now = 100;
  new_id = 2;
  new_token = none;
  new_session = some "session";
  new_csrf = some "csrf";
  fails = λ c. false;
}

sign_in_starts_example :
    ((start_session (manager_of production (λ s. s) none) sign_in none stored_key one_key).2
      ≡ ok tt)
    × (lookup "session"
          (start_session
            (manager_of production (λ s. s) none)
            sign_in
            none
            stored_key
            one_key).0.sessions
        ≡ some
            (session_for (manager_of production (λ s. s) none) sign_in stored_key "session" "csrf"))
unfolding lookup
sign_in_starts_example =
    sign_in_starts world production (λ s. s) none sign_in stored_key stored_key "session" "csrf"
      one_key production_accepted refl refl refl refl refl refl
