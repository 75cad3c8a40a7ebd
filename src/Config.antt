-- ===== src/Config.antt =====
-- internal/config/validate.go: which configurations the service starts with. The text of a setting goes
-- with its value; a duration or a number below 0 is 0 here, which every check treats alike. Of an
-- error's text, only its kind.
pub mod Accepted
mod Examples
use cronlite.Base.{
  ℕ, ◌*◌, ◌/◌, ◌-◌, ◌^◌, String, Bool, true, false, ◌&&◌, ◌||◌, not, Option, none, some, List, [],
  ◌∷◌, ◌++◌, leb, ltb, nat_beq, length, ◌==◌, text_key, if◌then◌else◌,
}
use cronlite.Base.Texts.{Text, is_nil}
use cronlite.Domain.{second}
use cronlite.Dispatcher.{max_retry_duration}
use cronlite.WebhookUrl.Hostnames.{ParsedAllowlist, allowlist, refused_entry, parse_allowlist}
use cronlite.WebhookUrl.Policy.{ParsedPolicy, parsed, rejected, parse_tailnet_policy}

pub record Setting : Type 0 where
  pub value : ℕ
  pub text : String

pub record Config : Type 0 where
  pub environment : String
  pub database_url : String
  pub api_key : String
  pub tick_interval : String
  pub db_op_timeout : Setting
  pub migrate_lock_timeout : Setting
  pub db_max_open_conns : ℕ
  pub metrics_enabled : Bool
  pub reconcile_enabled : Bool
  pub reconcile_interval : Setting
  pub reconcile_threshold : Setting
  pub reconcile_requeue_threshold : Setting
  pub circuit_breaker_threshold : ℕ
  pub circuit_breaker_cooldown : Setting
  pub dispatch_mode : String
  pub db_poll_interval : Setting
  pub dispatcher_workers : ℕ
  pub leader_retry_interval : Setting
  pub leader_heartbeat_interval : Setting
  pub admin_enabled : Bool
  pub admin_session_ttl : ℕ
  pub admin_session_absolute_ttl : ℕ
  pub admin_cookie_secure : Bool
  pub webhook_allowed_private_suffixes : List Text
  pub webhook_allow_tailnet : Bool
  pub webhook_tailnet_hosts : Text
  pub ts_listen : Bool
  pub ts_hostname : Text
  pub ts_state_dir : String
  pub ts_disable_public_listener : Bool
  pub ts_identity_login : Bool

-- What the code asks of Go's library, and of the build: time.ParseDuration, of which a duration below
-- 0 is 0, strings.EqualFold, netip's parser of literals, and tailnet.Supported.
pub record World : Type 0 where
  pub parse_duration : String → Option ℕ
  pub equal_fold : String → String → Bool
  pub is_literal : Text → Bool
  pub supported : Bool

pub data Field : Type 0 where
  database_url_field tick_interval_field dispatch_mode_field db_max_open_conns_field : Field
  db_poll_interval_field leader_retry_interval_field leader_heartbeat_interval_field : Field
  db_op_timeout_field migrate_lock_timeout_field dispatcher_workers_field : Field
  reconcile_requeue_threshold_field allowed_private_suffixes_field tailnet_hosts_field : Field
  allow_tailnet_field ts_listen_field ts_state_dir_field ts_hostname_field : Field
  ts_disable_public_listener_field ts_identity_login_field reconcile_interval_field : Field
  reconcile_threshold_field circuit_breaker_cooldown_field admin_session_ttl_field : Field
  admin_session_absolute_ttl_field reconcile_enabled_field metrics_enabled_field : Field
  api_key_field admin_cookie_secure_field : Field

pub data Message : Type 0 where
  required invalid not_positive too_small too_large unused unsupported not_allowed : Message

abbrev pub ValidationError : Type 0
ValidationError = Field × Message

abbrev pub complain : Bool → Field → Message → List ValidationError
complain true f m = (f, m) ∷ []
complain false f m = []

abbrev pub is_given : Setting → Bool
is_given s = not (s.text == "")

abbrev pub is_zero : ℕ → Bool
is_zero n = nat_beq n 0

-- Given, and not positive.
abbrev pub not_above_zero : Setting → Bool
not_above_zero s = is_given s && is_zero s.value

abbrev pub check_tick : Option ℕ → List ValidationError
check_tick none = (tick_interval_field, invalid) ∷ []
check_tick (some d) = complain (is_zero d) tick_interval_field not_positive

unfoldable pub validate_basics : World → Config → List ValidationError
validate_basics w cfg =
    complain (cfg.database_url == "") database_url_field required
    ++ (if cfg.tick_interval == "" then [] else check_tick (w.parse_duration cfg.tick_interval))
    ++ complain
        (not (cfg.dispatch_mode == "")
          && not (cfg.dispatch_mode == "channel")
          && not (cfg.dispatch_mode == "db"))
        dispatch_mode_field invalid

unfoldable pub validate_leader : Config → List ValidationError
validate_leader cfg =
    let retry = cfg.leader_retry_interval in
    let heartbeat = cfg.leader_heartbeat_interval in
    let db = cfg.dispatch_mode == "db" in
    complain (db && nat_beq cfg.db_max_open_conns 1) db_max_open_conns_field too_small
    ++ complain (db && not_above_zero cfg.db_poll_interval) db_poll_interval_field not_positive
    ++ complain (db && not_above_zero retry) leader_retry_interval_field not_positive
    ++ complain (db && not_above_zero heartbeat) leader_heartbeat_interval_field not_positive
    ++ complain
        (db
          && not (is_zero heartbeat.value)
          && not (is_zero retry.value)
          && leb retry.value heartbeat.value)
        leader_heartbeat_interval_field too_large

abbrev pub max_int : ℕ
max_int = 2 ^ 63 - 1

abbrev pub minimum_lease : Config → ℕ
minimum_lease cfg = if cfg.environment == "benchmark" then 1000000 else 30 * second

unfoldable pub validate_timeouts : Config → List ValidationError
validate_timeouts cfg =
    complain (not_above_zero cfg.db_op_timeout) db_op_timeout_field not_positive
    ++ complain (not_above_zero cfg.migrate_lock_timeout) migrate_lock_timeout_field not_positive
    ++ complain (ltb (max_int / 4) cfg.dispatcher_workers) dispatcher_workers_field too_large
    ++ complain
        (is_given cfg.reconcile_requeue_threshold
          && ltb cfg.reconcile_requeue_threshold.value (minimum_lease cfg))
        reconcile_requeue_threshold_field too_small

abbrev pub tailnet_enabled : Config → Bool
tailnet_enabled cfg = cfg.webhook_allow_tailnet || cfg.ts_listen

abbrev pub is_label_char : ℕ → Bool
is_label_char c = (leb b'a' c && leb c b'z') || (leb b'0' c && leb c b'9') || nat_beq c b'-'

abbrev pub all_label_chars : Text → Bool
all_label_chars [] = true
all_label_chars (c ∷ s) = is_label_char c && all_label_chars s

abbrev pub is_dash : Option ℕ → Bool
is_dash none = false
is_dash (some c) = nat_beq c b'-'

abbrev pub first_char : Text → Option ℕ
first_char [] = none
first_char (c ∷ s) = some c

abbrev pub last_char : Text → Option ℕ
last_char [] = none
last_char (c ∷ []) = some c
last_char (c ∷ d ∷ s) = last_char (d ∷ s)

unfoldable pub valid_node_name : Text → Bool
valid_node_name s =
    if is_nil s || ltb 63 (length s) || is_dash (first_char s) || is_dash (last_char s)
    then false
    else all_label_chars s

abbrev pub is_rejected : ParsedPolicy → Bool
is_rejected (parsed p) = false
is_rejected (rejected e) = true

abbrev pub has_bad_entry : ParsedAllowlist → Bool
has_bad_entry (allowlist a) = false
has_bad_entry (refused_entry e) = true

-- The hosts that each namespace may call must be given, and be a policy.
abbrev pub check_hosts : World → Text → List ValidationError
check_hosts w hosts =
    if is_nil hosts
    then (tailnet_hosts_field, required) ∷ []
    else complain (is_rejected (parse_tailnet_policy w.is_literal hosts)) tailnet_hosts_field
        invalid

unfoldable pub validate_tailnet : World → Config → List ValidationError
validate_tailnet w cfg =
    let field = if cfg.webhook_allow_tailnet then allow_tailnet_field else ts_listen_field in
    complain (not w.supported) field unsupported
    ++ complain (cfg.ts_state_dir == "") ts_state_dir_field required
    ++ complain (not (valid_node_name cfg.ts_hostname)) ts_hostname_field invalid
    ++ (if cfg.webhook_allow_tailnet then check_hosts w cfg.webhook_tailnet_hosts else [])

unfoldable pub validate_listeners : World → Config → List ValidationError
validate_listeners w cfg =
    complain (has_bad_entry (parse_allowlist w.is_literal cfg.webhook_allowed_private_suffixes))
      allowed_private_suffixes_field invalid
    ++ (if tailnet_enabled cfg then validate_tailnet w cfg else [])
    ++ complain (not cfg.webhook_allow_tailnet && not (is_nil cfg.webhook_tailnet_hosts))
        tailnet_hosts_field unused
    ++ complain (cfg.ts_disable_public_listener && not cfg.ts_listen)
        ts_disable_public_listener_field not_allowed
    ++ complain (cfg.ts_identity_login && (not cfg.ts_listen || not cfg.admin_enabled))
        ts_identity_login_field not_allowed

unfoldable pub validate_reconciler : Config → List ValidationError
validate_reconciler cfg =
    let threshold = cfg.reconcile_threshold in
    complain (cfg.reconcile_enabled && not_above_zero cfg.reconcile_interval)
      reconcile_interval_field not_positive
    ++ complain (cfg.reconcile_enabled && not_above_zero threshold) reconcile_threshold_field
        not_positive
    ++ complain
        (cfg.reconcile_enabled
          && not (is_zero threshold.value)
          && ltb threshold.value max_retry_duration)
        reconcile_threshold_field too_small
    ++ complain
        (not (is_zero cfg.circuit_breaker_threshold) && not_above_zero cfg.circuit_breaker_cooldown)
        circuit_breaker_cooldown_field not_positive

unfoldable pub validate_admin : Config → List ValidationError
validate_admin cfg =
    let idle = cfg.admin_session_ttl in
    let absolute = cfg.admin_session_absolute_ttl in
    complain (cfg.admin_enabled && is_zero idle) admin_session_ttl_field not_positive
    ++ complain (cfg.admin_enabled && is_zero absolute) admin_session_absolute_ttl_field
        not_positive
    ++ complain
        (cfg.admin_enabled && not (is_zero idle) && not (is_zero absolute) && ltb absolute idle)
        admin_session_absolute_ttl_field too_small

unfoldable pub validate_production : Config → List ValidationError
validate_production cfg =
    complain (not (cfg.dispatch_mode == "db")) dispatch_mode_field not_allowed
    ++ complain (not cfg.reconcile_enabled) reconcile_enabled_field required
    ++ complain (not cfg.metrics_enabled) metrics_enabled_field required
    ++ complain (cfg.api_key == "") api_key_field required
    ++ complain (cfg.admin_enabled && not cfg.admin_cookie_secure) admin_cookie_secure_field
        required

-- The errors, in order; none is Go's nil.
unfoldable pub validate : World → Config → List ValidationError
validate w cfg =
    validate_basics w cfg
    ++ validate_leader cfg
    ++ validate_timeouts cfg
    ++ validate_listeners w cfg
    ++ validate_reconciler cfg
    ++ validate_admin cfg
    ++ (if w.equal_fold cfg.environment "production" then validate_production cfg else [])
