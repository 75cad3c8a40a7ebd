-- ===== src/Keys/Examples.antt =====
-- internal/webadmin/auth.go: an installation with one key and its sessions.
use cronlite.Base.{
  ℕ, ◌≡◌, refl, ◌≢◌, String, Bool, true, false, Option, none, some, List, [], ◌∷◌, text_key, id_key,
  lookup, insert, delete, any, filter_by,
}
use cronlite.KeyCache.{ApiKey}
use cronlite.Keys.{
  Tables, AdminSession, Outcome, ok, err, find_key, insert_api_key, insert_first_api_key,
  has_any_api_keys, get_key_by_token_hash, create_admin_session, get_admin_session,
  refresh_admin_session, delete_key, update_last_used_at,
}
use cronlite.Keys.Service.{World, create_api_key, bootstrap_first_api_key, delete_api_key}
use cronlite.Keys.Sessions.{AuthState, kept, validate_csrf, start_session, login, authenticate}
use cronlite.Keys.SignIn.{Handler, Request, manager, setup, valid_public_csrf}
use cronlite.Keys.Steps.{
  Action, sets_up, visits, creates_key, uses_keys, act, act_all, empty_tables,
}
use cronlite.Keys.Live.{Serves, authenticated_is_live}
use cronlite.Keys.Revoked.{deleted_key_dead}

abbrev handler : Handler
handler = record {
  identity_login = false;
  has_node = false;
  bootstrap_token = "install";
  hash_token = λ token. token;
  idle_ttl = 100;
  absolute_ttl = 1000;
}

-- A request at a time, with the session cookie `c`.
abbrev request : Option String → Request
request c = record {
  session_cookie = c;
  public_csrf = some "form";
  via_tailnet = false;
  who_is = none;
  csrf_token = "form";
  api_key = "ec_1";
  namespace = "ops";
  form_token = "install";
  label = "first";
}

abbrev world : ℕ → ℕ → World
world now id = record {
  now = now;
  new_id = id;
  new_token = some "ec_1";
  new_session = some "session";
  new_csrf = some "csrf";
  fails = λ c. false;
}

-- The setup at time 10 signs in, and the session is used at time 80, and extended.
abbrev history : List (World × Action)
history =
    (world 10 1, sets_up (request none)) ∷ (world 80 2, visits (request (some "session"))) ∷ []

abbrev now_tables : Tables
now_tables = act_all handler history empty_tables

abbrev outcome {ℓ} : {A : Type ℓ} → Outcome A → Bool
outcome (ok a) = true
outcome (err e) = false

abbrev is_served : ℕ → Option String → Bool
is_served now c = outcome (authenticate (manager handler (request c)) (world now 3) c now_tables).2

served_after_extension : is_served 179 (some "session") ≡ true
unfolding act_all act setup has_any_api_keys any valid_public_csrf validate_csrf
    bootstrap_first_api_key insert_first_api_key insert_api_key lookup insert filter_by login
    get_key_by_token_hash find_key start_session create_admin_session authenticate get_admin_session
    refresh_admin_session
served_after_extension = refl

idle_session_ends : is_served 180 (some "session") ≡ false
unfolding act_all act setup has_any_api_keys any valid_public_csrf validate_csrf
    bootstrap_first_api_key insert_first_api_key insert_api_key lookup insert filter_by login
    get_key_by_token_hash find_key start_session create_admin_session authenticate get_admin_session
    refresh_admin_session
idle_session_ends = refl

abbrev first_session : AdminSession
first_session = record {
  token_hash = "session";
  api_key_id = 1;
  csrf_token = "csrf";
  created_at = 10;
  last_seen_at = 80;
  expires_at = 180;
  absolute_expires_at = 1010;
}

abbrev first_key : ApiKey
first_key = record {
  id = 1;
  namespace = "ops";
  token_hash = "ec_1";
  label = "first";
  enabled = true;
  created_at = 10;
  last_used_at = none;
  tailnet_login = "";
}

abbrev first_auth : AuthState
first_auth = record { session = first_session; key = first_key }

authenticated_is_live_example :
    Serves handler (world 120 3) (request (some "session")) now_tables first_auth
unfolding act_all act setup has_any_api_keys any valid_public_csrf validate_csrf
    bootstrap_first_api_key insert_first_api_key insert_api_key lookup insert filter_by login
    get_key_by_token_hash find_key start_session create_admin_session authenticate get_admin_session
    refresh_admin_session
authenticated_is_live_example =
    authenticated_is_live handler history (world 120 3) (request (some "session")) now_tables kept
      first_auth refl

-- A second key is made, and deleted.
abbrev two_keys : List (World × Action)
two_keys =
    (world 10 1, sets_up (request none))
    ∷ (record (world 20 2) { new_token = some "ec_2" }, creates_key "ops" "second")
    ∷ []

abbrev use_and_visit : List (World × Action)
use_and_visit = (world 70 3, uses_keys []) ∷ (world 80 3, visits (request (some "session"))) ∷ []

abbrev one_key_left : Tables
one_key_left = (delete_api_key (world 60 3) "ops" 2 (act_all handler two_keys empty_tables)).0

deleted_key_dead_example : first_auth.session.api_key_id ≢ 2
unfolding act_all act setup has_any_api_keys any valid_public_csrf validate_csrf
    bootstrap_first_api_key insert_first_api_key insert_api_key lookup insert filter_by login
    get_key_by_token_hash find_key start_session create_admin_session authenticate get_admin_session
    refresh_admin_session create_api_key delete_api_key delete_key delete update_last_used_at
deleted_key_dead_example =
    deleted_key_dead handler two_keys use_and_visit (world 60 3) "ops" 2 one_key_left refl
      (refl, (refl, tt)) (world 120 3) (request (some "session"))
      (act_all handler use_and_visit one_key_left) kept first_auth refl
