-- ===== src/Keys/Sessions.antt =====
-- internal/webadmin/auth.go: the session manager of the admin pages.
use cronlite.Base.{
  ℕ, ◌+◌, ◌-◌, ◌/◌, max, String, Bool, false, ◌&&◌, ◌||◌, not, Option, none, some, leb, ltb, ◌==◌,
  text_key, if◌then◌else◌,
}
use cronlite.KeyCache.{ApiKey}
use cronlite.Keys.{
  Tables, AdminSession, Outcome, ok, err, unauthenticated, no_randomness, database_failed,
  get_key_by_token_hash, create_admin_session, get_admin_session, refresh_admin_session,
  delete_admin_session,
}
use cronlite.Keys.Service.{
  World, key_lookup, session_insert, session_lookup, session_refresh, session_deletion, call,
}

-- `verify_identity` is that of the request at hand; none is Go's nil.
pub record SessionManager : Type 0 where
  pub hash_token : String → String
  pub idle_ttl : ℕ
  pub absolute_ttl : ℕ
  pub verify_identity : Option (ApiKey → Bool)

-- What the response does to the session cookie: a new value with its expiry and MaxAge.
pub data CookieChange : Type 0 where
  kept cleared : CookieChange
  renewed : String → (expires_at : ℕ) → (max_age : ℕ) → CookieChange

abbrev pub Reply : Type 0 → Type 0
Reply A = Tables × CookieChange × Outcome A

-- The seconds, rounded up, and at least one.
abbrev pub new_session_cookie : String → ℕ → ℕ → CookieChange
new_session_cookie raw now expires =
    renewed raw expires (max 1 ((expires - now + 999999) / 1000000))

pub record AuthState : Type 0 where
  pub session : AdminSession
  pub key : ApiKey

unfoldable pub validate_csrf : String → String → Bool
validate_csrf expected submitted =
    if expected == "" || submitted == "" then false else expected == submitted

-- The cookie's session goes first; a cookie that is not there, or empty, has none.
abbrev pub forget_session : SessionManager → World → Option String → Tables → Outcome Tables
forget_session m w none t = ok t
forget_session m w (some raw) t =
    if raw == ""
    then ok t
    else call w session_deletion (ok (delete_admin_session (m.hash_token raw) t))

abbrev pub session_for : SessionManager → World → ApiKey → String → String → AdminSession
session_for m w key raw csrf = record {
  token_hash = m.hash_token raw;
  api_key_id = key.id;
  csrf_token = csrf;
  created_at = w.now;
  last_seen_at = w.now;
  expires_at = w.now + m.idle_ttl;
  absolute_expires_at = w.now + m.absolute_ttl;
}

abbrev pub started : SessionManager → World → String → Tables → Outcome Tables → Reply Unit
started m w raw t (err e) = (t, kept, err e)
started m w raw t (ok t1) = (t1, new_session_cookie raw w.now (w.now + m.idle_ttl), ok tt)

abbrev pub insert_session :
    SessionManager → World → ApiKey → Option String → Option String → Tables → Reply Unit
insert_session m w key none csrf t = (t, kept, err no_randomness)
insert_session m w key (some raw) none t = (t, kept, err no_randomness)
insert_session m w key (some raw) (some csrf) t =
    started m w raw t
      (call w session_insert (create_admin_session (session_for m w key raw csrf) t))

abbrev pub after_forgetting : SessionManager → World → ApiKey → Tables → Outcome Tables → Reply Unit
after_forgetting m w key t (err e) = (t, kept, err e)
after_forgetting m w key t (ok t1) = insert_session m w key w.new_session w.new_csrf t1

unfoldable pub start_session : SessionManager → World → Option String → ApiKey → Tables → Reply Unit
start_session m w cookie key t = after_forgetting m w key t (forget_session m w cookie t)

abbrev pub with_key : ApiKey → Reply Unit → Reply ApiKey
with_key key (t, c, ok u) = (t, c, ok key)
with_key key (t, c, err e) = (t, c, err e)

abbrev pub login_found :
    SessionManager → World → Option String → Tables → Outcome ApiKey → Reply ApiKey
login_found m w cookie t (err e) = (t, kept, err unauthenticated)
login_found m w cookie t (ok key) =
    if not key.enabled || not (key.tailnet_login == "")
    then (t, kept, err unauthenticated)
    else with_key key (start_session m w cookie key t)

unfoldable pub login :
    SessionManager → World → Option String → (api_key : String) → Tables → Reply ApiKey
login m w cookie api_key t =
    if w.fails key_lookup
    then (t, kept, err database_failed)
    else login_found m w cookie t (get_key_by_token_hash (m.hash_token api_key) t)

-- The expiry of a session that is used now.
abbrev pub next_expiry : SessionManager → World → AdminSession → ℕ
next_expiry m w s =
    if ltb s.absolute_expires_at (w.now + m.idle_ttl)
    then s.absolute_expires_at
    else w.now + m.idle_ttl

abbrev pub renew :
    SessionManager
    → World
    → String
    → AdminSession
    → ApiKey
    → Tables
    → Outcome Tables
    → Reply AuthState
renew m w raw s key t (err e) = (t, cleared, err unauthenticated)
renew m w raw s key t (ok t1) = (
  t1,
  new_session_cookie raw w.now (next_expiry m w s),
  ok (record {
    session = record s { last_seen_at = w.now; expires_at = next_expiry m w s };
    key = key;
  }),
)

-- In the last half of its idle time, the session is extended.
abbrev pub extend :
    SessionManager → World → String → AdminSession → ApiKey → Tables → Reply AuthState
extend m w raw s key t =
    if leb (s.expires_at - w.now) (m.idle_ttl / 2)
    then renew m w raw s key t (
        call w session_refresh
          (refresh_admin_session (m.hash_token raw) w.now (next_expiry m w s) t))
    else (t, kept, ok (record { session = s; key = key }))

abbrev pub is_verified : Option (ApiKey → Bool) → ApiKey → Bool
is_verified none key = false
is_verified (some verify) key = verify key

abbrev pub rejected : Tables → Outcome Tables → Reply AuthState
rejected t (err e) = (t, kept, err e)
rejected t (ok t1) = (t1, cleared, err unauthenticated)

abbrev pub check_identity :
    SessionManager → World → String → Tables → Outcome (AdminSession × ApiKey) → Reply AuthState
check_identity m w raw t (err e) = (t, cleared, err unauthenticated)
check_identity m w raw t (ok (s, key)) =
    if not (key.tailnet_login == "") && not (is_verified m.verify_identity key)
    then rejected t (call w session_deletion (ok (delete_admin_session (m.hash_token raw) t)))
    else extend m w raw s key t

abbrev pub authenticate_raw : SessionManager → World → String → Tables → Reply AuthState
authenticate_raw m w raw t =
    if raw == ""
    then (t, kept, err unauthenticated)
    else (if w.fails session_lookup
        then (t, kept, err database_failed)
        else check_identity m w raw t (get_admin_session (m.hash_token raw) w.now t))

unfoldable pub authenticate : SessionManager → World → Option String → Tables → Reply AuthState
authenticate m w none t = (t, kept, err unauthenticated)
authenticate m w (some raw) t = authenticate_raw m w raw t

abbrev pub forgotten : Tables → Outcome Tables → Reply Unit
forgotten t (err e) = (t, kept, err e)
forgotten t (ok t1) = (t1, cleared, ok tt)

unfoldable pub logout : SessionManager → World → Option String → Tables → Reply Unit
logout m w cookie t = forgotten t (forget_session m w cookie t)
