-- ===== src/Keys/SignIn.antt =====
-- internal/webadmin/tailnet_login.go and auth_handlers.go: sign-in by key, by Tailscale identity and by
-- installation token, and sign-out. A response is its kind; pages are left out.
use cronlite.Base.{
  ℕ, String, Bool, true, false, ◌&&◌, ◌||◌, not, Option, none, some, List, [], any, ◌==◌, text_key,
  if◌then◌else◌,
}
use cronlite.KeyCache.{ApiKey}
use cronlite.Keys.{
  Tables, Outcome, ok, err, KeyError, unauthenticated, bootstrap_already_completed,
  has_any_api_keys,
}
use cronlite.Keys.Service.{
  World, key_count, CreateApiKeyResult, bootstrap_first_api_key, tailnet_key,
}
use cronlite.Keys.Sessions.{
  SessionManager, CookieChange, kept, AuthState, Reply, validate_csrf, start_session, login,
  authenticate, logout,
}

-- What WhoIs answers; `admin_namespaces` is none for a malformed grant.
pub record Identity : Type 0 where
  pub tagged : Bool
  pub login_name : String
  pub admin_namespaces : Option (List String)

-- The settings of the handler. The manager's `verify_identity` is set for each request.
pub record Handler : Type 0 where
  pub identity_login : Bool
  pub has_node : Bool
  pub bootstrap_token : String
  pub hash_token : String → String
  pub idle_ttl : ℕ
  pub absolute_ttl : ℕ

-- A request: its cookies, the peer that WhoIs found, none for its failure, and the fields of the form.
pub record Request : Type 0 where
  pub session_cookie : Option String
  pub public_csrf : Option String
  pub via_tailnet : Bool
  pub who_is : Option Identity
  pub csrf_token : String
  pub api_key : String
  pub namespace : String
  pub form_token : String
  pub label : String

pub record TailnetSignIn : Type 0 where
  pub offered : Bool
  pub unavailable : Bool
  pub tagged : Bool
  pub login : String
  pub namespaces : List String
  pub bad_grant : Bool

abbrev pub not_offered : TailnetSignIn
not_offered = record {
  offered = false;
  unavailable = false;
  tagged = false;
  login = "";
  namespaces = [];
  bad_grant = false;
}

abbrev pub offer : TailnetSignIn
offer = record not_offered { offered = true }

abbrev pub granted : String → Option (List String) → TailnetSignIn
granted name none = record offer { login = name; bad_grant = true }
granted name (some namespaces) = record offer { login = name; namespaces = namespaces }

abbrev pub identified : Option Identity → TailnetSignIn
identified none = record offer { unavailable = true }
identified (some id) =
    if id.tagged
    then record offer { tagged = true }
    else (if id.login_name == ""
        then record offer { unavailable = true }
        else granted id.login_name id.admin_namespaces)

unfoldable pub tailnet_sign_in : Handler → Request → TailnetSignIn
tailnet_sign_in h r =
    if h.identity_login && h.has_node && r.via_tailnet then identified r.who_is else not_offered

pub data EndReason : Type 0 where
  identity_login_off not_on_tailnet_listener peer_unidentified tagged_device : EndReason
  identity_changed grant_invalid grant_removed : EndReason

-- Why a session of a Tailscale key ends, if it does.
unfoldable pub verify_tailnet_session : Handler → Request → ApiKey → Option EndReason
verify_tailnet_session h r key =
    let si = tailnet_sign_in h r in
    if not h.identity_login
    then some identity_login_off
    else (if not si.offered
        then some not_on_tailnet_listener
        else (if si.unavailable
            then some peer_unidentified
            else (if si.tagged
                then some tagged_device
                else (if not (si.login == key.tailnet_login)
                    then some identity_changed
                    else (if si.bad_grant
                        then some grant_invalid
                        else (if not (any (λ n. n == key.namespace) si.namespaces)
                            then some grant_removed
                            else none))))))

abbrev pub stays : Option EndReason → Bool
stays none = true
stays (some reason) = false

abbrev pub manager : Handler → Request → SessionManager
manager h r = record {
  hash_token = h.hash_token;
  idle_ttl = h.idle_ttl;
  absolute_ttl = h.absolute_ttl;
  verify_identity = some (λ key. stays (verify_tailnet_session h r key));
}

pub data Response : Type 0 where
  signed_in signed_out to_login setup_complete not_found form_expired forbidden : Response
  invalid_key invalid_token incomplete internal_error : Response

unfoldable pub valid_public_csrf : Request → Bool
valid_public_csrf r = elim r.public_csrf [
  | none ↦ false
  | some cookie ↦ validate_csrf cookie r.csrf_token
]

abbrev pub Answer : Type 0
Answer = Tables × CookieChange × Response

abbrev pub is_unauthenticated : KeyError → Bool
is_unauthenticated unauthenticated = true
is_unauthenticated e = false

abbrev pub signed : Reply ApiKey → Answer
signed (t, c, ok key) = (t, c, signed_in)
signed (t, c, err e) = (t, c, if is_unauthenticated e then invalid_key else internal_error)

unfoldable pub handle_login : Handler → World → Request → Tables → Answer
handle_login h w r t =
    if valid_public_csrf r
    then signed (login (manager h r) w r.session_cookie r.api_key t)
    else (t, kept, form_expired)

abbrev pub begun : Reply Unit → Answer
begun (t, c, ok u) = (t, c, signed_in)
begun (t, c, err e) = (t, c, internal_error)

abbrev pub with_tailnet_key : Handler → World → Request → Tables × Outcome ApiKey → Answer
with_tailnet_key h w r (t, err e) = (t, kept, internal_error)
with_tailnet_key h w r (t, ok key) =
    if key.enabled
    then begun (start_session (manager h r) w r.session_cookie key t)
    else (t, kept, forbidden)

-- `key_label` is the text "tailscale: " and the login.
unfoldable pub tailnet_login : Handler → World → Request → (key_label : String) → Tables → Answer
tailnet_login h w r key_label t =
    let si = tailnet_sign_in h r in
    if not si.offered
    then (t, kept, not_found)
    else (if not (valid_public_csrf r)
        then (t, kept, form_expired)
        else (if si.login == "" || not (any (λ n. n == r.namespace) si.namespaces)
            then (t, kept, forbidden)
            else with_tailnet_key h w r
                (tailnet_key h.hash_token w r.namespace si.login key_label t)))

abbrev pub is_completed : KeyError → Bool
is_completed bootstrap_already_completed = true
is_completed e = false

-- The sign-in with the new key may fail; the answer is the same.
abbrev pub with_first_key : Handler → World → Request → Tables × Outcome CreateApiKeyResult → Answer
with_first_key h w r (t, err e) = (t, kept, if is_completed e then to_login else internal_error)
with_first_key h w r (t, ok key) =
    let (t1, c, o) = login (manager h r) w r.session_cookie key.0 t in (t1, c, setup_complete)

-- The name and the label of the form are trimmed already.
unfoldable pub setup : Handler → World → Request → Tables → Answer
setup h w r t =
    if w.fails key_count
    then (t, kept, internal_error)
    else (if has_any_api_keys t
        then (t, kept, to_login)
        else (if not (valid_public_csrf r)
            then (t, kept, form_expired)
            else (if not (validate_csrf h.bootstrap_token r.form_token)
                then (t, kept, invalid_token)
                else (if r.namespace == "" || r.label == ""
                    then (t, kept, incomplete)
                    else with_first_key h w r
                        (bootstrap_first_api_key h.hash_token w r.namespace r.label t)))))

abbrev pub ended : Reply Unit → Answer
ended (t, c, ok u) = (t, c, signed_out)
ended (t, c, err e) = (t, c, internal_error)

abbrev pub log_out_as : Handler → World → Request → Reply AuthState → Answer
log_out_as h w r (t, c, err e) = (t, c, if is_unauthenticated e then to_login else internal_error)
log_out_as h w r (t, c, ok auth) =
    if validate_csrf auth.session.csrf_token r.csrf_token
    then ended (logout (manager h r) w r.session_cookie t)
    else (t, c, forbidden)

unfoldable pub handle_logout : Handler → World → Request → Tables → Answer
handle_logout h w r t = log_out_as h w r (authenticate (manager h r) w r.session_cookie t)
