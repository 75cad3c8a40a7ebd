-- ===== src/Keys/Closed/Requests.antt =====
-- internal/webadmin/auth.go and its handlers: what the statements keep, the requests keep.
use cronlite.Base.{
  ◌+◌, ◌/◌, ◌-◌, ◌≤◌, String, ◌&&◌, ◌||◌, not, Option, none, some, any, arith, leb, ◌==◌, text_key,
  id_key, if-intro,
}
use cronlite.KeyCache.{ApiKey}
use cronlite.Keys.{
  Tables, AdminSession, Outcome, ok, err, has_any_api_keys, delete_admin_session, get_admin_session,
  get_key_by_token_hash,
}
use cronlite.Keys.Service.{
  World, CreateApiKeyResult, key_count, session_deletion, session_insert, session_refresh,
  key_lookup, session_lookup,
}
use cronlite.Keys.Sessions.{
  Reply, AuthState, forget_session, started, insert_session, after_forgetting, start_session,
  with_key, login_found, login, next_expiry, renew, extend, rejected, is_verified, check_identity,
  authenticate, forgotten, logout, validate_csrf,
}
use cronlite.Keys.SignIn.{
  Handler, Request, manager, signed, handle_login, begun, with_tailnet_key, tailnet_login,
  with_first_key, setup, ended, log_out_as, handle_logout, valid_public_csrf, tailnet_sign_in,
}
use cronlite.Keys.Steps.{
  Action, signs_in, signs_out, sets_up, visits, signs_in_by_tailnet, creates_key, deletes_key,
  uses_keys, act,
}
use cronlite.Keys.Closed.{
  Good, EndsReply, EndsAnswer, Kept, call-Good, create_api_key-Kept, bootstrap-Kept,
  tailnet_key-Kept, delete_api_key-Kept,
}

module _ (h : Handler) (w : World) (P : Tables → Type 0) (c : Kept h w P) where
  -- The session manager of a request.
  module _ (r : Request) where
    forget_session-Good :
        (cookie : Option String) (t : Tables)
        → P t
        → Good P (forget_session (manager h r) w cookie t)
    forget_session-Good none t p = p
    forget_session-Good (some raw) t p =
        if-intro (Good P) (raw == "") _ _ (λ b. p)
          (λ b.
            call-Good h w P c session_deletion (ok (delete_admin_session (h.hash_token raw) t))
              (c.forgets (h.hash_token raw) t p))

    started-Kept :
        (raw : String) (t : Tables) (o : Outcome Tables)
        → P t
        → Good P o
        → P (started (manager h r) w raw t o).0
    started-Kept raw t (ok t1) p g = g
    started-Kept raw t (err e) p g = p

    insert_session-Kept :
        (key : ApiKey) (raw csrf : Option String) (t : Tables)
        → P t
        → P (insert_session (manager h r) w key raw csrf t).0
    insert_session-Kept key none csrf t p = p
    insert_session-Kept key (some raw) none t p = p
    insert_session-Kept key (some raw) (some csrf) t p =
        started-Kept raw t _ p (call-Good h w P c session_insert _ (c.begins r key raw csrf t p))

    after_forgetting-Kept :
        (key : ApiKey) (t : Tables) (o : Outcome Tables)
        → P t
        → Good P o
        → P (after_forgetting (manager h r) w key t o).0
    after_forgetting-Kept key t (err e) p g = p
    after_forgetting-Kept key t (ok t1) p g = insert_session-Kept key w.new_session w.new_csrf t1 g

    start_session-Kept :
        (cookie : Option String) (key : ApiKey) (t : Tables)
        → P t
        → P (start_session (manager h r) w cookie key t).0
    unfolding start_session
    start_session-Kept cookie key t p =
        after_forgetting-Kept key t _ p (forget_session-Good cookie t p)

    with_key-Kept : (key : ApiKey) (a : Reply Unit) → P a.0 → P (with_key key a).0
    with_key-Kept key (t, k, ok u) p = p
    with_key-Kept key (t, k, err e) p = p

    login_found-Kept :
        (cookie : Option String) (t : Tables) (o : Outcome ApiKey)
        → P t
        → P (login_found (manager h r) w cookie t o).0
    login_found-Kept cookie t (err e) p = p
    login_found-Kept cookie t (ok key) p =
        if-intro (EndsReply ApiKey P) (not key.enabled || not (key.tailnet_login == "")) _ _
          (λ b. p) (λ b. with_key-Kept key _ (start_session-Kept cookie key t p))

    login-Kept :
        (cookie : Option String) (api_key : String) (t : Tables)
        → P t
        → P (login (manager h r) w cookie api_key t).0
    unfolding login
    login-Kept cookie api_key t p =
        if-intro (EndsReply ApiKey P) (w.fails key_lookup) _ _ (λ b. p)
          (λ b. login_found-Kept cookie t (get_key_by_token_hash (h.hash_token api_key) t) p)

    next_expiry_le : (s : AdminSession) → next_expiry (manager h r) w s ≤ w.now + h.idle_ttl
    next_expiry_le s = ground arith

    renew-Kept :
        (raw : String) (s : AdminSession) (key : ApiKey) (t : Tables) (o : Outcome Tables)
        → P t
        → Good P o
        → P (renew (manager h r) w raw s key t o).0
    renew-Kept raw s key t (err e) p g = p
    renew-Kept raw s key t (ok t1) p g = g

    extend-Kept :
        (raw : String) (s : AdminSession) (key : ApiKey) (t : Tables)
        → P t
        → P (extend (manager h r) w raw s key t).0
    extend-Kept raw s key t p =
        if-intro (EndsReply AuthState P) (leb (s.expires_at - w.now) (h.idle_ttl / 2)) _ _
          (λ b.
            renew-Kept raw s key t _ p
              (call-Good h w P c session_refresh _ (c.extends _ _ t (next_expiry_le s) p)))
          (λ b. p)

    rejected-Kept : (t : Tables) (o : Outcome Tables) → P t → Good P o → P (rejected t o).0
    rejected-Kept t (err e) p g = p
    rejected-Kept t (ok t1) p g = g

    check_identity-Kept :
        (raw : String) (t : Tables) (o : Outcome (AdminSession × ApiKey))
        → P t
        → P (check_identity (manager h r) w raw t o).0
    check_identity-Kept raw t (err e) p = p
    check_identity-Kept raw t (ok (s, key)) p =
        if-intro (EndsReply AuthState P)
          (not (key.tailnet_login == "") && not (is_verified (manager h r).verify_identity key)) _ _
          (λ b.
            rejected-Kept t _ p
              (call-Good h w P c session_deletion _ (c.forgets (h.hash_token raw) t p)))
          (λ b. extend-Kept raw s key t p)

    authenticate-Kept :
        (cookie : Option String) (t : Tables) → P t → P (authenticate (manager h r) w cookie t).0
    unfolding authenticate
    authenticate-Kept none t p = p
    authenticate-Kept (some raw) t p =
        if-intro (EndsReply AuthState P) (raw == "") _ _ (λ b. p)
          (λ b.
            if-intro (EndsReply AuthState P) (w.fails session_lookup) _ _ (λ d. p)
              (λ d. check_identity-Kept raw t (get_admin_session (h.hash_token raw) w.now t) p))

    forgotten-Kept : (t : Tables) (o : Outcome Tables) → P t → Good P o → P (forgotten t o).0
    forgotten-Kept t (err e) p g = p
    forgotten-Kept t (ok t1) p g = g

    signed-Kept : (a : Reply ApiKey) → P a.0 → P (signed a).0
    signed-Kept (t, k, ok u) p = p
    signed-Kept (t, k, err e) p = p

    begun-Kept : (a : Reply Unit) → P a.0 → P (begun a).0
    begun-Kept (t, k, ok u) p = p
    begun-Kept (t, k, err e) p = p

    ended-Kept : (a : Reply Unit) → P a.0 → P (ended a).0
    ended-Kept (t, k, ok u) p = p
    ended-Kept (t, k, err e) p = p

    with_tailnet_key-Kept : (a : Tables × Outcome ApiKey) → P a.0 → P (with_tailnet_key h w r a).0
    with_tailnet_key-Kept (t, err e) p = p
    with_tailnet_key-Kept (t, ok key) p =
        if-intro (EndsAnswer P) key.enabled _ _
          (λ b. begun-Kept _ (start_session-Kept r.session_cookie key t p)) (λ b. p)

    with_first_key-Kept :
        (a : Tables × Outcome CreateApiKeyResult) → P a.0 → P (with_first_key h w r a).0
    with_first_key-Kept (t, err e) p = p
    with_first_key-Kept (t, ok key) p = login-Kept r.session_cookie key.0 t p

    log_out_as-Kept : (a : Reply AuthState) → P a.0 → P (log_out_as h w r a).0
    unfolding logout
    log_out_as-Kept (t, k, err e) p = p
    log_out_as-Kept (t, k, ok auth) p =
        if-intro (EndsAnswer P) (validate_csrf auth.session.csrf_token r.csrf_token) _ _
          (λ b. ended-Kept _ (forgotten-Kept t _ p (forget_session-Good r.session_cookie t p)))
          (λ b. p)

    setup-Kept : (t : Tables) → P t → P (setup h w r t).0
    unfolding setup
    setup-Kept t p =
        if-intro (EndsAnswer P) (w.fails key_count) _ _ (λ b. p)
          (λ b.
            if-intro (EndsAnswer P) (has_any_api_keys t) _ _ (λ b. p)
              (λ b.
                if-intro (EndsAnswer P) (not (valid_public_csrf r)) _ _ (λ b. p)
                  (λ b.
                    if-intro (EndsAnswer P) (not (validate_csrf h.bootstrap_token r.form_token)) _ _
                      (λ b. p)
                      (λ b.
                        if-intro (EndsAnswer P) (r.namespace == "" || r.label == "") _ _ (λ b. p)
                          (λ b.
                            with_first_key-Kept _
                              (bootstrap-Kept h w P c r.namespace r.label t p))))))

    tailnet_login-Kept : (label : String) (t : Tables) → P t → P (tailnet_login h w r label t).0
    unfolding tailnet_login
    tailnet_login-Kept label t p =
        let si = tailnet_sign_in h r in
        if-intro (EndsAnswer P) (not si.offered) _ _ (λ b. p)
          (λ b.
            if-intro (EndsAnswer P) (not (valid_public_csrf r)) _ _ (λ b. p)
              (λ b.
                if-intro (EndsAnswer P)
                  (si.login == "" || not (any (λ n. n == r.namespace) si.namespaces)) _ _ (λ b. p)
                  (λ b.
                    with_tailnet_key-Kept _
                      (tailnet_key-Kept h w P c r.namespace si.login label t p))))

  -- A request keeps what its statements keep.
  pub act-Kept : (a : Action) (t : Tables) → P t → P (act h w a t)
  unfolding act handle_login handle_logout
  act-Kept (signs_in r) t p =
      if-intro (EndsAnswer P) (valid_public_csrf r) _ _
        (λ b. signed-Kept r _ (login-Kept r r.session_cookie r.api_key t p)) (λ b. p)
  act-Kept (signs_out r) t p = log_out_as-Kept r _ (authenticate-Kept r r.session_cookie t p)
  act-Kept (sets_up r) t p = setup-Kept r t p
  act-Kept (visits r) t p = authenticate-Kept r r.session_cookie t p
  act-Kept (signs_in_by_tailnet r label) t p = tailnet_login-Kept r label t p
  act-Kept (creates_key ns label) t p = create_api_key-Kept h w P c ns label t p
  act-Kept (deletes_key ns id) t p = delete_api_key-Kept h w P c ns id t p
  act-Kept (uses_keys ids) t p = c.uses ids t p
