-- ===== src/Keys/Live.antt =====
-- internal/webadmin/auth.go: whom a request is authenticated as.
use cronlite.Base.{
  ℕ, ◌+◌, ◌-◌, ◌/◌, ◌<◌, ◌≡◌, refl, String, true, false, ◌&&◌, not, Option, none, some, List, arith,
  lookup-All, leb, ltb, lookup, ◌==◌, text_key, id_key, if-intro,
}
use cronlite.KeyCache.{ApiKey}
use cronlite.Keys.{
  Tables, AdminSession, Outcome, ok, err, or_error, refresh_admin_session, delete_admin_session,
  get_admin_session, join_session, join_key, admin_session_not_found,
}
use cronlite.Keys.Service.{World, session_lookup, session_refresh, session_deletion, call}
use cronlite.Keys.Sessions.{
  Reply, AuthState, CookieChange, authenticate, check_identity, extend, renew, rejected,
  is_verified, next_expiry,
}
use cronlite.Keys.SignIn.{Handler, Request, EndReason, manager, verify_tailnet_session, stays}
use mathlib.Core.Path.{subst}
use cronlite.Keys.Steps.{Action, act_all, empty_tables}
use cronlite.Keys.Expiry.{Timely, AllTimely, act_all-Timely}

-- The stored session and key that a request with a cookie is served with.
abbrev pub Serves : Handler → World → Request → Tables → AuthState → Type 0
Serves h w r t auth =
    (raw : String) × (s : AdminSession) × (r.session_cookie ≡ some raw)
    × (lookup (h.hash_token raw) t.sessions ≡ some s)
    × (auth.session.api_key_id ≡ s.api_key_id)
    × (lookup s.api_key_id t.keys ≡ some auth.key)
    × (auth.key.enabled ≡ true)
    × (w.now < s.created_at + h.absolute_ttl)
    × (w.now < s.last_seen_at + h.idle_ttl)
    × ((auth.key.tailnet_login == "") ≡ false → verify_tailnet_session h r auth.key ≡ none)

-- What the statement finds, if it finds a session.
abbrev Found : String → ℕ → Tables → Outcome (AdminSession × ApiKey) → Type 0
Found hash now t (err e) = Unit
Found hash now t (ok (s, key)) =
    (lookup hash t.sessions ≡ some s)
    × (lookup s.api_key_id t.keys ≡ some key)
    × (key.enabled ≡ true)
    × (ltb now s.expires_at ≡ true)
    × (ltb now s.absolute_expires_at ≡ true)

joined_key-Found :
    (hash : String) (now : ℕ) (t : Tables) (s : AdminSession) (k : Option ApiKey)
    → lookup hash t.sessions ≡ some s
    → lookup s.api_key_id t.keys ≡ k
    → Found hash now t (or_error admin_session_not_found (join_key now s k))
joined_key-Found hash now t s none e f = tt
joined_key-Found hash now t s (some key) e f =
    if-intro (λ o. Found hash now t (or_error admin_session_not_found o))
      (ltb now s.expires_at && ltb now s.absolute_expires_at && key.enabled) _ _
      (λ b. (e, f, ground (arith, b), ground (arith, b), ground (arith, b))) (λ b. tt)

joined_session-Found :
    (hash : String) (now : ℕ) (t : Tables) (o : Option AdminSession)
    → lookup hash t.sessions ≡ o
    → Found hash now t (or_error admin_session_not_found (join_session now t o))
joined_session-Found hash now t none e = tt
joined_session-Found hash now t (some s) e =
    joined_key-Found hash now t s (lookup s.api_key_id t.keys) e refl

get_admin_session-Found :
    (hash : String) (now : ℕ) (t : Tables) → Found hash now t (get_admin_session hash now t)
unfolding get_admin_session
get_admin_session-Found hash now t = joined_session-Found hash now t (lookup hash t.sessions) refl

-- A reply that serves somebody has the property.
abbrev Serving : (AuthState → Type 0) → Reply AuthState → Type 0
Serving Q (t, c, ok auth) = Q auth
Serving Q (t, c, err e) = Unit

module _ (h : Handler) (w : World) (r : Request) (Q : AuthState → Type 0) where
  -- The session is served as it is stored, or with a later expiry.
  abbrev Either : AdminSession → ApiKey → Type 0
  Either s key =
      (last expires : ℕ)
      → Q (record { session = record s { last_seen_at = last; expires_at = expires }; key = key })

  renew-Serving :
      (raw : String) (s : AdminSession) (key : ApiKey) (t : Tables) (o : Outcome Tables)
      → Either s key
      → Serving Q (renew (manager h r) w raw s key t o)
  renew-Serving raw s key t (ok t1) q = q w.now (next_expiry (manager h r) w s)
  renew-Serving raw s key t (err e) q = tt

  extend-Serving :
      (raw : String) (s : AdminSession) (key : ApiKey) (t : Tables)
      → Either s key
      → Serving Q (extend (manager h r) w raw s key t)
  extend-Serving raw s key t q =
      if-intro (Serving Q) (leb (s.expires_at - w.now) (h.idle_ttl / 2)) _ _
        (λ b.
          renew-Serving raw s key t
            (call w session_refresh
              (refresh_admin_session (h.hash_token raw) w.now (next_expiry (manager h r) w s) t))
            q)
        (λ b. q s.last_seen_at s.expires_at)

  rejected-Serving : (t : Tables) (o : Outcome Tables) → Serving Q (rejected t o)
  rejected-Serving t (ok t1) = tt
  rejected-Serving t (err e) = tt

stays-none : (o : Option EndReason) → stays o ≡ true → o ≡ none
stays-none none e = refl
stays-none (some reason) e = absurd (ground (arith, e))

check_identity-Serves :
    (h : Handler) (w : World) (r : Request) (raw : String) (t : Tables)
    (o : Outcome (AdminSession × ApiKey))
    → r.session_cookie ≡ some raw
    → AllTimely h t
    → Found (h.hash_token raw) w.now t o
    → Serving (Serves h w r t) (check_identity (manager h r) w raw t o)
check_identity-Serves h w r raw t (err e) sent p f = tt
check_identity-Serves h w r raw t (ok (s, key)) sent p (here, there, enabled, idle, total) =
    let (fixed, last) = lookup-All (Timely h) (h.hash_token raw) s t.sessions p here in
    if-intro (Serving (Serves h w r t))
      (not (key.tailnet_login == "") && not (is_verified (manager h r).verify_identity key)) _ _
      (λ b.
        rejected-Serving h w r (Serves h w r t) t
          (call w session_deletion (ok (delete_admin_session (h.hash_token raw) t))))
      (λ b. extend-Serving h w r (Serves h w r t) raw s key t (λ last_seen expires. (
        raw,
        s,
        sent,
        here,
        refl,
        there,
        enabled,
        ground (arith, total, fixed),
        ground (arith, idle, last),
        λ n. stays-none (verify_tailnet_session h r key) (ground (arith, b, n)),
      )))

authenticate-Serves :
    (h : Handler) (w : World) (r : Request) (cookie : Option String) (t : Tables)
    → r.session_cookie ≡ cookie
    → AllTimely h t
    → Serving (Serves h w r t) (authenticate (manager h r) w cookie t)
unfolding authenticate
authenticate-Serves h w r none t sent p = tt
authenticate-Serves h w r (some raw) t sent p =
    if-intro (Serving (Serves h w r t)) (raw == "") _ _ (λ b. tt)
      (λ b.
        if-intro (Serving (Serves h w r t)) (w.fails session_lookup) _ _ (λ d. tt)
          (λ d.
            check_identity-Serves h w r raw t (get_admin_session (h.hash_token raw) w.now t) sent p
              (get_admin_session-Found (h.hash_token raw) w.now t)))

pub authenticated-Serves :
    (h : Handler) (w : World) (r : Request) (t0 t : Tables) (c : CookieChange) (auth : AuthState)
    → AllTimely h t0
    → authenticate (manager h r) w r.session_cookie t0 ≡ (t, c, ok auth)
    → Serves h w r t0 auth
authenticated-Serves h w r t0 t c auth p e =
    subst (Serving (Serves h w r t0)) e (authenticate-Serves h w r r.session_cookie t0 refl p)

-- After any requests from empty tables, whatever fails in them: a request that is authenticated has
-- the cookie of a stored session of a stored and enabled key, its time is less than the absolute TTL
-- after the session's start and less than the idle TTL after its last renewal, and for a key of a
-- Tailscale login the check of the request's identity passes.
pub authenticated_is_live :
    (h : Handler) (acts : List (World × Action)) (w : World) (r : Request) (t : Tables)
    (c : CookieChange) (auth : AuthState)
    → authenticate (manager h r) w r.session_cookie (act_all h acts empty_tables) ≡ (t, c, ok auth)
    → Serves h w r (act_all h acts empty_tables) auth
authenticated_is_live h acts w r t c auth e =
    authenticated-Serves h w r (act_all h acts empty_tables) t c auth
      (act_all-Timely h acts empty_tables tt) e
