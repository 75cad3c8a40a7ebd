-- ===== src/Config/Accepted.antt =====
-- internal/config/validate.go: what an accepted configuration promises the other parts.
use cronlite.Base.{
  ◌/◌, ◌≤◌, ◌<◌, ◌≡◌, refl, ap, ◌∙◌, String, Bool, true, false, ◌&&◌, not, Option, none, some, List,
  [], ◌∷◌, ◌++◌, arith, ltb, lookup, insert, lookup-insert_self, filter_by, id_key, text_key,
  if◌then◌else◌,
}
use cronlite.KeyCache.{ApiKey}
use cronlite.Keys.{
  Tables, AdminSession, ok, err, database_failed, has, is_current, create_admin_session,
}
use cronlite.Keys.Service.{session_insert}
use cronlite.Keys.Service as KeyService
use cronlite.Keys.Sessions.{SessionManager, start_session, session_for, insert_session, started}
use cronlite.Config.{
  Config, World, ValidationError, complain, Field, Message, validate, validate_admin, is_zero,
  validate_basics, validate_leader, validate_timeouts, validate_listeners, validate_reconciler,
  admin_session_ttl_field, admin_session_absolute_ttl_field, not_positive, too_small,
}

append-nil : (xs ys : List ValidationError) → xs ++ ys ≡ [] → (xs ≡ []) × (ys ≡ [])
append-nil [] ys e = (refl, e)
append-nil (x ∷ xs) ys e = absurd (ground (arith, e))

-- What an accepted configuration passes.
accepted_admin : (w : World) (cfg : Config) → validate w cfg ≡ [] → validate_admin cfg ≡ []
unfolding validate
accepted_admin w cfg e =
    let before =
      validate_basics w cfg
      ++ validate_leader cfg
      ++ validate_timeouts cfg
      ++ validate_listeners w cfg
      ++ validate_reconciler cfg in
    (append-nil before (validate_admin cfg) (append-nil (before ++ validate_admin cfg) _ e).0).1

all_quiet :
    (a b c : Bool) (f g h : Field) (k l m : Message)
    → complain a f k ++ complain b g l ++ complain c h m ≡ []
    → (a ≡ false) × (b ≡ false) × (c ≡ false)
all_quiet true b c f g h k l m e = absurd (ground (arith, e))
all_quiet false true c f g h k l m e = absurd (ground (arith, e))
all_quiet false false true f g h k l m e = absurd (ground (arith, e))
all_quiet false false false f g h k l m e = (refl, refl, refl)

-- The idle time is positive and not above the absolute one.
accepted_ttls :
    (w : World) (cfg : Config)
    → validate w cfg ≡ []
    → cfg.admin_enabled ≡ true
    → (0 < cfg.admin_session_ttl) × (cfg.admin_session_ttl ≤ cfg.admin_session_absolute_ttl)
unfolding validate_admin
accepted_ttls w cfg e on =
    let idle = cfg.admin_session_ttl in
    let absolute = cfg.admin_session_absolute_ttl in
    let enabled = cfg.admin_enabled in
    let (a, b, c) =
      all_quiet (enabled && is_zero idle) (enabled && is_zero absolute)
        (enabled && not (is_zero idle) && not (is_zero absolute) && ltb absolute idle)
        admin_session_ttl_field admin_session_absolute_ttl_field admin_session_absolute_ttl_field
        not_positive not_positive too_small (accepted_admin w cfg e) in
    (ground (arith, on, a), ground (arith, on, a, b, c))

-- The session manager that the service sets up, in microseconds.
abbrev pub manager_of : Config → (String → String) → Option (ApiKey → Bool) → SessionManager
manager_of cfg hash verify = record {
  hash_token = hash;
  idle_ttl = cfg.admin_session_ttl / 1000;
  absolute_ttl = cfg.admin_session_absolute_ttl / 1000;
  verify_identity = verify;
}

-- The session is stored, if its token is new and its key is there.
inserted :
    (s : AdminSession) (k : ApiKey) (t : Tables)
    → lookup s.api_key_id t.keys ≡ some k
    → lookup s.token_hash t.sessions ≡ none
    → s.expires_at ≤ s.absolute_expires_at
    → create_admin_session s t
      ≡ ok (record t {
        sessions = insert s.token_hash s (filter_by (is_current s.created_at) t.sessions);
      })
unfolding create_admin_session
inserted s k t here free le =
    let known : has s.api_key_id t.keys ≡ true =
      ap (λ (o : Option ApiKey). elim o [ none ↦ false | some x ↦ true ]) here in
    let new : has s.token_hash t.sessions ≡ false =
      ap (λ (o : Option AdminSession). elim o [ none ↦ false | some x ↦ true ]) free in
    ground (arith, known, new, le)

-- With an accepted configuration whose admin pages are on: if the database does not fail, there is
-- randomness and the new token is the token of no stored session, a sign-in of a stored key without a
-- cookie succeeds, and its session is stored.
pub sign_in_starts :
    (w : World) (cfg : Config) (hash : String → String) (verify : Option (ApiKey → Bool))
    (v : KeyService.World) (key k : ApiKey) (raw csrf : String) (t : Tables)
    → validate w cfg ≡ []
    → cfg.admin_enabled ≡ true
    → lookup key.id t.keys ≡ some k
    → lookup (hash raw) t.sessions ≡ none
    → v.new_session ≡ some raw
    → v.new_csrf ≡ some csrf
    → v.fails session_insert ≡ false
    → ((start_session (manager_of cfg hash verify) v none key t).2 ≡ ok tt)
      × (lookup (hash raw) (start_session (manager_of cfg hash verify) v none key t).0.sessions
          ≡ some (session_for (manager_of cfg hash verify) v key raw csrf))
unfolding start_session
sign_in_starts w cfg hash verify v key k raw csrf t e on here free fresh form works =
    let m = manager_of cfg hash verify in
    let s = session_for m v key raw csrf in
    let order : m.idle_ttl ≤ m.absolute_ttl = omega (arith, (accepted_ttls w cfg e on).1) in
    let rows = filter_by (is_current s.created_at) t.sessions in
    let done =
      ap (λ o. insert_session m v key o v.new_csrf t) fresh
      ∙ (ap (λ o. insert_session m v key (some raw) o t) form
          ∙ (ap
                (λ b.
                  started m v raw t (if b then err database_failed else create_admin_session s t))
                works
              ∙ ap (started m v raw t) (inserted s k t here free (omega (arith, order))))) in
    (
      ap (λ r. r.2) done,
      ap (λ r. lookup (hash raw) r.0.sessions) done ∙ lookup-insert_self (hash raw) s rows,
    )
