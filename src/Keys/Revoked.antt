-- ===== src/Keys/Revoked.antt =====
-- internal/service/apikeys.go: what is gone with an API key.
use cronlite.Base.{
  ℕ, ◌≡◌, refl, sym, ap, ◌∙◌, String, true, false, ◌||◌, ◌&&◌, not, ltb, ◌≢◌, Option, none, some,
  List, [], ◌∷◌, arith, map, nat_beq, lookup, lookup-insert, lookup-delete, lookup-delete_self,
  text_key, id_key, ◌==◌, if-intro, All,
}
use mathlib.Core.Path.{subst}
use cronlite.KeyCache.{ApiKey}
use cronlite.Keys.{
  Tables, AdminSession, Outcome, ok, err, create_admin_session, refresh_found,
  refresh_admin_session, delete_admin_session, put_key, update_last_used_at, used, delete_key,
  delete_found, has,
}
use cronlite.Keys.Service.{World, delete_api_key, settled, key_deletion}
use cronlite.Keys.Sessions.{AuthState, CookieChange, authenticate, session_for}
use cronlite.Keys.SignIn.{Handler, Request, manager}
use cronlite.Keys.Steps.{Action, deletes_key, act, act_all, empty_tables}
use cronlite.Keys.Closed.{Good, Kept}
use cronlite.Keys.Closed.Requests.{act-Kept}
use cronlite.Keys.Expiry.{AllTimely, kept-AllTimely, act_all-Timely}
use cronlite.Keys.Live.{authenticated-Serves}

abbrev pub Gone : ℕ → Tables → Type 0
Gone id t = lookup id t.keys ≡ none

lookup-used :
    (now id : ℕ) (ids : List ℕ) (keys : List (ℕ × ApiKey))
    → lookup id keys ≡ none
    → lookup id (map (used now ids) keys) ≡ none
unfolding lookup
lookup-used now id ids [] e = refl
lookup-used now id ids ((j, k) ∷ keys) e = ground (arith, e, lookup-used now id ids keys)

-- The requests that come after a deletion make keys with new ids.
abbrev pub NewIds : ℕ → List (World × Action) → Type 0
NewIds id acts = All (λ act. nat_beq act.0.new_id id ≡ false) acts

module _ (h : Handler) (w : World) (id : ℕ) (new : nat_beq w.new_id id ≡ false) where
  begins-Gone :
      (r : Request) (key : ApiKey) (raw csrf : String) (t : Tables)
      → Gone id t
      → Good (Gone id) (create_admin_session (session_for (manager h r) w key raw csrf) t)
  unfolding create_admin_session
  begins-Gone r key raw csrf t p =
      let s = session_for (manager h r) w key raw csrf in
      if-intro (Good (Gone id))
        (has s.token_hash t.sessions
          || not (has s.api_key_id t.keys)
          || ltb s.absolute_expires_at s.expires_at)
        _ _ (λ b. tt) (λ b. p)

  refresh_found-Gone :
      (hash : String) (expires : ℕ) (o : Option AdminSession) (t : Tables)
      → Gone id t
      → Good (Gone id) (refresh_found hash w.now expires o t)
  refresh_found-Gone hash expires none t p = tt
  refresh_found-Gone hash expires (some s) t p =
      if-intro (Good (Gone id)) (ltb w.now s.expires_at && ltb w.now s.absolute_expires_at) _ _
        (λ b. p) (λ b. tt)

  adds-Gone : (key : ApiKey) (t : Tables) → key.id ≡ w.new_id → Gone id t → Gone id (put_key key t)
  adds-Gone key t e p =
      let other : nat_beq key.id id ≡ false = ap (λ i. nat_beq i id) e ∙ new in
      ground (arith, p, other, lookup-insert key.id id (record key { last_used_at = none }) t.keys)

  kept-Gone : Kept h w (Gone id)
  unfolding refresh_admin_session delete_admin_session update_last_used_at
  kept-Gone = record {
    forgets = λ hash t p. p;
    begins = begins-Gone;
    extends = λ hash expires t le p. refresh_found-Gone hash expires (lookup hash t.sessions) t p;
    adds = λ key t e p. adds-Gone key t e p;
    removes = λ k t p. ground (arith, p, lookup-delete k id t.keys);
    uses = λ ids t p. lookup-used w.now id ids t.keys p;
  }

act_all-Gone :
    (h : Handler) (id : ℕ) (acts : List (World × Action)) (t : Tables)
    → NewIds id acts
    → Gone id t
    → Gone id (act_all h acts t)
unfolding act_all
act_all-Gone h id [] t new p = p
act_all-Gone h id ((w, a) ∷ more) t (n, new) p =
    act_all-Gone h id more (act h w a t) new (act-Kept h w (Gone id) (kept-Gone h w id n) a t p)

delete_found-Gone :
    (id : ℕ) (ns : String) (o : Option ApiKey) (t : Tables)
    → Good (Gone id) (delete_found id ns o t)
delete_found-Gone id ns none t = tt
delete_found-Gone id ns (some k) t =
    if-intro (Good (Gone id)) (k.namespace == ns) _ _ (λ b. lookup-delete_self id t.keys) (λ b. tt)

missing : {k : ApiKey} → none ≡ some k → false ≡ true
missing e = ap (λ (o : Option ApiKey). elim o [ none ↦ false | some k ↦ true ]) e

-- A deletion that succeeds.
abbrev Succeeds : ℕ → Tables × Outcome {0} Unit → Type 0
Succeeds id (t, ok u) = Gone id t
Succeeds id (t, err e) = Unit

settled-Gone :
    (id : ℕ) (t : Tables) (o : Outcome Tables) → Good (Gone id) o → Succeeds id (settled t o)
settled-Gone id t (ok t1) g = g
settled-Gone id t (err e) g = tt

delete_api_key-Succeeds :
    (w : World) (ns : String) (id : ℕ) (t : Tables) → Succeeds id (delete_api_key w ns id t)
unfolding delete_api_key delete_key
delete_api_key-Succeeds w ns id t =
    if-intro (Succeeds id) (ns == "") _ _ (λ b. tt)
      (λ b.
        if-intro (λ o. Succeeds id (settled t o)) (w.fails key_deletion) _ _ (λ d. tt)
          (λ d. settled-Gone id t _ (delete_found-Gone id ns (lookup id t.keys) t)))

-- An API key whose deletion succeeds after any requests: whatever requests follow, if the keys that
-- they make have other ids, no request is authenticated with a session of it.
pub deleted_key_dead :
    (h : Handler) (before after : List (World × Action)) (wd : World) (ns : String) (id : ℕ)
    (t1 : Tables)
    → delete_api_key wd ns id (act_all h before empty_tables) ≡ (t1, ok tt)
    → NewIds id after
    → (w : World) (r : Request) (t : Tables) (c : CookieChange) (auth : AuthState)
    → authenticate (manager h r) w r.session_cookie (act_all h after t1) ≡ (t, c, ok auth)
    → auth.session.api_key_id ≢ id
unfolding act
deleted_key_dead h before after wd ns id t1 done new w r t c auth e same =
    let t0 = act_all h before empty_tables in
    let timely : AllTimely h t1 =
      subst (λ (x : Tables × Outcome {0} Unit). AllTimely h x.0) done
        (act-Kept h wd (AllTimely h) (kept-AllTimely h wd) (deletes_key ns id) t0
          (act_all-Timely h before empty_tables tt)) in
    let gone : Gone id (act_all h after t1) =
      act_all-Gone h id after t1 new
        (subst (Succeeds id) done (delete_api_key-Succeeds wd ns id t0)) in
    let (raw, s, sent, here, of, there, live, total, idle, checked) =
      authenticated-Serves h w r (act_all h after t1) t c auth (act_all-Timely h after t1 timely)
        e in
    absurd (
      ground (
        arith,
        missing (sym gone ∙ (ap (λ i. lookup i (act_all h after t1).keys) (sym same ∙ of) ∙ there)),
      ))
