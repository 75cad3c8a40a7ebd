-- ===== src/Keys/Closed.antt =====
-- internal/service/apikeys.go: what the statements keep, the operations on keys keep.
pub mod Requests
use cronlite.Base.{
  ℕ, ◌+◌, ◌/◌, ◌-◌, ◌≤◌, ◌≡◌, refl, String, Bool, true, false, ◌&&◌, ◌||◌, not, Option, none, some,
  List, [], ◌∷◌, any, arith, leb, ltb, lookup, ◌==◌, text_key, id_key, if◌then◌else◌, if-intro,
}
use cronlite.KeyCache.{ApiKey}
use cronlite.Keys.{
  Tables, AdminSession, Outcome, ok, err, put_key, remove_key, conflicts, insert_api_key,
  insert_first_api_key, has_any_api_keys, get_or_create_tailnet_key, or_insert, is_tailnet_key,
  find_key, delete_key, delete_found, update_last_used_at, create_admin_session,
  refresh_admin_session, delete_admin_session, get_admin_session, get_key_by_token_hash,
}
use cronlite.Keys.Service.{
  World, Call, call, CreateApiKeyResult, key_of, new_api_key, stored, insert_new, create_api_key,
  bootstrap_first_api_key, got, get_or_create, tailnet_key, settled, delete_api_key, key_count,
  session_deletion, session_insert, session_refresh, key_insert, key_deletion, key_lookup,
  session_lookup,
}
use cronlite.Keys.Sessions.{
  SessionManager, Reply, AuthState, forget_session, session_for, started, insert_session,
  after_forgetting, start_session, with_key, login_found, login, next_expiry, renew, extend,
  rejected, is_verified, check_identity, authenticate_raw, authenticate, forgotten, logout,
  validate_csrf,
}
use cronlite.Keys.SignIn.{
  Handler, Request, Answer, manager, signed, handle_login, begun, with_tailnet_key, tailnet_login,
  with_first_key, setup, ended, log_out_as, handle_logout, valid_public_csrf, tailnet_sign_in,
}
use cronlite.Keys.Steps.{
  Action, signs_in, signs_out, sets_up, visits, signs_in_by_tailnet, creates_key, deletes_key,
  uses_keys, act, act_all,
}

-- A predicate of the tables that a statement gives, if it succeeds.
abbrev pub Good : (Tables → Type 0) → Outcome Tables → Type 0
Good P (ok t) = P t
Good P (err e) = Unit

abbrev pub Ends {ℓ} : {A : Type ℓ} → (Tables → Type 0) → Tables × A → Type 0
Ends P r = P r.0

abbrev pub EndsReply : (A : Type 0) → (Tables → Type 0) → Reply A → Type 0
EndsReply A P r = P r.0

abbrev pub EndsAnswer : (Tables → Type 0) → Answer → Type 0
EndsAnswer P r = P r.0

-- The statements of a request keep the predicate.
pub record Kept (h : Handler) (w : World) (P : Tables → Type 0) : Type 0 where
  pub forgets : (hash : String) (t : Tables) → P t → P (delete_admin_session hash t)
  pub begins :
      (r : Request) (key : ApiKey) (raw csrf : String) (t : Tables)
      → P t
      → Good P (create_admin_session (session_for (manager h r) w key raw csrf) t)
  pub extends :
      (hash : String) (expires : ℕ) (t : Tables)
      → expires ≤ w.now + h.idle_ttl
      → P t
      → Good P (refresh_admin_session hash w.now expires t)
  pub adds : (key : ApiKey) (t : Tables) → key.id ≡ w.new_id → P t → P (put_key key t)
  pub removes : (id : ℕ) (t : Tables) → P t → P (remove_key id t)
  pub uses : (ids : List ℕ) (t : Tables) → P t → P (update_last_used_at w.now ids t)

module _ (h : Handler) (w : World) (P : Tables → Type 0) (c : Kept h w P) where
  pub call-Good : (a : Call) (o : Outcome Tables) → Good P o → Good P (call w a o)
  call-Good a o g = if-intro (Good P) (w.fails a) _ _ (λ b. tt) (λ b. g)

  insert_api_key-Good :
      (key : ApiKey) (t : Tables) → key.id ≡ w.new_id → P t → Good P (insert_api_key key t)
  unfolding insert_api_key
  insert_api_key-Good key t e p =
      if-intro (Good P) (conflicts key t) _ _ (λ b. tt)
        (λ b. c.adds (record key { tailnet_login = "" }) t e p)

  insert_first_api_key-Good :
      (key : ApiKey) (t : Tables) → key.id ≡ w.new_id → P t → Good P (insert_first_api_key key t)
  unfolding insert_first_api_key
  insert_first_api_key-Good key t e p =
      if-intro (Good P) (has_any_api_keys t) _ _ (λ b. tt)
        (λ b.
          if-intro (Good P) (conflicts key t) _ _ (λ d. tt)
            (λ d. c.adds (record key { tailnet_login = "" }) t e p))

  stored-Kept :
      (k : CreateApiKeyResult) (t : Tables) (o : Outcome Tables)
      → P t
      → Good P o
      → P (stored k t o).0
  stored-Kept k t (ok t1) p g = g
  stored-Kept k t (err e) p g = p

  insert_new-Kept :
      (ns label : String) (token : Option String) (f : ApiKey → Tables → Outcome Tables)
      (t : Tables)
      → ((k : ApiKey) → k.id ≡ w.new_id → Good P (f k t))
      → P t
      → P
          (insert_new w
            (new_api_key h.hash_token (record w { new_token = token }) ns label "")
            f
            t).0
  insert_new-Kept ns label none f t g p = p
  insert_new-Kept ns label (some token) f t g p =
      let key = key_of h.hash_token w ns label "" token in
      stored-Kept (token, key) t (call w key_insert (f key t)) p
        (call-Good key_insert (f key t) (g key refl))

  pub create_api_key-Kept :
      (ns label : String) (t : Tables) → P t → P (create_api_key h.hash_token w ns label t).0
  unfolding create_api_key
  create_api_key-Kept ns label t p =
      if-intro (Ends P) (ns == "") _ _ (λ b. p)
        (λ b.
          insert_new-Kept ns label w.new_token insert_api_key t (λ k e. insert_api_key-Good k t e p)
            p)

  pub bootstrap-Kept :
      (ns label : String) (t : Tables)
      → P t
      → P (bootstrap_first_api_key h.hash_token w ns label t).0
  unfolding bootstrap_first_api_key
  bootstrap-Kept ns label t p =
      if-intro (Ends P) (ns == "") _ _ (λ b. p)
        (λ b.
          insert_new-Kept ns label w.new_token insert_first_api_key t
            (λ k e. insert_first_api_key-Good k t e p) p)

  or_insert-Kept :
      (key : ApiKey) (t : Tables) (o : Option ApiKey)
      → key.id ≡ w.new_id
      → P t
      → P (got t (or_insert key t o)).0
  or_insert-Kept key t (some known) e p = p
  or_insert-Kept key t none e p =
      if-intro (λ r. Ends P (got t r)) (conflicts key t) _ _ (λ b. p) (λ b. c.adds key t e p)

  get_or_create-Kept :
      (ns who label : String) (token : Option String) (t : Tables)
      → P t
      → P
          (get_or_create w
            (new_api_key h.hash_token (record w { new_token = token }) ns label who)
            t).0
  unfolding get_or_create_tailnet_key
  get_or_create-Kept ns who label none t p = p
  get_or_create-Kept ns who label (some token) t p =
      let key = key_of h.hash_token w ns label who token in
      if-intro (Ends P) (w.fails key_insert) _ _ (λ b. p)
        (λ b.
          if-intro (λ r. Ends P (got t r)) (who == "") _ _ (λ d. p)
            (λ d. or_insert-Kept key t (find_key (is_tailnet_key key) t.keys) refl p))

  pub tailnet_key-Kept :
      (ns who label : String) (t : Tables) → P t → P (tailnet_key h.hash_token w ns who label t).0
  unfolding tailnet_key
  tailnet_key-Kept ns who label t p =
      if-intro (Ends P) (ns == "") _ _ (λ b. p)
        (λ b.
          if-intro (Ends P) (who == "") _ _ (λ d. p)
            (λ d. get_or_create-Kept ns who label w.new_token t p))

  settled-Kept : (t : Tables) (o : Outcome Tables) → P t → Good P o → P (settled t o).0
  settled-Kept t (ok t1) p g = g
  settled-Kept t (err e) p g = p

  delete_key-Good :
      (id : ℕ) (ns : String) (t : Tables) (o : Option ApiKey)
      → P t
      → Good P (delete_found id ns o t)
  delete_key-Good id ns t none p = tt
  delete_key-Good id ns t (some k) p =
      if-intro (Good P) (k.namespace == ns) _ _ (λ b. c.removes id t p) (λ b. tt)

  pub delete_api_key-Kept :
      (ns : String) (id : ℕ) (t : Tables) → P t → P (delete_api_key w ns id t).0
  unfolding delete_api_key delete_key
  delete_api_key-Kept ns id t p =
      if-intro (Ends P) (ns == "") _ _ (λ b. p)
        (λ b.
          settled-Kept t _ p
            (call-Good key_deletion _ (delete_key-Good id ns t (lookup id t.keys) p)))
