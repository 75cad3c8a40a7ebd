-- ===== src/Keys.antt =====
-- internal/store/postgres/store.go and queries.go: the tables of the API keys and the admin sessions.
-- A table with a primary key is a map from it. A time is a number of the database's microseconds. A
-- statement that fails leaves the tables as they were; concurrent statements are in some order, so
-- that GetOrCreateTailnetKey never needs its second attempt.
pub mod Service
pub mod Sessions
pub mod SignIn
pub mod Steps
pub mod Closed
pub mod Expiry
pub mod Live
pub mod Revoked
mod Examples
use cronlite.Base.{
  ℕ, String, Bool, true, false, ◌&&◌, ◌||◌, not, Option, none, some, List, [], ◌∷◌, take, drop,
  filter_by, sort_by, map, any, nat_beq, leb, ltb, lookup, insert, delete, Key, ◌==◌, text_key,
  id_key, if◌then◌else◌,
}
use cronlite.KeyCache.{ApiKey}
use cronlite.Jobs.Listing.{ListParams, with_defaults}

pub record AdminSession : Type 0 where
  pub token_hash : String
  pub api_key_id : ℕ
  pub csrf_token : String
  pub created_at : ℕ
  pub last_seen_at : ℕ
  pub expires_at : ℕ
  pub absolute_expires_at : ℕ

pub record Tables : Type 0 where
  pub keys : List (ℕ × ApiKey)
  pub sessions : List (String × AdminSession)

pub data KeyError : Type 0 where
  namespace_required empty_login duplicate_api_key api_key_not_found : KeyError
  bootstrap_already_completed admin_session_not_found constraint_violated : KeyError
  unauthenticated no_randomness database_failed : KeyError

pub data Outcome {ℓ} (A : Type ℓ) : Type ℓ where
  ok : A → Outcome A
  err : KeyError → Outcome A

abbrev pub has {ℓ κ} : {K : Type ℓ} {V : Type κ} ⦃key : Key K⦄ → K → List (K × V) → Bool
has k m = elim (lookup k m) [ none ↦ false | some v ↦ true ]

abbrev pub or_error {ℓ} : {A : Type ℓ} → KeyError → Option A → Outcome A
or_error e none = err e
or_error e (some a) = ok a

-- The first row that passes a test.
unfoldable pub find_key : (ApiKey → Bool) → List (ℕ × ApiKey) → Option ApiKey
find_key p [] = none
find_key p ((id, k) ∷ m) = let rest = find_key p m in if p k then some k else rest

-- The unique columns `id` and `token_hash`.
abbrev pub conflicts : ApiKey → Tables → Bool
conflicts key t = has key.id t.keys || any (λ row. row.1.token_hash == key.token_hash) t.keys

abbrev pub put_key : ApiKey → Tables → Tables
put_key key t = record t { keys = insert key.id (record key { last_used_at = none }) t.keys }

unfoldable pub insert_api_key : ApiKey → Tables → Outcome Tables
insert_api_key key t =
    if conflicts key t
    then err duplicate_api_key
    else ok (put_key (record key { tailnet_login = "" }) t)

unfoldable pub has_any_api_keys : Tables → Bool
has_any_api_keys t = any (λ row. true) t.keys

-- Under a lock that serializes the transactions. An error of the INSERT is returned as it is.
unfoldable pub insert_first_api_key : ApiKey → Tables → Outcome Tables
insert_first_api_key key t =
    if has_any_api_keys t
    then err bootstrap_already_completed
    else (if conflicts key t
        then err constraint_violated
        else ok (put_key (record key { tailnet_login = "" }) t))

unfoldable pub get_key_by_token_hash : String → Tables → Outcome ApiKey
get_key_by_token_hash hash t =
    or_error api_key_not_found (find_key (λ k. k.token_hash == hash && k.enabled) t.keys)

abbrev pub is_tailnet_key : ApiKey → ApiKey → Bool
is_tailnet_key key k = k.namespace == key.namespace && k.tailnet_login == key.tailnet_login

abbrev pub or_insert : ApiKey → Tables → Option ApiKey → Outcome (Tables × ApiKey)
or_insert key t (some known) = ok (t, known)
or_insert key t none =
    if conflicts key t
    then err duplicate_api_key
    else ok (put_key key t, record key { last_used_at = none })

unfoldable pub get_or_create_tailnet_key : ApiKey → Tables → Outcome (Tables × ApiKey)
get_or_create_tailnet_key key t =
    if key.tailnet_login == ""
    then err empty_login
    else or_insert key t (find_key (is_tailnet_key key) t.keys)

abbrev pub newest_key_first : (ℕ × ApiKey) → (ℕ × ApiKey) → Bool
newest_key_first a b = leb b.1.created_at a.1.created_at

unfoldable pub list_keys : String → ListParams → Tables → List ApiKey
list_keys ns params t =
    let p = with_defaults params in
    let own = filter_by (λ row. row.1.namespace == ns) t.keys in
    map (λ row. row.1) (take p.limit (drop p.offset (sort_by newest_key_first own)))

-- The sessions of the key go with it.
abbrev pub remove_key : ℕ → Tables → Tables
remove_key id t = record {
  keys = delete id t.keys;
  sessions = filter_by (λ row. not (nat_beq row.1.api_key_id id)) t.sessions;
}

abbrev pub delete_found : ℕ → String → Option ApiKey → Tables → Outcome Tables
delete_found id ns none t = err api_key_not_found
delete_found id ns (some k) t =
    if k.namespace == ns then ok (remove_key id t) else err api_key_not_found

unfoldable pub delete_key : ℕ → String → Tables → Outcome Tables
delete_key id ns t = delete_found id ns (lookup id t.keys) t

abbrev pub used : ℕ → List ℕ → (ℕ × ApiKey) → ℕ × ApiKey
used now ids (id, k) =
    (id, if any (nat_beq id) ids then record k { last_used_at = some now } else k)

unfoldable pub update_last_used_at : ℕ → List ℕ → Tables → Tables
update_last_used_at now ids t = record t { keys = map (used now ids) t.keys }

abbrev pub is_current : ℕ → (String × AdminSession) → Bool
is_current now row = ltb now row.1.expires_at && ltb now row.1.absolute_expires_at

-- The key must be there and the expiries in order. The cleanup is of the rows before the statement,
-- and a row that it takes still stands in the way of the new one.
unfoldable pub create_admin_session : AdminSession → Tables → Outcome Tables
create_admin_session s t =
    if has s.token_hash t.sessions
      || not (has s.api_key_id t.keys)
      || ltb s.absolute_expires_at s.expires_at
    then err constraint_violated
    else ok (record t {
      sessions = insert s.token_hash s (filter_by (is_current s.created_at) t.sessions);
    })

abbrev pub join_key : ℕ → AdminSession → Option ApiKey → Option (AdminSession × ApiKey)
join_key now s none = none
join_key now s (some k) =
    if ltb now s.expires_at && ltb now s.absolute_expires_at && k.enabled then some (s, k) else none

abbrev pub join_session : ℕ → Tables → Option AdminSession → Option (AdminSession × ApiKey)
join_session now t none = none
join_session now t (some s) = join_key now s (lookup s.api_key_id t.keys)

unfoldable pub get_admin_session : String → ℕ → Tables → Outcome (AdminSession × ApiKey)
get_admin_session hash now t =
    or_error admin_session_not_found (join_session now t (lookup hash t.sessions))

-- LEAST.
abbrev pub least : ℕ → ℕ → ℕ
least a b = if ltb b a then b else a

abbrev pub refreshed : ℕ → ℕ → AdminSession → AdminSession
refreshed last_seen expires s = record s {
  last_seen_at = last_seen;
  expires_at = least expires s.absolute_expires_at;
}

abbrev pub refresh_found : String → ℕ → ℕ → Option AdminSession → Tables → Outcome Tables
refresh_found hash last_seen expires none t = err admin_session_not_found
refresh_found hash last_seen expires (some s) t =
    if ltb last_seen s.expires_at && ltb last_seen s.absolute_expires_at
    then ok (record t { sessions = insert hash (refreshed last_seen expires s) t.sessions })
    else err admin_session_not_found

unfoldable pub refresh_admin_session : String → ℕ → ℕ → Tables → Outcome Tables
refresh_admin_session hash last_seen expires t =
    refresh_found hash last_seen expires (lookup hash t.sessions) t

unfoldable pub delete_admin_session : String → Tables → Tables
delete_admin_session hash t = record t { sessions = delete hash t.sessions }
