-- ===== src/KeyCache.antt =====
-- internal/api/key_cache.go: the cache of API keys in front of the repository.
-- `get` has two critical sections, and each is one step: `begin` up to the query of the repository,
-- and `finish` from its answer on. The query's answers come from outside. Which entry a full cache
-- drops is Go's choice of the first key of a map, here the number `pick`.
pub mod Bounds
pub mod Fresh
mod Examples
use cronlite.Base.{
  ℕ, ◌+◌, ◌*◌, ◌%◌, String, Bool, true, false, not, ◌&&◌, ◌||◌, Option, none, some, List, [], ◌∷◌,
  length, get_elem?, lookup, insert, delete, text_key, ltb, leb, nat_beq, if◌then◌else◌,
}
use cronlite.Domain.{second}

pub record ApiKey : Type 0 where
  pub id : ℕ
  pub namespace : String
  pub token_hash : String
  pub label : String
  pub enabled : Bool
  pub created_at : ℕ
  pub last_used_at : Option ℕ
  pub tailnet_login : String

pub record CachedApiKey : Type 0 where
  pub key : ApiKey
  pub expires : ℕ

-- A lookup under way is known by the time at which it started.
pub record ApiKeyCache : Type 0 where
  pub keys : List (String × CachedApiKey)
  pub inflight : List (String × ℕ)

abbrev pub api_key_cache_ttl : ℕ
api_key_cache_ttl = 5 * second

abbrev pub api_key_cache_max_entries : ℕ
api_key_cache_max_entries = 1024

abbrev pub new_api_key_cache : ApiKeyCache
new_api_key_cache = record { keys = []; inflight = [] }

-- What the first section finds: a live entry, a lookup to wait for, or neither.
pub data Begun : Type 0 where
  hit : ApiKey → Begun
  waits starts : Begun

abbrev pub join : ℕ → String → Option ℕ → ApiKeyCache → ApiKeyCache × Begun
join now hash (some started) c = (c, waits)
join now hash none c = (record c { inflight = insert hash now c.inflight }, starts)

abbrev pub begin_at : ℕ → String → Option CachedApiKey → ApiKeyCache → ApiKeyCache × Begun
begin_at now hash none c = join now hash (lookup hash c.inflight) c
begin_at now hash (some entry) c =
    if ltb now entry.expires
    then (c, hit entry.key)
    else join now hash (lookup hash c.inflight) (record c { keys = delete hash c.keys })

unfoldable pub begin : ℕ → String → ApiKeyCache → ApiKeyCache × Begun
begin now hash c = begin_at now hash (lookup hash c.keys) c

abbrev pub drop_entry :
    Option (String × CachedApiKey) → List (String × CachedApiKey) → List (String × CachedApiKey)
drop_entry none keys = keys
drop_entry (some (k, entry)) keys = delete k keys

unfoldable pub make_room : ℕ → List (String × CachedApiKey) → List (String × CachedApiKey)
make_room pick keys =
    if leb api_key_cache_max_entries (length keys)
    then drop_entry (get_elem? keys (pick % length keys)) keys
    else keys

abbrev pub keep :
    ℕ → String → ℕ → ApiKey → List (String × CachedApiKey) → List (String × CachedApiKey)
keep pick hash started key keys =
    if key.enabled
    then insert hash (record { key = key; expires = started + api_key_cache_ttl })
        (make_room pick keys)
    else keys

-- The owner's second section; none is an error of the repository.
unfoldable pub finish : ℕ → String → ℕ → Option ApiKey → ApiKeyCache → ApiKeyCache
finish pick hash started none c = record c { inflight = delete hash c.inflight }
finish pick hash started (some key) c = record {
  keys = keep pick hash started key c.keys;
  inflight = delete hash c.inflight;
}

-- A waiter asks again, once, if the owner was cancelled and the waiter is alive.
abbrev pub retries : ℕ → Bool → Bool → Bool → Bool
retries attempt caller_canceled alive is_context_error =
    nat_beq attempt 0 && caller_canceled && alive && is_context_error

-- What happens to the cache, and the answers that the repository gave with the time at which their
-- lookup started. Only the owner of a lookup under way can finish it.
pub data Event : Type 0 where
  begins : ℕ → String → Event
  finishes : ℕ → String → Option ApiKey → Event

abbrev pub Log : Type 0
Log = List (String × ApiKey × ℕ)

abbrev pub finish_at : ℕ → String → Option ApiKey → Option ℕ → ApiKeyCache × Log → ApiKeyCache × Log
finish_at pick hash answer none (c, log) = (c, log)
finish_at pick hash none (some started) (c, log) = (finish pick hash started none c, log)
finish_at pick hash (some key) (some started) (c, log) =
    (finish pick hash started (some key) c, (hash, key, started) ∷ log)

unfoldable pub happens : Event → ApiKeyCache × Log → ApiKeyCache × Log
happens (begins now hash) (c, log) = ((begin now hash c).0, log)
happens (finishes pick hash answer) (c, log) =
    finish_at pick hash answer (lookup hash c.inflight) (c, log)

unfoldable pub run_cache : List Event → ApiKeyCache × Log → ApiKeyCache × Log
run_cache [] state = state
run_cache (event ∷ events) state = run_cache events (happens event state)
