-- ===== src/KeyCache/Bounds.antt =====
-- key_cache.go: the size of the cache.
use native.Mathlib.Nat.{mod-lt}
use cronlite.Base.{
  ℕ, zero, suc, ◌+◌, ◌%◌, ◌≤◌, ◌<◌, ◌≡◌, refl, String, Option, none, some, List, [], ◌∷◌, arith,
  length, get_elem?, lookup, insert, delete, length-delete_le, ==-refl, text_key, leb, if-intro,
}
use cronlite.KeyCache.{
  ApiKey, CachedApiKey, ApiKeyCache, api_key_cache_max_entries, api_key_cache_ttl, join, begin_at,
  begin, drop_entry, make_room, keep, finish, Event, begins, finishes, Log, finish_at, happens,
  run_cache,
}

abbrev Entries : Type 0
Entries = List (String × CachedApiKey)

length-insert_le :
    (k : String) (v : CachedApiKey) (m : Entries) → length (insert k v m) ≤ suc (length m)
unfolding insert
length-insert_le k v [] = omega arith
length-insert_le k v ((j, w) ∷ m) = ground (arith, length-insert_le k v m)

drop-behind :
    (k : String) (v : CachedApiKey) (m : Entries) (o : Option (String × CachedApiKey))
    → length (drop_entry o m) < length m
    → length (drop_entry o ((k, v) ∷ m)) < suc (length m)
unfolding delete
drop-behind k v m none h = absurd (omega (arith, h))
drop-behind k v m (some (j, w)) h = ground (arith, h)

-- Deleting an entry that is there makes the table shorter.
drop-shorter :
    (i : ℕ) (m : Entries) → i < length m → length (drop_entry (get_elem? m i) m) < length m
unfolding delete
drop-shorter i [] lt = elim lt [ ]
drop-shorter zero ((k, v) ∷ m) lt = ground (arith, ==-refl k, length-delete_le k m)
drop-shorter (suc i) ((k, v) ∷ m) lt =
    drop-behind k v m (get_elem? m i) (drop-shorter i m (omega arith))

room-make_room :
    (pick : ℕ) (m : Entries)
    → length m ≤ api_key_cache_max_entries
    → length (make_room pick m) < api_key_cache_max_entries
unfolding make_room
room-make_room pick m h =
    if-intro (λ t. length t < api_key_cache_max_entries) (leb api_key_cache_max_entries (length m))
      (drop_entry (get_elem? m (pick % length m)) m) m
      (λ full.
        let some_entry : 1 ≤ length m = ground arith in
        let at : pick % length m < length m = mod-lt pick some_entry in
        omega (arith, drop-shorter (pick % length m) m at, h))
      (λ room. ground arith)

join-keys :
    (now : ℕ) (hash : String) (o : Option ℕ) (c : ApiKeyCache) → (join now hash o c).0.keys ≡ c.keys
join-keys now hash none c = refl
join-keys now hash (some t) c = refl

begin-length :
    (now : ℕ) (hash : String) (o : Option CachedApiKey) (c : ApiKeyCache)
    → length (begin_at now hash o c).0.keys ≤ length c.keys
begin-length now hash none c = rw (join-keys now hash (lookup hash c.inflight) c) (omega arith)
begin-length now hash (some entry) c = ground (
  arith,
  join-keys now hash (lookup hash c.inflight) (record c { keys = delete hash c.keys }),
  length-delete_le hash c.keys,
)

keep-length :
    (pick started : ℕ) (hash : String) (key : ApiKey) (m : Entries)
    → length m ≤ api_key_cache_max_entries
    → length (keep pick hash started key m) ≤ api_key_cache_max_entries
keep-length pick started hash key m h =
    let entry : CachedApiKey = record { key = key; expires = started + api_key_cache_ttl } in
    ground (arith, room-make_room pick m h, length-insert_le hash entry (make_room pick m))

finish-length :
    (pick : ℕ) (hash : String) (answer : Option ApiKey) (o : Option ℕ) (c : ApiKeyCache) (log : Log)
    → length c.keys ≤ api_key_cache_max_entries
    → length (finish_at pick hash answer o (c, log)).0.keys ≤ api_key_cache_max_entries
unfolding finish
finish-length pick hash answer none c log h = h
finish-length pick hash none (some t) c log h = h
finish-length pick hash (some key) (some t) c log h = keep-length pick t hash key c.keys h

-- Whatever lookups begin and end, the cache never has more than `apiKeyCacheMaxEntries` entries.
pub key_cache_bounded :
    (events : List Event) (c : ApiKeyCache) (log : Log)
    → length c.keys ≤ api_key_cache_max_entries
    → length (run_cache events (c, log)).0.keys ≤ api_key_cache_max_entries
unfolding run_cache happens begin
key_cache_bounded [] c log h = h
key_cache_bounded (begins now hash ∷ events) c log h =
    let small = begin-length now hash (lookup hash c.keys) c in
    key_cache_bounded events (begin_at now hash (lookup hash c.keys) c).0 log (omega (arith, small))
key_cache_bounded (finishes pick hash answer ∷ events) c log h =
    let next = finish_at pick hash answer (lookup hash c.inflight) (c, log) in
    key_cache_bounded events next.0 next.1
      (finish-length pick hash answer (lookup hash c.inflight) c log h)
