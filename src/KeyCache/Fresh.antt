-- ===== src/KeyCache/Fresh.antt =====
-- key_cache.go: where a cached key comes from.
use mathlib.Core.List.{Memᴰ}
use mathlib.Core.List.Memᴰ.{head, tail}
use cronlite.Base.{
  ℕ, ◌+◌, ◌%◌, ◌<◌, ◌≡◌, refl, sym, inl, inr, String, true, Option, none, some, List, [], ◌∷◌,
  arith, length, get_elem?, lookup, delete, lookup-insert_cases, lookup-delete_cases, text_key, ltb,
  leb, if-intro, Option-cases, Bool-cases,
}
use cronlite.KeyCache.{
  ApiKey, CachedApiKey, ApiKeyCache, api_key_cache_ttl, api_key_cache_max_entries,
  new_api_key_cache, join, begin_at, begin, hit, Begun, drop_entry, make_room, keep, finish, Event,
  begins, finishes, Log, finish_at, happens, run_cache,
}

-- The repository answered with this key, enabled, to a lookup that started a TTL before it expires.
abbrev pub Answered : Log → String → CachedApiKey → Type 0
Answered log hash entry =
    (started : ℕ) × Memᴰ (hash, entry.key, started) log
    × (entry.expires ≡ started + api_key_cache_ttl)
    × (entry.key.enabled ≡ true)

abbrev pub AllAnswered : Log → List (String × CachedApiKey) → Type 0
AllAnswered log keys =
    (hash : String) (entry : CachedApiKey) → lookup hash keys ≡ some entry → Answered log hash entry

delete-AllAnswered :
    (log : Log) (k : String) (keys : List (String × CachedApiKey))
    → AllAnswered log keys
    → AllAnswered log (delete k keys)
delete-AllAnswered log k keys h hash entry found =
    h hash entry (lookup-delete_cases k hash entry keys found).1

drop-AllAnswered :
    (log : Log) (o : Option (String × CachedApiKey)) (keys : List (String × CachedApiKey))
    → AllAnswered log keys
    → AllAnswered log (drop_entry o keys)
drop-AllAnswered log none keys h = h
drop-AllAnswered log (some (k, e)) keys h = delete-AllAnswered log k keys h

room-AllAnswered :
    (log : Log) (pick : ℕ) (keys : List (String × CachedApiKey))
    → AllAnswered log keys
    → AllAnswered log (make_room pick keys)
unfolding make_room
room-AllAnswered log pick keys h =
    if-intro (AllAnswered log) (leb api_key_cache_max_entries (length keys))
      (drop_entry (get_elem? keys (pick % length keys)) keys) keys
      (λ b. drop-AllAnswered log (get_elem? keys (pick % length keys)) keys h) (λ b. h)

more-AllAnswered :
    (log : Log) (x : String × ApiKey × ℕ) (keys : List (String × CachedApiKey))
    → AllAnswered log keys
    → AllAnswered (x ∷ log) keys
more-AllAnswered log x keys h hash entry found =
    let (started, m, until, on) = h hash entry found in (started, tail m, until, on)

keep-AllAnswered :
    (log : Log) (pick started : ℕ) (k : String) (key : ApiKey) (keys : List (String × CachedApiKey))
    → AllAnswered log keys
    → AllAnswered ((k, key, started) ∷ log) (keep pick k started key keys)
keep-AllAnswered log pick started k key keys h =
    let old =
      more-AllAnswered log (k, key, started) (make_room pick keys)
        (room-AllAnswered log pick keys h) in
    let entry : CachedApiKey = record { key = key; expires = started + api_key_cache_ttl } in
    if-intro (AllAnswered ((k, key, started) ∷ log)) (key.enabled) _ keys
      (λ on hash e found. elim (lookup-insert_cases k hash entry e (make_room pick keys) found) [
        | inl (same, is) ↦ rw (sym same) (rw (sym is) (started, head refl, refl, on))
        | inr (other, there) ↦ old hash e there
      ])
      (λ off. more-AllAnswered log (k, key, started) keys h)

join-AllAnswered :
    (log : Log) (now : ℕ) (hash : String) (o : Option ℕ) (c : ApiKeyCache)
    → AllAnswered log c.keys
    → AllAnswered log (join now hash o c).0.keys
join-AllAnswered log now hash none c h = h
join-AllAnswered log now hash (some t) c h = h

begin-AllAnswered :
    (log : Log) (now : ℕ) (hash : String) (o : Option CachedApiKey) (c : ApiKeyCache)
    → AllAnswered log c.keys
    → AllAnswered log (begin_at now hash o c).0.keys
begin-AllAnswered log now hash none c h = join-AllAnswered log now hash (lookup hash c.inflight) c h
begin-AllAnswered log now hash (some entry) c h =
    if-intro (λ (r : ApiKeyCache × Begun). AllAnswered log r.0.keys) (ltb now entry.expires)
      (c, hit entry.key) _ (λ b. h)
      (λ b.
        join-AllAnswered log now hash (lookup hash c.inflight)
          (record c { keys = delete hash c.keys }) (delete-AllAnswered log hash c.keys h))

finish-AllAnswered :
    (pick : ℕ) (hash : String) (answer : Option ApiKey) (o : Option ℕ) (c : ApiKeyCache) (log : Log)
    → AllAnswered log c.keys
    → let r = finish_at pick hash answer o (c, log) in AllAnswered r.1 r.0.keys
unfolding finish
finish-AllAnswered pick hash answer none c log h = h
finish-AllAnswered pick hash none (some t) c log h = h
finish-AllAnswered pick hash (some key) (some t) c log h =
    keep-AllAnswered log pick t hash key c.keys h

run-AllAnswered :
    (events : List Event) (c : ApiKeyCache) (log : Log)
    → AllAnswered log c.keys
    → let r = run_cache events (c, log) in AllAnswered r.1 r.0.keys
unfolding run_cache happens begin
run-AllAnswered [] c log h = h
run-AllAnswered (begins now hash ∷ events) c log h =
    run-AllAnswered events (begin_at now hash (lookup hash c.keys) c).0 log
      (begin-AllAnswered log now hash (lookup hash c.keys) c h)
run-AllAnswered (finishes pick hash answer ∷ events) c log h =
    let next = finish_at pick hash answer (lookup hash c.inflight) (c, log) in
    run-AllAnswered events next.0 next.1
      (finish-AllAnswered pick hash answer (lookup hash c.inflight) c log h)

hit-entry :
    (now : ℕ) (hash : String) (o : Option CachedApiKey) (c : ApiKeyCache) (key : ApiKey)
    → (begin_at now hash o c).1 ≡ hit key
    → (entry : CachedApiKey) × (o ≡ some entry) × (entry.key ≡ key) × (now < entry.expires)
hit-entry now hash none c key h = elim (Option-cases (lookup hash c.inflight)) [
  | inl free ↦ absurd (ground (arith, free, h))
  | inr (t, busy) ↦ absurd (ground (arith, busy, h))
]
hit-entry now hash (some entry) c key h = elim (Bool-cases (ltb now entry.expires)) [
  | inl live ↦ (entry, refl, ground (arith, live, h), ground arith)
  | inr stale ↦ elim (Option-cases (lookup hash c.inflight)) [
    | inl free ↦ absurd (ground (arith, stale, free, h))
    | inr (t, busy) ↦ absurd (ground (arith, stale, busy, h))
  ]
]

empty-AllAnswered : AllAnswered [] []
unfolding lookup
empty-AllAnswered hash entry found = absurd (ground arith)

-- The cache lets in no key that the repository did not. Starting empty, and whatever lookups of any
-- tokens begin and end, a hit is an enabled key that the repository returned for this very token, to
-- a lookup that started less than `apiKeyCacheTTL` ago.
pub hit_answered :
    (events : List Event) (now : ℕ) (hash : String) (key : ApiKey)
    → let r = run_cache events (new_api_key_cache, []) in
      (begin now hash r.0).1 ≡ hit key
      → (started : ℕ) × Memᴰ (hash, key, started) r.1
        × (key.enabled ≡ true)
        × (now < started + api_key_cache_ttl)
unfolding begin
hit_answered events now hash key h =
    let (c, log) = run_cache events (new_api_key_cache, []) in
    let all = run-AllAnswered events new_api_key_cache [] empty-AllAnswered in
    let (entry, found, is, live) = hit-entry now hash (lookup hash c.keys) c key h in
    let (started, m, until, on) = all hash entry found in
    (started, rw is at m, rw is at on, omega (arith, until, live))
