-- ===== src/KeyCache/Examples.antt =====
-- The key cache's theorems at concrete inputs.
use mathlib.Core.List.{Memᴰ}
use cronlite.Base.{ℕ, ◌+◌, ◌<◌, ◌≡◌, refl, true, none, some, List, [], ◌∷◌, lookup, insert, delete}
use cronlite.KeyCache.{
  ApiKey, Event, begins, finishes, new_api_key_cache, begin, run_cache, happens, finish, make_room,
  api_key_cache_ttl,
}
use cronlite.KeyCache.Fresh.{hit_answered}

abbrev tenant_key : ApiKey
tenant_key = record {
  id = 1;
  namespace = "ns";
  token_hash = "t";
  label = "";
  enabled = true;
  created_at = 0;
  last_used_at = none;
  tailnet_login = "";
}

-- Two requests with one token, one with another that fails.
abbrev requests : List Event
requests =
    begins 10 "t"
    ∷ begins 11 "t"
    ∷ begins 12 "u"
    ∷ finishes 0 "t" (some tenant_key)
    ∷ finishes 0 "u" none
    ∷ []

hit_answered_example :
    (started : ℕ) × Memᴰ ("t", tenant_key, started) (run_cache requests (new_api_key_cache, [])).1
    × (true ≡ true)
    × (20 < started + api_key_cache_ttl)
unfolding begin run_cache happens finish make_room lookup insert delete
hit_answered_example = hit_answered requests 20 "t" tenant_key refl
