-- ===== src/RateLimit.antt =====
-- internal/api/middleware.go: the token buckets per client address and per namespace.
-- Tokens are counted in billionths, so that a nanosecond adds `rate` of them and the arithmetic is
-- exact; the code's float64 rounds. The clock is monotonic, as Go's is. The mutex makes each call
-- one step.
pub mod Buckets
pub mod Bounds
mod Examples
use cronlite.Base.{
  ℕ, ◌+◌, ◌-◌, ◌*◌, String, Bool, true, false, not, Option, none, some, List, [], ◌∷◌, length,
  lookup, insert, delete, text_key, ltb, leb, if◌then◌else◌,
}
use cronlite.Domain.{second}

-- `clientBucket`.
pub record Bucket : Type 0 where
  pub tokens : ℕ
  pub last_seen : ℕ

pub record IpRateLimiter : Type 0 where
  pub rate : ℕ
  pub clients : List (String × Bucket)
  pub client_ttl : ℕ
  pub cleanup_interval : ℕ
  pub next_cleanup : ℕ
  pub max_clients : ℕ

pub record NamespaceRateLimiter : Type 0 where
  pub rate : ℕ
  pub namespaces : List (String × Bucket)
  pub next_cleanup : ℕ

abbrev pub client_ttl : ℕ
client_ttl = 600 * second

abbrev pub cleanup_interval : ℕ
cleanup_interval = 60 * second

abbrev pub max_clients : ℕ
max_clients = 10000

-- A rate is positive, or no limiter is made.
unfoldable pub new_ip_rate_limiter : ℕ → ℕ → IpRateLimiter
new_ip_rate_limiter rate now = record {
  rate = rate;
  clients = [];
  client_ttl = client_ttl;
  cleanup_interval = cleanup_interval;
  next_cleanup = now + cleanup_interval;
  max_clients = max_clients;
}

unfoldable pub new_namespace_rate_limiter : ℕ → NamespaceRateLimiter
new_namespace_rate_limiter rate = record { rate = rate; namespaces = []; next_cleanup = 0 }

abbrev pub is_stale : ℕ → ℕ → Bucket → Bool
is_stale now ttl b = leb ttl (now - b.last_seen)

-- The loop that deletes the stale entries.
unfoldable pub prune_stale : ℕ → ℕ → List (String × Bucket) → List (String × Bucket)
prune_stale now ttl [] = []
prune_stale now ttl ((k, b) ∷ m) =
    let rest = prune_stale now ttl m in if is_stale now ttl b then delete k rest else (k, b) ∷ rest

-- A new client's bucket, its first token taken.
abbrev pub first_bucket : ℕ → ℕ → Bucket
first_bucket rate now = record { tokens = (rate - 1) * second; last_seen = now }

unfoldable pub refill : ℕ → ℕ → Bucket → ℕ
refill rate now b =
    let filled = b.tokens + (now - b.last_seen) * rate in
    if ltb (rate * second) filled then rate * second else filled

-- A request of a known client.
unfoldable pub serve : ℕ → ℕ → Bucket → Bool × Bucket
serve rate now b =
    let t = refill rate now b in
    if ltb t second
    then (false, record { tokens = t; last_seen = now })
    else (true, record { tokens = t - second; last_seen = now })

abbrev pub clean_clients : ℕ → IpRateLimiter → IpRateLimiter
clean_clients now l =
    if not (ltb now l.next_cleanup)
    then record l {
      clients = prune_stale now l.client_ttl l.clients;
      next_cleanup = now + l.cleanup_interval;
    }
    else l

abbrev pub admit_client : ℕ → String → IpRateLimiter → Option Bucket → Bool × IpRateLimiter
admit_client now ip l none =
    if leb l.max_clients (length l.clients)
    then (false, l)
    else (true, record l { clients = insert ip (first_bucket l.rate now) l.clients })
admit_client now ip l (some b) =
    let (ok, b1) = serve l.rate now b in (ok, record l { clients = insert ip b1 l.clients })

unfoldable pub allow_ip : ℕ → String → IpRateLimiter → Bool × IpRateLimiter
allow_ip now ip l =
    let cleaned = clean_clients now l in admit_client now ip cleaned (lookup ip cleaned.clients)

abbrev pub clean_namespaces : ℕ → NamespaceRateLimiter → NamespaceRateLimiter
clean_namespaces now l =
    if not (ltb now l.next_cleanup)
    then record l {
      namespaces = prune_stale now client_ttl l.namespaces;
      next_cleanup = now + cleanup_interval;
    }
    else l

abbrev pub admit_namespace :
    ℕ → String → NamespaceRateLimiter → Option Bucket → Bool × NamespaceRateLimiter
admit_namespace now ns l none =
    (true, record l { namespaces = insert ns (first_bucket l.rate now) l.namespaces })
admit_namespace now ns l (some b) =
    let (ok, b1) = serve l.rate now b in (ok, record l { namespaces = insert ns b1 l.namespaces })

unfoldable pub allow_namespace : ℕ → String → NamespaceRateLimiter → Bool × NamespaceRateLimiter
allow_namespace now ns l =
    let cleaned = clean_namespaces now l in
    admit_namespace now ns cleaned (lookup ns cleaned.namespaces)
