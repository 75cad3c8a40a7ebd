-- ===== src/RateLimit/Bounds.antt =====
-- middleware.go: how many requests the limiters let through, and how many clients they remember.
use native.Mathlib.Nat.{add-mul}
use cronlite.Base.{
  ℕ, ◌+◌, ◌*◌, ◌≤◌, ◌≡◌, refl, ap, ◌∙◌, String, ◌&&◌, Option, none, some, List, [], ◌∷◌, arith,
  length, lookup, lookup-insert, length-insert_new, length-insert_old, length-delete_le, ◌==◌,
  text_key, leb, if◌then◌else◌,
}
use cronlite.Domain.{second}
use cronlite.RateLimit.{
  Bucket, IpRateLimiter, NamespaceRateLimiter, prune_stale, serve, first_bucket, clean_clients,
  admit_client, allow_ip, clean_namespaces, admit_namespace, allow_namespace, client_ttl,
}
use cronlite.RateLimit.Buckets.{
  credit, lookup-prune_stale, credit-fresh_only, credit-le, credit-later, serve-credit,
  first-credit,
}

-- The nanoseconds since the request before, and who asks.
abbrev pub Request : Type 0
Request = ℕ × String

unfoldable pub elapsed : List Request → ℕ
elapsed [] = 0
elapsed ((d, who) ∷ rest) = d + elapsed rest

-- The requests of `ip` that a run lets through.
unfoldable pub granted_to : String → ℕ → IpRateLimiter → List Request → ℕ
granted_to ip now l [] = 0
granted_to ip now l ((d, who) ∷ rest) =
    let (ok, l1) = allow_ip (now + d) who l in
    (if ok && who == ip then 1 else 0) + granted_to ip (now + d) l1 rest

unfoldable pub limiter_after : ℕ → IpRateLimiter → List Request → IpRateLimiter
limiter_after now l [] = l
limiter_after now l ((d, who) ∷ rest) = limiter_after (now + d) (allow_ip (now + d) who l).1 rest

abbrev pub Same : IpRateLimiter → IpRateLimiter → Type 0
Same l m = (l.rate ≡ m.rate) × (l.client_ttl ≡ m.client_ttl) × (l.max_clients ≡ m.max_clients)

clean-Same : (now : ℕ) (l : IpRateLimiter) → Same (clean_clients now l) l
clean-Same now l = (ground arith, ground arith, ground arith)

admit-Same :
    (now : ℕ) (who : String) (l : IpRateLimiter) (o : Option Bucket)
    → Same (admit_client now who l o).1 l
admit-Same now who l none = (ground arith, ground arith, ground arith)
admit-Same now who l (some b) = (refl, refl, refl)

allow_ip-Same : (now : ℕ) (who : String) (l : IpRateLimiter) → Same (allow_ip now who l).1 l
unfolding allow_ip
allow_ip-Same now who l =
    let (r1, t1, m1) = clean-Same now l in
    let cleaned = clean_clients now l in
    let (r2, t2, m2) = admit-Same now who cleaned (lookup who cleaned.clients) in
    (r2 ∙ r1, t2 ∙ t1, m2 ∙ m1)

clean-credit :
    (now : ℕ) (ip : String) (l : IpRateLimiter)
    → second ≤ l.client_ttl
    → credit l.rate now (lookup ip (clean_clients now l).clients)
      ≡ credit l.rate now (lookup ip l.clients)
clean-credit now ip l long = ground (
  arith,
  lookup-prune_stale now l.client_ttl ip l.clients,
  credit-fresh_only l.rate now l.client_ttl (lookup ip l.clients) long,
)

admit-credit :
    (now : ℕ) (who ip : String) (l : IpRateLimiter) (o : Option Bucket)
    → 1 ≤ l.rate
    → lookup who l.clients ≡ o
    → credit l.rate now (lookup ip (admit_client now who l o).1.clients)
        + (if (admit_client now who l o).0 && who == ip then second else 0)
      ≤ credit l.rate now (lookup ip l.clients)
admit-credit now who ip l none pos e = ground (
  arith,
  e,
  lookup-insert who ip (first_bucket l.rate now) l.clients,
  text_key.same_iff who ip,
  first-credit l.rate now pos,
)
admit-credit now who ip l (some b) pos e = ground (
  arith,
  e,
  lookup-insert who ip (serve l.rate now b).1 l.clients,
  text_key.same_iff who ip,
  serve-credit l.rate now b,
)

allow-credit :
    (now : ℕ) (who ip : String) (l : IpRateLimiter)
    → 1 ≤ l.rate
    → second ≤ l.client_ttl
    → credit l.rate now (lookup ip (allow_ip now who l).1.clients)
        + (if (allow_ip now who l).0 && who == ip then second else 0)
      ≤ credit l.rate now (lookup ip l.clients)
unfolding allow_ip
allow-credit now who ip l pos long =
    let cleaned = clean_clients now l in
    let r1 : cleaned.rate ≡ l.rate = (clean-Same now l).0 in
    let step = admit-credit now who ip cleaned (lookup who cleaned.clients) (rw r1 pos) refl in
    omega (arith, rw r1 at step, clean-credit now ip l long)

granted-credit :
    (ip : String) (now : ℕ) (l : IpRateLimiter) (reqs : List Request)
    → 1 ≤ l.rate
    → second ≤ l.client_ttl
    → granted_to ip now l reqs * second
      ≤ credit l.rate now (lookup ip l.clients) + elapsed reqs * l.rate
unfolding granted_to elapsed
granted-credit ip now l [] pos long = omega arith
granted-credit ip now l ((d, who) ∷ rest) pos long =
    let l1 = (allow_ip (now + d) who l).1 in
    let (r1, t1, m1) = allow_ip-Same (now + d) who l in
    let ih = granted-credit ip (now + d) l1 rest (rw r1 pos) (rw t1 long) in
    let step = allow-credit (now + d) who ip l pos long in
    let wait = credit-later l.rate now d (lookup ip l.clients) in
    ground (arith, rw r1 at ih, step, wait, add-mul d (elapsed rest) l.rate)

-- However requests come, from whichever clients, a client of a limiter of positive rate that
-- remembers its clients for a second or longer gets at most `rate` requests through at once, and
-- `rate` more for each second that passes (all in billionths).
pub ip_rate_bounded :
    (ip : String) (now : ℕ) (l : IpRateLimiter) (reqs : List Request)
    → 1 ≤ l.rate
    → second ≤ l.client_ttl
    → granted_to ip now l reqs * second ≤ l.rate * second + elapsed reqs * l.rate
ip_rate_bounded ip now l reqs pos long =
    omega (arith, granted-credit ip now l reqs pos long, credit-le l.rate now (lookup ip l.clients))

length-prune_stale :
    (now ttl : ℕ) (m : List (String × Bucket)) → length (prune_stale now ttl m) ≤ length m
unfolding prune_stale
length-prune_stale now ttl [] = omega arith
length-prune_stale now ttl ((k, b) ∷ m) =
    let h = length-prune_stale now ttl m in
    ground (arith, h, length-delete_le k (prune_stale now ttl m))

clean-length :
    (now : ℕ) (l : IpRateLimiter) → length (clean_clients now l).clients ≤ length l.clients
clean-length now l = ground (arith, length-prune_stale now l.client_ttl l.clients)

admit-length :
    (now : ℕ) (who : String) (l : IpRateLimiter) (o : Option Bucket)
    → lookup who l.clients ≡ o
    → length l.clients ≤ l.max_clients
    → length (admit_client now who l o).1.clients ≤ l.max_clients
admit-length now who l none e room =
    ground (arith, length-insert_new who (first_bucket l.rate now) l.clients e)
admit-length now who l (some b) e room =
    ground (arith, length-insert_old who (serve l.rate now b).1 b l.clients e)

-- The limiter never remembers more clients than it may, whatever requests come.
pub client_table_bounded :
    (now : ℕ) (l : IpRateLimiter) (reqs : List Request)
    → length l.clients ≤ l.max_clients
    → length (limiter_after now l reqs).clients ≤ l.max_clients
unfolding limiter_after allow_ip
client_table_bounded now l [] room = room
client_table_bounded now l ((d, who) ∷ rest) room =
    let t = now + d in
    let cleaned = clean_clients t l in
    let (r1, t1, m1) = clean-Same t l in
    let (r2, t2, m2) = allow_ip-Same t who l in
    let small = clean-length t l in
    let step =
      admit-length t who cleaned (lookup who cleaned.clients) refl
        (omega (arith, small, m1, room)) in
    rw m2 at (client_table_bounded t (allow_ip t who l).1 rest (omega (arith, step, m1, m2)))

namespace-clean :
    (now : ℕ) (ns : String) (l : NamespaceRateLimiter)
    → ((clean_namespaces now l).rate ≡ l.rate)
      × (credit l.rate now (lookup ns (clean_namespaces now l).namespaces)
          ≡ credit l.rate now (lookup ns l.namespaces))
namespace-clean now ns l =
    let kept = credit-fresh_only l.rate now client_ttl (lookup ns l.namespaces) (omega arith) in
    (ground arith, ground (arith, lookup-prune_stale now client_ttl ns l.namespaces, kept))

namespace-admit :
    (now : ℕ) (who ns : String) (l : NamespaceRateLimiter) (o : Option Bucket)
    → 1 ≤ l.rate
    → lookup who l.namespaces ≡ o
    → let r = admit_namespace now who l o in
      (r.0 ≡ leb second (credit l.rate now (lookup who l.namespaces)))
      × (credit l.rate now (lookup ns r.1.namespaces) + (if r.0 && who == ns then second else 0)
          ≡ credit l.rate now (lookup ns l.namespaces))
namespace-admit now who ns l none pos e = (
  ground (arith, e),
  ground (
    arith,
    e,
    lookup-insert who ns (first_bucket l.rate now) l.namespaces,
    text_key.same_iff who ns,
    first-credit l.rate now pos,
  ),
)
namespace-admit now who ns l (some b) pos e = (
  ground (arith, e, serve-credit l.rate now b),
  ground (
    arith,
    e,
    lookup-insert who ns (serve l.rate now b).1 l.namespaces,
    text_key.same_iff who ns,
    serve-credit l.rate now b,
  ),
)

-- At a positive rate a namespace's request passes exactly if the namespace has a whole token at
-- that instant, it costs exactly that token, and no other namespace's tokens change. The cleanup
-- of idle buckets makes no difference.
pub namespace_exact :
    (now : ℕ) (who ns : String) (l : NamespaceRateLimiter)
    → 1 ≤ l.rate
    → let r = allow_namespace now who l in
      (r.0 ≡ leb second (credit l.rate now (lookup who l.namespaces)))
      × (credit l.rate now (lookup ns r.1.namespaces) + (if r.0 && who == ns then second else 0)
          ≡ credit l.rate now (lookup ns l.namespaces))
unfolding allow_namespace
namespace_exact now who ns l pos =
    let cleaned = clean_namespaces now l in
    let (r1, c1) = namespace-clean now who l in
    let (_, c2) = namespace-clean now ns l in
    let step =
      namespace-admit now who ns cleaned (lookup who cleaned.namespaces) (rw r1 pos) refl in
    let (s1, s2) = rw r1 at step in (s1 ∙ ap (leb second) c1, s2 ∙ c2)
