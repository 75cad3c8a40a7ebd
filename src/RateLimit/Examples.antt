-- ===== src/RateLimit/Examples.antt =====
-- The limiters' theorems at concrete inputs.
use cronlite.Base.{
  ℕ, ◌+◌, ◌*◌, ◌≤◌, ◌≡◌, refl, String, Bool, true, false, ◌&&◌, Option, none, some, List, [], ◌∷◌,
  arith, length, lookup, ◌==◌, text_key, leb, if◌then◌else◌,
}
use cronlite.Domain.{second}
use cronlite.RateLimit.{
  IpRateLimiter, NamespaceRateLimiter, new_ip_rate_limiter, new_namespace_rate_limiter, allow_ip,
  allow_namespace, max_clients,
}
use cronlite.RateLimit.Buckets.{credit}
use cronlite.RateLimit.Bounds.{Request, elapsed, granted_to, ip_rate_bounded, namespace_exact}

abbrev two_clients : List Request
two_clients = (0, "a") ∷ (1, "b") ∷ (second, "a") ∷ (1, "a") ∷ (1, "a") ∷ []

-- Two requests a second: the client's fourth request comes too early.
four_of_a : granted_to "a" 0 (new_ip_rate_limiter 2 0) two_clients ≡ 3
unfolding granted_to allow_ip new_ip_rate_limiter cronlite.RateLimit.serve cronlite.RateLimit.refill
    lookup cronlite.Base.insert
four_of_a = refl

ip_rate_bounded_example :
    granted_to "a" 0 (new_ip_rate_limiter 2 0) two_clients * second
    ≤ 2 * second + elapsed two_clients * 2
unfolding new_ip_rate_limiter
ip_rate_bounded_example =
    ip_rate_bounded "a" 0 (new_ip_rate_limiter 2 0) two_clients (omega arith) (omega arith)

abbrev tenant : String
tenant = "ns"

abbrev spent : NamespaceRateLimiter
spent = record {
  rate = 2;
  namespaces = ("ns", record { tokens = 5; last_seen = 0 }) ∷ [];
  next_cleanup = 0;
}

namespace_exact_example :
    let r = allow_namespace 3 "ns" spent in
    (r.0 ≡ leb second (credit 2 3 (lookup "ns" spent.namespaces)))
    × (credit 2 3 (lookup "ns" r.1.namespaces) + (if r.0 && tenant == tenant then second else 0)
        ≡ credit 2 3 (lookup "ns" spent.namespaces))
namespace_exact_example = namespace_exact 3 "ns" "ns" spent (omega arith)
