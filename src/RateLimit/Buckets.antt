-- ===== src/RateLimit/Buckets.antt =====
-- middleware.go: what a client may still take from its bucket.
use native.Mathlib.Nat.{mul-le-mul_right, add-mul, zero-mul}
use cronlite.Base.{
  ℕ, ◌+◌, ◌-◌, ◌*◌, ◌≤◌, ◌≡◌, refl, String, Option, none, some, List, [], ◌∷◌, arith, lookup,
  lookup-delete, text_key, leb, if◌then◌else◌,
}
use cronlite.Domain.{second}
use cronlite.RateLimit.{Bucket, is_stale, prune_stale, refill, serve, first_bucket}

-- The tokens that a client could use now; an unknown client has a full bucket.
abbrev pub credit : ℕ → ℕ → Option Bucket → ℕ
credit rate now none = rate * second
credit rate now (some b) = refill rate now b

abbrev pub fresh_only : ℕ → ℕ → Option Bucket → Option Bucket
fresh_only now ttl none = none
fresh_only now ttl (some b) = if is_stale now ttl b then none else some b

pub lookup-prune_stale :
    (now ttl : ℕ) (k : String) (m : List (String × Bucket))
    → lookup k (prune_stale now ttl m) ≡ fresh_only now ttl (lookup k m)
unfolding lookup prune_stale
lookup-prune_stale now ttl k [] = refl
lookup-prune_stale now ttl k ((j, b) ∷ m) =
    ground (arith, lookup-prune_stale now ttl k m, lookup-delete j k (prune_stale now ttl m))

scaled : (a b c : ℕ) → a ≤ b → a * c ≤ b * c
scaled a b c h = mul-le-mul_right c h

-- Pruning a bucket that is idle for a second or longer takes nothing from its client.
pub credit-fresh_only :
    (rate now ttl : ℕ) (o : Option Bucket)
    → second ≤ ttl
    → credit rate now (fresh_only now ttl o) ≡ credit rate now o
unfolding refill
credit-fresh_only rate now ttl none long = refl
credit-fresh_only rate now ttl (some b) long =
    let k = now - b.last_seen in
    let more : second ≤ k → second * rate ≤ k * rate = scaled second k rate in ground (arith, more)

pub credit-le : (rate now : ℕ) (o : Option Bucket) → credit rate now o ≤ rate * second
unfolding refill
credit-le rate now none = omega arith
credit-le rate now (some b) = ground arith

-- In `d` nanoseconds a client earns at most `d * rate`.
pub credit-later :
    (rate now d : ℕ) (o : Option Bucket) → credit rate (now + d) o ≤ credit rate now o + d * rate
unfolding refill
credit-later rate now d none = omega arith
credit-later rate now d (some b) =
    let k = now - b.last_seen in
    let h : now + d - b.last_seen ≤ k + d = omega arith in
    let up = scaled (now + d - b.last_seen) (k + d) rate h in
    let split : (k + d) * rate ≡ k * rate + d * rate = add-mul k d rate in ground (arith, up, split)

pub serve-credit :
    (rate now : ℕ) (b : Bucket)
    → ((serve rate now b).0 ≡ leb second (refill rate now b))
      × (refill rate now (serve rate now b).1 + (if (serve rate now b).0 then second else 0)
          ≡ refill rate now b)
unfolding serve refill
serve-credit rate now b = (ground arith, ground arith)

pub first-credit :
    (rate now : ℕ) → 1 ≤ rate → refill rate now (first_bucket rate now) + second ≡ rate * second
unfolding refill
first-credit rate now pos =
    let still : now - now ≡ 0 = omega arith in rw still (rw zero-mul (ground arith))
