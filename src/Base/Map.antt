-- ===== src/Base/Map.antt =====
-- The maps of the program (`map[string]T`, `map[uuid.UUID]T`) as association lists over any key
-- type with a Boolean equality.
use Prim.Native.Nat.{ℕ, ◌+◌, ◌≤◌}
use Prim.Native.String.{String}
use mathlib.Core.Path.{◌≡◌, refl, subst}
use mathlib.Core.Logic.{◌↔◌, ◌⊎◌}
use mathlib.Core.Bool.{Bool, true, false}
use mathlib.Core.List.{List, [], ◌∷◌}
use mathlib.Core.Option.{some-injective, Option, none, some}
use native.Mathlib.Omega.{arith}
use text.Mathlib.Text.{◌==◌ as str_eq}
use text.Mathlib.TextEquality.{eq_iff}
use cronlite.Base.Tests.{if-intro, nat_beq, nat_beq_iff, if◌then◌else◌}
use cronlite.Base.Lists.{length, All}

-- What the program needs of a key: Go's `==` on it, which tells equal keys.
pub record Key {ℓ} (K : Type ℓ) : Type ℓ where
  pub same : K → K → Bool
  pub same_iff : (j k : K) → (same j k ≡ true) ↔ (j ≡ k)

instance abbrev pub id_key : Key ℕ
id_key = record { same_iff = nat_beq_iff; same = nat_beq }

instance abbrev pub text_key : Key String
text_key = record { same_iff = eq_iff; same = str_eq }

infix 50 ◌==◌
abbrev pub ◌==◌ {ℓ} : {K : Type ℓ} ⦃key : Key K⦄ → K → K → Bool
◌==◌ ⦃key⦄ j k = key.same j k

pub ==-refl {ℓ} : {K : Type ℓ} ⦃key : Key K⦄ (k : K) → (k == k) ≡ true
==-refl ⦃key⦄ k = (key.same_iff k k).1 refl

module _ {ℓ κ} {K : Type ℓ} {V : Type κ} ⦃key : Key K⦄ where
  unfoldable pub delete : K → List (K × V) → List (K × V)
  delete k [] = []
  delete k ((j, w) ∷ m) = let rest = delete k m in if j == k then rest else (j, w) ∷ rest

  unfoldable pub lookup : K → List (K × V) → Option V
  lookup k [] = none
  lookup k ((i, w) ∷ rest) = if i == k then some w else lookup k rest

  -- An entry that is there keeps its place, as in the program's in-place update.
  unfoldable pub insert : K → V → List (K × V) → List (K × V)
  insert k v [] = (k, v) ∷ []
  insert k v ((i, w) ∷ rest) = if i == k then (i, v) ∷ rest else (i, w) ∷ insert k v rest

  pub lookup-delete :
      (k j : K) (m : List (K × V)) → lookup j (delete k m) ≡ (if k == j then none else lookup j m)
  unfolding lookup delete
  lookup-delete k j [] = ground arith
  lookup-delete k j ((i, w) ∷ m) =
      ground (arith, key.same_iff k j, key.same_iff i k, key.same_iff i j, lookup-delete k j m)

  pub lookup-insert :
      (k j : K) (v : V) (m : List (K × V))
      → lookup j (insert k v m) ≡ (if k == j then some v else lookup j m)
  unfolding insert lookup
  lookup-insert k j v [] = refl
  lookup-insert k j v ((i, w) ∷ rest) =
      let ih = lookup-insert k j v rest in
      ground (arith, ih, key.same_iff i j, key.same_iff i k, key.same_iff k j)

  pub lookup-insert_self : (k : K) (v : V) (m : List (K × V)) → lookup k (insert k v m) ≡ some v
  lookup-insert_self k v m = ground (arith, lookup-insert k k v m, ==-refl k)

  pub lookup-delete_self : (k : K) (m : List (K × V)) → lookup k (delete k m) ≡ none
  lookup-delete_self k m = ground (arith, lookup-delete k k m, ==-refl k)

  pub length-insert_new :
      (k : K) (v : V) (m : List (K × V)) → lookup k m ≡ none → length (insert k v m) ≡ length m + 1
  unfolding insert lookup
  length-insert_new k v [] h = omega arith
  length-insert_new k v ((j, w) ∷ m) h = ground (arith, length-insert_new k v m)

  pub length-insert_old :
      (k : K) (v w : V) (m : List (K × V)) → lookup k m ≡ some w → length (insert k v m) ≡ length m
  unfolding insert lookup
  length-insert_old k v w [] h = ground arith
  length-insert_old k v w ((j, u) ∷ m) h = ground (arith, length-insert_old k v w m)

  pub lookup-insert_cases :
      (k j : K) (v w : V) (m : List (K × V))
      → lookup j (insert k v m) ≡ some w
      → ((k ≡ j) × (v ≡ w)) ⊎ (((k == j) ≡ false) × (lookup j m ≡ some w))
  lookup-insert_cases k j v w m h = ground (arith, key.same_iff k j, lookup-insert k j v m)

  pub lookup-delete_cases :
      (k j : K) (w : V) (m : List (K × V))
      → lookup j (delete k m) ≡ some w
      → ((k == j) ≡ false) × (lookup j m ≡ some w)
  lookup-delete_cases k j w m h = ground (arith, lookup-delete k j m)

  pub All-insert {μ} :
      (P : K × V → Type μ) (k : K) (v : V) (m : List (K × V))
      → ((j : K) → P (j, v))
      → All P m
      → All P (insert k v m)
  unfolding insert
  All-insert P k v [] new h = (new k, tt)
  All-insert P k v ((j, w) ∷ m) new (p, h) =
      if-intro (All P) (j == k) _ _ (λ b. (new j, h)) (λ b. (p, All-insert P k v m new h))

  pub All-delete {μ} :
      (P : K × V → Type μ) (k : K) (m : List (K × V)) → All P m → All P (delete k m)
  unfolding delete
  All-delete P k [] h = tt
  All-delete P k ((j, w) ∷ m) (p, h) =
      if-intro (All P) (j == k) _ _ (λ b. All-delete P k m h) (λ b. (p, All-delete P k m h))

  -- A predicate of the values holds of the one that is found.
  pub lookup-All {μ} :
      (P : V → Type μ) (k : K) (v : V) (m : List (K × V))
      → All (λ row. P row.1) m
      → lookup k m ≡ some v
      → P v
  unfolding lookup
  lookup-All P k v [] h = λ e. absurd (ground (arith, e))
  lookup-All P k v ((j, w) ∷ m) (p, h) =
      if-intro (λ o. o ≡ some v → P v) (j == k) _ _ (λ b e. subst P (some-injective w v e) p)
        (λ b. lookup-All P k v m h)

  pub length-delete_le : (k : K) (m : List (K × V)) → length (delete k m) ≤ length m
  unfolding delete
  length-delete_le k [] = omega arith
  length-delete_le k ((j, w) ∷ m) = ground (arith, length-delete_le k m)
