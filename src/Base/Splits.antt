-- ===== src/Base/Splits.antt =====
-- Splitting a text at a separator and joining the parts are inverse.
use Prim.Native.Nat.{ℕ}
use mathlib.Core.Bool.{false}
use mathlib.Core.Path.{◌≡◌, refl, ap, ◌∙◌}
use mathlib.Core.List.{List, [], ◌∷◌, ◌++◌}
use native.Mathlib.Omega.{arith}
use cronlite.Base.Tests.{if-intro, nat_beq}
use cronlite.Base.Lists.{All, any}
use cronlite.Base.Texts.{Text, is_nil, add_to_first, split_on, join_with}

module _ (sep : ℕ) where
  join-add :
      (c : ℕ) (lines : List Text) → join_with sep (add_to_first c lines) ≡ c ∷ join_with sep lines
  unfolding join_with
  join-add c [] = refl
  join-add c (line ∷ []) = refl
  join-add c (line ∷ next ∷ lines) = refl

  join-empty :
      (lines : List Text)
      → is_nil lines ≡ false
      → join_with sep ([] ∷ lines) ≡ sep ∷ join_with sep lines
  unfolding join_with
  join-empty [] h = absurd (ground (arith, h))
  join-empty (line ∷ lines) h = refl

  add_to_first-nil : (c : ℕ) (lines : List Text) → is_nil (add_to_first c lines) ≡ false
  add_to_first-nil c [] = refl
  add_to_first-nil c (line ∷ lines) = refl

  pub split-nil : (s : Text) → is_nil (split_on sep s) ≡ false
  unfolding split_on
  split-nil [] = refl
  split-nil (c ∷ s) =
      if-intro (λ (lines : List Text). is_nil lines ≡ false) (nat_beq c sep) _ _ (λ b. refl)
        (λ b. add_to_first-nil c (split_on sep s))

  pub join-split : (s : Text) → join_with sep (split_on sep s) ≡ s
  unfolding split_on join_with
  join-split [] = refl
  join-split (c ∷ s) =
      if-intro (λ lines. join_with sep lines ≡ c ∷ s) (nat_beq c sep) _ _
        (λ b. ground (arith, b, join-empty (split_on sep s) (split-nil s), join-split s))
        (λ b. join-add c (split_on sep s) ∙ ap (◌∷◌ c) (join-split s))

  abbrev pub IsOne : Text → Type 0
  IsOne line = any (λ c. nat_beq c sep) line ≡ false

  add_to_first-IsOne :
      (c : ℕ) (lines : List Text)
      → nat_beq c sep ≡ false
      → All IsOne lines
      → All IsOne (add_to_first c lines)
  unfolding any
  add_to_first-IsOne c [] b h = (ground (arith, b), tt)
  add_to_first-IsOne c (line ∷ lines) b (hl, h) = (ground (arith, b, hl), h)

  pub split-IsOne : (s : Text) → All IsOne (split_on sep s)
  unfolding split_on any
  split-IsOne [] = (refl, tt)
  split-IsOne (c ∷ s) =
      if-intro (All IsOne) (nat_beq c sep) _ _ (λ b. (refl, split-IsOne s))
        (λ b. add_to_first-IsOne c (split_on sep s) b (split-IsOne s))

  no_separator : (c : ℕ) (s : Text) → IsOne (c ∷ s) → (nat_beq c sep ≡ false) × IsOne s
  unfolding any
  no_separator c s h = (ground (arith, h), ground (arith, h))

  split-more :
      (c : ℕ) (s : Text)
      → nat_beq c sep ≡ false
      → split_on sep (c ∷ s) ≡ add_to_first c (split_on sep s)
  unfolding split_on
  split-more c s h = ground (arith, h)

  split-one : (line : Text) → IsOne line → split_on sep line ≡ line ∷ []
  unfolding split_on any
  split-one [] h = refl
  split-one (c ∷ s) h =
      let (b, hs) = no_separator c s h in split-more c s b ∙ ap (add_to_first c) (split-one s hs)

  split-first :
      (line rest : Text) → IsOne line → split_on sep (line ++ sep ∷ rest) ≡ line ∷ split_on sep rest
  unfolding split_on any
  split-first [] rest h = ground arith
  split-first (c ∷ s) rest h =
      let (b, hs) = no_separator c s h in
      split-more c (s ++ sep ∷ rest) b ∙ ap (add_to_first c) (split-first s rest hs)

  pub split-join :
      (lines : List Text)
      → is_nil lines ≡ false
      → All IsOne lines
      → split_on sep (join_with sep lines) ≡ lines
  unfolding join_with
  split-join [] e h = absurd (ground (arith, e))
  split-join (line ∷ []) e (hl, h) = split-one line hl
  split-join (line ∷ next ∷ lines) e (hl, h) =
      split-first line (join_with sep (next ∷ lines)) hl
      ∙ ap (◌∷◌ line) (split-join (next ∷ lines) refl h)
