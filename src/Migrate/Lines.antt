-- ===== src/Migrate/Lines.antt =====
-- load.go: stripTxControl on the lines of a migration.
use mathlib.Core.Path.{subst}
use cronlite.Migrate.Control.{IsControl, is_tx_control_iff}
use cronlite.Base.{
  ◌⊎◌, inl, inr, sym, ◌≡◌, refl, ◌∙◌, List, [], ◌∷◌, map, arith, All, any, if-intro,
}
use cronlite.Base.Texts.{Text, is_nil, split_on, join_with}
use cronlite.Base.Splits.{IsOne, join-split, split-join, split-nil, split-IsOne}
use cronlite.Migrate.Load.{is_tx_control, blank_tx_control, strip_tx_control}

abbrev pub OneLine : Text → Type 0
OneLine = IsOne b'\n'

blank-OneLine : (lines : List Text) → All OneLine lines → All OneLine (map blank_tx_control lines)
unfolding any is_tx_control
blank-OneLine [] h = tt
blank-OneLine (line ∷ lines) (hl, h) =
    (if-intro OneLine (is_tx_control line) [] line (λ b. refl) (λ b. hl), blank-OneLine lines h)

map-nil : (lines : List Text) → is_nil (map blank_tx_control lines) ≡ is_nil lines
map-nil [] = refl
map-nil (line ∷ lines) = refl

-- Of the lines, those that begin or commit a transaction, and no others, are empty instead.
abbrev pub Blanks : List Text → List Text → Type 0
Blanks [] [] = Unit
Blanks (line ∷ lines) (out ∷ outs) =
    ((IsControl line × (out ≡ [])) ⊎ ((¬ IsControl line) × (out ≡ line))) × Blanks lines outs
Blanks [] (out ∷ outs) = ⊥
Blanks (line ∷ lines) [] = ⊥

blanked-Blanks : (lines : List Text) → Blanks lines (map blank_tx_control lines)
unfolding is_tx_control
blanked-Blanks [] = tt
blanked-Blanks (line ∷ lines) =
    let told = is_tx_control_iff line in
    (
      if-intro (λ out. (IsControl line × (out ≡ [])) ⊎ ((¬ IsControl line) × (out ≡ line)))
          (is_tx_control line) _ _ (λ b. inl (told.0 b, refl))
          (λ b. inr (λ c. absurd (ground (arith, b, told.1 c)), refl)),
      blanked-Blanks lines,
    )

-- A migration is its lines, without line feeds, joined by line feeds; stripping it leaves as many
-- lines, of which those that are `BEGIN;` or `COMMIT;`, in any case and between white space, are
-- empty, and the others as they were.
pub strip_lines :
    (sql : Text)
    → All OneLine (split_on b'\n' sql)
      × (join_with b'\n' (split_on b'\n' sql) ≡ sql)
      × Blanks (split_on b'\n' sql) (split_on b'\n' (strip_tx_control sql))
unfolding strip_tx_control
strip_lines sql =
    let lines = map blank_tx_control (split_on b'\n' sql) in
    let same =
      split-join b'\n' lines (map-nil (split_on b'\n' sql) ∙ split-nil b'\n' sql)
        (blank-OneLine (split_on b'\n' sql) (split-IsOne b'\n' sql)) in
    (
      split-IsOne b'\n' sql,
      join-split b'\n' sql,
      subst (Blanks (split_on b'\n' sql)) (sym same) (blanked-Blanks (split_on b'\n' sql)),
    )
