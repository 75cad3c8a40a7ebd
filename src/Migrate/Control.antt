-- ===== src/Migrate/Control.antt =====
-- load.go: the lines that begin or commit a transaction, told without strings.TrimSpace and ToLower.
use cronlite.Base.{
  ℕ, ◌+◌, ◌≤◌, ◌≡◌, ◌↔◌, ◌⊎◌, inl, inr, refl, ap, ◌∙◌, true, false, [], ◌∷◌, ◌++◌, map, arith, All,
  Bool-cases, if-intro,
}
use cronlite.Base.Texts.{
  Text, is_space, trim_left, add_unless_space, trim_right, trim_space, to_lower, same_text,
  same_text_iff,
}
use cronlite.Dispatcher.Classify.{bytes}
use cronlite.Migrate.Load.{is_tx_control}
use mathlib.Core.Path.{subst}

-- `c` is the letter `d`, or a capital of it; U+0130 and U+212A are capitals of `i` and `k`.
abbrev pub IsLetter : ℕ → ℕ → Type 0
IsLetter c d =
    (c ≡ d)
    ⊎ ((b'A' ≤ c) × (c ≤ b'Z') × (c + 32 ≡ d))
    ⊎ ((c ≡ 0x130) × (d ≡ b'i'))
    ⊎ ((c ≡ 0x212a) × (d ≡ b'k'))

abbrev pub Spells : Text → Text → Type 0
Spells [] [] = Unit
Spells (c ∷ s) (d ∷ t) = IsLetter c d × Spells s t
Spells [] (d ∷ t) = ⊥
Spells (c ∷ s) [] = ⊥

abbrev pub Blank : Text → Type 0
Blank s = All (λ c. is_space c ≡ true) s

-- White space, the word in any case, and white space.
abbrev pub Surrounds : Text → Text → Type 0
Surrounds text line =
    (left : Text) × (word : Text) × (right : Text) × (line ≡ left ++ (word ++ right))
    × Blank left
    × Blank right
    × Spells word text

abbrev pub IsControl : Text → Type 0
IsControl line = Surrounds (bytes "begin;") line ⊎ Surrounds (bytes "commit;") line

-- A small letter of ASCII, or the semicolon.
abbrev IsPlain : ℕ → Type 0
IsPlain d = ((b'a' ≤ d) × (d ≤ b'z')) ⊎ (d ≡ b';')

lower-IsLetter : (c d : ℕ) → to_lower c ≡ d → IsLetter c d
lower-IsLetter c d e = ground (arith, e)

IsLetter-lower : (c d : ℕ) → IsPlain d → IsLetter c d → to_lower c ≡ d
IsLetter-lower c d plain l = ground (arith, plain, l)

IsLetter-solid : (c d : ℕ) → IsPlain d → IsLetter c d → is_space c ≡ false
IsLetter-solid c d plain l = ground (arith, plain, l)

lower-Spells : (s t : Text) → map to_lower s ≡ t → Spells s t
lower-Spells s t e = subst (Spells s) e (own s)
  where
    own : (s : Text) → Spells s (map to_lower s)
    own [] = tt
    own (c ∷ s) = (lower-IsLetter c (to_lower c) refl, own s)

Spells-lower : (s t : Text) → All IsPlain t → Spells s t → map to_lower s ≡ t
Spells-lower [] [] plain l = refl
Spells-lower [] (d ∷ t) plain l = absurd l
Spells-lower (c ∷ s) [] plain l = absurd l
Spells-lower (c ∷ s) (d ∷ t) (p, plain) (l, ls) =
    ap (λ x. x ∷ map to_lower s) (IsLetter-lower c d p l) ∙ ap (◌∷◌ d) (Spells-lower s t plain ls)

abbrev Solid : Text → Type 0
Solid s = All (λ c. is_space c ≡ false) s

Spells-Solid : (s t : Text) → All IsPlain t → Spells s t → Solid s
Spells-Solid [] [] plain l = tt
Spells-Solid [] (d ∷ t) plain l = absurd l
Spells-Solid (c ∷ s) [] plain l = absurd l
Spells-Solid (c ∷ s) (d ∷ t) (p, plain) (l, ls) =
    (IsLetter-solid c d p l, Spells-Solid s t plain ls)

-- What is trimmed off.
trim_left-Blank : (s : Text) → (left : Text) × (s ≡ left ++ trim_left s) × Blank left
unfolding trim_left
trim_left-Blank [] = ([], refl, tt)
trim_left-Blank (c ∷ s) =
    let (left, e, blank) = trim_left-Blank s in
    if-intro (λ t. (left : Text) × (c ∷ s ≡ left ++ t) × Blank left) (is_space c) _ _
      (λ b. (c ∷ left, ap (◌∷◌ c) e, (b, blank))) (λ b. ([], refl, tt))

trim_right-Blank : (s : Text) → (right : Text) × (s ≡ trim_right s ++ right) × Blank right
unfolding trim_right
trim_right-Blank [] = ([], refl, tt)
trim_right-Blank (c ∷ s) =
    let (right, e, blank) = trim_right-Blank s in add c s (trim_right s) right e blank
  where
    add :
        (c : ℕ) (s t right : Text)
        → s ≡ t ++ right
        → Blank right
        → (rest : Text) × (c ∷ s ≡ add_unless_space c t ++ rest) × Blank rest
    add c s [] right e blank =
        if-intro (λ t. (rest : Text) × (c ∷ s ≡ t ++ rest) × Blank rest) (is_space c) _ _
          (λ b. (c ∷ right, ap (◌∷◌ c) e, (b, blank))) (λ b. (right, ap (◌∷◌ c) e, blank))
    add c s (d ∷ t) right e blank = (right, ap (◌∷◌ c) e, blank)

-- And what is not.
trim_left-Solid :
    (left s : Text) (c : ℕ) → Blank left → is_space c ≡ false → trim_left (left ++ (c ∷ s)) ≡ c ∷ s
unfolding trim_left
trim_left-Solid [] s c blank b = ground (arith, b)
trim_left-Solid (d ∷ left) s c (x, blank) b = ground (arith, x, trim_left-Solid left s c blank b)

trim_right-none : (right : Text) → Blank right → trim_right right ≡ []
unfolding trim_right
trim_right-none [] blank = refl
trim_right-none (c ∷ right) (b, blank) =
    ap (add_unless_space c) (trim_right-none right blank) ∙ ground (arith, b)

keep_solid : (c : ℕ) (s : Text) → is_space c ≡ false → add_unless_space c s ≡ c ∷ s
keep_solid c [] b = ground (arith, b)
keep_solid c (d ∷ s) b = refl

trim_right-Solid :
    (word right : Text) → Solid word → Blank right → trim_right (word ++ right) ≡ word
unfolding trim_right
trim_right-Solid [] right solid blank = trim_right-none right blank
trim_right-Solid (c ∷ word) right (b, solid) blank =
    ap (add_unless_space c) (trim_right-Solid word right solid blank) ∙ keep_solid c word b

trim_space-Solid :
    (left word right : Text) (c : ℕ)
    → Blank left
    → Solid (c ∷ word)
    → Blank right
    → trim_space (left ++ ((c ∷ word) ++ right)) ≡ c ∷ word
unfolding trim_space
trim_space-Solid left word right c bl (b, solid) br =
    ap trim_right (trim_left-Solid left (word ++ right) c bl b)
    ∙ trim_right-Solid (c ∷ word) right (b, solid) br

lower-Surrounds : (text line : Text) → map to_lower (trim_space line) ≡ text → Surrounds text line
unfolding trim_space
lower-Surrounds text line e =
    let (left, el, bl) = trim_left-Blank line in
    let (right, er, br) = trim_right-Blank (trim_left line) in
    (
      left,
      trim_space line,
      right,
      el ∙ ap (λ s. left ++ s) er,
      bl,
      br,
      lower-Spells (trim_space line) text e,
    )

Surrounds-lower :
    (d : ℕ) (t line : Text)
    → All IsPlain (d ∷ t)
    → Surrounds (d ∷ t) line
    → map to_lower (trim_space line) ≡ d ∷ t
Surrounds-lower d t line plain (left, [], right, e, bl, br, spells) = absurd spells
Surrounds-lower d t line plain (left, c ∷ word, right, e, bl, br, spells) =
    ap (λ s. map to_lower (trim_space s)) e
    ∙ (ap (map to_lower)
          (trim_space-Solid left word right c bl (Spells-Solid (c ∷ word) (d ∷ t) plain spells) br)
        ∙ Spells-lower (c ∷ word) (d ∷ t) plain spells)

begin-IsPlain : All IsPlain (bytes "begin;")
begin-IsPlain = ground arith

commit-IsPlain : All IsPlain (bytes "commit;")
commit-IsPlain = ground arith

-- What the code's test tells.
pub is_tx_control_iff : (line : Text) → (is_tx_control line ≡ true) ↔ IsControl line
unfolding is_tx_control
is_tx_control_iff line =
    let word = map to_lower (trim_space line) in
    let begins = same_text_iff word (bytes "begin;") in
    let commits = same_text_iff word (bytes "commit;") in
    (
      λ h. elim (Bool-cases (same_text word (bytes "begin;"))) [
        | inl b ↦ inl (lower-Surrounds (bytes "begin;") line (begins.0 b))
        | inr b ↦ inr (lower-Surrounds (bytes "commit;") line (commits.0 (ground (arith, h, b))))
      ],
      λ c. elim c [
        | inl s ↦
            let b = begins.1 (Surrounds-lower b'b' (bytes "egin;") line begin-IsPlain s) in
            ground (arith, b)
        | inr s ↦
            let b = commits.1 (Surrounds-lower b'c' (bytes "ommit;") line commit-IsPlain s) in
            ground (arith, b)
      ],
    )
