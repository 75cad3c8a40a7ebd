-- ===== src/Base/Texts.antt =====
-- Texts as lists of their Unicode code points, with what the program uses of Go's `strings`.
use Prim.Native.Nat.{ℕ, ◌+◌}
use mathlib.Core.Bool.{Bool, true, false, ◌&&◌, ◌||◌}
use mathlib.Core.Path.{◌≡◌}
use mathlib.Core.Logic.{◌↔◌}
use mathlib.Core.List.{List, [], ◌∷◌, ◌++◌}
use native.Mathlib.Omega.{arith}
use cronlite.Base.Tests.{if◌then◌else◌, leb, nat_beq}
use cronlite.Base.Map.{Key}

abbrev pub Text : Type 0
Text = List ℕ

abbrev pub is_nil {ℓ} : {A : Type ℓ} → List A → Bool
is_nil [] = true
is_nil (x ∷ xs) = false

-- strings.Split and strings.Join with a separator of one code point.
abbrev pub add_to_first : ℕ → List Text → List Text
add_to_first c [] = (c ∷ []) ∷ []
add_to_first c (line ∷ lines) = (c ∷ line) ∷ lines

unfoldable pub split_on : ℕ → Text → List Text
split_on sep [] = [] ∷ []
split_on sep (c ∷ s) =
    let rest = split_on sep s in if nat_beq c sep then [] ∷ rest else add_to_first c rest

unfoldable pub join_with : ℕ → List Text → Text
join_with sep [] = []
join_with sep (line ∷ []) = line
join_with sep (line ∷ next ∷ lines) = line ++ sep ∷ join_with sep (next ∷ lines)

-- unicode.IsSpace.
abbrev pub is_space : ℕ → Bool
is_space c =
    (leb 9 c && leb c 13)
    || nat_beq c 32
    || nat_beq c 0x85
    || nat_beq c 0xa0
    || nat_beq c 0x1680
    || (leb 0x2000 c && leb c 0x200a)
    || nat_beq c 0x2028
    || nat_beq c 0x2029
    || nat_beq c 0x202f
    || nat_beq c 0x205f
    || nat_beq c 0x3000

unfoldable pub trim_left : Text → Text
trim_left [] = []
trim_left (c ∷ s) = let rest = trim_left s in if is_space c then rest else c ∷ s

abbrev pub add_unless_space : ℕ → Text → Text
add_unless_space c [] = if is_space c then [] else c ∷ []
add_unless_space c (d ∷ s) = c ∷ d ∷ s

unfoldable pub trim_right : Text → Text
trim_right [] = []
trim_right (c ∷ s) = add_unless_space c (trim_right s)

-- strings.TrimSpace.
unfoldable pub trim_space : Text → Text
unfolding trim_left trim_right
trim_space s = trim_right (trim_left s)

-- unicode.ToLower, of the code points whose lower case is ASCII; the others never become ASCII.
abbrev pub to_lower : ℕ → ℕ
to_lower c =
    if leb b'A' c && leb c b'Z'
    then c + 32
    else if nat_beq c 0x130
    then b'i'
    else if nat_beq c 0x212a
    then b'k'
    else c

unfoldable pub same_text : Text → Text → Bool
same_text [] [] = true
same_text (a ∷ s) (b ∷ t) = nat_beq a b && same_text s t
same_text [] (b ∷ t) = false
same_text (a ∷ s) [] = false

pub same_text_iff : (s t : Text) → (same_text s t ≡ true) ↔ (s ≡ t)
unfolding same_text
same_text_iff [] [] = ground arith
same_text_iff (a ∷ s) (b ∷ t) = ground (arith, same_text_iff s t)
same_text_iff [] (b ∷ t) = ground arith
same_text_iff (a ∷ s) [] = ground arith

instance abbrev pub points_key : Key Text
unfolding same_text
points_key = record { same_iff = same_text_iff; same = same_text }
