-- ===== src/Dispatcher/Classify.antt =====
-- dispatcher.go: the metrics class of an attempt, and its case-insensitive search.
-- A text is the list of its bytes.
use Prim.Native.Char.{code}
use cronlite.Base.{
  ℕ, zero, suc, ◌+◌, ◌-◌, ◌≤◌, ◌≡◌, refl, ◌↔◌, inl, inr, ap, ◌∙◌, String, Bool, true, false, ◌&&◌,
  ◌||◌, Option, none, some, List, [], ◌∷◌, ◌++◌, map, arith, length, length-append, length-map, ltb,
  leb, nat_beq, if◌then◌else◌, Bool-cases,
}

abbrev pub lower : ℕ → ℕ
lower c = if leb b'A' c && leb c b'Z' then c + 32 else c

-- The inner loop's comparison: equal, or equal in lower case.
abbrev pub same_char : ℕ → ℕ → Bool
same_char c1 c2 = if nat_beq c1 c2 then true else nat_beq (lower c1) (lower c2)

-- The inner loop, at one position.
unfoldable pub matches_here : List ℕ → List ℕ → Bool
matches_here s [] = true
matches_here [] (c ∷ cs) = false
matches_here (a ∷ s) (c ∷ cs) = same_char a c && matches_here s cs

-- The outer loop over the positions 0 to len(s) - len(substr), given that many left.
unfoldable pub search_from : ℕ → List ℕ → List ℕ → Bool
search_from left [] substr = matches_here [] substr
search_from zero (a ∷ s) substr = matches_here (a ∷ s) substr
search_from (suc left) (a ∷ s) substr = matches_here (a ∷ s) substr || search_from left s substr

unfoldable pub contains_insensitive : List ℕ → List ℕ → Bool
contains_insensitive s substr =
    if ltb (length s) (length substr)
    then false
    else search_from (length s - length substr) s substr

-- `[]byte` literals of the code.
abbrev pub bytes : String → List ℕ
bytes String.[] = []
bytes (String.◌∷◌ c s) = code c ∷ bytes s

pub data StatusClass : Type 0 where
  class_2xx class_4xx class_5xx timeout connection_error other_error : StatusClass

-- The error's text, if there is an error.
unfoldable pub classify_status_for_metrics : ℕ → Option (List ℕ) → StatusClass
classify_status_for_metrics status_code (some text) =
    if contains_insensitive text (bytes "timeout")
      || contains_insensitive text (bytes "deadline exceeded")
    then timeout
    else if contains_insensitive text (bytes "connection refused")
        || contains_insensitive text (bytes "no such host")
        || contains_insensitive text (bytes "network is unreachable")
        || contains_insensitive text (bytes "dial")
    then connection_error
    else other_error
classify_status_for_metrics status_code none =
    if leb 200 status_code && ltb status_code 300
    then class_2xx
    else if leb 400 status_code && ltb status_code 500
    then class_4xx
    else if leb 500 status_code
    then class_5xx
    else other_error

-- `substr` occurs in `s` up to the case of ASCII letters.
abbrev pub Occurs : List ℕ → List ℕ → Type 0
Occurs s substr =
    (pre mid post : List ℕ) × (s ≡ pre ++ (mid ++ post)) × (map lower mid ≡ map lower substr)

same_char_iff : (a c : ℕ) → (same_char a c ≡ true) ↔ (lower a ≡ lower c)
same_char_iff a c = ground arith

matches-prefix :
    (s substr : List ℕ)
    → matches_here s substr ≡ true
    → (mid post : List ℕ) × (s ≡ mid ++ post) × (map lower mid ≡ map lower substr)
unfolding matches_here
matches-prefix s [] h = ([], s, refl, refl)
matches-prefix [] (c ∷ cs) h = ground arith
matches-prefix (a ∷ s) (c ∷ cs) h =
    let (mid, post, split, same) = matches-prefix s cs (ground arith) in
    let low = (same_char_iff a c).0 (ground arith) in
    (a ∷ mid, post, ap (◌∷◌ a) split, cc (low, same))

prefix-matches :
    (mid post substr : List ℕ)
    → map lower mid ≡ map lower substr
    → matches_here (mid ++ post) substr ≡ true
unfolding matches_here
prefix-matches [] post [] h = refl
prefix-matches [] post (c ∷ cs) h = absurd (ground arith)
prefix-matches (a ∷ mid) post [] h = refl
prefix-matches (a ∷ mid) post (c ∷ cs) h =
    ground (arith, prefix-matches mid post cs, (same_char_iff a c).1)

search-Occurs : (left : ℕ) (s substr : List ℕ) → search_from left s substr ≡ true → Occurs s substr
unfolding search_from
search-Occurs left [] substr h =
    let (mid, post, split, same) = matches-prefix [] substr h in ([], mid, post, split, same)
search-Occurs zero (a ∷ s) substr h =
    let (mid, post, split, same) = matches-prefix (a ∷ s) substr h in ([], mid, post, split, same)
search-Occurs (suc left) (a ∷ s) substr h = elim (Bool-cases (matches_here (a ∷ s) substr)) [
  | inl hit ↦
      let (mid, post, split, same) = matches-prefix (a ∷ s) substr hit in
      ([], mid, post, split, same)
  | inr miss ↦
      let (pre, mid, post, split, same) = search-Occurs left s substr (ground arith) in
      (a ∷ pre, mid, post, ap (◌∷◌ a) split, same)
]

Occurs-search :
    (left : ℕ) (pre mid post substr : List ℕ)
    → length pre ≤ left
    → map lower mid ≡ map lower substr
    → search_from left (pre ++ (mid ++ post)) substr ≡ true
unfolding search_from
Occurs-search zero (a ∷ pre) mid post substr room same = absurd (omega arith)
Occurs-search (suc left) (a ∷ pre) mid post substr room same =
    ground (arith, Occurs-search left pre mid post substr)
Occurs-search left [] [] [] substr room same = prefix-matches [] [] substr same
Occurs-search zero [] [] (p ∷ post) substr room same = prefix-matches [] (p ∷ post) substr same
Occurs-search (suc left) [] [] (p ∷ post) substr room same =
    ground (arith, prefix-matches [] (p ∷ post) substr same)
Occurs-search zero [] (m ∷ mid) post substr room same = prefix-matches (m ∷ mid) post substr same
Occurs-search (suc left) [] (m ∷ mid) post substr room same =
    ground (arith, prefix-matches (m ∷ mid) post substr same)

Occurs-length :
    (s substr pre mid post : List ℕ)
    → s ≡ pre ++ (mid ++ post)
    → map lower mid ≡ map lower substr
    → length pre + length substr ≤ length s
Occurs-length s substr pre mid post split same =
    let e1 = ap length split in
    let e2 = ap length same in
    omega (
      arith,
      length-append pre (mid ++ post),
      length-append mid post,
      length-map mid lower,
      length-map substr lower,
    )

-- `containsInsensitive` finds a substring exactly if it occurs, at any position, up to the case of
-- ASCII letters.
pub contains_insensitive-Occurs :
    (s substr : List ℕ) → (contains_insensitive s substr ≡ true) ↔ Occurs s substr
unfolding contains_insensitive
contains_insensitive-Occurs s substr = (
  λ h. elim (Bool-cases (ltb (length s) (length substr))) [
    | inl short ↦ ground arith
    | inr long ↦ search-Occurs (length s - length substr) s substr (ground arith)
  ],
  λ (pre, mid, post, split, same).
      let room = Occurs-length s substr pre mid post split same in
      let left = length s - length substr in
      let found = Occurs-search left pre mid post substr (omega (arith, room)) same in
      let hit = ap (λ t. search_from left t substr) split ∙ found in ground (arith, room, hit),
)
