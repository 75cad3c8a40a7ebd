-- ===== src/Jobs/Phrases/RoundTrip.antt =====
-- jobs.go: the description of a phrase is a phrase.
use cronlite.Base.{
  ℕ, zero, suc, ◌+◌, ◌-◌, ◌*◌, ◌/◌, ◌%◌, ◌<◌, ◌≤◌, ◌≡◌, refl, ap, ◌∙◌, Bool, true, false, ◌&&◌,
  some, [], ◌∷◌, ◌++◌, map, arith, ltb, ltb→lt, if-intro, nat_beq, nat_beq_iff,
}
use cronlite.Base.Texts.{
  Text, is_nil, trim_space, trim_left, trim_right, add_unless_space, is_space, to_lower, same_text,
}
use cronlite.Dispatcher.Classify.{bytes}
use cronlite.Jobs.Phrases.{
  Phrase, every_minutes, every_hours, every_hour, daily, weekdays, weekly, expect, skip_blanks,
  blanks, is_digit, more_digits, number, two_digits, one_or_two_digits, minutes, half, whole_day,
  parse_time, time_at, is_unit, day_at, after_every, parse_lower, parse_phrase, digit, print,
  print2, time_text, description, expression, parse_natural_language,
}

digit-is : (d : ℕ) → d < 10 → is_digit (digit d) ≡ true
digit-is d h = ground (arith, h)

digits-value : (n : ℕ) → n < 100 → 10 * (digit (n / 10) - b'0') + (digit (n % 10) - b'0') ≡ n
digits-value n h = omega (arith, h)

both_digits :
    (n : ℕ) → n < 100 → (is_digit (digit (n / 10)) ≡ true) × (is_digit (digit (n % 10)) ≡ true)
both_digits n h = (digit-is (n / 10) (omega (arith, h)), digit-is (n % 10) (omega arith))

two-print2 : (n : ℕ) (s : Text) → n < 100 → two_digits (print2 n ++ s) ≡ some (n, s)
unfolding two_digits
two-print2 n s h = let (a, b) = both_digits n h in rw (a, b, digits-value n h)

one_or_two-print2 : (n : ℕ) (s : Text) → n < 100 → one_or_two_digits (print2 n ++ s) ≡ some (n, s)
unfolding one_or_two_digits
one_or_two-print2 n s h = let (a, b) = both_digits n h in rw (a, b, digits-value n h)

skip-print2 : (n : ℕ) (s : Text) → n < 100 → skip_blanks (print2 n ++ s) ≡ print2 n ++ s
unfolding skip_blanks
skip-print2 n s h = ground (arith, h)

number-print :
    (n c : ℕ) (s : Text)
    → n < 100
    → is_digit c ≡ false
    → number (print n ++ c ∷ s) ≡ some (n, c ∷ s)
unfolding number more_digits
number-print n c s h k =
    if-intro (λ (w : Text). number (w ++ c ∷ s) ≡ some (n, c ∷ s)) (ltb n 10) _ _
      (λ b.
        let d = digit-is n (ltb→lt n 10 b) in
        let v : digit n - b'0' ≡ n = omega arith in rw (d, k, v))
      (λ b. let (d, e) = both_digits n h in rw (d, e, k, digits-value n h))

-- Both numbers of a time.
abbrev pub IsTime : ℕ → ℕ → Type 0
IsTime h m = (h < 24) × (m < 60)

blank-print2 : (n : ℕ) (s : Text) → n < 100 → blanks (b' ' ∷ print2 n ++ s) ≡ some (print2 n ++ s)
unfolding blanks
blank-print2 n s h = ap some (skip-print2 n s h)

colon-minutes : (m : ℕ) → m < 60 → minutes (b':' ∷ print2 m) ≡ some (m, [])
unfolding minutes
colon-minutes m h = two-print2 m [] (omega (arith, h))

in_range : (h m : ℕ) → IsTime h m → parse_time h m whole_day ≡ some (h, m)
unfolding parse_time
in_range h m (a, b) = ground (arith, a, b)

reads-time : (h m : ℕ) → IsTime h m → time_at (bytes "at " ++ time_text h m) ≡ some (h, m)
unfolding time_at expect half skip_blanks
reads-time h m (a, b) =
    let h100 : h < 100 = omega (arith, a) in
    rw (
      blank-print2 h (b':' ∷ print2 m) h100,
      one_or_two-print2 h (b':' ∷ print2 m) h100,
      colon-minutes m b,
      in_range h m (a, b),
    )

-- Reading a description: trimming and lowering leave it as it is.
abbrev Stays : Text → Type 0
Stays s = (is_nil s ≡ false) × (trim_right s ≡ s) × (map to_lower s ≡ s)

unspaced : (c : ℕ) (s : Text) → is_nil s ≡ false → add_unless_space c s ≡ c ∷ s
unspaced c [] h = absurd (ground (arith, h))
unspaced c (d ∷ s) h = refl

cons-Stays : (c : ℕ) (s : Text) → to_lower c ≡ c → Stays s → Stays (c ∷ s)
unfolding trim_right
cons-Stays c s low (n, t, l) = (
  refl,
  ap (add_unless_space c) t ∙ unspaced c s n,
  ap (λ d. d ∷ map to_lower s) low ∙ ap (◌∷◌ c) l,
)

abbrev all_low : Text → Bool
all_low [] = true
all_low (c ∷ s) = nat_beq (to_lower c) c && all_low s

prefix-Stays : (p s : Text) → all_low p ≡ true → Stays s → Stays (p ++ s)
prefix-Stays [] s low h = h
prefix-Stays (c ∷ p) s low h =
    cons-Stays c (p ++ s) (ground (arith, low, nat_beq_iff (to_lower c) c))
      (prefix-Stays p s (ground (arith, low)) h)

digit-lower : (d : ℕ) → d < 10 → to_lower (digit d) ≡ digit d
digit-lower d h = ground (arith, h)

one-Stays : (c : ℕ) → is_space c ≡ false → to_lower c ≡ c → Stays (c ∷ [])
unfolding trim_right
one-Stays c n low = (refl, ground (arith, n), ap (λ d. d ∷ []) low)

print2-Stays : (n : ℕ) → n < 100 → Stays (print2 n)
print2-Stays n h =
    let a : n / 10 < 10 = omega (arith, h) in
    let b : n % 10 < 10 = omega arith in
    cons-Stays (digit (n / 10)) (digit (n % 10) ∷ []) (digit-lower (n / 10) a)
      (one-Stays (digit (n % 10)) (ground (arith, b)) (digit-lower (n % 10) b))

before-print2-Stays : (n : ℕ) (s : Text) → n < 100 → Stays s → Stays (print2 n ++ s)
before-print2-Stays n s h st =
    let a : n / 10 < 10 = omega (arith, h) in
    let b : n % 10 < 10 = omega arith in
    cons-Stays (digit (n / 10)) (digit (n % 10) ∷ s) (digit-lower (n / 10) a)
      (cons-Stays (digit (n % 10)) s (digit-lower (n % 10) b) st)

time-Stays : (h m : ℕ) → IsTime h m → Stays (time_text h m)
time-Stays h m (a, b) =
    before-print2-Stays h (b':' ∷ print2 m) (omega (arith, a))
      (cons-Stays b':' (print2 m) refl (print2-Stays m (omega (arith, b))))

-- A text that stays and does not begin with a space is read as it is.
read_as_is :
    (c : ℕ) (s : Text)
    → is_space c ≡ false
    → Stays (c ∷ s)
    → parse_phrase (c ∷ s) ≡ parse_lower (c ∷ s)
unfolding parse_phrase trim_space trim_left
read_as_is c s n (e, t, l) = rw (n, t, l)

daily-read : (h m : ℕ) → IsTime h m → parse_phrase (description (daily h m)) ≡ some (daily h m)
unfolding description parse_lower expect blanks skip_blanks same_text
daily-read h m t =
    read_as_is b'd' (bytes "aily at " ++ time_text h m) refl
      (prefix-Stays (bytes "daily at ") (time_text h m) refl (time-Stays h m t))
    ∙ rw (reads-time h m t)

weekdays-read :
    (h m : ℕ) → IsTime h m → parse_phrase (description (weekdays h m)) ≡ some (weekdays h m)
unfolding description parse_lower expect blanks skip_blanks same_text after_every number
weekdays-read h m t =
    read_as_is b'e' (bytes "very weekday at " ++ time_text h m) refl
      (prefix-Stays (bytes "every weekday at ") (time_text h m) refl (time-Stays h m t))
    ∙ rw (reads-time h m t)

-- A description that begins with "every", a name and a time.
day_phrase :
    (name : Text) (h m : ℕ)
    → all_low name ≡ true
    → IsTime h m
    → parse_phrase (bytes "every " ++ (name ++ (bytes " at " ++ time_text h m)))
      ≡ parse_lower (bytes "every " ++ (name ++ (bytes " at " ++ time_text h m)))
day_phrase name h m low t =
    read_as_is b'e' (bytes "very " ++ (name ++ (bytes " at " ++ time_text h m))) refl (
      prefix-Stays (bytes "every ") (name ++ (bytes " at " ++ time_text h m)) refl (
        prefix-Stays name (bytes " at " ++ time_text h m) low
          (prefix-Stays (bytes " at ") (time_text h m) refl (time-Stays h m t))))

weekly-read :
    (d h m : ℕ)
    → d < 7
    → IsTime h m
    → parse_phrase (description (weekly d h m)) ≡ some (weekly d h m)
unfolding description parse_lower expect blanks skip_blanks same_text after_every number day_at
weekly-read zero h m day t = day_phrase (bytes "sunday") h m refl t ∙ rw (reads-time h m t)
weekly-read (suc zero) h m day t = day_phrase (bytes "monday") h m refl t ∙ rw (reads-time h m t)
weekly-read (suc (suc zero)) h m day t =
    day_phrase (bytes "tuesday") h m refl t ∙ rw (reads-time h m t)
weekly-read (suc (suc (suc zero))) h m day t =
    day_phrase (bytes "wednesday") h m refl t ∙ rw (reads-time h m t)
weekly-read (suc (suc (suc (suc zero)))) h m day t =
    day_phrase (bytes "thursday") h m refl t ∙ rw (reads-time h m t)
weekly-read (suc (suc (suc (suc (suc zero))))) h m day t =
    day_phrase (bytes "friday") h m refl t ∙ rw (reads-time h m t)
weekly-read (suc (suc (suc (suc (suc (suc zero)))))) h m day t =
    day_phrase (bytes "saturday") h m refl t ∙ rw (reads-time h m t)
weekly-read (suc (suc (suc (suc (suc (suc (suc d))))))) h m day t = absurd (omega (arith, day))

skip-print : (n : ℕ) (s : Text) → n < 100 → skip_blanks (print n ++ s) ≡ print n ++ s
unfolding skip_blanks
skip-print n s h =
    if-intro (λ (w : Text). skip_blanks (w ++ s) ≡ w ++ s) (ltb n 10) _ _
      (λ b. ground (arith, ltb→lt n 10 b)) (λ b. ground (arith, h))

print-Stays : (n : ℕ) (s : Text) → n < 100 → Stays s → Stays (print n ++ s)
print-Stays n s h st =
    if-intro (λ (w : Text). Stays (w ++ s)) (ltb n 10) _ _
      (λ b. cons-Stays (digit n) s (digit-lower n (ltb→lt n 10 b)) st)
      (λ b. before-print2-Stays n s h st)

-- A count and its unit.
count_read :
    (n : ℕ) (word : Text)
    → n < 100
    → Stays word
    → parse_phrase (bytes "every " ++ (print n ++ b' ' ∷ word))
      ≡ parse_lower (bytes "every " ++ (print n ++ b' ' ∷ word))
count_read n word h st = read_as_is b'e' (bytes "very " ++ (print n ++ b' ' ∷ word)) refl (
    prefix-Stays (bytes "every ") (print n ++ b' ' ∷ word) refl
      (print-Stays n (b' ' ∷ word) h (cons-Stays b' ' word refl st)))

word-Stays :
    (word : Text) (c : ℕ)
    → all_low word ≡ true
    → is_space c ≡ false
    → to_lower c ≡ c
    → Stays (word ++ c ∷ [])
word-Stays word c low n l = prefix-Stays word (c ∷ []) low (one-Stays c n l)

minutes-lower :
    (n : ℕ)
    → 1 ≤ n
    → n < 60
    → parse_lower (bytes "every " ++ (print n ++ bytes " minutes")) ≡ some (every_minutes n)
unfolding parse_lower expect blanks same_text after_every is_unit skip_blanks
minutes-lower n a b =
    let h : n < 100 = omega (arith, b) in
    let low : ltb n 1 ≡ false = ground (arith, a) in
    let high : ltb 59 n ≡ false = ground (arith, b) in
    rw (skip-print n (bytes " minutes") h, number-print n b' ' (bytes "minutes") h refl, low, high)

minutes-read :
    (n : ℕ) → 1 ≤ n → n < 60 → parse_phrase (description (every_minutes n)) ≡ some (every_minutes n)
unfolding description
minutes-read n a b =
    count_read n (bytes "minutes") (omega (arith, b))
      (word-Stays (bytes "minute") b's' refl refl refl)
    ∙ minutes-lower n a b

hours-lower :
    (n : ℕ)
    → 1 ≤ n
    → n < 24
    → parse_lower (bytes "every " ++ (print n ++ bytes " hours")) ≡ some (every_hours n)
unfolding parse_lower expect blanks same_text after_every is_unit skip_blanks
hours-lower n a b =
    let h : n < 100 = omega (arith, b) in
    let low : ltb n 1 ≡ false = ground (arith, a) in
    let high : ltb 23 n ≡ false = ground (arith, b) in
    rw (skip-print n (bytes " hours") h, number-print n b' ' (bytes "hours") h refl, low, high)

hours-read :
    (n : ℕ) → 1 ≤ n → n < 24 → parse_phrase (description (every_hours n)) ≡ some (every_hours n)
unfolding description
hours-read n a b =
    count_read n (bytes "hours") (omega (arith, b)) (word-Stays (bytes "hour") b's' refl refl refl)
    ∙ hours-lower n a b

hour-read : parse_phrase (description every_hour) ≡ some every_hour
unfolding description parse_phrase trim_space trim_left trim_right parse_lower expect blanks
    same_text after_every skip_blanks number
hour-read = refl

-- The counts, times and days that a phrase may have.
abbrev pub IsValid : Phrase → Type 0
IsValid (every_minutes n) = (1 ≤ n) × (n < 60)
IsValid (every_hours n) = (1 ≤ n) × (n < 24)
IsValid every_hour = Unit
IsValid (daily h m) = IsTime h m
IsValid (weekdays h m) = IsTime h m
IsValid (weekly d h m) = (d < 7) × IsTime h m

description-read : (p : Phrase) → IsValid p → parse_phrase (description p) ≡ some p
description-read (every_minutes n) (a, b) = minutes-read n a b
description-read (every_hours n) (a, b) = hours-read n a b
description-read every_hour h = hour-read
description-read (daily h m) t = daily-read h m t
description-read (weekdays h m) t = weekdays-read h m t
description-read (weekly d h m) (a, t) = weekly-read d h m a t

-- The description of a phrase with valid counts, times and days is itself parsed: it gives the cron
-- expression of that phrase, and the description again.
pub phrase_round_trip :
    (p : Phrase)
    → IsValid p
    → parse_natural_language (description p) ≡ some (expression p, description p)
unfolding parse_natural_language
phrase_round_trip p h = rw (description-read p h)
