-- ===== src/Jobs/Phrases.antt =====
-- internal/service/jobs.go: parseNaturalLanguage and parseTime. A text is its code points. The
-- regular expressions are matched from left to right: no part can give way to the next, since what
-- follows a run of digits or spaces is not one.
pub mod RoundTrip
use cronlite.Base.{
  ℕ, zero, suc, ◌+◌, ◌-◌, ◌*◌, ◌/◌, ◌%◌, Bool, true, false, ◌||◌, ◌&&◌, not, Option, none, some,
  List, [], ◌∷◌, ◌++◌, map, leb, ltb, nat_beq, if◌then◌else◌,
}
use cronlite.Base.Texts.{Text, is_nil, trim_space, to_lower, same_text}
use cronlite.Dispatcher.Classify.{bytes}

-- What a phrase says. A day is its number, with Sunday 0.
pub data Phrase : Type 0 where
  every_minutes every_hours : ℕ → Phrase
  every_hour : Phrase
  daily weekdays : ℕ → ℕ → Phrase
  weekly : ℕ → ℕ → ℕ → Phrase

abbrev pub if_some {ℓ κ} : {A : Type ℓ} {B : Type κ} → Option A → (A → Option B) → Option B
if_some none f = none
if_some (some a) f = f a

-- A literal.
unfoldable pub expect : Text → Text → Option Text
expect [] s = some s
expect (c ∷ word) [] = none
expect (c ∷ word) (d ∷ s) = let rest = expect word s in if nat_beq c d then rest else none

-- `\s`.
abbrev pub is_blank : ℕ → Bool
is_blank c = nat_beq c 9 || nat_beq c 10 || nat_beq c 12 || nat_beq c 13 || nat_beq c 32

-- `\s*` and `\s+`.
unfoldable pub skip_blanks : Text → Text
skip_blanks [] = []
skip_blanks (c ∷ s) = let rest = skip_blanks s in if is_blank c then rest else c ∷ s

unfoldable pub blanks : Text → Option Text
blanks [] = none
blanks (c ∷ s) = if is_blank c then some (skip_blanks s) else none

abbrev pub is_digit : ℕ → Bool
is_digit c = leb b'0' c && leb c b'9'

-- `\d+`: the number so far and the rest.
unfoldable pub more_digits : ℕ → Text → ℕ × Text
more_digits n [] = (n, [])
more_digits n (c ∷ s) =
    let rest = more_digits (10 * n + (c - b'0')) s in if is_digit c then rest else (n, c ∷ s)

unfoldable pub number : Text → Option (ℕ × Text)
number [] = none
number (c ∷ s) = if is_digit c then some (more_digits (c - b'0') s) else none

-- `\d{2}`.
unfoldable pub two_digits : Text → Option (ℕ × Text)
two_digits (c ∷ d ∷ s) =
    if is_digit c && is_digit d then some (10 * (c - b'0') + (d - b'0'), s) else none
two_digits s = none

-- `\d{1,2}`.
unfoldable pub one_or_two_digits : Text → Option (ℕ × Text)
one_or_two_digits [] = none
one_or_two_digits (c ∷ []) = if is_digit c then some (c - b'0', []) else none
one_or_two_digits (c ∷ d ∷ s) =
    if not (is_digit c)
    then none
    else (if is_digit d then some (10 * (c - b'0') + (d - b'0'), s) else some (c - b'0', d ∷ s))

-- `(?::(\d{2}))?`.
unfoldable pub minutes : Text → Option (ℕ × Text)
minutes [] = some (0, [])
minutes (c ∷ s) = if nat_beq c b':' then two_digits s else some (0, c ∷ s)

pub data Half : Type 0 where
  am pm whole_day : Half

-- `\s*(am|pm)?$`.
unfoldable pub half : Text → Option Half
half s =
    let rest = skip_blanks s in
    if is_nil rest
    then some whole_day
    else if same_text rest (bytes "am")
    then some am
    else if same_text rest (bytes "pm")
    then some pm
    else none

-- parseTime, on what the expressions have matched.
abbrev pub hour24 : ℕ → Half → ℕ
hour24 hour whole_day = hour
hour24 hour pm = if nat_beq hour 12 then hour else hour + 12
hour24 hour am = if nat_beq hour 12 then 0 else hour

unfoldable pub parse_time : ℕ → ℕ → Half → Option (ℕ × ℕ)
parse_time hour minute h =
    if ltb 23 (hour24 hour h) || ltb 59 minute then none else some (hour24 hour h, minute)

-- `at\s+` and a time, to the end.
unfoldable pub time_at : Text → Option (ℕ × ℕ)
time_at s = if_some (expect (bytes "at") s) (λ s1. if_some (blanks s1) (λ s2.
    if_some (one_or_two_digits s2) (λ (hour, s3).
      if_some (minutes s3) (λ (minute, s4). if_some (half s4) (λ h. parse_time hour minute h)))))

-- `minutes?$` and `hours?$`.
unfoldable pub is_unit : Text → Text → Bool
is_unit word s = same_text s word || same_text s (word ++ b's' ∷ [])

abbrev pub counted : ℕ → Text → Option Phrase
counted n s =
    if is_unit (bytes "minute") s
    then (if ltb n 1 || ltb 59 n then none else some (every_minutes n))
    else if is_unit (bytes "hour") s
    then (if ltb n 1 || ltb 23 n then none else some (every_hours n))
    else none

-- dayMap.
abbrev pub days : List (ℕ × Text)
days =
    (0, bytes "sunday")
    ∷ (1, bytes "monday")
    ∷ (2, bytes "tuesday")
    ∷ (3, bytes "wednesday")
    ∷ (4, bytes "thursday")
    ∷ (5, bytes "friday")
    ∷ (6, bytes "saturday")
    ∷ []

-- The first of the alternatives that matches.
abbrev pub first_some {ℓ} : {A : Type ℓ} → Option A → Option A → Option A
first_some none b = b
first_some (some a) b = some a

unfoldable pub day_at : List (ℕ × Text) → Text → Option Phrase
day_at [] s = none
day_at ((d, name) ∷ more) s =
    first_some
      (if_some (expect name s)
        (λ s1. if_some (blanks s1) (λ s2. if_some (time_at s2) (λ (h, m). some (weekly d h m)))))
      (day_at more s)

abbrev pub day_word_at : (ℕ → ℕ → Phrase) → Text → Text → Option Phrase
day_word_at f word s =
    if_some (expect word s)
      (λ s1. if_some (blanks s1) (λ s2. if_some (time_at s2) (λ (h, m). some (f h m))))

-- What follows `every\s+`.
unfoldable pub after_every : Text → Option Phrase
after_every s = first_some (if_some (number s) (λ (n, s1). if_some (blanks s1) (counted n))) (
    if same_text s (bytes "hour")
    then some every_hour
    else first_some (day_word_at daily (bytes "day") s)
        (first_some (day_word_at weekdays (bytes "weekday") s) (day_at days s)))

unfoldable pub parse_lower : Text → Option Phrase
parse_lower lower =
    first_some (if_some (expect (bytes "every") lower) (λ s1. if_some (blanks s1) after_every)) (
      if same_text lower (bytes "hourly")
      then some every_hour
      else day_word_at daily (bytes "daily") lower)

unfoldable pub parse_phrase : Text → Option Phrase
parse_phrase input = parse_lower (map to_lower (trim_space input))

-- `%d` and `%02d`, below 100.
abbrev pub digit : ℕ → ℕ
digit n = b'0' + n

abbrev pub print : ℕ → Text
print n = if ltb n 10 then digit n ∷ [] else digit (n / 10) ∷ digit (n % 10) ∷ []

abbrev pub print2 : ℕ → Text
print2 n = digit (n / 10) ∷ digit (n % 10) ∷ []

abbrev pub time_text : ℕ → ℕ → Text
time_text h m = print2 h ++ b':' ∷ print2 m

abbrev pub name_of : List (ℕ × Text) → ℕ → Text
name_of [] d = []
name_of ((k, name) ∷ more) d = if nat_beq k d then name else name_of more d

-- The cron expression, and the description.
unfoldable pub expression : Phrase → Text
expression (every_minutes n) = bytes "*/" ++ print n ++ bytes " * * * *"
expression (every_hours n) = bytes "0 */" ++ print n ++ bytes " * * *"
expression every_hour = bytes "0 * * * *"
expression (daily h m) = print m ++ b' ' ∷ print h ++ bytes " * * *"
expression (weekdays h m) = print m ++ b' ' ∷ print h ++ bytes " * * 1-5"
expression (weekly d h m) = print m ++ b' ' ∷ print h ++ bytes " * * " ++ print d

unfoldable pub description : Phrase → Text
description (every_minutes n) = bytes "every " ++ print n ++ bytes " minutes"
description (every_hours n) = bytes "every " ++ print n ++ bytes " hours"
description every_hour = bytes "every hour"
description (daily h m) = bytes "daily at " ++ time_text h m
description (weekdays h m) = bytes "every weekday at " ++ time_text h m
description (weekly d h m) = bytes "every " ++ name_of days d ++ bytes " at " ++ time_text h m

-- The cron expression and the description, or ErrScheduleParseFailure.
unfoldable pub parse_natural_language : Text → Option (Text × Text)
parse_natural_language input =
    if_some (parse_phrase input) (λ p. some (expression p, description p))
