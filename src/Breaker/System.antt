-- ===== src/Breaker/System.antt =====
-- A circuit breaker with the cleanups that its callers hold, driven by any sequence of calls.
use cronlite.Base.{
  ℕ, zero, suc, ◌+◌, String, Bool, not, ◌&&◌, none, some, List, [], ◌∷◌, get_elem?, nat_beq, ◌==◌,
  if◌then◌else◌, text_key,
}
use cronlite.Breaker.{
  CircuitBreaker, CancelProbe, Admission, admitted, probing, circuit_open, allow_with_cancel,
  cancel_probe, record_success, record_failure,
}

pub record System : Type 0 where
  pub breaker : CircuitBreaker
  pub cleanups : List CancelProbe

-- A call; `cancels i` runs the cleanup at position `i`, any number of times.
pub data Call : Type 0 where
  allows : ℕ → String → Call
  cancels : ℕ → Call
  succeeds : String → Call
  fails : ℕ → String → Call

abbrev pub replace : ℕ → CancelProbe → List CancelProbe → List CancelProbe
replace i c [] = []
replace zero c (x ∷ xs) = c ∷ xs
replace (suc i) c (x ∷ xs) = x ∷ replace i c xs

abbrev pub keep : List CancelProbe → Admission → List CancelProbe
keep cs admitted = cs
keep cs (probing c) = c ∷ cs
keep cs circuit_open = cs

unfoldable pub step : System → Call → System
step s (allows now url) =
    let (cb, a) = allow_with_cancel s.breaker now url in
    record { breaker = cb; cleanups = keep s.cleanups a }
step s (cancels i) = elim (get_elem? s.cleanups i) [
  | none ↦ s
  | some c ↦
      let (cb, c') = cancel_probe s.breaker c in
      record { breaker = cb; cleanups = replace i c' s.cleanups }
]
step s (succeeds url) = record s { breaker = record_success s.breaker url }
step s (fails now url) = record s { breaker = record_failure s.breaker now url }

unfoldable pub run : System → List Call → System
run s [] = s
run s (c ∷ cs) = run (step s c) cs

-- Whether a cleanup still holds a permit of the given circuit and epoch.
abbrev pub is_held : String → ℕ → ℕ → CancelProbe → Bool
is_held url address epoch c =
    not c.fired && c.url == url && nat_beq c.admitted address && nat_beq c.epoch epoch

abbrev pub weight : String → ℕ → ℕ → CancelProbe → ℕ
weight url address epoch c = if is_held url address epoch c then 1 else 0

-- How many callers still hold a permit of that circuit and epoch.
unfoldable pub permits : List CancelProbe → String → ℕ → ℕ → ℕ
permits [] url address epoch = 0
permits (c ∷ cs) url address epoch = weight url address epoch c + permits cs url address epoch
