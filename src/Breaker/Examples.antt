-- ===== src/Breaker/Examples.antt =====
-- Runs of the circuit breaker, and its theorems at concrete inputs.
use cronlite.Base.{
  ◌+◌, ◌≤◌, ◌<◌, ◌≡◌, refl, ◌↔◌, some, List, [], ◌∷◌, arith, lookup, insert, text_key, max,
}
use cronlite.Breaker.{
  open_, half_open, UrlState, CircuitBreaker, circuit_open, allow_with_cancel, new, record_failure,
  cancel_probe, with_half_open_probes,
}
use cronlite.Breaker.System.{Call, allows, cancels, fails, step, run, permits}
use cronlite.Breaker.Safety.{start, permits_bounded}
use cronlite.Breaker.Laws.{fail_all, last_of, open_iff, let_through, let_through_probes}

-- Two failures open the circuit; two probes are admitted at 20 and 21, a third is refused, and
-- one of the two is abandoned.
abbrev calls : List Call
calls =
    fails 1 "u"
    ∷ fails 2 "u"
    ∷ allows 3 "u"
    ∷ allows 20 "u"
    ∷ allows 21 "u"
    ∷ allows 22 "u"
    ∷ cancels 0
    ∷ cancels 0
    ∷ []

abbrev half : UrlState
half = record {
  address = 0;
  state = half_open;
  consecutive_failures = 2;
  opened_at = 2;
  half_open_probes = 1;
  probe_epoch = 1;
}

replayed : lookup "u" (run (start 2 10 2) calls).breaker.states ≡ some half
unfolding run step new with_half_open_probes allow_with_cancel cancel_probe record_failure lookup
    insert
replayed = refl

permits_bounded_example :
    (1 ≡ permits (run (start 2 10 2) calls).cleanups "u" 0 1)
    × (permits (run (start 2 10 2) calls).cleanups "u" 0 1 ≤ max 1 2)
permits_bounded_example = permits_bounded 2 10 2 calls (omega arith) "u" half replayed refl

open_iff_example :
    ((allow_with_cancel (fail_all (new 2 10) "u" (1 ∷ 2 ∷ [])) 5 "u").1 ≡ circuit_open)
    ↔ ((2 ≤ 2) × (5 < last_of 1 (2 ∷ []) + 10))
unfolding new lookup
open_iff_example = open_iff (new 2 10) "u" 1 (2 ∷ []) 5 refl

abbrev tripped : UrlState
tripped = record half { state = open_; half_open_probes = 0; probe_epoch = 0 }

abbrev breaker : CircuitBreaker
breaker = record {
  states = ("u", tripped) ∷ [];
  threshold = 2;
  cooldown = 10;
  half_open_probes = 2;
  next_address = 1;
}

let_through_probes_example : let_through breaker "u" (12 ∷ 13 ∷ 14 ∷ 15 ∷ []) ≡ 2
unfolding lookup
let_through_probes_example =
    let_through_probes breaker "u" tripped 12 (13 ∷ 14 ∷ 15 ∷ []) refl refl (omega arith)
      (omega arith)
