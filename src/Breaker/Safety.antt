-- ===== src/Breaker/Safety.antt =====
-- breaker.go as a whole: what holds after any sequence of calls.
use cronlite.Base.{
  ℕ, suc, ◌+◌, ◌-◌, ◌^◌, ◌≤◌, ◌<◌, ◌≡◌, refl, inl, inr, String, true, false, some, List, [], ◌∷◌,
  arith, get_elem?, lookup, insert, lookup-insert_cases, lookup-delete_cases, Option-cases,
  Bool-cases, length, text_key, ◌∙◌, max,
}
use cronlite.Breaker.{
  half_open, UrlState, CancelProbe, holds_permit, release, cancel_probe, record_success,
  record_failure, allow_with_cancel, zero_state, fail, new, with_half_open_probes,
}
use cronlite.Breaker.System.{
  System, Call, allows, cancels, succeeds, fails, replace, step, run, permits,
}
use cronlite.Breaker.Permits.{Inv, later, allow-Inv, idle-Inv, freed-Inv}

release-Inv :
    (n i : ℕ) (s : System) (c : CancelProbe)
    → Inv n s
    → get_elem? s.cleanups i ≡ some c
    → c.fired ≡ false
    → Inv n (record {
      breaker = release s.breaker c;
      cleanups = replace i (record c { fired = true }) s.cleanups;
    })
unfolding release
release-Inv n i s c v at live = elim (Option-cases (lookup c.url s.breaker.states)) [
  | inl gone ↦ rw (gone, release) (idle-Inv n i s c v at (λ x h. ground arith))
  | inr (x, here) ↦ elim (Bool-cases (holds_permit c x)) [
    | inl held ↦ rw (here, release) (rw held (freed-Inv n i s c x v at here live held))
    | inr not_held ↦ rw (here, release) (rw not_held (idle-Inv n i s c v at (λ z h. ground arith)))
  ]
]

cancel-Inv : (n i : ℕ) (s : System) → Inv n s → Inv (suc n) (step s (cancels i))
unfolding step cancel_probe
cancel-Inv n i s v = elim (Option-cases (get_elem? s.cleanups i)) [
  | inl none_there ↦ rw (none_there, step) (later v)
  | inr (c, at) ↦ elim (Bool-cases c.fired) [
    | inl spent ↦ rw (at, step) (rw spent (later (idle-Inv n i s c v at (λ x h. inl spent))))
    | inr live ↦ rw (at, step) (rw live (later (release-Inv n i s c v at live)))
  ]
]

success-Inv : (n : ℕ) (s : System) (url : String) → Inv n s → Inv n (step s (succeeds url))
unfolding step record_success
success-Inv n s url v = record {
  counted = λ u x h. v.counted u x (lookup-delete_cases url u x s.breaker.states h).1;
  capped = λ u x h. v.capped u x (lookup-delete_cases url u x s.breaker.states h).1;
  future = λ u x e h. v.future u x e (lookup-delete_cases url u x s.breaker.states h).1;
  fresh = v.fresh;
  below = λ u x h. v.below u x (lookup-delete_cases url u x s.breaker.states h).1;
  epochs = λ u x h. v.epochs u x (lookup-delete_cases url u x s.breaker.states h).1;
  limit = v.limit;
}

-- A failure of a circuit that is known keeps its address, epoch and count.
failed-Inv :
    (n now : ℕ) (s : System) (url : String) (x : UrlState)
    → Inv n s
    → lookup url s.breaker.states ≡ some x
    → Inv n (record s {
      breaker = record s.breaker {
        states = insert url (fail s.breaker.threshold now x) s.breaker.states;
      };
    })
failed-Inv n now s url x v at = record {
  counted = λ u z h hz. elim (lookup-insert_cases url u y z s.breaker.states h) [
    | inl (p, q) ↦ ground (arith, v.counted url x at)
    | inr (p, q) ↦ v.counted u z q hz
  ];
  capped = λ u z h hz. elim (lookup-insert_cases url u y z s.breaker.states h) [
    | inl (p, q) ↦ ground (arith, v.capped url x at)
    | inr (p, q) ↦ v.capped u z q hz
  ];
  future = λ u z e h lt. elim (lookup-insert_cases url u y z s.breaker.states h) [
    | inl (p, q) ↦ ground (arith, v.future url x e at)
    | inr (p, q) ↦ v.future u z e q lt
  ];
  fresh = v.fresh;
  below = λ u z h. elim (lookup-insert_cases url u y z s.breaker.states h) [
    | inl (p, q) ↦ ground (arith, v.below url x at)
    | inr (p, q) ↦ v.below u z q
  ];
  epochs = λ u z h. elim (lookup-insert_cases url u y z s.breaker.states h) [
    | inl (p, q) ↦ ground (arith, v.epochs url x at)
    | inr (p, q) ↦ v.epochs u z q
  ];
  limit = v.limit;
}
  where
    y : UrlState
    y = fail s.breaker.threshold now x

-- A first failure makes a circuit whose address no cleanup knows.
first_failed-Inv :
    (n now : ℕ) (s : System) (url : String)
    → Inv n s
    → Inv n (record s {
      breaker = record s.breaker {
        states =
            insert url
              (fail s.breaker.threshold now (zero_state s.breaker.next_address))
              s.breaker.states;
        next_address = suc s.breaker.next_address;
      };
    })
first_failed-Inv n now s url v = record {
  counted = λ u z h hz. elim (lookup-insert_cases url u y z s.breaker.states h) [
    | inl (p, q) ↦ ground arith
    | inr (p, q) ↦ v.counted u z q hz
  ];
  capped = λ u z h hz. elim (lookup-insert_cases url u y z s.breaker.states h) [
    | inl (p, q) ↦ ground arith
    | inr (p, q) ↦ v.capped u z q hz
  ];
  future = λ u z e h lt. elim (lookup-insert_cases url u y z s.breaker.states h) [
    | inl (p, q) ↦ ground (arith, v.fresh u s.breaker.next_address e)
    | inr (p, q) ↦ v.future u z e q lt
  ];
  fresh = λ u a e h. v.fresh u a e (omega arith);
  below = λ u z h. elim (lookup-insert_cases url u y z s.breaker.states h) [
    | inl (p, q) ↦ ground arith
    | inr (p, q) ↦ ground (arith, v.below u z q)
  ];
  epochs = λ u z h. elim (lookup-insert_cases url u y z s.breaker.states h) [
    | inl (p, q) ↦ ground arith
    | inr (p, q) ↦ v.epochs u z q
  ];
  limit = v.limit;
}
  where
    y : UrlState
    y = fail s.breaker.threshold now (zero_state s.breaker.next_address)

failure-Inv : (n now : ℕ) (s : System) (url : String) → Inv n s → Inv n (step s (fails now url))
unfolding step record_failure
failure-Inv n now s url v = elim (Option-cases (lookup url s.breaker.states)) [
  | inl missing ↦ rw (missing, record_failure) (first_failed-Inv n now s url v)
  | inr (x, at) ↦ rw (at, record_failure) (failed-Inv n now s url x v at)
]

step-Inv : (n : ℕ) (s : System) (c : Call) → n < 2 ^ 64 - 1 → Inv n s → Inv (suc n) (step s c)
step-Inv n s (allows now url) small v = allow-Inv n now s url small v
step-Inv n s (cancels i) small v = cancel-Inv n i s v
step-Inv n s (succeeds url) small v = later (success-Inv n s url v)
step-Inv n s (fails now url) small v = later (failure-Inv n now s url v)

run-Inv :
    (n : ℕ) (s : System) (cs : List Call)
    → n + length cs < 2 ^ 64
    → Inv n s
    → Inv (n + length cs) (run s cs)
unfolding run
run-Inv n s [] small v = ground (arith, v)
run-Inv n s (c ∷ cs) small v =
    let rest = run-Inv (suc n) (step s c) cs (omega arith) (step-Inv n s c (omega arith) v) in
    let e : n + length (c ∷ cs) ≡ suc n + length cs = omega arith in rw e rest

-- A breaker as it is configured, with no cleanup handed out yet.
abbrev pub start : ℕ → ℕ → ℕ → System
start threshold cooldown probes = record {
  breaker = with_half_open_probes (new threshold cooldown) probes;
  cleanups = [];
}

start-Inv : (threshold cooldown probes : ℕ) → Inv 0 (start threshold cooldown probes)
unfolding with_half_open_probes new lookup permits
start-Inv threshold cooldown probes = record {
  counted = λ u x h. ground arith;
  capped = λ u x h. ground arith;
  future = λ u x e h. ground arith;
  fresh = λ u a e h. refl;
  below = λ u x h. ground arith;
  epochs = λ u x h. ground arith;
  limit = ground arith;
}

step-limit :
    (s : System) (c : Call) → (step s c).breaker.half_open_probes ≡ s.breaker.half_open_probes
unfolding step allow_with_cancel cancel_probe record_success record_failure
step-limit s (allows now url) = ground arith
step-limit s (cancels i) = ground arith
step-limit s (succeeds url) = refl
step-limit s (fails now url) = ground arith

run-limit :
    (s : System) (cs : List Call) → (run s cs).breaker.half_open_probes ≡ s.breaker.half_open_probes
unfolding run
run-limit s [] = refl
run-limit s (c ∷ cs) = run-limit (step s c) cs ∙ step-limit s c

-- From a configured breaker, after fewer than 2^64 calls in any order and on any URLs: a half-open
-- circuit counts exactly the permits that callers still hold in its current epoch, and they are at
-- most the configured number of probes (at least one).
pub permits_bounded :
    (threshold cooldown probes : ℕ) (calls : List Call)
    → length calls < 2 ^ 64
    → let s = run (start threshold cooldown probes) calls in
      (u : String) (x : UrlState)
      → lookup u s.breaker.states ≡ some x
      → x.state ≡ half_open
      → (x.half_open_probes ≡ permits s.cleanups u x.address x.probe_epoch)
        × (permits s.cleanups u x.address x.probe_epoch ≤ max 1 probes)
permits_bounded threshold cooldown probes calls short u x at half =
    let v =
      run-Inv 0 (start threshold cooldown probes) calls (omega arith)
        (start-Inv threshold cooldown probes) in
    let counted = v.counted u x at half in
    let limit : (start threshold cooldown probes).breaker.half_open_probes ≤ max 1 probes =
      unfold with_half_open_probes new in ground arith in
    (
      counted,
      omega (
        arith,
        counted,
        v.capped u x at half,
        limit,
        run-limit (start threshold cooldown probes) calls,
      ),
    )
