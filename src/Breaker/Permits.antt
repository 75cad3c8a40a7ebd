-- ===== src/Breaker/Permits.antt =====
-- The half-open permits of breaker.go: the counter of a circuit against the cleanups still held.
use text.Mathlib.TextEquality.{eq_iff}
use cronlite.Base.{
  ℕ, zero, suc, ◌+◌, ◌^◌, ◌≤◌, ◌<◌, ◌≡◌, refl, ◌⊎◌, inl, inr, String, true, false, some, List, [],
  ◌∷◌, arith, get_elem?, lookup, insert, lookup-insert_cases, Option-cases, Bool-cases, text_key,
  ltb, leb, ◌-◌,
}
use cronlite.Breaker.{
  State, closed, open_, half_open, UrlState, CancelProbe, cancel_of, first_probe, next_probe, admit,
  allow_with_cancel, holds_permit,
}
use cronlite.Breaker.System.{System, allows, replace, step, permits, weight, keep}

-- `n` bounds the epochs reached so far.
pub record Inv (n : ℕ) (s : System) : Type 0 where
  pub counted :
      (u : String) (x : UrlState)
      → lookup u s.breaker.states ≡ some x
      → x.state ≡ half_open
      → x.half_open_probes ≡ permits s.cleanups u x.address x.probe_epoch
  pub capped :
      (u : String) (x : UrlState)
      → lookup u s.breaker.states ≡ some x
      → x.state ≡ half_open
      → x.half_open_probes ≤ s.breaker.half_open_probes
  pub future :
      (u : String) (x : UrlState) (e : ℕ)
      → lookup u s.breaker.states ≡ some x
      → x.probe_epoch < e
      → permits s.cleanups u x.address e ≡ 0
  pub fresh : (u : String) (a e : ℕ) → s.breaker.next_address ≤ a → permits s.cleanups u a e ≡ 0
  pub below :
      (u : String) (x : UrlState)
      → lookup u s.breaker.states ≡ some x
      → x.address < s.breaker.next_address
  pub epochs : (u : String) (x : UrlState) → lookup u s.breaker.states ≡ some x → x.probe_epoch ≤ n
  pub limit : 1 ≤ s.breaker.half_open_probes

pub later : {n : ℕ} {s : System} → Inv n s → Inv (suc n) s
later v = record {
  counted = v.counted;
  capped = v.capped;
  future = v.future;
  fresh = v.fresh;
  below = v.below;
  epochs = λ u x h. ground (arith, v.epochs u x h);
  limit = v.limit;
}

-- Admitting a probe under the state `y` of the circuit `x` at `url`.
probe-Inv :
    (n : ℕ) (s : System) (url : String) (x y : UrlState)
    → Inv n s
    → lookup url s.breaker.states ≡ some x
    → y.address ≡ x.address
    → x.probe_epoch ≤ y.probe_epoch
    → y.probe_epoch ≤ suc n
    → y.half_open_probes ≡ suc (permits s.cleanups url x.address y.probe_epoch)
    → y.half_open_probes ≤ s.breaker.half_open_probes
    → Inv (suc n) (record {
      breaker = record s.breaker { states = insert url y s.breaker.states };
      cleanups = cancel_of url y ∷ s.cleanups;
    })
unfolding permits
probe-Inv n s url x y v at same later small one more = record {
  counted = λ u z h hz. elim (lookup-insert_cases url u y z s.breaker.states h) [
    | inl (p, q) ↦ ground (arith, eq_iff url u)
    | inr (p, q) ↦ ground (arith, v.counted u z q hz)
  ];
  capped = λ u z h hz. elim (lookup-insert_cases url u y z s.breaker.states h) [
    | inl (p, q) ↦ ground arith
    | inr (p, q) ↦ v.capped u z q hz
  ];
  future = λ u z e h lt. elim (lookup-insert_cases url u y z s.breaker.states h) [
    | inl (p, q) ↦ ground (arith, v.future url x e at)
    | inr (p, q) ↦ ground (arith, v.future u z e q lt)
  ];
  fresh = λ u a e h. ground (arith, v.fresh u a e h, v.below url x at);
  below = λ u z h. elim (lookup-insert_cases url u y z s.breaker.states h) [
    | inl (p, q) ↦ ground (arith, v.below url x at)
    | inr (p, q) ↦ v.below u z q
  ];
  epochs = λ u z h. elim (lookup-insert_cases url u y z s.breaker.states h) [
    | inl (p, q) ↦ ground arith
    | inr (p, q) ↦ ground (arith, v.epochs u z q)
  ];
  limit = v.limit;
}

admit-Inv :
    (n now : ℕ) (s : System) (url : String) (x : UrlState) (st : State)
    → n < 2 ^ 64 - 1
    → Inv n s
    → lookup url s.breaker.states ≡ some x
    → x.state ≡ st
    → let (cb, a) = admit st s.breaker now url x in
      Inv (suc n) (record { breaker = cb; cleanups = keep s.cleanups a })
unfolding admit
admit-Inv n now s url x closed small v at is = later v
admit-Inv n now s url x open_ small v at is =
    elim (Bool-cases (leb (x.opened_at + s.breaker.cooldown) now)) [
      | inl due ↦ rw due (
          probe-Inv n s url x (first_probe x) v at refl (ground (arith, v.epochs url x at))
            (ground (arith, v.epochs url x at))
            (ground (arith, v.epochs url x at, v.future url x (suc x.probe_epoch) at)) v.limit)
      | inr early ↦ rw early (later v)
    ]
admit-Inv n now s url x half_open small v at is =
    elim (Bool-cases (ltb x.half_open_probes s.breaker.half_open_probes)) [
      | inl room ↦ rw room (
          probe-Inv n s url x (next_probe x) v at refl (ground arith)
            (ground (arith, v.epochs url x at)) (ground (arith, v.counted url x at is))
            (ground arith))
      | inr full ↦ rw full (later v)
    ]

pub allow-Inv :
    (n now : ℕ) (s : System) (url : String)
    → n < 2 ^ 64 - 1
    → Inv n s
    → Inv (suc n) (step s (allows now url))
unfolding step allow_with_cancel
allow-Inv n now s url small v = elim (Option-cases (lookup url s.breaker.states)) [
  | inl missing ↦ rw (missing, allow_with_cancel) (later v)
  | inr (x, at) ↦ rw (at, allow_with_cancel) (admit-Inv n now s url x x.state small v at refl)
]

permits-replace :
    (i : ℕ) (c c' : CancelProbe) (cs : List CancelProbe) (u : String) (a e : ℕ)
    → get_elem? cs i ≡ some c
    → weight u a e c + permits (replace i c' cs) u a e ≡ weight u a e c' + permits cs u a e
unfolding permits
permits-replace i c c' [] u a e h = ground arith
permits-replace zero c c' (x ∷ cs) u a e h = ground arith
permits-replace (suc i) c c' (x ∷ cs) u a e h = ground (arith, permits-replace i c c' cs u a e h)

-- Marking a cleanup as run only takes permits away.
permits-fired :
    (i : ℕ) (c : CancelProbe) (cs : List CancelProbe) (u : String) (a e : ℕ)
    → get_elem? cs i ≡ some c
    → weight u a e c + permits (replace i (record c { fired = true }) cs) u a e ≡ permits cs u a e
permits-fired i c cs u a e h =
    ground (arith, permits-replace i c (record c { fired = true }) cs u a e h)

-- A cleanup that frees nothing in the circuits leaves the counts as they are.
pub idle-Inv :
    (n i : ℕ) (s : System) (c : CancelProbe)
    → Inv n s
    → get_elem? s.cleanups i ≡ some c
    → ((x : UrlState)
        → lookup c.url s.breaker.states ≡ some x
        → (c.fired ≡ true) ⊎ (holds_permit c x ≡ false))
    → Inv n (record s { cleanups = replace i (record c { fired = true }) s.cleanups })
idle-Inv n i s c v at none_held = record {
  counted = λ u x h hz. ground (
    arith,
    v.counted u x h hz,
    permits-fired i c s.cleanups u x.address x.probe_epoch at,
    eq_iff c.url u,
    none_held x,
  );
  capped = v.capped;
  future = λ u x e h lt.
      ground (arith, v.future u x e h lt, permits-fired i c s.cleanups u x.address e at);
  fresh = λ u a e h. ground (arith, v.fresh u a e h, permits-fired i c s.cleanups u a e at);
  below = v.below;
  epochs = v.epochs;
  limit = v.limit;
}

-- A cleanup that has not run and whose circuit meets its conditions gives one permit back.
pub freed-Inv :
    (n i : ℕ) (s : System) (c : CancelProbe) (x : UrlState)
    → Inv n s
    → get_elem? s.cleanups i ≡ some c
    → lookup c.url s.breaker.states ≡ some x
    → c.fired ≡ false
    → holds_permit c x ≡ true
    → Inv n (record {
      breaker = record s.breaker {
        states =
            insert c.url (record x { half_open_probes = x.half_open_probes - 1 }) s.breaker.states;
      };
      cleanups = replace i (record c { fired = true }) s.cleanups;
    })
freed-Inv n i s c x v at here live held = record {
  counted = λ u z h hz. elim (lookup-insert_cases c.url u y z s.breaker.states h) [
    | inl (p, q) ↦ ground (
      arith,
      v.counted c.url x here,
      permits-fired i c s.cleanups u z.address z.probe_epoch at,
      eq_iff c.url u,
    )
    | inr (p, q) ↦
        ground
          (arith, v.counted u z q hz, permits-fired i c s.cleanups u z.address z.probe_epoch at)
  ];
  capped = λ u z h hz. elim (lookup-insert_cases c.url u y z s.breaker.states h) [
    | inl (p, q) ↦ ground (arith, v.capped c.url x here)
    | inr (p, q) ↦ v.capped u z q hz
  ];
  future = λ u z e h lt. elim (lookup-insert_cases c.url u y z s.breaker.states h) [
    | inl (p, q) ↦
        ground (arith, v.future c.url x e here, permits-fired i c s.cleanups u z.address e at)
    | inr (p, q) ↦
        ground (arith, v.future u z e q lt, permits-fired i c s.cleanups u z.address e at)
  ];
  fresh = λ u a e h. ground (arith, v.fresh u a e h, permits-fired i c s.cleanups u a e at);
  below = λ u z h. elim (lookup-insert_cases c.url u y z s.breaker.states h) [
    | inl (p, q) ↦ ground (arith, v.below c.url x here)
    | inr (p, q) ↦ v.below u z q
  ];
  epochs = λ u z h. elim (lookup-insert_cases c.url u y z s.breaker.states h) [
    | inl (p, q) ↦ ground (arith, v.epochs c.url x here)
    | inr (p, q) ↦ v.epochs u z q
  ];
  limit = v.limit;
}
  where
    y : UrlState
    y = record x { half_open_probes = x.half_open_probes - 1 }
