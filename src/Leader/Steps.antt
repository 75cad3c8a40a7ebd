-- ===== src/Leader/Steps.antt =====
-- leader.go: every step keeps the invariant of the electors and the lock.
use cronlite.Base.{
  ℕ, ◌≡◌, refl, sym, ap, ◌∙◌, true, false, Option, none, some, arith, nat_beq, nat_beq_iff,
  if-intro, Bool-cases, inl, inr,
}
use mathlib.Core.Path.{subst, fun_ext}
use cronlite.Leader.{
  Phase, idle, asking, leading, demoting, Session, pooled, in_use, closed, System, put, is_pooled,
  is_closed, free_for, release, Reason,
}
use cronlite.Leader.Safety.{uses, owns, is_in_use, has_lock, Inv, Move, moved, move-Inv}

pub put_same {ℓ} : {A : Type ℓ} (f : ℕ → A) (k : ℕ) (a : A) → f k ≡ a → put f k a ≡ f
put_same f k a e = fun_ext (λ i.
    if-intro (λ x. x ≡ f i) (nat_beq k i) a (f i) (λ b. sym e ∙ ap f ((nat_beq_iff k i).0 b))
      (λ b. refl))

-- Nothing changes but what is written again.
pub same-Inv :
    (σ : System) (p : ℕ) (ph : Phase)
    → σ.phase p ≡ ph
    → Inv σ
    → Inv (record { phase = put σ.phase p ph; session = σ.session; holder = σ.holder })
same-Inv σ p ph e inv =
    subst (λ f. Inv (record { phase = f; session = σ.session; holder = σ.holder }))
      (sym (put_same σ.phase p ph e)) inv

-- A move that leaves the session as it is.
stay-Inv :
    (σ : System) (p : ℕ) (ph : Phase) (s : ℕ) (h : Option ℕ)
    → Inv σ
    → Move σ p ph s (σ.session s) h
    → Inv (record { phase = put σ.phase p ph; session = σ.session; holder = h })
stay-Inv σ p ph s h inv m =
    subst (λ f. Inv (record { phase = put σ.phase p ph; session = f; holder = h }))
      (put_same σ.session s (σ.session s) refl) (move-Inv σ p ph s (σ.session s) h inv m)

-- The session of an elector is no other's.
alone :
    (σ : System) (p s q : ℕ)
    → Inv σ
    → uses (σ.phase p) s ≡ true
    → nat_beq p q ≡ false
    → uses (σ.phase q) s ≡ false
alone σ p s q inv u other = elim (Bool-cases (uses (σ.phase q) s)) [
  | inl v ↦ absurd (ground (arith, other, inv.apart p q s u v))
  | inr v ↦ v
]

-- An elector lets go of its session.
pub leave-Inv :
    (σ : System) (p s : ℕ) (st : Session) (h : Option ℕ)
    → Inv σ
    → uses (σ.phase p) s ≡ true
    → (is_pooled st ≡ true → has_lock h s ≡ false)
    → ((t : ℕ) → nat_beq s t ≡ false → has_lock h t ≡ has_lock σ.holder t)
    → Inv (moved σ p idle s st h)
leave-Inv σ p s st h inv u left same = move-Inv σ p idle s st h inv (record {
  only = λ t n. absurd (ground (arith, n));
  own = λ q n. alone σ p s q inv u n;
  out = λ n. absurd (ground (arith, n));
  granted = λ n i. absurd (ground (arith, n));
  left = left;
  unasked = λ n. absurd (ground (arith, n));
  same = same;
})

pub connect-Inv :
    (σ : System) (p s : ℕ)
    → Inv σ
    → is_pooled (σ.session s) ≡ true
    → Inv (moved σ p (asking s) s in_use σ.holder)
connect-Inv σ p s inv free = move-Inv σ p (asking s) s in_use σ.holder inv (record {
  only = λ t n. n;
  own = λ q n. elim (Bool-cases (uses (σ.phase q) s)) [
    | inl v ↦ absurd (ground (arith, free, inv.used q s v))
    | inr v ↦ v
  ];
  out = λ n. refl;
  granted = λ n i. absurd (ground (arith, n));
  left = λ n. absurd (ground (arith, n));
  unasked = λ n. inv.clean s free;
  same = λ t n. refl;
})

pub granted_same :
    (s t : ℕ) (h : Option ℕ)
    → free_for s h ≡ true
    → nat_beq s t ≡ false
    → has_lock (some s) t ≡ has_lock h t
granted_same s t none f n = n
granted_same s t (some u) f n = ground (arith, f, n)

pub lead-Inv :
    (σ : System) (p s : ℕ)
    → Inv σ
    → uses (σ.phase p) s ≡ true
    → free_for s σ.holder ≡ true
    → Inv (record { phase = put σ.phase p (leading s); session = σ.session; holder = some s })
lead-Inv σ p s inv u free = stay-Inv σ p (leading s) s (some s) inv (record {
  only = λ t n. n;
  own = λ q n. alone σ p s q inv u n;
  out = λ n. inv.used p s u;
  granted = λ n i. (nat_beq_iff s s).1 refl;
  left = λ n. absurd (ground (arith, n, inv.used p s u));
  unasked = λ n. absurd (ground (arith, n));
  same = λ t n. granted_same s t σ.holder free n;
})

pub demote-Inv :
    (σ : System) (p s : ℕ) (r : Reason)
    → Inv σ
    → σ.phase p ≡ leading s
    → Inv (record { phase = put σ.phase p (demoting s r); session = σ.session; holder = σ.holder })
demote-Inv σ p s r inv e =
    let mine : nat_beq s s ≡ true = (nat_beq_iff s s).1 refl in
    let u : uses (σ.phase p) s ≡ true = ap (λ x. uses x s) e ∙ mine in
    let o : owns (σ.phase p) s ≡ true = ap (λ x. owns x s) e ∙ mine in
    stay-Inv σ p (demoting s r) s σ.holder inv (record {
      only = λ t n. n;
      own = λ q n. alone σ p s q inv u n;
      out = λ n. inv.used p s u;
      granted = λ n i. inv.held p s o i;
      left = λ n. absurd (ground (arith, n, inv.used p s u));
      unasked = λ n. absurd (ground (arith, n));
      same = λ t n. refl;
    })

pub die-Inv : (σ : System) (s : ℕ) → Inv σ → Inv (record σ { session = put σ.session s closed })
die-Inv σ s inv = record {
  apart = inv.apart;
  used = λ p t u.
      if-intro (λ x. is_pooled x ≡ false) (nat_beq s t) closed (σ.session t) (λ b. refl)
        (λ b. inv.used p t u);
  held = λ p t o.
      if-intro (λ x. is_in_use x ≡ true → has_lock σ.holder t ≡ true) (nat_beq s t) closed
        (σ.session t) (λ b i. absurd (ground (arith, i))) (λ b i. inv.held p t o i);
  clean = λ t.
      if-intro (λ x. is_pooled x ≡ true → has_lock σ.holder t ≡ false) (nat_beq s t) closed
        (σ.session t) (λ b i. absurd (ground (arith, i))) (λ b i. inv.clean t i);
  unheld = inv.unheld;
}

released_other :
    (s t : ℕ) (h : Option ℕ) → nat_beq s t ≡ false → has_lock (release s h) t ≡ has_lock h t
released_other s t none n = refl
released_other s t (some u) n =
    if-intro (λ x. has_lock x t ≡ nat_beq u t) (nat_beq s u) none (some u)
      (λ b. ground (arith, b, n)) (λ b. refl)

released_false : (s t : ℕ) (h : Option ℕ) → has_lock h t ≡ false → has_lock (release s h) t ≡ false
released_false s t none n = refl
released_false s t (some u) n =
    if-intro (λ x. has_lock x t ≡ false) (nat_beq s u) none (some u) (λ b. refl) (λ b. n)

closed_unused : (x : Session) → is_closed x ≡ true → is_in_use x ≡ false
closed_unused pooled h = refl
closed_unused in_use h = absurd (ground (arith, h))
closed_unused closed h = refl

pub release-Inv :
    (σ : System) (s : ℕ)
    → is_closed (σ.session s) ≡ true
    → Inv σ
    → Inv (record σ { holder = release s σ.holder })
release-Inv σ s shut inv = record {
  apart = inv.apart;
  used = inv.used;
  held = λ p t o i. elim (Bool-cases (nat_beq s t)) [
    | inl b ↦ absurd (
        ground (
          arith,
          i,
          closed_unused (σ.session t)
              (ap (λ k. is_closed (σ.session k)) (sym ((nat_beq_iff s t).0 b)) ∙ shut),
        ))
    | inr b ↦ released_other s t σ.holder b ∙ inv.held p t o i
  ];
  clean = λ t i. released_false s t σ.holder (inv.clean t i);
  unheld = λ p t w. released_false s t σ.holder (inv.unheld p t w);
}
