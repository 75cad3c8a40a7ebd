-- ===== src/Leader/Safety.antt =====
-- leader.go: at most one elector leads on a live session.
use cronlite.Base.{
  ℕ, ◌≡◌, sym, ap, ◌∙◌, Bool, true, false, Option, none, some, arith, nat_beq, nat_beq_iff,
  if-intro, Bool-cases, inl, inr,
}
use cronlite.Leader.{
  Phase, idle, asking, leading, demoting, Session, in_use, System, put, is_pooled,
}

-- Whether an elector's code has the session, and whether it has had the lock in it.
abbrev pub uses : Phase → ℕ → Bool
uses idle s = false
uses (asking t) s = nat_beq t s
uses (leading t) s = nat_beq t s
uses (demoting t r) s = nat_beq t s

abbrev pub owns : Phase → ℕ → Bool
owns (leading t) s = nat_beq t s
owns (demoting t r) s = nat_beq t s
owns p s = false

abbrev pub waits : Phase → ℕ → Bool
waits (asking t) s = nat_beq t s
waits p s = false

abbrev pub is_in_use : Session → Bool
is_in_use in_use = true
is_in_use s = false

abbrev pub has_lock : Option ℕ → ℕ → Bool
has_lock none s = false
has_lock (some t) s = nat_beq t s

pub record Inv (σ : System) : Type 0 where
  pub apart :
      (p q s : ℕ) → uses (σ.phase p) s ≡ true → uses (σ.phase q) s ≡ true → nat_beq p q ≡ true
  pub used : (p s : ℕ) → uses (σ.phase p) s ≡ true → is_pooled (σ.session s) ≡ false
  pub held :
      (p s : ℕ)
      → owns (σ.phase p) s ≡ true
      → is_in_use (σ.session s) ≡ true
      → has_lock σ.holder s ≡ true
  pub clean : (s : ℕ) → is_pooled (σ.session s) ≡ true → has_lock σ.holder s ≡ false
  pub unheld : (p s : ℕ) → waits (σ.phase p) s ≡ true → has_lock σ.holder s ≡ false

-- An elector's move: its phase, one session, and whether that session has the lock.
abbrev pub moved : System → ℕ → Phase → ℕ → Session → Option ℕ → System
moved σ p ph s st h = record { phase = put σ.phase p ph; session = put σ.session s st; holder = h }

pub record Move (σ : System) (p : ℕ) (ph : Phase) (s : ℕ) (st : Session) (h : Option ℕ)
    : Type 0 where
  pub only : (t : ℕ) → uses ph t ≡ true → nat_beq s t ≡ true
  pub own : (q : ℕ) → nat_beq p q ≡ false → uses (σ.phase q) s ≡ false
  pub out : uses ph s ≡ true → is_pooled st ≡ false
  pub granted : owns ph s ≡ true → is_in_use st ≡ true → has_lock h s ≡ true
  pub left : is_pooled st ≡ true → has_lock h s ≡ false
  pub unasked : waits ph s ≡ true → has_lock h s ≡ false
  pub same : (t : ℕ) → nat_beq s t ≡ false → has_lock h t ≡ has_lock σ.holder t

beq_sym : (a b : ℕ) → nat_beq a b ≡ true → nat_beq b a ≡ true
beq_sym a b h = ground (arith, h)

beq_trans : (a b c : ℕ) → nat_beq a b ≡ true → nat_beq b c ≡ true → nat_beq a c ≡ true
beq_trans a b c h k = ground (arith, h, k)

owns-uses : (ph : Phase) (s : ℕ) → owns ph s ≡ true → uses ph s ≡ true
owns-uses idle s h = absurd (ground (arith, h))
owns-uses (asking t) s h = absurd (ground (arith, h))
owns-uses (leading t) s h = h
owns-uses (demoting t r) s h = h

waits-uses : (ph : Phase) (s : ℕ) → waits ph s ≡ true → uses ph s ≡ true
waits-uses idle s h = absurd (ground (arith, h))
waits-uses (asking t) s h = h
waits-uses (leading t) s h = absurd (ground (arith, h))
waits-uses (demoting t r) s h = absurd (ground (arith, h))

module _ (σ : System) (p : ℕ) (ph : Phase) (s : ℕ) (st : Session) (h : Option ℕ) (inv : Inv σ)
    (m : Move σ p ph s st h) where
  -- No other elector has the session of the move.
  clash :
      (r t : ℕ) → nat_beq p r ≡ false → uses ph t ≡ true → uses (σ.phase r) t ≡ true → false ≡ true
  clash r t other u v =
      sym (m.own r other) ∙ (ap (uses (σ.phase r)) ((nat_beq_iff s t).0 (m.only t u)) ∙ v)

  away : (q t : ℕ) → nat_beq p q ≡ false → uses (σ.phase q) t ≡ true → nat_beq s t ≡ false
  away q t other u = elim (Bool-cases (nat_beq s t)) [
    | inl b ↦
        absurd (
          ground (arith, sym (m.own q other) ∙ (ap (uses (σ.phase q)) ((nat_beq_iff s t).0 b) ∙ u)))
    | inr b ↦ b
  ]

  -- What holds of a session that is not of the move, and of that of the move.
  by_session {κ} :
      (P : Session → Type κ) (t : ℕ)
      → (nat_beq s t ≡ true → P st)
      → (nat_beq s t ≡ false → P (σ.session t))
      → P (put σ.session s st t)
  by_session P t f g = if-intro P (nat_beq s t) st (σ.session t) f g

  by_phase {κ} :
      (P : Phase → Type κ) (q : ℕ)
      → (nat_beq p q ≡ true → P ph)
      → (nat_beq p q ≡ false → P (σ.phase q))
      → P (put σ.phase p ph q)
  by_phase P q f g = if-intro P (nat_beq p q) ph (σ.phase q) f g

  move-apart :
      (q r t : ℕ)
      → uses (put σ.phase p ph q) t ≡ true
      → uses (put σ.phase p ph r) t ≡ true
      → nat_beq q r ≡ true
  move-apart q r t =
      by_phase (λ x. uses x t ≡ true → uses (put σ.phase p ph r) t ≡ true → nat_beq q r ≡ true) q
        (λ b u.
          by_phase (λ x. uses x t ≡ true → nat_beq q r ≡ true) r
            (λ c v. beq_trans q p r (beq_sym p q b) c)
            (λ c v. absurd (ground (arith, clash r t c u v))))
        (λ b u.
          by_phase (λ x. uses x t ≡ true → nat_beq q r ≡ true) r
            (λ c v. absurd (ground (arith, clash q t b v u))) (λ c v. inv.apart q r t u v))

  move-used :
      (q t : ℕ) → uses (put σ.phase p ph q) t ≡ true → is_pooled (put σ.session s st t) ≡ false
  move-used q t =
      by_phase (λ x. uses x t ≡ true → is_pooled (put σ.session s st t) ≡ false) q
        (λ b u.
          by_session (λ x. is_pooled x ≡ false) t
            (λ c. m.out (ap (uses ph) ((nat_beq_iff s t).0 c) ∙ u))
            (λ c. absurd (ground (arith, c, m.only t u))))
        (λ b u.
          by_session (λ x. is_pooled x ≡ false) t (λ c. absurd (ground (arith, c, away q t b u)))
            (λ c. inv.used q t u))

  move-held :
      (q t : ℕ)
      → owns (put σ.phase p ph q) t ≡ true
      → is_in_use (put σ.session s st t) ≡ true
      → has_lock h t ≡ true
  move-held q t =
      by_phase
        (λ x. owns x t ≡ true → is_in_use (put σ.session s st t) ≡ true → has_lock h t ≡ true) q
        (λ b o.
          let e = (nat_beq_iff s t).0 (m.only t (owns-uses ph t o)) in
          by_session (λ x. is_in_use x ≡ true → has_lock h t ≡ true) t
            (λ c i. sym (ap (has_lock h) e) ∙ m.granted (ap (owns ph) e ∙ o) i)
            (λ c i. absurd (ground (arith, c, m.only t (owns-uses ph t o)))))
        (λ b o.
          let apart = away q t b (owns-uses (σ.phase q) t o) in
          by_session (λ x. is_in_use x ≡ true → has_lock h t ≡ true) t
            (λ c i. absurd (ground (arith, c, apart))) (λ c i. m.same t apart ∙ inv.held q t o i))

  move-clean : (t : ℕ) → is_pooled (put σ.session s st t) ≡ true → has_lock h t ≡ false
  move-clean t =
      by_session (λ x. is_pooled x ≡ true → has_lock h t ≡ false) t
        (λ c i. sym (ap (has_lock h) ((nat_beq_iff s t).0 c)) ∙ m.left i)
        (λ c i. m.same t c ∙ inv.clean t i)

  move-unheld : (q t : ℕ) → waits (put σ.phase p ph q) t ≡ true → has_lock h t ≡ false
  move-unheld q t =
      by_phase (λ x. waits x t ≡ true → has_lock h t ≡ false) q
        (λ b o.
          let e = (nat_beq_iff s t).0 (m.only t (waits-uses ph t o)) in
          sym (ap (has_lock h) e) ∙ m.unasked (ap (waits ph) e ∙ o))
        (λ b o.
          let apart = away q t b (waits-uses (σ.phase q) t o) in m.same t apart ∙ inv.unheld q t o)

  pub move-Inv : Inv (moved σ p ph s st h)
  move-Inv = record {
    apart = move-apart;
    used = move-used;
    held = move-held;
    clean = move-clean;
    unheld = move-unheld;
  }
