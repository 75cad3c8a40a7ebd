-- ===== src/Leader/Election.antt =====
-- leader.go: elections. At most one elector leads on a live session, whatever happens.
use cronlite.Base.{
  ℕ, ◌≡◌, refl, sym, ap, ◌∙◌, Bool, true, false, ◌&&◌, Option, none, some, List, [], ◌∷◌, arith,
  nat_beq, nat_beq_iff, if-intro,
}
use cronlite.Leader.{
  Phase, idle, asking, leading, demoting, in_use, closed, System, new_system, put, is_pooled,
  is_closed, is_idle, returned, free_for, react, deliver, step, run, Label, refuses, connects, asks,
  loses, demotes, dies, releases, Reason, no_connection, connection, lock_error, lock_answer,
  lock_lost, demoted, on_event, ask, lock_event,
}
use cronlite.Leader.Safety.{uses, owns, waits, is_in_use, has_lock, Inv}
use cronlite.Leader.Steps.{
  same-Inv, leave-Inv, connect-Inv, lead-Inv, demote-Inv, die-Inv, release-Inv, granted_same,
}
use mathlib.Core.Path.{subst}

uses_self :
    (σ : System) (p s : ℕ) (ph : Phase)
    → σ.phase p ≡ ph
    → uses ph s ≡ true
    → uses (σ.phase p) s ≡ true
uses_self σ p s ph e u = ap (λ x. uses x s) e ∙ u

no_connection-Inv :
    (σ : System) (p : ℕ) (ph : Phase)
    → σ.phase p ≡ ph
    → Inv σ
    → Inv (react p (on_event ph no_connection) σ)
unfolding on_event
no_connection-Inv σ p idle e inv = same-Inv σ p idle e inv
no_connection-Inv σ p (asking s) e inv = same-Inv σ p (asking s) e inv
no_connection-Inv σ p (leading s) e inv = same-Inv σ p (leading s) e inv
no_connection-Inv σ p (demoting s r) e inv = same-Inv σ p (demoting s r) e inv

connection-Inv :
    (σ : System) (p s : ℕ) (ph : Phase)
    → is_idle ph ≡ true
    → is_pooled (σ.session s) ≡ true
    → Inv σ
    → Inv (react p (on_event ph (connection s)) (record σ { session = put σ.session s in_use }))
unfolding on_event
connection-Inv σ p s idle i free inv = connect-Inv σ p s inv free
connection-Inv σ p s (asking t) i free inv = absurd (ground (arith, i))
connection-Inv σ p s (leading t) i free inv = absurd (ground (arith, i))
connection-Inv σ p s (demoting t r) i free inv = absurd (ground (arith, i))

lock_lost-Inv :
    (σ : System) (p : ℕ) (r : Reason) (ph : Phase)
    → σ.phase p ≡ ph
    → Inv σ
    → Inv (react p (on_event ph (lock_lost r)) σ)
unfolding on_event
lock_lost-Inv σ p r idle e inv = same-Inv σ p idle e inv
lock_lost-Inv σ p r (asking s) e inv = same-Inv σ p (asking s) e inv
lock_lost-Inv σ p r (leading s) e inv = demote-Inv σ p s r inv e
lock_lost-Inv σ p r (demoting s q) e inv = same-Inv σ p (demoting s q) e inv

demoted-Inv :
    (σ : System) (p : ℕ) (panics : Bool) (ph : Phase)
    → σ.phase p ≡ ph
    → Inv σ
    → Inv (react p (on_event ph (demoted panics)) σ)
unfolding on_event
demoted-Inv σ p panics idle e inv = same-Inv σ p idle e inv
demoted-Inv σ p panics (asking s) e inv = same-Inv σ p (asking s) e inv
demoted-Inv σ p panics (leading s) e inv = same-Inv σ p (leading s) e inv
demoted-Inv σ p panics (demoting s r) e inv =
    leave-Inv σ p s closed σ.holder inv
      (uses_self σ p s (demoting s r) e ((nat_beq_iff s s).1 refl))
      (λ n. absurd (ground (arith, n))) (λ t n. refl)

-- The three ways that the query for the lock ends, in an elector that asks.
asked_error :
    (σ : System) (p s : ℕ) (ph : Phase) (h : Option ℕ)
    → σ.phase p ≡ asking s
    → ph ≡ asking s
    → Inv σ
    → ((t : ℕ) → nat_beq s t ≡ false → has_lock h t ≡ has_lock σ.holder t)
    → Inv (react p (on_event ph lock_error) (record σ { holder = h }))
unfolding on_event
asked_error σ p s ph h e f inv same =
    subst (λ x. Inv (react p (on_event x lock_error) (record σ { holder = h }))) (sym f)
      (leave-Inv σ p s closed h inv (uses_self σ p s (asking s) e ((nat_beq_iff s s).1 refl))
        (λ n. absurd (ground (arith, n))) same)

asked_granted :
    (σ : System) (p s : ℕ) (ph : Phase)
    → σ.phase p ≡ asking s
    → ph ≡ asking s
    → Inv σ
    → free_for s σ.holder ≡ true
    → Inv (react p (on_event ph (lock_answer true)) (record σ { holder = some s }))
unfolding on_event
asked_granted σ p s ph e f inv free =
    subst (λ x. Inv (react p (on_event x (lock_answer true)) (record σ { holder = some s })))
      (sym f) (lead-Inv σ p s inv (uses_self σ p s (asking s) e ((nat_beq_iff s s).1 refl)) free)

asked_refused :
    (σ : System) (p s : ℕ) (ph : Phase)
    → σ.phase p ≡ asking s
    → ph ≡ asking s
    → Inv σ
    → Inv (react p (on_event ph (lock_answer false)) σ)
unfolding on_event
asked_refused σ p s ph e f inv =
    let mine : nat_beq s s ≡ true = (nat_beq_iff s s).1 refl in
    subst (λ x. Inv (react p (on_event x (lock_answer false)) σ)) (sym f)
      (leave-Inv σ p s (returned (σ.session s)) σ.holder inv (uses_self σ p s (asking s) e mine)
        (λ n. inv.unheld p s (ap (λ x. waits x s) e ∙ mine)) (λ t n. refl))

ask-Inv :
    (σ : System) (p : ℕ) (answered : Bool) (ph : Phase)
    → σ.phase p ≡ ph
    → Inv σ
    → Inv (ask p answered ph σ)
ask-Inv σ p answered idle e inv = inv
ask-Inv σ p answered (leading s) e inv = inv
ask-Inv σ p answered (demoting s r) e inv = inv
ask-Inv σ p answered (asking s) e inv =
    let granted = deliver p (lock_event answered true) (record σ { holder = some s }) in
    let refused = deliver p (lock_event answered false) σ in
    if-intro Inv (is_closed (σ.session s)) _ _
      (λ b. asked_error σ p s (σ.phase p) σ.holder e e inv (λ t n. refl))
      (λ b.
        if-intro Inv (free_for s σ.holder) granted refused (λ c. ask_granted answered c)
          (λ c. ask_refused answered))
  where
    ask_granted :
        (a : Bool)
        → free_for s σ.holder ≡ true
        → Inv (deliver p (lock_event a true) (record σ { holder = some s }))
    ask_granted true c = asked_granted σ p s (σ.phase p) e e inv c
    ask_granted false c =
        asked_error σ p s (σ.phase p) (some s) e e inv (λ t n. granted_same s t σ.holder c n)

    ask_refused : (a : Bool) → Inv (deliver p (lock_event a false) σ)
    ask_refused true = asked_refused σ p s (σ.phase p) e e inv
    ask_refused false = asked_error σ p s (σ.phase p) σ.holder e e inv (λ t n. refl)

pub step-Inv : (l : Label) (σ : System) → Inv σ → Inv (step l σ)
unfolding step
step-Inv (refuses p) σ inv = no_connection-Inv σ p (σ.phase p) refl inv
step-Inv (connects p s) σ inv =
    if-intro Inv (is_idle (σ.phase p) && is_pooled (σ.session s)) _ _
      (λ b. connection-Inv σ p s (σ.phase p) (ground (arith, b)) (ground (arith, b)) inv) (λ b. inv)
step-Inv (asks p answered) σ inv = ask-Inv σ p answered (σ.phase p) refl inv
step-Inv (loses p r) σ inv = lock_lost-Inv σ p r (σ.phase p) refl inv
step-Inv (demotes p panics) σ inv = demoted-Inv σ p panics (σ.phase p) refl inv
step-Inv (dies s) σ inv =
    if-intro Inv (is_pooled (σ.session s)) _ _ (λ b. inv) (λ b. die-Inv σ s inv)
step-Inv (releases s) σ inv =
    if-intro Inv (is_closed (σ.session s)) _ _ (λ b. release-Inv σ s b inv) (λ b. inv)

new-Inv : Inv new_system
new-Inv = record {
  apart = λ p q s u v. absurd (ground (arith, u));
  used = λ p s u. absurd (ground (arith, u));
  held = λ p s o i. absurd (ground (arith, o));
  clean = λ s i. refl;
  unheld = λ p s w. refl;
}

run-Inv : (ls : List Label) (σ : System) → Inv σ → Inv (run ls σ)
unfolding run
run-Inv [] σ inv = inv
run-Inv (l ∷ ls) σ inv = run-Inv ls (step l σ) (step-Inv l σ inv)

both_hold :
    (h : Option ℕ) (s t : ℕ) → has_lock h s ≡ true → has_lock h t ≡ true → nat_beq s t ≡ true
both_hold none s t a b = absurd (ground (arith, a))
both_hold (some u) s t a b = ground (arith, a, b)

-- After any steps of any electors and of the server from the start: two electors that both lead, on
-- sessions that live, are one elector.
pub one_leader :
    (ls : List Label) (p q s t : ℕ)
    → (run ls new_system).phase p ≡ leading s
    → (run ls new_system).phase q ≡ leading t
    → (run ls new_system).session s ≡ in_use
    → (run ls new_system).session t ≡ in_use
    → p ≡ q
one_leader ls p q s t e f i j =
    let σ = run ls new_system in
    let inv : Inv σ = run-Inv ls new_system new-Inv in
    let mine : nat_beq s s ≡ true = (nat_beq_iff s s).1 refl in
    let his : nat_beq t t ≡ true = (nat_beq_iff t t).1 refl in
    let a : has_lock σ.holder s ≡ true =
      inv.held p s (ap (λ x. owns x s) e ∙ mine) (ap is_in_use i) in
    let b : has_lock σ.holder t ≡ true =
      inv.held q t (ap (λ x. owns x t) f ∙ his) (ap is_in_use j) in
    let same : nat_beq t s ≡ true = both_hold σ.holder t s b a in
    (nat_beq_iff p q).0
      (inv.apart p q s (ap (λ x. uses x s) e ∙ mine) (ap (λ x. uses x s) f ∙ same))

-- After any steps of any electors and of the server from the start: a session in the pool does not
-- have the lock.
pub pool_is_clean :
    (ls : List Label) (s : ℕ)
    → is_pooled ((run ls new_system).session s) ≡ true
    → has_lock (run ls new_system).holder s ≡ false
pool_is_clean ls s = (run-Inv ls new_system new-Inv).clean s
