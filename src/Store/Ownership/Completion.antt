-- ===== src/Store/Ownership/Completion.antt =====
-- The number of times that an execution is completed.
use cronlite.Base.{
  ℕ, suc, ◌≤◌, ◌≡◌, refl, inl, inr, Bool, true, false, Option, none, some, List, [], ◌∷◌, arith,
  Option-cases, Bool-cases, nat_beq, if◌then◌else◌, text_key, ◌&&◌,
}
use cronlite.Domain.{Execution, is_terminal}
use cronlite.Store.{Store, StoreError, find, is_owned, complete_execution}
use cronlite.Store.Rows.{IsKeyed, find-update_where}
use cronlite.Store.Effects.{step-Left}
use cronlite.Store.Steps.{Op, claims, completes, step, step-IsKeyed}
use cronlite.Store.Ownership.{Moves-terminal}

-- How many of the statements complete row `i`.
abbrev is_success : Option StoreError → Bool
is_success none = true
is_success (some x) = false

abbrev completes_row : ℕ → Store → Op → Bool
completes_row i s (completes now id ns generation status) =
    nat_beq id i && is_success (complete_execution s now id ns generation status).1
completes_row i s _ = false

unfoldable pub completions : ℕ → Store → List Op → ℕ
completions i s [] = 0
completions i s (op ∷ ops) =
    let rest = completions i (step s op) ops in if completes_row i s op then suc rest else rest

terminal-not_completed :
    (s : Store) (op : Op) (i : ℕ) (e : Execution)
    → find i s.executions ≡ some e
    → is_terminal e.status ≡ true
    → completes_row i s op ≡ false
unfolding complete_execution
terminal-not_completed s (completes now id ns generation status) i e h final =
    elim (Bool-cases (nat_beq id i)) [
      | inl this ↦ let at : find id s.executions ≡ some e = ground arith in ground (arith, at)
      | inr other ↦ rw other
    ]
terminal-not_completed s (claims now id ns) i e h final = refl
terminal-not_completed s _ i e h final = refl

terminal-completions :
    (s : Store) (ops : List Op) (i : ℕ) (e : Execution)
    → IsKeyed s.executions
    → find i s.executions ≡ some e
    → is_terminal e.status ≡ true
    → completions i s ops ≡ 0
unfolding completions
terminal-completions s [] i e keyed h final = refl
terminal-completions s (op ∷ ops) i e keyed h final =
    let (e', h', m) = step-Left s op i e keyed h in
    let still : is_terminal e'.status ≡ true = ground (arith, Moves-terminal s op e e' final m) in
    ground (
      arith,
      terminal-not_completed s op i e h final,
      terminal-completions (step s op) ops i e' (step-IsKeyed s op keyed) h' still,
    )

completed-terminal :
    (s : Store) (op : Op) (i : ℕ)
    → completes_row i s op ≡ true
    → (e : Execution) × (find i (step s op).executions ≡ some e) × (is_terminal e.status ≡ true)
unfolding step complete_execution
completed-terminal s (completes now id ns generation status) i h =
    elim (Option-cases (find id s.executions)) [
      | inl missing ↦ absurd (ground arith)
      | inr (e, at) ↦ (
        record e { status = status; lease_until = none },
        ground (
          arith,
          find-update_where i (is_owned now id ns generation)
              (λ r. record r { status = status; lease_until = none }) s.executions (λ r. refl),
        ),
        ground arith,
      )
    ]
completed-terminal s (claims now id ns) i h = ground arith
completed-terminal s _ i h = ground arith

-- However the statements that insert and update executions interleave, an execution is completed at
-- most once.
pub completed_once :
    (s : Store) (ops : List Op) (i : ℕ) → IsKeyed s.executions → completions i s ops ≤ 1
unfolding completions
completed_once s [] i keyed = omega arith
completed_once s (op ∷ ops) i keyed = elim (Bool-cases (completes_row i s op)) [
  | inl done ↦
      let (e, at, final) = completed-terminal s op i done in
      rw done
        (omega (arith, terminal-completions (step s op) ops i e (step-IsKeyed s op keyed) at final))
  | inr other ↦ rw other (completed_once (step s op) ops i (step-IsKeyed s op keyed))
]
