-- ===== src/Store/Steps.antt =====
-- The statements that insert or update executions as the steps of one system, and what every step
-- keeps.

use cronlite.Base.{
  ℕ, ◌≡◌, refl, String, Bool, true, false, Option, none, some, List, [], ◌∷◌, arith, any, ltb,
  if◌then◌else◌, text_key,
}
use cronlite.Domain.{Execution, ExecutionStatus, is_terminal}
use cronlite.Store.{
  Store, update_where, find, conflicts, inserted, insert_execution, claimable, claim_execution,
  is_owned, renew_execution_claim, complete_execution, dequeue_execution, dequeue_executions,
  requeue_expired_executions, is_updatable, update_execution_status, is_ackable, ack_execution,
  duplicate_execution, set_rows, StoreError,
}
use cronlite.Store.Rows.{IsKeyed, update_where-IsKeyed, insert-IsKeyed}

-- A statement that inserts or updates executions, with its arguments; the first number of a timed one
-- is the database clock. The deletion of a job, with its executions, is in Store/Deletion.
pub data Op : Type 0 where
  inserts : Execution → Op
  claims : ℕ → ℕ → String → Op
  renews : ℕ → ℕ → String → ℕ → Op
  completes : ℕ → ℕ → String → ℕ → ExecutionStatus → Op
  dequeues : ℕ → Op
  dequeues_batch : ℕ → ℕ → Op
  requeues : ℕ → ℕ → Op
  updates : ℕ → ExecutionStatus → Op
  acks : ℕ → ℕ → String → Op

unfoldable pub step : Store → Op → Store
step s (inserts e) = (insert_execution s e).0
step s (claims now id ns) = (claim_execution s now id ns).0
step s (renews now id ns generation) = (renew_execution_claim s now id ns generation).0
step s (completes now id ns generation status) =
    (complete_execution s now id ns generation status).0
step s (dequeues now) = (dequeue_execution s now).0
step s (dequeues_batch now limit) = (dequeue_executions s now limit).0
step s (requeues now limit) = (requeue_expired_executions s now limit).0
step s (updates id status) = (update_execution_status s id status).0
step s (acks now id ns) = (ack_execution s now id ns).0

unfoldable pub run : Store → List Op → Store
run s [] = s
run s (op ∷ ops) = run (step s op) ops

pub step-lease_ms : (s : Store) (op : Op) → (step s op).lease_ms ≡ s.lease_ms
unfolding step insert_execution claim_execution renew_execution_claim complete_execution
    dequeue_execution dequeue_executions requeue_expired_executions update_execution_status
    ack_execution
step-lease_ms s (inserts e) = ground arith
step-lease_ms s _ = ground arith

-- A change keeps the columns of the keys of the table.
abbrev pub KeepsKeys : (Execution → Execution) → Type 0
KeepsKeys f =
    (e : Execution)
    → ((f e).id ≡ e.id) × ((f e).job_id ≡ e.job_id) × ((f e).scheduled_at ≡ e.scheduled_at)

-- A property of the table that updates keep and that inserts keep, is kept by every statement.
module _ (P : List Execution → Type 0)
    (kept : (p : Execution → Bool) (f : Execution → Execution) (rows : List Execution)
      → KeepsKeys f
      → P rows
      → P (update_where p f rows))
    (grown : (e : Execution) (rows : List Execution)
      → any (conflicts e) rows ≡ false
      → P rows
      → P (inserted e ∷ rows)) where
  kept_if {ℓ} :
      {A : Type ℓ} (b : Bool) (x y : Store × A)
      → P x.0.executions
      → P y.0.executions
      → P (if b then x else y).0.executions
  kept_if true x y hx hy = hx
  kept_if false x y hx hy = hy

  -- A statement that reads the row `o` first.
  kept_row {ℓ} :
      {A : Type ℓ} (o : Option Execution) (b : Execution → Bool) (x : Execution → Store × A)
      (z : Store × A) (w : Execution → Store × A)
      → ((e : Execution) → P (x e).0.executions)
      → P z.0.executions
      → ((e : Execution) → P (w e).0.executions)
      → P (elim o as (λ r. Store × A) [ none ↦ z | some e ↦ if b e then x e else w e ]).0.executions
  kept_row none b x z w hx hz hw = hz
  kept_row (some e) b x z w hx hz hw = kept_if (b e) (x e) (w e) (hx e) (hw e)

  insert_at :
      (s : Store) (r : Execution) (b : Bool)
      → any (conflicts r) s.executions ≡ b
      → P s.executions
      → let x : Store × Option StoreError =
          if b
          then (s, some duplicate_execution)
          else (set_rows s (inserted r ∷ s.executions), none) in
        P x.0.executions
  insert_at s r true e h = h
  insert_at s r false e h = grown r s.executions e h

  pub step-keeps : (s : Store) (op : Op) → P s.executions → P (step s op).executions
  unfolding step insert_execution claim_execution renew_execution_claim complete_execution
      dequeue_execution dequeue_executions requeue_expired_executions update_execution_status
      ack_execution
  step-keeps s (inserts r) h = insert_at s r (any (conflicts r) s.executions) refl h
  step-keeps s (claims now id ns) h =
      kept_row (find id s.executions) (claimable id ns) _ _ _
        (λ e. kept _ _ s.executions (λ r. (refl, refl, refl)) h) h (λ e. h)
  step-keeps s (renews now id ns generation) h =
      kept_row (find id s.executions) (is_owned now id ns generation) _ _ _
        (λ e. kept _ _ s.executions (λ r. (refl, refl, refl)) h) h (λ e. h)
  step-keeps s (completes now id ns generation status) h =
      kept_if (is_terminal status) _ _
        (kept_row (find id s.executions) (is_owned now id ns generation) _ _ _
          (λ e. kept _ _ s.executions (λ r. (refl, refl, refl)) h) h (λ e. h))
        h
  step-keeps s (dequeues now) h = kept _ _ s.executions (λ r. (refl, refl, refl)) h
  step-keeps s (dequeues_batch now limit) h =
      kept_if (ltb limit 1) _ _ h (kept _ _ s.executions (λ r. (refl, refl, refl)) h)
  step-keeps s (requeues now limit) h = kept _ _ s.executions (λ r. (refl, refl, refl)) h
  step-keeps s (updates id status) h =
      kept_row (find id s.executions) (is_updatable id) _ _ _
        (λ e. kept _ _ s.executions (λ r. (refl, refl, refl)) h) h (λ e. h)
  step-keeps s (acks now id ns) h =
      kept_row (find id s.executions) (is_ackable id ns) _ _ _
        (λ e. kept _ _ s.executions (λ r. (refl, refl, refl)) h) h (λ e. h)

  pub run-keeps : (s : Store) (ops : List Op) → P s.executions → P (run s ops).executions
  unfolding run
  run-keeps s [] h = h
  run-keeps s (op ∷ ops) h = run-keeps (step s op) ops (step-keeps s op h)

-- Every statement keeps the primary key.
pub step-IsKeyed : (s : Store) (op : Op) → IsKeyed s.executions → IsKeyed (step s op).executions
step-IsKeyed =
    step-keeps IsKeyed (λ p f rows same. update_where-IsKeyed p f rows (λ e. (same e).0))
      insert-IsKeyed
