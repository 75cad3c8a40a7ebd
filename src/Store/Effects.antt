-- ===== src/Store/Effects.antt =====
-- What each statement on the `executions` table can do to a row that is there.
use mathlib.Core.Option
use cronlite.Base.{
  ℕ, ◌≡◌, refl, ap, ◌∙◌, ◌⊎◌, inl, inr, String, Bool, true, false, none, some, arith, any,
  Option-cases, Bool-cases, ltb, if◌then◌else◌, text_key,
}
use cronlite.Domain.{Execution, ExecutionStatus, emitted, in_progress, is_emitted, is_terminal}
use cronlite.Store.{
  Store, update_where, find, select_rows, is_picked, conflicts, insert_execution, claim_row,
  claimable, claim_execution, is_owned, renew_execution_claim, complete_execution,
  dequeue_execution, dequeue_executions, is_stale, requeue_row, by_created, by_created_id, by_lease,
  requeue_expired_executions, is_updatable, update_execution_status, is_ackable, ack_execution,
  claim_mutation, lease_live, lease_over, lease_end, invalid_completion,
}
use cronlite.Store.Rows.{IsKeyed, find-update_where, find_absent, select_rows-passes}
use cronlite.Store.Steps.{
  Op, inserts, claims, renews, completes, dequeues, dequeues_batch, requeues, updates, acks, step,
}

-- What a statement can do to a row that is there: nothing, or its SET on its own conditions.
abbrev pub Changes : Store → Op → Execution → Execution → Type 0
Changes s (inserts r) e e' = ⊥
Changes s (claims now id ns) e e' = (e.status ≡ emitted) × (e' ≡ claim_row s now e)
Changes s (renews now id ns generation) e e' =
    (e.id ≡ id)
    × (e.status ≡ in_progress)
    × (e.claim_generation ≡ generation)
    × (lease_live now e.lease_until ≡ true)
    × (e' ≡ record e { lease_until = some (lease_end s now) })
Changes s (completes now id ns generation status) e e' =
    (e.id ≡ id)
    × (e.status ≡ in_progress)
    × (e.claim_generation ≡ generation)
    × (lease_live now e.lease_until ≡ true)
    × (is_terminal status ≡ true)
    × (e' ≡ record e { status = status; lease_until = none })
Changes s (dequeues now) e e' = (e.status ≡ emitted) × (e' ≡ claim_row s now e)
Changes s (dequeues_batch now limit) e e' = (e.status ≡ emitted) × (e' ≡ claim_row s now e)
Changes s (requeues now limit) e e' =
    (e.status ≡ in_progress)
    × (lease_over now e.claim_generation e.lease_until ≡ true)
    × (e' ≡ requeue_row e)
Changes s (updates id status) e e' =
    (is_terminal e.status ≡ false) × (e.claim_generation ≡ 0) × (e' ≡ record e { status = status })
Changes s (acks now id ns) e e' =
    (is_terminal e.status ≡ true) × (e' ≡ record e { acknowledged_at = some now })

abbrev pub Moves : Store → Op → Execution → Execution → Type 0
Moves s op e e' = (e' ≡ e) ⊎ Changes s op e e'

-- The row that an update leaves.
abbrev Left : Store → Op → Store → ℕ → Execution → Type 0
Left s op s' i e = (e' : Execution) × (find i s'.executions ≡ some e') × Moves s op e e'

-- A table that did not change.
unchanged :
    (s : Store) (op : Op) (i : ℕ) (e : Execution) → find i s.executions ≡ some e → Left s op s i e
unchanged s op i e h = (e, h, inl refl)

-- An update by a condition and a change.
updated :
    (s : Store) (op : Op) (i : ℕ) (e : Execution) (p : Execution → Bool) (f : Execution → Execution)
    → ((r : Execution) → (f r).id ≡ r.id)
    → (p e ≡ true → Changes s op e (f e))
    → find i s.executions ≡ some e
    → Left s op (record s { executions = update_where p f s.executions }) i e
updated s op i e p f same changes h =
    let moved =
      find-update_where i p f s.executions same ∙ ap (Option.map (λ r. if p r then f r else r)) h in
    elim (Bool-cases (p e)) [
      | inl yes_p ↦ (f e, rw yes_p at moved, inr (changes yes_p))
      | inr no_p ↦ (e, rw no_p at moved, inl refl)
    ]

insert-Left :
    (s : Store) (r : Execution) (i : ℕ) (e : Execution)
    → find i s.executions ≡ some e
    → Left s (inserts r) (insert_execution s r).0 i e
unfolding insert_execution find
insert-Left s r i e h = elim (Bool-cases (any (conflicts r) s.executions)) [
  | inl clash ↦ rw clash (unchanged s (inserts r) i e h)
  | inr free ↦ rw free (e, ground (arith, find_absent r s.executions free), inl refl)
]

claim-Left :
    (s : Store) (now id : ℕ) (ns : String) (i : ℕ) (e : Execution)
    → find i s.executions ≡ some e
    → Left s (claims now id ns) (claim_execution s now id ns).0 i e
unfolding claim_execution
claim-Left s now id ns i e h = elim (Option-cases (find id s.executions)) [
  | inl missing ↦ rw (missing, claim_execution) (unchanged s (claims now id ns) i e h)
  | inr (r, at) ↦ elim (Bool-cases (claimable id ns r)) [
    | inl free ↦
        rw (at, claim_execution)
          (rw free (
            updated s (claims now id ns) i e (claimable id ns) (claim_row s now) (λ x. refl)
              (λ c. ground arith) h))
    | inr taken ↦ rw (at, claim_execution) (rw taken (unchanged s (claims now id ns) i e h))
  ]
]

-- Renewal and completion, which share their guard.
mutation-Left :
    (s : Store) (op : Op) (p : Execution → Bool) (f : Execution → Execution) (id i : ℕ)
    (e : Execution)
    → ((r : Execution) → (f r).id ≡ r.id)
    → (p e ≡ true → Changes s op e (f e))
    → find i s.executions ≡ some e
    → Left s op (claim_mutation s p f id).0 i e
mutation-Left s op p f id i e same changes h = elim (Option-cases (find id s.executions)) [
  | inl missing ↦ rw (missing, claim_mutation) (unchanged s op i e h)
  | inr (r, at) ↦ elim (Bool-cases (p r)) [
    | inl owned ↦ rw (at, claim_mutation) (rw owned (updated s op i e p f same changes h))
    | inr lost ↦ rw (at, claim_mutation) (rw lost (unchanged s op i e h))
  ]
]

complete_at :
    (s : Store) (now id : ℕ) (ns : String) (generation : ℕ) (status : ExecutionStatus) (i : ℕ)
    (e : Execution) (b : Bool)
    → is_terminal status ≡ b
    → find i s.executions ≡ some e
    → Left s
        (completes now id ns generation status)
        (if b
          then claim_mutation s
              (is_owned now id ns generation)
              (λ r. record r { status = status; lease_until = none })
              id
          else (s, some invalid_completion)).0
        i
        e
complete_at s now id ns generation status i e true final h =
    mutation-Left s (completes now id ns generation status) (is_owned now id ns generation)
      (λ r. record r { status = status; lease_until = none }) id i e (λ r. refl)
      (λ owned. ground arith) h
complete_at s now id ns generation status i e false other h =
    unchanged s (completes now id ns generation status) i e h

picked-Left :
    (s : Store) (op : Op) (p : Execution → Bool) (le : Execution → Execution → Bool)
    (f : Execution → Execution) (n i : ℕ) (e : Execution)
    → IsKeyed s.executions
    → ((r : Execution) → (f r).id ≡ r.id)
    → (p e ≡ true → Changes s op e (f e))
    → find i s.executions ≡ some e
    → Left s op
        (record s {
          executions = update_where (is_picked (select_rows p le n s.executions)) f s.executions;
        })
        i
        e
picked-Left s op p le f n i e keyed same changes h =
    updated s op i e (is_picked (select_rows p le n s.executions)) f same
      (λ picked. changes (select_rows-passes p le n s.executions i e keyed h picked)) h

batch-Left :
    (s : Store) (now limit i : ℕ) (e : Execution)
    → IsKeyed s.executions
    → find i s.executions ≡ some e
    → Left s (dequeues_batch now limit) (dequeue_executions s now limit).0 i e
unfolding dequeue_executions
batch-Left s now limit i e keyed h = elim (Bool-cases (ltb limit 1)) [
  | inl nothing ↦ rw nothing (unchanged s (dequeues_batch now limit) i e h)
  | inr some_rows ↦ rw some_rows (
      picked-Left s (dequeues_batch now limit) (λ r. is_emitted r.status) by_created_id
        (claim_row s now) limit i e keyed (λ r. refl) (λ p. ground arith) h)
]

update-Left :
    (s : Store) (id : ℕ) (status : ExecutionStatus) (i : ℕ) (e : Execution)
    → find i s.executions ≡ some e
    → Left s (updates id status) (update_execution_status s id status).0 i e
unfolding update_execution_status
update-Left s id status i e h = elim (Option-cases (find id s.executions)) [
  | inl missing ↦ rw (missing, update_execution_status) (unchanged s (updates id status) i e h)
  | inr (r, at) ↦ elim (Bool-cases (is_updatable id r)) [
    | inl free ↦
        rw (at, update_execution_status)
          (rw free (
            updated s (updates id status) i e (is_updatable id) (λ x. record x { status = status })
              (λ x. refl) (λ c. ground arith) h))
    | inr taken ↦
        rw (at, update_execution_status) (rw taken (unchanged s (updates id status) i e h))
  ]
]

ack-Left :
    (s : Store) (now id : ℕ) (ns : String) (i : ℕ) (e : Execution)
    → find i s.executions ≡ some e
    → Left s (acks now id ns) (ack_execution s now id ns).0 i e
unfolding ack_execution
ack-Left s now id ns i e h = elim (Option-cases (find id s.executions)) [
  | inl missing ↦ rw (missing, ack_execution) (unchanged s (acks now id ns) i e h)
  | inr (r, at) ↦ elim (Bool-cases (is_ackable id ns r)) [
    | inl free ↦
        rw (at, ack_execution)
          (rw free (
            updated s (acks now id ns) i e (is_ackable id ns)
              (λ x. record x { acknowledged_at = some now }) (λ x. refl) (λ c. ground arith) h))
    | inr taken ↦ rw (at, ack_execution) (rw taken (unchanged s (acks now id ns) i e h))
  ]
]

-- A row that is there stays there, and changes as its statement says.
pub step-Left :
    (s : Store) (op : Op) (i : ℕ) (e : Execution)
    → IsKeyed s.executions
    → find i s.executions ≡ some e
    → (e' : Execution) × (find i (step s op).executions ≡ some e') × Moves s op e e'
unfolding step renew_execution_claim complete_execution dequeue_execution requeue_expired_executions
step-Left s (inserts r) i e keyed h = insert-Left s r i e h
step-Left s (claims now id ns) i e keyed h = claim-Left s now id ns i e h
step-Left s (renews now id ns generation) i e keyed h =
    mutation-Left s (renews now id ns generation) (is_owned now id ns generation)
      (λ r. record r { lease_until = some (lease_end s now) }) id i e (λ r. refl)
      (λ owned. ground arith) h
step-Left s (completes now id ns generation status) i e keyed h =
    complete_at s now id ns generation status i e (is_terminal status) refl h
step-Left s (dequeues now) i e keyed h =
    picked-Left s (dequeues now) (λ r. is_emitted r.status) by_created (claim_row s now) 1 i e keyed
      (λ r. refl) (λ p. ground arith) h
step-Left s (dequeues_batch now limit) i e keyed h = batch-Left s now limit i e keyed h
step-Left s (requeues now limit) i e keyed h =
    picked-Left s (requeues now limit) (is_stale now) by_lease requeue_row limit i e keyed
      (λ r. refl) (λ p. ground arith) h
step-Left s (updates id status) i e keyed h = update-Left s id status i e h
step-Left s (acks now id ns) i e keyed h = ack-Left s now id ns i e h
