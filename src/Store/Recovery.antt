-- ===== src/Store/Recovery.antt =====
-- Recovery of expired claims, and the uniqueness of (job_id, scheduled_at).

use cronlite.Base.{
  ℕ, suc, ◌≤◌, ◌<◌, ◌≡◌, refl, ◌∙◌, Bool, true, false, ◌&&◌, some, List, [], ◌∷◌, arith, length,
  take, take-all, filter_by, sort_by, any, any-sort_by, length-sort_by, nat_beq, if◌then◌else◌,
  text_key,
}
use text.Mathlib.TextPositions.{eq_refl}
use cronlite.Domain.{Execution, in_progress}
use cronlite.Store.{
  Store, update_where, find, select_rows, is_picked, conflicts, inserted, claim_row,
  claim_execution, lease_over, is_stale, by_lease, requeue_row, requeue_expired_executions,
}
use cronlite.Store.Steps.{Op, run, run-keeps}
use cronlite.Store.Rows.{find-update_where, find-id}

pub length-filter_by-le {ℓ} :
    {A : Type ℓ} (p : A → Bool) (xs : List A) → length (filter_by p xs) ≤ length xs
unfolding filter_by
length-filter_by-le p [] = omega arith
length-filter_by-le p (x ∷ xs) = ground (arith, length-filter_by-le p xs)

pub filter_by-found :
    (i : ℕ) (p : Execution → Bool) (rows : List Execution) (e : Execution)
    → find i rows ≡ some e
    → p e ≡ true
    → any (λ r. nat_beq r.id i) (filter_by p rows) ≡ true
unfolding find filter_by any
filter_by-found i p [] e h passes = ground arith
filter_by-found i p (r ∷ rows) e h passes = ground (arith, filter_by-found i p rows e)

-- With room for every row, a selection picks each row that meets its condition.
select_rows-all :
    (p : Execution → Bool) (le : Execution → Execution → Bool) (n : ℕ) (rows : List Execution)
    (i : ℕ) (e : Execution)
    → find i rows ≡ some e
    → p e ≡ true
    → length rows ≤ n
    → is_picked (select_rows p le n rows) e ≡ true
unfolding select_rows
select_rows-all p le n rows i e h passes room =
    let whole : take n (sort_by le (filter_by p rows)) ≡ sort_by le (filter_by p rows) =
      take-all n _
        (omega (arith, length-sort_by le (filter_by p rows), length-filter_by-le p rows)) in
    rw (whole, find-id i rows e h)
      (any-sort_by (λ r. nat_beq r.id i) le (filter_by p rows)
        ∙ filter_by-found i p rows e h passes)

pub requeued :
    (s : Store) (now limit i : ℕ) (e : Execution)
    → find i s.executions ≡ some e
    → e.status ≡ in_progress
    → lease_over now e.claim_generation e.lease_until ≡ true
    → length s.executions ≤ limit
    → find i (requeue_expired_executions s now limit).0.executions ≡ some (requeue_row e)
unfolding requeue_expired_executions
requeued s now limit i e h running over room =
    let picked =
      select_rows-all (is_stale now) by_lease limit s.executions i e h (ground arith) room in
    ground (
      arith,
      find-update_where i (is_picked (select_rows (is_stale now) by_lease limit s.executions))
          requeue_row s.executions (λ r. refl),
      picked,
    )

-- An execution whose owner is gone is not lost: once its lease is over (or it was claimed before
-- leases existed), a recovery with room for the table makes it claimable in its namespace, and
-- the next claim owns it under a generation that is greater than the former owner's.
pub expired_claim_recovers :
    (s : Store) (now later limit i : ℕ) (e : Execution)
    → find i s.executions ≡ some e
    → e.status ≡ in_progress
    → lease_over now e.claim_generation e.lease_until ≡ true
    → length s.executions ≤ limit
    → (c : Execution) × ((claim_execution
          (requeue_expired_executions s now limit).0
          later
          i
          e.namespace).1
        ≡ some c)
      × (e.claim_generation < c.claim_generation)
      × (c.status ≡ in_progress)
unfolding claim_execution
expired_claim_recovers s now later limit i e h running over room =
    let t = (requeue_expired_executions s now limit).0 in
    let at = requeued s now limit i e h running over room in
    (
      claim_row t later (requeue_row e),
      rw (at, claim_execution) (ground (arith, find-id i s.executions e h, eq_refl e.namespace)),
      omega arith,
      refl,
    )

-- Rows of one job and scheduled time.
abbrev pub is_slot : ℕ → ℕ → Execution → Bool
is_slot job_id at r = nat_beq r.job_id job_id && nat_beq r.scheduled_at at

unfoldable pub slot_count : ℕ → ℕ → List Execution → ℕ
slot_count job_id at [] = 0
slot_count job_id at (r ∷ rows) =
    let rest = slot_count job_id at rows in if is_slot job_id at r then suc rest else rest

pub slot_count-update_where :
    (job_id at : ℕ) (p : Execution → Bool) (f : Execution → Execution) (rows : List Execution)
    → ((e : Execution) → ((f e).job_id ≡ e.job_id) × ((f e).scheduled_at ≡ e.scheduled_at))
    → slot_count job_id at (update_where p f rows) ≡ slot_count job_id at rows
unfolding slot_count update_where
slot_count-update_where job_id at p f [] same = refl
slot_count-update_where job_id at p f (r ∷ rows) same =
    ground (arith, same r, slot_count-update_where job_id at p f rows same)

slot_free :
    (e : Execution) (rows : List Execution)
    → any (conflicts e) rows ≡ false
    → slot_count e.job_id e.scheduled_at rows ≡ 0
unfolding slot_count any
slot_free e [] h = refl
slot_free e (r ∷ rows) h = ground (arith, slot_free e rows)

slot_grown :
    (job_id at : ℕ) (e : Execution) (rows : List Execution)
    → any (conflicts e) rows ≡ false
    → slot_count job_id at rows ≤ 1
    → slot_count job_id at (inserted e ∷ rows) ≤ 1
unfolding slot_count
slot_grown job_id at e rows free few = ground (arith, slot_free e rows free)

-- From the empty table, after any statements that insert and update executions, a job has at most one execution for a scheduled
-- time: a slot fires once, however many schedulers insert it.
pub slot_once :
    (lease_ms : ℕ) (ops : List Op) (job_id at : ℕ)
    → slot_count job_id at (run (record { executions = []; lease_ms = lease_ms }) ops).executions
      ≤ 1
slot_once lease_ms ops job_id at =
    run-keeps (λ rows. slot_count job_id at rows ≤ 1)
      (λ p f rows same few.
        rw (slot_count-update_where job_id at p f rows (λ e. ((same e).1, (same e).2))) few)
      (slot_grown job_id at) (record { executions = []; lease_ms = lease_ms }) ops
      (unfold slot_count in omega arith)
