-- ===== src/Store/Examples.antt =====
-- Runs of the statements on the `executions` table, and the theorems at concrete inputs.
use cronlite.Base.{
  List, true, false, ℕ, ◌≤◌, ◌<◌, ◌≡◌, refl, Option, none, some, [], ◌∷◌, arith, filter_by, sort_by,
  any,
}
use cronlite.Domain.{Execution, emitted, in_progress, delivered, failed, scheduled}
use cronlite.Store.{
  Store, find, claim_lost, renew_execution_claim, complete_execution, claim_execution,
  requeue_expired_executions, update_where, select_rows, dequeue_execution,
}
use cronlite.Store.Rows.{IsKeyed}
use cronlite.Store.Steps.{
  inserts, claims, renews, completes, dequeues, requeues, updates, step, run,
}
use cronlite.Store.Ownership.{former_owner_fenced}
use cronlite.Store.Deletion.{
  Change, statement, deletes_job, change_all, change, delete_executions, terminal_absorbs,
  lease_protects,
}
use cronlite.Store.Ownership.Completion.{completions, completed_once}
use cronlite.Store.Recovery.{expired_claim_recovers, slot_count, slot_once}

abbrev base : Execution
base = record {
  id = 7;
  job_id = 1;
  namespace = "ns";
  trigger_type = scheduled;
  scheduled_at = 60;
  fired_at = 61;
  status = emitted;
  acknowledged_at = none;
  created_at = 61;
  claimed_at = none;
  claim_generation = 0;
  lease_until = none;
}

abbrev done : Execution
done = record base { status = delivered; claim_generation = 1 }

abbrev owned : Execution
owned = record base {
  status = in_progress;
  claim_generation = 1;
  claimed_at = some 0;
  lease_until = some 1000;
}

abbrev with_row : Execution → Store
with_row e = record { executions = e ∷ []; lease_ms = 1 }

with_row-IsKeyed : (e : Execution) → IsKeyed (with_row e).executions
unfolding find
with_row-IsKeyed e = (refl, tt)

-- Two workers race for an execution and the first one wins; it is delivered.
race :
    (run
      (with_row base)
      (claims 5 7 "ns" ∷ dequeues 6 ∷ completes 7 7 "ns" 1 delivered ∷ [])).executions
    ≡ record base { status = delivered; claimed_at = some 5; claim_generation = 1 } ∷ []
unfolding run step claim_execution update_where find complete_execution dequeue_execution
    select_rows filter_by sort_by any
race = refl

abbrev claims_and_deletes : List Change
claims_and_deletes =
    statement (claims 5 7 "ns")
    ∷ deletes_job 2 true
    ∷ statement (updates 7 emitted)
    ∷ deletes_job 1 false
    ∷ []

terminal_absorbs_example :
    (a : Option ℕ) × (find 7 (change_all (with_row done) claims_and_deletes).executions
      ≡ some (record done { acknowledged_at = a }))
unfolding find
terminal_absorbs_example =
    terminal_absorbs (with_row done) claims_and_deletes 7 done (with_row-IsKeyed done) refl refl
      (tt, ((λ on e. absurd (omega (arith, e))), (tt, ((λ on. absurd (ground (arith, on))), tt))))

-- The deletion of its job takes a row that is in progress.
deleted : (change_all (with_row owned) (deletes_job 1 true ∷ [])).executions ≡ []
unfolding change_all change delete_executions filter_by
deleted = refl

former_owner_fenced_example :
    let t = run (with_row (record owned { claim_generation = 2 })) (renews 5 7 "ns" 2 ∷ []) in
    (renew_execution_claim t 6 7 "ns" 1 ≡ (t, some claim_lost))
    × (complete_execution t 6 7 "ns" 1 delivered ≡ (t, some claim_lost))
unfolding find
former_owner_fenced_example =
    former_owner_fenced (with_row (record owned { claim_generation = 2 })) (renews 5 7 "ns" 2 ∷ [])
      7 (record owned { claim_generation = 2 }) 1 6 "ns" delivered
      (with_row-IsKeyed (record owned { claim_generation = 2 })) refl (omega arith) refl

abbrev foreign_changes : List Change
foreign_changes =
    statement (claims 5 7 "ns")
    ∷ deletes_job 2 true
    ∷ statement (requeues 6 10)
    ∷ statement (renews 7 7 "ns" 1)
    ∷ []

lease_protects_example :
    (e : Execution) × (find 7 (change_all (with_row owned) foreign_changes).executions ≡ some e)
    × (e.status ≡ in_progress)
    × (e.claim_generation ≡ 1)
    × (t : ℕ) × (e.lease_until ≡ some t)
    × (1000 ≤ t)
unfolding find
lease_protects_example =
    lease_protects (with_row owned) foreign_changes 0 1000 7 owned (with_row-IsKeyed owned) refl
      refl refl (omega arith) (omega arith)
      (omega arith, ((λ on e. absurd (omega (arith, e))), (omega arith, (omega arith, tt))))

completed_once_example :
    completions 7
      (with_row owned)
      (completes 5 7 "ns" 1 delivered ∷ completes 6 7 "ns" 1 failed ∷ [])
    ≤ 1
completed_once_example =
    completed_once (with_row owned)
      (completes 5 7 "ns" 1 delivered ∷ completes 6 7 "ns" 1 failed ∷ []) 7 (with_row-IsKeyed owned)

expired_claim_recovers_example :
    (c : Execution) × ((claim_execution
        (requeue_expired_executions (with_row owned) 1000 1).0
        1001
        7
        "ns").1
      ≡ some c)
    × (1 < c.claim_generation)
    × (c.status ≡ in_progress)
unfolding find
expired_claim_recovers_example =
    expired_claim_recovers (with_row owned) 1000 1001 1 7 owned refl refl refl (omega arith)

slot_once_example :
    slot_count 1 60
      (run
        (record { executions = []; lease_ms = 1 })
        (inserts base ∷ inserts (record base { id = 8 }) ∷ [])).executions
    ≤ 1
slot_once_example = slot_once 1 (inserts base ∷ inserts (record base { id = 8 }) ∷ []) 1 60
