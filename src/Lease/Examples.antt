-- ===== src/Lease/Examples.antt =====
-- A worker among others that try to take its row, and the theorem at it.
use cronlite.Base.{
  ℕ, ◌<◌, ◌≡◌, refl, true, none, some, List, [], ◌∷◌, arith, filter_by, sort_by, any,
}
use cronlite.Domain.{Execution, emitted, in_progress, scheduled}
use cronlite.Store.{Store, find, claim_execution, claim_row, update_where}
use cronlite.Store.Steps.{claims, requeues, dequeues}
use cronlite.Lease.{Event, others, renews_row, hears, looks, run_worker}
use cronlite.Lease.Fence.{starts, live_lease_owned}

abbrev waiting : Execution
waiting = record {
  id = 7;
  job_id = 1;
  namespace = "ns";
  trigger_type = scheduled;
  scheduled_at = 60;
  fired_at = 61;
  status = emitted;
  acknowledged_at = none;
  created_at = 61;
  claimed_at = none;
  claim_generation = 0;
  lease_until = none;
}

-- Leases of one millisecond.
abbrev table : Store
table = record { executions = waiting ∷ []; lease_ms = 1 }

-- Claimed at 100; a rival's claim, a renewal sent at 700, a recovery, the renewal's answer.
abbrev busy : List (ℕ × Event)
busy =
    (300, others (claims 300 7 "ns"))
    ∷ (710, renews_row 700)
    ∷ (800, others (requeues 800 5))
    ∷ (900, hears true)
    ∷ (1200, looks)
    ∷ (1300, others (dequeues 1300))
    ∷ []

live_lease_owned_example :
    let w = run_worker 7 "ns" 1 busy (starts table 90 100 7 "ns") in
    (row : Execution) × (find 7 w.store.executions ≡ some row)
    × (row.status ≡ in_progress)
    × (row.claim_generation ≡ 1)
    × (t : ℕ) × (row.lease_until ≡ some t)
    × (1600 < t)
unfolding run_worker claim_execution find cronlite.Lease.happens cronlite.Lease.new_execution_lease
    cronlite.Lease.finish_renew cronlite.Lease.watch_expiry cronlite.Store.Steps.step
    cronlite.Store.renew_execution_claim cronlite.Store.requeue_expired_executions
    cronlite.Store.dequeue_execution cronlite.Store.select_rows update_where filter_by sort_by any
live_lease_owned_example =
    live_lease_owned table 90 100 7 1600 "ns" (claim_row table 100 waiting) busy (refl, tt)
      (omega arith) refl
      (
        omega arith,
        (omega arith, omega arith),
        (
          omega arith,
          omega arith,
          (
            omega arith,
            (omega arith, omega arith),
            (omega arith, tt, (omega arith, tt, (omega arith, (omega arith, omega arith), tt))),
          ),
        ),
      )
      (omega arith) refl
