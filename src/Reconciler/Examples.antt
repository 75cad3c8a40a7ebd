-- ===== src/Reconciler/Examples.antt =====
-- A cycle over a table with one execution whose owner is gone, and the theorems at it.
use cronlite.Base.{
  ◌≤◌, ◌<◌, ◌≡◌, refl, ◌⊎◌, true, false, ◌&&◌, none, some, [], ◌∷◌, arith, any, nat_beq,
}
use cronlite.Domain.{Execution, in_progress, scheduled}
use cronlite.Store.{Store, find, is_orphaned, claim_execution}
use cronlite.Reconciler.{Config, World, run_cycle, orphan_cutoff}
use cronlite.Reconciler.Cycle.{offers, emission_count, cycle_renotifies, cycle_careful}

abbrev abandoned : Execution
abandoned = record {
  id = 7;
  job_id = 1;
  namespace = "ns";
  trigger_type = scheduled;
  scheduled_at = 60;
  fired_at = 61;
  status = in_progress;
  acknowledged_at = none;
  created_at = 61;
  claimed_at = some 62;
  claim_generation = 3;
  lease_until = some 1000;
}

abbrev table : Store
table = record { executions = abandoned ∷ []; lease_ms = 1 }

abbrev small : Config
small = record { interval = 300; threshold = 1000; batch_size = 5 }

abbrev calm : World
calm = record {
  now = 900;
  db_now = 1000;
  requeue_fails = false;
  orphans_fail = false;
  cut_off = λ n. false;
  accepts = λ n. true;
}

cycle_renotifies_example :
    let (t, effects) = run_cycle small true calm table in
    (any (offers 7) effects ≡ true)
    × ((x : Execution) × ((claim_execution t 2000 7 "ns").1 ≡ some x) × (3 < x.claim_generation))
unfolding find
cycle_renotifies_example =
    cycle_renotifies small true calm table 7 2000 abandoned refl refl refl (omega arith) refl refl
      (λ n. refl)

cycle_careful_example :
    let (t, effects) = run_cycle small true calm table in
    (emission_count effects ≤ 5)
    × ((any (offers 7) effects ≡ false)
        ⊎ (any (λ r. is_orphaned (orphan_cutoff small calm) r && nat_beq r.id 7) t.executions
            ≡ true))
cycle_careful_example = cycle_careful small true calm table 7
