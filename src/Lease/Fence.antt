-- ===== src/Lease/Fence.antt =====
-- ownership.go with the store: the claim, and runs of events after it.
use cronlite.Base.{
  ℕ, ◌*◌, ◌≤◌, ◌<◌, ◌≡◌, refl, sym, ap, inl, inr, String, true, none, some, List, [], ◌∷◌, arith,
  text_key, Option-cases,
}
use cronlite.Domain.{Execution, in_progress}
use cronlite.Store.{Store, find, claim_execution, claimable, claim_row, lease_end}
use cronlite.Store.Rows.{IsKeyed, find-update_where}
use cronlite.Store.Steps.{claims, step, step-lease_ms, step-IsKeyed}
use cronlite.Lease.{Worker, Event, happens, run_worker, new_execution_lease}
use cronlite.Lease.Holds.{lives, Holds, Allowed}
use cronlite.Lease.Holds.Renewal.{happens-Holds}

-- Events in the order of time, from `clock` on.
abbrev pub AllowedRun : ℕ → ℕ → ℕ → List (ℕ × Event) → Type 0
AllowedRun i generation clock [] = Unit
AllowedRun i generation clock ((now, event) ∷ rest) =
    (clock ≤ now) × Allowed i generation now event × AllowedRun i generation now rest

abbrev pub last_time : ℕ → List (ℕ × Event) → ℕ
last_time clock [] = clock
last_time clock ((now, event) ∷ rest) = last_time now rest

run_worker-Holds :
    (i generation clock : ℕ) (ns : String) (events : List (ℕ × Event)) (w : Worker)
    → 1 ≤ generation
    → AllowedRun i generation clock events
    → Holds i generation clock w
    → Holds i generation (last_time clock events) (run_worker i ns generation events w)
unfolding run_worker
run_worker-Holds i generation clock ns [] w real ok h = h
run_worker-Holds i generation clock ns ((now, event) ∷ rest) w real (later, ok, oks) h =
    run_worker-Holds i generation now ns rest (happens i ns generation now event w) real oks
      (happens-Holds i generation clock now ns w event later real ok h)

-- What a claim leaves in the table.
claimed-row :
    (s : Store) (at i : ℕ) (ns : String) (e : Execution)
    → (claim_execution s at i ns).1 ≡ some e
    → (find i (claim_execution s at i ns).0.executions ≡ some e)
      × (e.status ≡ in_progress)
      × (1 ≤ e.claim_generation)
      × (e.lease_until ≡ some (lease_end s at))
unfolding claim_execution
claimed-row s at i ns e h = elim (Option-cases (find i s.executions)) [
  | inl missing ↦ absurd (ground (arith, missing, h))
  | inr (r, found) ↦
      let moved = find-update_where i (claimable i ns) (claim_row s at) s.executions (λ x. refl) in
      (
        ground (arith, moved, found, h),
        ground (arith, found, h),
        ground (arith, found, h),
        ground (arith, found, h),
      )
]

-- A worker that has just claimed.
abbrev pub starts : Store → ℕ → ℕ → ℕ → String → Worker
starts s started at i ns = record {
  store = (claim_execution s at i ns).0;
  lease = new_execution_lease started (s.lease_ms * 1000);
  pending = none;
}

starts-Holds :
    (s : Store) (started at i : ℕ) (ns : String) (e : Execution)
    → IsKeyed s.executions
    → started ≤ at
    → (claim_execution s at i ns).1 ≡ some e
    → Holds i e.claim_generation at (starts s started at i ns)
unfolding new_execution_lease
starts-Holds s started at i ns e keyed before claim =
    let (found, running, real, leased) = claimed-row s at i ns e claim in
    let same : (claim_execution s at i ns).0.lease_ms ≡ s.lease_ms =
      unfold step in step-lease_ms s (claims at i ns) in
    record {
      keyed = unfold step in step-IsKeyed s (claims at i ns) keyed;
      same_length = ap (λ n. n * 1000) (sym same);
      recent = omega arith;
      held = λ alive. (
        e,
        found,
        record {
          running = running;
          owner = refl;
          end = lease_end s at;
          leased = leased;
          long = omega arith;
        },
      );
    }

-- A worker never works on without owning its row. It claims an execution with a statement that it
-- began before the database ran it; then statements of anybody else on any rows, its own renewals
-- and their answers or errors, looks of its watchdog and ends of its context follow in any order.
-- As long as its lease's context has not ended and its deadline is not reached, the row is in
-- progress under its generation, and the database's lease ends later than now.
pub live_lease_owned :
    (s : Store) (started at i now : ℕ) (ns : String) (e : Execution) (events : List (ℕ × Event))
    → IsKeyed s.executions
    → started ≤ at
    → (claim_execution s at i ns).1 ≡ some e
    → AllowedRun i e.claim_generation at events
    → last_time at events ≤ now
    → let w = run_worker i ns e.claim_generation events (starts s started at i ns) in
      lives w.lease now ≡ true
      → (row : Execution) × (find i w.store.executions ≡ some row)
        × (row.status ≡ in_progress)
        × (row.claim_generation ≡ e.claim_generation)
        × (t : ℕ) × (row.lease_until ≡ some t)
        × (now < t)
live_lease_owned s started at i now ns e events keyed before claim ok later alive =
    let (found, running, real, leased) = claimed-row s at i ns e claim in
    let h =
      run_worker-Holds i e.claim_generation at ns events (starts s started at i ns) real ok
        (starts-Holds s started at i ns e keyed before claim) in
    let (row, at_end, v) = h.held (ground (arith, alive, later)) in
    (row, at_end, v.running, v.owner, v.end, v.leased, ground (arith, alive, v.long))
