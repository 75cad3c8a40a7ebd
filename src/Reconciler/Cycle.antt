-- ===== src/Reconciler/Cycle.antt =====
-- reconciler.go: what a cycle emits, and which executions it brings back.
use cronlite.Base.{
  ℕ, suc, ◌+◌, ◌≤◌, ◌<◌, ◌≡◌, refl, sym, ap, ◌∙◌, ◌⊎◌, inl, inr, Bool, true, false, ◌&&◌,
  Bool-cases, some, List, [], ◌∷◌, arith, length, length-take-le, take, take-all, filter_by,
  sort_by, any, any-take, any-sort_by, length-sort_by, nat_beq,
}
use cronlite.Domain.{Execution, in_progress}
use cronlite.Store.{
  Store, find, is_orphaned, by_created, get_orphaned_executions, requeue_expired_executions,
  lease_over, requeue_row, claim_execution, update_where,
}
use cronlite.Store.Recovery.{requeued, filter_by-found, length-filter_by-le, expired_claim_recovers}
use cronlite.Reconciler.{
  Config, World, Effect, orphaned_executions_update, emits, re_emit, run_cycle, orphan_cutoff,
  requeue,
}

-- The emitter is offered the execution.
abbrev pub offers : ℕ → Effect → Bool
offers id (emits event ok) = nat_beq event.execution_id id
offers id (orphaned_executions_update n) = false

abbrev pub emission_count : List Effect → ℕ
emission_count [] = 0
emission_count (emits event ok ∷ es) = 1 + emission_count es
emission_count (orphaned_executions_update n ∷ es) = emission_count es

-- No context ends.
re_emit-offers :
    (w : World) (i id : ℕ) (xs : List Execution)
    → ((n : ℕ) → w.cut_off n ≡ false)
    → any (λ r. nat_beq r.id id) xs ≡ true
    → any (offers id) (re_emit w i xs) ≡ true
unfolding re_emit any
re_emit-offers w i id [] on h = h
re_emit-offers w i id (x ∷ xs) on h = ground (arith, on i, re_emit-offers w (suc i) id xs on)

re_emit-count :
    (w : World) (i : ℕ) (xs : List Execution) → emission_count (re_emit w i xs) ≤ length xs
unfolding re_emit
re_emit-count w i [] = omega arith
re_emit-count w i (x ∷ xs) = ground (arith, re_emit-count w (suc i) xs)

orphan_found :
    (s : Store) (older_than limit i : ℕ) (e : Execution)
    → find i s.executions ≡ some e
    → is_orphaned older_than e ≡ true
    → length s.executions ≤ limit
    → any (λ r. nat_beq r.id i) (get_orphaned_executions s older_than limit) ≡ true
unfolding get_orphaned_executions
orphan_found s older_than limit i e found orphaned room =
    let rows = filter_by (is_orphaned older_than) s.executions in
    let whole : take limit (sort_by by_created rows) ≡ sort_by by_created rows = take-all limit _ (
      omega (
        arith,
        length-sort_by by_created rows,
        length-filter_by-le (is_orphaned older_than) s.executions,
      )) in
    rw whole (
      any-sort_by (λ r. nat_beq r.id i) by_created rows
      ∙ filter_by-found i (is_orphaned older_than) s.executions e found orphaned)

length-update_where :
    (p : Execution → Bool) (f : Execution → Execution) (rows : List Execution)
    → length (update_where p f rows) ≡ length rows
unfolding update_where
length-update_where p f [] = refl
length-update_where p f (x ∷ xs) = ap suc (length-update_where p f xs)

requeue-length :
    (s : Store) (now limit : ℕ)
    → length (requeue_expired_executions s now limit).0.executions ≡ length s.executions
unfolding requeue_expired_executions
requeue-length s now limit = length-update_where _ _ s.executions

-- A cycle brings back an execution whose owner is gone. If its lease is over, the batch has room
-- for the table and nothing fails, the same cycle offers it to the emitter again, and leaves it to
-- be claimed under a greater generation, whenever that is.
pub cycle_renotifies :
    (c : Config) (has_metrics : Bool) (w : World) (s : Store) (i later : ℕ) (e : Execution)
    → find i s.executions ≡ some e
    → e.status ≡ in_progress
    → lease_over w.db_now e.claim_generation e.lease_until ≡ true
    → length s.executions ≤ c.batch_size
    → w.requeue_fails ≡ false
    → w.orphans_fail ≡ false
    → ((n : ℕ) → w.cut_off n ≡ false)
    → let (t, effects) = run_cycle c has_metrics w s in
      (any (offers i) effects ≡ true)
      × ((x : Execution) × ((claim_execution t later i e.namespace).1 ≡ some x)
          × (e.claim_generation < x.claim_generation))
unfolding run_cycle any
cycle_renotifies c has_metrics w s i later e found running over room ok1 ok2 on =
    let t = (requeue_expired_executions s w.db_now c.batch_size).0 in
    let again = requeued s w.db_now c.batch_size i e found running over room in
    let size = requeue-length s w.db_now c.batch_size in
    let listed =
      orphan_found t (orphan_cutoff c w) c.batch_size i (requeue_row e) again (ground arith)
        (omega (arith, size)) in
    let offered =
      re_emit-offers w 0 i (get_orphaned_executions t (orphan_cutoff c w) c.batch_size) on listed in
    let (x, claimed, newer, _) =
      expired_claim_recovers s w.db_now later c.batch_size i e found running over room in
    (ground (arith, ok1, ok2, offered), (x, ground (arith, ok1, ok2, claimed), newer))

-- Every event names an orphan.
events-ready :
    (w : World) (p : Execution → Bool) (rows : List Execution) (i : ℕ) (xs : List Execution)
    → ((id : ℕ)
        → any (λ r. nat_beq r.id id) xs ≡ true
        → any (λ r. p r && nat_beq r.id id) rows ≡ true)
    → (id : ℕ) → any (offers id) (re_emit w i xs) ≡ true
    → any (λ r. p r && nat_beq r.id id) rows ≡ true
unfolding re_emit any
events-ready w p rows i [] h id off = ground arith
events-ready w p rows i (x ∷ xs) h id off =
    ground (arith, h id, events-ready w p rows (suc i) xs (λ j m. h j (ground (arith, m))) id)

any-filter_by :
    (p q : Execution → Bool) (rows : List Execution)
    → any q (filter_by p rows) ≡ true
    → any (λ r. p r && q r) rows ≡ true
unfolding any filter_by
any-filter_by p q [] h = h
any-filter_by p q (x ∷ xs) h = ground (arith, any-filter_by p q xs)

orphans-ready :
    (s : Store) (older_than limit id : ℕ)
    → any (λ r. nat_beq r.id id) (get_orphaned_executions s older_than limit) ≡ true
    → any (λ r. is_orphaned older_than r && nat_beq r.id id) s.executions ≡ true
unfolding get_orphaned_executions
orphans-ready s older_than limit id h =
    let q : Execution → Bool = λ r. nat_beq r.id id in
    let rows = filter_by (is_orphaned older_than) s.executions in
    any-filter_by (is_orphaned older_than) q s.executions
      (sym (any-sort_by q by_created rows) ∙ any-take q limit (sort_by by_created rows) h)

-- The parts of a cycle's result.
cycle-parts :
    (c : Config) (has_metrics : Bool) (w : World) (s : Store) (id : ℕ)
    → let r = run_cycle c has_metrics w s in
      let orphans = get_orphaned_executions (requeue c w s) (orphan_cutoff c w) c.batch_size in
      (r.0 ≡ requeue c w s)
      × (emission_count r.1 ≤ emission_count (re_emit w 0 orphans))
      × (any (offers id) r.1 ≡ true → any (offers id) (re_emit w 0 orphans) ≡ true)
unfolding run_cycle any
cycle-parts c has_metrics w s id = (ground arith, ground arith, λ h. ground arith)

-- A cycle is careful, whatever fails in it: it offers at most a batch of executions, and only those
-- that wait for a worker in the table that it leaves, and are either older than the threshold or
-- were claimed before.
pub cycle_careful :
    (c : Config) (has_metrics : Bool) (w : World) (s : Store) (id : ℕ)
    → let (t, effects) = run_cycle c has_metrics w s in
      (emission_count effects ≤ c.batch_size)
      × ((any (offers id) effects ≡ false)
          ⊎ (any (λ r. is_orphaned (orphan_cutoff c w) r && nat_beq r.id id) t.executions ≡ true))
cycle_careful c has_metrics w s id =
    let t = requeue c w s in
    let cut = orphan_cutoff c w in
    let orphans = get_orphaned_executions t cut c.batch_size in
    let few = re_emit-count w 0 orphans in
    let short : length orphans ≤ c.batch_size =
      unfold get_orphaned_executions in
      length-take-le c.batch_size (sort_by by_created (filter_by (is_orphaned cut) t.executions)) in
    let ready =
      events-ready w (is_orphaned cut) t.executions 0 orphans
        (λ j m. orphans-ready t cut c.batch_size j m) id in
    let (left, count, among) = cycle-parts c has_metrics w s id in
    (
      omega (arith, few, short, count),
      elim (Bool-cases (any (offers id) (run_cycle c has_metrics w s).1)) [
        | inr none_offered ↦ inl none_offered
        | inl some_offered ↦ inr (rw left (ready (among some_offered)))
      ],
    )
