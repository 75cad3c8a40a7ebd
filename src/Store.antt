-- ===== src/Store.antt =====
-- internal/store/postgres: the `executions` table (schema/001_initial.sql and its successors) and
-- the statements of queries.go that change it, through the methods of store.go.
-- Each statement is atomic. Times of the database clock are microseconds, and a lease is given in
-- milliseconds. A database error leaves the table as it is and is not modelled here.
-- Row locks: SKIP LOCKED skips rows of statements in progress; there are none in between.
pub mod Rows
pub mod Steps
pub mod Deletion
pub mod Effects
pub mod Ownership
pub mod Recovery
mod Examples
use mathlib.Core.List.{head?}
use cronlite.Base.{
  ℕ, suc, ◌+◌, ◌*◌, max, String, Bool, true, false, ◌&&◌, ◌||◌, Option, none, some, List, [], ◌∷◌,
  map, length, take, filter_by, sort_by, any, ltb, leb, nat_beq, ◌==◌, if◌then◌else◌, text_key,
}
use cronlite.Domain.{
  Execution, ExecutionStatus, emitted, in_progress, delivered, failed, is_emitted, is_in_progress,
  is_terminal, is_scheduled,
}

pub record Store : Type 0 where
  pub executions : List Execution
  pub lease_ms : ℕ

pub data StoreError : Type 0 where
  duplicate_execution execution_not_found no_rows : StoreError
  status_transition_denied claim_lost invalid_completion : StoreError

-- `UPDATE executions SET f WHERE p`: the new table, and the number of rows that it changed.
unfoldable pub update_where :
    (Execution → Bool) → (Execution → Execution) → List Execution → List Execution
update_where p f [] = []
update_where p f (e ∷ es) = (if p e then f e else e) ∷ update_where p f es

unfoldable pub find : ℕ → List Execution → Option Execution
find id [] = none
find id (e ∷ es) = if nat_beq e.id id then some e else find id es

abbrev pub set_rows : Store → List Execution → Store
set_rows s rows = record s { executions = rows }

-- The rows that `SELECT id … WHERE p ORDER BY le LIMIT n` picks.
unfoldable pub select_rows :
    (Execution → Bool) → (Execution → Execution → Bool) → ℕ → List Execution → List Execution
select_rows p le n rows = take n (sort_by le (filter_by p rows))

-- `e.id = picked.id` for one of the picked rows.
abbrev pub is_picked : List Execution → Execution → Bool
is_picked picked e = any (λ r. nat_beq r.id e.id) picked

-- The columns that INSERT writes; the others have their defaults.
abbrev pub inserted : Execution → Execution
inserted e = record e {
  acknowledged_at = none;
  claimed_at = none;
  claim_generation = 0;
  lease_until = none;
}

-- The primary key, and UNIQUE (job_id, scheduled_at).
abbrev pub conflicts : Execution → Execution → Bool
conflicts e r =
    nat_beq r.id e.id || (nat_beq r.job_id e.job_id && nat_beq r.scheduled_at e.scheduled_at)

unfoldable pub insert_execution : Store → Execution → Store × Option StoreError
insert_execution s e =
    if any (conflicts e) s.executions
    then (s, some duplicate_execution)
    else (set_rows s (inserted e ∷ s.executions), none)

-- `MAX(scheduled_at)` over the scheduled rows of a job, by ORDER BY … DESC LIMIT 1.
unfoldable pub get_last_scheduled_execution : List Execution → ℕ → Option ℕ
get_last_scheduled_execution [] job_id = none
get_last_scheduled_execution (e ∷ es) job_id =
    let rest = get_last_scheduled_execution es job_id in
    if nat_beq e.job_id job_id && is_scheduled e.trigger_type
    then elim rest [ none ↦ some e.scheduled_at | some t ↦ some (max e.scheduled_at t) ]
    else rest

abbrev pub lease_end : Store → ℕ → ℕ
lease_end s now = now + s.lease_ms * 1000

-- SET status = 'in_progress', claimed_at, claim_generation + 1, lease_until.
abbrev pub claim_row : Store → ℕ → Execution → Execution
claim_row s now e = record e {
  status = in_progress;
  claimed_at = some now;
  claim_generation = suc e.claim_generation;
  lease_until = some (lease_end s now);
}

abbrev pub claimable : ℕ → String → Execution → Bool
claimable id ns e = nat_beq e.id id && e.namespace == ns && is_emitted e.status

-- The row that RETURNING gives is the row as it was changed.
unfoldable pub claim_execution : Store → ℕ → ℕ → String → Store × Option Execution
claim_execution s now id ns = elim (find id s.executions) [
  | none ↦ (s, none)
  | some e ↦
      if claimable id ns e
      then (
        set_rows s (update_where (claimable id ns) (claim_row s now) s.executions),
        some (claim_row s now e),
      )
      else (s, none)
]

-- The guard of RenewExecutionClaim and CompleteExecution on the locked row.
abbrev pub lease_live : ℕ → Option ℕ → Bool
lease_live now none = false
lease_live now (some t) = ltb now t

abbrev pub is_owned : ℕ → ℕ → String → ℕ → Execution → Bool
is_owned now id ns generation e =
    nat_beq e.id id
    && e.namespace == ns
    && is_in_progress e.status
    && nat_beq e.claim_generation generation
    && lease_live now e.lease_until

-- `claimMutationResult`: any other number of rows than one is ErrExecutionClaimLost.
abbrev pub claim_mutation :
    Store → (Execution → Bool) → (Execution → Execution) → ℕ → Store × Option StoreError
claim_mutation s p f id = elim (find id s.executions) [
  | none ↦ (s, some claim_lost)
  | some e ↦
      if p e then (set_rows s (update_where p f s.executions), none) else (s, some claim_lost)
]

unfoldable pub renew_execution_claim : Store → ℕ → ℕ → String → ℕ → Store × Option StoreError
renew_execution_claim s now id ns generation =
    claim_mutation s (is_owned now id ns generation)
      (λ e. record e { lease_until = some (lease_end s now) }) id

unfoldable pub complete_execution :
    Store → ℕ → ℕ → String → ℕ → ExecutionStatus → Store × Option StoreError
complete_execution s now id ns generation status =
    if is_terminal status
    then claim_mutation s (is_owned now id ns generation)
        (λ e. record e { status = status; lease_until = none }) id
    else (s, some invalid_completion)

abbrev pub by_created : Execution → Execution → Bool
by_created a b = leb a.created_at b.created_at

-- ORDER BY created_at ASC, id ASC.
abbrev pub by_created_id : Execution → Execution → Bool
by_created_id a b =
    ltb a.created_at b.created_at || (nat_beq a.created_at b.created_at && leb a.id b.id)

abbrev pub dequeue_by : (Execution → Execution → Bool) → Store → ℕ → ℕ → Store × List Execution
dequeue_by le s now limit =
    let picked = select_rows (λ e. is_emitted e.status) le limit s.executions in
    (
      set_rows s (update_where (is_picked picked) (claim_row s now) s.executions),
      map (claim_row s now) picked,
    )

unfoldable pub dequeue_execution : Store → ℕ → Store × Option Execution
dequeue_execution s now = let (s', rows) = dequeue_by by_created s now 1 in (s', head? rows)

-- RETURNING gives the rows in no promised order; here they come in the order of the selection.
unfoldable pub dequeue_executions : Store → ℕ → ℕ → Store × List Execution
dequeue_executions s now limit =
    if ltb limit 1 then (s, []) else dequeue_by by_created_id s now limit

abbrev pub lease_over : ℕ → ℕ → Option ℕ → Bool
lease_over now generation none = nat_beq generation 0
lease_over now generation (some t) = leb t now

abbrev pub is_stale : ℕ → Execution → Bool
is_stale now e = is_in_progress e.status && lease_over now e.claim_generation e.lease_until

-- ORDER BY lease_until ASC NULLS FIRST, id.
abbrev pub by_lease : Execution → Execution → Bool
by_lease a b = elim a.lease_until [
  | none ↦ elim b.lease_until [ none ↦ leb a.id b.id | some u ↦ true ]
  | some t ↦ elim b.lease_until [
    | none ↦ false
    | some u ↦ ltb t u || (nat_beq t u && leb a.id b.id)
  ]
]

abbrev pub requeue_row : Execution → Execution
requeue_row e = record e {
  status = emitted;
  claimed_at = none;
  lease_until = none;
  claim_generation = max e.claim_generation 1;
}

-- The result is the number of rows that were requeued.
unfoldable pub requeue_expired_executions : Store → ℕ → ℕ → Store × ℕ
requeue_expired_executions s now limit =
    let picked = select_rows (is_stale now) by_lease limit s.executions in
    (set_rows s (update_where (is_picked picked) requeue_row s.executions), length picked)

-- The legacy update, of unclaimed rows only.
abbrev pub is_updatable : ℕ → Execution → Bool
is_updatable id e =
    nat_beq e.id id && (if is_terminal e.status then false else nat_beq e.claim_generation 0)

unfoldable pub update_execution_status : Store → ℕ → ExecutionStatus → Store × Option StoreError
update_execution_status s id status = elim (find id s.executions) [
  | none ↦ (s, some no_rows)
  | some e ↦
      if is_updatable id e
      then (
        set_rows s
            (update_where (is_updatable id) (λ r. record r { status = status }) s.executions),
        none,
      )
      else (s, some (if is_terminal e.status then status_transition_denied else claim_lost))
]

abbrev pub is_none : Option ℕ → Bool
is_none none = true
is_none (some t) = false

abbrev pub is_ackable : ℕ → String → Execution → Bool
is_ackable id ns e =
    nat_beq e.id id && e.namespace == ns && is_none e.acknowledged_at && is_terminal e.status

unfoldable pub ack_execution : Store → ℕ → ℕ → String → Store × Option StoreError
ack_execution s now id ns = elim (find id s.executions) [
  | none ↦ (s, some execution_not_found)
  | some e ↦
      if is_ackable id ns e
      then (
        set_rows s (
            update_where (is_ackable id ns) (λ r. record r { acknowledged_at = some now })
              s.executions),
        none,
      )
      else (s, some execution_not_found)
]

abbrev pub is_orphaned : ℕ → Execution → Bool
is_orphaned older_than e =
    is_emitted e.status && (ltb e.created_at older_than || ltb 0 e.claim_generation)

unfoldable pub get_orphaned_executions : Store → ℕ → ℕ → List Execution
get_orphaned_executions s older_than limit =
    take limit (sort_by by_created (filter_by (is_orphaned older_than) s.executions))
