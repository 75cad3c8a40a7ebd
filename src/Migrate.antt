-- ===== src/Migrate.antt =====
-- internal/migrate/run.go, probes.go: the runner of the schema migrations. A PostgreSQL database is
-- the objects that the probes look for and the tracking table; what the SQL of a migration does to
-- the objects, and which calls fail, is the `World`'s to say. Failures are told apart by the part
-- of the run that makes the call. Migrate/Load reads the files, Migrate/Lock waits for the lock.
mod Load
mod Lock
mod Recording
mod Applying
mod Runs
mod Marks
mod Early
mod Manual
mod Control
mod Lines
mod Sorted
mod Commands
mod Examples
use cronlite.Base.{
  ℕ, ◌+◌, Bool, true, false, ◌&&◌, ◌||◌, not, Option, none, some, List, [], ◌∷◌, ◌++◌, map, String,
  length, drop, take, lookup, filter_by, any, ◌==◌, text_key, id_key, if◌then◌else◌,
}
use cronlite.Base.Texts.{Text, is_nil}
use cronlite.Migrate.Load.{Migration, strip_tx_control}

-- The relations and the columns (table, column) of the current schema.
pub record Schema : Type 0 where
  pub relations : List String
  pub columns : List (String × String)

pub record Recorded : Type 0 where
  pub checksum : String
  pub baselined : Bool

abbrev pub Rows : Type 0
Rows = List (ℕ × Recorded)

-- The database, once the tracking table is there.
pub record Database : Type 0 where
  pub schema : Schema
  pub rows : Rows

pub data Error : Type 0 where
  create_tracking : Error
  read_tracking : Error
  probe_failed : ℕ → Error
  inconsistent_schema : ℕ → ℕ → Error
  begin_baseline : Error
  baseline_migration : ℕ → Error
  commit_baseline : Error
  manual_required : ℕ → List ℕ → Error
  begin_migration : ℕ → Error
  sql_failed : ℕ → Error
  record_migration : ℕ → Error
  commit_migration : ℕ → Error

-- The part of the run that calls the database: the first look for "jobs", the baseline, the
-- migrations applied by hand, and those that the run applies.
pub data Phase : Type 0 where
  jobs_probe baselining hand_applying applying : Phase

-- A commit that fails may have been carried out (lost) or not.
pub data Commit : Type 0 where
  committed rolled_back lost : Commit

pub record World : Type 0 where
  pub run_sql : Text → Schema → Option Schema
  pub create_fails : Bool
  -- The first and the second reading of the tracking table.
  pub read_fails : Bool
  pub reread_fails : Bool
  -- The first and the second query of a version's probe.
  pub query_fails : Phase → ℕ → Bool
  pub second_query_fails : Phase → ℕ → Bool
  -- By version; the baselines have one transaction each, of version 0.
  pub begin_fails : Phase → ℕ → Bool
  pub insert_fails : Phase → ℕ → Bool
  pub commit : Phase → ℕ → Commit

-- The check for the object that a migration makes or drops.
pub data Probe : Type 0 where
  relation_exists : String → Probe
  column_exists : String → String → Probe
  column_dropped : String → String → Probe

pub data Probed : Type 0 where
  present absent query_error : Probed

abbrev pub probes : List (ℕ × Probe)
probes =
    (1, relation_exists "jobs")
    ∷ (2, relation_exists "idx_jobs_enabled")
    ∷ (3, column_exists "executions" "claimed_at")
    ∷ (4, relation_exists "api_keys")
    ∷ (5, column_dropped "api_keys" "scopes")
    ∷ (6, relation_exists "idx_executions_in_progress_claimed_at")
    ∷ (7, relation_exists "admin_sessions")
    ∷ (8, column_exists "admin_sessions" "absolute_expires_at")
    ∷ (9, relation_exists "idx_executions_emitted_created_at")
    ∷ (10, relation_exists "admin_bulk_batches")
    ∷ (11, column_exists "executions" "claim_generation")
    ∷ (12, column_exists "api_keys" "tailnet_login")
    ∷ []

unfoldable pub has_relation : String → Schema → Bool
unfolding any
has_relation name s = any (λ r. r == name) s.relations

unfoldable pub has_column : String → String → Schema → Bool
unfolding any
has_column table column s = any (λ c. (c.0 == table) && (c.1 == column)) s.columns

abbrev pub answer : Bool → Bool → Probed
answer fails b = if fails then query_error else (if b then present else absent)

-- A column that is dropped has its table.
unfoldable pub check_probe : (fails second_fails : Bool) → Probe → Schema → Probed
unfolding has_relation has_column
check_probe fails second_fails (relation_exists name) s = answer fails (has_relation name s)
check_probe fails second_fails (column_exists table column) s =
    answer fails (has_column table column s)
check_probe fails second_fails (column_dropped table column) s =
    if fails
    then query_error
    else (if has_relation table s
        then answer second_fails (not (has_column table column s))
        else absent)

abbrev pub check_known : World → Phase → ℕ → Option Probe → Schema → Probed
unfolding check_probe
check_known w phase version none s = absent
check_known w phase version (some p) s =
    check_probe (w.query_fails phase version) (w.second_query_fails phase version) p s

-- A version without a probe cannot be detected.
unfoldable pub run_probe : World → Phase → ℕ → Schema → Probed
unfolding lookup
run_probe w phase version s = check_known w phase version (lookup version probes) s

pub data Prefix : Type 0 where
  found : List Migration → Prefix
  failed : Error → Prefix

abbrev after_gap_probe : Probed → ℕ → ℕ → Prefix → Prefix
after_gap_probe query_error missing version rest = failed (probe_failed version)
after_gap_probe absent missing version rest = rest
after_gap_probe present missing version rest = failed (inconsistent_schema version missing)

-- After the first migration that is missing, none may be present.
unfoldable pub after_gap : World → Phase → Schema → ℕ → List Migration → Prefix
unfolding run_probe
after_gap w phase s missing [] = found []
after_gap w phase s missing (m ∷ ms) =
    after_gap_probe (run_probe w phase m.version s) missing m.version
      (after_gap w phase s missing ms)

abbrev pub add_found : Migration → Prefix → Prefix
add_found m (found ms) = found (m ∷ ms)
add_found m (failed e) = failed e

abbrev pub leading_probe : Probed → Migration → Prefix → Prefix → Prefix
leading_probe query_error m rest gap = failed (probe_failed m.version)
leading_probe absent m rest gap = gap
leading_probe present m rest gap = add_found m rest

unfoldable pub present_prefix : World → Phase → Schema → List Migration → Prefix
unfolding run_probe after_gap
present_prefix w phase s [] = found []
present_prefix w phase s (m ∷ ms) =
    leading_probe (run_probe w phase m.version s) m (present_prefix w phase s ms)
      (after_gap w phase s m.version ms)

abbrev pub is_recorded : Rows → Migration → Bool
unfolding lookup
is_recorded rows m = elim (lookup m.version rows) [ none ↦ false | some r ↦ true ]

unfoldable pub any_baselined : Rows → Bool
unfolding any
any_baselined rows = any (λ r. r.1.baselined) rows

-- The state after a statement or a transaction, and its error.
pub record Written : Type 0 where
  pub db : Database
  pub error : Option Error

-- A transaction that would leave `after` in the place of `before`.
abbrev pub commit_to : Commit → Database → Database → Error → Written
commit_to committed before after e = record { db = after; error = none }
commit_to rolled_back before after e = record { db = before; error = some e }
commit_to lost before after e = record { db = after; error = some e }

abbrev pub record_row : Bool → Migration → Rows → Rows
record_row baselined m rows =
    (m.version, record { checksum = m.checksum; baselined = baselined }) ∷ rows

pub data Inserted : Type 0 where
  inserted : Rows → Inserted
  refused : ℕ → Inserted

-- The INSERTs of one transaction; the version is the primary key.
unfoldable pub insert_baselined : World → Phase → List Migration → Rows → Inserted
unfolding lookup
insert_baselined w phase [] rows = inserted rows
insert_baselined w phase (m ∷ ms) rows =
    let rest = insert_baselined w phase ms (record_row true m rows) in
    if w.insert_fails phase m.version || is_recorded rows m then refused m.version else rest

abbrev pub commit_inserted : World → Phase → Database → Inserted → Written
commit_inserted w phase db (refused version) = record {
  db = db;
  error = some (baseline_migration version);
}
commit_inserted w phase db (inserted rows) =
    commit_to (w.commit phase 0) db (record { schema = db.schema; rows = rows }) commit_baseline

unfoldable pub record_baselined : World → Phase → List Migration → Database → Written
unfolding insert_baselined lookup
record_baselined w phase ms db =
    if is_nil ms
    then record { db = db; error = none }
    else (if w.begin_fails phase 0
        then record { db = db; error = some begin_baseline }
        else commit_inserted w phase db (insert_baselined w phase ms db.rows))

-- The INSERT and the commit after the migration's SQL, which left `after`.
abbrev pub record_applied : World → Migration → Database → Option Schema → Written
unfolding lookup
record_applied w m db none = record { db = db; error = some (sql_failed m.version) }
record_applied w m db (some after) =
    if w.insert_fails applying m.version || is_recorded db.rows m
    then record { db = db; error = some (record_migration m.version) }
    else commit_to (w.commit applying m.version) db
        (record { schema = after; rows = record_row false m db.rows }) (commit_migration m.version)

unfoldable pub apply : World → Migration → Database → Written
unfolding lookup
apply w m db =
    if w.begin_fails applying m.version
    then record { db = db; error = some (begin_migration m.version) }
    else record_applied w m db (w.run_sql (strip_tx_control m.sql) db.schema)

-- The database after the run, the run's Result, and its error.
pub record Outcome : Type 0 where
  pub db : Database
  pub applied : List ℕ
  pub baselined : List ℕ
  pub error : Option Error

abbrev pub fail : Outcome → Error → Outcome
fail o e = record { db = o.db; applied = o.applied; baselined = o.baselined; error = some e }

-- `if err != nil { return res, err }`, before the rest of the run.
abbrev pub return_error : Option Error → Outcome → Outcome → Outcome
return_error none o next = next
return_error (some e) o next = fail o e

abbrev pub at_db : Outcome → Database → Outcome
at_db o db = record { db = db; applied = o.applied; baselined = o.baselined; error = none }

abbrev pub note_applied : Outcome → ℕ → Outcome
note_applied o version = record {
  db = o.db;
  applied = o.applied ++ version ∷ [];
  baselined = o.baselined;
  error = none;
}

unfoldable pub apply_all : World → List Migration → Outcome → Outcome
unfolding apply
apply_all w [] o = o
apply_all w (m ∷ ms) o =
    let r = apply w m o.db in
    let o1 = at_db o r.db in
    let rest = apply_all w ms (note_applied o1 m.version) in return_error r.error o1 rest

-- The versions up to the first that an operator must apply.
abbrev pub add_version : ℕ → Option (List ℕ) → Option (List ℕ)
add_version v none = none
add_version v (some vs) = some (v ∷ vs)

unfoldable pub up_to_manual : List Migration → Option (List ℕ)
up_to_manual [] = none
up_to_manual (m ∷ ms) =
    let rest = up_to_manual ms in
    if m.manual_on_existing then some (m.version ∷ []) else add_version m.version rest

abbrev pub last_of : List ℕ → ℕ
last_of [] = 0
last_of (v ∷ []) = v
last_of (v ∷ u ∷ vs) = last_of (u ∷ vs)

abbrev pub apply_unless : Option (List ℕ) → Outcome → Outcome → Outcome
apply_unless none o applied = applied
apply_unless (some vs) o applied = fail o (manual_required (last_of vs) vs)

abbrev pub note_baselined : Outcome → List Migration → Outcome
note_baselined o ms = record {
  db = o.db;
  applied = o.applied;
  baselined = o.baselined ++ map (λ m. m.version) ms;
  error = none;
}

-- What was applied by hand is recorded; the rest is refused or applied.
abbrev pub on_existing : World → List Migration → Outcome → Prefix → Outcome
unfolding apply_all up_to_manual record_baselined
on_existing w pending o (failed e) = fail o e
on_existing w pending o (found hand) =
    let r = record_baselined w hand_applying hand o.db in
    let o1 = at_db o r.db in
    let rest = drop (length hand) pending in
    let o2 = note_baselined o1 hand in
    return_error r.error o1 (apply_unless (up_to_manual rest) o2 (apply_all w rest o2))

unfoldable pub pending : List Migration → Rows → List Migration
unfolding filter_by lookup
pending ms rows = filter_by (λ m. not (is_recorded rows m)) ms

-- From `anyBaselined` on.
unfoldable pub run_pending : World → List Migration → Outcome → Outcome
unfolding pending any_baselined apply_all up_to_manual record_baselined present_prefix
run_pending w ms o =
    let rest = pending ms o.db.rows in
    if any_baselined o.db.rows
    then on_existing w rest o (present_prefix w hand_applying o.db.schema rest)
    else apply_all w rest o

abbrev pub unchanged : Database → Outcome
unchanged db = record { db = db; applied = []; baselined = []; error = none }

abbrev pub baseline_present : World → Database → Prefix → Outcome
unfolding record_baselined
baseline_present w db (failed e) = fail (unchanged db) e
baseline_present w db (found ms) =
    let r = record_baselined w baselining ms db in
    let o1 = at_db (unchanged db) r.db in return_error r.error o1 (note_baselined o1 ms)

-- A database without "jobs" is new.
abbrev pub baseline_probed : World → Database → Probed → Prefix → Outcome
unfolding record_baselined
baseline_probed w db query_error prefix = fail (unchanged db) (probe_failed 1)
baseline_probed w db absent prefix = unchanged db
baseline_probed w db present prefix = baseline_present w db prefix

unfoldable pub baseline : World → List Migration → Database → Outcome
unfolding run_probe present_prefix record_baselined
baseline w ms db =
    baseline_probed w db (run_probe w jobs_probe 1 db.schema)
      (present_prefix w baselining db.schema ms)

-- Run, under the lock, once the tracking table is there.
unfoldable pub run_tracked : World → List Migration → Database → Outcome
unfolding baseline run_pending
run_tracked w ms db =
    let o = baseline w ms db in
    if w.read_fails
    then fail (unchanged db) read_tracking
    else if is_nil db.rows
    then return_error o.error o
        (if w.reread_fails then fail o read_tracking else run_pending w ms o)
    else run_pending w ms (unchanged db)
