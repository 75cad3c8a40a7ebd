-- ===== src/Migrate/Examples.antt =====
-- The migrations' theorems at concrete inputs: a new database, two migrations of which the second
-- is for an operator on an existing database.
use cronlite.Base.{
  All, ◌*◌, ◌≡◌, ◌≢◌, refl, true, false, none, some, List, [], ◌∷◌, ◌++◌, any, arith, lookup,
  filter_by,
}
use cronlite.Dispatcher.Classify.{bytes}
use cronlite.Base.Texts.{Text, split_on, join_with, trim_space, trim_left, trim_right, same_text}
use cronlite.Migrate.Load.{Migration, Entry, is_tx_control, strip_tx_control}
use cronlite.Migrate.{
  World, Schema, Database, Outcome, committed, run_tracked, unchanged, jobs_probe, baseline,
  run_pending, run_probe, check_probe, any_baselined, pending, apply_all, apply, has_relation,
  has_column,
}
use cronlite.Migrate.Lines.{OneLine, Blanks, strip_lines}
use cronlite.Migrate.Runs.{rerun_idle}
use cronlite.Migrate.Lock.{
  LockWorld, busy, acquire_lock, acquire_lock_ends, still_waiting, effective_timeout,
  lock_poll_interval,
}
use cronlite.Migrate.Commands.{Untracked}

abbrev first_sql : Text
first_sql = bytes "BEGIN;" ++ b'\n' ∷ bytes "CREATE TABLE jobs();" ++ b'\n' ∷ bytes " commit;"

abbrev first : Migration
first = record {
  version = 1;
  name = bytes "001_a.sql";
  sql = first_sql;
  checksum = "c1";
  manual_on_existing = false;
}

abbrev eleventh : Migration
eleventh = record {
  version = 11;
  name = bytes "011_b.sql";
  sql = [];
  checksum = "c2";
  manual_on_existing = true;
}

abbrev both : List Migration
both = first ∷ eleventh ∷ []

abbrev new_database : Database
new_database = record { schema = record { relations = []; columns = [] }; rows = [] }

-- Every statement succeeds; the SQL leaves "jobs".
abbrev fair : World
fair = record {
  run_sql = λ sql s. some (record { relations = "jobs" ∷ []; columns = [] });
  create_fails = false;
  read_fails = false;
  reread_fails = false;
  query_fails = λ phase v. false;
  second_query_fails = λ phase v. false;
  begin_fails = λ phase v. false;
  insert_fails = λ phase v. false;
  commit = λ phase v. committed;
}

applies_both : (run_tracked fair both new_database).applied ≡ 1 ∷ 11 ∷ []
unfolding run_tracked baseline run_probe lookup check_probe has_relation any run_pending pending
    filter_by any_baselined apply_all apply
applies_both = refl

no_error : (run_tracked fair both new_database).error ≡ none
unfolding run_tracked baseline run_probe lookup check_probe has_relation any run_pending pending
    filter_by any_baselined apply_all apply
no_error = refl

rerun_idle_example :
    run_tracked fair both (run_tracked fair both new_database).db
    ≡ unchanged (run_tracked fair both new_database).db
rerun_idle_example = rerun_idle fair fair both new_database no_error refl refl refl

strip_lines_example :
    All OneLine (split_on b'\n' first_sql)
    × (join_with b'\n' (split_on b'\n' first_sql) ≡ first_sql)
    × Blanks (split_on b'\n' first_sql) (split_on b'\n' (strip_tx_control first_sql))
strip_lines_example = strip_lines first_sql

stripped : split_on b'\n' (strip_tx_control first_sql) ≡ [] ∷ bytes "CREATE TABLE jobs();" ∷ [] ∷ []
unfolding strip_tx_control split_on join_with is_tx_control trim_space trim_left trim_right
    same_text
stripped = refl

abbrev directory : List Entry
directory =
    record { name = bytes "011_b.sql"; is_dir = false; content = some [] }
    ∷ record { name = bytes "README.md"; is_dir = false; content = none }
    ∷ record { name = bytes "001_a.sql"; is_dir = false; content = some first_sql }
    ∷ []

-- Another runner keeps the lock; a clock that timers drive exactly.
abbrev locked_out : LockWorld
locked_out = record {
  poll = λ i. busy;
  checked = λ i. i * lock_poll_interval;
  waited = λ i. i * lock_poll_interval;
  cancelled = λ i. false;
}

acquire_lock_ends_example : acquire_lock locked_out 0 0 ≢ still_waiting
acquire_lock_ends_example =
    acquire_lock_ends locked_out 0 0 (omega arith, λ i. (omega arith, omega arith))

abbrev untracked : Untracked
untracked = record { schema = record { relations = []; columns = [] }; tracking = none }

abbrev granted_at_once : LockWorld
granted_at_once = record {
  poll = λ i. cronlite.Migrate.Lock.granted;
  checked = λ i. 0;
  waited = λ i. 0;
  cancelled = λ i. false;
}
