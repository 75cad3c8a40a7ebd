-- ===== src/Migrate/Marks.antt =====
-- run.go: the marks of the baseline that applying migrations leaves.
use cronlite.Base.{
  id_key, ◌≡◌, refl, ◌∙◌, false, ◌||◌, Option, none, some, List, [], ◌∷◌, any, lookup, if-intro,
}
use cronlite.Migrate.Load.{Migration, strip_tx_control}
use cronlite.Migrate.{
  World, Schema, Database, Error, Written, Outcome, is_recorded, at_db, note_applied, apply,
  record_applied, record_row, apply_all, any_baselined, Commit, committed, rolled_back, lost,
  commit_to, applying, commit_migration,
}
use cronlite.Migrate.Applying.{return_error-intro}

-- What `apply` leaves has a baselined row exactly if there was one, whatever fails.
abbrev SameMarks : Database → Written → Type 0
SameMarks db r = any_baselined r.db.rows ≡ any_baselined db.rows

commit_to-marks :
    (c : Commit) (db after : Database) (e : Error)
    → any_baselined after.rows ≡ any_baselined db.rows
    → SameMarks db (commit_to c db after e)
commit_to-marks committed db after e h = h
commit_to-marks rolled_back db after e h = refl
commit_to-marks lost db after e h = h

record_applied-marks :
    (w : World) (m : Migration) (db : Database) (o : Option Schema)
    → SameMarks db (record_applied w m db o)
unfolding any any_baselined lookup
record_applied-marks w m db none = refl
record_applied-marks w m db (some after) =
    if-intro (SameMarks db) (w.insert_fails applying m.version || is_recorded db.rows m) _ _
      (λ b. refl)
      (λ b.
        commit_to-marks (w.commit applying m.version) db
          (record { schema = after; rows = record_row false m db.rows })
          (commit_migration m.version) refl)

apply-marks : (w : World) (m : Migration) (db : Database) → SameMarks db (apply w m db)
unfolding apply
apply-marks w m db =
    if-intro (SameMarks db) (w.begin_fails applying m.version) _ _ (λ b. refl)
      (λ b. record_applied-marks w m db (w.run_sql (strip_tx_control m.sql) db.schema))

pub apply_all-marks :
    (w : World) (ms : List Migration) (o : Outcome)
    → any_baselined (apply_all w ms o).db.rows ≡ any_baselined o.db.rows
unfolding apply_all
apply_all-marks w [] o = refl
apply_all-marks w (m ∷ ms) o =
    let r = apply w m o.db in
    let o1 = at_db o r.db in
    let o2 = note_applied o1 m.version in
    return_error-intro (λ x. any_baselined x.db.rows ≡ any_baselined o.db.rows) r.error o1
      (apply_all w ms o2) (λ e. apply_all-marks w ms o2 ∙ apply-marks w m o.db)
      (λ x. apply-marks w m o.db)
