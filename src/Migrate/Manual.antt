-- ===== src/Migrate/Manual.antt =====
-- run.go: which migrations a run applies, and when it refuses to.
use cronlite.Base.{
  id_key, if◌then◌else◌, ◌≡◌, true, false, none, some, List, [], ◌∷◌, ◌++◌, All, lookup,
}
use cronlite.Base.Texts.{is_nil}
use cronlite.Migrate.Load.{Migration}
use cronlite.Migrate.{World, Recorded, Rows, Database, Outcome, baseline, any_baselined}
use cronlite.Migrate.Recording.{IsRecorded}
use cronlite.Migrate.Applying.{StopsAt, versions}

abbrev pub IsAutomatic : Migration → Type 0
IsAutomatic m = m.manual_on_existing ≡ false

-- The migrations that a table has no row of, in order.
pub data Unrecorded (rows : Rows) : List Migration → List Migration → Type 0 where
  nothing : Unrecorded rows [] []
  skips :
      (m : Migration) (ms todo : List Migration) (row : Recorded)
      → lookup m.version rows ≡ some row
      → Unrecorded rows ms todo
      → Unrecorded rows (m ∷ ms) todo
  keeps :
      (m : Migration) (ms todo : List Migration)
      → lookup m.version rows ≡ none
      → Unrecorded rows ms todo
      → Unrecorded rows (m ∷ ms) (m ∷ todo)

-- What a run makes of the migrations that it has to do, after it has read the table's rows: those of
-- `hand`, only on a database with a baselined row, are recorded; those of `done` are what it applies,
-- in order, and only such as need no operator if the database has a baselined row; the others are
-- left, none if there is no error; and an error that names a migration names the first of these.
pub record Careful (rows : Rows) (todo : List Migration) (o : Outcome) : Type 0 where
  pub hand : List Migration
  pub done : List Migration
  pub rest : List Migration
  pub split : todo ≡ hand ++ (done ++ rest)
  pub new : any_baselined rows ≡ false → hand ≡ []
  pub adopted : All (IsRecorded o.db.rows) hand
  pub ran : o.applied ≡ versions done
  pub safe : any_baselined o.db.rows ≡ true → All IsAutomatic done
  pub whole : o.error ≡ none → rest ≡ []
  pub stops : StopsAt o.error rest

-- The migrations that the run has to do are those that the table, with these rows, does not record.
abbrev pub CarefulFrom : Rows → List Migration → Outcome → Type 0
CarefulFrom rows ms o = (todo : List Migration) × Unrecorded rows ms todo × Careful rows todo o

-- The rows that the run finds in the tracking table: if it is empty, those that the baseline leaves.
abbrev pub rows_read : World → List Migration → Database → Rows
rows_read w ms db = if is_nil db.rows then (baseline w ms db).db.rows else db.rows

abbrev pub CarefulRun : World → List Migration → Database → Outcome → Type 0
CarefulRun w ms db o = CarefulFrom (rows_read w ms db) ms o
