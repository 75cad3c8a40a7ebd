-- ===== src/Migrate/Applying.antt =====
-- run.go: the loop over `apply`.
use mathlib.Core.Option.{some-injective}
use cronlite.Base.{
  ℕ, ◌≡◌, refl, sym, ap, ◌∙◌, false, ◌||◌, Option, none, some, List, [], ◌∷◌, ◌++◌, map, arith,
  lookup, any, if-intro,
}
use cronlite.Migrate.Load.{Migration, strip_tx_control}
use cronlite.Migrate.{
  World, Schema, Rows, Database, Error, Written, Outcome, is_recorded, record_applied, apply, fail,
  return_error, at_db, Commit, committed, rolled_back, lost, commit_to, record_row, note_applied,
  apply_all, applying, any_baselined, commit_migration, begin_migration, sql_failed,
  record_migration,
}
use cronlite.Migrate.Recording.{Adds, Grows, record_row_self, record_row-Grows, commit_to-committed}

-- What the SQL of the migrations makes of the schema, one after the other.
abbrev pub run_each : World → List Migration → Option Schema → Option Schema
run_each w ms none = none
run_each w [] (some s) = some s
run_each w (m ∷ ms) (some s) = run_each w ms (w.run_sql (strip_tx_control m.sql) s)

-- One migration was applied: recorded, without the mark of the baseline, and its SQL run.
abbrev pub Applied : World → Database → Migration → Database → Type 0
Applied w db m after =
    Adds db.rows (m ∷ []) after
    × (any_baselined after.rows ≡ any_baselined db.rows)
    × (w.run_sql (strip_tx_control m.sql) db.schema ≡ some after.schema)

abbrev pub AppliedIfDone : World → Database → Migration → Written → Type 0
AppliedIfDone w db m r = r.error ≡ none → Applied w db m r.db

record_applied-Applied :
    (w : World) (m : Migration) (db : Database) (o : Option Schema)
    → w.run_sql (strip_tx_control m.sql) db.schema ≡ o
    → AppliedIfDone w db m (record_applied w m db o)
unfolding any any_baselined lookup
record_applied-Applied w m db none run = λ e. absurd (ground (arith, e))
record_applied-Applied w m db (some after) run =
    if-intro (AppliedIfDone w db m) (w.insert_fails applying m.version || is_recorded db.rows m) _ _
      (λ b e. absurd (ground (arith, e)))
      (λ b e.
        commit_to-committed (Applied w db m) (w.commit applying m.version) db _
          (commit_migration m.version)
          ((record_row-Grows false m db.rows, (record_row_self false m db.rows, tt)), refl, run) e)

apply-Applied : (w : World) (m : Migration) (db : Database) → AppliedIfDone w db m (apply w m db)
unfolding apply
apply-Applied w m db =
    if-intro (AppliedIfDone w db m) (w.begin_fails applying m.version) _ _
      (λ b e. absurd (ground (arith, e)))
      (λ b. record_applied-Applied w m db (w.run_sql (strip_tx_control m.sql) db.schema) refl)

abbrev pub versions : List Migration → List ℕ
versions ms = map (λ m. m.version) ms

-- The migration that an error of `apply` names.
abbrev pub blamed : Option Error → Option ℕ
blamed (some (begin_migration v)) = some v
blamed (some (sql_failed v)) = some v
blamed (some (record_migration v)) = some v
blamed (some (commit_migration v)) = some v
blamed _ = none

abbrev pub StopsAt : Option Error → List Migration → Type 0
StopsAt e rest =
    (v : ℕ)
    → blamed e ≡ some v
    → (m : Migration) × (more : List Migration) × (rest ≡ m ∷ more) × (m.version ≡ v)

-- The error of a step on one migration names it.
abbrev NamesIt : Migration → Written → Type 0
NamesIt m r = (v : ℕ) → blamed r.error ≡ some v → m.version ≡ v

named : (m : Migration) (v : ℕ) → some m.version ≡ some v → m.version ≡ v
named m v e = some-injective m.version v e

commit_to-NamesIt :
    (m : Migration) (c : Commit) (db after : Database)
    → NamesIt m (commit_to c db after (commit_migration m.version))
commit_to-NamesIt m committed db after v e = absurd (ground (arith, e))
commit_to-NamesIt m rolled_back db after v e = named m v e
commit_to-NamesIt m lost db after v e = named m v e

record_applied-NamesIt :
    (w : World) (m : Migration) (db : Database) (o : Option Schema)
    → NamesIt m (record_applied w m db o)
unfolding lookup
record_applied-NamesIt w m db none = named m
record_applied-NamesIt w m db (some after) =
    if-intro (NamesIt m) (w.insert_fails applying m.version || is_recorded db.rows m) _ _
      (λ b. named m)
      (λ b.
        commit_to-NamesIt m (w.commit applying m.version) db
          (record { schema = after; rows = record_row false m db.rows }))

apply-NamesIt : (w : World) (m : Migration) (db : Database) → NamesIt m (apply w m db)
unfolding apply
apply-NamesIt w m db =
    if-intro (NamesIt m) (w.begin_fails applying m.version) _ _ (λ b. named m)
      (λ b. record_applied-NamesIt w m db (w.run_sql (strip_tx_control m.sql) db.schema))

-- The loop has applied a prefix of the migrations, all of them if there was no error.
abbrev pub Progress : World → List Migration → Outcome → Outcome → Type 0
Progress w ms o after =
    (done : List Migration) × (rest : List Migration) × (ms ≡ done ++ rest)
    × (after.applied ≡ o.applied ++ versions done)
    × (after.baselined ≡ o.baselined)
    × (after.error ≡ none → rest ≡ [])
    × (blamed o.error ≡ none → StopsAt after.error rest)

abbrev pub Finished : World → List Migration → Outcome → Outcome → Type 0
Finished w ms o after =
    after.error ≡ none
    → Adds o.db.rows ms after.db
      × (after.applied ≡ o.applied ++ versions ms)
      × (after.baselined ≡ o.baselined)
      × (any_baselined after.db.rows ≡ any_baselined o.db.rows)
      × (run_each w ms (some o.db.schema) ≡ some after.db.schema)

append_nil : (vs : List ℕ) → vs ++ [] ≡ vs
append_nil [] = refl
append_nil (v ∷ vs) = ap (◌∷◌ v) (append_nil vs)

append_assoc : (us vs ts : List ℕ) → (us ++ vs) ++ ts ≡ us ++ (vs ++ ts)
append_assoc [] vs ts = refl
append_assoc (u ∷ us) vs ts = ap (◌∷◌ u) (append_assoc us vs ts)

pub return_error-intro {κ} :
    (P : Outcome → Type κ) (e : Option Error) (o next : Outcome)
    → (e ≡ none → P next)
    → ((x : Error) → P (fail o x))
    → P (return_error e o next)
return_error-intro P none o next f g = f refl
return_error-intro P (some x) o next f g = g x

pub return_error-split {κ} :
    (P : Outcome → Type κ) (e : Option Error) (o next : Outcome)
    → (e ≡ none → P next)
    → ((x : Error) → e ≡ some x → P (fail o x))
    → P (return_error e o next)
return_error-split P none o next f g = f refl
return_error-split P (some x) o next f g = g x refl

pub apply_all-Progress :
    (w : World) (ms : List Migration) (o : Outcome) → Progress w ms o (apply_all w ms o)
unfolding apply_all
apply_all-Progress w [] o = (
  [],
  [],
  refl,
  sym (append_nil o.applied),
  refl,
  λ e. refl,
  λ none_before v e. absurd (ground (arith, none_before, e)),
)
apply_all-Progress w (m ∷ ms) o =
    let r = apply w m o.db in
    let o1 = at_db o r.db in
    let o2 = note_applied o1 m.version in
    let (done, rest, split, applied, baselined, whole, stops) = apply_all-Progress w ms o2 in
    return_error-split (Progress w (m ∷ ms) o) r.error o1 (apply_all w ms o2)
      (λ e. (
        m ∷ done,
        rest,
        ap (◌∷◌ m) split,
        applied ∙ append_assoc o.applied (m.version ∷ []) (versions done),
        baselined,
        whole,
        λ none_before. stops refl,
      ))
      (λ x e. (
        [],
        m ∷ ms,
        refl,
        sym (append_nil o.applied),
        refl,
        λ k. absurd (ground (arith, k)),
        λ none_before v b. (m, ms, refl, apply-NamesIt w m o.db v (ap blamed e ∙ b)),
      ))

Adds-trans :
    (rows : Rows) (m : Migration) (ms : List Migration) (db after : Database)
    → Adds rows (m ∷ []) db
    → Adds db.rows ms after
    → Adds rows (m ∷ ms) after
Adds-trans rows m ms db after (g, (h, u)) (k, hs) = (λ n hn. k n (g n hn), (k m h, hs))

pub apply_all-Finished :
    (w : World) (ms : List Migration) (o : Outcome) → Finished w ms o (apply_all w ms o)
unfolding apply_all
apply_all-Finished w [] o = λ e. ((λ k h. h, tt), sym (append_nil o.applied), refl, refl, refl)
apply_all-Finished w (m ∷ ms) o =
    let r = apply w m o.db in
    let o1 = at_db o r.db in
    let o2 = note_applied o1 m.version in
    return_error-intro (Finished w (m ∷ ms) o) r.error o1 (apply_all w ms o2)
      (λ ok e.
        let (adds, marks, ran) = apply-Applied w m o.db ok in
        let (more, applied, baselined, same, rest) = apply_all-Finished w ms o2 e in
        (
          Adds-trans o.db.rows m ms r.db (apply_all w ms o2).db adds more,
          applied ∙ append_assoc o.applied (m.version ∷ []) (versions ms),
          baselined,
          same ∙ marks,
          ap (run_each w ms) ran ∙ rest,
        ))
      (λ x e. absurd (ground (arith, e)))

-- Whatever fails, what is recorded stays so.
commit_to-Grows :
    (c : Commit) (db after : Database) (e : Error)
    → Grows db.rows after.rows
    → Grows db.rows (commit_to c db after e).db.rows
commit_to-Grows committed db after e g = g
commit_to-Grows rolled_back db after e g = λ m h. h
commit_to-Grows lost db after e g = g

record_applied-Grows :
    (w : World) (m : Migration) (db : Database) (o : Option Schema)
    → Grows db.rows (record_applied w m db o).db.rows
unfolding lookup
record_applied-Grows w m db none = λ k h. h
record_applied-Grows w m db (some after) =
    if-intro (λ (r : Written). Grows db.rows r.db.rows)
      (w.insert_fails applying m.version || is_recorded db.rows m) _ _ (λ b k h. h)
      (λ b.
        commit_to-Grows (w.commit applying m.version) db
          (record { schema = after; rows = record_row false m db.rows })
          (commit_migration m.version) (record_row-Grows false m db.rows))

apply-Grows : (w : World) (m : Migration) (db : Database) → Grows db.rows (apply w m db).db.rows
unfolding apply
apply-Grows w m db =
    if-intro (λ (r : Written). Grows db.rows r.db.rows) (w.begin_fails applying m.version) _ _
      (λ b k h. h) (λ b. record_applied-Grows w m db (w.run_sql (strip_tx_control m.sql) db.schema))

pub apply_all-Grows :
    (w : World) (ms : List Migration) (o : Outcome) → Grows o.db.rows (apply_all w ms o).db.rows
unfolding apply_all
apply_all-Grows w [] o = λ k h. h
apply_all-Grows w (m ∷ ms) o =
    let r = apply w m o.db in
    let o1 = at_db o r.db in
    let o2 = note_applied o1 m.version in
    return_error-intro (λ x. Grows o.db.rows x.db.rows) r.error o1 (apply_all w ms o2)
      (λ e k h. apply_all-Grows w ms o2 k (apply-Grows w m o.db k h)) (λ x. apply-Grows w m o.db)
