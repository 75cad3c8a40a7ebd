-- ===== src/Migrate/Runs.antt =====
-- run.go: a whole run under the lock.
use cronlite.Base.{
  ℕ, ◌≡◌, refl, sym, Bool, true, false, not, Option, none, some, List, [], ◌∷◌, ◌++◌, length, drop,
  arith, All, filter_by, lookup, if◌then◌else◌, if-intro, All-append,
}
use mathlib.Core.Path.{subst}
use cronlite.Base.Texts.{is_nil}
use cronlite.Migrate.Load.{Migration}
use cronlite.Migrate.{
  World, Schema, Rows, Database, Outcome, is_recorded, Prefix, found, failed, run_probe, Probed,
  present, absent, query_error, present_prefix, record_baselined, up_to_manual, apply_unless,
  on_existing, pending, run_pending, baseline, baseline_probed, unchanged, run_tracked, fail,
  return_error, at_db, note_baselined, apply_all, any_baselined, hand_applying, jobs_probe,
  read_tracking, check_probe,
}
use cronlite.Migrate.Recording.{
  IsRecorded, Grows, Adds, Splits, present_prefix-Splits, record_baselined-Adds, All-Grows,
}
use cronlite.Migrate.Applying.{apply_all-Finished, return_error-intro}

-- A run without an error has recorded them all.
abbrev pub RecordedIfDone : List Migration → Outcome → Type 0
RecordedIfDone ms o = o.error ≡ none → All (IsRecorded o.db.rows) ms

abbrev AddsIfRun : Rows → List Migration → Outcome → Type 0
AddsIfRun rows ms o = o.error ≡ none → Adds rows ms o.db

Adds-append :
    (rows : Rows) (xs ys : List Migration) (db after : Database)
    → Adds rows xs db
    → Adds db.rows ys after
    → Adds rows (xs ++ ys) after
Adds-append rows xs ys db after (g, h) (k, hk) = (
  λ n hn. k n (g n hn),
  All-append (IsRecorded after.rows) xs ys (All-Grows db.rows after.rows xs k h) hk,
)

apply_unless-Adds :
    (rows : Rows) (ms : List Migration) (vs : Option (List ℕ)) (o next : Outcome)
    → AddsIfRun rows ms next
    → AddsIfRun rows ms (apply_unless vs o next)
apply_unless-Adds rows ms none o next h = h
apply_unless-Adds rows ms (some vs) o next h = λ e. absurd (ground (arith, e))

on_existing-Adds :
    (w : World) (ms : List Migration) (o : Outcome) (p : Prefix)
    → Splits ms p
    → AddsIfRun o.db.rows ms (on_existing w ms o p)
unfolding on_existing
on_existing-Adds w ms o (failed x) split = λ e. absurd (ground (arith, e))
on_existing-Adds w ms o (found hand) split =
    let r = record_baselined w hand_applying hand o.db in
    let o1 = at_db o r.db in
    let rest = drop (length hand) ms in
    let o2 = note_baselined o1 hand in
    return_error-intro (AddsIfRun o.db.rows ms) r.error o1 _
      (λ ok. apply_unless-Adds o.db.rows ms (up_to_manual rest) o2 (apply_all w rest o2) (λ e.
        let h = record_baselined-Adds w hand_applying hand o.db ok in
        let k = (apply_all-Finished w rest o2 e).0 in
        subst (λ xs. Adds o.db.rows xs (apply_all w rest o2).db) split
          (Adds-append o.db.rows hand rest r.db (apply_all w rest o2).db h k)))
      (λ x e. absurd (ground (arith, e)))

pending-Recorded :
    (ms : List Migration) (rows after : Rows)
    → Grows rows after
    → All (IsRecorded after) (pending ms rows)
    → All (IsRecorded after) ms
unfolding pending filter_by
pending-Recorded [] rows after g = λ h. tt
pending-Recorded (m ∷ ms) rows after g =
    let ih = pending-Recorded ms rows after g in
    if-intro (λ xs. All (IsRecorded after) xs → All (IsRecorded after) (m ∷ ms))
      (not (is_recorded rows m)) (m ∷ pending ms rows) (pending ms rows) (λ b (hm, h). (hm, ih h))
      (λ b h. (g m (ground (arith, b)), ih h))

run_pending-Recorded :
    (w : World) (ms : List Migration) (o : Outcome) → RecordedIfDone ms (run_pending w ms o)
unfolding run_pending
run_pending-Recorded w ms o =
    let rest = pending ms o.db.rows in
    if-intro (RecordedIfDone ms) (any_baselined o.db.rows) _ _
      (λ b e.
        let (g, h) =
          on_existing-Adds w rest o _ (present_prefix-Splits w hand_applying o.db.schema rest) e in
        pending-Recorded ms o.db.rows _ g h)
      (λ b e. let (g, h) = (apply_all-Finished w rest o e).0 in pending-Recorded ms o.db.rows _ g h)

pub run-Recorded :
    (w : World) (ms : List Migration) (db : Database) → RecordedIfDone ms (run_tracked w ms db)
unfolding run_tracked
run-Recorded w ms db =
    let o = baseline w ms db in
    let P = RecordedIfDone ms in
    if-intro P w.read_fails _ _ (λ b e. absurd (ground (arith, e)))
      (λ b.
        if-intro P (is_nil db.rows) _ _
          (λ c.
            return_error-intro P o.error o _
              (λ ok.
                if-intro P w.reread_fails _ _ (λ d e. absurd (ground (arith, e)))
                  (λ d. run_pending-Recorded w ms o))
              (λ x e. absurd (ground (arith, e))))
          (λ c. run_pending-Recorded w ms (unchanged db)))

nothing_pending :
    (ms : List Migration) (rows : Rows) → All (IsRecorded rows) ms → pending ms rows ≡ []
unfolding pending filter_by
nothing_pending [] rows h = refl
nothing_pending (m ∷ ms) rows (hm, h) = ground (arith, hm, nothing_pending ms rows h)

both_same {ℓ} : {A : Type ℓ} (b : Bool) (x : A) → (if b then x else x) ≡ x
both_same true x = refl
both_same false x = refl

pending_idle :
    (w : World) (ms : List Migration) (db : Database)
    → pending ms db.rows ≡ []
    → run_pending w ms (unchanged db) ≡ unchanged db
unfolding run_pending present_prefix apply_all on_existing record_baselined up_to_manual
pending_idle w ms db h =
    let o = unchanged db in
    subst
      (λ xs.
        (if any_baselined db.rows
          then on_existing w xs o (present_prefix w hand_applying db.schema xs)
          else apply_all w xs o)
        ≡ o)
      (sym h) (both_same (any_baselined db.rows) o)

empty_records_none :
    (rows : Rows) (m : Migration) → is_nil rows ≡ true → IsRecorded rows m → false ≡ true
unfolding lookup
empty_records_none [] m e h = h
empty_records_none (r ∷ rows) m e h = e

probed_idle :
    (w : World) (db : Database) (r : Probed)
    → (r ≡ query_error → false ≡ true)
    → baseline_probed w db r (found []) ≡ unchanged db
unfolding record_baselined
probed_idle w db query_error h = absurd (ground (arith, h refl))
probed_idle w db absent h = refl
probed_idle w db present h = refl

jobs_probe-known :
    (w : World) (s : Schema)
    → w.query_fails jobs_probe 1 ≡ false
    → run_probe w jobs_probe 1 s ≡ query_error
    → false ≡ true
unfolding run_probe lookup check_probe
jobs_probe-known w s h e = ground (arith, h, e)

baseline_idle :
    (w : World) (ms : List Migration) (db : Database)
    → w.query_fails jobs_probe 1 ≡ false
    → is_nil db.rows ≡ true
    → All (IsRecorded db.rows) ms
    → baseline w ms db ≡ unchanged db
unfolding baseline present_prefix
baseline_idle w [] db probe c h =
    probed_idle w db (run_probe w jobs_probe 1 db.schema) (jobs_probe-known w db.schema probe)
baseline_idle w (m ∷ ms) db probe c (hm, h) =
    absurd (ground (arith, empty_records_none db.rows m c hm))

tracked_idle :
    (w : World) (ms : List Migration) (db : Database)
    → All (IsRecorded db.rows) ms
    → w.read_fails ≡ false
    → w.reread_fails ≡ false
    → w.query_fails jobs_probe 1 ≡ false
    → run_tracked w ms db ≡ unchanged db
unfolding run_tracked
tracked_idle w ms db h read reread probe =
    let P : Outcome → Type 0 = λ o. o ≡ unchanged db in
    let idle = pending_idle w ms db (nothing_pending ms db.rows h) in
    if-intro P w.read_fails _ _ (λ b. absurd (ground (arith, read, b)))
      (λ b.
        if-intro P (is_nil db.rows) _ _
          (λ c.
            subst
              (λ o.
                return_error o.error o
                  (if w.reread_fails then fail o read_tracking else run_pending w ms o)
                ≡ unchanged db)
              (sym (baseline_idle w ms db probe c h))
              (if-intro P w.reread_fails _ _ (λ d. absurd (ground (arith, reread, d))) (λ d. idle)))
          (λ c. idle))

-- After a run of the migrations without an error, another run, whose readings and whose look for
-- "jobs" succeed, changes nothing: it applies no migration and baselines none, without an error.
pub rerun_idle :
    (w w2 : World) (ms : List Migration) (db : Database)
    → (run_tracked w ms db).error ≡ none
    → w2.read_fails ≡ false
    → w2.reread_fails ≡ false
    → w2.query_fails jobs_probe 1 ≡ false
    → run_tracked w2 ms (run_tracked w ms db).db ≡ unchanged (run_tracked w ms db).db
rerun_idle w w2 ms db e read reread probe =
    tracked_idle w2 ms (run_tracked w ms db).db (run-Recorded w ms db e) read reread probe
