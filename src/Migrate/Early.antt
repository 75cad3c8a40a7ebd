-- ===== src/Migrate/Early.antt =====
-- run.go: the parts of a run before the loop that applies migrations.
use cronlite.Base.{ℕ, ap, sym, id_key, ◌≡◌, refl, ◌∙◌, none, some, List, [], ◌∷◌, if-intro}
use cronlite.Migrate.Load.{Migration}
use cronlite.Migrate.{
  World, Schema, Database, Written, Commit, committed, rolled_back, lost, commit_to, Prefix, found,
  failed, Probed, present, absent, query_error, run_probe, after_gap, present_prefix, add_found,
  leading_probe, after_gap_probe, Phase, Inserted, inserted, refused, insert_baselined,
  record_baselined, commit_inserted, commit_baseline, baseline, baseline_probed, baseline_present,
  at_db, unchanged, note_baselined, baselining, jobs_probe,
}
use cronlite.Migrate.Applying.{blamed, return_error-intro, return_error-split}

abbrev pub IsEarly : Prefix → Type 0
IsEarly (found ms) = Unit
IsEarly (failed e) = blamed (some e) ≡ none

after_gap-IsEarly :
    (w : World) (phase : Phase) (s : Schema) (missing : ℕ) (ms : List Migration)
    → IsEarly (after_gap w phase s missing ms)
unfolding after_gap
after_gap-IsEarly w phase s missing [] = tt
after_gap-IsEarly w phase s missing (m ∷ ms) =
    probe_gap (run_probe w phase m.version s) _ (after_gap-IsEarly w phase s missing ms)
  where
    probe_gap :
        (r : Probed) (rest : Prefix)
        → IsEarly rest
        → IsEarly (after_gap_probe r missing m.version rest)
    probe_gap query_error rest h = refl
    probe_gap absent rest h = h
    probe_gap present rest h = refl

add_found-IsEarly : (m : Migration) (p : Prefix) → IsEarly p → IsEarly (add_found m p)
add_found-IsEarly m (found hand) h = tt
add_found-IsEarly m (failed e) h = h

leading-IsEarly :
    (r : Probed) (m : Migration) (rest gap : Prefix)
    → IsEarly rest
    → IsEarly gap
    → IsEarly (leading_probe r m rest gap)
leading-IsEarly query_error m rest gap h k = refl
leading-IsEarly absent m rest gap h k = k
leading-IsEarly present m rest gap h k = add_found-IsEarly m rest h

pub present_prefix-IsEarly :
    (w : World) (phase : Phase) (s : Schema) (ms : List Migration)
    → IsEarly (present_prefix w phase s ms)
unfolding present_prefix
present_prefix-IsEarly w phase s [] = tt
present_prefix-IsEarly w phase s (m ∷ ms) =
    leading-IsEarly (run_probe w phase m.version s) m (present_prefix w phase s ms)
      (after_gap w phase s m.version ms) (present_prefix-IsEarly w phase s ms)
      (after_gap-IsEarly w phase s m.version ms)

abbrev pub Unblamed : Written → Type 0
Unblamed r = blamed r.error ≡ none

commit_inserted-Unblamed :
    (w : World) (phase : Phase) (db : Database) (r : Inserted)
    → Unblamed (commit_inserted w phase db r)
commit_inserted-Unblamed w phase db (refused v) = refl
commit_inserted-Unblamed w phase db (inserted rows) =
    by_commit (w.commit phase 0) (record { schema = db.schema; rows = rows })
  where
    by_commit : (c : Commit) (after : Database) → Unblamed (commit_to c db after commit_baseline)
    by_commit committed after = refl
    by_commit rolled_back after = refl
    by_commit lost after = refl

pub record_baselined-Unblamed :
    (w : World) (phase : Phase) (ms : List Migration) (db : Database)
    → Unblamed (record_baselined w phase ms db)
unfolding record_baselined
record_baselined-Unblamed w phase [] db = refl
record_baselined-Unblamed w phase (m ∷ ms) db =
    if-intro Unblamed (w.begin_fails phase 0) _ _ (λ b. refl)
      (λ b. commit_inserted-Unblamed w phase db (insert_baselined w phase (m ∷ ms) db.rows))

baseline_present-Unblamed :
    (w : World) (db : Database) (p : Prefix)
    → IsEarly p
    → blamed (baseline_present w db p).error ≡ none
unfolding record_baselined baseline_present
baseline_present-Unblamed w db (failed e) h = h
baseline_present-Unblamed w db (found ms) h =
    let r = record_baselined w baselining ms db in
    let o1 = at_db (unchanged db) r.db in
    return_error-split (λ o. blamed o.error ≡ none) r.error o1 (note_baselined o1 ms) (λ e. refl)
      (λ x e. ap blamed (sym e) ∙ record_baselined-Unblamed w baselining ms db)

pub baseline-Unblamed :
    (w : World) (ms : List Migration) (db : Database) → blamed (baseline w ms db).error ≡ none
unfolding baseline
baseline-Unblamed w ms db =
    go (run_probe w jobs_probe 1 db.schema) (present_prefix w baselining db.schema ms)
      (present_prefix-IsEarly w baselining db.schema ms)
  where
    go : (r : Probed) (p : Prefix) → IsEarly p → blamed (baseline_probed w db r p).error ≡ none
    go query_error p h = refl
    go absent p h = refl
    go present p h = baseline_present-Unblamed w db p h

baseline_present-applied :
    (w : World) (db : Database) (p : Prefix) → (baseline_present w db p).applied ≡ []
unfolding record_baselined
baseline_present-applied w db (failed e) = refl
baseline_present-applied w db (found ms) =
    return_error-intro (λ o. o.applied ≡ []) _ _ _ (λ e. refl) (λ x. refl)

pub baseline-applied :
    (w : World) (ms : List Migration) (db : Database) → (baseline w ms db).applied ≡ []
unfolding baseline
baseline-applied w ms db =
    go (run_probe w jobs_probe 1 db.schema) (present_prefix w baselining db.schema ms)
  where
    go : (r : Probed) (p : Prefix) → (baseline_probed w db r p).applied ≡ []
    go query_error p = refl
    go absent p = refl
    go present p = baseline_present-applied w db p
