-- ===== src/Migrate/Recording.antt =====
-- run.go: what is recorded stays so, and what presentPrefix finds is a prefix.
use cronlite.Base.{
  ℕ, ◌≡◌, refl, ap, Bool, true, ◌||◌, none, List, [], ◌∷◌, ◌++◌, length, drop, arith, All, lookup,
  if-intro, nat_beq_iff,
}
use cronlite.Migrate.Load.{Migration}
use cronlite.Migrate.{
  World, Phase, Schema, Rows, Database, Written, Error, Prefix, found, failed, Probed, present,
  absent, query_error, run_probe, after_gap, present_prefix, add_found, leading_probe,
  after_gap_probe, is_recorded, record_row, Inserted, inserted, refused, insert_baselined,
  record_baselined, commit_inserted, Commit, committed, rolled_back, lost, commit_to,
}

abbrev pub IsRecorded : Rows → Migration → Type 0
IsRecorded rows m = is_recorded rows m ≡ true

-- What is recorded in the first table is so in the second.
abbrev pub Grows : Rows → Rows → Type 0
Grows rows after = (m : Migration) → IsRecorded rows m → IsRecorded after m

pub record_row_self : (b : Bool) (m : Migration) (rows : Rows) → IsRecorded (record_row b m rows) m
unfolding lookup
record_row_self b m rows = ground (arith, nat_beq_iff m.version m.version)

pub record_row-Grows : (b : Bool) (m : Migration) (rows : Rows) → Grows rows (record_row b m rows)
unfolding lookup
record_row-Grows b m rows k h = ground (arith, h)

pub All-Grows :
    (rows after : Rows) (ms : List Migration)
    → Grows rows after
    → All (IsRecorded rows) ms
    → All (IsRecorded after) ms
All-Grows rows after [] g h = tt
All-Grows rows after (m ∷ ms) g (hm, h) = (g m hm, All-Grows rows after ms g h)

-- The table that the INSERTs leave, if none is refused.
abbrev pub RecordedAll : Rows → List Migration → Inserted → Type 0
RecordedAll rows ms (refused v) = Unit
RecordedAll rows ms (inserted after) = Grows rows after × All (IsRecorded after) ms

insert_one :
    (m : Migration) (ms : List Migration) (rows : Rows) (r : Inserted)
    → RecordedAll (record_row true m rows) ms r
    → RecordedAll rows (m ∷ ms) r
insert_one m ms rows (refused v) h = tt
insert_one m ms rows (inserted after) (g, h) =
    (λ k hk. g k (record_row-Grows true m rows k hk), (g m (record_row_self true m rows), h))

pub insert_baselined-RecordedAll :
    (w : World) (phase : Phase) (ms : List Migration) (rows : Rows)
    → RecordedAll rows ms (insert_baselined w phase ms rows)
unfolding insert_baselined lookup
insert_baselined-RecordedAll w phase [] rows = (λ k h. h, tt)
insert_baselined-RecordedAll w phase (m ∷ ms) rows =
    if-intro (RecordedAll rows (m ∷ ms)) (w.insert_fails phase m.version || is_recorded rows m) _ _
      (λ b. tt)
      (λ b.
        insert_one m ms rows _ (insert_baselined-RecordedAll w phase ms (record_row true m rows)))

-- A transaction without an error has been carried out.
pub commit_to-committed {κ} :
    (P : Database → Type κ) (c : Commit) (before after : Database) (e : Error)
    → P after
    → (commit_to c before after e).error ≡ none
    → P (commit_to c before after e).db
commit_to-committed P committed before after e h k = h
commit_to-committed P rolled_back before after e h k = ground arith
commit_to-committed P lost before after e h k = ground arith

-- What a step that adds the migrations leaves.
abbrev pub Adds : Rows → List Migration → Database → Type 0
Adds rows ms db = Grows rows db.rows × All (IsRecorded db.rows) ms

commit-Adds :
    (w : World) (phase : Phase) (ms : List Migration) (db : Database) (r : Inserted)
    → RecordedAll db.rows ms r
    → (commit_inserted w phase db r).error ≡ none
    → Adds db.rows ms (commit_inserted w phase db r).db
commit-Adds w phase ms db (refused v) h e = ground arith
commit-Adds w phase ms db (inserted after) h e =
    commit_to-committed (Adds db.rows ms) (w.commit phase 0) db _ _ h e

-- If there was no error.
abbrev pub AddsIfDone : Rows → List Migration → Written → Type 0
AddsIfDone rows ms r = r.error ≡ none → Adds rows ms r.db

pub record_baselined-Adds :
    (w : World) (phase : Phase) (ms : List Migration) (db : Database)
    → AddsIfDone db.rows ms (record_baselined w phase ms db)
unfolding record_baselined
record_baselined-Adds w phase [] db = λ e. (λ k h. h, tt)
record_baselined-Adds w phase (m ∷ ms) db =
    if-intro (AddsIfDone db.rows (m ∷ ms)) (w.begin_fails phase 0) _ _ (λ b e. ground arith)
      (λ b e.
        commit-Adds w phase (m ∷ ms) db (insert_baselined w phase (m ∷ ms) db.rows)
          (insert_baselined-RecordedAll w phase (m ∷ ms) db.rows) e)

-- The prefix and what is left.
abbrev pub Splits : List Migration → Prefix → Type 0
Splits ms (failed e) = Unit
Splits ms (found hand) = hand ++ drop (length hand) ms ≡ ms

after_gap-found :
    (w : World) (phase : Phase) (s : Schema) (missing : ℕ) (all ms : List Migration)
    → Splits all (after_gap w phase s missing ms)
unfolding after_gap
after_gap-found w phase s missing all [] = refl
after_gap-found w phase s missing all (m ∷ ms) =
    probe_gap (run_probe w phase m.version s) _ (after_gap-found w phase s missing all ms)
  where
    probe_gap :
        (r : Probed) (rest : Prefix)
        → Splits all rest
        → Splits all (after_gap_probe r missing m.version rest)
    probe_gap query_error rest h = tt
    probe_gap absent rest h = h
    probe_gap present rest h = tt

add_found-Splits :
    (m : Migration) (ms : List Migration) (p : Prefix)
    → Splits ms p
    → Splits (m ∷ ms) (add_found m p)
add_found-Splits m ms (found hand) h = ap (◌∷◌ m) h
add_found-Splits m ms (failed e) h = tt

leading-Splits :
    (r : Probed) (m : Migration) (ms : List Migration) (rest gap : Prefix)
    → Splits ms rest
    → Splits (m ∷ ms) gap
    → Splits (m ∷ ms) (leading_probe r m rest gap)
leading-Splits query_error m ms rest gap h k = tt
leading-Splits absent m ms rest gap h k = k
leading-Splits present m ms rest gap h k = add_found-Splits m ms rest h

pub present_prefix-Splits :
    (w : World) (phase : Phase) (s : Schema) (ms : List Migration)
    → Splits ms (present_prefix w phase s ms)
unfolding present_prefix
present_prefix-Splits w phase s [] = refl
present_prefix-Splits w phase s (m ∷ ms) =
    leading-Splits (run_probe w phase m.version s) m ms _ _ (present_prefix-Splits w phase s ms)
      (after_gap-found w phase s m.version (m ∷ ms) ms)
