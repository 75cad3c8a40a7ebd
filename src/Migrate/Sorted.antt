-- ===== src/Migrate/Sorted.antt =====
-- load.go: the order of the migrations that are loaded.
use cronlite.Base.{
  ℕ, ◌≡◌, ◌≢◌, ◌<◌, Bool, false, Option, none, some, String, List, [], ◌∷◌, arith, All, any,
  nat_beq, leb, if-intro, sort_by, insert_by, leb→le,
}
use cronlite.Base.Texts.{Text}
use cronlite.Migrate.Load.{
  Migration, Entry, Loaded, loaded, load_failed, add_loaded, read_entry, new_migration, load_entry,
  load_entries, sorted, load, migration_version,
}

-- Versions ascend strictly.
abbrev pub Ascending : List Migration → Type 0
Ascending [] = Unit
Ascending (m ∷ ms) = All (λ n. m.version < n.version) ms × Ascending ms

abbrev Differ : Migration → List Migration → Type 0
Differ m ms = All (λ n. m.version ≢ n.version) ms

abbrev Distinct : List Migration → Type 0
Distinct [] = Unit
Distinct (m ∷ ms) = Differ m ms × Distinct ms

abbrev by_version : Migration → Migration → Bool
by_version a b = leb a.version b.version

lower-All :
    (m n : Migration) (ms : List Migration)
    → m.version < n.version
    → All (λ k. n.version < k.version) ms
    → All (λ k. m.version < k.version) ms
lower-All m n [] h hs = tt
lower-All m n (k ∷ ms) h (hk, hs) = (omega (arith, h, hk), lower-All m n ms h hs)

insert-Above :
    (m x : Migration) (ms : List Migration)
    → m.version < x.version
    → All (λ n. m.version < n.version) ms
    → All (λ n. m.version < n.version) (insert_by by_version x ms)
unfolding insert_by
insert-Above m x [] h hs = (h, tt)
insert-Above m x (n ∷ ms) h (hn, hs) =
    if-intro (All (λ k. m.version < k.version)) (by_version x n) _ _ (λ b. (h, (hn, hs)))
      (λ b. (hn, insert-Above m x ms h hs))

insert-Ascending :
    (m : Migration) (ms : List Migration)
    → Differ m ms
    → Ascending ms
    → Ascending (insert_by by_version m ms)
unfolding insert_by
insert-Ascending m [] d h = (tt, tt)
insert-Ascending m (n ∷ ms) (dn, d) (hn, h) =
    if-intro Ascending (by_version m n) _ _
      (λ b.
        let lt : m.version < n.version = omega (arith, leb→le m.version n.version b, dn) in
        ((lt, lower-All m n ms lt hn), (hn, h)))
      (λ b. (insert-Above n m ms (ground (arith, b)) hn, insert-Ascending m ms d h))

insert-Differ :
    (m x : Migration) (ms : List Migration)
    → m.version ≢ x.version
    → Differ m ms
    → Differ m (insert_by by_version x ms)
unfolding insert_by
insert-Differ m x [] h hs = (h, tt)
insert-Differ m x (n ∷ ms) h (hn, hs) =
    if-intro (Differ m) (by_version x n) _ _ (λ b. (h, (hn, hs)))
      (λ b. (hn, insert-Differ m x ms h hs))

sort-Differ : (m : Migration) (ms : List Migration) → Differ m ms → Differ m (sort_by by_version ms)
unfolding sort_by
sort-Differ m [] h = tt
sort-Differ m (n ∷ ms) (hn, h) = insert-Differ m n (sort_by by_version ms) hn (sort-Differ m ms h)

sort-Ascending : (ms : List Migration) → Distinct ms → Ascending (sort_by by_version ms)
unfolding sort_by
sort-Ascending [] h = tt
sort-Ascending (m ∷ ms) (d, h) =
    insert-Ascending m (sort_by by_version ms) (sort-Differ m ms d) (sort-Ascending ms h)

-- The versions loaded are new, and differ.
abbrev Fresh : List ℕ → Loaded → Type 0
Fresh seen (load_failed e) = Unit
Fresh seen (loaded ms) = All (λ m. any (nat_beq m.version) seen ≡ false) ms × Distinct ms

unseen :
    (m : Migration) (seen : List ℕ) (ms : List Migration)
    → All (λ n. any (nat_beq n.version) (m.version ∷ seen) ≡ false) ms
    → Differ m ms × All (λ n. any (nat_beq n.version) seen ≡ false) ms
unfolding any
unseen m seen [] h = (tt, tt)
unseen m seen (n ∷ ms) (hn, h) =
    let (d, u) = unseen m seen ms h in ((ground (arith, hn), d), (ground (arith, hn), u))

add_loaded-Fresh :
    (m : Migration) (seen : List ℕ) (r : Loaded)
    → any (nat_beq m.version) seen ≡ false
    → Fresh (m.version ∷ seen) r
    → Fresh seen (add_loaded m r)
add_loaded-Fresh m seen (load_failed e) new h = tt
add_loaded-Fresh m seen (loaded ms) new (h, d) =
    let (differ, u) = unseen m seen ms h in ((new, u), (differ, d))

read_entry-Fresh :
    (sha : Text → String) (version : ℕ) (name : Text) (content : Option Text) (seen : List ℕ)
    (rest : Loaded)
    → any (nat_beq version) seen ≡ false
    → Fresh (version ∷ seen) rest
    → Fresh seen (read_entry sha version name content rest)
read_entry-Fresh sha version name none seen rest new h = tt
read_entry-Fresh sha version name (some raw) seen rest new h =
    add_loaded-Fresh (new_migration sha version name raw) seen rest new h

load_entry-Fresh :
    (sha : Text → String) (e : Entry) (v : Option ℕ) (seen : List ℕ) (skipped : Loaded)
    (next : ℕ → Loaded)
    → Fresh seen skipped
    → ((version : ℕ) → Fresh (version ∷ seen) (next version))
    → Fresh seen (load_entry sha e v seen skipped next)
load_entry-Fresh sha e none seen skipped next h k = h
load_entry-Fresh sha e (some version) seen skipped next h k =
    if-intro (Fresh seen) (any (nat_beq version) seen) _ _ (λ b. tt)
      (λ b. read_entry-Fresh sha version e.name e.content seen (next version) b (k version))

load_entries-Fresh :
    (sha : Text → String) (seen : List ℕ) (es : List Entry) → Fresh seen (load_entries sha seen es)
unfolding load_entries
load_entries-Fresh sha seen [] = (tt, tt)
load_entries-Fresh sha seen (e ∷ es) =
    if-intro (Fresh seen) e.is_dir _ _ (λ b. load_entries-Fresh sha seen es)
      (λ b.
        load_entry-Fresh sha e (migration_version e.name) seen _ _ (load_entries-Fresh sha seen es)
          (λ version. load_entries-Fresh sha (version ∷ seen) es))

-- The migrations that are loaded have strictly ascending versions.
abbrev pub AscendingIfLoaded : Loaded → Type 0
AscendingIfLoaded (load_failed e) = Unit
AscendingIfLoaded (loaded ms) = Ascending ms

sorted-Ascending : (r : Loaded) → Fresh [] r → AscendingIfLoaded (sorted r)
unfolding sort_by
sorted-Ascending (load_failed e) h = tt
sorted-Ascending (loaded ms) (h, d) = sort-Ascending ms d

-- Whatever the directory holds, the migrations that are loaded are in strictly ascending order of
-- their versions.
pub load-Ascending :
    (sha : Text → String) (entries : List Entry) → AscendingIfLoaded (load sha entries)
unfolding load
load-Ascending sha entries =
    sorted-Ascending (load_entries sha [] entries) (load_entries-Fresh sha [] entries)
