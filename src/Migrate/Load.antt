-- ===== src/Migrate/Load.antt =====
-- internal/migrate/load.go.
use cronlite.Base.{
  ℕ, ◌+◌, ◌-◌, ◌*◌, Bool, false, ◌&&◌, ◌||◌, not, Option, none, some, List, [], ◌∷◌, map, String,
  if◌then◌else◌, leb, nat_beq, any, sort_by, id_key,
}
use cronlite.Dispatcher.Classify.{bytes}
use cronlite.Base.Texts.{Text, split_on, join_with, trim_space, to_lower, same_text}

pub record Migration : Type 0 where
  pub version : ℕ
  pub name : Text
  pub sql : Text
  pub checksum : String
  pub manual_on_existing : Bool

unfoldable pub is_tx_control : Text → Bool
unfolding trim_space same_text
is_tx_control line =
    let word = map to_lower (trim_space line) in
    same_text word (bytes "begin;") || same_text word (bytes "commit;")

abbrev pub blank_tx_control : Text → Text
unfolding is_tx_control
blank_tx_control line = if is_tx_control line then [] else line

unfoldable pub strip_tx_control : Text → Text
unfolding split_on join_with is_tx_control
strip_tx_control sql = join_with b'\n' (map blank_tx_control (split_on b'\n' sql))

-- A file of the directory: its name, and its bytes as far as they can be read.
pub record Entry : Type 0 where
  pub name : Text
  pub is_dir : Bool
  pub content : Option Text

pub data LoadError : Type 0 where
  duplicate_version : ℕ → LoadError
  read_failed : Text → LoadError

pub data Loaded : Type 0 where
  loaded : List Migration → Loaded
  load_failed : LoadError → Loaded

abbrev pub is_digit : ℕ → Bool
is_digit c = leb b'0' c && leb c b'9'

-- `.+\.sql$`: something, but no newline, and then ".sql".
unfoldable pub is_sql_tail : Text → Bool
unfolding same_text
is_sql_tail [] = false
is_sql_tail (c ∷ s) = not (nat_beq c b'\n') && (same_text s (bytes ".sql") || is_sql_tail s)

abbrev pub digits_value : ℕ → ℕ → ℕ → ℕ
digits_value a b c = 100 * (a - b'0') + 10 * (b - b'0') + (c - b'0')

-- migrationName, `^(\d{3})_.+\.sql$`, and the version in its group.
unfoldable pub migration_version : Text → Option ℕ
unfolding is_sql_tail
migration_version (a ∷ b ∷ c ∷ d ∷ rest) =
    if is_digit a && is_digit b && is_digit c && nat_beq d b'_' && is_sql_tail rest
    then some (digits_value a b c)
    else none
migration_version name = none

abbrev pub manual_on_existing : ℕ → Bool
manual_on_existing version = nat_beq version 11

-- `sha` is the hexadecimal SHA-256 of the file.
abbrev pub new_migration : (Text → String) → ℕ → Text → Text → Migration
new_migration sha version name raw = record {
  version = version;
  name = name;
  sql = raw;
  checksum = sha raw;
  manual_on_existing = manual_on_existing version;
}

abbrev pub add_loaded : Migration → Loaded → Loaded
add_loaded m (loaded ms) = loaded (m ∷ ms)
add_loaded m (load_failed e) = load_failed e

abbrev pub read_entry : (Text → String) → ℕ → Text → Option Text → Loaded → Loaded
read_entry sha version name none rest = load_failed (read_failed name)
read_entry sha version name (some raw) rest = add_loaded (new_migration sha version name raw) rest

abbrev pub load_entry : (Text → String) → Entry → Option ℕ → List ℕ → Loaded → (ℕ → Loaded) → Loaded
load_entry sha e none seen skipped next = skipped
load_entry sha e (some version) seen skipped next =
    if any (nat_beq version) seen
    then load_failed (duplicate_version version)
    else read_entry sha version e.name e.content (next version)

-- The loop over the entries, given the versions seen.
unfoldable pub load_entries : (Text → String) → List ℕ → List Entry → Loaded
unfolding migration_version any
load_entries sha seen [] = loaded []
load_entries sha seen (e ∷ es) =
    let skipped = load_entries sha seen es in
    if e.is_dir
    then skipped
    else load_entry sha e (migration_version e.name) seen skipped
        (λ version. load_entries sha (version ∷ seen) es)

abbrev pub sorted : Loaded → Loaded
unfolding sort_by
sorted (loaded ms) = loaded (sort_by (λ a b. leb a.version b.version) ms)
sorted (load_failed e) = load_failed e

unfoldable pub load : (Text → String) → List Entry → Loaded
unfolding load_entries sort_by
load sha entries = sorted (load_entries sha [] entries)
