-- ===== src/Store/Rows.antt =====
-- What the statements of queries.go do to one row, found by its primary key.
use mathlib.Core.Option
use cronlite.Base.{
  ℕ, ◌≡◌, refl, Bool, true, false, none, some, List, [], ◌∷◌, arith, filter_by, sort_by, any,
  any-take, any-sort_by, nat_beq, sym, ◌∙◌, if◌then◌else◌,
}
use cronlite.Domain.{Execution}
use cronlite.Store.{update_where, find, select_rows, is_picked, conflicts, inserted}

pub find-id : (i : ℕ) (rows : List Execution) (e : Execution) → find i rows ≡ some e → e.id ≡ i
unfolding find
find-id i [] e h = ground arith
find-id i (r ∷ rows) e h = ground (arith, find-id i rows e)

-- An update that keeps the ids changes a row by itself.
pub find-update_where :
    (i : ℕ) (p : Execution → Bool) (f : Execution → Execution) (rows : List Execution)
    → ((e : Execution) → (f e).id ≡ e.id)
    → find i (update_where p f rows) ≡ Option.map (λ e. if p e then f e else e) (find i rows)
unfolding find update_where
find-update_where i p f [] same = refl
find-update_where i p f (r ∷ rows) same = ground (arith, same r, find-update_where i p f rows same)

-- Every id is the id of one row.
abbrev pub IsKeyed : List Execution → Type 0
IsKeyed [] = Unit {0}
IsKeyed (e ∷ es) = (find e.id es ≡ none) × IsKeyed es

pub update_where-IsKeyed :
    (p : Execution → Bool) (f : Execution → Execution) (rows : List Execution)
    → ((e : Execution) → (f e).id ≡ e.id)
    → IsKeyed rows
    → IsKeyed (update_where p f rows)
unfolding update_where
update_where-IsKeyed p f [] same keyed = tt
update_where-IsKeyed p f (r ∷ rows) same keyed = (
  ground (arith, same r, find-update_where r.id p f rows same),
  update_where-IsKeyed p f rows same keyed.1,
)

pub find_absent :
    (e : Execution) (rows : List Execution) → any (conflicts e) rows ≡ false → find e.id rows ≡ none
unfolding find any
find_absent e [] h = refl
find_absent e (r ∷ rows) h = ground (arith, find_absent e rows)

pub insert-IsKeyed :
    (e : Execution) (rows : List Execution)
    → any (conflicts e) rows ≡ false
    → IsKeyed rows
    → IsKeyed (inserted e ∷ rows)
insert-IsKeyed e rows free keyed = (find_absent e rows free, keyed)

picked_absent :
    (i : ℕ) (p : Execution → Bool) (rows : List Execution)
    → find i rows ≡ none
    → any (λ r. nat_beq r.id i) (filter_by p rows) ≡ false
unfolding find filter_by any
picked_absent i p [] h = refl
picked_absent i p (r ∷ rows) h = ground (arith, picked_absent i p rows)

picked_passes :
    (i : ℕ) (p : Execution → Bool) (rows : List Execution) (e : Execution)
    → IsKeyed rows
    → find i rows ≡ some e
    → any (λ r. nat_beq r.id i) (filter_by p rows) ≡ true
    → p e ≡ true
unfolding find filter_by any
picked_passes i p [] e keyed h picked = ground arith
picked_passes i p (r ∷ rows) e keyed h picked =
    ground (arith, picked_passes i p rows e keyed.1, picked_absent i p rows)

-- A row whose id was selected meets the condition of the selection.
pub select_rows-passes :
    (p : Execution → Bool) (le : Execution → Execution → Bool) (n : ℕ) (rows : List Execution)
    (i : ℕ) (e : Execution)
    → IsKeyed rows
    → find i rows ≡ some e
    → is_picked (select_rows p le n rows) e ≡ true
    → p e ≡ true
unfolding select_rows
select_rows-passes p le n rows i e keyed h picked = picked_passes i p rows e keyed h (
    sym (any-sort_by (λ r. nat_beq r.id i) le (filter_by p rows))
    ∙ any-take (λ r. nat_beq r.id i) n (sort_by le (filter_by p rows))
        (rw (find-id i rows e h) at picked))
