-- ===== src/Store/Deletion.antt =====
-- queries.go: the statements on executions together with queryDeleteJob, the only one that deletes rows
-- of the table, and what they leave of a row whose job stays.
use mathlib.Core.Option.{some-injective}
use mathlib.Core.Path.{subst}
use cronlite.Base.{
  ℕ, ◌+◌, ◌*◌, ◌≤◌, ◌≡◌, ◌≢◌, refl, ap, ◌∙◌, sym, Bool, true, false, not, Option, none, some, List,
  [], ◌∷◌, arith, All, filter_by, nat_beq, nat_beq_iff, if◌then◌else◌, if-intro,
}
use cronlite.Domain.{Execution, in_progress, is_terminal}
use cronlite.Store.{Store, find, set_rows}
use cronlite.Store.Rows.{IsKeyed, find-id}
use cronlite.Store.Effects.{Moves, step-Left}
use cronlite.Store.Steps.{Op, inserts, step, step-IsKeyed, step-lease_ms}
use cronlite.Store.Ownership.{Moves-terminal, Foreign, IsHeld, Moves-IsHeld}

-- A job is deleted, with its executions whatever their status or lease, if the jobs table has it in
-- the caller's namespace.
pub data Change : Type 0 where
  statement : Op → Change
  deletes_job : (job_id : ℕ) → (authorized : Bool) → Change

-- `DELETE FROM executions WHERE job_id IN (SELECT id FROM authorized_job)`.
unfoldable pub delete_executions : ℕ → Bool → Store → Store
delete_executions job authorized s =
    if authorized then set_rows s (filter_by (λ e. not (nat_beq e.job_id job)) s.executions) else s

unfoldable pub change : Store → Change → Store
change s (statement op) = step s op
change s (deletes_job job authorized) = delete_executions job authorized s

unfoldable pub change_all : Store → List Change → Store
change_all s [] = s
change_all s (c ∷ cs) = change_all (change s c) cs

filter_by-absent :
    (i : ℕ) (p : Execution → Bool) (rows : List Execution)
    → find i rows ≡ none
    → find i (filter_by p rows) ≡ none
unfolding find filter_by
filter_by-absent i p [] h = refl
filter_by-absent i p (r ∷ rows) h = ground (arith, filter_by-absent i p rows)

filter_by-IsKeyed :
    (p : Execution → Bool) (rows : List Execution) → IsKeyed rows → IsKeyed (filter_by p rows)
unfolding filter_by
filter_by-IsKeyed p [] keyed = tt
filter_by-IsKeyed p (r ∷ rows) (new, keyed) =
    if-intro IsKeyed (p r) _ _
      (λ b. (filter_by-absent r.id p rows new, filter_by-IsKeyed p rows keyed))
      (λ b. filter_by-IsKeyed p rows keyed)

filter_by-present :
    (i : ℕ) (p : Execution → Bool) (rows : List Execution) (e : Execution)
    → find i rows ≡ some e
    → p e ≡ true
    → find i (filter_by p rows) ≡ some e
unfolding find filter_by
filter_by-present i p [] e h passes = absurd (ground (arith, h))
filter_by-present i p (r ∷ rows) e h passes =
    if-intro (λ o. o ≡ some e → find i (filter_by p (r ∷ rows)) ≡ some e) (nat_beq r.id i) _ _
      (λ b here.
        let good : p r ≡ true = ap p (some-injective r e here) ∙ passes in
        ground (arith, b, good, here))
      (λ b there. ground (arith, b, filter_by-present i p rows e there passes)) h

change-IsKeyed : (s : Store) (c : Change) → IsKeyed s.executions → IsKeyed (change s c).executions
unfolding change delete_executions
change-IsKeyed s (statement op) keyed = step-IsKeyed s op keyed
change-IsKeyed s (deletes_job job true) keyed = filter_by-IsKeyed _ s.executions keyed
change-IsKeyed s (deletes_job job false) keyed = keyed

change-lease_ms : (s : Store) (c : Change) → (change s c).lease_ms ≡ s.lease_ms
unfolding change delete_executions
change-lease_ms s (statement op) = step-lease_ms s op
change-lease_ms s (deletes_job job true) = refl
change-lease_ms s (deletes_job job false) = refl

-- The change is not the deletion of the job.
abbrev pub Spares : ℕ → Change → Type 0
Spares job (statement op) = Unit
Spares job (deletes_job other authorized) = authorized ≡ true → other ≢ job

Moves-job_id : (s : Store) (op : Op) (e e' : Execution) → Moves s op e e' → e'.job_id ≡ e.job_id
Moves-job_id s (inserts r) e e' m = ground arith
Moves-job_id s _ e e' m = ground arith

-- What a change does to a row whose job it spares.
abbrev Touches : Store → Change → Execution → Execution → Type 0
Touches s (statement op) e e' = Moves s op e e'
Touches s (deletes_job job authorized) e e' = e' ≡ e

change-Touches :
    (s : Store) (c : Change) (i : ℕ) (e : Execution)
    → IsKeyed s.executions
    → find i s.executions ≡ some e
    → Spares e.job_id c
    → (e' : Execution) × (find i (change s c).executions ≡ some e') × Touches s c e e'
unfolding change delete_executions
change-Touches s (statement op) i e keyed h spares = step-Left s op i e keyed h
change-Touches s (deletes_job job false) i e keyed h spares = (e, h, refl)
change-Touches s (deletes_job job true) i e keyed h spares =
    let kept : not (nat_beq e.job_id job) ≡ true =
      ground (arith, spares refl, nat_beq_iff e.job_id job) in
    (e, filter_by-present i (λ x. not (nat_beq x.job_id job)) s.executions e h kept, refl)

-- A row that is delivered or failed stays in the table until its job is deleted, and until then no
-- statement changes anything of it but its acknowledgement.
pub terminal_absorbs :
    (s : Store) (cs : List Change) (i : ℕ) (e : Execution)
    → IsKeyed s.executions
    → find i s.executions ≡ some e
    → is_terminal e.status ≡ true
    → All (Spares e.job_id) cs
    → (a : Option ℕ) × (find i (change_all s cs).executions
        ≡ some (record e { acknowledged_at = a }))
unfolding change_all
terminal_absorbs s [] i e keyed h final spares = (e.acknowledged_at, h)
terminal_absorbs s (c ∷ cs) i e keyed h final (spared, spares) =
    let (e', h', m) = change-Touches s c i e keyed h spared in
    let same : e' ≡ record e { acknowledged_at = e'.acknowledged_at } = only_acked c e' m in
    terminal_absorbs (change s c) cs i (record e { acknowledged_at = e'.acknowledged_at })
      (change-IsKeyed s c keyed) (h' ∙ ap some same) final spares
  where
    only_acked :
        (c : Change) (e' : Execution)
        → Touches s c e e'
        → e' ≡ record e { acknowledged_at = e'.acknowledged_at }
    only_acked (statement op) e' m = Moves-terminal s op e e' final m
    only_acked (deletes_job job authorized) e' m = ground (arith, m)

-- A change that is not the completion by the owner of the claim `generation` of row `i`, nor the
-- deletion of its job.
abbrev pub ForeignChange : (from until i generation job : ℕ) → Change → Type 0
ForeignChange from until i generation job (statement op) = Foreign from until i generation op
ForeignChange from until i generation job (deletes_job other authorized) =
    Spares job (deletes_job other authorized)

module _ (from until i generation job : ℕ) where
  foreign-Spares : (c : Change) → ForeignChange from until i generation job c → Spares job c
  foreign-Spares (statement op) f = tt
  foreign-Spares (deletes_job other authorized) f = f

  Touches-IsHeld :
      (s : Store) (c : Change) (e e' : Execution)
      → until ≤ from + s.lease_ms * 1000
      → 1 ≤ generation
      → e.id ≡ i
      → e.job_id ≡ job
      → ForeignChange from until i generation job c
      → IsHeld generation until e
      → Touches s c e e'
      → IsHeld generation until e' × (e'.job_id ≡ job)
  Touches-IsHeld s (statement op) e e' granted claimed is of f v m = (
    Moves-IsHeld s op from until i generation e e' granted claimed is f v m,
    Moves-job_id s op e e' m ∙ of,
  )
  Touches-IsHeld s (deletes_job other authorized) e e' granted claimed is of f v m =
      (subst (IsHeld generation until) (sym m) v, ap (λ x. x.job_id) m ∙ of)

  change_all-IsHeld :
      (s : Store) (cs : List Change) (e : Execution)
      → IsKeyed s.executions
      → find i s.executions ≡ some e
      → until ≤ from + s.lease_ms * 1000
      → 1 ≤ generation
      → e.job_id ≡ job
      → All (ForeignChange from until i generation job) cs
      → IsHeld generation until e
      → (e' : Execution) × (find i (change_all s cs).executions ≡ some e')
        × IsHeld generation until e'
  unfolding change_all
  change_all-IsHeld s [] e keyed h granted claimed of foreign v = (e, h, v)
  change_all-IsHeld s (c ∷ cs) e keyed h granted claimed of (f, foreign) v =
      let spared : Spares e.job_id c = subst (λ j. Spares j c) (sym of) (foreign-Spares c f) in
      let (e', h', m) = change-Touches s c i e keyed h spared in
      let (v', of') =
        Touches-IsHeld s c e e' granted claimed (find-id i s.executions e h) of f v m in
      change_all-IsHeld (change s c) cs e' (change-IsKeyed s c keyed) h'
        (rw (change-lease_ms s c) granted) claimed of' foreign v'

-- A claim is exclusive for as long as its lease runs. Take a row that is in progress under a claim
-- of generation at least 1 whose lease, granted at `from` or renewed since, ends at `until`, and
-- any statements on executions whose clock readings lie in [from, until), and deletions of jobs,
-- except the owner's own completion and the deletion of the row's job: claims, dequeues, recovery,
-- renewals, legacy updates and inserts by anybody. Then the row is still in progress under that
-- generation, with a lease that ends no earlier.
pub lease_protects :
    (s : Store) (cs : List Change) (from until i : ℕ) (e : Execution)
    → IsKeyed s.executions
    → find i s.executions ≡ some e
    → e.status ≡ in_progress
    → e.lease_until ≡ some until
    → 1 ≤ e.claim_generation
    → until ≤ from + s.lease_ms * 1000
    → All (ForeignChange from until i e.claim_generation e.job_id) cs
    → (e' : Execution) × (find i (change_all s cs).executions ≡ some e')
      × (e'.status ≡ in_progress)
      × (e'.claim_generation ≡ e.claim_generation)
      × (t : ℕ) × (e'.lease_until ≡ some t)
      × (until ≤ t)
lease_protects s cs from until i e keyed h running leased claimed granted foreign =
    let v : IsHeld e.claim_generation until e = record {
      running = running;
      owner = refl;
      end = until;
      leased = leased;
      long = omega arith;
    } in
    let (e', h', v') =
      change_all-IsHeld from until i e.claim_generation e.job_id s cs e keyed h granted claimed refl
        foreign v in
    (e', h', v'.running, v'.owner, v'.end, v'.leased, v'.long)
