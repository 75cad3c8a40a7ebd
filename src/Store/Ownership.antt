-- ===== src/Store/Ownership.antt =====
-- Ownership of an execution (claim generation and lease) over any sequence of the statements that
-- insert and update executions.
pub mod Completion
use cronlite.Base.{
  ℕ, suc, ◌+◌, ◌*◌, ◌≤◌, ◌<◌, ◌≡◌, ◌≢◌, refl, ◌⊎◌, inl, inr, String, Bool, true, false, Option,
  none, some, List, [], ◌∷◌, arith, All, Option-cases, Bool-cases, nat_beq, if◌then◌else◌, text_key,
  ◌&&◌,
}
use cronlite.Domain.{Execution, ExecutionStatus, in_progress, is_terminal}
use cronlite.Store.{
  Store, StoreError, find, claim_lost, is_owned, renew_execution_claim, complete_execution,
  claim_mutation,
}
use cronlite.Store.Rows.{IsKeyed, find-update_where, find-id}
use cronlite.Store.Effects.{Moves, step-Left}
use cronlite.Store.Steps.{
  Op, inserts, claims, renews, completes, dequeues, dequeues_batch, requeues, updates, acks, step,
  run, step-IsKeyed, step-lease_ms,
}

pub Moves-terminal :
    (s : Store) (op : Op) (e e' : Execution)
    → is_terminal e.status ≡ true
    → Moves s op e e'
    → e' ≡ record e { acknowledged_at = e'.acknowledged_at }
Moves-terminal s (inserts r) e e' final m = ground arith
Moves-terminal s (updates id status) e e' final m = ground arith
Moves-terminal s _ e e' final m = ground arith

Moves-generation :
    (s : Store) (op : Op) (e e' : Execution)
    → Moves s op e e'
    → e.claim_generation ≤ e'.claim_generation
Moves-generation s (inserts r) e e' m = ground arith
Moves-generation s _ e e' m = ground arith

generation-run :
    (s : Store) (ops : List Op) (i : ℕ) (e : Execution)
    → IsKeyed s.executions
    → find i s.executions ≡ some e
    → (e' : Execution) × (find i (run s ops).executions ≡ some e')
      × (e.claim_generation ≤ e'.claim_generation)
unfolding run
generation-run s [] i e keyed h = (e, h, omega arith)
generation-run s (op ∷ ops) i e keyed h =
    let (e', h', m) = step-Left s op i e keyed h in
    let (e'', last, grown) = generation-run (step s op) ops i e' (step-IsKeyed s op keyed) h' in
    (e'', last, omega (arith, Moves-generation s op e e' m, grown))

lost :
    (s : Store) (now i : ℕ) (ns : String) (generation : ℕ) (f : Execution → Execution)
    (e : Execution)
    → find i s.executions ≡ some e
    → generation < e.claim_generation
    → claim_mutation s (is_owned now i ns generation) f i ≡ (s, some claim_lost)
lost s now i ns generation f e h old = rw (h, claim_mutation) (ground arith)

-- Once a row has been claimed again, the former owner is shut out for good: whatever statements
-- that insert or update executions come after, its renewal and its completion report the claim as lost and change nothing.
pub former_owner_fenced :
    (s : Store) (ops : List Op) (i : ℕ) (e : Execution) (generation now : ℕ) (ns : String)
    (status : ExecutionStatus)
    → IsKeyed s.executions
    → find i s.executions ≡ some e
    → generation < e.claim_generation
    → is_terminal status ≡ true
    → let t = run s ops in
      (renew_execution_claim t now i ns generation ≡ (t, some claim_lost))
      × (complete_execution t now i ns generation status ≡ (t, some claim_lost))
unfolding renew_execution_claim complete_execution
former_owner_fenced s ops i e generation now ns status keyed h old final =
    let (e', last, grown) = generation-run s ops i e keyed h in
    (
      lost (run s ops) now i ns generation _ e' last (omega (arith, grown)),
      rw final (lost (run s ops) now i ns generation _ e' last (omega (arith, grown))),
    )

-- A statement in the time from `from` to `until` that is not the completion by the owner of the
-- claim `generation` of row `i`.
abbrev pub InWindow : ℕ → ℕ → ℕ → Type 0
InWindow from until now = (from ≤ now) × (now < until)

abbrev pub Foreign : ℕ → ℕ → ℕ → ℕ → Op → Type 0
Foreign from until i generation (claims now id ns) = InWindow from until now
Foreign from until i generation (renews now id ns g) = InWindow from until now
Foreign from until i generation (completes now id ns g status) =
    InWindow from until now × ((id ≢ i) ⊎ (g ≢ generation))
Foreign from until i generation (dequeues now) = InWindow from until now
Foreign from until i generation (dequeues_batch now limit) = InWindow from until now
Foreign from until i generation (requeues now limit) = InWindow from until now
Foreign from until i generation (inserts r) = Unit
Foreign from until i generation (updates id status) = Unit
Foreign from until i generation (acks now id ns) = Unit

-- The row is owned under `generation`, at least until `until`.
pub record IsHeld (generation until : ℕ) (e : Execution) : Type 0 where
  pub running : e.status ≡ in_progress
  pub owner : e.claim_generation ≡ generation
  pub end : ℕ
  pub leased : e.lease_until ≡ some end
  pub long : until ≤ end

pub Moves-IsHeld :
    (s : Store) (op : Op) (from until i generation : ℕ) (e e' : Execution)
    → until ≤ from + s.lease_ms * 1000
    → 1 ≤ generation
    → e.id ≡ i
    → Foreign from until i generation op
    → IsHeld generation until e
    → Moves s op e e'
    → IsHeld generation until e'
Moves-IsHeld s op from until i generation e e' granted claimed is foreign v (inl same) = record {
  running = ground (arith, v.running);
  owner = ground (arith, v.owner);
  end = v.end;
  leased = ground (arith, v.leased);
  long = v.long;
}
Moves-IsHeld s (inserts r) from until i generation e e' granted claimed is foreign v (inr m) =
    absurd m
Moves-IsHeld s (renews now id ns g) from until i generation e e' granted claimed is foreign v
      (inr m) =
    record {
      running = ground (arith, v.running);
      owner = ground (arith, v.owner);
      end = now + s.lease_ms * 1000;
      leased = ground arith;
      long = omega arith;
    }
Moves-IsHeld s (completes now id ns g status) from until i generation e e' granted claimed is
      foreign v (inr m) =
    absurd (ground (arith, v.owner))
Moves-IsHeld s (requeues now limit) from until i generation e e' granted claimed is foreign v
      (inr m) =
    absurd (ground (arith, v.leased, v.long))
Moves-IsHeld s (updates id status) from until i generation e e' granted claimed is foreign v
      (inr m) =
    absurd (ground (arith, v.owner))
Moves-IsHeld s (acks now id ns) from until i generation e e' granted claimed is foreign v (inr m) =
    absurd (ground (arith, v.running))
Moves-IsHeld s _ from until i generation e e' granted claimed is foreign v (inr m) =
    absurd (ground (arith, v.running))
