-- ===== src/Lease/Holds.antt =====
-- ownership.go with the store: what each event keeps of a worker's ownership.
pub mod Renewal
use cronlite.Base.{
  ℕ, suc, ◌+◌, ◌*◌, ◌≤◌, ◌<◌, ◌≡◌, refl, sym, ap, ◌∙◌, max, ◌⊎◌, inl, inr, String, Bool, true, not,
  ◌&&◌, Option, none, some, arith, ltb, text_key, Bool-cases, if-intro,
}
use cronlite.Domain.{Execution}
use cronlite.Store.{
  Store, StoreError, find, renew_execution_claim, is_owned, lease_end, update_where, set_rows,
  claim_lost,
}
use cronlite.Store.Rows.{IsKeyed, find-id, find-update_where}
use cronlite.Store.Steps.{
  Op, inserts, claims, renews, completes, dequeues, dequeues_batch, requeues, updates, acks, step,
  step-lease_ms, step-IsKeyed,
}
use cronlite.Store.Effects.{step-Left}
use cronlite.Store.Ownership.{IsHeld, Foreign, Moves-IsHeld}
use cronlite.Lease.{
  ExecutionLease, Worker, Event, others, renews_row, hears, looks, ends, Cause, is_ended, cancel,
  watch_expiry, finish_renew, hear, granted, start_renewal, happens,
}

-- The context has not ended and the deadline is not reached.
abbrev pub lives : ExecutionLease → ℕ → Bool
lives l now = not (is_ended l) && ltb now l.deadline

abbrev pub pending_end : ℕ → Option ℕ → ℕ
pending_end duration none = 0
pending_end duration (some started) = started + duration

-- The time up to which the worker may come to believe that it owns the row.
abbrev pub bound : Worker → ℕ
bound w = max w.lease.deadline (pending_end w.lease.duration w.pending)

abbrev pub Owned : ℕ → ℕ → ℕ → Store → Type 0
Owned i generation until s =
    (e : Execution) × (find i s.executions ≡ some e) × IsHeld generation until e

pub record Holds (i generation clock : ℕ) (w : Worker) : Type 0 where
  pub keyed : IsKeyed w.store.executions
  pub same_length : w.lease.duration ≡ w.store.lease_ms * 1000
  pub recent : bound w ≤ clock + w.lease.duration
  pub held : lives w.lease clock ≡ true → Owned i generation (bound w) w.store

-- A statement that reads the clock at `now` reads it before any later end of the lease.
widen :
    (now until i generation : ℕ) (op : Op)
    → now < until
    → Foreign now (suc now) i generation op
    → Foreign now until i generation op
widen now until i generation (inserts r) lt h = h
widen now until i generation (claims t id ns) lt h = (omega arith, omega arith)
widen now until i generation (renews t id ns g) lt h = (omega arith, omega arith)
widen now until i generation (completes t id ns g status) lt ((a, b), other) =
    ((omega arith, omega arith), other)
widen now until i generation (dequeues t) lt h = (omega arith, omega arith)
widen now until i generation (dequeues_batch t limit) lt h = (omega arith, omega arith)
widen now until i generation (requeues t limit) lt h = (omega arith, omega arith)
widen now until i generation (updates id status) lt h = h
widen now until i generation (acks t id ns) lt h = h

pub shorten :
    (i generation long short : ℕ) (s : Store)
    → short ≤ long
    → Owned i generation long s
    → Owned i generation short s
shorten i generation long short s le (e, found, v) = (
  e,
  found,
  record {
    running = v.running;
    owner = v.owner;
    end = v.end;
    leased = v.leased;
    long = omega (arith, v.long);
  },
)

-- The renewed row, and the table with it.
abbrev extended : Store → ℕ → Execution → Execution
extended s now r = record r { lease_until = some (lease_end s now) }

abbrev renewed_table : Store → ℕ → ℕ → String → ℕ → Store
renewed_table s now i ns generation =
    set_rows s (update_where (is_owned now i ns generation) (extended s now) s.executions)

renew-cases :
    (i generation now : ℕ) (ns : String) (s : Store) (e : Execution)
    → find i s.executions ≡ some e
    → ((is_owned now i ns generation e ≡ true)
        × (renew_execution_claim s now i ns generation
            ≡ (renewed_table s now i ns generation, none)))
      ⊎ (renew_execution_claim s now i ns generation ≡ (s, some claim_lost))
unfolding renew_execution_claim
renew-cases i generation now ns s e found = elim (Bool-cases (is_owned now i ns generation e)) [
  | inl owns ↦ inl (owns, ground (arith, found, owns))
  | inr lost ↦ inr (ground (arith, found, lost))
]

pub renew-Owned :
    (i generation now started deadline : ℕ) (ns : String) (s : Store)
    → started ≤ now
    → deadline ≤ now + s.lease_ms * 1000
    → Owned i generation deadline s
    → let r = renew_execution_claim s now i ns generation in
      Owned i generation (max deadline (pending_end (s.lease_ms * 1000) (granted started r.1))) r.0
renew-Owned i generation now started deadline ns s before recent (e, found, v) =
    elim (renew-cases i generation now ns s e found) [
      | inl (owns, result) ↦
          let moved =
            find-update_where i (is_owned now i ns generation) (extended s now) s.executions
              (λ r. refl) in
          rw result (
            extended s now e,
            ground (arith, moved, found, owns),
            record {
              running = v.running;
              owner = v.owner;
              end = lease_end s now;
              leased = refl;
              long = omega arith;
            },
          )
      | inr result ↦ rw result (
        e,
        found,
        record {
          running = v.running;
          owner = v.owner;
          end = v.end;
          leased = v.leased;
          long = omega (arith, v.long);
        },
      )
    ]

-- The events that the code lets happen: statements by others at the clock's reading, and a renewal
-- that began before.
abbrev pub Allowed : ℕ → ℕ → ℕ → Event → Type 0
Allowed i generation now (others op) = Foreign now (suc now) i generation op
Allowed i generation now (renews_row started) = started ≤ now
Allowed i generation now (hears ok) = Unit
Allowed i generation now looks = Unit
Allowed i generation now (ends c) = Unit

pub others-Holds :
    (i generation clock now : ℕ) (ns : String) (w : Worker) (op : Op)
    → clock ≤ now
    → 1 ≤ generation
    → Foreign now (suc now) i generation op
    → Holds i generation clock w
    → Holds i generation now (happens i ns generation now (others op) w)
unfolding happens
others-Holds i generation clock now ns w op later real foreign h = record {
  keyed = step-IsKeyed w.store op h.keyed;
  same_length = h.same_length ∙ ap (λ n. n * 1000) (sym (step-lease_ms w.store op));
  recent = omega (arith, h.recent);
  held = λ alive.
      let (e, found, v) = h.held (ground (arith, later, alive)) in
      let (e1, found1, m) = step-Left w.store op i e h.keyed found in
      let ahead : now < bound w = ground (arith, alive) in
      (
        e1,
        found1,
        Moves-IsHeld w.store op now (bound w) i generation e e1
            (omega (arith, h.recent, h.same_length)) real (find-id i w.store.executions e found)
            (widen now (bound w) i generation op ahead foreign) v m,
      );
}
