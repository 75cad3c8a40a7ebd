-- ===== src/Lease/Holds/Renewal.antt =====
-- ownership.go with the store: the renewal, its answer, the watchdog and the ends of the context.
use cronlite.Base.{
  ℕ, ◌+◌, ◌*◌, ◌≤◌, ◌≡◌, refl, sym, ap, ◌∙◌, max, String, Bool, true, Option, none, some, arith,
  text_key, if-intro,
}
use cronlite.Store.{StoreError, renew_execution_claim}
use cronlite.Store.Steps.{renews, step, step-lease_ms, step-IsKeyed}
use cronlite.Lease.{
  ExecutionLease, Worker, Event, others, renews_row, hears, looks, ends, Cause, is_ended, cancel,
  watch_expiry, finish_renew, hear, granted, start_renewal, happens,
}
use cronlite.Lease.Holds.{
  Allowed, Holds, bound, lives, others-Holds, pending_end, renew-Owned, shorten,
}

-- Time passes, and the worker's beliefs do not grow.
later-Holds :
    (i generation clock now : ℕ) (w : Worker) (l : ExecutionLease) (p : Option ℕ)
    → clock ≤ now
    → Holds i generation clock w
    → l.duration ≡ w.lease.duration
    → max l.deadline (pending_end l.duration p) ≤ bound w
    → (lives l now ≡ true → lives w.lease now ≡ true)
    → Holds i generation now (record w { lease = l; pending = p })
later-Holds i generation clock now w l p later h same low alive_before = record {
  keyed = h.keyed;
  same_length = same ∙ h.same_length;
  recent = omega (arith, h.recent, same, low);
  held = λ alive.
      let before = alive_before alive in
      shorten i generation (bound w) _ w.store low (h.held (ground (arith, later, before)));
}

granted-end :
    (started duration : ℕ) (e : Option StoreError)
    → pending_end duration (granted started e) ≤ started + duration
granted-end started duration none = omega arith
granted-end started duration (some e) = omega arith

started-Holds :
    (i generation clock now started : ℕ) (ns : String) (w : Worker) (p : Option ℕ)
    → clock ≤ now
    → started ≤ now
    → w.pending ≡ p
    → Holds i generation clock w
    → Holds i generation now (start_renewal i ns generation now started p w)
started-Holds i generation clock now started ns w (some t) later before e h =
    later-Holds i generation clock now w w.lease w.pending later h refl (omega arith)
      (λ alive. alive)
started-Holds i generation clock now started ns w none later before e h =
    let bound_is : bound w ≡ w.lease.deadline = ground (arith, e) in
    let recent : w.lease.deadline ≤ now + w.store.lease_ms * 1000 =
      omega (arith, h.recent, bound_is, h.same_length) in
    record {
      keyed = unfold step in step-IsKeyed w.store (renews now i ns generation) h.keyed;
      same_length =
          unfold step in
          h.same_length
          ∙ ap (λ n. n * 1000) (sym (step-lease_ms w.store (renews now i ns generation)));
      recent = omega (
        arith,
        recent,
        h.same_length,
        granted-end started w.lease.duration (renew_execution_claim w.store now i ns generation).1,
      );
      held = λ alive. rw h.same_length (
          renew-Owned i generation now started w.lease.deadline ns w.store before recent
            (rw bound_is at (h.held (ground (arith, later, alive)))));
    }

hear-lives :
    (now : ℕ) (ok : Bool) (p : Option ℕ) (l : ExecutionLease)
    → ((hear now ok p l).duration ≡ l.duration)
      × ((hear now ok p l).deadline ≤ max l.deadline (pending_end l.duration p))
      × (lives (hear now ok p l) now ≡ true → lives l now ≡ true)
unfolding finish_renew
hear-lives now ok none l = (ground arith, ground arith, λ alive. ground arith)
hear-lives now ok (some started) l = (ground arith, ground arith, λ alive. ground arith)

watch-lives :
    (now : ℕ) (l : ExecutionLease)
    → ((watch_expiry now l).duration ≡ l.duration)
      × ((watch_expiry now l).deadline ≡ l.deadline)
      × (lives (watch_expiry now l) now ≡ true → lives l now ≡ true)
unfolding watch_expiry
watch-lives now l = (ground arith, ground arith, λ alive. ground arith)

cancel-lives :
    (now : ℕ) (c : Cause) (l : ExecutionLease)
    → ((cancel c l).duration ≡ l.duration)
      × ((cancel c l).deadline ≡ l.deadline)
      × (lives (cancel c l) now ≡ true → lives l now ≡ true)
cancel-lives now c l = (ground arith, ground arith, λ alive. ground arith)

pub happens-Holds :
    (i generation clock now : ℕ) (ns : String) (w : Worker) (event : Event)
    → clock ≤ now
    → 1 ≤ generation
    → Allowed i generation now event
    → Holds i generation clock w
    → Holds i generation now (happens i ns generation now event w)
unfolding happens
happens-Holds i generation clock now ns w (others op) later real ok h =
    others-Holds i generation clock now ns w op later real ok h
happens-Holds i generation clock now ns w (renews_row started) later real ok h =
    if-intro (Holds i generation now) (is_ended w.lease) w _
      (λ b.
        later-Holds i generation clock now w w.lease w.pending later h refl (omega arith)
          (λ alive. alive))
      (λ b. started-Holds i generation clock now started ns w w.pending later ok refl h)
happens-Holds i generation clock now ns w (hears ok) later real allowed h =
    let (same, low, before) = hear-lives now ok w.pending w.lease in
    later-Holds i generation clock now w (hear now ok w.pending w.lease) none later h same
      (omega (arith, low)) before
happens-Holds i generation clock now ns w looks later real allowed h =
    let (same, low, before) = watch-lives now w.lease in
    later-Holds i generation clock now w (watch_expiry now w.lease) w.pending later h same
      (rw (same, low) (omega arith)) before
happens-Holds i generation clock now ns w (ends c) later real allowed h =
    let (same, low, before) = cancel-lives now c w.lease in
    later-Holds i generation clock now w (cancel c w.lease) w.pending later h same
      (rw (same, low) (omega arith)) before
