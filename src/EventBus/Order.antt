-- ===== src/EventBus/Order.antt =====
-- bus.go: the events that go through the channel, in order.
use mathlib.Core.List.{append_assoc, append-nil}
use cronlite.Base.{
  ℕ, ◌≤◌, ◌≡◌, refl, sym, ap, ◌∙◌, List, [], ◌∷◌, ◌++◌, arith, length, length-append,
}
use cronlite.Domain.{TriggerEvent}
use cronlite.EventBus.{
  EventBus, new_event_bus, accepted, Label, emits, receives, hands_over, Step, Run,
}
use cronlite.EventBus.Step.{send, stop, time_out, receive, meet}
use cronlite.EventBus.Run.{done, next}

-- The event that a step puts into the channel, and the one that it takes out.
abbrev pub put : Label → List TriggerEvent
put (emits e accepted) = e ∷ []
put (hands_over e) = e ∷ []
put _ = []

abbrev pub taken : Label → List TriggerEvent
taken (receives e) = e ∷ []
taken (hands_over e) = e ∷ []
taken _ = []

unfoldable pub all_put : List Label → List TriggerEvent
all_put [] = []
all_put (l ∷ ls) = put l ++ all_put ls

unfoldable pub all_taken : List Label → List TriggerEvent
all_taken [] = []
all_taken (l ∷ ls) = taken l ++ all_taken ls

step-order : {a b : EventBus} {l : Label} → Step a l b → a.queue ++ put l ≡ taken l ++ b.queue
step-order (send b e room) = refl
step-order (stop b e) = append-nil b.queue
step-order (time_out b e) = append-nil b.queue
step-order (receive b e rest q) = append-nil b.queue ∙ q
step-order (meet b e q) = rw q refl

run-order :
    {a b : EventBus} {ls : List Label}
    → Run a ls b
    → a.queue ++ all_put ls ≡ all_taken ls ++ b.queue
unfolding all_put all_taken
run-order (done b) = append-nil b.queue
run-order (next {a = a} {b = b} {c = c} {l = l} {ls = ls} s r) =
    sym (append_assoc a.queue (put l) (all_put ls))
    ∙ ap (λ (m : List TriggerEvent). m ++ all_put ls) (step-order s)
    ∙ append_assoc (taken l) b.queue (all_put ls)
    ∙ ap (λ (m : List TriggerEvent). taken l ++ m) (run-order r)
    ∙ sym (append_assoc (taken l) (all_taken ls) c.queue)

step-room :
    {a b : EventBus} {l : Label}
    → Step a l b
    → length a.queue ≤ a.capacity
    → (length b.queue ≤ b.capacity) × (b.capacity ≡ a.capacity)
step-room (send b e room) h = (omega (arith, length-append b.queue (e ∷ [])), refl)
step-room (stop b e) h = (h, refl)
step-room (time_out b e) h = (h, refl)
step-room (receive b e rest q) h = (omega (arith, ap length q), refl)
step-room (meet b e q) h = (h, refl)

run-room :
    {a b : EventBus} {ls : List Label}
    → Run a ls b
    → length a.queue ≤ a.capacity
    → length b.queue ≤ a.capacity
run-room (done b) h = h
run-room (next s r) h =
    let (h1, same) = step-room s h in let rest = run-room r h1 in rw (sym same) rest

-- The bus loses, repeats and reorders nothing that it accepts. After any steps from a new bus, the
-- events for which Emit returned nil are those received, in the same order, followed by those
-- in the buffer; and the buffer holds at most its capacity.
pub bus_in_order :
    (buffer : ℕ) (ls : List Label) (b : EventBus)
    → Run (new_event_bus buffer) ls b
    → (all_put ls ≡ all_taken ls ++ b.queue) × (length b.queue ≤ buffer)
bus_in_order buffer ls b r = (run-order r, run-room r (omega arith))
