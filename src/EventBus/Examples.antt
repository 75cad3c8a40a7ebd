-- ===== src/EventBus/Examples.antt =====
-- A run of the bus, and the theorem at it.
use cronlite.Base.{ℕ, ◌≤◌, ◌≡◌, refl, List, [], ◌∷◌, ◌++◌, arith, length}
use cronlite.Domain.{TriggerEvent}
use cronlite.EventBus.{EventBus, new_event_bus, Label, emits, receives, accepted, buffer_full, Run}
use cronlite.EventBus.Step.{send, time_out, receive}
use cronlite.EventBus.Run.{done, next}
use cronlite.EventBus.Order.{all_put, all_taken, bus_in_order}

abbrev event : ℕ → TriggerEvent
event n = record {
  execution_id = n;
  job_id = 1;
  namespace = "ns";
  scheduled_at = 60;
  fired_at = 61;
  created_at = 61;
}

-- Room for one event: the second one is dropped, and the third one follows the first.
abbrev labels : List Label
labels =
    emits (event 1) accepted
    ∷ emits (event 2) buffer_full
    ∷ receives (event 1)
    ∷ emits (event 3) accepted
    ∷ []

abbrev after : EventBus
after = record { capacity = 1; queue = event 3 ∷ [] }

one_dropped : Run (new_event_bus 1) labels after
one_dropped = next (send (new_event_bus 1) (event 1) (omega arith)) (
    next (time_out (record { capacity = 1; queue = event 1 ∷ [] }) (event 2)) (
      next (receive (record { capacity = 1; queue = event 1 ∷ [] }) (event 1) [] refl)
        (next (send (new_event_bus 1) (event 3) (omega arith)) (done after))))

bus_in_order_example : (all_put labels ≡ all_taken labels ++ after.queue) × (length after.queue ≤ 1)
bus_in_order_example = bus_in_order 1 labels after one_dropped
