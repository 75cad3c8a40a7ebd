-- ===== src/EventBus.antt =====
-- internal/transport/channel/bus.go: the event bus between the scheduler, the reconciler and the
-- dispatchers, as the steps of its channel. Which case of a select goes on is Go's choice, so the
-- steps are a relation; metrics and log lines are left out.
pub mod Order
mod Examples
use cronlite.Base.{ℕ, ◌<◌, ◌≡◌, List, [], ◌∷◌, ◌++◌, length}
use cronlite.Domain.{TriggerEvent}

-- The buffered events, the oldest first.
pub record EventBus : Type 0 where
  pub capacity : ℕ
  pub queue : List TriggerEvent

abbrev pub new_event_bus : ℕ → EventBus
new_event_bus buffer = record { capacity = buffer; queue = [] }

-- What Emit returns: nil, the error of the context, or ErrBufferFull.
pub data EmitResult : Type 0 where
  accepted context_error buffer_full : EmitResult

-- What the outside sees of a step: an emission with its result, a receipt from Channel, or a send to
-- a receiver that waits.
pub data Label : Type 0 where
  emits : TriggerEvent → EmitResult → Label
  receives : TriggerEvent → Label
  hands_over : TriggerEvent → Label

-- A send needs room in the buffer, a receipt an event in it, and a send to a waiting receiver an
-- empty buffer. The context and the timer can end an emission at any time.
pub data Step : EventBus → Label → EventBus → Type 0 where
  send :
      (b : EventBus) (e : TriggerEvent)
      → length b.queue < b.capacity
      → Step b (emits e accepted) (record b { queue = b.queue ++ e ∷ [] })
  stop : (b : EventBus) (e : TriggerEvent) → Step b (emits e context_error) b
  time_out : (b : EventBus) (e : TriggerEvent) → Step b (emits e buffer_full) b
  receive :
      (b : EventBus) (e : TriggerEvent) (rest : List TriggerEvent)
      → b.queue ≡ e ∷ rest
      → Step b (receives e) (record b { queue = rest })
  meet : (b : EventBus) (e : TriggerEvent) → b.queue ≡ [] → Step b (hands_over e) b

pub data Run : EventBus → List Label → EventBus → Type 0 where
  done : (b : EventBus) → Run b [] b
  next :
      {a b c : EventBus} {l : Label} {ls : List Label} → Step a l b → Run b ls c → Run a (l ∷ ls) c
