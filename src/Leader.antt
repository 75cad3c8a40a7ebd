-- ===== src/Leader.antt =====
-- internal/leaderelection/leader.go: an elector as the code between the points at which it waits, and
-- any number of electors, on any sessions of one PostgreSQL server with its advisory lock, as steps.
pub mod Safety
pub mod Steps
pub mod Election
mod Examples
use cronlite.Base.{
  ℕ, ◌+◌, Bool, true, false, ◌||◌, ◌&&◌, not, Option, none, some, List, [], ◌∷◌, nat_beq,
  if◌then◌else◌,
}

pub data Reason : Type 0 where
  shutdown conn_lost panicked failed : Reason

-- Where runOnce waits: for a connection, for the answer about the lock, in holdLock, in onDemoted.
pub data Phase : Type 0 where
  idle : Phase
  asking : ℕ → Phase
  leading : ℕ → Phase
  demoting : ℕ → Reason → Phase

pub data Event : Type 0 where
  no_connection : Event
  connection : ℕ → Event
  lock_error : Event
  lock_answer : Bool → Event
  lock_lost : Reason → Event
  demoted : (panics : Bool) → Event

-- Metrics, the leader's duties, and what becomes of the session.
pub data Effect : Type 0 where
  status_changed : Bool → Effect
  leader_acquired : Effect
  leader_lost : Reason → Effect
  start_duties : Effect
  cancel_duties : Effect
  discard : ℕ → Effect
  give_back : ℕ → Effect

abbrev pub lost_reason : Bool → Reason → Reason
lost_reason true r = panicked
lost_reason false r = r

-- runOnce, from one wait to the next.
unfoldable pub on_event : Phase → Event → Phase × List Effect
on_event idle no_connection = (idle, leader_lost failed ∷ [])
on_event idle (connection s) = (asking s, [])
on_event (asking s) lock_error = (idle, leader_lost failed ∷ discard s ∷ [])
on_event (asking s) (lock_answer false) = (idle, give_back s ∷ [])
on_event (asking s) (lock_answer true) =
    (leading s, status_changed true ∷ leader_acquired ∷ start_duties ∷ [])
on_event (leading s) (lock_lost r) = (demoting s r, cancel_duties ∷ [])
on_event (demoting s r) (demoted panics) =
    (idle, status_changed false ∷ leader_lost (lost_reason panics r) ∷ discard s ∷ [])
on_event p e = (p, [])

-- What wakes holdLock: the context's end, or a tick whose ping succeeds or fails, the latter perhaps
-- with the context ended.
pub data Beat : Type 0 where
  done ping_ok : Beat
  ping_failed : (ended : Bool) → Beat

-- holdLock, until it returns a reason.
unfoldable pub hold_lock : List Beat → Option Reason
hold_lock [] = none
hold_lock (done ∷ beats) = some shutdown
hold_lock (ping_ok ∷ beats) = hold_lock beats
hold_lock (ping_failed true ∷ beats) = some shutdown
hold_lock (ping_failed false ∷ beats) = some conn_lost

-- A session that is in no pool is in use, or closed: its end, or the network, broke it.
pub data Session : Type 0 where
  pooled in_use closed : Session

abbrev pub put {ℓ} : {A : Type ℓ} → (ℕ → A) → ℕ → A → ℕ → A
put f k a i = if nat_beq k i then a else f i

pub record System : Type 0 where
  pub phase : ℕ → Phase
  pub session : ℕ → Session
  pub holder : Option ℕ

abbrev pub new_system : System
new_system = record { phase = λ p. idle; session = λ s. pooled; holder = none }

abbrev pub returned : Session → Session
returned closed = closed
returned s = pooled

-- The effects on the sessions.
abbrev pub settle : List Effect → (ℕ → Session) → ℕ → Session
settle [] f = f
settle (discard s ∷ effects) f = settle effects (put f s closed)
settle (give_back s ∷ effects) f = settle effects (put f s (returned (f s)))
settle (e ∷ effects) f = settle effects f

-- An elector's code runs on an event.
abbrev pub react : ℕ → Phase × List Effect → System → System
react p (phase, effects) σ = record {
  phase = put σ.phase p phase;
  session = settle effects σ.session;
  holder = σ.holder;
}

abbrev pub deliver : ℕ → Event → System → System
deliver p e σ = react p (on_event (σ.phase p) e) σ

-- What may happen next. The query for the lock may be answered, or its answer lost; a connection may
-- die; the server releases the lock of a closed session when it finds out.
pub data Label : Type 0 where
  refuses : ℕ → Label
  connects : ℕ → ℕ → Label
  asks : ℕ → (answered : Bool) → Label
  loses : ℕ → Reason → Label
  demotes : ℕ → Bool → Label
  dies : ℕ → Label
  releases : ℕ → Label

abbrev pub is_pooled : Session → Bool
is_pooled pooled = true
is_pooled s = false

abbrev pub is_closed : Session → Bool
is_closed closed = true
is_closed s = false

abbrev pub is_idle : Phase → Bool
is_idle idle = true
is_idle p = false

-- pg_try_advisory_lock: granted if nobody else's session has it.
abbrev pub free_for : ℕ → Option ℕ → Bool
free_for s none = true
free_for s (some t) = nat_beq s t

abbrev pub lock_event : Bool → Bool → Event
lock_event answered granted = if answered then lock_answer granted else lock_error

abbrev pub ask : ℕ → Bool → Phase → System → System
ask p answered (asking s) σ =
    if is_closed (σ.session s)
    then deliver p lock_error σ
    else (if free_for s σ.holder
        then deliver p (lock_event answered true) (record σ { holder = some s })
        else deliver p (lock_event answered false) σ)
ask p answered phase σ = σ

abbrev pub release : ℕ → Option ℕ → Option ℕ
release s none = none
release s (some t) = if nat_beq s t then none else some t

unfoldable pub step : Label → System → System
step (refuses p) σ = deliver p no_connection σ
step (connects p s) σ =
    if is_idle (σ.phase p) && is_pooled (σ.session s)
    then deliver p (connection s) (record σ { session = put σ.session s in_use })
    else σ
step (asks p answered) σ = ask p answered (σ.phase p) σ
step (loses p r) σ = deliver p (lock_lost r) σ
step (demotes p panics) σ = deliver p (demoted panics) σ
step (dies s) σ =
    if is_pooled (σ.session s) then σ else record σ { session = put σ.session s closed }
step (releases s) σ =
    if is_closed (σ.session s) then record σ { holder = release s σ.holder } else σ

unfoldable pub run : List Label → System → System
run [] σ = σ
run (l ∷ ls) σ = run ls (step l σ)
