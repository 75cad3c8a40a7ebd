-- ===== src/Migrate/Lock.antt =====
-- run.go: acquireLock, the whole of Run, NeedsBaseline and StatusOf. A time is a number of
-- nanoseconds; a timeout that is zero or less is 0.
use cronlite.Base.{
  ℕ, zero, suc, ◌+◌, ◌-◌, ◌*◌, ◌/◌, ◌≤◌, ◌≡◌, ◌≢◌, min, Bool, true, not, arith, ltb, ltb→lt,
  nat_beq, if◌then◌else◌, if-intro, id_key, text_key,
}

abbrev pub default_lock_timeout : ℕ
default_lock_timeout = 120 * 1000000000

abbrev pub lock_poll_interval : ℕ
lock_poll_interval = 100 * 1000000

pub data Poll : Type 0 where
  granted busy poll_error : Poll

-- Per poll: the answer, the clock when it is compared with the deadline and when the wait is
-- computed, and whether the context ends during the wait.
pub record LockWorld : Type 0 where
  pub poll : ℕ → Poll
  pub checked : ℕ → ℕ
  pub waited : ℕ → ℕ
  pub cancelled : ℕ → Bool

pub data LockAnswer : Type 0 where
  acquired query_failed lock_timeout wait_cancelled still_waiting : LockAnswer

-- `time.Until` is negative after the deadline, and a timer of such a duration fires at once.
abbrev pub wait_time : LockWorld → ℕ → ℕ → ℕ
wait_time w deadline i = min lock_poll_interval (deadline - w.waited i)

abbrev pub after_poll : LockWorld → ℕ → ℕ → Poll → LockAnswer → LockAnswer
after_poll w deadline i poll_error rest = query_failed
after_poll w deadline i granted rest = acquired
after_poll w deadline i busy rest =
    if not (ltb (w.checked i) deadline)
    then lock_timeout
    else (if w.cancelled i then wait_cancelled else rest)

-- The loop from poll `i` on, of at most so many polls.
unfoldable pub poll_lock : LockWorld → ℕ → ℕ → ℕ → LockAnswer
poll_lock w deadline zero i = still_waiting
poll_lock w deadline (suc fuel) i =
    let rest = poll_lock w deadline fuel (i + 1) in after_poll w deadline i (w.poll i) rest

abbrev pub effective_timeout : ℕ → ℕ
effective_timeout timeout = if nat_beq timeout 0 then default_lock_timeout else timeout

-- A poll per interval, one for the rest of the timeout and one at its end.
abbrev pub enough_polls : ℕ → ℕ
enough_polls timeout = suc (suc (effective_timeout timeout / lock_poll_interval))

unfoldable pub acquire_lock : LockWorld → ℕ → ℕ → LockAnswer
unfolding poll_lock
acquire_lock w start timeout =
    poll_lock w (start + effective_timeout timeout) (enough_polls timeout) 0

-- What is documented of `time.Now` and of timers: the clock does not go back, and a timer does not
-- fire early.
abbrev pub IsClock : LockWorld → ℕ → ℕ → Type 0
IsClock w start deadline =
    (start ≤ w.checked 0)
    × ((i : ℕ)
        → (w.checked i ≤ w.waited i) × (w.waited i + wait_time w deadline i ≤ w.checked (i + 1)))

answered :
    (w : LockWorld) (deadline i : ℕ) (p : Poll) (rest : LockAnswer)
    → (ltb (w.checked i) deadline ≡ true → rest ≢ still_waiting)
    → after_poll w deadline i p rest ≢ still_waiting
answered w deadline i poll_error rest h = λ e. absurd (ground (arith, e))
answered w deadline i granted rest h = λ e. absurd (ground (arith, e))
answered w deadline i busy rest h =
    if-intro (λ a. a ≢ still_waiting) (not (ltb (w.checked i) deadline)) _ _
      (λ b e. absurd (ground (arith, e)))
      (λ b.
        if-intro (λ a. a ≢ still_waiting) (w.cancelled i) _ _ (λ c e. absurd (ground (arith, e)))
          (λ c. h (ground (arith, b))))

poll_lock_ends :
    (w : LockWorld) (start deadline fuel i : ℕ)
    → IsClock w start deadline
    → deadline ≤ w.checked i + fuel * lock_poll_interval
    → poll_lock w deadline (suc fuel) i ≢ still_waiting
unfolding poll_lock
poll_lock_ends w start deadline zero i clock h =
    answered w deadline i (w.poll i) still_waiting
      (λ b. absurd (omega (arith, h, ltb→lt (w.checked i) deadline b)))
poll_lock_ends w start deadline (suc fuel) i clock h = answered w deadline i (w.poll i) _ (λ b.
    let (later, timed) = clock.1 i in
    poll_lock_ends w start deadline fuel (i + 1) clock (ground (arith, h, later, timed)))

-- If the clock does not go back and no timer fires early, the wait for the lock ends: `acquire_lock`
-- polls at most once per interval of the timeout, and twice more.
pub acquire_lock_ends :
    (w : LockWorld) (start timeout : ℕ)
    → IsClock w start (start + effective_timeout timeout)
    → acquire_lock w start timeout ≢ still_waiting
unfolding acquire_lock
acquire_lock_ends w start timeout clock =
    poll_lock_ends w start (start + effective_timeout timeout)
      (suc (effective_timeout timeout / lock_poll_interval)) 0 clock (omega (arith, clock.0))
