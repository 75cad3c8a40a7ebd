-- ===== src/Leader/Examples.antt =====
-- leader.go: runs of two electors.
use cronlite.Base.{ℕ, ◌≡◌, refl, true, false, some, List, [], ◌∷◌}
use cronlite.Leader.{
  Label, connects, asks, dies, releases, conn_lost, idle, leading, in_use, closed, new_system, step,
  run, on_event, hold_lock, done, ping_ok, ping_failed,
}
use cronlite.Leader.Election.{one_leader}

-- Both ask, on sessions 5 and 6, and the first is granted the lock.
abbrev two_electors : List Label
two_electors = connects 0 5 ∷ connects 1 6 ∷ asks 0 true ∷ asks 1 true ∷ []

-- The session dies and the server releases the lock; the second asks again, on session 7.
abbrev failover : List Label
failover = connects 0 5 ∷ asks 0 true ∷ dies 5 ∷ releases 5 ∷ connects 1 7 ∷ asks 1 true ∷ []

first_leads : (run two_electors new_system).phase 0 ≡ leading 5
unfolding run step on_event
first_leads = refl

second_waits : (run two_electors new_system).phase 1 ≡ idle
unfolding run step on_event
second_waits = refl

lost_answer : (run (connects 0 5 ∷ asks 0 false ∷ []) new_system).session 5 ≡ closed
unfolding run step on_event
lost_answer = refl

second_takes_over : (run failover new_system).phase 1 ≡ leading 7
unfolding run step on_event
second_takes_over = refl

first_still_leads : (run failover new_system).phase 0 ≡ leading 5
unfolding run step on_event
first_still_leads = refl

its_session_is_closed : (run failover new_system).session 5 ≡ closed
unfolding run step on_event
its_session_is_closed = refl

new_session_lives : (run failover new_system).session 7 ≡ in_use
unfolding run step on_event
new_session_lives = refl

ping_lost : hold_lock (ping_ok ∷ ping_failed false ∷ done ∷ []) ≡ some conn_lost
unfolding hold_lock
ping_lost = refl

abbrev second : ℕ
second = 1

one_leader_example : second ≡ second
one_leader_example =
    one_leader failover second second 7 7 second_takes_over second_takes_over new_session_lives
      new_session_lives
