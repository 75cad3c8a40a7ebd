-- ===== src/Scheduler/Tick.antt =====
-- scheduler.go: the shared cursor of a tick (processTick).
use mathlib.Core.List.{Memᴰ}
use mathlib.Core.List.Memᴰ.{head, tail}
use cronlite.Base.{
  ℕ, ◌+◌, ◌≤◌, ◌<◌, ◌≡◌, refl, ◌⊎◌, inl, inr, Bool, true, some, List, [], ◌∷◌, ◌++◌, arith, any,
  any-append, length, filter_by, ltb,
}
use cronlite.Domain.{JobWithSchedule}
use cronlite.Scheduler.{
  World, Scheduler, Effect, JobResult, process_job, window_start, minute, truncate,
}
use cronlite.Scheduler.Ticks.{
  tick_page, process_tick, hold_back, get_enabled_jobs, default_job_page_size,
}
use cronlite.Scheduler.Fires.{Covered, IsCron, persists, unfinished}
use cronlite.Scheduler.Fires.Progress.{Parses, no_fire_lost, process_job-cursor}
use cronlite.Scheduler.Pages.{IsOrdered, is_enabled, paging_complete}

page-cursor :
    (w : World) (s : Scheduler) (jobs : List JobWithSchedule) (n cursor : ℕ) (es : List Effect)
    → (tick_page w s jobs (n, cursor, es)).1 ≤ cursor
unfolding tick_page hold_back
page-cursor w s [] n cursor es = omega arith
page-cursor w s (x ∷ xs) n cursor es =
    let r = process_job w s x in
    ground (arith, page-cursor w s xs (n + r.triggered) (hold_back r cursor) (es ++ r.effects))

page-keeps :
    (w : World) (s : Scheduler) (p : Effect → Bool) (jobs : List JobWithSchedule) (n cursor : ℕ)
    (es : List Effect)
    → any p es ≡ true
    → any p (tick_page w s jobs (n, cursor, es)).2 ≡ true
unfolding tick_page
page-keeps w s p [] n cursor es h = h
page-keeps w s p (x ∷ xs) n cursor es h =
    let r = process_job w s x in
    page-keeps w s p xs (n + r.triggered) (hold_back r cursor) (es ++ r.effects)
      (ground (arith, any-append p es r.effects))

-- A held-back cursor is before a fire time that the job did not reach.
held-hold_back :
    (r : JobResult) (cursor u : ℕ)
    → 1 ≤ r.cursor
    → unfinished r ≡ true
    → r.cursor < u
    → hold_back r cursor < u
unfolding hold_back
held-hold_back r cursor u real open_end ahead = ground arith

-- What a tick makes of one of its jobs.
page-job :
    (w : World) (s : Scheduler) (jws : JobWithSchedule) (jobs : List JobWithSchedule) (n cursor : ℕ)
    (es : List Effect) (u : ℕ)
    → Memᴰ jws jobs
    → 1 ≤ (process_job w s jws).cursor
    → Covered jws.job.id (process_job w s jws) u
    → (any (persists jws.job.id (truncate u)) (tick_page w s jobs (n, cursor, es)).2 ≡ true)
      ⊎ ((tick_page w s jobs (n, cursor, es)).1 < u)
unfolding tick_page
page-job w s jws [] n cursor es u m real covered = elim m [ ]
page-job w s jws (x ∷ xs) n cursor es u (head e) real (inl slot) =
    let r = process_job w s x in
    let slot1 = rw e at slot in
    let now_in : any (persists x.job.id (truncate u)) (es ++ r.effects) ≡ true =
      ground (arith, slot1, any-append (persists x.job.id (truncate u)) es r.effects) in
    inl (
      rw e (
        page-keeps w s (persists x.job.id (truncate u)) xs (n + r.triggered) (hold_back r cursor)
          (es ++ r.effects) now_in))
page-job w s jws (x ∷ xs) n cursor es u (head e) real (inr (open_end, ahead)) =
    let r = process_job w s x in
    let low = held-hold_back r cursor u (rw e at real) (rw e at open_end) (rw e at ahead) in
    let down = page-cursor w s xs (n + r.triggered) (hold_back r cursor) (es ++ r.effects) in
    inr (omega (arith, low, down))
page-job w s jws (x ∷ xs) n cursor es u (tail m) real covered =
    let r = process_job w s x in
    page-job w s jws xs (n + r.triggered) (hold_back r cursor) (es ++ r.effects) u m real covered

-- No tick loses a fire time. Take an enabled job in the table whose zone and cron expression are
-- good, and a fire time of its schedule after its window's start and not in the future. After the
-- tick the slot of that fire time is stored, or the scheduler's last tick is before that fire time,
-- so that it is due again. The window starts after the first minute of the calendar, and the tick
-- may read one page more than there are rows.
pub tick_loses_nothing :
    (fuel : ℕ) (fires : ℕ → Bool) (next : ℕ → ℕ) (w : World) (s : Scheduler)
    (rows : List JobWithSchedule) (jws : JobWithSchedule) (u : ℕ)
    → IsOrdered rows
    → length rows < fuel
    → Memᴰ jws (filter_by is_enabled rows)
    → IsCron fires next
    → Parses w jws next
    → minute ≤ window_start w s jws.job
    → window_start w s jws.job < u
    → u ≤ w.now
    → fires u ≡ true
    → let r = process_tick fuel (λ a. some (get_enabled_jobs rows default_job_page_size a)) w s in
      (any (persists jws.job.id (truncate u)) r.effects ≡ true) ⊎ (r.scheduler.last_tick < u)
tick_loses_nothing fuel fires next w s rows jws u ordered enough mem cron parses real lt due on =
    rw (paging_complete fuel w s rows ordered enough) (
      page-job w s jws (filter_by is_enabled rows) 0 w.now [] u mem
        (process_job-cursor fires next w s jws cron parses real)
        (no_fire_lost fires next w s jws u cron parses lt due on))

-- After a tick the scheduler's last tick is not in the future, and its cursor counts as deferred
-- exactly if the last tick is before the present.
pub tick_cursor :
    (fuel : ℕ) (w : World) (s : Scheduler) (rows : List JobWithSchedule)
    → IsOrdered rows
    → length rows < fuel
    → let t =
        (process_tick fuel
          (λ a. some (get_enabled_jobs rows default_job_page_size a))
          w
          s).scheduler in
      (t.last_tick ≤ w.now) × (t.deferred_cursor ≡ ltb t.last_tick w.now)
tick_cursor fuel w s rows ordered enough =
    rw (paging_complete fuel w s rows ordered enough)
      (page-cursor w s (filter_by is_enabled rows) 0 w.now [], refl)
