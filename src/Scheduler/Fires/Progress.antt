-- ===== src/Scheduler/Fires/Progress.antt =====
-- scheduler.go: the theorems on one job in one tick (processJobWithProgress).
use cronlite.Base.{ℕ, ◌≤◌, ◌<◌, ◌≡◌, refl, Bool, true, some, All}
use cronlite.Domain.{JobWithSchedule}
use cronlite.Scheduler.{
  World, process_due, process_job, process_parsed, window_start, Scheduler, zone_of, minute,
}
use cronlite.Scheduler.Fires.{
  Covered, IsCron, IsDue, process-Covered, process-IsDue, process-cursor,
}

-- The job's zone and its cron expression are good.
abbrev pub Parses : World → JobWithSchedule → (ℕ → ℕ) → Type 0
Parses w jws next =
    (w.knows_zone (zone_of jws.schedule) ≡ true)
    × (w.parse jws.schedule.cron_expression (zone_of jws.schedule) ≡ some next)

process_job-Parses :
    (w : World) (s : Scheduler) (jws : JobWithSchedule) (next : ℕ → ℕ)
    → Parses w jws next
    → process_job w s jws ≡ process_due next w s.config jws.job (window_start w s jws.job)
unfolding process_job process_parsed
process_job-Parses w s jws next (zone, parsed) = rw zone (rw parsed refl)

-- A tick loses no fire time of a job: each fire time in the job's window, up to the tick's instant,
-- has its slot stored by this tick (or found stored), or else the job is reported as unfinished
-- with a cursor before that fire time, from which a later tick resumes.
pub no_fire_lost :
    (fires : ℕ → Bool) (next : ℕ → ℕ) (w : World) (s : Scheduler) (jws : JobWithSchedule) (u : ℕ)
    → IsCron fires next
    → Parses w jws next
    → window_start w s jws.job < u
    → u ≤ w.now
    → fires u ≡ true
    → Covered jws.job.id (process_job w s jws) u
no_fire_lost fires next w s jws u cron parses lt due on =
    rw (process_job-Parses w s jws next parses)
      (process-Covered fires next cron w jws.job s.config (window_start w s jws.job) u lt due on)

-- A tick makes nothing up: every execution it stores and every event it emits for a job carries
-- the job's id and, to the minute, a fire time after the window's start and not in the future.
pub nothing_made_up :
    (fires : ℕ → Bool) (next : ℕ → ℕ) (w : World) (s : Scheduler) (jws : JobWithSchedule)
    → IsCron fires next
    → Parses w jws next
    → All (IsDue fires w jws.job (window_start w s jws.job)) (process_job w s jws).effects
nothing_made_up fires next w s jws cron parses =
    rw (process_job-Parses w s jws next parses)
      (process-IsDue fires next cron w jws.job s.config (window_start w s jws.job))

-- A result about the window of real times has a cursor, so that it can hold the tick back.
pub process_job-cursor :
    (fires : ℕ → Bool) (next : ℕ → ℕ) (w : World) (s : Scheduler) (jws : JobWithSchedule)
    → IsCron fires next
    → Parses w jws next
    → minute ≤ window_start w s jws.job
    → 1 ≤ (process_job w s jws).cursor
process_job-cursor fires next w s jws cron parses past =
    rw (process_job-Parses w s jws next parses)
      (process-cursor fires next cron w jws.job s.config (window_start w s jws.job) past)
