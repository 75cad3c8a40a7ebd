-- ===== src/Scheduler/Ticks.antt =====
-- scheduler.go: processTick, over the pages of the enabled jobs.
use cronlite.Base.{
  ℕ, zero, suc, ◌+◌, Bool, true, false, not, ◌&&◌, ◌||◌, Option, none, some, List, [], ◌∷◌, ◌++◌,
  length, take, filter_by, sort_by, ltb, leb, nat_beq, text_key, if◌then◌else◌,
}
use cronlite.Domain.{JobWithSchedule}
use cronlite.Scheduler.{Effect, JobResult, Scheduler, World, has_error, process_job}

-- The tick's cursor: an unfinished job with progress holds it back.
unfoldable pub hold_back : JobResult → ℕ → ℕ
hold_back r cursor =
    if (r.capped || has_error r) && not (nat_beq r.cursor 0) && ltb r.cursor cursor
    then r.cursor
    else cursor

pub record TickResult : Type 0 where
  pub scheduler : Scheduler
  pub triggered : ℕ
  pub failed : Bool
  pub effects : List Effect

-- The body of processTick for the jobs of a page, with the triggered jobs, the cursor and the effects.
unfoldable pub tick_page :
    World → Scheduler → List JobWithSchedule → ℕ × ℕ × List Effect → ℕ × ℕ × List Effect
tick_page w s [] acc = acc
tick_page w s (jws ∷ rest) (n, cursor, effects) =
    let r = process_job w s jws in
    tick_page w s rest (n + r.triggered, hold_back r cursor, effects ++ r.effects)

abbrev pub default_job_page_size : ℕ
default_job_page_size = 100

abbrev pub last_id : List JobWithSchedule → ℕ
last_id [] = 0
last_id (jws ∷ []) = jws.job.id
last_id (jws ∷ more ∷ rest) = last_id (more ∷ rest)

-- The end of processTick, after the last page.
abbrev pub finish_tick : World → Scheduler → ℕ × ℕ × List Effect → TickResult
finish_tick w s acc = record {
  scheduler = record s { last_tick = acc.1; deferred_cursor = ltb acc.1 w.now };
  triggered = acc.0;
  failed = false;
  effects = acc.2;
}

-- The jobs could not be read: the tick's cursor stays.
abbrev pub abandon_tick : Scheduler → ℕ × ℕ × List Effect → TickResult
abandon_tick s acc = record {
  scheduler = record s { deferred_cursor = true };
  triggered = acc.0;
  failed = true;
  effects = acc.2;
}

-- The pages of GetEnabledJobs, by the id that a page starts after; none is an error. `fuel` bounds
-- the number of pages.
unfoldable pub tick_pages :
    ℕ
    → (ℕ → Option (List JobWithSchedule))
    → World
    → Scheduler
    → ℕ
    → ℕ × ℕ × List Effect
    → TickResult
tick_pages zero pages w s after acc = abandon_tick s acc
tick_pages (suc fuel) pages w s after acc = elim (pages after) [
  | none ↦ abandon_tick s acc
  | some jobs ↦
      let done = tick_page w s jobs acc in
      let rest = tick_pages fuel pages w s (last_id jobs) done in
      if ltb (length jobs) default_job_page_size then finish_tick w s done else rest
]

unfoldable pub process_tick :
    ℕ → (ℕ → Option (List JobWithSchedule)) → World → Scheduler → TickResult
process_tick fuel pages w s = tick_pages fuel pages w s 0 (0, w.now, [])

-- The store's GetEnabledJobs (queryGetEnabledJobs): enabled jobs after an id, in the order of the
-- ids; the nil UUID is 0.
abbrev pub wanted : ℕ → JobWithSchedule → Bool
wanted after jws = jws.job.enabled && (nat_beq after 0 || ltb after jws.job.id)

abbrev pub by_id : JobWithSchedule → JobWithSchedule → Bool
by_id a b = leb a.job.id b.job.id

unfoldable pub get_enabled_jobs : List JobWithSchedule → ℕ → ℕ → List JobWithSchedule
get_enabled_jobs rows limit after = take limit (sort_by by_id (filter_by (wanted after) rows))
