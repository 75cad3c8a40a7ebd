-- ===== src/Jobs/NextRuns.antt =====
-- internal/service/jobs.go: computeNextRuns, GetNextRunTime and ResolveSchedule.
use cronlite.Base.{
  ℕ, zero, suc, ◌<◌, ◌≤◌, ◌≡◌, refl, String, ◌||◌, not, Option, none, some, List, [], ◌∷◌, arith,
  nat_beq, ltb, length, ◌==◌, text_key, if◌then◌else◌, if-intro,
}
use cronlite.Base.Texts.{Text}
use cronlite.Dispatcher.Classify.{bytes}
use cronlite.Domain.{JobWithSchedule}
use cronlite.Jobs.{
  Tables, Result, ok, err, job_disabled, invalid_cron_expression, get_job_with_schedule_scoped,
  namespace_required, invalid_timezone, schedule_parse_failure,
}
use cronlite.Jobs.Phrases.{parse_natural_language}
use cronlite.Jobs.Service.{World, CronSchedule, parse_cron, call}

-- The next run times after the cursor, at most so many.
unfoldable pub compute_next_runs : CronSchedule → ℕ → ℕ → List ℕ
compute_next_runs next zero cursor = []
compute_next_runs next (suc n) cursor =
    let rest = compute_next_runs next n (next cursor) in
    if nat_beq (next cursor) 0 || not (ltb cursor (next cursor)) then [] else next cursor ∷ rest

-- The first run and all of them, of an enabled job.
abbrev pub first_run : List ℕ → Result (ℕ × List ℕ)
first_run [] = err invalid_cron_expression
first_run (r ∷ rs) = ok (r, r ∷ rs)

abbrev pub runs_of : World → Option CronSchedule → Result (ℕ × List ℕ)
runs_of w none = err invalid_cron_expression
runs_of w (some next) = first_run (compute_next_runs next 5 w.now)

abbrev pub next_of_found : World → Result JobWithSchedule → Result (ℕ × List ℕ)
next_of_found w (err e) = err e
next_of_found w (ok f) =
    if not f.job.enabled
    then err job_disabled
    else runs_of w (parse_cron w (bytes f.schedule.cron_expression) f.schedule.timezone)

unfoldable pub get_next_run_time : World → String → ℕ → Tables → Result (ℕ × List ℕ)
get_next_run_time w ns id t =
    if ns == ""
    then err namespace_required
    else next_of_found w (call w.read_fails (get_job_with_schedule_scoped id ns t))

-- ResolveSchedule: the cron expression, the description and the next runs.
pub record ResolveResult : Type 0 where
  pub cron_expression : Text
  pub description : Text
  pub timezone : String
  pub next_runs : List ℕ

abbrev pub resolved : World → String → Text → Text → Option CronSchedule → Result ResolveResult
resolved w timezone text described none = err schedule_parse_failure
resolved w timezone text described (some next) = ok (record {
  cron_expression = text;
  description = described;
  timezone = timezone;
  next_runs = compute_next_runs next 5 w.now;
})

abbrev pub resolve_phrase : World → String → Option (Text × Text) → Result ResolveResult
resolve_phrase w timezone none = err schedule_parse_failure
resolve_phrase w timezone (some (text, described)) =
    resolved w timezone text described (parse_cron w text timezone)

-- A cron expression is taken as it is.
abbrev pub resolve_text : World → Text → String → Option CronSchedule → Result ResolveResult
resolve_text w text timezone none = resolve_phrase w timezone (parse_natural_language text)
resolve_text w text timezone (some next) = resolved w timezone text text (some next)

unfoldable pub resolve_schedule : World → Text → String → Result ResolveResult
resolve_schedule w text timezone =
    if w.load_location timezone
    then resolve_text w text timezone (parse_cron w text timezone)
    else err invalid_timezone

-- Each run is the schedule's next after the one before, and later than it.
abbrev pub RunsFrom : CronSchedule → ℕ → List ℕ → Type 0
RunsFrom next cursor [] = Unit
RunsFrom next cursor (r ∷ rs) = (r ≡ next cursor) × (cursor < r) × RunsFrom next r rs

runs-RunsFrom :
    (next : CronSchedule) (n cursor : ℕ) → RunsFrom next cursor (compute_next_runs next n cursor)
unfolding compute_next_runs
runs-RunsFrom next zero cursor = tt
runs-RunsFrom next (suc n) cursor =
    if-intro (RunsFrom next cursor) (nat_beq (next cursor) 0 || not (ltb cursor (next cursor))) _ _
      (λ b. tt) (λ b. (refl, ground (arith, b), runs-RunsFrom next n (next cursor)))

runs-length : (next : CronSchedule) (n cursor : ℕ) → length (compute_next_runs next n cursor) ≤ n
unfolding compute_next_runs
runs-length next zero cursor = omega arith
runs-length next (suc n) cursor =
    let nothing : 0 ≤ suc n = omega arith in
    let more : suc (length (compute_next_runs next n (next cursor))) ≤ suc n =
      omega (arith, runs-length next n (next cursor)) in
    if-intro (λ (rs : List ℕ). length rs ≤ suc n)
      (nat_beq (next cursor) 0 || not (ltb cursor (next cursor))) _ _ (λ b. nothing) (λ b. more)

-- computeNextRuns gives at most as many runs as it is asked for; each is the schedule's next fire
-- time after the one before, the first after the present, and later than that.
pub next_runs_ascend :
    (next : CronSchedule) (n now : ℕ)
    → RunsFrom next now (compute_next_runs next n now) × (length (compute_next_runs next n now) ≤ n)
next_runs_ascend next n now = (runs-RunsFrom next n now, runs-length next n now)
