-- ===== src/Scheduler/Examples.antt =====
-- Ticks of a scheduler with one job that is due every minute, and the theorems at concrete inputs.
use mathlib.Core.List.Memᴰ.{head}
use cronlite.Base.{
  ℕ, zero, suc, ◌+◌, ◌*◌, ◌/◌, ◌%◌, ◌<◌, ◌≡◌, refl, ◌⊎◌, Bool, true, false, none, some, [], ◌∷◌,
  arith, any, All, nat_beq, filter_by,
}
use cronlite.Domain.{JobWithSchedule}
use cronlite.Scheduler.{
  Scheduler, World, stored, insert_failed, minute, truncate, window_start, process_job, base_cursor,
}
use cronlite.Scheduler.Ticks.{
  process_tick, get_enabled_jobs, default_job_page_size, finish_tick, tick_page,
}
use cronlite.Scheduler.Fires.{IsCron, IsDue, persists}
use cronlite.Scheduler.Fires.Progress.{nothing_made_up}
use cronlite.Scheduler.Pages.{is_enabled, paging_complete}
use cronlite.Scheduler.Tick.{tick_loses_nothing}

abbrev each_minute : ℕ → ℕ
each_minute t = (t / minute + 1) * minute

abbrev on_the_minute : ℕ → Bool
on_the_minute t = nat_beq (t % minute) 0

each_minute-IsCron : IsCron on_the_minute each_minute
each_minute-IsCron = record {
  is_later = λ t h. omega arith;
  is_fire = λ t h. ground arith;
  is_first = λ t u h lt on. ground arith;
  is_last = λ t u h. absurd (omega arith);
}

abbrev minutely : JobWithSchedule
minutely = record {
  job = record {
    id = 1;
    namespace = "ns";
    name = "minutely";
    enabled = true;
    schedule_id = 1;
    delivery = record { webhook_url = "https://a/"; secret = "s"; timeout = 30 };
    analytics = record { enabled = false; retention_seconds = 0 };
    created_at = minute;
    updated_at = minute;
  };
  schedule = record {
    id = 1;
    cron_expression = "* * * * *";
    timezone = "";
    created_at = 0;
    updated_at = 0;
  };
}

-- The second insertion of the tick fails.
abbrev shaky : World
shaky = record {
  now = 5 * minute;
  knows_zone = λ zone. true;
  parse = λ expression zone. some each_minute;
  last_scheduled = none;
  inserted = λ job i. elim i [ suc zero ↦ insert_failed | _ ↦ stored ];
  accepts = λ job i. true;
  new_id = λ job i. i;
}

abbrev fresh : Scheduler
fresh = record {
  config = record { tick_interval = minute; max_fires_per_tick = 2 };
  last_tick = 0;
  deferred_cursor = false;
}

nothing_made_up_example :
    All
      (IsDue on_the_minute shaky minutely.job (window_start shaky fresh minutely.job))
      (process_job shaky fresh minutely).effects
nothing_made_up_example =
    nothing_made_up on_the_minute each_minute shaky fresh minutely each_minute-IsCron (refl, refl)

paging_complete_example :
    process_tick 2
      (λ a. some (get_enabled_jobs (minutely ∷ []) default_job_page_size a))
      shaky
      fresh
    ≡ finish_tick shaky fresh
        (tick_page shaky fresh (filter_by is_enabled (minutely ∷ [])) (0, 5 * minute, []))
paging_complete_example =
    paging_complete 2 shaky fresh (minutely ∷ []) (omega arith, tt, tt) (omega arith)

tick_loses_nothing_example :
    let r =
      process_tick 2
        (λ a. some (get_enabled_jobs (minutely ∷ []) default_job_page_size a))
        shaky
        fresh in
    (any (persists 1 (truncate (4 * minute))) r.effects ≡ true)
    ⊎ (r.scheduler.last_tick < 4 * minute)
unfolding filter_by window_start base_cursor
tick_loses_nothing_example =
    tick_loses_nothing 2 on_the_minute each_minute shaky fresh (minutely ∷ []) minutely (4 * minute)
      (omega arith, tt, tt) (omega arith) (head refl) each_minute-IsCron (refl, refl) (omega arith)
      (omega arith) (omega arith) refl
