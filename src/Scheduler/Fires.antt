-- ===== src/Scheduler/Fires.antt =====
-- scheduler.go: the due times of one job in one tick (emitExecution and the loop around it).
pub mod Progress
use cronlite.Base.{
  ℕ, zero, suc, ◌≤◌, ◌<◌, ◌≡◌, ◌≢◌, refl, ◌⊎◌, inl, inr, Bool, true, false, not, ◌&&◌, ◌||◌, some,
  arith, any, any-append, All, All-append, leb, nat_beq, nat_beq_iff, Bool-cases, if-intro,
}
use cronlite.Domain.{Job, JobWithSchedule}
use cronlite.Scheduler.{
  Config, World, Effect, inserts, emits, Inserted, stored, duplicate, insert_failed, JobResult,
  truncate, emit_execution, emission, advance, give_up, fire, process_due, max_iterations, at_start,
  has_error, process_job, process_parsed, window_start, Scheduler, zone_of, minute,
}

-- What the scheduler relies on in a `CronSchedule`: `Next(t)` is the first fire time after `t`, or
-- the zero time if there is none.
pub record IsCron (fires : ℕ → Bool) (next : ℕ → ℕ) : Type 0 where
  pub is_later : (t : ℕ) → next t ≢ 0 → t < next t
  pub is_fire : (t : ℕ) → next t ≢ 0 → fires (next t) ≡ true
  pub is_first : (t u : ℕ) → next t ≢ 0 → t < u → fires u ≡ true → next t ≤ u
  pub is_last : (t u : ℕ) → next t ≡ 0 → t < u → fires u ≡ false

-- The effect stores the job's slot, or finds it stored.
abbrev pub persists : ℕ → ℕ → Effect → Bool
persists id at (inserts x insert_failed) = false
persists id at (inserts x _) = nat_beq x.job_id id && nat_beq x.scheduled_at at
persists id at (emits event) = false

-- The job was not brought up to the end of the tick.
abbrev pub unfinished : JobResult → Bool
unfinished r = r.capped || has_error r

emit-persists :
    (w : World) (job : Job) (i at : ℕ)
    → (emit_execution w job i at).persisted ≡ true
    → any (persists job.id at) (emit_execution w job i at).effects ≡ true
unfolding emit_execution any
emit-persists w job i at h =
    ground (arith, (nat_beq_iff job.id job.id).1 refl, (nat_beq_iff at at).1 refl)

-- The loop only adds effects.
fire-keeps :
    (next : ℕ → ℕ) (w : World) (job : Job) (p : Effect → Bool) (left i t : ℕ) (r : JobResult)
    → any p r.effects ≡ true
    → any p (fire next w job left i t r).effects ≡ true
unfolding fire
fire-keeps next w job p zero i t r h = ground arith
fire-keeps next w job p (suc left) i t r h =
    let e = emit_execution w job i (truncate t) in
    ground (
      arith,
      any-append p r.effects e.effects,
      fire-keeps next w job p left (suc i) (next t) (advance e (truncate t) r),
    )

-- The slot of `u` is durable, or the job is unfinished and its cursor is before `u`.
abbrev pub Covered : ℕ → JobResult → ℕ → Type 0
Covered id r u =
    (any (persists id (truncate u)) r.effects ≡ true) ⊎ ((unfinished r ≡ true) × (r.cursor < u))

-- The slot is due in the window after `start`.
abbrev pub DueSlot : (ℕ → Bool) → World → ℕ → ℕ → Type 0
DueSlot fires w start slot =
    (t : ℕ) × (start < t) × (t ≤ w.now) × (fires t ≡ true) × (slot ≡ truncate t)

-- The effect is about this job and a due slot.
abbrev pub IsDue : (ℕ → Bool) → World → Job → ℕ → Effect → Type 0
IsDue fires w job start (inserts x answer) =
    (x.job_id ≡ job.id) × DueSlot fires w start x.scheduled_at
IsDue fires w job start (emits event) =
    (event.job_id ≡ job.id) × DueSlot fires w start event.scheduled_at

module _ (fires : ℕ → Bool) (next : ℕ → ℕ) (cron : IsCron fires next) (w : World) (job : Job) where
  fire-Covered :
      (left i prev u : ℕ) (r : JobResult)
      → next prev ≢ 0
      → prev < u
      → u ≤ w.now
      → fires u ≡ true
      → r.cursor ≤ prev
      → Covered job.id (fire next w job left i (next prev) r) u
  unfolding fire
  fire-Covered zero i prev u r more lt due on behind =
      let first = cron.is_first prev u more lt on in inr (ground arith, ground arith)
  fire-Covered (suc left) i prev u r more lt due on behind =
      let first = cron.is_first prev u more lt on in
      let t = next prev in
      let e = emit_execution w job i (truncate t) in
      let r1 = advance e (truncate t) r in
      elim (Bool-cases e.persisted) [
        | inr lost ↦ inr (ground arith, ground arith)
        | inl kept_it ↦ elim (Bool-cases (nat_beq u t)) [
          | inl here ↦
              let here1 = (nat_beq_iff u t).0 here in
              let slot = emit-persists w job i (truncate t) kept_it in
              let p = persists job.id (truncate t) in
              let kept : any p r1.effects ≡ true =
                ground (arith, any-append p r.effects e.effects) in
              let later = fire-keeps next w job p left (suc i) (next t) r1 kept in
              inl (rw here1 (ground (arith, kept, later)))
          | inr later ↦
              let lt1 : t < u = ground arith in
              let more1 : next t ≢ 0 = λ end. ground (arith, cron.is_last t u end lt1) in
              let up = cron.is_later t more1 in
              let ih = fire-Covered left (suc i) t u r1 more1 lt1 due on (omega arith) in
              elim ih [
                | inl slot ↦ inl (ground (arith, slot))
                | inr (open_end, ahead) ↦ inr (ground (arith, open_end), ground (arith, ahead))
              ]
        ]
      ]

  pub process-Covered :
      (c : Config) (start u : ℕ)
      → start < u
      → u ≤ w.now
      → fires u ≡ true
      → Covered job.id (process_due next w c job start) u
  unfolding process_due
  process-Covered c start u lt due on =
      let more : next start ≢ 0 = λ end. ground (arith, cron.is_last start u end lt) in
      let up = cron.is_later start more in
      let ih =
        fire-Covered (max_iterations c) 0 start u (at_start start) more lt due on (omega arith) in
      elim ih [
        | inl slot ↦ inl (ground (arith, slot))
        | inr (open_end, ahead) ↦ inr (ground (arith, open_end), ground (arith, ahead))
      ]

  emission-IsDue :
      (start i t : ℕ) (answer : Inserted)
      → start < t
      → t ≤ w.now
      → fires t ≡ true
      → All (IsDue fires w job start) (emission w job i (truncate t) answer).effects
  emission-IsDue start i t stored lt due on =
      ((refl, (t, lt, due, on, refl)), ((refl, (t, lt, due, on, refl)), tt))
  emission-IsDue start i t duplicate lt due on = ((refl, (t, lt, due, on, refl)), tt)
  emission-IsDue start i t insert_failed lt due on = ((refl, (t, lt, due, on, refl)), tt)

  fire-IsDue :
      (left i start prev : ℕ) (r : JobResult)
      → next prev ≢ 0
      → start ≤ prev
      → All (IsDue fires w job start) r.effects
      → All (IsDue fires w job start) (fire next w job left i (next prev) r).effects
  unfolding fire emit_execution
  fire-IsDue zero i start prev r more past h =
      if-intro (λ o. All (IsDue fires w job start) o.effects) (leb (next prev) w.now) _ r (λ b. h)
        (λ b. h)
  fire-IsDue (suc left) i start prev r more past h =
      let t = next prev in
      let e = emit_execution w job i (truncate t) in
      let r1 = advance e (truncate t) r in
      let P : JobResult → Type 0 = λ o. All (IsDue fires w job start) o.effects in
      let lt = cron.is_later prev more in
      if-intro P (not (leb t w.now)) r _ (λ b. h)
        (λ due.
          let es : All (IsDue fires w job start) e.effects =
            emission-IsDue start i t (w.inserted job.id i) (omega arith) (ground arith)
              (cron.is_fire prev more) in
          let h1 = All-append (IsDue fires w job start) r.effects e.effects h es in
          if-intro P (not e.persisted) (give_up e r) _ (λ b. h1)
            (λ b.
              if-intro P (nat_beq (next t) 0 || leb (next t) t) r1 _ (λ c. h1)
                (λ c. fire-IsDue left (suc i) start t r1 (λ end. ground arith) (omega arith) h1)))

  pub process-IsDue :
      (c : Config) (start : ℕ)
      → All (IsDue fires w job start) (process_due next w c job start).effects
  unfolding process_due
  process-IsDue c start =
      let P : JobResult → Type 0 = λ o. All (IsDue fires w job start) o.effects in
      if-intro P (nat_beq (next start) 0 || leb (next start) start) (at_start start) _ (λ b. tt)
        (λ b.
          fire-IsDue (max_iterations c) 0 start start (at_start start) (λ end. ground arith)
            (omega arith) tt)

  fire-cursor :
      (left i prev : ℕ) (r : JobResult)
      → next prev ≢ 0
      → minute ≤ prev
      → 1 ≤ r.cursor
      → 1 ≤ (fire next w job left i (next prev) r).cursor
  unfolding fire
  fire-cursor zero i prev r more past h =
      if-intro (λ o. 1 ≤ o.cursor) (leb (next prev) w.now) _ r (λ b. h) (λ b. h)
  fire-cursor (suc left) i prev r more past h =
      let t = next prev in
      let e = emit_execution w job i (truncate t) in
      let r1 = advance e (truncate t) r in
      let P : JobResult → Type 0 = λ o. 1 ≤ o.cursor in
      let lt = cron.is_later prev more in
      let h1 : 1 ≤ truncate t = omega arith in
      if-intro P (not (leb t w.now)) r _ (λ b. h)
        (λ due.
          if-intro P (not e.persisted) (give_up e r) _ (λ b. h)
            (λ b.
              if-intro P (nat_beq (next t) 0 || leb (next t) t) r1 _ (λ c. h1)
                (λ c. fire-cursor left (suc i) t r1 (λ end. ground arith) (omega arith) h1)))

  pub process-cursor :
      (c : Config) (start : ℕ) → minute ≤ start → 1 ≤ (process_due next w c job start).cursor
  unfolding process_due
  process-cursor c start past =
      let P : JobResult → Type 0 = λ o. 1 ≤ o.cursor in
      if-intro P (nat_beq (next start) 0 || leb (next start) start) (at_start start) _
        (λ b. omega arith)
        (λ b.
          fire-cursor (max_iterations c) 0 start (at_start start) (λ end. ground arith) past
            (omega arith))
