-- ===== src/Jobs/Rows.antt =====
-- store.go: the statements on a job that is there leave the jobs of other namespaces alone.
use cronlite.Base.{
  ℕ, ◌≡◌, refl, sym, ap, ◌∙◌, String, Bool, true, false, not, Option, none, some, List, arith, any,
  filter_by, nat_beq, nat_beq_iff, lookup, insert, delete, ◌==◌, text_key, id_key, if-intro,
  Bool-cases, inl, inr,
}
use mathlib.Core.Path.{subst}
use cronlite.Domain.{Job, Schedule}
use cronlite.Jobs.{
  Tables, Tag, Result, ok, err, and_then, or_not_found, upsert_tags, in_namespace, find_scoped,
  update_row, reconfigured_job, set_schedule, update_schedule, delete_tags, replace_tags,
  update_job_aggregate, set_job_enabled, enabled_job, is_of_job, delete_row, delete_job,
  shares_schedule, is_attempt_of, tags_of, tags_or_none,
}
use cronlite.Jobs.Schedules.{
  WellFormed, job_id, schedule_id, Keyed-insert, Keyed-delete, has-insert, replaced-HaveSchedules,
  removed-HaveSchedules,
}
use cronlite.Jobs.Isolation.{
  Local, Local-trans, Local-Untouched, Isolated, Then, upsert_tags-Local, delete_tags-Local,
  set_jobs-Local, set_schedules-Local, kept_executions, lookup-delete_other,
}

abbrev same_namespace : String → Option Job → Bool
same_namespace ns none = false
same_namespace ns (some j) = j.namespace == ns

in_namespace-found :
    (ns : String) (o : Option Job) (row : Job)
    → in_namespace ns o ≡ some row
    → (o ≡ some row) × ((row.namespace == ns) ≡ true)
in_namespace-found ns none row = λ h. absurd (ground (arith, h))
in_namespace-found ns (some j) row =
    if-intro (λ o. o ≡ some row → (some j ≡ some row) × ((row.namespace == ns) ≡ true))
      (j.namespace == ns) _ _ (λ b h. (h, ap (λ o. same_namespace ns o) (sym h) ∙ b))
      (λ b h. absurd (ground (arith, h)))

pub find_scoped-found :
    (id : ℕ) (ns : String) (t : Tables) (row : Job)
    → find_scoped id ns t ≡ some row
    → (lookup id t.jobs ≡ some row) × ((row.namespace == ns) ≡ true)
unfolding find_scoped
find_scoped-found id ns t row h = in_namespace-found ns (lookup id t.jobs) row h

foreign :
    (ns : String) (id k : ℕ) (row j : Job) (t : Tables)
    → lookup id t.jobs ≡ some row
    → lookup k t.jobs ≡ some j
    → nat_beq id k ≡ true
    → (row.namespace == ns) ≡ (j.namespace == ns)
foreign ns id k row j t here found e =
    ap (same_namespace ns) (sym here ∙ (ap (λ i. lookup i t.jobs) ((nat_beq_iff id k).0 e) ∙ found))

-- A job of another namespace is not the row, and has another schedule.
elsewhere :
    (ns : String) (id : ℕ) (row : Job) (t : Tables)
    → WellFormed t
    → find_scoped id ns t ≡ some row
    → (k : ℕ) (j : Job) → lookup k t.jobs ≡ some j
    → (j.namespace == ns) ≡ false
    → (nat_beq id k ≡ false) × (nat_beq row.schedule_id j.schedule_id ≡ false)
elsewhere ns id row t wf there k j found n =
    let (here, own) = find_scoped-found id ns t row there in
    let apart : nat_beq id k ≡ false = elim (Bool-cases (nat_beq id k)) [
      | inl e ↦ absurd (ground (arith, own, n, foreign ns id k row j t here found e))
      | inr e ↦ e
    ] in
    (
      apart,
      elim (Bool-cases (nat_beq row.schedule_id j.schedule_id)) [
        | inl e ↦ absurd (
            ground (
              arith,
              apart,
              nat_beq_iff id k,
              wf.0.0 id k row j here found ((nat_beq_iff row.schedule_id j.schedule_id).0 e),
            ))
        | inr e ↦ e
      ],
    )

-- A row of the namespace is written, with the schedule that it has, and perhaps that schedule too.
abbrev Rewrites : ℕ → Job → Tables → Tables → Type 0
Rewrites id row t u = Local id row.schedule_id t u × WellFormed u

put-Rewrites :
    (ns : String) (id : ℕ) (row j : Job) (t : Tables)
    → WellFormed t
    → find_scoped id ns t ≡ some row
    → j.schedule_id ≡ row.schedule_id
    → j.id ≡ row.id
    → Rewrites id row t (record t { jobs = insert id j t.jobs })
put-Rewrites ns id row j t (have, jobs, schedules) there own same =
    let (here, mine) = find_scoped-found id ns t row there in
    (
      set_jobs-Local id row.schedule_id j t,
      (
        replaced-HaveSchedules id j row t.jobs t.schedules have here own,
        Keyed-insert job_id id j t.jobs (same ∙ jobs id row here) jobs,
        schedules,
      ),
    )

abbrev pub ThenRow : (Tables → Type 0) → Result (Tables × Job) → Type 0
ThenRow P (ok (t, j)) = P t
ThenRow P (err e) = Unit

rewritten-Isolated :
    (ns : String) (id : ℕ) (row : Job) (t u : Tables)
    → WellFormed t
    → find_scoped id ns t ≡ some row
    → Rewrites id row t u
    → Isolated ns t u
rewritten-Isolated ns id row t u wf there (local, after) =
    (Local-Untouched ns id row.schedule_id t u local (elsewhere ns id row t wf there), after)

enabled-Isolated :
    (id : ℕ) (ns : String) (enabled : Bool) (now : ℕ) (t : Tables) (o : Option Job)
    → WellFormed t
    → find_scoped id ns t ≡ o
    → ThenRow (Isolated ns t) (
        and_then (or_not_found o) (λ row. ok (
          record t { jobs = insert id (enabled_job enabled now row) t.jobs },
          enabled_job enabled now row,
        )))
enabled-Isolated id ns enabled now t none wf there = tt
enabled-Isolated id ns enabled now t (some row) wf there =
    rewritten-Isolated ns id row t
      (record t { jobs = insert id (enabled_job enabled now row) t.jobs }) wf there
      (put-Rewrites ns id row (enabled_job enabled now row) t wf there refl refl)

pub set_job_enabled-Isolated :
    (id : ℕ) (ns : String) (enabled : Bool) (now : ℕ) (t : Tables)
    → WellFormed t
    → ThenRow (Isolated ns t) (set_job_enabled id ns enabled now t)
unfolding set_job_enabled
set_job_enabled-Isolated id ns enabled now t wf =
    enabled-Isolated id ns enabled now t (find_scoped id ns t) wf refl

deleted-Isolated :
    (id : ℕ) (ns : String) (t : Tables) (o : Option Job)
    → WellFormed t
    → find_scoped id ns t ≡ o
    → Then (Isolated ns t) (delete_row id t o)
unfolding tags_of
deleted-Isolated id ns t none wf there = tt
deleted-Isolated id ns t (some row) wf there =
    let (have, jobs, schedules) = wf in
    let (here, mine) = find_scoped-found id ns t row there in
    let u : Tables = record {
      jobs = delete id t.jobs;
      schedules = delete row.schedule_id t.schedules;
      tags = delete id t.tags;
      executions = filter_by (λ e. not (is_of_job id e)) t.executions;
      attempts = filter_by (λ a. not (is_attempt_of id t.executions a)) t.attempts;
    } in
    if-intro (Then (Isolated ns t)) (any (shares_schedule id row.schedule_id) t.jobs) _ _ (λ b. tt)
      (λ b. rewritten-Isolated ns id row t u wf there (
        (
          λ k n. lookup-delete_other id k t.jobs n,
          λ k n. lookup-delete_other row.schedule_id k t.schedules n,
          λ k n. ap tags_or_none (lookup-delete_other id k t.tags n),
          λ k n. kept_executions id k t.executions n,
        ),
        (
          removed-HaveSchedules id row t.jobs t.schedules have here,
          Keyed-delete job_id id t.jobs jobs,
          Keyed-delete schedule_id row.schedule_id t.schedules schedules,
        ),
      ))

pub delete_job-Isolated :
    (id : ℕ) (ns : String) (t : Tables) → WellFormed t → Then (Isolated ns t) (delete_job id ns t)
unfolding delete_job
delete_job-Isolated id ns t wf = deleted-Isolated id ns t (find_scoped id ns t) wf refl

-- The schedule's row is written, or there is none.
set_schedule-facts :
    (s : Schedule) (id : ℕ) (t : Tables) (o : Option Schedule)
    → WellFormed t
    → lookup s.id t.schedules ≡ o
    → Local id s.id t (set_schedule s t o)
      × WellFormed (set_schedule s t o)
      × ((set_schedule s t o).jobs ≡ t.jobs)
set_schedule-facts s id t none wf there =
    ((λ k n. refl, λ k n. refl, λ k n. refl, λ k n. refl), wf, refl)
set_schedule-facts s id t (some row) ((apart, have), jobs, schedules) there =
    let written : Schedule = record row {
      cron_expression = s.cron_expression;
      timezone = s.timezone;
      updated_at = s.updated_at;
    } in
    (
      set_schedules-Local id s.id written t,
      (
        (apart, λ a ja found. has-insert ja.schedule_id s.id written t.schedules (have a ja found)),
        jobs,
        Keyed-insert schedule_id s.id written t.schedules (schedules s.id row there) schedules,
      ),
      refl,
    )

replace_tags-Local :
    (id sid : ℕ) (tags : Option (List Tag)) (t : Tables) → Local id sid t (replace_tags id tags t)
replace_tags-Local id sid none t = (λ k n. refl, λ k n. refl, λ k n. refl, λ k n. refl)
replace_tags-Local id sid (some tags) t =
    Local-trans id sid t (delete_tags id t) (upsert_tags id tags (delete_tags id t))
      (delete_tags-Local id sid t) (upsert_tags-Local id sid tags (delete_tags id t))

replace_tags-WellFormed :
    (id : ℕ) (tags : Option (List Tag)) (t : Tables)
    → WellFormed t
    → WellFormed (replace_tags id tags t)
unfolding delete_tags upsert_tags
replace_tags-WellFormed id none t wf = wf
replace_tags-WellFormed id (some tags) t wf = wf

aggregate_row :
    (ns : String) (id : ℕ) (f : Job → Job) (s : Schedule) (tags : Option (List Tag)) (t : Tables)
    (stored : Option Schedule) (o : Option Job)
    → WellFormed t
    → lookup s.id t.schedules ≡ stored
    → find_scoped id ns t ≡ o
    → ((row : Job) → o ≡ some row → s.id ≡ row.schedule_id)
    → ((row : Job) → ((f row).schedule_id ≡ row.schedule_id) × ((f row).id ≡ row.id))
    → Then (Isolated ns t) (
        and_then (update_row f id (set_schedule s t stored) o) (λ t2. ok (replace_tags id tags t2)))
aggregate_row ns id f s tags t stored none wf there found own keeps = tt
aggregate_row ns id f s tags t stored (some row) wf there found own keeps =
    let t1 = set_schedule s t stored in
    let t2 = record t1 { jobs = insert id (f row) t1.jobs } in
    let (here, mine) = find_scoped-found id ns t row found in
    let (local, (have, jobs, schedules), same) = set_schedule-facts s id t stored wf there in
    let here1 : lookup id t1.jobs ≡ some row = ap (λ m. lookup id m) same ∙ here in
    let all = Local-trans id s.id t t1 (replace_tags id tags t2) local (
      Local-trans id s.id t1 t2 (replace_tags id tags t2) (set_jobs-Local id s.id (f row) t1)
        (replace_tags-Local id s.id tags t2)) in
    rewritten-Isolated ns id row t (replace_tags id tags t2) wf found (
      subst (λ sid. Local id sid t (replace_tags id tags t2)) (own row refl) all,
      replace_tags-WellFormed id tags t2 (
        replaced-HaveSchedules id (f row) row t1.jobs t1.schedules have here1 (keeps row).0,
        Keyed-insert job_id id (f row) t1.jobs ((keeps row).1 ∙ jobs id row here1) jobs,
        schedules,
      ),
    )

scoped_after :
    (id : ℕ) (ns : String) (s : Schedule) (t : Tables) (o : Option Schedule)
    → find_scoped id ns (set_schedule s t o) ≡ find_scoped id ns t
unfolding find_scoped
scoped_after id ns s t none = refl
scoped_after id ns s t (some row) = refl

pub update_job_aggregate-Isolated :
    (j : Job) (s : Schedule) (tags : Option (List Tag)) (t : Tables)
    → WellFormed t
    → ((row : Job) → find_scoped j.id j.namespace t ≡ some row → s.id ≡ row.schedule_id)
    → Then (Isolated j.namespace t) (update_job_aggregate j s tags t)
unfolding update_job_aggregate update_schedule
update_job_aggregate-Isolated j s tags t wf own =
    let stored = lookup s.id t.schedules in
    let same = scoped_after j.id j.namespace s t stored in
    aggregate_row j.namespace j.id (reconfigured_job j) s tags t stored
      (find_scoped j.id j.namespace (set_schedule s t stored)) wf refl (sym same)
      (λ row e. own row (sym same ∙ e)) (λ row. (refl, refl))
