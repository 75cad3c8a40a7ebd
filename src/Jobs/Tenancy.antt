-- ===== src/Jobs/Tenancy.antt =====
-- internal/service/jobs.go: the operations that change jobs keep to the namespace of their context.
use cronlite.Base.{
  ℕ, ◌≡◌, refl, sym, ap, ◌∙◌, String, Bool, true, false, ◌&&◌, not, Option, none, some, lookup,
  ◌==◌, text_key, id_key, if-intro,
}
use mathlib.Core.Path.{subst}
use cronlite.Dispatcher.Classify.{bytes}
use cronlite.Domain.{Job, Schedule, JobWithSchedule}
use cronlite.Jobs.{
  Tables, Result, ok, err, JobError, joined, joined_to, or_not_found, find_scoped,
  get_job_with_schedule_scoped, create_job_aggregate, update_job_aggregate, set_job_enabled,
}
use cronlite.Jobs.Service.{
  World, JobService, CreateJobInput, UpdateJobInput, create_job, update_job, delete_job,
  set_enabled, in_context, unless_error, replied, call, new_job, new_schedule, check_tailnet_host,
  is_valid_url, is_parsed, parse_cron, check_new_url, changed_job, changed_schedule,
  schedule_changed, update_read, with_row,
}
use cronlite.Jobs.Schedules.{WellFormed}
use cronlite.Jobs.Isolation.{Isolated, Then, create_job_aggregate-Isolated}
use cronlite.Jobs.Rows.{
  ThenRow, find_scoped-found, update_job_aggregate-Isolated, delete_job-Isolated,
  set_job_enabled-Isolated,
}

-- A request to change jobs.
pub data Request : Type 0 where
  create : CreateJobInput → Request
  update : ℕ → UpdateJobInput → Request
  remove : ℕ → Request
  pause : ℕ → Request
  resume : ℕ → Request

-- The tables after a request in the namespace of its context.
unfoldable pub serve : World → JobService → String → Request → Tables → Tables
serve w s ns (create i) t = (create_job w s ns i t).0
serve w s ns (update id i) t = (update_job w s ns id i t).0
serve w s ns (remove id) t = (delete_job w ns id t).0
serve w s ns (pause id) t = (set_enabled w ns id false t).0
serve w s ns (resume id) t = (set_enabled w ns id true t).0

unchanged-Isolated : (ns : String) (t : Tables) → WellFormed t → Isolated ns t t
unchanged-Isolated ns t wf = (λ k j h n. (h, refl, refl, refl), wf)

abbrev Keeps {ℓ} : {A : Type ℓ} → String → Tables → Tables × Result A → Type 0
Keeps ns t r = Isolated ns t r.0

in_context-Keeps {ℓ} :
    {A : Type ℓ} (ns : String) (t : Tables) (r : Tables × Result A)
    → WellFormed t
    → Keeps ns t r
    → Keeps ns t (in_context ns t r)
in_context-Keeps ns t r wf h =
    if-intro (Keeps ns t) (ns == "") _ _ (λ b. unchanged-Isolated ns t wf) (λ b. h)

unless_error-Keeps {ℓ} :
    {A : Type ℓ} (ns : String) (e : Option JobError) (t : Tables) (r : Tables × Result A)
    → WellFormed t
    → Keeps ns t r
    → Keeps ns t (unless_error e t r)
unless_error-Keeps ns none t r wf h = h
unless_error-Keeps ns (some e) t r wf h = unchanged-Isolated ns t wf

replied-Keeps {ℓ} :
    {A : Type ℓ} (ns : String) (t : Tables) (r : Result Tables) (a : A)
    → WellFormed t
    → Then (Isolated ns t) r
    → Keeps ns t (replied t r a)
replied-Keeps ns t (ok u) a wf h = h
replied-Keeps ns t (err e) a wf h = unchanged-Isolated ns t wf

call-Then :
    (P : Tables → Type 0) (fails : Bool) (r : Result Tables) → Then P r → Then P (call fails r)
call-Then P true r h = tt
call-Then P false r h = h

with_row-Keeps :
    (ns : String) (fails : Bool) (t : Tables) (r : Result (Tables × Job))
    → WellFormed t
    → ThenRow (Isolated ns t) r
    → Keeps ns t (with_row t (call fails r))
with_row-Keeps ns true t r wf h = unchanged-Isolated ns t wf
with_row-Keeps ns false t (ok (u, j)) wf h = h
with_row-Keeps ns false t (err e) wf h = unchanged-Isolated ns t wf

create-Keeps :
    (w : World) (s : JobService) (ns : String) (i : CreateJobInput) (t : Tables)
    → WellFormed t
    → Keeps ns t (create_job w s ns i t)
unfolding create_job
create-Keeps w s ns i t wf =
    let K = Keeps ns t in
    let same = unchanged-Isolated ns t wf in
    let made = create_job_aggregate (new_job w ns i) (new_schedule w i) i.tags t in
    in_context-Keeps ns t _ wf (
      if-intro K (not (is_parsed (parse_cron w (bytes i.cron_expression) i.timezone))) _ _
        (λ b. same)
        (λ b.
          if-intro K (not (is_valid_url w i.webhook_url)) _ _ (λ c. same)
            (λ c. unless_error-Keeps ns (check_tailnet_host w s ns i.webhook_url) t _ wf (
              replied-Keeps ns t (call w.write_fails made) (new_job w ns i, new_schedule w i) wf
                (call-Then (Isolated ns t) w.write_fails made (
                  create_job_aggregate-Isolated (new_job w ns i) (new_schedule w i) i.tags t wf
                    refl))))))

-- The job that a scoped reading finds, and its schedule.
abbrev FoundIn : ℕ → String → Tables → Result JobWithSchedule → Type 0
FoundIn id ns t (err e) = Unit
FoundIn id ns t (ok f) =
    (find_scoped id ns t ≡ some f.job) × (lookup f.job.schedule_id t.schedules ≡ some f.schedule)

joined_to-FoundIn :
    (id : ℕ) (ns : String) (t : Tables) (j : Job) (o : Option Schedule)
    → find_scoped id ns t ≡ some j
    → lookup j.schedule_id t.schedules ≡ o
    → FoundIn id ns t (or_not_found (joined_to j o))
joined_to-FoundIn id ns t j none h e = tt
joined_to-FoundIn id ns t j (some s) h e = (h, e)

joined-FoundIn :
    (id : ℕ) (ns : String) (t : Tables) (o : Option Job)
    → find_scoped id ns t ≡ o
    → FoundIn id ns t (or_not_found (joined t o))
joined-FoundIn id ns t none h = tt
joined-FoundIn id ns t (some j) h =
    joined_to-FoundIn id ns t j (lookup j.schedule_id t.schedules) h refl

read-FoundIn :
    (id : ℕ) (ns : String) (t : Tables) (fails : Bool)
    → FoundIn id ns t (call fails (get_job_with_schedule_scoped id ns t))
unfolding get_job_with_schedule_scoped
read-FoundIn id ns t true = tt
read-FoundIn id ns t false = joined-FoundIn id ns t (find_scoped id ns t) refl

changed_schedule-id :
    (w : World) (i : UpdateJobInput) (s : Schedule) → (changed_schedule w i s).id ≡ s.id
changed_schedule-id w i s =
    if-intro (λ (x : Schedule). x.id ≡ s.id) (schedule_changed i) _ _ (λ b. refl) (λ b. refl)

-- A scoped reading under the id that the row has finds the row.
same_row :
    (id : ℕ) (ns : String) (t : Tables) (j row : Job)
    → lookup id t.jobs ≡ some j
    → j.id ≡ id
    → find_scoped j.id j.namespace t ≡ some row
    → some j ≡ some row
same_row id ns t j row here own there =
    sym here
    ∙ (ap (λ k. lookup k t.jobs) (sym own) ∙ (find_scoped-found j.id j.namespace t row there).0)

schedule_of : Option Job → ℕ
schedule_of none = 0
schedule_of (some j) = j.schedule_id

aggregate-Then :
    (w : World) (ns : String) (id : ℕ) (i : UpdateJobInput) (t : Tables) (f : JobWithSchedule)
    → WellFormed t
    → FoundIn id ns t (ok f)
    → Then
        (Isolated ns t)
        (update_job_aggregate (changed_job w i f.job) (changed_schedule w i f.schedule) i.tags t)
unfolding schedule_of
aggregate-Then w ns id i t f wf (there, stored) =
    let (here, mine) = find_scoped-found id ns t f.job there in
    let j = changed_job w i f.job in
    let s = changed_schedule w i f.schedule in
    let own : f.job.id ≡ id = wf.1 id f.job here in
    let named : f.schedule.id ≡ f.job.schedule_id = wf.2 f.job.schedule_id f.schedule stored in
    subst (λ n. Then (Isolated n t) (update_job_aggregate j s i.tags t))
      ((text_key.same_iff f.job.namespace ns).0 mine)
      (update_job_aggregate-Isolated j s i.tags t wf (λ row h.
        changed_schedule-id w i f.schedule
        ∙ (named ∙ ap schedule_of (same_row id ns t f.job row here own h))))

update_read-Keeps :
    (w : World) (s : JobService) (ns : String) (id : ℕ) (i : UpdateJobInput) (t : Tables)
    (r : Result JobWithSchedule)
    → WellFormed t
    → FoundIn id ns t r
    → Keeps ns t (update_read w s ns i t r)
update_read-Keeps w s ns id i t (err e) wf h = unchanged-Isolated ns t wf
update_read-Keeps w s ns id i t (ok f) wf h =
    let job = changed_job w i f.job in
    let schedule = changed_schedule w i f.schedule in
    let written = update_job_aggregate job schedule i.tags t in
    let parsed = is_parsed (parse_cron w (bytes schedule.cron_expression) schedule.timezone) in
    unless_error-Keeps ns (check_new_url w s ns f.job.delivery.webhook_url i.webhook_url) t _ wf (
      if-intro (Keeps ns t) (schedule_changed i && not parsed) _ _ (λ b. unchanged-Isolated ns t wf)
        (λ b.
          replied-Keeps ns t (call w.write_fails written) (job, schedule) wf
            (call-Then (Isolated ns t) w.write_fails written (aggregate-Then w ns id i t f wf h))))

-- Whatever a request in a namespace does, and whatever fails: the jobs of every other namespace keep
-- their rows, schedules, tags and executions, and the tables stay well-formed if they were.
pub serve-Isolated :
    (w : World) (s : JobService) (ns : String) (r : Request) (t : Tables)
    → WellFormed t
    → Isolated ns t (serve w s ns r t)
unfolding serve update_job delete_job set_enabled
serve-Isolated w s ns (create i) t wf = create-Keeps w s ns i t wf
serve-Isolated w s ns (update id i) t wf =
    in_context-Keeps ns t _ wf
      (update_read-Keeps w s ns id i t _ wf (read-FoundIn id ns t w.read_fails))
serve-Isolated w s ns (remove id) t wf = in_context-Keeps ns t _ wf (
    replied-Keeps ns t (call w.write_fails (cronlite.Jobs.delete_job id ns t)) true wf (
      call-Then (Isolated ns t) w.write_fails (cronlite.Jobs.delete_job id ns t)
        (delete_job-Isolated id ns t wf)))
serve-Isolated w s ns (pause id) t wf = in_context-Keeps ns t _ wf (
    with_row-Keeps ns w.write_fails t (set_job_enabled id ns false w.now t) wf
      (set_job_enabled-Isolated id ns false w.now t wf))
serve-Isolated w s ns (resume id) t wf = in_context-Keeps ns t _ wf (
    with_row-Keeps ns w.write_fails t (set_job_enabled id ns true w.now t) wf
      (set_job_enabled-Isolated id ns true w.now t wf))
