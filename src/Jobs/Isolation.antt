-- ===== src/Jobs/Isolation.antt =====
-- store.go: what the statements on jobs leave alone, of the jobs of other namespaces.
use cronlite.Base.{
  ℕ, ◌≡◌, refl, ap, ◌∙◌, String, true, false, ◌||◌, not, some, List, [], ◌∷◌, arith, filter_by,
  nat_beq, nat_beq_iff, lookup, insert, delete, lookup-insert, lookup-delete, ◌==◌, text_key,
  id_key, if-intro,
}
use cronlite.Domain.{Execution, Job, Schedule}
use cronlite.Jobs.{
  Tables, Tag, Result, ok, err, has, and_then, insert_schedule, insert_job, stored_delivery,
  upsert_tags, tags_of, create_job_aggregate, delete_tags, is_of_job, upsert_all, tags_or_none,
}
use cronlite.Jobs.Schedules.{WellFormed, job_id, schedule_id, Keyed-insert, added-HaveSchedules}

abbrev pub executions_of : ℕ → Tables → List Execution
executions_of id t = filter_by (is_of_job id) t.executions

-- A job's row, schedule, tags and executions.
abbrev pub Untouched : Tables → Tables → ℕ → Job → Type 0
Untouched t after k j =
    (lookup k after.jobs ≡ some j)
    × (lookup j.schedule_id after.schedules ≡ lookup j.schedule_id t.schedules)
    × (tags_of k after ≡ tags_of k t)
    × (executions_of k after ≡ executions_of k t)

-- The jobs of the other namespaces are as they were.
abbrev pub OthersUntouched : String → Tables → Tables → Type 0
OthersUntouched ns t after =
    (k : ℕ) (j : Job)
    → lookup k t.jobs ≡ some j
    → (j.namespace == ns) ≡ false
    → Untouched t after k j

abbrev pub Isolated : String → Tables → Tables → Type 0
Isolated ns t after = OthersUntouched ns t after × WellFormed after

-- At most the job `id` and the schedule `sid` differ.
abbrev pub Local : ℕ → ℕ → Tables → Tables → Type 0
Local id sid t after =
    ((k : ℕ) → nat_beq id k ≡ false → lookup k after.jobs ≡ lookup k t.jobs)
    × ((k : ℕ) → nat_beq sid k ≡ false → lookup k after.schedules ≡ lookup k t.schedules)
    × ((k : ℕ) → nat_beq id k ≡ false → tags_of k after ≡ tags_of k t)
    × ((k : ℕ) → nat_beq id k ≡ false → executions_of k after ≡ executions_of k t)

pub Local-trans :
    (id sid : ℕ) (t u v : Tables) → Local id sid t u → Local id sid u v → Local id sid t v
Local-trans id sid t u v (a, b, c, d) (e, f, g, h) =
    (λ k n. e k n ∙ a k n, λ k n. f k n ∙ b k n, λ k n. g k n ∙ c k n, λ k n. h k n ∙ d k n)

lookup-insert_other {ℓ} :
    {A : Type ℓ} (id k : ℕ) (a : A) (m : List (ℕ × A))
    → nat_beq id k ≡ false
    → lookup k (insert id a m) ≡ lookup k m
lookup-insert_other id k a m n = ground (arith, n, lookup-insert id k a m)

pub lookup-delete_other {ℓ} :
    {A : Type ℓ} (id k : ℕ) (m : List (ℕ × A))
    → nat_beq id k ≡ false
    → lookup k (delete id m) ≡ lookup k m
lookup-delete_other id k m n = ground (arith, n, lookup-delete id k m)

pub upsert_tags-Local :
    (id sid : ℕ) (tags : List Tag) (t : Tables) → Local id sid t (upsert_tags id tags t)
unfolding upsert_tags tags_of
upsert_tags-Local id sid tags t = (
  λ k n. refl,
  λ k n. refl,
  λ k n. ap tags_or_none (lookup-insert_other id k (upsert_all tags (tags_of id t)) t.tags n),
  λ k n. refl,
)

pub delete_tags-Local : (id sid : ℕ) (t : Tables) → Local id sid t (delete_tags id t)
unfolding delete_tags tags_of
delete_tags-Local id sid t = (
  λ k n. refl,
  λ k n. refl,
  λ k n. ap tags_or_none (lookup-delete_other id k t.tags n),
  λ k n. refl,
)

pub set_jobs-Local :
    (id sid : ℕ) (j : Job) (t : Tables) → Local id sid t (record t { jobs = insert id j t.jobs })
unfolding tags_of
set_jobs-Local id sid j t =
    (λ k n. lookup-insert_other id k j t.jobs n, λ k n. refl, λ k n. refl, λ k n. refl)

pub set_schedules-Local :
    (id sid : ℕ) (s : Schedule) (t : Tables)
    → Local id sid t (record t { schedules = insert sid s t.schedules })
unfolding tags_of
set_schedules-Local id sid s t =
    (λ k n. refl, λ k n. lookup-insert_other sid k s t.schedules n, λ k n. refl, λ k n. refl)

pub kept_executions :
    (id k : ℕ) (es : List Execution)
    → nat_beq id k ≡ false
    → filter_by (is_of_job k) (filter_by (λ e. not (is_of_job id e)) es)
      ≡ filter_by (is_of_job k) es
unfolding filter_by
kept_executions id k [] n = refl
kept_executions id k (e ∷ es) n =
    ground (arith, n, kept_executions id k es n, nat_beq_iff e.job_id id, nat_beq_iff e.job_id k)

-- A job of another namespace is not the changed one, nor is its schedule.
pub Local-Untouched :
    (ns : String) (id sid : ℕ) (t after : Tables)
    → Local id sid t after
    → ((k : ℕ) (j : Job)
        → lookup k t.jobs ≡ some j
        → (j.namespace == ns) ≡ false
        → (nat_beq id k ≡ false) × (nat_beq sid j.schedule_id ≡ false))
    → OthersUntouched ns t after
Local-Untouched ns id sid t after (a, b, c, d) other k j h n =
    let (nk, ns) = other k j h n in (a k nk ∙ h, b j.schedule_id ns, c k nk, d k nk)

-- The same, for a result.
abbrev pub Then : (Tables → Type 0) → Result Tables → Type 0
Then P (ok t) = P t
Then P (err e) = Unit

-- Creation: the job and its schedule are new.
not_there {ℓ} :
    {A : Type ℓ} (id k : ℕ) (a : A) (m : List (ℕ × A))
    → has id m ≡ false
    → lookup k m ≡ some a
    → nat_beq id k ≡ false
not_there id k a m new found = ground (arith, new, found, nat_beq_iff id k)

unshared :
    (id k : ℕ) (m : List (ℕ × Schedule)) → has id m ≡ false → has k m ≡ true → nat_beq id k ≡ false
unshared id k m new there = ground (arith, new, there, nat_beq_iff id k)

inserted-Isolated :
    (j : Job) (s : Schedule) (tags : List Tag) (t : Tables)
    → WellFormed t
    → j.schedule_id ≡ s.id
    → has s.id t.schedules ≡ false
    → has j.id t.jobs ≡ false
    → Isolated j.namespace t (
        upsert_tags j.id tags (record t {
          jobs = insert j.id (record j { delivery = stored_delivery j.delivery }) t.jobs;
          schedules = insert s.id s t.schedules;
        }))
unfolding upsert_tags
inserted-Isolated j s tags t (have, jobs, schedules) own new_schedule new_job =
    let row = record j { delivery = stored_delivery j.delivery } in
    let t1 = record t { schedules = insert s.id s t.schedules } in
    let t2 = record t1 { jobs = insert j.id row t.jobs } in
    (
      Local-Untouched j.namespace j.id s.id t (upsert_tags j.id tags t2)
          (Local-trans j.id s.id t t2 (upsert_tags j.id tags t2)
            (Local-trans j.id s.id t t1 t2 (set_schedules-Local j.id s.id s t)
              (set_jobs-Local j.id s.id row t1))
            (upsert_tags-Local j.id s.id tags t2))
          (λ k other found n. (
            not_there j.id k other t.jobs new_job found,
            unshared s.id other.schedule_id t.schedules new_schedule (have.1 k other found),
          )),
      (
        added-HaveSchedules j.id row s t.jobs t.schedules have new_schedule own,
        Keyed-insert job_id j.id row t.jobs refl jobs,
        Keyed-insert schedule_id s.id s t.schedules refl schedules,
      ),
    )

pub create_job_aggregate-Isolated :
    (j : Job) (s : Schedule) (tags : List Tag) (t : Tables)
    → WellFormed t
    → j.schedule_id ≡ s.id
    → Then (Isolated j.namespace t) (create_job_aggregate j s tags t)
unfolding create_job_aggregate insert_schedule insert_job
create_job_aggregate-Isolated j s tags t wf own =
    let P = Isolated j.namespace t in
    let finish : Tables → Result Tables =
      λ t1. and_then (insert_job j t1) (λ t2. ok (upsert_tags j.id tags t2)) in
    if-intro (λ r. Then P (and_then r finish)) (has s.id t.schedules) _ _ (λ b. tt)
      (λ b.
        let t1 = record t { schedules = insert s.id s t.schedules } in
        if-intro (λ r. Then P (and_then r (λ t2. ok (upsert_tags j.id tags t2))))
          (has j.id t.jobs || not (has j.schedule_id t1.schedules)) _ _ (λ c. tt)
          (λ c. inserted-Isolated j s tags t wf own b (ground (arith, c))))
