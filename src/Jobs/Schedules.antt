-- ===== src/Jobs/Schedules.antt =====
-- store.go: two jobs do not share a schedule, every job has one, and rows are found by their ids.
use cronlite.Base.{
  ℕ, ◌≡◌, refl, sym, ap, ◌∙◌, true, false, some, List, arith, nat_beq, nat_beq_iff, lookup, insert,
  delete, lookup-insert, lookup-delete, lookup-insert_cases, lookup-delete_cases,
  lookup-insert_self, text_key, id_key, Bool-cases, inl, inr,
}
use mathlib.Core.Path.{subst}
use cronlite.Domain.{Job, Schedule}
use cronlite.Jobs.{Tables, has}

-- Each row stands under its id.
abbrev pub Keyed {ℓ} : {A : Type ℓ} → (A → ℕ) → List (ℕ × A) → Type ℓ
Keyed {A = A} id_of m = (k : ℕ) (a : A) → lookup k m ≡ some a → id_of a ≡ k

abbrev pub job_id : Job → ℕ
job_id j = j.id

abbrev pub schedule_id : Schedule → ℕ
schedule_id s = s.id

pub Keyed-insert {ℓ} :
    {A : Type ℓ} (id_of : A → ℕ) (id : ℕ) (a : A) (m : List (ℕ × A))
    → id_of a ≡ id
    → Keyed id_of m
    → Keyed id_of (insert id a m)
Keyed-insert id_of id a m own h k b found = elim (lookup-insert_cases id k a b m found) [
  | inl (ik, ab) ↦ sym (ap id_of ab) ∙ (own ∙ ik)
  | inr (n, old) ↦ h k b old
]

pub Keyed-delete {ℓ} :
    {A : Type ℓ} (id_of : A → ℕ) (id : ℕ) (m : List (ℕ × A))
    → Keyed id_of m
    → Keyed id_of (delete id m)
Keyed-delete id_of id m h k b found = h k b (lookup-delete_cases id k b m found).1

abbrev pub HaveSchedules : List (ℕ × Job) → List (ℕ × Schedule) → Type 0
HaveSchedules jobs schedules =
    ((a b : ℕ) (ja jb : Job)
      → lookup a jobs ≡ some ja
      → lookup b jobs ≡ some jb
      → ja.schedule_id ≡ jb.schedule_id
      → a ≡ b)
    × ((a : ℕ) (ja : Job) → lookup a jobs ≡ some ja → has ja.schedule_id schedules ≡ true)

abbrev pub WellFormed : Tables → Type 0
WellFormed t =
    HaveSchedules t.jobs t.schedules × Keyed job_id t.jobs × Keyed schedule_id t.schedules

-- Adding a job with a new schedule.
pub has-insert :
    (k id : ℕ) (s : Schedule) (m : List (ℕ × Schedule))
    → has k m ≡ true
    → has k (insert id s m) ≡ true
has-insert k id s m h = ground (arith, h, lookup-insert id k s m)

pub has-insert_self :
    (id : ℕ) (s : Schedule) (m : List (ℕ × Schedule)) → has id (insert id s m) ≡ true
has-insert_self id s m = ground (arith, lookup-insert_self id s m)

-- The job that is added has a schedule that no other has.
clash :
    (id : ℕ) (j ja jb : Job) (s : Schedule) (schedules : List (ℕ × Schedule))
    → has s.id schedules ≡ false
    → j.schedule_id ≡ s.id
    → j ≡ ja
    → ja.schedule_id ≡ jb.schedule_id
    → has jb.schedule_id schedules ≡ true
    → false ≡ true
clash id j ja jb s schedules new own ea e h =
    let same : jb.schedule_id ≡ s.id = sym e ∙ (sym (ap (λ (x : Job). x.schedule_id) ea) ∙ own) in
    sym new ∙ (sym (ap (λ k. has k schedules) same) ∙ h)

pub added-HaveSchedules :
    (id : ℕ) (j : Job) (s : Schedule) (jobs : List (ℕ × Job)) (schedules : List (ℕ × Schedule))
    → HaveSchedules jobs schedules
    → has s.id schedules ≡ false
    → j.schedule_id ≡ s.id
    → HaveSchedules (insert id j jobs) (insert s.id s schedules)
added-HaveSchedules id j s jobs schedules (apart, have) new own = (
  λ a b ja jb ha hb e. elim (lookup-insert_cases id a j ja jobs ha) [
    | inl (ia, ea) ↦ elim (lookup-insert_cases id b j jb jobs hb) [
      | inl (ib, eb) ↦ sym ia ∙ ib
      | inr (nb, kb) ↦
          absurd (ground (arith, clash id j ja jb s schedules new own ea e (have b jb kb)))
    ]
    | inr (na, ka) ↦ elim (lookup-insert_cases id b j jb jobs hb) [
      | inl (ib, eb) ↦
          absurd (ground (arith, clash id j jb ja s schedules new own eb (sym e) (have a ja ka)))
      | inr (nb, kb) ↦ apart a b ja jb ka kb e
    ]
  ],
  λ a ja ha. elim (lookup-insert_cases id a j ja jobs ha) [
    | inl (ia, ea) ↦
        subst (λ k. has k (insert s.id s schedules) ≡ true)
          (sym own ∙ ap (λ (x : Job). x.schedule_id) ea) (has-insert_self s.id s schedules)
    | inr (na, ka) ↦ has-insert ja.schedule_id s.id s schedules (have a ja ka)
  ],
)

-- Writing a row that is there, with its schedule.
pub replaced-HaveSchedules :
    (id : ℕ) (j row : Job) (jobs : List (ℕ × Job)) (schedules : List (ℕ × Schedule))
    → HaveSchedules jobs schedules
    → lookup id jobs ≡ some row
    → j.schedule_id ≡ row.schedule_id
    → HaveSchedules (insert id j jobs) schedules
replaced-HaveSchedules id j row jobs schedules (apart, have) there own = (
  λ a b ja jb ha hb e.
      let (ra, ka, sa) = before a ja ha in
      let (rb, kb, sb) = before b jb hb in apart a b ra rb ka kb (sa ∙ (e ∙ sym sb)),
  λ a ja ha.
      let (ra, ka, sa) = before a ja ha in subst (λ k. has k schedules ≡ true) sa (have a ra ka),
)
  where
    before :
        (a : ℕ) (ja : Job)
        → lookup a (insert id j jobs) ≡ some ja
        → (r : Job) × (lookup a jobs ≡ some r) × (r.schedule_id ≡ ja.schedule_id)
    before a ja ha = elim (lookup-insert_cases id a j ja jobs ha) [
      | inl (ia, ea) ↦ (
        row,
        subst (λ k. lookup k jobs ≡ some row) ia there,
        sym own ∙ ap (λ (x : Job). x.schedule_id) ea,
      )
      | inr (na, ka) ↦ (ja, ka, refl)
    ]

-- Removing a job and its schedule, which no other job has.
pub removed-HaveSchedules :
    (id : ℕ) (row : Job) (jobs : List (ℕ × Job)) (schedules : List (ℕ × Schedule))
    → HaveSchedules jobs schedules
    → lookup id jobs ≡ some row
    → HaveSchedules (delete id jobs) (delete row.schedule_id schedules)
removed-HaveSchedules id row jobs schedules (apart, have) there = (
  λ a b ja jb ha hb e.
      apart a b ja jb (lookup-delete_cases id a ja jobs ha).1
        (lookup-delete_cases id b jb jobs hb).1 e,
  λ a ja ha.
      let (na, ka) = lookup-delete_cases id a ja jobs ha in
      elim (Bool-cases (nat_beq row.schedule_id ja.schedule_id)) [
        | inl e ↦ absurd (
            ground (
              arith,
              na,
              apart id a row ja there ka ((nat_beq_iff row.schedule_id ja.schedule_id).0 e),
              nat_beq_iff id a,
            ))
        | inr n ↦
            ground (arith, n, have a ja ka, lookup-delete row.schedule_id ja.schedule_id schedules)
      ],
)
