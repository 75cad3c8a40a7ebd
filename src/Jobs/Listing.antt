-- ===== src/Jobs/Listing.antt =====
-- store.go and jobs.go: the lists of jobs, and domain/filter.go.
use cronlite.Base.{
  ℕ, zero, suc, ◌≤◌, ◌≡◌, String, Bool, true, false, ◌||◌, ◌&&◌, not, Option, none, some, List, [],
  ◌∷◌, map, arith, All, any, filter_by, insert_by, sort_by, take, drop, length, length-take-le, leb,
  ltb, nat_beq, lookup, ◌==◌, text_key, id_key, if◌then◌else◌, if-intro,
}
use cronlite.Domain.{Job, JobWithSchedule}
use cronlite.Jobs.{Tables, Tag, Result, ok, err, namespace_required, tags_of, joined_to}
use cronlite.Jobs.Service.{World, call}

-- A limit or an offset below 0 is 0.
pub record ListParams : Type 0 where
  pub limit : ℕ
  pub offset : ℕ

abbrev pub with_defaults : ListParams → ListParams
with_defaults p = record {
  limit = if nat_beq p.limit 0 then 100 else (if ltb 1000 p.limit then 1000 else p.limit);
  offset = p.offset;
}

pub record JobFilter : Type 0 where
  pub namespace : String
  pub tags : List Tag
  pub enabled : Option Bool
  pub name : String
  pub params : ListParams

abbrev pub enabled_is : Option Bool → Job → Bool
enabled_is none j = true
enabled_is (some true) j = j.enabled
enabled_is (some false) j = not j.enabled

abbrev pub same_tag : Tag → Tag → Bool
same_tag a b = a.0 == b.0 && a.1 == b.1

-- An EXISTS for each tag of the filter.
unfoldable pub has_tags : List Tag → List Tag → Bool
has_tags [] tags = true
has_tags (tag ∷ more) tags = any (same_tag tag) tags && has_tags more tags

-- The WHERE clause; `ilike` is `name ILIKE '%…%'`.
abbrev pub selects : (String → String → Bool) → JobFilter → Tables → Job → Bool
selects ilike f t j =
    j.namespace == f.namespace
    && enabled_is f.enabled j
    && (f.name == "" || ilike f.name j.name)
    && has_tags f.tags (tags_of j.id t)

-- ORDER BY created_at DESC.
abbrev pub newest_first : Job → Job → Bool
newest_first a b = leb b.created_at a.created_at

unfoldable pub list_rows : (String → String → Bool) → JobFilter → Tables → List Job
list_rows ilike f t =
    let p = with_defaults f.params in
    take p.limit
      (drop p.offset (sort_by newest_first (filter_by (selects ilike f t) (map (λ r. r.1) t.jobs))))

abbrev pub add_joined : Option JobWithSchedule → List JobWithSchedule → List JobWithSchedule
add_joined none rest = rest
add_joined (some r) rest = r ∷ rest

-- JOIN schedules, on the rows of the list.
unfoldable pub join_all : Tables → List Job → List JobWithSchedule
join_all t [] = []
join_all t (j ∷ js) = add_joined (joined_to j (lookup j.schedule_id t.schedules)) (join_all t js)

-- The service sets the namespace of its context and the defaults.
abbrev pub own_filter : String → JobFilter → JobFilter
own_filter ns f = record f { namespace = ns; params = with_defaults f.params }

unfoldable pub list_jobs :
    World → (String → String → Bool) → String → JobFilter → Tables → Result (List Job)
list_jobs w ilike ns f t =
    if ns == ""
    then err namespace_required
    else call w.read_fails (ok (list_rows ilike (own_filter ns f) t))

unfoldable pub list_jobs_with_schedules :
    World → (String → String → Bool) → String → JobFilter → Tables → Result (List JobWithSchedule)
list_jobs_with_schedules w ilike ns f t =
    if ns == ""
    then err namespace_required
    else call w.read_fails (ok (join_all t (list_rows ilike (own_filter ns f) t)))

module _ {ℓ κ} {A : Type ℓ} (P : A → Type κ) where
  filter-All : (p : A → Bool) (xs : List A) → ((x : A) → p x ≡ true → P x) → All P (filter_by p xs)
  unfolding filter_by
  filter-All p [] h = tt
  filter-All p (x ∷ xs) h =
      if-intro (All P) (p x) _ _ (λ b. (h x b, filter-All p xs h)) (λ b. filter-All p xs h)

  insert_by-All :
      (le : A → A → Bool) (x : A) (xs : List A) → P x → All P xs → All P (insert_by le x xs)
  unfolding insert_by
  insert_by-All le x [] px h = (px, tt)
  insert_by-All le x (y ∷ xs) px (py, h) =
      if-intro (All P) (le x y) _ _ (λ b. (px, (py, h))) (λ b. (py, insert_by-All le x xs px h))

  sort-All : (le : A → A → Bool) (xs : List A) → All P xs → All P (sort_by le xs)
  unfolding sort_by
  sort-All le [] h = tt
  sort-All le (x ∷ xs) (px, h) = insert_by-All le x (sort_by le xs) px (sort-All le xs h)

  drop-All : (n : ℕ) (xs : List A) → All P xs → All P (drop n xs)
  drop-All zero xs h = h
  drop-All (suc n) [] h = tt
  drop-All (suc n) (x ∷ xs) (px, h) = drop-All n xs h

  take-All : (n : ℕ) (xs : List A) → All P xs → All P (take n xs)
  take-All zero xs h = tt
  take-All (suc n) [] h = tt
  take-All (suc n) (x ∷ xs) (px, h) = (px, take-All n xs h)

abbrev pub InNamespace : String → Job → Type 0
InNamespace ns j = (j.namespace == ns) ≡ true

limit_le : (p : ListParams) → (with_defaults p).limit ≤ 1000
limit_le p = ground arith

-- The reply of a list, if there is one: jobs of the namespace, at most 1000.
abbrev pub ListsOwn : String → Result (List Job) → Type 0
ListsOwn ns (err e) = Unit
ListsOwn ns (ok js) = All (InNamespace ns) js × (length js ≤ 1000)

-- A list of jobs has only jobs of the namespace of its context, whatever namespace the filter names,
-- and at most 1000 of them, whatever limit it names.
pub list_jobs-ListsOwn :
    (w : World) (ilike : String → String → Bool) (ns : String) (f : JobFilter) (t : Tables)
    → ListsOwn ns (list_jobs w ilike ns f t)
unfolding list_jobs list_rows
list_jobs-ListsOwn w ilike ns f t =
    let g = own_filter ns f in
    let p = with_defaults g.params in
    let chosen = filter_by (selects ilike g t) (map (λ r. r.1) t.jobs) in
    let ordered = drop p.offset (sort_by newest_first chosen) in
    let own : All (InNamespace ns) chosen =
      filter-All (InNamespace ns) (selects ilike g t) (map (λ r. r.1) t.jobs)
        (λ j b. ground (arith, b)) in
    if-intro (ListsOwn ns) (ns == "") _ _ (λ b. tt)
      (λ b.
        if-intro (ListsOwn ns) w.read_fails _ _ (λ c. tt)
          (λ c. (
            take-All (InNamespace ns) p.limit ordered (
                drop-All (InNamespace ns) p.offset (sort_by newest_first chosen)
                  (sort-All (InNamespace ns) newest_first chosen own)),
            omega (arith, length-take-le p.limit ordered, limit_le g.params),
          )))
