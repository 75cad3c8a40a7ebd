-- ===== src/Scheduler/Pages.antt =====
-- scheduler.go: the keyset pagination of the enabled jobs, against queryGetEnabledJobs.
use cronlite.Base.{
  ℕ, zero, suc, ◌-◌, ◌≤◌, ◌<◌, ◌≡◌, refl, sym, ap, ◌∙◌, ◌⊎◌, inl, inr, Bool, some, List, [], ◌∷◌,
  ◌++◌, arith, All, length, take, drop, take-append-drop, take-all, filter_by, sort_by, insert_by,
  ltb, if-intro,
}
use cronlite.Domain.{JobWithSchedule}
use cronlite.Scheduler.{World, Scheduler, Effect}
use cronlite.Scheduler.Ticks.{
  tick_page, tick_pages, process_tick, finish_tick, last_id, wanted, by_id, get_enabled_jobs,
  default_job_page_size,
}

-- The rows of the table, in the order of their ids, which differ and are not nil.
abbrev pub IsOrdered : List JobWithSchedule → Type 0
IsOrdered [] = Unit
IsOrdered (x ∷ xs) = (1 ≤ x.job.id) × All (λ y. x.job.id < y.job.id) xs × IsOrdered xs

abbrev pub after_id : ℕ → JobWithSchedule → Bool
after_id b jws = ltb b jws.job.id

All-filter_by :
    (P : JobWithSchedule → Type 0) (p : JobWithSchedule → Bool) (xs : List JobWithSchedule)
    → All P xs
    → All P (filter_by p xs)
unfolding filter_by
All-filter_by P p [] h = tt
All-filter_by P p (x ∷ xs) (hx, h) =
    if-intro (All P) (p x) (x ∷ filter_by p xs) (filter_by p xs) (λ b. (hx, All-filter_by P p xs h))
      (λ b. All-filter_by P p xs h)

pub filter_by-IsOrdered :
    (p : JobWithSchedule → Bool) (xs : List JobWithSchedule)
    → IsOrdered xs
    → IsOrdered (filter_by p xs)
unfolding filter_by
filter_by-IsOrdered p [] h = tt
filter_by-IsOrdered p (x ∷ xs) (pos, above, h) =
    if-intro IsOrdered (p x) (x ∷ filter_by p xs) (filter_by p xs)
      (λ b. (pos, All-filter_by _ p xs above, filter_by-IsOrdered p xs h))
      (λ b. filter_by-IsOrdered p xs h)

sort_by-IsOrdered : (xs : List JobWithSchedule) → IsOrdered xs → sort_by by_id xs ≡ xs
unfolding sort_by insert_by
sort_by-IsOrdered [] h = refl
sort_by-IsOrdered (x ∷ []) h = refl
sort_by-IsOrdered (x ∷ y ∷ ys) (pos, (lt, above), h) =
    rw (sort_by-IsOrdered (y ∷ ys) h) (ground (arith, lt))

-- A filter that every entry passes.
filter_by-every :
    (b : ℕ) (xs : List JobWithSchedule)
    → All (λ y. b < y.job.id) xs
    → filter_by (after_id b) xs ≡ xs
unfolding filter_by
filter_by-every b [] h = refl
filter_by-every b (x ∷ xs) (lt, h) = ground (arith, lt, filter_by-every b xs h)

last-above :
    (b n : ℕ) (xs : List JobWithSchedule)
    → n < length xs
    → All (λ y. b < y.job.id) xs
    → b < last_id (take (suc n) xs)
last-above b n [] lt h = elim lt [ ]
last-above b zero (x ∷ xs) lt (hx, h) = hx
last-above b (suc n) (x ∷ []) lt h = absurd (omega arith)
last-above b (suc n) (x ∷ y ∷ ys) lt (hx, h) = last-above b n (y ∷ ys) (omega arith) h

-- What is left after the last id of a page is the rest of the list.
after-page :
    (n : ℕ) (xs : List JobWithSchedule)
    → n < length xs
    → IsOrdered xs
    → filter_by (after_id (last_id (take (suc n) xs))) xs ≡ drop (suc n) xs
unfolding filter_by
after-page n [] lt h = elim lt [ ]
after-page zero (x ∷ xs) lt (pos, above, h) = ground (arith, filter_by-every x.job.id xs above)
after-page (suc n) (x ∷ []) lt h = absurd (omega arith)
after-page (suc n) (x ∷ y ∷ ys) lt (pos, above, h) =
    let up = last-above x.job.id n (y ∷ ys) (omega arith) above in
    let ih = after-page n (y ∷ ys) (omega arith) h in ground (arith, up, ih)

narrow :
    (a b : ℕ) (rows : List JobWithSchedule)
    → a ≤ b
    → 1 ≤ b
    → filter_by (wanted b) rows ≡ filter_by (after_id b) (filter_by (wanted a) rows)
unfolding filter_by
narrow a b [] le pos = refl
narrow a b (x ∷ xs) le pos = ground (arith, narrow a b xs le pos)

wanted-above :
    (a : ℕ) (rows : List JobWithSchedule)
    → IsOrdered rows
    → All (λ y. a < y.job.id) (filter_by (wanted a) rows)
unfolding filter_by
wanted-above a [] h = tt
wanted-above a (x ∷ xs) (pos, above, h) =
    if-intro (All (λ y. a < y.job.id)) (wanted a x) (x ∷ filter_by (wanted a) xs) _
      (λ b. (ground arith, wanted-above a xs h)) (λ b. wanted-above a xs h)

length-take :
    (n : ℕ) (xs : List JobWithSchedule)
    → (length xs < n × length (take n xs) ≡ length xs) ⊎ (n ≤ length xs × length (take n xs) ≡ n)
length-take zero xs = inr (omega arith, refl)
length-take (suc n) [] = inl (omega arith, refl)
length-take (suc n) (x ∷ xs) = elim (length-take n xs) [
  | inl (lt, e) ↦ inl (omega arith, ap suc e)
  | inr (le, e) ↦ inr (omega arith, ap suc e)
]

length-drop : (n : ℕ) (xs : List JobWithSchedule) → length (drop n xs) ≡ length xs - n
length-drop zero xs = omega arith
length-drop (suc n) [] = omega arith
length-drop (suc n) (x ∷ xs) = omega (arith, length-drop n xs)

tick_page-append :
    (w : World) (s : Scheduler) (xs ys : List JobWithSchedule) (acc : ℕ × ℕ × List Effect)
    → tick_page w s (xs ++ ys) acc ≡ tick_page w s ys (tick_page w s xs acc)
unfolding tick_page
tick_page-append w s [] ys acc = refl
tick_page-append w s (x ∷ xs) ys (n, cursor, effects) = tick_page-append w s xs ys _

module _ (w : World) (s : Scheduler) (rows : List JobWithSchedule) (ordered : IsOrdered rows) where
  -- The enabled jobs after an id.
  abbrev from : ℕ → List JobWithSchedule
  from a = filter_by (wanted a) rows

  abbrev page : ℕ → List JobWithSchedule
  page a = take default_job_page_size (from a)

  page-get_enabled_jobs : (a : ℕ) → get_enabled_jobs rows default_job_page_size a ≡ page a
  unfolding get_enabled_jobs
  page-get_enabled_jobs a =
      ap (take default_job_page_size)
        (sort_by-IsOrdered (from a) (filter_by-IsOrdered (wanted a) rows ordered))

  next_from :
      (a : ℕ)
      → default_job_page_size ≤ length (from a)
      → from (last_id (page a)) ≡ drop default_job_page_size (from a)
  next_from a full =
      let up = last-above a 99 (from a) (omega arith) (wanted-above a rows ordered) in
      narrow a (last_id (page a)) rows (omega arith) (omega arith)
      ∙ after-page 99 (from a) (omega arith) (filter_by-IsOrdered (wanted a) rows ordered)

  tick_pages-from :
      (fuel a : ℕ) (acc : ℕ × ℕ × List Effect)
      → length (from a) < fuel
      → tick_pages fuel (λ b. some (get_enabled_jobs rows default_job_page_size b)) w s a acc
        ≡ finish_tick w s (tick_page w s (from a) acc)
  unfolding tick_pages
  tick_pages-from zero a acc lt = elim lt [ ]
  tick_pages-from (suc fuel) a acc lt =
      let done = tick_page w s (page a) acc in
      let sizes = length-take default_job_page_size (from a) in
      rw (page-get_enabled_jobs a) (
        if-intro (λ o. o ≡ finish_tick w s (tick_page w s (from a) acc))
          (ltb (length (page a)) default_job_page_size) (finish_tick w s done) _
          (λ short.
            ap (λ l. finish_tick w s (tick_page w s l acc))
              (take-all default_job_page_size (from a) (ground (arith, sizes))))
          (λ long.
            let full : default_job_page_size ≤ length (from a) = ground (arith, sizes) in
            let next = next_from a full in
            let shorter = length-drop default_job_page_size (from a) in
            tick_pages-from fuel (last_id (page a)) done (rw next (omega (arith, shorter)))
            ∙ ap (finish_tick w s) (
                ap (λ l. tick_page w s l done) next
                ∙ sym (tick_page-append w s (page a) (drop default_job_page_size (from a)) acc)
                ∙ ap (λ l. tick_page w s l acc) (take-append-drop default_job_page_size (from a)))))

length-filter_by :
    (p : JobWithSchedule → Bool) (xs : List JobWithSchedule) → length (filter_by p xs) ≤ length xs
unfolding filter_by
length-filter_by p [] = omega arith
length-filter_by p (x ∷ xs) = ground (arith, length-filter_by p xs)

abbrev pub is_enabled : JobWithSchedule → Bool
is_enabled jws = jws.job.enabled

wanted_all : (xs : List JobWithSchedule) → filter_by (wanted 0) xs ≡ filter_by is_enabled xs
unfolding filter_by
wanted_all [] = refl
wanted_all (x ∷ xs) = ground (arith, wanted_all xs)

-- Paging misses no job and takes none twice: against the store's query, a tick that may read one
-- page more than there are rows ends without an error, and does what one pass over all the enabled
-- jobs in the order of their ids does.
pub paging_complete :
    (fuel : ℕ) (w : World) (s : Scheduler) (rows : List JobWithSchedule)
    → IsOrdered rows
    → length rows < fuel
    → process_tick fuel (λ a. some (get_enabled_jobs rows default_job_page_size a)) w s
      ≡ finish_tick w s (tick_page w s (filter_by is_enabled rows) (0, w.now, []))
unfolding process_tick
paging_complete fuel w s rows ordered enough =
    let few = length-filter_by (wanted 0) rows in
    tick_pages-from w s rows ordered fuel 0 (0, w.now, []) (omega (arith, few))
    ∙ ap (λ l. finish_tick w s (tick_page w s l (0, w.now, []))) (wanted_all rows)
