-- ===== src/Dispatcher/Delivered.antt =====
-- dispatcher.go: when a delivery is completed as delivered, by the answers of the destination.
use native.Mathlib.Nat.{add-zero, add-suc, suc-add}
use cronlite.Base.{
  get_or, Option, ◌⊎◌, none, ℕ, zero, suc, ◌+◌, ◌≤◌, ◌<◌, ◌≡◌, ◌≢◌, refl, ◌↔◌, sym, ◌∙◌, ap, inl,
  inr, true, false, some, [], ◌∷◌, arith, Bool-cases, text_key, ◌==◌,
}
use cronlite.Domain.{Execution, delivered, failed, Job}
use mathlib.Core.Option.{some-injective}
use cronlite.Dispatcher.{
  SendError, destination_blocked, other, no_error, is_blocked, Environment, Dispatcher,
  WebhookResult, is_success, is_retryable,
}
use cronlite.Dispatcher.Claimed.{dispatch, claimed}
use cronlite.Dispatcher.Verdict.{statuses, verdict, IsHealthy, admits, dispatch_completes}

-- The destination answers with a 2xx status.
abbrev pub Succeeds : WebhookResult → Type 0
Succeeds r = (r.error ≡ none) × (200 ≤ r.status_code) × (r.status_code ≤ 299)

-- It cannot be reached, other than by a refusal of the guard, or answers 429, or 500 or more.
abbrev pub Retries : WebhookResult → Type 0
Retries r =
    ((e : SendError) × (r.error ≡ some e) × (e ≢ destination_blocked))
    ⊎ ((r.error ≡ none) × ((r.status_code ≡ 429) ⊎ (500 ≤ r.status_code)))

-- Attempt `n + k` succeeds, and those from `n` on before it fail in a way that is tried again.
abbrev pub FirstSuccess : Environment → ℕ → ℕ → Type 0
FirstSuccess env n k =
    Succeeds (env.answer (n + k)) × ((j : ℕ) → j < k → Retries (env.answer (n + j)))

abbrev result : ℕ → ℕ → Option SendError → WebhookResult
result c d o = record { status_code = c; error = o; duration = d }

success_at :
    (c d : ℕ) (o : Option SendError) → is_success (result c d o) ≡ true → Succeeds (result c d o)
unfolding is_success
success_at c d none h = (refl, ground (arith, h), ground (arith, h))
success_at c d (some e) h = absurd (ground (arith, h))

test_success : (r : WebhookResult) → Succeeds r → is_success r ≡ true
unfolding is_success
test_success r (clean, low, high) = ground (arith, ap no_error clean, low, high)

retry_at :
    (c d : ℕ) (o : Option SendError) → is_retryable (result c d o) ≡ true → Retries (result c d o)
unfolding is_retryable
retry_at c d none h = inr (refl, ground (arith, h))
retry_at c d (some destination_blocked) h = absurd (ground (arith, h))
retry_at c d (some (other text)) h =
    inl (other text, refl, λ e. absurd (ground (arith, ap (λ x. is_blocked (some x)) e)))

retry_passes_at :
    (c d : ℕ) (o : Option SendError) → Retries (result c d o) → is_retryable (result c d o) ≡ true
unfolding is_retryable
retry_passes_at c d none (inl (e, some_error, free)) =
    absurd (ground (arith, ap no_error some_error))
retry_passes_at c d none (inr (clean, codes)) = ground (arith, codes)
retry_passes_at c d (some destination_blocked) (inl (e, same, free)) =
    absurd (free (sym (some-injective destination_blocked e same)))
retry_passes_at c d (some (other text)) (inl h) = refl
retry_passes_at c d (some e) (inr (clean, codes)) = absurd (ground (arith, ap no_error clean))

retry_fails_at :
    (c d : ℕ) (o : Option SendError) → Retries (result c d o) → is_success (result c d o) ≡ false
unfolding is_success
retry_fails_at c d none (inl (e, h, free)) = absurd (ground (arith, ap no_error h))
retry_fails_at c d none (inr (clean, codes)) = ground (arith, codes)
retry_fails_at c d (some e) h = refl

-- By the tests of the code.
abbrev PassesFirst : Environment → ℕ → ℕ → Type 0
PassesFirst env n k =
    (is_success (env.answer (n + k)) ≡ true)
    × ((j : ℕ)
        → j < k
        → (is_success (env.answer (n + j)) ≡ false) × (is_retryable (env.answer (n + j)) ≡ true))

delivered-PassesFirst :
    (env : Environment) (left n : ℕ)
    → verdict env left n ≡ delivered
    → (k : ℕ) × (k < left) × PassesFirst env n k
unfolding verdict
delivered-PassesFirst env zero n h = ground arith
delivered-PassesFirst env (suc left) n h = elim (Bool-cases (is_success (env.answer n))) [
  | inl good ↦ (0, omega arith, (rw add-zero good, λ j lt. elim lt [ ]))
  | inr bad ↦
      let again : is_retryable (env.answer n) ≡ true = ground arith in
      let (k, lt, (good, before)) = delivered-PassesFirst env left (suc n) (ground arith) in
      (
        suc k,
        omega arith,
        (rw add-suc (rw suc-add at good), λ j jlt. earlier j k bad again before jlt),
      )
]
  where
    earlier :
        (j k : ℕ)
        → is_success (env.answer n) ≡ false
        → is_retryable (env.answer n) ≡ true
        → ((i : ℕ)
            → i < k
            → (is_success (env.answer (suc n + i)) ≡ false)
              × (is_retryable (env.answer (suc n + i)) ≡ true))
        → j < suc k
        → (is_success (env.answer (n + j)) ≡ false) × (is_retryable (env.answer (n + j)) ≡ true)
    earlier zero k bad again before lt = rw add-zero (bad, again)
    earlier (suc j) k bad again before lt = rw add-suc (rw suc-add at (before j (omega arith)))

PassesFirst-delivered :
    (env : Environment) (left n k : ℕ)
    → k < left
    → PassesFirst env n k
    → verdict env left n ≡ delivered
unfolding verdict
PassesFirst-delivered env zero n k lt f = elim lt [ ]
PassesFirst-delivered env (suc left) n zero lt f = ground (arith, rw add-zero at f.0)
PassesFirst-delivered env (suc left) n (suc k) lt f =
    let here = f.1 0 (omega arith) in
    let e : (m : ℕ) → n + suc m ≡ suc n + m = λ m. omega arith in
    let rest =
      PassesFirst-delivered env left (suc n) k (omega arith)
        (rw (e k) at f.0, λ j jlt. rw (e j) at (f.1 (suc j) (omega arith))) in
    ground (arith, rw add-zero at here, rest)

-- A claimed execution of a job with a webhook URL, whose lease lasts to the end of the delivery and
-- whose circuit lets it through, is completed once, and as delivered exactly if one of the at most four
-- attempts is answered with a 2xx status, and each before it with 429, with a status of 500 or more, or
-- with an error other than the guard's refusal of the destination.
pub delivered_iff :
    (d : Dispatcher) (env : Environment) (x : Execution) (job : Job)
    → IsHealthy env
    → 1 ≤ x.claim_generation
    → 1000000 ≤ env.lease_duration
    → env.job ≡ some job
    → (job.delivery.webhook_url == "") ≡ false
    → admits d env.gate ≡ true
    → (statuses (dispatch d env (claimed x)).effects ≡ delivered ∷ [])
      ↔ ((k : ℕ) × (k < 4) × FirstSuccess env 1 k)
delivered_iff d env x job v owned long found url through =
    let once = dispatch_completes d env x job v owned long found url through in
    (
      λ h.
          let (k, lt, (good, before)) =
            delivered-PassesFirst env 4 1 (ap (λ sts. get_or sts 0 failed) (sym once ∙ h)) in
          (
            k,
            lt,
            (
              success_at (env.answer (1 + k)).status_code (env.answer (1 + k)).duration
                  (env.answer (1 + k)).error good,
              λ j jlt.
                  retry_at (env.answer (1 + j)).status_code (env.answer (1 + j)).duration
                    (env.answer (1 + j)).error (before j jlt).1,
            ),
          ),
      λ (k, lt, (good, before)).
          once
          ∙ ap (λ st. st ∷ [])
              (PassesFirst-delivered env 4 1 k lt (
                test_success (env.answer (1 + k)) good,
                λ j jlt. (
                  retry_fails_at (env.answer (1 + j)).status_code (env.answer (1 + j)).duration
                      (env.answer (1 + j)).error (before j jlt),
                  retry_passes_at (env.answer (1 + j)).status_code (env.answer (1 + j)).duration
                      (env.answer (1 + j)).error (before j jlt),
                ),
              )),
    )
