-- ===== src/Executor/Retries.antt =====
-- The retry loop of provider_executor.py, with the calls of the provider counted by `calls`.
use mathlib.Core.Path.{subst}
use ai_runtime.Prelude.{
  ◌-◌, ℕ, zero, suc, ◌+◌, ◌*◌, ◌≤◌, ◌<◌, ◌≡◌, refl, true, Option, some, arith, Bool-cases, inl, inr,
}
use ai_runtime.Errors.{ProviderError, provider_error, Result, ok, err}
use ai_runtime.Generation.{GenerationRequest, GenerationResponse}
use ai_runtime.Executor.{
  ModelProvider, ProviderExecutor, pause, gives_up, after_attempt, generate_loop, given,
  generate_with_retries,
}

-- With the fuel that is left of `max_retries + 1` after the attempts made, the retry loop ends,
-- whatever the provider does.
pub generate_loop_total :
    {S : Type 0} (sleep : ℕ → S → S) (x : ProviderExecutor S) (p : ModelProvider S)
    (request : GenerationRequest) (fuel attempt : ℕ) (s : S)
    → x.max_retries < fuel + attempt
    → attempt ≤ x.max_retries
    → (o : Result GenerationResponse × S) × (generate_loop sleep x p request fuel attempt s
        ≡ some o)
unfolding generate_loop
generate_loop_total sleep x p request zero attempt s enough h = absurd (omega arith)
generate_loop_total {S} sleep x p request (suc fuel) attempt s enough h =
    go (p.generate request s).0 (p.generate request s).1
      (λ s₂ more. generate_loop_total sleep x p request fuel (attempt + 1) s₂ (omega arith) more)
  where
    go :
        (r : Result GenerationResponse) (s₁ : S)
        → ((s₂ : S)
            → attempt + 1 ≤ x.max_retries
            → (o : Result GenerationResponse × S) × (generate_loop sleep x p request fuel
                  (attempt + 1)
                  s₂
                ≡ some o))
        → (o : Result GenerationResponse × S) × (after_attempt sleep x attempt
              (λ s₂. generate_loop sleep x p request fuel (attempt + 1) s₂)
              r
              s₁
            ≡ some o)
    go (ok a) s₁ ih = ((ok a, s₁), refl)
    go (err (provider_error e)) s₁ ih = elim (Bool-cases (gives_up sleep x e attempt)) [
      | inl stop ↦ ((err (provider_error e), s₁), rw stop)
      | inr more ↦ let (o, q) = ih (pause sleep x (attempt + 1) s₁) (ground arith) in (o, rw more q)
    ]
    go (err e) s₁ ih = ((err e, s₁), refl)

-- How `calls` counts: a call of `generate` adds one, and a pause adds nothing.
pub record Counts {S : Type 0} (calls : S → ℕ) (sleep : ℕ → S → S) (p : ModelProvider S)
    (request : GenerationRequest) : Type 0 where
  pub counted : (s : S) → calls (p.generate request s).1 ≡ calls s + 1
  pub quiet : (d : ℕ) (s : S) → calls (sleep d s) ≡ calls s

-- A result after some of the `left` calls that remain: at least one was made, and a retryable error
-- is given back only when all of them were made.
pub record Tried {S : Type 0} (calls : S → ℕ) (s : S) (left : ℕ) (r : Result GenerationResponse)
    (s' : S) : Type 0 where
  pub called : calls s < calls s'
  pub bounded : calls s' ≤ calls s + left
  pub exhausted :
      (e : ProviderError)
      → r ≡ err (provider_error e)
      → e.retryable ≡ true
      → calls s' ≡ calls s + left

module _ {S : Type 0} (sleep : ℕ → S → S) (x : ProviderExecutor S) (calls : S → ℕ)
    (p : ModelProvider S) (request : GenerationRequest) (c : Counts calls sleep p request) where
  calls-pause : (attempt : ℕ) (s : S) → calls (pause sleep x attempt s) ≡ calls s
  unfolding pause
  calls-pause attempt s = ground (arith, c.quiet (x.retry_base_delay * attempt) s)

  abbrev Ends : S → ℕ → Option (Result GenerationResponse × S) → Type 0
  Ends s left o =
      (r : Result GenerationResponse) × (s' : S) × (o ≡ some (r, s')) × Tried calls s left r s'

  -- One attempt, where `retry` ends well with one call less.
  after_attempt-Ends :
      (attempt left : ℕ) (s s₁ : S) (retry : S → Option (Result GenerationResponse × S))
      (r : Result GenerationResponse)
      → calls s₁ ≡ calls s + 1
      → left + attempt ≡ x.max_retries
      → ((s₂ : S) → 0 < left → calls s₂ ≡ calls s₁ → Ends s₂ left (retry s₂))
      → Ends s (suc left) (after_attempt sleep x attempt retry r s₁)
  after_attempt-Ends attempt left s s₁ retry (ok a) one total more = (
    ok a,
    s₁,
    refl,
    record { called = omega arith; bounded = omega arith; exhausted = λ e h k. cc },
  )
  after_attempt-Ends attempt left s s₁ retry (err (provider_error e)) one total more =
      elim (Bool-cases (gives_up sleep x e attempt)) [
        | inl stop ↦ (
          err (provider_error e),
          s₁,
          rw stop,
          record {
            called = omega arith;
            bounded = omega arith;
            exhausted = λ e' h k. ground arith;
          },
        )
        | inr go ↦
            let (r, s', e', t) =
              more (pause sleep x (attempt + 1) s₁) (ground arith) (calls-pause (attempt + 1) s₁) in
            (
              r,
              s',
              rw go e',
              record {
                called = omega (arith, t.called, calls-pause (attempt + 1) s₁);
                bounded = omega (arith, t.bounded, calls-pause (attempt + 1) s₁);
                exhausted =
                    λ e' h k. omega (arith, t.exhausted e' h k, calls-pause (attempt + 1) s₁);
              },
            )
      ]
  after_attempt-Ends attempt left s s₁ retry (err e) one total more = (
    err e,
    s₁,
    refl,
    record { called = omega arith; bounded = omega arith; exhausted = λ e h k. cc },
  )

  generate_loop-Ends :
      (fuel attempt left : ℕ) (s : S)
      → left + attempt ≡ x.max_retries
      → left < fuel
      → Ends s (suc left) (generate_loop sleep x p request fuel attempt s)
  unfolding generate_loop
  generate_loop-Ends zero attempt left s total enough = absurd (omega arith)
  generate_loop-Ends (suc fuel) attempt left s total enough =
      after_attempt-Ends attempt left s (p.generate request s).1
        (λ s₂. generate_loop sleep x p request fuel (attempt + 1) s₂) (p.generate request s).0
        (c.counted s) total
        (λ s₂ more same.
          let e : suc (left - 1) ≡ left = omega arith in
          subst (λ n. Ends s₂ n (generate_loop sleep x p request fuel (attempt + 1) s₂)) e
            (generate_loop-Ends fuel (attempt + 1) (left - 1) s₂ (omega arith) (omega arith)))

  -- Where each call of the adapter counts one and a pause none, a call with retries makes at least
  -- one and at most `max_retries + 1` calls of the adapter, and it gives back a retryable error
  -- only when it has made all of them.
  pub generate_with_retries_bounds :
      (s : S)
      → Tried calls s
          (x.max_retries + 1)
          (generate_with_retries sleep x p request s).0
          (generate_with_retries sleep x p request s).1
  unfolding generate_with_retries
  generate_with_retries_bounds s =
      let (r, s', e, t) =
        generate_loop-Ends (x.max_retries + 1) 0 x.max_retries s (omega arith) (omega arith) in
      rw (e, given)
        (let k : suc x.max_retries ≡ x.max_retries + 1 = omega arith in
          subst (λ n. Tried calls s n r s') k t)
