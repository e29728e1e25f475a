-- ===== src/Llm/Retry.antt =====
-- src/agens_novel/llm/retry.py: a call is repeated while it fails in a way that may pass. Its
-- outcomes are an argument: `fn k` is that of call `k`, from 0. The delays, random within bounds,
-- and the log are left out.
use agens_web.Prelude.{
  ◌≡◌, refl, ℕ, zero, suc, ◌+◌, ◌≤◌, ◌<◌, ◌==◌, String, Bool, true, false, List, [], ◌∷◌,
  if◌then◌else◌, any_of, ◌⊎◌, inl, inr, arith, Bool-cases, subst, leb, leb→le, str_eq,
}

abbrev pub retryable_http_statuses : List ℕ
retryable_http_statuses = 408 ∷ 425 ∷ 429 ∷ 500 ∷ 502 ∷ 503 ∷ 504 ∷ 520 ∷ []

abbrev pub is_retryable_status : ℕ → Bool
is_retryable_status status_code = any_of (λ s. s == status_code) retryable_http_statuses

-- How a call ends: a `TransportError`, an `HTTPStatusError`, or another error with its
-- `error_code`.
pub data Outcome {ℓ} (A : Type ℓ) : Type ℓ where
  returned : A → Outcome A
  transport_error : Outcome A
  status_error : ℕ → Outcome A
  other_error : String → Outcome A

-- What `with_retry` raises: a `RetryExhausted`, or the error of the call.
pub data Ended {ℓ} (A : Type ℓ) : Type ℓ where
  done : A → Ended A
  retry_exhausted : Ended A
  raised_status : ℕ → Ended A
  raised_other : String → Ended A

the_first : {attempt : ℕ} (k : ℕ) → attempt ≤ k → k ≤ attempt → attempt ≡ k
the_first k a b = omega arith

module _ {ℓ} {A : Type ℓ} where
  abbrev pub may_retry : Outcome A → Bool
  may_retry (returned a) = false
  may_retry transport_error = true
  may_retry (status_error status) = is_retryable_status status
  may_retry (other_error code) = str_eq code "empty_completion"

  abbrev pub end_with : Outcome A → Ended A
  end_with (returned a) = done a
  end_with transport_error = retry_exhausted
  end_with (status_error status) = raised_status status
  end_with (other_error code) = raised_other code

  -- The loop at `attempt`, with `left` retries left: the end, and the number of the last call.
  abbrev pub retry_from : (ℕ → Outcome A) → ℕ → ℕ → Ended A × ℕ
  retry_from fn attempt zero = (end_with (fn attempt), attempt)
  retry_from fn attempt (suc left) =
      let rest = retry_from fn (suc attempt) left in
      if may_retry (fn attempt) then rest else (end_with (fn attempt), attempt)

  unfoldable pub with_retry : (ℕ → Outcome A) → ℕ → Ended A × ℕ
  with_retry fn max_retries = retry_from fn 0 max_retries

  -- Calls `attempt` to `last` were made: the earlier ones may all be retried, and the last one
  -- decides, since it may not be retried or no retry is left.
  abbrev pub Decides : (ℕ → Outcome A) → ℕ → ℕ → Ended A × ℕ → Type ℓ
  Decides fn attempt limit (ended, last) =
      (ended ≡ end_with (fn last))
      × (attempt ≤ last)
      × (last ≤ limit)
      × ((k : ℕ) → attempt ≤ k → k < last → may_retry (fn k) ≡ true)
      × ((last ≡ limit) ⊎ (may_retry (fn last) ≡ false))

  retry_from-Decides :
      (fn : ℕ → Outcome A) (attempt left limit : ℕ)
      → limit ≡ attempt + left
      → Decides fn attempt limit (retry_from fn attempt left)
  retry_from-Decides fn attempt zero limit e =
      (refl, omega arith, omega arith, λ k a b. absurd (omega arith), inl (omega arith))
  retry_from-Decides fn attempt (suc left) limit e =
      let rest = retry_from-Decides fn (suc attempt) left limit (omega arith) in
      next (may_retry (fn attempt)) refl rest
    where
      next :
          (b : Bool)
          → may_retry (fn attempt) ≡ b
          → Decides fn (suc attempt) limit (retry_from fn (suc attempt) left)
          → Decides fn attempt limit
              (if b then retry_from fn (suc attempt) left else (end_with (fn attempt), attempt))
      next true m (h, low, high, before, last) = (
        h,
        omega arith,
        high,
        λ k a b. elim (Bool-cases (leb k attempt)) [
          | inl le ↦ subst (λ x. may_retry (fn x) ≡ true) (the_first k a (leb→le _ _ le)) m
          | inr gt ↦ before k (ground arith) b
        ],
        last,
      )
      next false m h = (refl, omega arith, omega arith, (λ k a b. absurd (omega arith)), inr m)

  -- A call is repeated at most `max_retries` times, whatever the outcomes are: all calls before
  -- the last may be retried, and the last decides, as it may not be retried or is the last allowed.
  pub with_retry-Decides :
      (fn : ℕ → Outcome A) (max_retries : ℕ) → Decides fn 0 max_retries (with_retry fn max_retries)
  unfolding with_retry
  with_retry-Decides fn max_retries = retry_from-Decides fn 0 max_retries max_retries (omega arith)
