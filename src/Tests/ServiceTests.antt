-- ===== src/Tests/ServiceTests.antt =====
-- The retry of a call, and a bucket of the rate limiter.
use agens_web.Prelude.{◌≡◌, refl, ℕ, ◌+◌, zero, suc, [], ◌∷◌, keep_if, ltb, arith}
use agens_web.Llm.Retry.{
  Outcome, returned, transport_error, status_error, done, with_retry, Decides, with_retry-Decides,
}
use agens_web.Web.Limiter.{check, admit, IsBucket, check_window, check-IsBucket}

-- Two failures that may pass, then an answer.
abbrev calls : ℕ → Outcome ℕ
calls zero = transport_error
calls (suc zero) = status_error 503
calls (suc (suc k)) = returned 7

calls_retried : with_retry calls 3 ≡ (done 7, 2)
unfolding with_retry
calls_retried = refl

with_retry-Decides_example : Decides calls 0 3 (with_retry calls 3)
with_retry-Decides_example = with_retry-Decides calls 3

check_window_example :
    check 60 2 50 (5 ∷ 20 ∷ []) ≡ admit 60 2 (keep_if (λ b. ltb 60 (b + 50)) (5 ∷ 20 ∷ []))
check_window_example = check_window 60 2 50 (5 ∷ 20 ∷ []) ((omega arith, tt), (tt, tt))

check-IsBucket_example : IsBucket 2 60 (check 60 2 50 (5 ∷ 20 ∷ [])).1
check-IsBucket_example =
    check-IsBucket 30 60 2 50 (5 ∷ 20 ∷ []) (omega arith)
      (((omega arith, tt), (tt, tt)), (omega arith, (omega arith, tt)), omega arith)
