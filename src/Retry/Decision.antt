-- ===== src/Retry/Decision.antt =====
-- The decision to retry of internal/retry/retry.go.
use kruntimes.Base.{◌≡◌, ◌≢◌, true, String, eq_iff, arith}
use kruntimes.Base.Int.{ℤ, pos, ◌≤ℤ◌, ◌+ℤ◌}
use kruntimes.Api.Run.{RetryPolicy}
use kruntimes.Retry.{should_retry, current_attempt, next_attempt, reason_cancelled}

-- A retry is granted only below the maximum: the next attempt is one more and within it, and the
-- reason is not a cancellation.
pub retry_bounded :
    (p : RetryPolicy) (a : ℤ) (reason : String)
    → p.max_attempts ≤ℤ pos 2147483647
    → should_retry p (current_attempt a) reason ≡ true
    → (next_attempt a ≡ current_attempt a +ℤ pos 1)
      × (next_attempt a ≤ℤ p.max_attempts)
      × (reason ≢ reason_cancelled)
unfolding should_retry next_attempt
retry_bounded p a reason b h =
    (ground arith, ground arith, λ e. ground (arith, eq_iff reason reason_cancelled))
