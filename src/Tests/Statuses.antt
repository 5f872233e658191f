-- ===== src/Tests/Statuses.antt =====
-- The theorems on retries, terminal statuses and heartbeats at concrete values.
use kruntimes.Base.{◌+◌, ◌*◌, ◌^◌, ◌<◌, ◌≤◌, ◌⊎◌, string_eq, ◌≡◌, refl, arith, []}
use kruntimes.Base.Int.{ℤ, pos, negsuc}
use kruntimes.Api.Run.{RetryPolicy, failed}
use kruntimes.Retry.{backoff_delay, min_ℤ}
use kruntimes.Retry.Backoff.{backoff_delay_lem}
use kruntimes.RunStatus.{set_terminal}
use kruntimes.RunStatus.Terminal.{IsTerminated, set_terminal_lem}
use kruntimes.Tests.Samples.{listed_conditions, listed_laws, waiting_run}

abbrev policy : RetryPolicy
policy = record { max_attempts = pos 3; backoff = pos 1000000000; retryable_reasons = [] }

abbrev amd64 : ℤ → ℤ
amd64 x = negsuc 9223372036854775807

backoff_delay_lem_example :
    (1000000000 * 2 ^ 34 < 9223372036854775808)
      × (backoff_delay amd64 policy (pos (34 + 2))
          ≡ min_ℤ (pos (1000000000 * 2 ^ 34)) (pos 60000000000))
    ⊎ (9223372036854775808 ≤ 1000000000 * 2 ^ 34)
      × (backoff_delay amd64 policy (pos (34 + 2)) ≡ negsuc 9223372036854775807)
backoff_delay_lem_example =
    backoff_delay_lem amd64 policy 1000000000 34 (λ x. refl) refl (omega arith)

set_terminal_lem_example :
    IsTerminated listed_conditions listed_laws 9 waiting_run
      (set_terminal listed_conditions 9 waiting_run failed "Failed" "exit code 1" 10)
      failed
      "Failed"
      "exit code 1"
      10
set_terminal_lem_example =
    set_terminal_lem listed_conditions listed_laws 9 waiting_run failed "Failed" "exit code 1" 10
