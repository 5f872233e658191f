-- ===== src/Retry.antt =====
-- internal/retry/retry.go: retry policies, the delay before a retry and the decision to retry.
-- A duration is a number of nanoseconds. `out_of_range` is the result of converting to int64 a
-- float64 that int64 cannot hold, which the language leaves to the implementation.
pub mod Backoff
pub mod Decision
use kruntimes.Base.{
  ℕ, suc, ◌-◌, ◌*◌, ◌^◌, String, Bool, true, false, ◌&&◌, List, [], ◌∷◌, Option, none, some, any,
  ◌==◌, string_eq, ℕ_eq, if◌then◌else◌,
}
use kruntimes.Base.Int.{ℤ, pos, negsuc, pos_part, sub_ℕ, ltb_ℤ, leb_ℤ, ◌+ℤ◌}
use kruntimes.Api.Run.{RetryPolicy}

abbrev pub second : ℕ
second = 1000000000

abbrev pub max_backoff : ℕ
max_backoff = 60 * second

abbrev pub reason_cancelled : String
reason_cancelled = "Cancelled"

unfoldable pub with_defaults : Option RetryPolicy → RetryPolicy
with_defaults none = record { max_attempts = pos 1; backoff = pos second; retryable_reasons = [] }
with_defaults (some p) = record p {
  max_attempts = if leb_ℤ p.max_attempts (pos 0) then pos 1 else p.max_attempts;
  backoff = if leb_ℤ p.backoff (pos 0) then pos second else p.backoff;
}

abbrev pub min_ℤ : ℤ → ℤ → ℤ
min_ℤ a b = if leb_ℤ a b then a else b

-- d * 2^r; float64 computes it exactly for a `d` within 2^53, and for a larger one rounds.
abbrev pub scale : ℤ → ℕ → ℤ
scale (pos n) r = pos (n * 2 ^ r)
scale (negsuc n) r = sub_ℕ 0 (suc n * 2 ^ r)

unfoldable pub float_to_int64 : (ℤ → ℤ) → ℤ → ℤ
float_to_int64 out_of_range x =
    if leb_ℤ (negsuc 9223372036854775807) x && ltb_ℤ x (pos 9223372036854775808)
    then x
    else out_of_range x

unfoldable pub backoff_delay : (ℤ → ℤ) → RetryPolicy → ℤ → ℤ
unfolding float_to_int64
backoff_delay out_of_range p attempt =
    let retries = pos_part attempt - 2 in
    min_ℤ (float_to_int64 out_of_range (scale p.backoff retries)) (pos max_backoff)

-- An empty list of reasons allows each.
abbrev pub listed : String → List String → Bool
listed reason [] = true
listed reason (r ∷ rs) = any (λ x. x == reason) (r ∷ rs)

unfoldable pub should_retry : RetryPolicy → ℤ → String → Bool
should_retry p attempt reason =
    if leb_ℤ p.max_attempts attempt
    then false
    else if reason == reason_cancelled
    then false
    else listed reason p.retryable_reasons

unfoldable pub current_attempt : ℤ → ℤ
current_attempt (pos n) = if n == 0 then pos 1 else pos n
current_attempt (negsuc n) = negsuc n

-- int32 addition of one
abbrev pub inc_int32 : ℤ → ℤ
inc_int32 z = if leb_ℤ (pos 2147483647) z then negsuc 2147483647 else z +ℤ pos 1

unfoldable pub next_attempt : ℤ → ℤ
unfolding current_attempt ◌+ℤ◌
next_attempt status_attempt = inc_int32 (current_attempt status_attempt)
