-- ===== src/Retry/Backoff.antt =====
-- The delays of internal/retry/retry.go.
use kruntimes.Base.{
  ℕ, ◌+◌, ◌-◌, ◌*◌, ◌^◌, ◌≤◌, ◌<◌, ◌≡◌, ap, ◌∙◌, ◌⊎◌, inl, inr, Bool-cases, ltb, arith,
}
use kruntimes.Base.Int.{ℤ, pos, negsuc}
use kruntimes.Api.Run.{RetryPolicy}
use kruntimes.Retry.{max_backoff, min_ℤ, scale, float_to_int64, backoff_delay}

sub_two : (n : ℕ) → n + 2 - 2 ≡ n
sub_two n = omega arith

float_to_int64_exact :
    (out : ℤ → ℤ) (x : ℕ) → x < 9223372036854775808 → float_to_int64 out (pos x) ≡ pos x
unfolding float_to_int64
float_to_int64_exact out x h = ground arith

float_to_int64_beyond :
    (out : ℤ → ℤ) (x : ℕ) → 9223372036854775808 ≤ x → float_to_int64 out (pos x) ≡ out (pos x)
unfolding float_to_int64
float_to_int64_beyond out x h = ground arith

delay_at :
    (out : ℤ → ℤ) (p : RetryPolicy) (d n : ℕ)
    → p.backoff ≡ pos d
    → backoff_delay out p (pos (n + 2))
      ≡ min_ℤ (float_to_int64 out (pos (d * 2 ^ n))) (pos max_backoff)
unfolding backoff_delay
delay_at out p d n e =
    ap (λ (b : ℤ). min_ℤ (float_to_int64 out b) (pos max_backoff))
      (ap (λ (r : ℕ). scale p.backoff r) (sub_two n) ∙ ap (λ (b : ℤ). scale b n) e)

-- While the product stays below 2^63 the delay of
-- the retry number `n` is the backoff doubled `n` times, and at most the maximum.
backoff_delay-eq :
    (out : ℤ → ℤ) (p : RetryPolicy) (d n : ℕ)
    → p.backoff ≡ pos d
    → d ≤ 9007199254740992
    → d * 2 ^ n < 9223372036854775808
    → backoff_delay out p (pos (n + 2)) ≡ min_ℤ (pos (d * 2 ^ n)) (pos max_backoff)
backoff_delay-eq out p d n e exact h =
    delay_at out p d n e
    ∙ ap (λ (b : ℤ). min_ℤ b (pos max_backoff)) (float_to_int64_exact out (d * 2 ^ n) h)

backoff_delay_beyond :
    (out : ℤ → ℤ) (p : RetryPolicy) (d n : ℕ)
    → ((x : ℤ) → out x ≡ negsuc 9223372036854775807)
    → p.backoff ≡ pos d
    → d ≤ 9007199254740992
    → 9223372036854775808 ≤ d * 2 ^ n
    → backoff_delay out p (pos (n + 2)) ≡ negsuc 9223372036854775807
backoff_delay_beyond out p d n amd e exact h =
    delay_at out p d n e
    ∙ ap (λ (b : ℤ). min_ℤ b (pos max_backoff))
        (float_to_int64_beyond out (d * 2 ^ n) h ∙ amd (pos (d * 2 ^ n)))

-- For a backoff that float64 holds exactly, on a machine that converts a float64 beyond int64 to
-- the smallest int64: the delay before attempt `n + 2` is the backoff doubled `n` times, and at most
-- 60 seconds, exactly as long as that product is below 2^63; from there on it is the smallest int64,
-- and so negative.
pub backoff_delay_lem :
    (out : ℤ → ℤ) (p : RetryPolicy) (d n : ℕ)
    → ((x : ℤ) → out x ≡ negsuc 9223372036854775807)
    → p.backoff ≡ pos d
    → d ≤ 9007199254740992
    → (d * 2 ^ n < 9223372036854775808)
        × (backoff_delay out p (pos (n + 2)) ≡ min_ℤ (pos (d * 2 ^ n)) (pos 60000000000))
      ⊎ (9223372036854775808 ≤ d * 2 ^ n)
        × (backoff_delay out p (pos (n + 2)) ≡ negsuc 9223372036854775807)
backoff_delay_lem out p d n amd e exact = elim (Bool-cases (ltb (d * 2 ^ n) 9223372036854775808)) [
  | inl within ↦
      let below : d * 2 ^ n < 9223372036854775808 = ground (arith, within) in
      inl (below, backoff_delay-eq out p d n e exact below)
  | inr over ↦
      let beyond : 9223372036854775808 ≤ d * 2 ^ n = ground (arith, over) in
      inr (beyond, backoff_delay_beyond out p d n amd e exact beyond)
]
