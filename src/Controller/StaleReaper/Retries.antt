-- ===== src/Controller/StaleReaper/Retries.antt =====
-- What the reaper makes of a lost Run.
use kruntimes.Base.{
  ℕ, String, string_eq, ◌≡◌, ◌≢◌, refl, true, false, inl, inr, ◌⊎◌, Bool-cases, List, [], ◌∷◌, none,
  sym, eq_iff, any, ◌==◌, arith,
}
use kruntimes.Base.Int.{pos, ◌+ℤ◌, ◌≤ℤ◌}
use kruntimes.Api.Conditions.{MetaLaws}
use kruntimes.Api.Run.{Run, pending, failed}
use kruntimes.Base.Sort.{Member}
use kruntimes.Retry.{listed, with_defaults, should_retry, current_attempt, reason_cancelled}
use kruntimes.Retry.Decision.{retry_bounded}
use kruntimes.RunStatus.{condition_running, set_terminal}
use kruntimes.RunStatus.Terminal.{IsLowered, IsTerminated, set_lowered, set_terminal_lem}
use kruntimes.Controller.StaleReaper.{Reaper, settle}

any-Member :
    (reason : String) (rs : List String) → any (λ x. x == reason) rs ≡ true → Member reason rs
any-Member reason [] h = absurd (ground arith)
any-Member reason (r ∷ rs) h = elim (Bool-cases (r == reason)) [
  | inl same ↦ inl (sym ((eq_iff r reason).0 same))
  | inr other ↦ inr (any-Member reason rs (ground (arith, other, h)))
]

Member-any :
    (reason : String) (rs : List String) → Member reason rs → any (λ x. x == reason) rs ≡ true
Member-any reason [] m = elim m [ ]
Member-any reason (r ∷ rs) (inl e) = ground (arith, (eq_iff r reason).1 (sym e))
Member-any reason (r ∷ rs) (inr m) = ground (arith, Member-any reason rs m)

listed-Member :
    (reason : String) (rs : List String) → listed reason rs ≡ true → (rs ≡ []) ⊎ Member reason rs
listed-Member reason [] h = inl refl
listed-Member reason (r ∷ rs) h = inr (any-Member reason (r ∷ rs) h)

Member-listed :
    (reason : String) (rs : List String) → (rs ≡ []) ⊎ Member reason rs → listed reason rs ≡ true
Member-listed reason [] h = refl
Member-listed reason (r ∷ rs) (inl e) = absurd (ground (arith, e))
Member-listed reason (r ∷ rs) (inr m) = Member-any reason (r ∷ rs) m

module _ {Q : Type 0} where
  -- The policy grants a retry: attempts are left, the reason is not a cancellation, and it is listed
  -- if the policy lists any.
  pub record IsGranted (old : Run Q) (reason : String) : Type 0 where
    pub attempts_left :
        ¬ ((with_defaults old.spec.retry_policy).max_attempts ≤ℤ current_attempt old.status.attempt)
    pub not_cancelled : reason ≢ reason_cancelled
    pub retryable :
        ((with_defaults old.spec.retry_policy).retryable_reasons ≡ [])
        ⊎ Member reason (with_defaults old.spec.retry_policy).retryable_reasons

  should_retry-IsGranted :
      (run : Run Q) (reason : String)
      → should_retry
          (with_defaults run.spec.retry_policy)
          (current_attempt run.status.attempt)
          reason
        ≡ true
      → IsGranted run reason
  unfolding should_retry
  should_retry-IsGranted run reason h =
      let policy = with_defaults run.spec.retry_policy in
      record {
        attempts_left = λ over. ground (arith, h, over);
        not_cancelled = λ e. ground (arith, h, (eq_iff reason reason_cancelled).1 e);
        retryable = listed-Member reason policy.retryable_reasons (ground (arith, h));
      }

  IsGranted-should_retry :
      (run : Run Q) (reason : String)
      → IsGranted run reason
      → should_retry
          (with_defaults run.spec.retry_policy)
          (current_attempt run.status.attempt)
          reason
        ≢ false
  unfolding should_retry
  IsGranted-should_retry run reason g h = ground (
    arith,
    h,
    g.attempts_left,
    g.not_cancelled,
    eq_iff reason reason_cancelled,
    Member-listed reason (with_defaults run.spec.retry_policy).retryable_reasons g.retryable,
  )

module _ (r : Reaper) (laws : MetaLaws r.meta) {Q : Type 0} (now : ℕ) where
  -- The Run waits for a new Pod: one attempt more, within the policy.
  pub record IsRetried (old new : Run Q) (reason : String) : Type 0 where
    pub waits : new.status.phase ≡ pending
    pub unassigned : (new.status.assigned_pod ≡ "") × (new.status.assigned_pod_uid ≡ "")
    pub not_started : new.status.start_time ≡ none
    pub counted : new.status.attempt ≡ current_attempt old.status.attempt +ℤ pos 1
    pub within : new.status.attempt ≤ℤ (with_defaults old.spec.retry_policy).max_attempts
    pub not_cancelled : reason ≢ reason_cancelled
    pub not_running : IsLowered r.meta new.status.conditions condition_running reason
    pub keeps_spec : new.spec ≡ old.spec

  -- For any Run whose maximum of attempts is an int32, any reason and message, under the documented
  -- laws of the condition helpers: a lost Run whose policy grants a retry (attempts are left, the
  -- reason is not a cancellation, and it is listed if the policy lists any) is retried, with one
  -- attempt more and within the maximum; one whose policy grants none is failed with the reason and
  -- message, with its attempt kept.
  pub settle_lem :
      (run : Run Q) (reason message : String)
      → (with_defaults run.spec.retry_policy).max_attempts ≤ℤ pos 2147483647
      → let new = settle r now run reason message in
        (IsGranted run reason × IsRetried run new reason)
        ⊎ (¬ IsGranted run reason)
          × IsTerminated r.meta laws now run new failed reason message now
          × (new.status.attempt ≡ current_attempt run.status.attempt)
  unfolding settle
  settle_lem run reason message bounded =
      let policy = with_defaults run.spec.retry_policy in
      let cur = current_attempt run.status.attempt in
      elim (Bool-cases (should_retry policy cur reason)) [
        | inl retries ↦
            let (counted, within, not_cancelled) =
              retry_bounded policy run.status.attempt reason bounded retries in
            rw retries (
              inl (
                should_retry-IsGranted run reason retries,
                record {
                  waits = refl;
                  unassigned = (refl, refl);
                  not_started = refl;
                  counted = counted;
                  within = within;
                  not_cancelled = not_cancelled;
                  not_running =
                      set_lowered r.meta laws now run.status.conditions condition_running reason
                        message;
                  keeps_spec = refl;
                },
              ))
        | inr stops ↦
            let t =
              set_terminal_lem r.meta laws now
                (record run { status = record (run.status) { attempt = cur } }) failed reason
                message now in
            rw stops (
              inr (
                (λ g. IsGranted-should_retry run reason g stops),
                record {
                  phase_set = t.phase_set;
                  message_set = t.message_set;
                  completed_at = t.completed_at;
                  not_running = t.not_running;
                  not_completed = t.not_completed;
                  not_ready = t.not_ready;
                  keeps_spec = t.keeps_spec;
                },
                unfold set_terminal in refl,
              ))
      ]
