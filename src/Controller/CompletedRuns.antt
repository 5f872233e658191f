-- ===== src/Controller/CompletedRuns.antt =====
-- internal/controller/completed_run_gc.go: terminal Runs are deleted when their time to live is over.
use kruntimes.Base.{
  ℕ, ◌+◌, ◌*◌, ◌≤◌, ◌<◌, ◌≡◌, ◌↔◌, arith, Bool, true, false, ◌||◌, not, inl, inr, Option-cases,
  Option, none, some, ltb, is_some, if◌then◌else◌,
}
use kruntimes.Base.Int.{ℤ, pos, pos_part, sub_ℕ, ◌≤ℤ◌}
use kruntimes.Api.Run.{Run, RunPhase, succeeded, failed, timeout, cancelled}
use kruntimes.Scheduler.Environment.{Answer, found, not_found, unavailable}

unfoldable pub is_terminal_run_phase : RunPhase → Bool
is_terminal_run_phase succeeded = true
is_terminal_run_phase failed = true
is_terminal_run_phase timeout = true
is_terminal_run_phase cancelled = true
is_terminal_run_phase _ = false

pub data DeleteAnswer : Type 0 where
  deleted already_gone delete_failed : DeleteAnswer

-- The reply of Reconcile, and whether a deletion was requested.
pub data GcReply : Type 0 where
  gc_done : GcReply
  gc_requeue_after : ℤ → GcReply
  gc_fail : GcReply

pub record GcOutcome : Type 0 where
  pub deletes : Bool
  pub reply : GcReply

abbrev leaves : GcReply → GcOutcome
leaves reply = record { deletes = false; reply = reply }

delete_reply : DeleteAnswer → GcReply
delete_reply deleted = gc_done
delete_reply already_gone = gc_done
delete_reply delete_failed = gc_fail

ttl_of : Option ℤ → ℕ
ttl_of none = 0
ttl_of (some seconds) = pos_part seconds * 1000000000

module _ {Q : Type 0} where
  -- runTTL, in nanoseconds: an int32 of seconds fits the duration.
  unfoldable pub run_ttl : Run Q → ℕ
  unfolding ttl_of
  run_ttl run = ttl_of run.spec.ttl_seconds_after_finished

module _ {Q : Type 0} (now : ℕ) (answer : DeleteAnswer) where
  collect_completed : Run Q → Option ℕ → GcOutcome
  unfolding delete_reply run_ttl
  collect_completed run none = leaves gc_done
  collect_completed run (some completion_time) =
      let ttl = run_ttl run in
      let expires_at = completion_time + ttl in
      if not (ltb 0 ttl)
      then leaves gc_done
      else if ltb now expires_at
      then leaves (gc_requeue_after (sub_ℕ expires_at now))
      else record { deletes = true; reply = delete_reply answer }

  unfoldable pub collect : Answer (Run Q) → GcOutcome
  unfolding collect_completed is_terminal_run_phase
  collect not_found = leaves gc_done
  collect unavailable = leaves gc_fail
  collect (found run) =
      if not (is_terminal_run_phase run.status.phase) || is_some run.deletion_timestamp
      then leaves gc_done
      else collect_completed run run.status.completion_time

  -- The Run is over, not yet being deleted, and has outlived its positive time to live.
  pub record IsExpired (run : Run Q) : Type 0 where
    pub is_terminal : is_terminal_run_phase run.status.phase ≡ true
    pub not_deleting : is_some run.deletion_timestamp ≡ false
    pub completed_at : ℕ
    pub completed : run.status.completion_time ≡ some completed_at
    pub has_ttl : 0 < run_ttl run
    pub over : completed_at + run_ttl run ≤ now

  collect-IsExpired : (run : Run Q) → (collect (found run)).deletes ≡ true → IsExpired run
  unfolding collect collect_completed
  collect-IsExpired run h = elim (Option-cases run.status.completion_time) [
    | inl never ↦ absurd (ground arith)
    | inr (at, completed) ↦ record {
      is_terminal = ground arith;
      not_deleting = ground arith;
      completed_at = at;
      completed = completed;
      has_ttl = ground arith;
      over = ground arith;
    }
  ]

  -- For any Run and time: the collector deletes it exactly if it is terminal, not being deleted,
  -- completed, and its time to live is positive and over.
  pub collect_iff : (run : Run Q) → ((collect (found run)).deletes ≡ true) ↔ IsExpired run
  unfolding collect collect_completed
  collect_iff run = (
    collect-IsExpired run,
    λ h. ground (arith, h.is_terminal, h.not_deleting, h.completed, h.has_ttl, h.over),
  )

  -- A Run that will expire is looked at again at that very time: where the collector asks to be
  -- called again after a delay, the delay is positive and at its end the Run's time to live is over.
  pub collect-requeues :
      (run : Run Q) (delay : ℤ)
      → (collect (found run)).reply ≡ gc_requeue_after delay
      → (completed_at : ℕ) × (run.status.completion_time ≡ some completed_at)
        × (pos 1 ≤ℤ delay)
        × (now + pos_part delay ≡ completed_at + run_ttl run)
  unfolding collect collect_completed delete_reply
  collect-requeues run delay h = elim (Option-cases run.status.completion_time) [
    | inl never ↦ absurd (ground arith)
    | inr (at, completed) ↦ (at, completed, ground arith, ground arith)
  ]
