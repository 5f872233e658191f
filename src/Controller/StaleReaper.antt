-- ===== src/Controller/StaleReaper.antt =====
-- internal/controller/stale_reaper.go: Runs whose Runtime Pod is gone, replaced or unhealthy are
-- reset for a retry or failed. `World` holds the answers of the API; events and logs are left out.
pub mod Health
pub mod Retries
use kruntimes.Base.{
  ℕ, String, string_eq, ◌==◌, Bool, true, false, ◌&&◌, ◌||◌, not, List, [], ◌∷◌, Option, none, some,
  is_some, if◌then◌else◌,
}
use kruntimes.Base.Int.{ℤ, pos, sub_ℕ, leb_ℤ, ltb_ℤ}
use kruntimes.Api.Conditions.{ConditionStatus, true_status, MetaOps}
use kruntimes.Api.Pod.{Pod, PodCondition, pod_ready}
use kruntimes.Api.Run.{
  Run, RunPhase, pending, running, ready, finalizing, failed, registration_cleanup_finalizer,
}
use kruntimes.Retry.{with_defaults, should_retry, current_attempt, next_attempt}
use kruntimes.RunStatus.{condition_running, lowered, set_terminal}
use kruntimes.RuntimePod.{fresh_runtimed_ready}
use kruntimes.Scheduler.Environment.{
  Answer, found, not_found, unavailable, UpdateAnswer, updated, conflict, update_failed,
}

abbrev pub reason_pod_gone : String
reason_pod_gone = "PodGone"

abbrev pub reason_pod_terminating : String
reason_pod_terminating = "PodTerminating"

abbrev pub reason_pod_unhealthy : String
reason_pod_unhealthy = "PodUnhealthy"

-- `remove_finalizer` is controllerutil.RemoveFinalizer: the new list, and whether it changed.
pub record Reaper : Type 0 where
  pub meta : MetaOps
  pub remove_finalizer : String → List String → List String × Bool
  pub staleness_threshold : ℤ

pub record ReaperWorld (Q : Type 0) : Type 0 where
  pub run : Answer (Run Q)
  pub pod : Answer Pod
  pub object_update : UpdateAnswer
  pub status_update : UpdateAnswer
  pub now : ℕ

-- The object writes and the status writes that were sent, and the reply.
pub data ReaperReply : Type 0 where
  reaped : ReaperReply
  ignored : ReaperReply
  check_after : ℤ → ReaperReply
  reaper_failed : ReaperReply

pub record ReaperOutcome (Q : Type 0) : Type 0 where
  pub object_writes : List (Run Q)
  pub status_writes : List (Run Q)
  pub reply : ReaperReply

unfoldable pub is_stale_monitored_run_phase : RunPhase → Bool
is_stale_monitored_run_phase running = true
is_stale_monitored_run_phase ready = true
is_stale_monitored_run_phase finalizing = true
is_stale_monitored_run_phase _ = false

abbrev is_true : ConditionStatus → Bool
is_true true_status = true
is_true _ = false

abbrev is_failed : RunPhase → Bool
is_failed failed = true
is_failed _ = false

module _ (r : Reaper) where
  -- The first Ready condition decides.
  ready_state : Pod → ℕ → List PodCondition → Bool × String × String
  ready_state pod now [] = (false, "", "")
  ready_state pod now (cond ∷ conditions) =
      let rest = ready_state pod now conditions in
      if not (cond.type == pod_ready)
      then rest
      else if not (is_true cond.status)
      then (
        leb_ℤ r.staleness_threshold (pos 0)
            || ltb_ℤ r.staleness_threshold (sub_ℕ now cond.last_transition_time),
        reason_pod_unhealthy,
        "assigned pod is not ready",
      )
      else if not (fresh_runtimed_ready pod now r.staleness_threshold)
      then (true, reason_pod_unhealthy, "assigned pod runtimed heartbeat is stale")
      else (false, "", "")

  unfoldable pub stale_pod_state : Pod → ℕ → Bool × String × String
  unfolding ready_state
  stale_pod_state pod now =
      if is_some pod.deletion_timestamp
      then (true, reason_pod_terminating, "assigned pod is terminating")
      else ready_state pod now pod.conditions

  module _ {Q : Type 0} (now : ℕ) where
    -- handleStaleRun: the new status.
    unfoldable pub settle : Run Q → String → String → Run Q
    settle run reason message =
        let cur_attempt = current_attempt run.status.attempt in
        if should_retry (with_defaults run.spec.retry_policy) cur_attempt reason
        then record run {
          status = record (run.status) {
            attempt = next_attempt run.status.attempt;
            phase = pending;
            assigned_pod = "";
            assigned_pod_uid = "";
            start_time = none;
            conditions =
                r.meta.set_status_condition now run.status.conditions
                  (lowered condition_running reason message);
          };
        }
        else set_terminal r.meta now
            (record run { status = record (run.status) { attempt = cur_attempt } }) failed reason
            message now

  module _ {Q : Type 0} (world : ReaperWorld Q) where
    write_status : List (Run Q) → Run Q → UpdateAnswer → ReaperOutcome Q
    write_status objects run updated = record {
      object_writes = objects;
      status_writes = run ∷ [];
      reply = reaped;
    }
    write_status objects run _ = record {
      object_writes = objects;
      status_writes = run ∷ [];
      reply = reaper_failed;
    }

    write_both : Run Q → UpdateAnswer → ReaperOutcome Q
    unfolding write_status
    write_both run updated = write_status (run ∷ []) run world.status_update
    write_both run _ = record {
      object_writes = run ∷ [];
      status_writes = [];
      reply = reaper_failed;
    }

    abbrev pub is_abandoned : Run Q → String → Bool
    is_abandoned run reason =
        is_failed run.status.phase
        && (reason == reason_pod_gone || reason == reason_pod_terminating)

    -- A Run that failed with its Pod loses the cleanup finalizer before its status is written.
    persist : Run Q → String → ReaperOutcome Q
    unfolding write_both
    persist run reason =
        let (finalizers, removed) =
          r.remove_finalizer registration_cleanup_finalizer run.finalizers in
        if is_abandoned run reason && removed
        then write_both (record run { finalizers = finalizers }) world.object_update
        else write_status [] run world.status_update

    unfoldable pub handle_stale_run : Run Q → String → String → ReaperOutcome Q
    unfolding persist settle
    handle_stale_run run reason message = persist (settle world.now run reason message) reason

    abbrev no_write : ReaperReply → ReaperOutcome Q
    no_write reply = record { object_writes = []; status_writes = []; reply = reply }

    with_pod : Run Q → Answer Pod → ReaperOutcome Q
    unfolding handle_stale_run stale_pod_state
    with_pod run not_found = handle_stale_run run reason_pod_gone "assigned pod was deleted"
    with_pod run unavailable = no_write reaper_failed
    with_pod run (found pod) =
        if not (run.status.assigned_pod_uid == "") && not (pod.uid == run.status.assigned_pod_uid)
        then handle_stale_run run reason_pod_gone "assigned pod was replaced"
        else (let (stale, reason, message) = stale_pod_state pod world.now in
            if stale
            then handle_stale_run run reason message
            else no_write (check_after r.staleness_threshold))

    with_run : Answer (Run Q) → ReaperOutcome Q
    unfolding with_pod is_stale_monitored_run_phase
    with_run not_found = no_write ignored
    with_run unavailable = no_write reaper_failed
    with_run (found run) =
        if not (is_stale_monitored_run_phase run.status.phase) || run.status.assigned_pod == ""
        then no_write ignored
        else with_pod run world.pod

    -- StaleRunReaper.Reconcile
    unfoldable pub reap : ReaperOutcome Q
    unfolding with_run
    reap = with_run world.run
