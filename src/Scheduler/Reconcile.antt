-- ===== src/Scheduler/Reconcile.antt =====
-- RunReconciler.Reconcile of internal/scheduler/reconciler.go, with bind and the reservation calls
-- of reservation.go. The API server is the environment: `World` holds its answers in the order of
-- the calls. The result holds the cache, the status writes sent, accepted or not, and the reply to
-- the work queue. Logs and metrics are left out.
pub mod Assignment
pub mod Guards
pub mod Soundness
pub mod Ignored
use kruntimes.Base.{
  ℕ, String, string_eq, ◌==◌, Bool, true, false, ◌&&◌, ◌||◌, not, List, [], ◌∷◌, ◌++◌, Option, none,
  some, if◌then◌else◌,
}
use kruntimes.Base.Int.{ℤ, pos, ltb_ℤ}
use kruntimes.Base.Text.{join}
use kruntimes.Base.Results.{Result, ok, err}
use kruntimes.Api.Quantity.{QuantityOps, ResourceList}
use kruntimes.Api.Conditions.{MetaOps, Condition, true_status}
use kruntimes.Api.Pod.{Pod}
use kruntimes.Api.Run.{
  Run, RunPhase, unset, pending, scheduled, failed, cancelled, is_pending_phase, mode_name,
  has_immediate_termination,
}
use kruntimes.Api.Resources.{InvalidRequest, resource_requests}
use kruntimes.Api.Workspace.{PersistentWorkspace}
use kruntimes.Retry.{reason_cancelled}
use kruntimes.RunStatus.{condition_scheduled, set_terminal}
use kruntimes.Scheduler.Types.{SchedulingSnapshot, UsageByPod}
use kruntimes.Scheduler.Cache.{Reservations, observe, release, snapshot, reserve}
use kruntimes.Scheduler.Affinity.{SelectorParser}
use kruntimes.Scheduler.Filters.{is_runtime_pod_available}
use kruntimes.Scheduler.Score.{ScoreRegistration}
use kruntimes.Scheduler.Framework.{
  PlanError, score_plugin_error, FilterFactory, SchedulingPlan, wait, bind, plan_scheduling_cycle,
  default_filters, default_scores,
}
use kruntimes.Scheduler.Usage.{assigned_run_usage, pending_retry_delay}
use kruntimes.Scheduler.Environment.{
  Scheduler, Answer, found, not_found, unavailable, UpdateAnswer, updated, conflict, update_failed,
  World, ReconcileError, get_run, list_pods, get_workspace, list_runs, update_mode, update_status,
  bind_run, planning, Reply, done, requeue, requeue_after, fail, Outcome,
}

module _ {Q : Type 0} where
  abbrev pub stop : Reservations Q → Reply → Outcome Q
  stop cache reply = record { cache = cache; writes = []; reply = reply }

  -- A status write: what follows an accepted one, or the reply to a conflict or an error.
  abbrev pub write :
      Reservations Q → Run Q → UpdateAnswer → Reply → Reply → ReconcileError → Outcome Q
  write cache run updated success conflicted error = record {
    cache = cache;
    writes = run ∷ [];
    reply = success;
  }
  write cache run conflict success conflicted error = record {
    cache = cache;
    writes = run ∷ [];
    reply = conflicted;
  }
  write cache run update_failed success conflicted error = record {
    cache = cache;
    writes = run ∷ [];
    reply = fail error;
  }

  abbrev pub before : Run Q → Outcome Q → Outcome Q
  before run o = record o { writes = run ∷ o.writes }

abbrev pub is_exactly_pending : RunPhase → Bool
is_exactly_pending pending = true
is_exactly_pending _ = false

-- The registrations of the reconciler, or the default ones where it has none.
abbrev pub or_default : {A : Type 0} → List A → List A → List A
or_default [] defaults = defaults
or_default (x ∷ xs) defaults = x ∷ xs

module _ {Q : Type 0} (s : Scheduler Q) (world : World Q) where
  -- bind: the status of a Run that is assigned to a Pod.
  unfoldable pub assign_to : Run Q → Pod → Run Q
  assign_to run pod = record run {
    status = record (run.status) {
      assigned_pod = pod.name;
      assigned_pod_uid = pod.uid;
      phase = scheduled;
      conditions = s.meta.set_status_condition world.now run.status.conditions (record {
        type = condition_scheduled;
        status = true_status;
        reason = "Assigned";
        message = join "assigned to runtime pod " pod.name;
        last_transition_time = world.now;
        observed_generation = 0;
      });
    };
  }

  -- A failed bind gives its reservation back.
  bind_run_to : Run Q → Pod → UpdateAnswer → Reservations Q → Outcome Q
  unfolding assign_to
  bind_run_to run pod updated cache = record {
    cache = cache;
    writes = assign_to run pod ∷ [];
    reply = done;
  }
  bind_run_to run pod conflict cache = record {
    cache = release run cache;
    writes = assign_to run pod ∷ [];
    reply = requeue;
  }
  bind_run_to run pod update_failed cache = record {
    cache = release run cache;
    writes = assign_to run pod ∷ [];
    reply = fail bind_run;
  }

  unfoldable pub reserve_pod : SchedulingSnapshot Q → Pod → Reservations Q → Reservations Q × Bool
  reserve_pod snap pod cache =
      reserve s.quantities snap pod
        (λ usage.
          is_runtime_pod_available s.quantities s.stale_after pod snap.now usage snap.request)
        cache

  unfoldable pub waiting : Run Q → String → Reservations Q → Outcome Q
  waiting run message cache =
      let waits = requeue_after (pos 30000000000) in
      if not (is_exactly_pending run.status.phase) || not (run.status.message == message)
      then write cache
          (record run { status = record (run.status) { phase = pending; message = message } })
          world.status_update waits (fail update_status) update_status
      else stop cache waits

  unfoldable pub apply_plan :
      Run Q → SchedulingSnapshot Q → Reservations Q → Result PlanError SchedulingPlan → Outcome Q
  unfolding bind_run_to reserve_pod waiting
  apply_plan run snap cache (err (score_plugin_error e)) =
      stop cache (fail (planning (score_plugin_error e)))
  apply_plan run snap cache (err e) =
      write cache
        (record run {
          status = record (run.status) {
            phase = failed;
            message = join "pod selection failed: " (s.plan_error_text e);
          };
        })
        world.status_update done requeue update_status
  apply_plan run snap cache (ok (wait message)) = waiting run message cache
  apply_plan run snap cache (ok (bind pod)) =
      let (reserved, granted) = reserve_pod snap pod cache in
      if granted then bind_run_to run pod world.status_update reserved else stop reserved requeue

  unfoldable pub plan_for : SchedulingSnapshot Q → Result PlanError SchedulingPlan
  plan_for snap =
      plan_scheduling_cycle s.parse snap
        (or_default s.filter_registrations (default_filters s.quantities s.stale_after))
        (or_default s.score_registrations (default_scores s.quantities))

  -- Snapshot and plan, once the reads of the API have answered.
  unfoldable pub run_cycle :
      Run Q
      → ResourceList Q
      → List Pod
      → Option PersistentWorkspace
      → List (Run Q)
      → Reservations Q
      → Outcome Q
  unfolding apply_plan plan_for
  run_cycle run request pods workspace runs cache =
      let actual = assigned_run_usage s.quantities runs [] in
      let (synced, usage, targets) = snapshot s.quantities actual runs cache in
      let snap : SchedulingSnapshot Q = record {
        run = run;
        request = request;
        pods = pods;
        actual_usage_by_pod = actual;
        usage_by_pod = usage;
        runs = runs;
        affinity_targets = targets;
        workspace = workspace;
        now = world.now;
      } in
      apply_plan run snap synced (plan_for snap)

  with_runs_listed :
      Run Q
      → ResourceList Q
      → List Pod
      → Option PersistentWorkspace
      → Answer (List (Run Q))
      → Reservations Q
      → Outcome Q
  unfolding run_cycle
  with_runs_listed run request pods workspace (found runs) cache =
      run_cycle run request pods workspace runs cache
  with_runs_listed run request pods workspace not_found cache = stop cache (fail list_runs)
  with_runs_listed run request pods workspace unavailable cache = stop cache (fail list_runs)

  with_workspace :
      Run Q → ResourceList Q → List Pod → Answer PersistentWorkspace → Reservations Q → Outcome Q
  unfolding with_runs_listed
  with_workspace run request pods (found w) cache =
      with_runs_listed run request pods (some w) world.runs cache
  with_workspace run request pods not_found cache =
      with_runs_listed run request pods none world.runs cache
  with_workspace run request pods unavailable cache = stop cache (fail get_workspace)

  with_pods : Run Q → ResourceList Q → Answer (List Pod) → Reservations Q → Outcome Q
  unfolding with_workspace with_runs_listed
  with_pods run request (found pods) cache = elim run.spec.workspace [
    | none ↦ with_runs_listed run request pods none world.runs cache
    | some _ ↦ with_workspace run request pods world.workspace cache
  ]
  with_pods run request not_found cache = stop cache (fail list_pods)
  with_pods run request unavailable cache = stop cache (fail list_pods)

  -- Behind the resource requests.
  unfoldable pub schedule :
      Run Q → Result InvalidRequest (ResourceList Q) → Reservations Q → Outcome Q
  unfolding with_pods
  schedule run (err e) cache =
      write cache
        (set_terminal s.meta world.now run failed "InvalidResources" (s.invalid_request_text e)
          world.now)
        world.status_update done requeue update_status
  schedule run (ok request) cache =
      let delay = pending_retry_delay s.meta s.out_of_range world.now run in
      if ltb_ℤ (pos 0) delay
      then stop cache (requeue_after delay)
      else with_pods run request world.pods cache

  -- The guards on the Run.
  unfoldable pub consider : Run Q → Reservations Q → Outcome Q
  unfolding schedule
  consider run cache =
      if not (is_pending_phase run.status.phase)
      then stop cache done
      else if run.spec.runtime == ""
      then stop cache done
      else if has_immediate_termination run.spec
      then write cache
          (set_terminal s.meta world.now run cancelled reason_cancelled "cancelled by user"
            world.now)
          world.status_update done requeue update_status
      else schedule run (resource_requests s.quantities run.spec) cache

  abbrev start_phase : RunPhase → RunPhase
  start_phase unset = pending
  start_phase p = p

  unfoldable pub with_mode : Run Q → Run Q
  with_mode run = record run {
    status = record (run.status) {
      mode = mode_name run.spec.mode;
      phase = start_phase run.status.phase;
    };
  }

  after_mode : Run Q → UpdateAnswer → Reservations Q → Outcome Q
  unfolding consider
  after_mode run updated cache = before run (consider run cache)
  after_mode run conflict cache = record { cache = cache; writes = run ∷ []; reply = requeue }
  after_mode run update_failed cache = record {
    cache = cache;
    writes = run ∷ [];
    reply = fail update_mode;
  }

  reconcile_found : Run Q → Reservations Q → Outcome Q
  unfolding after_mode consider with_mode
  reconcile_found run cache =
      let name = mode_name run.spec.mode in
      if not (name == "") && not (run.status.mode == name)
      then after_mode (with_mode run) world.mode_update cache
      else consider run cache

  reconcile_answer : Answer (Run Q) → Reservations Q → Outcome Q
  unfolding reconcile_found
  reconcile_answer (found run) cache = reconcile_found run (observe run cache)
  reconcile_answer not_found cache = stop cache done
  reconcile_answer unavailable cache = stop cache (fail get_run)

  unfoldable pub reconcile : Reservations Q → Outcome Q
  unfolding reconcile_answer
  reconcile cache = reconcile_answer world.run cache
