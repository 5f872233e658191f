-- ===== src/Scheduler/Usage.antt =====
-- RunReconciler.assignedRunUsage and pendingRetryDelay of internal/scheduler/reconciler.go.
pub mod Sums
use kruntimes.Base.{
  ℕ, ◌+◌, String, string_eq, ◌==◌, Bool, true, false, List, [], ◌∷◌, Option, none, some,
  if◌then◌else◌,
}
use kruntimes.Base.Int.{ℤ, pos, sub_ℕ, leb_ℤ, ◌+ℤ◌}
use kruntimes.Base.Maps.{insert}
use kruntimes.Base.Results.{Result, ok, err}
use kruntimes.Api.Quantity.{QuantityOps, ResourceList}
use kruntimes.Api.Conditions.{Condition, ConditionStatus, false_status, MetaOps}
use kruntimes.Api.Run.{Run, RunPhase, pending}
use kruntimes.Api.Resources.{InvalidRequest, resource_requests}
use kruntimes.Retry.{with_defaults, backoff_delay}
use kruntimes.RunStatus.{condition_running}
use kruntimes.Scheduler.Types.{UsageByPod, consumes_runtime_capacity}
use kruntimes.Scheduler.Cache.{resources_at, add_usage}

module _ {Q : Type 0} (k : QuantityOps Q) where
  -- A Run whose requests are invalid leaves an entry for its Pod and no more.
  add_requests : UsageByPod Q → String → Result InvalidRequest (ResourceList Q) → UsageByPod Q
  add_requests usage pod_name (ok requests) = add_usage k usage pod_name requests
  add_requests usage pod_name (err _) = insert pod_name (resources_at pod_name usage) usage

  unfoldable pub assigned_run_usage : List (Run Q) → UsageByPod Q → UsageByPod Q
  unfolding add_requests consumes_runtime_capacity
  assigned_run_usage [] usage = usage
  assigned_run_usage (run ∷ runs) usage = assigned_run_usage runs (
      if run.status.assigned_pod == ""
      then usage
      else if consumes_runtime_capacity run.status.phase
      then add_requests usage run.status.assigned_pod (resource_requests k run.spec)
      else usage)

abbrev is_pending : RunPhase → Bool
is_pending pending = true
is_pending _ = false

abbrev is_false : ConditionStatus → Bool
is_false false_status = true
is_false _ = false

-- `time.Until` of the transition time and a delay.
delay_from : Option Condition → ℕ → ℤ → ℤ
delay_from none now delay = pos 0
delay_from (some cond) now delay =
    if is_false cond.status then sub_ℕ cond.last_transition_time now +ℤ delay else pos 0

unfoldable pub pending_retry_delay : {Q : Type 0} → MetaOps → (ℤ → ℤ) → ℕ → Run Q → ℤ
unfolding delay_from
pending_retry_delay m out_of_range now run =
    if is_pending run.status.phase
    then (if leb_ℤ run.status.attempt (pos 1)
        then pos 0
        else delay_from (m.find_status_condition run.status.conditions condition_running) now
            (backoff_delay out_of_range (with_defaults run.spec.retry_policy) run.status.attempt))
    else pos 0
