-- ===== src/Tests/Controllers.antt =====
-- The theorems on the controllers at one Run and one worker Pod.
use kruntimes.Base.{string_eq, ◌≡◌, ◌↔◌, ◌⊎◌, refl, arith, true, false, [], ◌∷◌, some}
use kruntimes.Base.Int.{ℤ, pos, ◌≤ℤ◌}
use kruntimes.Api.Run.{Run, running, failed, succeeded, registration_cleanup_finalizer}
use kruntimes.Retry.{current_attempt, with_defaults}
use kruntimes.RunStatus.Terminal.{IsTerminated}
use kruntimes.RuntimePod.{fresh_runtimed_ready, find_runtimed_ready, find_pod_condition}
use kruntimes.Scheduler.Filters.{is_pod_schedulable, ready_condition}
use kruntimes.Scheduler.Environment.{found, not_found, updated}
use kruntimes.Controller.CompletedRuns.{IsExpired, deleted, collect, collect_iff}
use kruntimes.Controller.StaleReaper.{
  Reaper, ReaperWorld, stale_pod_state, settle, reap, reason_pod_unhealthy,
}
use kruntimes.Controller.StaleReaper.Health.{IsJustified, stale_pod_state-healthy, reap-IsJustified}
use kruntimes.Controller.StaleReaper.Retries.{IsGranted, IsRetried, settle_lem}
use kruntimes.Tests.Samples.{listed_conditions, listed_laws, worker, waiting_run, assigned_run}

abbrev reaper : Reaper
reaper = record {
  meta = listed_conditions;
  remove_finalizer = λ name finalizers. ([], true);
  staleness_threshold = pos 1000;
}

abbrev running_run : Run ℤ
running_run = record assigned_run {
  finalizers = registration_cleanup_finalizer ∷ [];
  status = record (assigned_run.status) { phase = running };
}

abbrev world_without_pod : ReaperWorld ℤ
world_without_pod = record {
  run = found running_run;
  pod = not_found;
  object_update = updated;
  status_update = updated;
  now = 200;
}

worker_schedulable : is_pod_schedulable worker ≡ true
unfolding is_pod_schedulable ready_condition
worker_schedulable = refl

worker_fresh : fresh_runtimed_ready worker 200 (pos 1000) ≡ true
unfolding fresh_runtimed_ready find_runtimed_ready find_pod_condition
worker_fresh = refl

stale_pod_state-healthy_example : (stale_pod_state reaper worker 200).0 ≡ false
stale_pod_state-healthy_example =
    stale_pod_state-healthy reaper worker 200 worker_schedulable worker_fresh

reap-IsJustified_example :
    ((reap reaper world_without_pod).object_writes ≡ [])
      × ((reap reaper world_without_pod).status_writes ≡ [])
    ⊎ IsJustified reaper world_without_pod running_run
reap-IsJustified_example = reap-IsJustified reaper world_without_pod running_run refl

max_attempts_lem : (with_defaults running_run.spec.retry_policy).max_attempts ≤ℤ pos 2147483647
unfolding with_defaults
max_attempts_lem = omega arith

settle_lem_example :
    let new = settle reaper 200 running_run reason_pod_unhealthy "assigned pod is not ready" in
    IsGranted running_run reason_pod_unhealthy
      × IsRetried reaper listed_laws 200 running_run new reason_pod_unhealthy
    ⊎ (¬ IsGranted running_run reason_pod_unhealthy)
      × IsTerminated listed_conditions listed_laws 200 running_run new failed reason_pod_unhealthy
          "assigned pod is not ready" 200
      × (new.status.attempt ≡ current_attempt running_run.status.attempt)
settle_lem_example =
    settle_lem reaper listed_laws 200 running_run reason_pod_unhealthy "assigned pod is not ready"
      max_attempts_lem

abbrev finished_run : Run ℤ
finished_run = record waiting_run {
  spec = record (waiting_run.spec) { ttl_seconds_after_finished = some (pos 1) };
  status = record (waiting_run.status) { phase = succeeded; completion_time = some 500 };
}

collect_iff_example :
    ((collect 2000000000 deleted (found finished_run)).deletes ≡ true)
    ↔ IsExpired 2000000000 deleted finished_run
collect_iff_example = collect_iff 2000000000 deleted finished_run
