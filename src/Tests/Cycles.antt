-- ===== src/Tests/Cycles.antt =====
-- The theorems on Reconcile at one Run and one worker Pod.
use kruntimes.Base.{string_eq, ◌≡◌, refl, arith, [], ◌∷◌, none, ◌⊎◌}
use kruntimes.Base.Int.{ℤ, pos, negsuc}
use kruntimes.Base.Results.{ok}
use kruntimes.Api.Run.{Run, mode_name}
use kruntimes.Scheduler.Cache.{observe}
use kruntimes.Scheduler.Framework.{bind}
use kruntimes.Scheduler.Environment.{Scheduler, World, found, not_found, updated, requeue}
use kruntimes.Scheduler.Reconcile.{apply_plan, reconcile}
use kruntimes.Scheduler.Reconcile.Assignment.{BindOutcome, apply_plan-bind}
use kruntimes.Scheduler.Reconcile.Guards.{reconcile_past_pending}
use kruntimes.Scheduler.Reconcile.Soundness.{IsEligible, IsCycle, reconcile_assigns}
use kruntimes.Base.Sort.{Member}
use kruntimes.Api.Run.{scheduled}
use kruntimes.Scheduler.Reconcile.{assign_to}
use kruntimes.Scheduler.Framework.{
  plan_scheduling_cycle, registered_filter_plugins, default_filters, default_scores, candidates_of,
  run_filters, rejections_of,
}
use kruntimes.Scheduler.Affinity.{
  new_run_affinity, affinity_filter, build, build_rules, matching_pods, preferred_score, prepare,
}
use kruntimes.Scheduler.Score.{
  registered_score_plugins, normalize_by_maximum, preferred_affinity_plugin, raw_scores,
  scale_scores, rank, score_all, score_and_rank, accumulate, add_score, attach, ranks_before,
}
use kruntimes.Scheduler.Filters.{
  workspace_filter, new_workspace_filter, availability_filter, default_capacity, is_pod_schedulable,
  is_runtime_pod_available, pod_capacity, ready_condition,
}
use kruntimes.RuntimePod.{
  fresh_runtimed_ready, fits, capacity_of, find_pod_condition, find_runtimed_ready,
  read_annotations,
}
use kruntimes.Base.Maps.{lookup, insert}
use kruntimes.Base.Text.{cut_prefix}
use kruntimes.Base.Int.{◌+ℤ◌}
use kruntimes.Base.Sort.{insert_by, sort_by}
use kruntimes.Scheduler.LeastLoaded.{
  assign_groups, capacity_score, compare_score, group_scores, least_loaded_plugin,
  normalize_least_loaded, rank_scores, resource_capacity_score, assign,
}
use kruntimes.Scheduler.Reconcile.{plan_for, run_cycle, schedule, consider, reserve_pod}
use kruntimes.Scheduler.Cache.{
  snapshot, sync_locked, sync_reservations, by_key, still_assumed, usage_locked, add_reservations,
  merge_usage, add_usage, add_resources, targets_of_runs, targets_of_reservations,
  is_active_affinity_target, reserve, assume_locked,
}
use kruntimes.Scheduler.Types.{consumes_runtime_capacity}
use kruntimes.Scheduler.Usage.{assigned_run_usage, pending_retry_delay}
use kruntimes.Api.Resources.{resource_requests, collect_requests, with_runs}
use kruntimes.Api.Run.{has_immediate_termination}
use kruntimes.Base.{inl}
use kruntimes.Tests.Samples.{
  whole, listed_conditions, worker, waiting_run, assigned_run, shown, assumed,
}

abbrev local : Scheduler ℤ
local = record {
  quantities = whole;
  meta = listed_conditions;
  parse = λ _. none;
  out_of_range = λ _. negsuc 9223372036854775807;
  stale_after = pos 1000;
  plan_error_text = λ _. "no plan";
  invalid_request_text = λ _. "invalid request";
  filter_registrations = [];
  score_registrations = [];
}

abbrev world_of : Run ℤ → World ℤ
world_of run = record {
  run = found run;
  mode_update = updated;
  pods = found (worker ∷ []);
  workspace = not_found;
  runs = found (assigned_run ∷ waiting_run ∷ []);
  status_update = updated;
  now = 200;
}

apply_plan-bind_example :
    let o = apply_plan local (world_of waiting_run) waiting_run shown assumed (ok (bind worker)) in
    (o.writes ≡ []) × (o.reply ≡ requeue)
    ⊎ BindOutcome local (world_of waiting_run) waiting_run shown worker assumed o
apply_plan-bind_example =
    apply_plan-bind local (world_of waiting_run) waiting_run shown worker assumed refl

reconcile_past_pending_example :
    let o = reconcile local (world_of assigned_run) assumed in
    (o.cache ≡ observe assigned_run assumed)
    × ((o.writes ≡ [])
        ⊎ (o.writes
            ≡ record assigned_run {
              status = record (assigned_run.status) { mode = mode_name assigned_run.spec.mode };
            }
              ∷ []))
reconcile_past_pending_example =
    reconcile_past_pending local (world_of assigned_run) assigned_run assumed refl refl

abbrev scheduled_run : Run ℤ
scheduled_run = assign_to local (world_of waiting_run) waiting_run worker

assignment_written : Member scheduled_run (reconcile local (world_of waiting_run) assumed).writes
unfolding plan_scheduling_cycle registered_filter_plugins default_filters default_scores
    candidates_of run_filters rejections_of new_run_affinity affinity_filter build build_rules
    matching_pods preferred_score prepare registered_score_plugins normalize_by_maximum
    preferred_affinity_plugin raw_scores scale_scores rank score_all score_and_rank accumulate
    add_score attach ranks_before workspace_filter new_workspace_filter availability_filter
    default_capacity is_pod_schedulable is_runtime_pod_available pod_capacity ready_condition
    fresh_runtimed_ready fits capacity_of find_pod_condition find_runtimed_ready read_annotations
    lookup insert cut_prefix ◌+ℤ◌ insert_by sort_by assign_groups capacity_score compare_score
    group_scores least_loaded_plugin normalize_least_loaded rank_scores resource_capacity_score
    assign reconcile apply_plan plan_for run_cycle schedule consider reserve_pod assign_to snapshot
    sync_locked sync_reservations by_key still_assumed usage_locked add_reservations merge_usage
    add_usage add_resources targets_of_runs targets_of_reservations is_active_affinity_target
    reserve assume_locked observe consumes_runtime_capacity assigned_run_usage pending_retry_delay
    resource_requests collect_requests with_runs mode_name has_immediate_termination
assignment_written = inl refl

scheduled_run_phase : scheduled_run.status.phase ≡ scheduled
unfolding assign_to
scheduled_run_phase = refl

reconcile_assigns_example :
    IsEligible local (world_of waiting_run) waiting_run
    × IsCycle local (world_of waiting_run) waiting_run (observe waiting_run assumed) scheduled_run
reconcile_assigns_example =
    reconcile_assigns local (world_of waiting_run) waiting_run scheduled_run assumed refl
      (λ e. absurd (ground arith)) assignment_written scheduled_run_phase
