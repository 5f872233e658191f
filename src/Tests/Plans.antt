-- ===== src/Tests/Plans.antt =====
-- The theorems on filters, scores and plans at one worker Pod.
use kruntimes.Base.{
  String, string_eq, ◌≡◌, refl, arith, Bool, true, false, List, [], ◌∷◌, none, some, All, ◌↔◌, ◌==◌,
  ◌&&◌, all,
}
use kruntimes.Base.Int.{ℤ, pos, ◌+ℤ◌}
use kruntimes.Base.Results.{Result, ok}
use kruntimes.Base.Maps.{lookup, insert}
use kruntimes.Api.Run.{Run, RunAffinity, topology_runtime_pod, RunWorkspaceReference}
use kruntimes.Api.Workspace.{PersistentWorkspace, bound_workspace, delete_after_ttl}
use kruntimes.RuntimePod.{
  fits, fresh_runtimed_ready, capacity_of, find_pod_condition, find_runtimed_ready,
  read_annotations,
}
use kruntimes.Scheduler.Types.{SchedulingSnapshot, feasible, runtime_pod_unavailable}
use kruntimes.Scheduler.Framework.{
  PlanError, SchedulingPlan, wait, bind, plan_scheduling_cycle, default_filters, default_scores,
  registered_filter_plugins, candidates_of, run_filters, rejections_of, waiting_message,
}
use kruntimes.Scheduler.Framework.Outcome.{default_plan, plan-bind, plan-wait, IsPrepared}
use kruntimes.Scheduler.Framework.Plan.{IsFeasible}
use kruntimes.Scheduler.Affinity.{
  SelectorParser, PreparedAffinity, new_run_affinity, affinity_filter, build, build_rules,
  matching_pods, preferred_score, prepare,
}
use kruntimes.Base.Sort.{Member, insert_by, sort_by}
use kruntimes.Base.Text.{cut_prefix}
use kruntimes.Scheduler.Filters.{
  workspace_filter, new_workspace_filter, availability_filter, default_capacity, is_pod_schedulable,
  is_runtime_pod_available, pod_capacity, ready_condition,
}
use kruntimes.Scheduler.Score.{
  registered_score_plugins, normalize_by_maximum, preferred_affinity_plugin, raw_scores,
  scale_scores, rank, score_all, score_and_rank, accumulate, add_score, attach, ranks_before,
  RegisteredScorePlugin, ScoredPod,
}
use kruntimes.Scheduler.LeastLoaded.{
  assign, assign_groups, capacity_score, compare_score, group_scores, least_loaded_plugin,
  normalize_least_loaded, rank_scores, resource_capacity_score,
}
use kruntimes.Scheduler.Affinity.Placement.{
  affinity_filter-eq, is_feasible, attracts, repels, affinity_terms, anti_affinity_terms,
}
use kruntimes.Scheduler.Filters.Workspace.{IsBoundTo, workspace_filter_iff}
use kruntimes.Scheduler.Score.Bounds.{score_all-FitsInt64, FitsInt64}
use kruntimes.Scheduler.Score.Ranking.{IsRanking, score_and_rank-IsRanked}
use kruntimes.Tests.Samples.{four_slots, shown, whole, worker, waiting_run}

-- Plans.

abbrev Plan : Type 0
Plan = Result PlanError SchedulingPlan

abbrev parse_none : SelectorParser
parse_none selector = some (λ labels. true)

planned : default_plan whole (pos 1000) parse_none shown (default_scores whole) ≡ ok (bind worker)
unfolding plan_scheduling_cycle new_run_affinity registered_filter_plugins default_filters
    registered_score_plugins default_scores candidates_of run_filters workspace_filter
    new_workspace_filter availability_filter fresh_runtimed_ready fits lookup capacity_of cut_prefix
    insert ◌+ℤ◌ insert_by sort_by find_pod_condition find_runtimed_ready read_annotations
    affinity_filter build build_rules matching_pods preferred_score prepare default_capacity
    is_pod_schedulable is_runtime_pod_available pod_capacity ready_condition rejections_of
    assign_groups capacity_score compare_score group_scores least_loaded_plugin
    normalize_least_loaded rank_scores resource_capacity_score normalize_by_maximum
    preferred_affinity_plugin raw_scores scale_scores rank score_all score_and_rank accumulate
    add_score attach ranks_before assign
planned = refl

plan-bind_example :
    (affinity : PreparedAffinity) × IsPrepared whole
      (pos 1000)
      parse_none
      shown
      (default_scores whole)
      affinity
    × Member worker (worker ∷ [])
    × IsFeasible whole (pos 1000) shown affinity worker
plan-bind_example =
    plan-bind whole (pos 1000) parse_none shown (default_scores whole) worker planned

abbrev crowded : SchedulingSnapshot ℤ
crowded = record shown { request = four_slots }

abbrev waits_for_pods : String
waits_for_pods = waiting_message waiting_run (runtime_pod_unavailable ∷ [])

crowded_waits :
    default_plan whole (pos 1000) parse_none crowded (default_scores whole)
    ≡ ok (wait waits_for_pods)
unfolding plan_scheduling_cycle new_run_affinity registered_filter_plugins default_filters
    registered_score_plugins default_scores candidates_of run_filters workspace_filter
    new_workspace_filter availability_filter fresh_runtimed_ready fits lookup capacity_of cut_prefix
    insert ◌+ℤ◌ insert_by sort_by find_pod_condition find_runtimed_ready read_annotations
    affinity_filter build build_rules matching_pods preferred_score prepare default_capacity
    is_pod_schedulable is_runtime_pod_available pod_capacity ready_condition rejections_of
    assign_groups capacity_score compare_score group_scores least_loaded_plugin
    normalize_least_loaded rank_scores resource_capacity_score normalize_by_maximum
    preferred_affinity_plugin raw_scores scale_scores rank score_all score_and_rank accumulate
    add_score attach ranks_before assign
crowded_waits = refl

plan-wait_example :
    (affinity : PreparedAffinity) × IsPrepared whole
      (pos 1000)
      parse_none
      crowded
      (default_scores whole)
      affinity
    × All (λ pod. ¬ IsFeasible whole (pos 1000) crowded affinity pod) (worker ∷ [])
plan-wait_example =
    plan-wait whole (pos 1000) parse_none crowded (default_scores whole) waits_for_pods
      crowded_waits

abbrev beside_job : RunAffinity
beside_job = record {
  run_affinity = some (record {
    required = record { label_selector = some "app=job"; topology_key = topology_runtime_pod } ∷ [];
    preferred = [];
  });
  run_anti_affinity = none;
}

abbrev attracted_run : Run ℤ
attracted_run = record waiting_run {
  spec = record (waiting_run.spec) { affinity = some beside_job };
}

abbrev has_app : List (String × String) → Bool
has_app [] = false
has_app ((key, _) ∷ _) = key == "app"

abbrev parse_app : SelectorParser
parse_app selector = some has_app

abbrev prepared : PreparedAffinity
prepared = record {
  required = record { weight = pos 0; pods = ("worker-0", true) ∷ []; seedable = false } ∷ [];
  required_anti = [];
  preferred = [];
  preferred_anti = [];
}

prepared_lem : new_run_affinity parse_app attracted_run shown.affinity_targets ≡ ok prepared
unfolding new_run_affinity prepare build_rules build matching_pods insert
prepared_lem = refl

affinity_filter-eq_example : is_feasible (affinity_filter prepared "worker-0") ≡ (
    all
      (attracts parse_app attracted_run.labels shown.affinity_targets "worker-0")
      (affinity_terms attracted_run.spec.affinity)
    && all
        (repels parse_app attracted_run.labels shown.affinity_targets "worker-0")
        (anti_affinity_terms attracted_run.spec.affinity))
affinity_filter-eq_example =
    affinity_filter-eq parse_app attracted_run shown.affinity_targets prepared "worker-0"
      prepared_lem

abbrev bound : PersistentWorkspace
bound = record {
  name = "data";
  namespace = "default";
  uid = "workspace-uid";
  generation = 1;
  finalizers = [];
  deletion_timestamp = none;
  spec = record {
    runtime = "bash";
    ttl_seconds_after_unused = none;
    cleanup_policy = delete_after_ttl;
  };
  status = record {
    phase = bound_workspace;
    runtime = "bash";
    bound_pod = "worker-0";
    bound_pod_uid = "uid-0";
    path = "";
    last_used_time = none;
    conditions = [];
  };
}

abbrev data_reference : RunWorkspaceReference
data_reference = record { name = "data"; kind = "PersistentWorkspace"; api_group = "kruntimes.io" }

abbrev with_data : SchedulingSnapshot ℤ
with_data = record shown {
  run = record waiting_run { spec = record (waiting_run.spec) { workspace = some data_reference } };
  workspace = some bound;
}

workspace_filter_iff_example :
    (workspace_filter (new_workspace_filter with_data) worker ≡ feasible)
    ↔ ((w : PersistentWorkspace) × (some bound ≡ some w) × IsBoundTo w "bash" worker)
workspace_filter_iff_example = workspace_filter_iff with_data worker data_reference refl refl refl

abbrev plugins : List (RegisteredScorePlugin ℤ)
plugins = record { plugin = least_loaded_plugin whole; weight = 3 } ∷ []

scored_lem : score_all shown (worker ∷ []) plugins (0 ∷ []) ≡ ok (300 ∷ [])
unfolding plan_scheduling_cycle new_run_affinity registered_filter_plugins default_filters
    registered_score_plugins default_scores candidates_of run_filters workspace_filter
    new_workspace_filter availability_filter fresh_runtimed_ready fits lookup capacity_of cut_prefix
    insert ◌+ℤ◌ insert_by sort_by find_pod_condition find_runtimed_ready read_annotations
    affinity_filter build build_rules matching_pods preferred_score prepare default_capacity
    is_pod_schedulable is_runtime_pod_available pod_capacity ready_condition rejections_of
    assign_groups capacity_score compare_score group_scores least_loaded_plugin
    normalize_least_loaded rank_scores resource_capacity_score normalize_by_maximum
    preferred_affinity_plugin raw_scores scale_scores rank score_all score_and_rank accumulate
    add_score attach ranks_before assign
scored_lem = refl

score_all-FitsInt64_example : FitsInt64 (300 ∷ [])
score_all-FitsInt64_example =
    score_all-FitsInt64 shown (worker ∷ []) plugins (0 ∷ []) (300 ∷ []) (omega arith, tt)
      (omega arith, tt) scored_lem

abbrev ranking : List ScoredPod
ranking = record { pod = worker; total = 300 } ∷ []

ranked_lem : score_and_rank shown (worker ∷ []) plugins ≡ ok ranking
unfolding plan_scheduling_cycle new_run_affinity registered_filter_plugins default_filters
    registered_score_plugins default_scores candidates_of run_filters workspace_filter
    new_workspace_filter availability_filter fresh_runtimed_ready fits lookup capacity_of cut_prefix
    insert ◌+ℤ◌ insert_by sort_by find_pod_condition find_runtimed_ready read_annotations
    affinity_filter build build_rules matching_pods preferred_score prepare default_capacity
    is_pod_schedulable is_runtime_pod_available pod_capacity ready_condition rejections_of
    assign_groups capacity_score compare_score group_scores least_loaded_plugin
    normalize_least_loaded rank_scores resource_capacity_score normalize_by_maximum
    preferred_affinity_plugin raw_scores scale_scores rank score_all score_and_rank accumulate
    add_score attach ranks_before assign
ranked_lem = refl

score_and_rank-IsRanked_example : IsRanking shown (worker ∷ []) plugins ranking
score_and_rank-IsRanked_example =
    score_and_rank-IsRanked shown (worker ∷ []) plugins ranking ranked_lem
