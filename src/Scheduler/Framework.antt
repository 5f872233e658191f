-- ===== src/Scheduler/Framework.antt =====
-- internal/scheduler/framework.go: one scheduling cycle over a snapshot, from the filters over the
-- scores to the plan. Metrics are left out. The names in messages need no escaping by %q.
pub mod Plan
pub mod Outcome
use kruntimes.Base.{
  ℕ, String, string_eq, ◌==◌, Bool, true, false, List, [], ◌∷◌, Option, none, some, any,
  if◌then◌else◌,
}
use kruntimes.Base.Int.{ℤ, pos}
use kruntimes.Base.Text.{quote, join}
use kruntimes.Base.Results.{Result, ok, err, ◌>>=◌}
use kruntimes.Api.Quantity.{QuantityOps}
use kruntimes.Api.Pod.{Pod}
use kruntimes.Api.Run.{Run, RunWorkspaceReference}
use kruntimes.Scheduler.Types.{
  SchedulingSnapshot, FilterReason, runtime_pod_unavailable, workspace_not_found,
  workspace_runtime_mismatch, workspace_unbound, workspace_lost, workspace_released,
  workspace_bound_pod_mismatch, unsatisfied_run_affinity, unsatisfied_run_anti_affinity,
  FilterResult, feasible, rejected,
}
use kruntimes.Scheduler.Affinity.{
  AffinityError, PreparedAffinity, SelectorParser, new_run_affinity, affinity_filter,
}
use kruntimes.Scheduler.Filters.{new_workspace_filter, workspace_filter, availability_filter}
use kruntimes.Scheduler.Score.{
  ScoreError, ScorePlugin, ScoreRegistration, RegisteredScorePlugin, ScoredPod,
  registered_score_plugins, score_and_rank, preferred_affinity_plugin,
}
use kruntimes.Scheduler.LeastLoaded.{least_loaded_plugin}

pub data PlanError : Type 0 where
  affinity_error : AffinityError → PlanError
  nil_filter_factory nil_filter_plugin : PlanError
  score_plugin_error : ScoreError → PlanError
  -- scoreAndRankPods without candidates; not a scorePluginError
  nothing_to_score : PlanError

pub record FilterPlugin (Q : Type 0) : Type 0 where
  pub name : String
  pub filter : SchedulingSnapshot Q → Pod → FilterResult

-- The factory may be nil, fail, or return nil.
abbrev pub FilterFactory : Type 0 → Type 0
FilterFactory Q =
    SchedulingSnapshot Q → PreparedAffinity → Result PlanError (Option (FilterPlugin Q))

-- `schedulingPlan`: its action, with the selected Pod or the message.
pub data SchedulingPlan : Type 0 where
  wait : String → SchedulingPlan
  bind : Pod → SchedulingPlan

module _ {Q : Type 0} (snapshot : SchedulingSnapshot Q) (affinity : PreparedAffinity) where
  made_filter : Option (FilterPlugin Q) → Result PlanError (FilterPlugin Q)
  made_filter none = err nil_filter_plugin
  made_filter (some plugin) = ok plugin

  register_filter : Option (FilterFactory Q) → Result PlanError (FilterPlugin Q)
  unfolding made_filter
  register_filter none = err nil_filter_factory
  register_filter (some factory) = do plugin ← factory snapshot affinity; made_filter plugin

  unfoldable pub registered_filter_plugins :
      List (Option (FilterFactory Q)) → Result PlanError (List (FilterPlugin Q))
  unfolding register_filter
  registered_filter_plugins [] = ok []
  registered_filter_plugins (r ∷ registrations) = do
    plugin ← register_filter r
    plugins ← registered_filter_plugins registrations
    ok (plugin ∷ plugins)

module _ {Q : Type 0} (snapshot : SchedulingSnapshot Q) where
  -- The inner loop: the first rejection decides.
  unfoldable pub run_filters : List (FilterPlugin Q) → Pod → FilterResult
  run_filters [] pod = feasible
  run_filters (f ∷ filters) pod =
      let rest = run_filters filters pod in
      elim (f.filter snapshot pod) [ feasible ↦ rest | rejected reason ↦ rejected reason ]

  keep_candidate : FilterResult → Pod → List Pod → List Pod
  keep_candidate feasible pod rest = pod ∷ rest
  keep_candidate (rejected _) pod rest = rest

  note_rejection : FilterResult → List FilterReason → List FilterReason
  note_rejection feasible rest = rest
  note_rejection (rejected reason) rest = reason ∷ rest

  -- The loop over the Pods, as its two results: the candidates, and the reasons of the others.
  unfoldable pub candidates_of : List (FilterPlugin Q) → List Pod → List Pod
  unfolding keep_candidate
  candidates_of filters [] = []
  candidates_of filters (pod ∷ pods) =
      keep_candidate (run_filters filters pod) pod (candidates_of filters pods)

  unfoldable pub rejections_of : List (FilterPlugin Q) → List Pod → List FilterReason
  unfolding note_rejection
  rejections_of filters [] = []
  rejections_of filters (pod ∷ pods) =
      note_rejection (run_filters filters pod) (rejections_of filters pods)

abbrev reason_eq : FilterReason → FilterReason → Bool
reason_eq runtime_pod_unavailable runtime_pod_unavailable = true
reason_eq workspace_not_found workspace_not_found = true
reason_eq workspace_runtime_mismatch workspace_runtime_mismatch = true
reason_eq workspace_unbound workspace_unbound = true
reason_eq workspace_lost workspace_lost = true
reason_eq workspace_released workspace_released = true
reason_eq workspace_bound_pod_mismatch workspace_bound_pod_mismatch = true
reason_eq unsatisfied_run_affinity unsatisfied_run_affinity = true
reason_eq unsatisfied_run_anti_affinity unsatisfied_run_anti_affinity = true
reason_eq _ _ = false

-- rejections[reason] > 0
abbrev was_rejected : FilterReason → List FilterReason → Bool
was_rejected reason rejections = any (λ r. reason_eq r reason) rejections

-- A text before and a text after a quoted name.
abbrev around : String → String → String → String
around before name after = join before (join (quote name) after)

pods_message : String → List FilterReason → String
pods_message runtime rejections =
    if was_rejected unsatisfied_run_affinity rejections
    then around "waiting for available runtime pods satisfying required Run affinity for runtime "
        runtime ""
    else if was_rejected unsatisfied_run_anti_affinity rejections
    then around
        "waiting for available runtime pods satisfying required Run anti-affinity for runtime "
        runtime ""
    else around "waiting for available runtime pods for runtime " runtime ""

workspace_message : String → Option RunWorkspaceReference → List FilterReason → String
unfolding pods_message
workspace_message runtime none rejections = pods_message runtime rejections
workspace_message runtime (some w) rejections =
    let subject : String = "waiting for referenced PersistentWorkspace " in
    if was_rejected workspace_not_found rejections
    then around subject w.name " to exist"
    else if was_rejected workspace_runtime_mismatch rejections
    then around subject w.name (around " to match runtime " runtime "")
    else if was_rejected workspace_unbound rejections
    then around subject w.name " to bind"
    else if was_rejected workspace_lost rejections
    then around subject w.name " to be replaced after it was lost"
    else if was_rejected workspace_released rejections
    then around "referenced PersistentWorkspace " w.name " is being deleted"
    else if was_rejected workspace_bound_pod_mismatch rejections
    then around "waiting for bound Runtime Pod of PersistentWorkspace " w.name ""
    else pods_message runtime rejections

unfoldable pub waiting_message : {Q : Type 0} → Run Q → List FilterReason → String
unfolding workspace_message
waiting_message run rejections = workspace_message run.spec.runtime run.spec.workspace rejections

abbrev select_first : List ScoredPod → Result PlanError SchedulingPlan
select_first [] = err nothing_to_score
select_first (s ∷ _) = ok (bind s.pod)

abbrev pub scoring : {A : Type 0} → Result ScoreError A → Result PlanError A
scoring (ok a) = ok a
scoring (err e) = err (score_plugin_error e)

abbrev pub preparing : {A : Type 0} → Result AffinityError A → Result PlanError A
preparing (ok a) = ok a
preparing (err e) = err (affinity_error e)

module _ {Q : Type 0} (parse : SelectorParser) (snapshot : SchedulingSnapshot Q) where
  pub select_pod :
      List Pod
      → List FilterReason
      → List (RegisteredScorePlugin Q)
      → Result PlanError SchedulingPlan
  select_pod [] rejections plugins = ok (wait (waiting_message snapshot.run rejections))
  select_pod (pod ∷ pods) rejections plugins = do
    ranked ← scoring (score_and_rank snapshot (pod ∷ pods) plugins)
    select_first ranked

  unfoldable pub plan_scheduling_cycle :
      List (Option (FilterFactory Q)) → List (ScoreRegistration Q) → Result PlanError SchedulingPlan
  unfolding select_pod
  plan_scheduling_cycle filter_registrations score_registrations = do
    affinity ← preparing (new_run_affinity parse snapshot.run snapshot.affinity_targets)
    filters ← registered_filter_plugins snapshot affinity filter_registrations
    scores ← scoring (registered_score_plugins snapshot affinity score_registrations)
    select_pod (candidates_of snapshot filters snapshot.pods)
        (rejections_of snapshot filters snapshot.pods) scores

module _ {Q : Type 0} (k : QuantityOps Q) (stale_after : ℤ) where
  unfoldable pub default_filters : List (Option (FilterFactory Q))
  default_filters =
      some (λ s _. ok (
        some (record {
          name = "Workspace";
          filter = λ _ pod. workspace_filter (new_workspace_filter s) pod;
        })))
      ∷ some (λ _ _. ok (
          some (record {
            name = "RuntimePodAvailability";
            filter = λ s pod. availability_filter k stale_after s pod;
          })))
      ∷ some (λ _ affinity. ok (
          some
            (record { name = "RunAffinity"; filter = λ _ pod. affinity_filter affinity pod.name })))
      ∷ []

module _ {Q : Type 0} (k : QuantityOps Q) where
  unfoldable pub default_scores : List (ScoreRegistration Q)
  default_scores =
      record {
        factory = some (λ _ affinity. ok (some (preferred_affinity_plugin affinity)));
        weight = pos 1;
      }
      ∷ record { factory = some (λ _ _. ok (some (least_loaded_plugin k))); weight = pos 1 }
      ∷ []
