-- ===== src/Scheduler/Framework/Outcome.antt =====
-- The two outcomes of a cycle with the default filter plugins.
use kruntimes.Base.{String, ◌≡◌, List, arith, All, All-map}
use kruntimes.Base.Int.{ℤ}
use kruntimes.Base.Results.{Result, ok, ◌>>=◌, >>=-eq-ok}
use kruntimes.Base.Sort.{Member}
use kruntimes.Api.Quantity.{QuantityOps}
use kruntimes.Api.Pod.{Pod}
use kruntimes.Scheduler.Types.{SchedulingSnapshot}
use kruntimes.Scheduler.Affinity.{PreparedAffinity, SelectorParser, new_run_affinity}
use kruntimes.Scheduler.Score.{ScoreRegistration, RegisteredScorePlugin, registered_score_plugins}
use kruntimes.Scheduler.Framework.{
  PlanError, FilterPlugin, SchedulingPlan, wait, bind, candidates_of, rejections_of,
  registered_filter_plugins, plan_scheduling_cycle, select_pod, scoring, preparing, default_filters,
}
use kruntimes.Scheduler.Framework.Plan.{
  preparing-eq-ok, CycleParts, default_plugins, default_plugins_lem, IsFeasible,
  run_filters-IsFeasible, IsFeasible-run_filters, IsRejected, Member-candidates_of,
  candidates_of-empty, select_pod-bind, select_pod-wait,
}

module _ {Q : Type 0} (k : QuantityOps Q) (stale_after : ℤ) (parse : SelectorParser)
    (snapshot : SchedulingSnapshot Q) (scores : List (ScoreRegistration Q)) where
  abbrev pub default_plan : Result PlanError SchedulingPlan
  default_plan = plan_scheduling_cycle parse snapshot (default_filters k stale_after) scores

  -- The affinity of the cycle, prepared from the Run and the targets of the snapshot.
  abbrev pub IsPrepared : PreparedAffinity → Type 0
  IsPrepared affinity = new_run_affinity parse snapshot.run snapshot.affinity_targets ≡ ok affinity

  finish : List (FilterPlugin Q) → List (RegisteredScorePlugin Q) → Result PlanError SchedulingPlan
  finish filters plugins =
      select_pod parse snapshot (candidates_of snapshot filters snapshot.pods)
        (rejections_of snapshot filters snapshot.pods) plugins

  plan_parts :
      (plan : SchedulingPlan)
      → default_plan ≡ ok plan
      → (affinity : PreparedAffinity) × IsPrepared affinity
        × CycleParts parse snapshot (default_plugins k stale_after snapshot affinity) plan
  unfolding plan_scheduling_cycle finish
  plan_parts plan h =
      let (affinity, prepared, h₁) =
        >>=-eq-ok (preparing (new_run_affinity parse snapshot.run snapshot.affinity_targets))
          (λ affinity. do
            filters ← registered_filter_plugins snapshot affinity (default_filters k stale_after)
            plugins ← scoring (registered_score_plugins snapshot affinity scores)
            finish filters plugins)
          h in
      let h₂ = rw (default_plugins_lem k stale_after snapshot affinity) at h₁ in
      let (plugins, _, h₃) =
        >>=-eq-ok (scoring (registered_score_plugins snapshot affinity scores))
          (finish (default_plugins k stale_after snapshot affinity)) h₂ in
      (
        affinity,
        preparing-eq-ok (new_run_affinity parse snapshot.run snapshot.affinity_targets) prepared,
        record { plugins = plugins; outcome = h₃ },
      )

  -- For any snapshot and any score plugins: a Pod that the cycle binds to is a Pod of the snapshot
  -- and satisfies all three hard constraints, workspace, availability and required affinity.
  pub plan-bind :
      (pod : Pod)
      → default_plan ≡ ok (bind pod)
      → (affinity : PreparedAffinity) × IsPrepared affinity
        × Member pod snapshot.pods
        × IsFeasible k stale_after snapshot affinity pod
  plan-bind pod h =
      let (affinity, prepared, parts) = plan_parts (bind pod) h in
      let filters = default_plugins k stale_after snapshot affinity in
      let (inside, passed) = Member-candidates_of snapshot filters pod snapshot.pods (
        select_pod-bind parse snapshot (candidates_of snapshot filters snapshot.pods)
          (rejections_of snapshot filters snapshot.pods) parts.plugins pod parts.outcome) in
      (
        affinity,
        prepared,
        inside,
        run_filters-IsFeasible k stale_after snapshot affinity pod passed,
      )

  rejected-IsInfeasible :
      (affinity : PreparedAffinity) (pod : Pod)
      → IsRejected snapshot (default_plugins k stale_after snapshot affinity) pod
      → ¬ IsFeasible k stale_after snapshot affinity pod
  rejected-IsInfeasible affinity pod (reason, fails) h =
      absurd (ground (arith, IsFeasible-run_filters k stale_after snapshot affinity pod h))

  -- For any snapshot and any score plugins: the cycle waits only if no Pod of the snapshot
  -- satisfies the three hard constraints.
  pub plan-wait :
      (message : String)
      → default_plan ≡ ok (wait message)
      → (affinity : PreparedAffinity) × IsPrepared affinity
        × All (λ pod. ¬ IsFeasible k stale_after snapshot affinity pod) snapshot.pods
  plan-wait message h =
      let (affinity, prepared, parts) = plan_parts (wait message) h in
      let filters = default_plugins k stale_after snapshot affinity in
      let (nobody, _) =
        select_pod-wait parse snapshot (candidates_of snapshot filters snapshot.pods)
          (rejections_of snapshot filters snapshot.pods) parts.plugins message parts.outcome in
      (
        affinity,
        prepared,
        All-map (IsRejected snapshot filters)
            (λ pod. ¬ IsFeasible k stale_after snapshot affinity pod)
            (rejected-IsInfeasible affinity) snapshot.pods
            (candidates_of-empty snapshot filters snapshot.pods nobody),
      )
