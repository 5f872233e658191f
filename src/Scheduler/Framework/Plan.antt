-- ===== src/Scheduler/Framework/Plan.antt =====
-- What a plan of the default plugins says: a selected Pod satisfies every hard constraint, and a
-- wait means that no Pod of the snapshot does.
use mathlib.Core.Path.{subst}
use kruntimes.Base.{
  String, ◌≡◌, ◌≢◌, refl, true, List, [], ◌∷◌, Option, none, some, arith, All, inl, inr, ◌⊎◌,
}
use kruntimes.Base.Int.{ℤ}
use kruntimes.Base.Results.{Result, ok, err, >>=-eq-ok}
use kruntimes.Base.Sort.{Member}
use kruntimes.Api.Quantity.{QuantityOps}
use kruntimes.Api.Pod.{Pod}
use kruntimes.Scheduler.Types.{SchedulingSnapshot, FilterResult, feasible, rejected, FilterReason}
use kruntimes.Scheduler.Cache.{resources_at}
use kruntimes.Scheduler.Affinity.{
  new_run_affinity, AffinityError, PreparedAffinity, SelectorParser, affinity_filter,
}
use kruntimes.Scheduler.Filters.{
  new_workspace_filter, workspace_filter, availability_filter, is_runtime_pod_available,
}
use kruntimes.Scheduler.Score.{
  ScoreRegistration, registered_score_plugins, ScoreError, RegisteredScorePlugin, ScoredPod,
  score_and_rank,
}
use kruntimes.Scheduler.Score.Ranking.{score_and_rank-Member}
use kruntimes.Scheduler.Framework.{
  FilterPlugin, FilterFactory, SchedulingPlan, plan_scheduling_cycle, wait, bind, run_filters,
  keep_candidate, candidates_of, rejections_of, registered_filter_plugins, select_pod, select_first,
  scoring, preparing, default_filters, waiting_message,
}

FilterResult-cases :
    (r : FilterResult) → (r ≡ feasible) ⊎ ((reason : FilterReason) × (r ≡ rejected reason))
FilterResult-cases feasible = inl refl
FilterResult-cases (rejected reason) = inr (reason, refl)

module _ {Q : Type 0} (snapshot : SchedulingSnapshot Q) (filters : List (FilterPlugin Q)) where
  -- A candidate is a Pod of the list that passes the filters.
  pub Member-candidates_of :
      (pod : Pod) (pods : List Pod)
      → Member pod (candidates_of snapshot filters pods)
      → Member pod pods × (run_filters snapshot filters pod ≡ feasible)
  unfolding candidates_of
  Member-candidates_of pod [] m = elim m [ ]
  Member-candidates_of pod (p ∷ pods) m =
      elim (FilterResult-cases (run_filters snapshot filters p)) [
        | inl passes ↦ elim (rw (passes, keep_candidate) at m) [
          | inl here ↦ (inl here, rw here passes)
          | inr later ↦
              let (inside, passed) = Member-candidates_of pod pods later in (inr inside, passed)
        ]
        | inr (reason, fails) ↦
            let (inside, passed) =
              Member-candidates_of pod pods (rw (fails, keep_candidate) at m) in
            (inr inside, passed)
      ]

  abbrev pub IsRejected : Pod → Type 0
  IsRejected pod = (reason : FilterReason) × (run_filters snapshot filters pod ≡ rejected reason)

  pub candidates_of-empty :
      (pods : List Pod) → candidates_of snapshot filters pods ≡ [] → All IsRejected pods
  unfolding candidates_of
  candidates_of-empty [] h = tt
  candidates_of-empty (p ∷ pods) h = elim (FilterResult-cases (run_filters snapshot filters p)) [
    | inl passes ↦ absurd (ground (arith, rw (passes, keep_candidate) at h))
    | inr (reason, fails) ↦
        ((reason, fails), candidates_of-empty pods (rw (fails, keep_candidate) at h))
  ]

abbrev pub plan_pod : SchedulingPlan → Option Pod
plan_pod (wait _) = none
plan_pod (bind pod) = some pod

scoring-eq-ok : {A : Type 0} (m : Result ScoreError A) {a : A} → scoring m ≡ ok a → m ≡ ok a
scoring-eq-ok (ok a) h = cc
scoring-eq-ok (err e) h = cc

pub preparing-eq-ok :
    {A : Type 0} (m : Result AffinityError A) {a : A} → preparing m ≡ ok a → m ≡ ok a
preparing-eq-ok (ok a) h = cc
preparing-eq-ok (err e) h = cc

select_first-Member :
    (ranked : List ScoredPod) (pods : List Pod) (pod : Pod)
    → ((s : ScoredPod) → Member s ranked → Member s.pod pods)
    → select_first ranked ≡ ok (bind pod)
    → Member pod pods
select_first-Member [] pods pod inside h = absurd (ground arith)
select_first-Member (s ∷ rest) pods pod inside h =
    let same : s.pod ≡ pod = cc in subst (λ p. Member p pods) same (inside s (inl refl))

select_first-ne-wait :
    (ranked : List ScoredPod) (message : String) → select_first ranked ≢ ok (wait message)
select_first-ne-wait [] message h = cc
select_first-ne-wait (s ∷ rest) message h = cc

module _ {Q : Type 0} (parse : SelectorParser) (snapshot : SchedulingSnapshot Q) where
  pub select_pod-bind :
      (candidates : List Pod) (rejections : List FilterReason)
      (plugins : List (RegisteredScorePlugin Q)) (pod : Pod)
      → select_pod parse snapshot candidates rejections plugins ≡ ok (bind pod)
      → Member pod candidates
  unfolding select_pod
  select_pod-bind [] rejections plugins pod h = absurd (ground arith)
  select_pod-bind (p ∷ ps) rejections plugins pod h =
      let (ranked, e, chosen) =
        >>=-eq-ok (scoring (score_and_rank snapshot (p ∷ ps) plugins)) select_first h in
      select_first-Member ranked (p ∷ ps) pod
        (score_and_rank-Member snapshot (p ∷ ps) plugins ranked
          (scoring-eq-ok (score_and_rank snapshot (p ∷ ps) plugins) e))
        chosen

  pub select_pod-wait :
      (candidates : List Pod) (rejections : List FilterReason)
      (plugins : List (RegisteredScorePlugin Q)) (message : String)
      → select_pod parse snapshot candidates rejections plugins ≡ ok (wait message)
      → (candidates ≡ []) × (message ≡ waiting_message snapshot.run rejections)
  unfolding select_pod
  select_pod-wait [] rejections plugins message h = (refl, cc)
  select_pod-wait (p ∷ ps) rejections plugins message h =
      let (ranked, e, chosen) =
        >>=-eq-ok (scoring (score_and_rank snapshot (p ∷ ps) plugins)) select_first h in
      absurd (select_first-ne-wait ranked message chosen)

  -- The parts of a cycle that succeeded.
  pub record CycleParts (filters : List (FilterPlugin Q)) (plan : SchedulingPlan) : Type 0 where
    pub plugins : List (RegisteredScorePlugin Q)
    pub outcome :
        select_pod parse snapshot
          (candidates_of snapshot filters snapshot.pods)
          (rejections_of snapshot filters snapshot.pods)
          plugins
        ≡ ok plan

module _ {Q : Type 0} (k : QuantityOps Q) (stale_after : ℤ) (snapshot : SchedulingSnapshot Q) where
  abbrev pub default_plugins : PreparedAffinity → List (FilterPlugin Q)
  default_plugins affinity =
      record {
        name = "Workspace";
        filter = λ _ pod. workspace_filter (new_workspace_filter snapshot) pod;
      }
      ∷ record {
        name = "RuntimePodAvailability";
        filter = λ s pod. availability_filter k stale_after s pod;
      }
      ∷ record { name = "RunAffinity"; filter = λ _ pod. affinity_filter affinity pod.name }
      ∷ []

  pub default_plugins_lem :
      (affinity : PreparedAffinity)
      → registered_filter_plugins snapshot affinity (default_filters k stale_after)
        ≡ ok (default_plugins affinity)
  unfolding registered_filter_plugins default_filters
  default_plugins_lem affinity = refl

  -- The three hard constraints of the default plugins.
  pub record IsFeasible (affinity : PreparedAffinity) (pod : Pod) : Type 0 where
    pub workspace : workspace_filter (new_workspace_filter snapshot) pod ≡ feasible
    pub available :
        is_runtime_pod_available k stale_after pod snapshot.now
          (resources_at pod.name snapshot.usage_by_pod)
          snapshot.request
        ≡ true
    pub affinity_met : affinity_filter affinity pod.name ≡ feasible

  pub run_filters-IsFeasible :
      (affinity : PreparedAffinity) (pod : Pod)
      → run_filters snapshot (default_plugins affinity) pod ≡ feasible
      → IsFeasible affinity pod
  unfolding run_filters availability_filter
  run_filters-IsFeasible affinity pod h = record {
    workspace = ground arith;
    available = ground arith;
    affinity_met = ground arith;
  }

  pub IsFeasible-run_filters :
      (affinity : PreparedAffinity) (pod : Pod)
      → IsFeasible affinity pod
      → run_filters snapshot (default_plugins affinity) pod ≡ feasible
  unfolding run_filters availability_filter
  IsFeasible-run_filters affinity pod h = ground (arith, h.workspace, h.available, h.affinity_met)

-- For any filters and scores: a cycle binds to a Pod of its snapshot.
pub plan_scheduling_cycle-Member :
    {Q : Type 0} (parse : SelectorParser) (snapshot : SchedulingSnapshot Q)
    (filters : List (Option (FilterFactory Q))) (scores : List (ScoreRegistration Q)) (pod : Pod)
    → plan_scheduling_cycle parse snapshot filters scores ≡ ok (bind pod)
    → Member pod snapshot.pods
unfolding plan_scheduling_cycle
plan_scheduling_cycle-Member parse snapshot filters scores pod h =
    let (affinity, _, h₁) =
      >>=-eq-ok (preparing (new_run_affinity parse snapshot.run snapshot.affinity_targets)) _ h in
    let (plugins, _, h₂) = >>=-eq-ok (registered_filter_plugins snapshot affinity filters) _ h₁ in
    let (ranked, _, h₃) =
      >>=-eq-ok (scoring (registered_score_plugins snapshot affinity scores)) _ h₂ in
    (Member-candidates_of snapshot plugins pod snapshot.pods (
      select_pod-bind parse snapshot (candidates_of snapshot plugins snapshot.pods)
        (rejections_of snapshot plugins snapshot.pods) ranked pod h₃)).0
