-- ===== src/Scheduler/Affinity.antt =====
-- internal/scheduler/affinity.go and score_affinity.go: Run affinity to Pods that run matching
-- Runs. A label selector is compiled and evaluated by k8s.io/apimachinery, which is a parameter.
pub mod Placement
use kruntimes.Base.{
  String, string_eq, ◌==◌, Bool, true, false, ◌&&◌, ◌||◌, not, List, [], ◌∷◌, ◌++◌, Option, none,
  some, if◌then◌else◌,
}
use kruntimes.Base.Int.{ℤ, pos, ◌+ℤ◌}
use kruntimes.Base.Maps.{Map, lookup, insert}
use kruntimes.Base.Results.{Result, ok, err, ◌>>=◌, traverse}
use kruntimes.Api.Run.{
  Run, RunAffinityTerm, WeightedRunAffinityTerm, RunAffinityRules, RunAffinity, LabelSelector,
  topology_runtime_pod,
}
use kruntimes.Scheduler.Types.{
  AffinityTarget, FilterResult, feasible, rejected, unsatisfied_run_affinity,
  unsatisfied_run_anti_affinity,
}

abbrev pub LabelSet : Type 0
LabelSet = Map String String

-- metav1.LabelSelectorAsSelector, with `Matches` of the result; `none` is a parse error.
abbrev pub SelectorParser : Type 0
SelectorParser = LabelSelector → Option (LabelSet → Bool)

pub data AffinityError : Type 0 where
  unsupported_topology_key : String → AffinityError
  no_label_selector : AffinityError
  bad_selector : AffinityError

pub record AffinityRule : Type 0 where
  pub weight : ℤ
  pub pods : Map String Bool
  pub seedable : Bool

-- `runAffinity`: the rules of one Run, prepared once for a scheduling cycle.
pub record PreparedAffinity : Type 0 where
  pub required : List AffinityRule
  pub required_anti : List AffinityRule
  pub preferred : List AffinityRule
  pub preferred_anti : List AffinityRule

abbrev pub no_affinity : PreparedAffinity
no_affinity = record { required = []; required_anti = []; preferred = []; preferred_anti = [] }

-- The loop that marks the Pods of the matching targets.
unfoldable pub matching_pods :
    (LabelSet → Bool) → List AffinityTarget → Map String Bool → Map String Bool
matching_pods matches [] pods = pods
matching_pods matches (target ∷ targets) pods =
    matching_pods matches targets
      (if matches target.labels then insert target.pod_name true pods else pods)

abbrev is_empty : Map String Bool → Bool
is_empty [] = true
is_empty (_ ∷ _) = false

build_rule :
    LabelSet
    → List AffinityTarget
    → ℤ
    → Bool
    → Option (LabelSet → Bool)
    → Result AffinityError AffinityRule
build_rule own targets weight allow_seed none = err bad_selector
build_rule own targets weight allow_seed (some matches) =
    let pods = matching_pods matches targets [] in
    ok (record {
      weight = weight;
      pods = pods;
      seedable = allow_seed && is_empty pods && matches own;
    })

abbrev assemble :
    List AffinityRule × List AffinityRule → List AffinityRule × List AffinityRule → PreparedAffinity
assemble wanted unwanted = record {
  required = wanted.0;
  preferred = wanted.1;
  required_anti = unwanted.0;
  preferred_anti = unwanted.1;
}

module _ (parse : SelectorParser) (own : LabelSet) (targets : List AffinityTarget) where
  select_rule : ℤ → Bool → Option LabelSelector → Result AffinityError AffinityRule
  unfolding build_rule
  select_rule weight allow_seed none = err no_label_selector
  select_rule weight allow_seed (some selector) =
      build_rule own targets weight allow_seed (parse selector)

  unfoldable pub build : ℤ → Bool → RunAffinityTerm → Result AffinityError AffinityRule
  unfolding select_rule
  build weight allow_seed term =
      if term.topology_key == topology_runtime_pod
      then select_rule weight allow_seed term.label_selector
      else err (unsupported_topology_key term.topology_key)

  build_weighted : WeightedRunAffinityTerm → Result AffinityError AffinityRule
  unfolding build
  build_weighted weighted = build weighted.weight false weighted.run_affinity_term

  -- One half of a Run's affinity: the required rules, then the preferred ones.
  unfoldable pub build_rules :
      Bool → Option RunAffinityRules → Result AffinityError (List AffinityRule × List AffinityRule)
  unfolding build build_weighted
  build_rules anti none = ok ([], [])
  build_rules anti (some rules) = do
    required ← traverse (build (pos 0) (not anti)) rules.required
    preferred ← traverse build_weighted rules.preferred
    ok (required, preferred)

  unfoldable pub prepare : Option RunAffinity → Result AffinityError PreparedAffinity
  unfolding build_rules
  prepare none = ok no_affinity
  prepare (some affinity) = do
    wanted ← build_rules false affinity.run_affinity
    unwanted ← build_rules true affinity.run_anti_affinity
    ok (assemble wanted unwanted)

unfoldable pub new_run_affinity :
    {Q : Type 0}
    → SelectorParser
    → Run Q
    → List AffinityTarget
    → Result AffinityError PreparedAffinity
unfolding prepare
new_run_affinity parse run targets = prepare parse run.labels targets run.spec.affinity

abbrev is_marked : Option Bool → Bool
is_marked none = false
is_marked (some b) = b

-- rule.pods[podName]
abbrev pub on_pod : AffinityRule → String → Bool
on_pod rule pod_name = is_marked (lookup pod_name rule.pods)

filter_anti : List AffinityRule → String → FilterResult
filter_anti [] pod_name = feasible
filter_anti (rule ∷ rules) pod_name =
    let rest = filter_anti rules pod_name in
    if on_pod rule pod_name then rejected unsatisfied_run_anti_affinity else rest

filter_required : List AffinityRule → List AffinityRule → String → FilterResult
unfolding filter_anti
filter_required [] anti pod_name = filter_anti anti pod_name
filter_required (rule ∷ rules) anti pod_name =
    let rest = filter_required rules anti pod_name in
    if not (on_pod rule pod_name) && not rule.seedable
    then rejected unsatisfied_run_affinity
    else rest

unfoldable pub affinity_filter : PreparedAffinity → String → FilterResult
unfolding filter_required
affinity_filter a pod_name = filter_required a.required a.required_anti pod_name

score_where : Bool → List AffinityRule → String → ℤ
score_where wanted [] pod_name = pos 0
score_where wanted (rule ∷ rules) pod_name =
    (if wanted
      then (if on_pod rule pod_name then rule.weight else pos 0)
      else (if on_pod rule pod_name then pos 0 else rule.weight))
    +ℤ score_where wanted rules pod_name

unfoldable pub preferred_score : PreparedAffinity → String → ℤ
unfolding score_where
preferred_score a pod_name =
    score_where true a.preferred pod_name +ℤ score_where false a.preferred_anti pod_name
