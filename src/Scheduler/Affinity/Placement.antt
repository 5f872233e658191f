-- ===== src/Scheduler/Affinity/Placement.antt =====
-- What the affinity filter accepts, in terms of the Run's terms and the active targets.
use kruntimes.Base.{
  String, string_eq, ◌==◌, ◌≡◌, inl, inr, refl, Bool, true, false, ◌&&◌, ◌||◌, not, any, all, List,
  [], ◌∷◌, Option, none, some, arith, if◌then◌else◌, Bool-cases,
}
use kruntimes.Base.Int.{ℤ, pos}
use kruntimes.Base.Maps.{Map, lookup, insert, lookup-insert}
use kruntimes.Base.Results.{ok, ◌>>=◌, traverse, traverse-cons, >>=-eq-ok}
use kruntimes.Api.Run.{
  Run, RunAffinityTerm, RunAffinityRules, RunAffinity, LabelSelector, topology_runtime_pod,
}
use kruntimes.Scheduler.Types.{AffinityTarget, FilterResult, feasible}
use kruntimes.Scheduler.Affinity.{
  LabelSet, SelectorParser, AffinityRule, PreparedAffinity, matching_pods, build, build_rule,
  select_rule, build_rules, build_weighted, prepare, assemble, new_run_affinity, on_pod, is_empty,
  filter_anti, filter_required, affinity_filter, is_marked,
}

-- An active target that the selector matches runs on the Pod.
abbrev pub hosts : (LabelSet → Bool) → List AffinityTarget → String → Bool
hosts matches targets pod_name = any (λ t. matches t.labels && t.pod_name == pod_name) targets

abbrev pub marked : Map String Bool → String → Bool
marked pods pod_name = is_marked (lookup pod_name pods)

matching_pods-marked :
    (matches : LabelSet → Bool) (targets : List AffinityTarget) (pods : Map String Bool)
    (pod_name : String)
    → marked (matching_pods matches targets pods) pod_name
      ≡ (marked pods pod_name || hosts matches targets pod_name)
unfolding matching_pods
matching_pods-marked matches [] pods pod_name = ground arith
matching_pods-marked matches (t ∷ ts) pods pod_name = ground (
  arith,
  matching_pods-marked matches ts (if matches t.labels then insert t.pod_name true pods else pods)
      pod_name,
  lookup-insert t.pod_name pod_name true pods,
)

lookup-empty : (p : String) → lookup {V = Bool} p [] ≡ none
unfolding lookup
lookup-empty p = refl

is_empty-insert :
    (p : String) (b : Bool) (pods : Map String Bool) → is_empty (insert p b pods) ≡ false
unfolding insert
is_empty-insert p b [] = refl
is_empty-insert p b ((q, c) ∷ pods) = ground arith

matching_pods-empty :
    (matches : LabelSet → Bool) (targets : List AffinityTarget) (pods : Map String Bool)
    → is_empty (matching_pods matches targets pods)
      ≡ (is_empty pods && not (any (λ t. matches t.labels) targets))
unfolding matching_pods
matching_pods-empty matches [] pods = ground arith
matching_pods-empty matches (t ∷ ts) pods = ground (
  arith,
  matching_pods-empty matches ts (if matches t.labels then insert t.pod_name true pods else pods),
  is_empty-insert t.pod_name true pods,
)

-- The selector of a term, applied to labels; false where the term has none that parses.
abbrev parsed : Option (LabelSet → Bool) → LabelSet → Bool
parsed none labels = false
parsed (some matches) labels = matches labels

abbrev selected : SelectorParser → Option LabelSelector → LabelSet → Bool
selected parse none labels = false
selected parse (some selector) labels = parsed (parse selector) labels

abbrev pub term_matches : SelectorParser → RunAffinityTerm → LabelSet → Bool
term_matches parse term labels = selected parse term.label_selector labels

abbrev pub is_feasible : FilterResult → Bool
is_feasible feasible = true
is_feasible _ = false

module _ (parse : SelectorParser) (own : LabelSet) (targets : List AffinityTarget) where
  abbrev pub term_hosts : RunAffinityTerm → String → Bool
  term_hosts term pod_name = hosts (term_matches parse term) targets pod_name

  -- No active target matches the term, and the Run's own labels do: it may start the group.
  abbrev pub may_seed : RunAffinityTerm → Bool
  may_seed term =
      not (any (λ t. term_matches parse term t.labels) targets) && term_matches parse term own

  build_rule_lem :
      (weight : ℤ) (seed : Bool) (o : Option (LabelSet → Bool)) (rule : AffinityRule)
      → build_rule own targets weight seed o ≡ ok rule
      → ((pod_name : String) → on_pod rule pod_name ≡ hosts (parsed o) targets pod_name)
        × (rule.seedable ≡ (seed && (not (any (λ t. parsed o t.labels) targets) && parsed o own)))
  unfolding build_rule
  build_rule_lem weight seed none rule h = absurd (ground arith)
  build_rule_lem weight seed (some m) rule h = (
    λ pod_name. ground (arith, matching_pods-marked m targets [] pod_name, lookup-empty pod_name),
    ground (arith, matching_pods-empty m targets []),
  )

  select_rule_lem :
      (weight : ℤ) (seed : Bool) (o : Option LabelSelector) (rule : AffinityRule)
      → select_rule parse own targets weight seed o ≡ ok rule
      → ((pod_name : String) → on_pod rule pod_name ≡ hosts (selected parse o) targets pod_name)
        × (rule.seedable ≡ (
            seed && (not (any (λ t. selected parse o t.labels) targets) && selected parse o own)))
  unfolding select_rule
  select_rule_lem weight seed none rule h = absurd (ground arith)
  select_rule_lem weight seed (some s) rule h = build_rule_lem weight seed (parse s) rule h

  build_lem :
      (weight : ℤ) (seed : Bool) (term : RunAffinityTerm) (rule : AffinityRule)
      → build parse own targets weight seed term ≡ ok rule
      → ((pod_name : String) → on_pod rule pod_name ≡ term_hosts term pod_name)
        × (rule.seedable ≡ (seed && may_seed term))
  unfolding build
  build_lem weight seed term rule h =
      elim (Bool-cases (term.topology_key == topology_runtime_pod)) [
        | inl supported ↦ select_rule_lem weight seed term.label_selector rule (rw supported at h)
        | inr other ↦ absurd (ground arith)
      ]

  abbrev pub repels : String → RunAffinityTerm → Bool
  repels pod_name term = not (term_hosts term pod_name)

  abbrev pub attracts : String → RunAffinityTerm → Bool
  attracts pod_name term = term_hosts term pod_name || may_seed term

  filter_anti_lem :
      (pod_name : String) (terms : List RunAffinityTerm) (rules : List AffinityRule)
      → traverse (build parse own targets (pos 0) false) terms ≡ ok rules
      → is_feasible (filter_anti rules pod_name) ≡ all (repels pod_name) terms
  unfolding filter_anti
  filter_anti_lem pod_name [] rules h = ground arith
  filter_anti_lem pod_name (t ∷ ts) rules h =
      let (r, rs, built, more, split) =
        traverse-cons (build parse own targets (pos 0) false) t ts h in
      rw split (
        ground (
          arith,
          (build_lem (pos 0) false t r built).0 pod_name,
          filter_anti_lem pod_name ts rs more,
        ))

  filter_required_lem :
      (pod_name : String) (terms : List RunAffinityTerm) (rules anti : List AffinityRule)
      → traverse (build parse own targets (pos 0) true) terms ≡ ok rules
      → is_feasible (filter_required rules anti pod_name)
        ≡ (all (attracts pod_name) terms && is_feasible (filter_anti anti pod_name))
  unfolding filter_required
  filter_required_lem pod_name [] rules anti h = ground arith
  filter_required_lem pod_name (t ∷ ts) rules anti h =
      let (r, rs, built, more, split) =
        traverse-cons (build parse own targets (pos 0) true) t ts h in
      let (hosted, seeds) = build_lem (pos 0) true t r built in
      rw split
        (ground (arith, hosted pod_name, seeds, filter_required_lem pod_name ts rs anti more))

abbrev pub required_terms : Option RunAffinityRules → List RunAffinityTerm
required_terms none = []
required_terms (some rules) = rules.required

abbrev pub affinity_terms : Option RunAffinity → List RunAffinityTerm
affinity_terms none = []
affinity_terms (some a) = required_terms a.run_affinity

abbrev pub anti_affinity_terms : Option RunAffinity → List RunAffinityTerm
anti_affinity_terms none = []
anti_affinity_terms (some a) = required_terms a.run_anti_affinity

module _ (parse : SelectorParser) (own : LabelSet) (targets : List AffinityTarget) where
  build_rules_lem :
      (anti : Bool) (o : Option RunAffinityRules) (built : List AffinityRule × List AffinityRule)
      → build_rules parse own targets anti o ≡ ok built
      → traverse (build parse own targets (pos 0) (not anti)) (required_terms o) ≡ ok (built.0)
  unfolding build_rules
  build_rules_lem anti none built h = ground arith
  build_rules_lem anti (some rules) built h =
      let (required, first, rest) =
        >>=-eq-ok (traverse (build parse own targets (pos 0) (not anti)) rules.required)
          (λ required. do
            preferred ← traverse (build_weighted parse own targets) rules.preferred
            ok (required, preferred))
          h in
      let (preferred, _, both) =
        >>=-eq-ok (traverse (build_weighted parse own targets) rules.preferred)
          (λ preferred. ok (required, preferred)) rest in
      cc

  prepare_lem :
      (affinity : Option RunAffinity) (prepared : PreparedAffinity) (pod_name : String)
      → prepare parse own targets affinity ≡ ok prepared
      → is_feasible (affinity_filter prepared pod_name) ≡ (
          all (attracts parse own targets pod_name) (affinity_terms affinity)
          && all (repels parse own targets pod_name) (anti_affinity_terms affinity))
  unfolding prepare affinity_filter
  prepare_lem none prepared pod_name h = ground arith
  prepare_lem (some affinity) prepared pod_name h =
      let (wanted, first, rest) =
        >>=-eq-ok (build_rules parse own targets false affinity.run_affinity)
          (λ wanted. do
            unwanted ← build_rules parse own targets true affinity.run_anti_affinity
            ok (assemble wanted unwanted))
          h in
      let (unwanted, second, made) =
        >>=-eq-ok (build_rules parse own targets true affinity.run_anti_affinity)
          (λ unwanted. ok (assemble wanted unwanted)) rest in
      ground (
        arith,
        filter_required_lem parse own targets pod_name (required_terms affinity.run_affinity)
            (wanted.0) (unwanted.0) (build_rules_lem false affinity.run_affinity wanted first),
        filter_anti_lem parse own targets pod_name (required_terms affinity.run_anti_affinity)
            (unwanted.0) (build_rules_lem true affinity.run_anti_affinity unwanted second),
      )

-- For any Run, targets and Pod, where the Run's affinity is prepared without an error: the filter
-- accepts the Pod exactly if each required affinity term has a matching active target on the Pod,
-- or has none anywhere and matches the Run's own labels, and no required anti-affinity term has a
-- matching active target on the Pod.
pub affinity_filter-eq :
    {Q : Type 0} (parse : SelectorParser) (run : Run Q) (targets : List AffinityTarget)
    (prepared : PreparedAffinity) (pod_name : String)
    → new_run_affinity parse run targets ≡ ok prepared
    → is_feasible (affinity_filter prepared pod_name) ≡ (
        all (attracts parse run.labels targets pod_name) (affinity_terms run.spec.affinity)
        && all (repels parse run.labels targets pod_name) (anti_affinity_terms run.spec.affinity))
unfolding new_run_affinity
affinity_filter-eq parse run targets prepared pod_name h =
    prepare_lem parse run.labels targets run.spec.affinity prepared pod_name h
