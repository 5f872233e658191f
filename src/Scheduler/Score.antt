-- ===== src/Scheduler/Score.antt =====
-- internal/scheduler/score.go and score_affinity.go: the weighted scores of the feasible Pods.
-- A total is an int64 that is never negative; it is a number here, and the source's own guard
-- keeps it within int64.
pub mod Bounds
pub mod Normalize
pub mod Ranking
pub mod Weighing
use kruntimes.Base.{
  ℕ, zero, suc, ◌+◌, ◌-◌, ◌*◌, ◌/◌, String, string_eq, Bool, true, false, List, [], ◌∷◌, map,
  Option, none, some, ltb, leb, nat_eq, if◌then◌else◌,
}
use kruntimes.Base.Int.{ℤ, pos, negsuc, pos_part, ltb_ℤ, leb_ℤ}
use kruntimes.Base.Text.{str_lt}
use kruntimes.Base.Results.{Result, ok, err, ◌>>=◌, traverse}
use kruntimes.Base.Sort.{sort_by}
use kruntimes.Api.Pod.{Pod}
use kruntimes.Scheduler.Types.{SchedulingSnapshot}
use kruntimes.Scheduler.Affinity.{PreparedAffinity, preferred_score}

abbrev pub max_pod_score : ℕ
max_pod_score = 100

abbrev pub max_int64 : ℕ
max_int64 = 9223372036854775807

pub record PodScore : Type 0 where
  pub pod_name : String
  pub score : ℤ

-- What a plugin reports; the texts are the source's.
pub data PluginError : Type 0 where
  negative_raw_score : String → PluginError
  not_in_snapshot : String → PluginError
  bad_capacity : String → PluginError

-- `scorePluginError`: it aborts one cycle and leaves the Run as it is.
pub data ScoreError : Type 0 where
  nil_factory : ScoreError
  nil_plugin : ScoreError
  invalid_weight : ℤ → ScoreError
  plugin_failed : String → PluginError → ScoreError
  out_of_range : String → String → ℤ → ScoreError
  overflows : String → ScoreError
  no_candidates : ScoreError

pub record ScorePlugin (Q : Type 0) : Type 0 where
  pub name : String
  pub score : SchedulingSnapshot Q → Pod → Result PluginError ℤ
  -- the optional scoreNormalizer
  pub normalize : Option (SchedulingSnapshot Q → List PodScore → Result PluginError (List PodScore))

pub record RegisteredScorePlugin (Q : Type 0) : Type 0 where
  pub plugin : ScorePlugin Q
  pub weight : ℕ

abbrev pub tag : {A : Type 0} → String → Result PluginError A → Result ScoreError A
tag name (ok a) = ok a
tag name (err e) = err (plugin_failed name e)

-- One score, checked and added to the total of its Pod.
unfoldable pub add_score : String → ℕ → PodScore → ℕ → Result ScoreError ℕ
add_score name weight s total =
    if ltb_ℤ s.score (pos 0)
    then err (out_of_range name s.pod_name s.score)
    else if ltb_ℤ (pos max_pod_score) s.score
    then err (out_of_range name s.pod_name s.score)
    else if ltb ((max_int64 - total) / weight) (pos_part s.score)
    then err (overflows name)
    else ok (total + pos_part s.score * weight)

unfoldable pub accumulate : String → ℕ → List PodScore → List ℕ → Result ScoreError (List ℕ)
unfolding add_score
accumulate name weight (s ∷ scores) (total ∷ totals) = do
  added ← add_score name weight s total
  rest ← accumulate name weight scores totals
  ok (added ∷ rest)
accumulate name weight [] totals = ok totals
accumulate name weight (s ∷ scores) [] = ok []

-- Ranking: the larger total first, then the smaller name.
pub record ScoredPod : Type 0 where
  pub pod : Pod
  pub total : ℕ

unfoldable pub ranks_before : ScoredPod → ScoredPod → Bool
ranks_before a b =
    if nat_eq a.total b.total then str_lt a.pod.name b.pod.name else ltb b.total a.total

unfoldable pub attach : List Pod → List ℕ → List ScoredPod
attach (pod ∷ pods) (total ∷ totals) = record { pod = pod; total = total } ∷ attach pods totals
attach [] totals = []
attach (pod ∷ pods) [] = []

unfoldable pub rank : List Pod → List ℕ → List ScoredPod
unfolding ranks_before attach
rank candidates totals = sort_by ranks_before (attach candidates totals)

abbrev pub zeros : List Pod → List ℕ
zeros [] = []
zeros (_ ∷ pods) = 0 ∷ zeros pods

module _ {Q : Type 0} (snapshot : SchedulingSnapshot Q) where
  pub score_pod : ScorePlugin Q → Pod → Result ScoreError PodScore
  score_pod plugin pod = do
    score ← tag plugin.name (plugin.score snapshot pod)
    ok (record { pod_name = pod.name; score = score })

  pub normalized :
      String
      → Option (SchedulingSnapshot Q → List PodScore → Result PluginError (List PodScore))
      → List PodScore
      → Result ScoreError (List PodScore)
  normalized name none scores = ok scores
  normalized name (some normalize) scores = tag name (normalize snapshot scores)

  -- The loop over the plugins.
  unfoldable pub score_all :
      List Pod → List (RegisteredScorePlugin Q) → List ℕ → Result ScoreError (List ℕ)
  unfolding score_pod normalized accumulate
  score_all candidates [] totals = ok totals
  score_all candidates (r ∷ plugins) totals = do
    raw ← traverse (score_pod r.plugin) candidates
    scores ← normalized r.plugin.name r.plugin.normalize raw
    added ← accumulate r.plugin.name r.weight scores totals
    score_all candidates plugins added

  unfoldable pub score_and_rank :
      List Pod → List (RegisteredScorePlugin Q) → Result ScoreError (List ScoredPod)
  unfolding score_all rank
  score_and_rank [] plugins = err no_candidates
  score_and_rank (pod ∷ pods) plugins = do
    totals ← score_all (pod ∷ pods) plugins (zeros (pod ∷ pods))
    ok (rank (pod ∷ pods) totals)

-- A factory prepares a plugin for one cycle; it may be nil, fail, or return nil.
abbrev pub ScoreFactory : Type 0 → Type 0
ScoreFactory Q =
    SchedulingSnapshot Q → PreparedAffinity → Result PluginError (Option (ScorePlugin Q))

pub record ScoreRegistration (Q : Type 0) : Type 0 where
  pub factory : Option (ScoreFactory Q)
  pub weight : ℤ

module _ {Q : Type 0} (snapshot : SchedulingSnapshot Q) (affinity : PreparedAffinity) where
  made : Option (ScorePlugin Q) → ℕ → Result ScoreError (RegisteredScorePlugin Q)
  made none weight = err nil_plugin
  made (some plugin) weight = ok (record { plugin = plugin; weight = weight })

  register : Option (ScoreFactory Q) → ℤ → Result ScoreError (RegisteredScorePlugin Q)
  unfolding made
  register none weight = err nil_factory
  register (some factory) weight =
      if leb_ℤ weight (pos 0)
      then err (invalid_weight weight)
      else do plugin ← tag "" (factory snapshot affinity); made plugin (pos_part weight)

  unfoldable pub registered_score_plugins :
      List (ScoreRegistration Q) → Result ScoreError (List (RegisteredScorePlugin Q))
  unfolding register
  registered_score_plugins registrations = traverse (λ r. register r.factory r.weight) registrations

-- normalizeScoresByMaximum: the raw scores as parts of a hundred of the largest.
unfoldable pub raw_scores : List PodScore → Result PluginError (List ℕ)
raw_scores [] = ok []
raw_scores (s ∷ scores) = do
  raw ← if ltb_ℤ s.score (pos 0) then err (negative_raw_score s.pod_name) else ok (pos_part s.score)
  rest ← raw_scores scores
  ok (raw ∷ rest)

abbrev pub maximum : List ℕ → ℕ
maximum [] = 0
maximum (x ∷ xs) = let rest = maximum xs in if ltb rest x then x else rest

unfoldable pub scale_scores : ℕ → List PodScore → List PodScore
scale_scores top scores =
    map (λ (s : PodScore). record s { score = pos (pos_part s.score * max_pod_score / top) }) scores

unfoldable pub normalize_by_maximum : List PodScore → Result PluginError (List PodScore)
unfolding raw_scores scale_scores
normalize_by_maximum scores = do
  raw ← raw_scores scores
  ok (if nat_eq (maximum raw) 0 then scores else scale_scores (maximum raw) scores)

unfoldable pub preferred_affinity_plugin : {Q : Type 0} → PreparedAffinity → ScorePlugin Q
unfolding preferred_score normalize_by_maximum
preferred_affinity_plugin affinity = record {
  name = "PreferredRunAffinity";
  score = λ _ pod. ok (preferred_score affinity pod.name);
  normalize = some (λ _ scores. normalize_by_maximum scores);
}
