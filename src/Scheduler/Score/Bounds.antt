-- ===== src/Scheduler/Score/Bounds.antt =====
-- Scores stay in 0..100 and totals within int64.
use mathlib.Core.Path.{subst}
use kruntimes.Base.{ℕ, ◌+◌, ◌-◌, ◌*◌, ◌/◌, ◌≤◌, ◌<◌, ◌≡◌, String, List, [], ◌∷◌, arith, All}
use kruntimes.Base.Int.{pos, pos_part, ◌≤ℤ◌}
use kruntimes.Base.Results.{Result, ok, ◌>>=◌, traverse, >>=-eq-ok}
use kruntimes.Api.Pod.{Pod}
use kruntimes.Scheduler.Types.{SchedulingSnapshot}
use kruntimes.Scheduler.Score.{
  PodScore, ScoreError, RegisteredScorePlugin, max_int64, max_pod_score, add_score, accumulate,
  score_all, score_pod, normalized,
}

div_bound : (s w m : ℕ) → 0 < w → s ≤ m / w → s * w ≤ m
div_bound s w m h k = grind arith

-- A checked addition is exact and stays within int64.
add_score_lem :
    (name : String) (weight : ℕ) (s : PodScore) (total added : ℕ)
    → 0 < weight
    → total ≤ max_int64
    → add_score name weight s total ≡ ok added
    → (added ≡ total + pos_part s.score * weight)
      × (added ≤ max_int64)
      × (pos 0 ≤ℤ s.score)
      × (s.score ≤ℤ pos max_pod_score)
unfolding add_score
add_score_lem name weight s total added w t h = (
  ground arith,
  ground (arith, div_bound (pos_part s.score) weight (max_int64 - total)),
  ground arith,
  ground arith,
)

abbrev pub FitsInt64 : List ℕ → Type 0
FitsInt64 totals = All (λ t. t ≤ max_int64) totals

accumulate-FitsInt64 :
    (name : String) (weight : ℕ) (scores : List PodScore) (totals added : List ℕ)
    → 0 < weight
    → FitsInt64 totals
    → accumulate name weight scores totals ≡ ok added
    → FitsInt64 added
unfolding accumulate
accumulate-FitsInt64 name weight [] totals added w t h =
    let same : totals ≡ added = cc in subst FitsInt64 same t
accumulate-FitsInt64 name weight (s ∷ scores) [] added w t h =
    let same : [] ≡ added = cc in subst FitsInt64 same t
accumulate-FitsInt64 name weight (s ∷ scores) (total ∷ totals) added w t h =
    let (first, e, h') =
      >>=-eq-ok (add_score name weight s total)
        (λ added. do rest ← accumulate name weight scores totals; ok (added ∷ rest)) h in
    let (rest, e', done) =
      >>=-eq-ok (accumulate name weight scores totals) (λ rest. ok (first ∷ rest)) h' in
    let same : first ∷ rest ≡ added = cc in
    subst FitsInt64 same (
      (add_score_lem name weight s total first w t.0 e).1,
      accumulate-FitsInt64 name weight scores totals rest w t.1 e',
    )

module _ {Q : Type 0} (snapshot : SchedulingSnapshot Q) where
  -- For any plugins with positive weights, whatever scores they return: if scoring succeeds, every
  -- total is within int64, so no weighted sum wrapped round.
  pub score_all-FitsInt64 :
      (candidates : List Pod) (plugins : List (RegisteredScorePlugin Q)) (totals added : List ℕ)
      → All (λ r. 0 < r.weight) plugins
      → FitsInt64 totals
      → score_all snapshot candidates plugins totals ≡ ok added
      → FitsInt64 added
  unfolding score_all
  score_all-FitsInt64 candidates [] totals added w t h =
      let same : totals ≡ added = cc in subst FitsInt64 same t
  score_all-FitsInt64 candidates (r ∷ plugins) totals added w t h =
      let (raw, _, h₁) =
        >>=-eq-ok (traverse (score_pod snapshot r.plugin) candidates) (after_raw r plugins) h in
      let (scores, _, h₂) =
        >>=-eq-ok (normalized snapshot r.plugin.name r.plugin.normalize raw)
          (after_normalized r plugins) h₁ in
      let (mid, e, h₃) =
        >>=-eq-ok (accumulate r.plugin.name r.weight scores totals)
          (λ added. score_all snapshot candidates plugins added) h₂ in
      score_all-FitsInt64 candidates plugins mid added w.1
        (accumulate-FitsInt64 r.plugin.name r.weight scores totals mid w.0 t e) h₃
    where
      after_normalized :
          RegisteredScorePlugin Q
          → List (RegisteredScorePlugin Q)
          → List PodScore
          → Result ScoreError (List ℕ)
      after_normalized r plugins scores = do
        added ← accumulate r.plugin.name r.weight scores totals
        score_all snapshot candidates plugins added

      after_raw :
          RegisteredScorePlugin Q
          → List (RegisteredScorePlugin Q)
          → List PodScore
          → Result ScoreError (List ℕ)
      after_raw r plugins raw = do
        scores ← normalized snapshot r.plugin.name r.plugin.normalize raw
        after_normalized r plugins scores
