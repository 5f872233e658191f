-- ===== src/Scheduler/Score/Normalize.antt =====
-- normalizeScoresByMaximum keeps the Pods and brings every score into 0..100.
use mathlib.Core.Path.{subst}
use kruntimes.Base.{
  ℕ, ◌*◌, ◌/◌, ◌≤◌, ◌<◌, ◌≡◌, List, [], ◌∷◌, map, arith, All, All-map, Bool-cases, inl, inr, nat_eq,
  if◌then◌else◌, refl, ap,
}
use kruntimes.Base.Int.{pos, pos_part, ltb_ℤ, ◌≤ℤ◌}
use kruntimes.Base.Results.{Result, ok, err, ◌>>=◌, >>=-eq-ok}
use kruntimes.Scheduler.Score.{
  PodScore, PluginError, negative_raw_score, max_pod_score, raw_scores, maximum, scale_scores,
  normalize_by_maximum,
}

abbrev pub InRange : PodScore → Type 0
InRange s = (pos 0 ≤ℤ s.score) × (s.score ≤ℤ pos max_pod_score)

-- A score that is not negative and at most the given one.
abbrev AtMost : ℕ → PodScore → Type 0
AtMost top s = (pos 0 ≤ℤ s.score) × (pos_part s.score ≤ top)

maximum-le : (x : ℕ) (xs : List ℕ) → (x ≤ maximum (x ∷ xs)) × (maximum xs ≤ maximum (x ∷ xs))
maximum-le x xs = (ground arith, ground arith)

checked : PodScore → Result PluginError ℕ
checked s =
    if ltb_ℤ s.score (pos 0) then err (negative_raw_score s.pod_name) else ok (pos_part s.score)

raw_scores-AtMost :
    (scores : List PodScore) (raw : List ℕ)
    → raw_scores scores ≡ ok raw
    → All (AtMost (maximum raw)) scores
unfolding raw_scores checked
raw_scores-AtMost [] raw h = tt
raw_scores-AtMost (s ∷ scores) raw h =
    let (x, e, h₁) = >>=-eq-ok (checked s) (λ x. do rest ← raw_scores scores; ok (x ∷ rest)) h in
    let (rest, more, done) = >>=-eq-ok (raw_scores scores) (λ rest. ok (x ∷ rest)) h₁ in
    let same : x ∷ rest ≡ raw = cc in
    let (head, tail) = maximum-le x rest in
    subst (λ r. All (AtMost (maximum r)) (s ∷ scores)) same
      (
        (ground arith, ground arith),
        All-map (AtMost (maximum rest)) (AtMost (maximum (x ∷ rest))) (λ p q. (q.0, omega arith))
            scores (raw_scores-AtMost scores rest more),
      )

scaled_bound : (x m : ℕ) → 0 < m → x ≤ m → x * 100 / m ≤ 100
scaled_bound x m p h = grind arith

scale_scores-InRange :
    (m : ℕ) (scores : List PodScore)
    → 0 < m
    → All (AtMost m) scores
    → All InRange (scale_scores m scores)
unfolding scale_scores
scale_scores-InRange m [] p h = tt
scale_scores-InRange m (s ∷ scores) p h = (
  (omega arith, omega (arith, scaled_bound (pos_part s.score) m p h.0.1)),
  scale_scores-InRange m scores p h.1,
)

scale_scores-names :
    (m : ℕ) (scores : List PodScore)
    → map (λ s. s.pod_name) (scale_scores m scores) ≡ map (λ s. s.pod_name) scores
unfolding scale_scores
scale_scores-names m [] = refl
scale_scores-names m (s ∷ scores) = ap (λ r. s.pod_name ∷ r) (scale_scores-names m scores)

-- For any scores: if normalizing succeeds, the result names the same Pods in the same order and
-- every score is in 0..100.
pub normalize_by_maximum-InRange :
    (scores out : List PodScore)
    → normalize_by_maximum scores ≡ ok out
    → All InRange out × (map (λ s. s.pod_name) out ≡ map (λ s. s.pod_name) scores)
unfolding normalize_by_maximum
normalize_by_maximum-InRange scores out h =
    let (raw, e, done) =
      >>=-eq-ok (raw_scores scores)
        (λ raw. ok (if nat_eq (maximum raw) 0 then scores else scale_scores (maximum raw) scores))
        h in
    let below = raw_scores-AtMost scores raw e in
    elim (Bool-cases (nat_eq (maximum raw) 0)) [
      | inl zero_top ↦
          let same : scores ≡ out = cc (rw zero_top at done) in
          subst (λ o. All InRange o × (map (λ s. s.pod_name) o ≡ map (λ s. s.pod_name) scores)) same
            (All-map (AtMost (maximum raw)) InRange (λ s q. (q.0, ground arith)) scores below, refl)
      | inr positive ↦
          let same : scale_scores (maximum raw) scores ≡ out = cc (rw positive at done) in
          subst (λ o. All InRange o × (map (λ s. s.pod_name) o ≡ map (λ s. s.pod_name) scores)) same
            (
              scale_scores-InRange (maximum raw) scores (ground arith) below,
              scale_scores-names (maximum raw) scores,
            )
    ]
