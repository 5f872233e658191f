-- ===== src/Scheduler/LeastLoaded/Groups.antt =====
-- The scores that LeastLoaded writes are in 0..100, and it keeps the Pods.
use mathlib.Core.Path.{subst}
use kruntimes.Base.{
  ℕ, zero, suc, ◌+◌, ◌-◌, ◌*◌, ◌/◌, ◌≤◌, ◌≡◌, String, List, [], ◌∷◌, map, arith, All, length,
  if◌then◌else◌, refl, ap, ◌∙◌,
}
use kruntimes.Base.Results.{ok, >>=-eq-ok}
use kruntimes.Base.Sort.{sort_by}
use kruntimes.Api.Quantity.{QuantityOps}
use kruntimes.Scheduler.Types.{SchedulingSnapshot}
use kruntimes.Scheduler.Score.{PodScore, max_pod_score}
use kruntimes.Scheduler.Score.Normalize.{InRange}
use kruntimes.Scheduler.LeastLoaded.{
  RankedScore, ResourceScore, assign, group_scores, assign_groups, compare_score, is_equal, by_name,
  rank_scores, ranked_before, normalize_least_loaded,
}

abbrev pod_names : List PodScore → List String
pod_names scores = map (λ s. s.pod_name) scores

-- The same Pods, with scores in range.
record IsScored (before after : List PodScore) : Type 0 where
  in_range : All InRange after
  same_pods : pod_names after ≡ pod_names before

assign-IsScored :
    (scores : List PodScore) (i v : ℕ)
    → v ≤ max_pod_score
    → All InRange scores
    → IsScored scores (assign scores i v)
unfolding assign
assign-IsScored [] i v b h = record { in_range = tt; same_pods = refl }
assign-IsScored (p ∷ ps) zero v b h = record {
  in_range = ((omega arith, omega arith), h.1);
  same_pods = refl;
}
assign-IsScored (p ∷ ps) (suc i) v b h =
    let rest = assign-IsScored ps i v b h.1 in
    record { in_range = (h.0, rest.in_range); same_pods = ap (λ r. p.pod_name ∷ r) rest.same_pods }

share_bound : (last begin : ℕ) → (last - begin) * 100 / last ≤ 100
share_bound zero begin = omega arith
share_bound (suc l) begin = grind arith

group_scores-IsScored :
    (last start : ℕ) (head : ResourceScore) (at : ℕ) (ranked : List RankedScore)
    (scores : List PodScore)
    → All InRange scores
    → IsScored scores (group_scores last start head at ranked scores)
unfolding group_scores
group_scores-IsScored last start head at [] scores h = record { in_range = h; same_pods = refl }
group_scores-IsScored last start head at (r ∷ ranked) scores h =
    let same = is_equal (compare_score r.score head) in
    let begin = if same then start else at in
    let value = (last - begin) * max_pod_score / last in
    let now = assign-IsScored scores r.index value (share_bound last begin) h in
    let later =
      group_scores-IsScored last begin (if same then head else r.score) (at + 1) ranked
        (assign scores r.index value) now.in_range in
    record { in_range = later.in_range; same_pods = later.same_pods ∙ now.same_pods }

assign_groups-IsScored :
    (ranked : List RankedScore) (scores : List PodScore)
    → All InRange scores
    → IsScored scores (assign_groups ranked scores)
unfolding assign_groups
assign_groups-IsScored [] scores h = record { in_range = h; same_pods = refl }
assign_groups-IsScored (r ∷ []) scores h =
    assign-IsScored scores r.index max_pod_score (omega arith) h
assign_groups-IsScored (r ∷ q ∷ ranked) scores h =
    group_scores-IsScored (length (q ∷ ranked)) 0 r.score 0 (r ∷ q ∷ ranked) scores h

-- For any snapshot and any scores in 0..100, as the plugin's own zeros are: if LeastLoaded
-- normalizes them without an error, the result names the same Pods in the same order and every
-- score is in 0..100.
pub normalize_least_loaded-InRange :
    {Q : Type 0} (k : QuantityOps Q) (s : SchedulingSnapshot Q) (scores out : List PodScore)
    → All InRange scores
    → normalize_least_loaded k s scores ≡ ok out
    → All InRange out × (map (λ p. p.pod_name) out ≡ map (λ p. p.pod_name) scores)
unfolding normalize_least_loaded
normalize_least_loaded-InRange k s scores out h e =
    let (ranked, _, done) =
      >>=-eq-ok (rank_scores k s (by_name s.pods []) 0 scores)
        (λ ranked. ok (assign_groups (sort_by ranked_before ranked) scores)) e in
    let same : assign_groups (sort_by ranked_before ranked) scores ≡ out = cc in
    let scored = assign_groups-IsScored (sort_by ranked_before ranked) scores h in
    subst (λ o. All InRange o × (map (λ p. p.pod_name) o ≡ map (λ p. p.pod_name) scores)) same
      (scored.in_range, scored.same_pods)
