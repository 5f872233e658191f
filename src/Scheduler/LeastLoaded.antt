-- ===== src/Scheduler/LeastLoaded.antt =====
-- internal/scheduler/strategy_leastloaded.go: Pods ranked by the utilisation that an assignment
-- would leave, its dominant resource first. A big.Rat is a fraction of numbers, unreduced: only
-- its order and sums are used.
pub mod Groups
use Prim.Native.Nat.{compare, Ordering}
use kruntimes.Base.{
  ℕ, zero, suc, ◌+◌, ◌-◌, ◌*◌, ◌/◌, String, string_eq, ◌==◌, Bool, true, false, List, [], ◌∷◌, map,
  Option, none, some, nat_eq, length, set, if◌then◌else◌,
}
use kruntimes.Base.Int.{ℤ, pos, pos_part, ltb_ℤ, leb_ℤ}
use kruntimes.Base.Maps.{Map, lookup, insert}
use kruntimes.Base.Results.{Result, ok, err, ◌>>=◌}
use kruntimes.Base.Sort.{sort_by}
use kruntimes.Api.Quantity.{QuantityOps, ResourceList}
use kruntimes.Api.Pod.{Pod}
use kruntimes.RuntimePod.{amount}
use kruntimes.Scheduler.Types.{SchedulingSnapshot}
use kruntimes.Scheduler.Cache.{resources_at}
use kruntimes.Scheduler.Filters.{pod_capacity}
use kruntimes.Scheduler.Score.{
  PodScore, PluginError, not_in_snapshot, bad_capacity, ScorePlugin, max_pod_score,
}

pub record Ratio : Type 0 where
  pub num : ℕ
  pub den : ℕ

abbrev pub zero_ratio : Ratio
zero_ratio = record { num = 0; den = 1 }

abbrev pub compare_ratio : Ratio → Ratio → Ordering
compare_ratio a b = compare (a.num * b.den) (b.num * a.den)

abbrev add_ratio : Ratio → Ratio → Ratio
add_ratio a b = record { num = a.num * b.den + b.num * a.den; den = a.den * b.den }

pub record ResourceScore : Type 0 where
  pub max : Ratio
  pub sum : Ratio

unfoldable pub compare_score : ResourceScore → ResourceScore → Ordering
compare_score a b = elim (compare_ratio a.max b.max) [
  | Ordering.eq ↦ compare_ratio a.sum b.sum
  | Ordering.lt ↦ Ordering.lt
  | Ordering.gt ↦ Ordering.gt
]

abbrev pub is_less : Ordering → Bool
is_less Ordering.lt = true
is_less _ = false

abbrev pub is_equal : Ordering → Bool
is_equal Ordering.eq = true
is_equal _ = false

abbrev pub is_greater : Ordering → Bool
is_greater Ordering.gt = true
is_greater _ = false

add_utilization : Ratio → ResourceScore → ResourceScore
add_utilization utilization score = record {
  max = if is_greater (compare_ratio utilization score.max) then utilization else score.max;
  sum = add_ratio score.sum utilization;
}

-- What a plugin of one cycle keeps with the place of a candidate.
pub record RankedScore : Type 0 where
  pub index : ℕ
  pub score : ResourceScore

ranked_before : RankedScore → RankedScore → Bool
ranked_before a b = is_less (compare_score a.score b.score)

by_name : List Pod → Map String Pod → Map String Pod
by_name [] m = m
by_name (pod ∷ pods) m = by_name pods (insert pod.name pod m)

module _ {Q : Type 0} (k : QuantityOps Q) where
  open k use {add, sign, value}

  quantity_ratio : String → Q → Q → Result PluginError Ratio
  quantity_ratio name numerator denominator =
      if leb_ℤ (value denominator) (pos 0)
      then err (bad_capacity name)
      else ok (record { num = pos_part (value numerator); den = pos_part (value denominator) })

  -- The loop over the capacity of a Pod.
  unfoldable pub capacity_score :
      ResourceList Q
      → ResourceList Q
      → ResourceList Q
      → ResourceScore
      → Result PluginError ResourceScore
  unfolding quantity_ratio add_utilization
  capacity_score [] usage request score = ok score
  capacity_score ((name, available) ∷ capacity) usage request score =
      let used = add (amount k name usage) (amount k name request) in
      let skip = capacity_score capacity usage request score in
      let next = λ (utilization : Ratio).
        capacity_score capacity usage request (add_utilization utilization score) in
      if leb_ℤ (sign available) (pos 0)
      then skip
      else if leb_ℤ (sign used) (pos 0)
      then skip
      else (quantity_ratio name used available >>= next)

  unfoldable pub resource_capacity_score :
      ResourceList Q → ResourceList Q → ResourceList Q → Result PluginError ResourceScore
  unfolding capacity_score
  resource_capacity_score capacity usage request =
      capacity_score capacity usage request (record { max = zero_ratio; sum = zero_ratio })

  score_known : SchedulingSnapshot Q → String → Option Pod → Result PluginError ResourceScore
  unfolding resource_capacity_score
  score_known s name none = err (not_in_snapshot name)
  score_known s name (some pod) =
      resource_capacity_score (pod_capacity k pod) (resources_at pod.name s.usage_by_pod) s.request

  unfoldable pub rank_scores :
      SchedulingSnapshot Q
      → Map String Pod
      → ℕ
      → List PodScore
      → Result PluginError (List RankedScore)
  unfolding score_known
  rank_scores s pods index [] = ok []
  rank_scores s pods index (p ∷ scores) = do
    score ← score_known s p.pod_name (lookup p.pod_name pods)
    rest ← rank_scores s pods (index + 1) scores
    ok (record { index = index; score = score } ∷ rest)

-- scores[index].score = value
unfoldable pub assign : List PodScore → ℕ → ℕ → List PodScore
assign [] i v = []
assign (p ∷ ps) zero v = record p { score = pos v } ∷ ps
assign (p ∷ ps) (suc i) v = p ∷ assign ps i v

-- The two nested loops over the ranked list in one: `start` is where the group of equal scores
-- began, `head` its score, and `at` the place of the next entry.
unfoldable pub group_scores :
    ℕ → ℕ → ResourceScore → ℕ → List RankedScore → List PodScore → List PodScore
unfolding assign
group_scores last start head at [] scores = scores
group_scores last start head at (r ∷ ranked) scores =
    let same = is_equal (compare_score r.score head) in
    let begin = if same then start else at in
    group_scores last begin (if same then head else r.score) (at + 1) ranked
      (assign scores r.index ((last - begin) * max_pod_score / last))

unfoldable pub assign_groups : List RankedScore → List PodScore → List PodScore
unfolding group_scores
assign_groups [] scores = scores
assign_groups (r ∷ []) scores = assign scores r.index max_pod_score
assign_groups (r ∷ q ∷ ranked) scores =
    group_scores (length (q ∷ ranked)) 0 r.score 0 (r ∷ q ∷ ranked) scores

module _ {Q : Type 0} (k : QuantityOps Q) where
  unfoldable pub normalize_least_loaded :
      SchedulingSnapshot Q → List PodScore → Result PluginError (List PodScore)
  unfolding by_name rank_scores ranked_before assign_groups
  normalize_least_loaded s scores = do
    ranked ← rank_scores k s (by_name s.pods []) 0 scores
    ok (assign_groups (sort_by ranked_before ranked) scores)

  unfoldable pub least_loaded_plugin : ScorePlugin Q
  unfolding normalize_least_loaded
  least_loaded_plugin = record {
    name = "LeastLoaded";
    score = λ _ _. ok (pos 0);
    normalize = some normalize_least_loaded;
  }
