-- ===== src/Scheduler/Score/Ranking.antt =====
-- The ranking of the feasible Pods.
use mathlib.Core.Path.{subst}
use kruntimes.Base.{ℕ, ◌≤◌, ◌≡◌, true, false, List, [], ◌∷◌, arith, inl, inr, ◌⊎◌}
use kruntimes.Base.Results.{ok, >>=-eq-ok}
use kruntimes.Base.Sort.{Member, Member-sort_by, sort_by-Member, IsRanked, sort_by-IsRanked}
use kruntimes.Api.Pod.{Pod}
use kruntimes.Scheduler.Types.{SchedulingSnapshot}
use kruntimes.Scheduler.Score.{
  ScoredPod, RegisteredScorePlugin, ranks_before, attach, rank, score_all, score_and_rank, zeros,
}
use kruntimes.Scheduler.Score.Weighing.{IsWeighed, score_all-IsWeighed}

ranks_before-total : (x y : ScoredPod) → ranks_before x y ≡ true → y.total ≤ x.total
unfolding ranks_before
ranks_before-total x y h = ground arith

ranks_after-total : (x y : ScoredPod) → ranks_before x y ≡ false → x.total ≤ y.total
unfolding ranks_before
ranks_after-total x y h = ground arith

-- The Pod is a candidate, and its total is the one at its place.
abbrev pub HasTotal : List Pod → List ℕ → ScoredPod → Type 0
HasTotal (pod ∷ pods) (total ∷ totals) s =
    ((s.pod ≡ pod) × (s.total ≡ total)) ⊎ HasTotal pods totals s
HasTotal _ _ s = ⊥

Member-attach :
    (s : ScoredPod) (pods : List Pod) (totals : List ℕ)
    → Member s (attach pods totals)
    → HasTotal pods totals s
unfolding attach
Member-attach s [] totals m = elim m [ ]
Member-attach s (p ∷ pods) [] m = elim m [ ]
Member-attach s (p ∷ pods) (t ∷ totals) (inl e) = inl ((λ i. (e i).pod), λ i. (e i).total)
Member-attach s (p ∷ pods) (t ∷ totals) (inr m) = inr (Member-attach s pods totals m)

attach-Member :
    (s : ScoredPod) (pods : List Pod) (totals : List ℕ)
    → HasTotal pods totals s
    → Member s (attach pods totals)
unfolding attach
attach-Member s [] totals m = elim m [ ]
attach-Member s (p ∷ pods) [] m = elim m [ ]
attach-Member s (p ∷ pods) (t ∷ totals) (inl (e, e')) =
    inl (λ i. record { pod = e i; total = e' i })
attach-Member s (p ∷ pods) (t ∷ totals) (inr m) = inr (attach-Member s pods totals m)

HasTotal-Member :
    (s : ScoredPod) (pods : List Pod) (totals : List ℕ) → HasTotal pods totals s → Member s.pod pods
HasTotal-Member s [] totals m = elim m [ ]
HasTotal-Member s (p ∷ pods) [] m = elim m [ ]
HasTotal-Member s (p ∷ pods) (t ∷ totals) (inl (e, _)) = inl e
HasTotal-Member s (p ∷ pods) (t ∷ totals) (inr m) = inr (HasTotal-Member s pods totals m)

module _ {Q : Type 0} (snapshot : SchedulingSnapshot Q) where
  -- The ranking of the candidates by their weighted totals.
  pub record IsRanking (candidates : List Pod) (plugins : List (RegisteredScorePlugin Q))
      (ranked : List ScoredPod) : Type 0 where
    pub totals : List ℕ
    pub are_weighed : IsWeighed snapshot candidates plugins (zeros candidates) totals
    pub in_order : IsRanked (λ (s : ScoredPod). s.total) ranked
    pub no_other : (s : ScoredPod) → Member s ranked → HasTotal candidates totals s
    pub each : (s : ScoredPod) → HasTotal candidates totals s → Member s ranked

  -- For any candidates and plugins: if ranking succeeds, the ranked Pods are exactly the candidates,
  -- each with its own total, which is the sum of its scores by the plugins, normalized where a
  -- plugin does so, times the weights of the plugins, and they stand in descending order of the totals.
  pub score_and_rank-IsRanked :
      (candidates : List Pod) (plugins : List (RegisteredScorePlugin Q)) (ranked : List ScoredPod)
      → score_and_rank snapshot candidates plugins ≡ ok ranked
      → IsRanking candidates plugins ranked
  unfolding score_and_rank rank
  score_and_rank-IsRanked [] plugins ranked h = absurd (ground arith)
  score_and_rank-IsRanked (pod ∷ pods) plugins ranked h =
      let (totals, counted, done) =
        >>=-eq-ok (score_all snapshot (pod ∷ pods) plugins (zeros (pod ∷ pods)))
          (λ totals. ok (rank (pod ∷ pods) totals)) h in
      let same : rank (pod ∷ pods) totals ≡ ranked = cc in
      subst (IsRanking (pod ∷ pods) plugins) same (record {
        totals = totals;
        are_weighed = score_all-IsWeighed snapshot (pod ∷ pods) plugins _ totals counted;
        in_order =
            sort_by-IsRanked ranks_before (λ s. s.total) ranks_before-total ranks_after-total
              (attach (pod ∷ pods) totals);
        no_other = λ s m. Member-attach s (pod ∷ pods) totals (Member-sort_by ranks_before s _ m);
        each = λ s m. sort_by-Member ranks_before s _ (attach-Member s (pod ∷ pods) totals m);
      })

  -- What is ranked is a candidate.
  pub score_and_rank-Member :
      (candidates : List Pod) (plugins : List (RegisteredScorePlugin Q)) (ranked : List ScoredPod)
      → score_and_rank snapshot candidates plugins ≡ ok ranked
      → (s : ScoredPod) → Member s ranked
      → Member s.pod candidates
  score_and_rank-Member candidates plugins ranked h s m =
      let k = score_and_rank-IsRanked candidates plugins ranked h in
      HasTotal-Member s candidates k.totals (k.no_other s m)
