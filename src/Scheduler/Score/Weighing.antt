-- ===== src/Scheduler/Score/Weighing.antt =====
-- The totals of internal/scheduler/score.go: the weighted sums of what the plugins report.
use kruntimes.Base.{
  ℕ, ◌+◌, ◌*◌, String, ◌≡◌, sym, ap, ◌∙◌, List, [], ◌∷◌, Option, none, some, arith, inl, inr,
  Bool-cases, ltb, ◌-◌, ◌/◌,
}
use mathlib.Core.Path.{subst}
use kruntimes.Base.Int.{pos, pos_part, ltb_ℤ}
use kruntimes.Base.Results.{Result, ok, err, traverse, traverse-cons, >>=-eq-ok}
use kruntimes.Api.Pod.{Pod}
use kruntimes.Scheduler.Types.{SchedulingSnapshot}
use kruntimes.Scheduler.Score.{
  PodScore, PluginError, ScorePlugin, RegisteredScorePlugin, ScoreError, tag, add_score, accumulate,
  score_pod, normalized, score_all, max_int64, max_pod_score,
}

-- The totals once each score counts with the weight of its plugin.
abbrev pub weighed : ℕ → List PodScore → List ℕ → List ℕ
weighed weight (s ∷ scores) (total ∷ totals) =
    (total + pos_part s.score * weight) ∷ weighed weight scores totals
weighed weight [] totals = totals
weighed weight (s ∷ scores) [] = []

tag-eq-ok :
    {A : Type 0} (name : String) (r : Result PluginError A) (a : A) → tag name r ≡ ok a → r ≡ ok a
tag-eq-ok name (ok x) a h = ap ok cc
tag-eq-ok name (err e) a h = absurd (ground arith)

add_score-weighed :
    (name : String) (weight : ℕ) (s : PodScore) (total added : ℕ)
    → add_score name weight s total ≡ ok added
    → total + pos_part s.score * weight ≡ added
unfolding add_score
add_score-weighed name weight s total added h = elim (Bool-cases (ltb_ℤ s.score (pos 0))) [
  | inl low ↦ absurd (ground (arith, rw low at h))
  | inr fine ↦ elim (Bool-cases (ltb_ℤ (pos max_pod_score) s.score)) [
    | inl high ↦ absurd (ground (arith, rw (fine, high) at h))
    | inr small ↦ elim (Bool-cases (ltb ((max_int64 - total) / weight) (pos_part s.score))) [
      | inl over ↦ absurd (ground (arith, rw (fine, small, over) at h))
      | inr within ↦
          let e : ◌≡◌ {A = Result ScoreError ℕ} (ok (total + pos_part s.score * weight))
              (ok added) =
            rw (fine, small, within) at h in
          cc
    ]
  ]
]

accumulate-weighed :
    (name : String) (weight : ℕ) (scores : List PodScore) (totals added : List ℕ)
    → accumulate name weight scores totals ≡ ok added
    → weighed weight scores totals ≡ added
unfolding accumulate
accumulate-weighed name weight [] totals added h = cc
accumulate-weighed name weight (s ∷ scores) [] added h = cc
accumulate-weighed name weight (s ∷ scores) (total ∷ totals) added h =
    let (x, first, h₁) = >>=-eq-ok (add_score name weight s total) _ h in
    let (xs, later, h₂) = >>=-eq-ok (accumulate name weight scores totals) _ h₁ in
    let head = add_score-weighed name weight s total x first in
    let tail = accumulate-weighed name weight scores totals xs later in cc

module _ {Q : Type 0} (snapshot : SchedulingSnapshot Q) where
  -- The raw scores that a plugin gives to the candidates.
  abbrev pub IsRaw : ScorePlugin Q → List Pod → List PodScore → Type 0
  IsRaw plugin [] [] = Unit
  IsRaw plugin (pod ∷ pods) (s ∷ scores) =
      (s.pod_name ≡ pod.name) × (plugin.score snapshot pod ≡ ok s.score) × IsRaw plugin pods scores
  IsRaw plugin _ _ = ⊥

  -- The scores that count: those of the normalizer, if the plugin has one.
  abbrev pub IsNormalized :
      Option (SchedulingSnapshot Q → List PodScore → Result PluginError (List PodScore))
      → List PodScore
      → List PodScore
      → Type 0
  IsNormalized none raw scores = scores ≡ raw
  IsNormalized (some normalize) raw scores = normalize snapshot raw ≡ ok scores

  -- The totals of the candidates: the start, and the weighted scores of each plugin in turn.
  abbrev pub IsWeighed : List Pod → List (RegisteredScorePlugin Q) → List ℕ → List ℕ → Type 0
  IsWeighed pods [] start totals = totals ≡ start
  IsWeighed pods (r ∷ plugins) start totals =
      (raw : List PodScore) × (scores : List PodScore) × IsRaw r.plugin pods raw
      × IsNormalized r.plugin.normalize raw scores
      × IsWeighed pods plugins (weighed r.weight scores start) totals

  traverse-IsRaw :
      (plugin : ScorePlugin Q) (pods : List Pod) (raw : List PodScore)
      → traverse (score_pod snapshot plugin) pods ≡ ok raw
      → IsRaw plugin pods raw
  unfolding score_pod
  traverse-IsRaw plugin [] raw h =
      let empty : [] ≡ raw = cc in subst (λ r. IsRaw plugin [] r) empty tt
  traverse-IsRaw plugin (pod ∷ pods) raw h =
      let (s, rest, first, later, made_of) = traverse-cons (score_pod snapshot plugin) pod pods h in
      let (x, scored, made) = >>=-eq-ok (tag plugin.name (plugin.score snapshot pod)) _ first in
      let same : s ∷ rest ≡ raw = sym made_of in
      let is_s : record { pod_name = pod.name; score = x } ≡ s = cc in
      subst (IsRaw plugin (pod ∷ pods)) same (
        ap (λ (p : PodScore). p.pod_name) (sym is_s),
        tag-eq-ok plugin.name (plugin.score snapshot pod) x scored
            ∙ ap (λ (p : PodScore). ok p.score) is_s,
        traverse-IsRaw plugin pods rest later,
      )

  normalized-IsNormalized :
      (name : String)
      (normalize : Option
        (SchedulingSnapshot Q → List PodScore → Result PluginError (List PodScore)))
      (raw scores : List PodScore)
      → normalized snapshot name normalize raw ≡ ok scores
      → IsNormalized normalize raw scores
  unfolding normalized
  normalized-IsNormalized name none raw scores h = cc
  normalized-IsNormalized name (some normalize) raw scores h =
      tag-eq-ok name (normalize snapshot raw) scores h

  pub score_all-IsWeighed :
      (pods : List Pod) (plugins : List (RegisteredScorePlugin Q)) (start totals : List ℕ)
      → score_all snapshot pods plugins start ≡ ok totals
      → IsWeighed pods plugins start totals
  unfolding score_all
  score_all-IsWeighed pods [] start totals h = cc
  score_all-IsWeighed pods (r ∷ plugins) start totals h =
      let (raw, read, h₁) = >>=-eq-ok (traverse (score_pod snapshot r.plugin) pods) _ h in
      let (scores, made, h₂) =
        >>=-eq-ok (normalized snapshot r.plugin.name r.plugin.normalize raw) _ h₁ in
      let (added, summed, h₃) = >>=-eq-ok (accumulate r.plugin.name r.weight scores start) _ h₂ in
      (
        raw,
        scores,
        traverse-IsRaw r.plugin pods raw read,
        normalized-IsNormalized r.plugin.name r.plugin.normalize raw scores made,
        subst (λ sums. IsWeighed pods plugins sums totals)
            (sym (accumulate-weighed r.plugin.name r.weight scores start added summed))
            (score_all-IsWeighed pods plugins added totals h₃),
      )
