-- ===== src/Scheduler/Cache/Totals.antt =====
-- Sums over resource lists, usages and reservations: what the accounting of the cache adds up to.
use mathlib.Core.Path.{subst}
use kruntimes.Base.{
  String, string_eq, ◌==◌, ◌≡◌, refl, eq_iff, Bool, true, false, [], ◌∷◌, Option, some,
  if◌then◌else◌, Bool-cases, inl, inr, ap, sym, ◌∙◌,
}
use kruntimes.Base.Int.{ℤ, pos, ◌+ℤ◌, int_laws, ◌≈ℤ◌, ≈_of_eq}
use kruntimes.Base.Maps.{lookup, insert, lookup-insert}
use kruntimes.Api.Quantity.{QuantityOps, QuantityLaws, ResourceList}
use kruntimes.RuntimePod.{amount}
use kruntimes.Scheduler.Types.{UsageByPod}
use kruntimes.Scheduler.Cache.{
  Reservations, or_empty, resources_at, add_resources, add_usage, add_reservations, usage_locked,
  merge_usage,
}

-- The summand, where the test holds.
abbrev pub when : Bool → ℤ → ℤ
when true z = z
when false z = pos 0

module _ {Q : Type 0} (k : QuantityOps Q) where
  -- What the entries of a resource add up to.
  abbrev pub total : String → ResourceList Q → ℤ
  total n [] = pos 0
  total n ((m, q) ∷ rest) = when (m == n) (k.value q) +ℤ total n rest

  abbrev pub total_at : String → String → UsageByPod Q → ℤ
  total_at pod n [] = pos 0
  total_at pod n ((p, resources) ∷ rest) =
      when (p == pod) (total n resources) +ℤ total_at pod n rest

  -- What the reservations hold of a resource on a Pod.
  abbrev pub held : String → String → Reservations Q → ℤ
  held pod n [] = pos 0
  held pod n ((_, r) ∷ rest) = when (r.pod_name == pod) (total n r.request) +ℤ held pod n rest

  -- What a usage map says of a resource on a Pod.
  abbrev pub read_at : String → String → UsageByPod Q → ℤ
  read_at pod n usage = k.value (amount k n (resources_at pod usage))

module _ {Q : Type 0} {k : QuantityOps Q} (laws : QuantityLaws k) where
  zero_lem : k.value k.zero_quantity ≈ℤ pos 0
  zero_lem = ≈_of_eq laws.value_zero

  add_lem : (a b : Q) → k.value (k.add a b) ≈ℤ k.value a +ℤ k.value b
  add_lem a b = ≈_of_eq (laws.value-add a b)

  total-insert :
      (n m : String) (v : Q) (res : ResourceList Q)
      → total k n (insert m v res) +ℤ when (m == n) (k.value (amount k m res))
        ≈ℤ total k n res +ℤ when (m == n) (k.value v)
  unfolding insert lookup
  total-insert n m v [] = elim (Bool-cases (m == n)) [
    | inl same ↦ rw same (omega (int_laws, zero_lem))
    | inr other ↦ rw other (omega int_laws)
  ]
  total-insert n m v ((j, w) ∷ res) = elim (Bool-cases (j == m)) [
    | inl found ↦ rw (found, (eq_iff j m).0 found) (omega int_laws)
    | inr passed ↦ rw passed (omega (int_laws, total-insert n m v res))
  ]

  total-add_resources :
      (n : String) (res request : ResourceList Q)
      → total k n (add_resources k res request) ≈ℤ total k n res +ℤ total k n request
  unfolding add_resources
  total-add_resources n res [] = omega int_laws
  total-add_resources n res ((m, q) ∷ request) =
      let sum = k.add (amount k m res) q in
      let ih = total-add_resources n (insert m sum res) request in
      let step = total-insert n m sum res in
      let added = add_lem (amount k m res) q in
      elim (Bool-cases (m == n)) [
        | inl same ↦ rw same (omega (int_laws, ih, rw same at step, added))
        | inr other ↦ rw other (omega (int_laws, ih, rw other at step))
      ]

  amount-bump :
      (n m : String) (q : Q) (res : ResourceList Q)
      → k.value (amount k n (insert m (k.add (amount k m res) q) res))
        ≈ℤ k.value (amount k n res) +ℤ when (m == n) (k.value q)
  amount-bump n m q res = elim (Bool-cases (m == n)) [
    | inl same ↦
        rw (lookup-insert m n (k.add (amount k m res) q) res, same, (eq_iff m n).0 same)
          (omega (int_laws, add_lem (amount k n res) q))
    | inr other ↦ rw (lookup-insert m n (k.add (amount k m res) q) res, other) (omega int_laws)
  ]

  amount-add_resources :
      (n : String) (res request : ResourceList Q)
      → k.value (amount k n (add_resources k res request))
        ≈ℤ k.value (amount k n res) +ℤ total k n request
  unfolding add_resources
  amount-add_resources n res [] = omega int_laws
  amount-add_resources n res ((m, q) ∷ request) = omega (
    int_laws,
    amount-add_resources n (insert m (k.add (amount k m res) q) res) request,
    amount-bump n m q res,
  )

  or_empty-if :
      (b : Bool) (x : ResourceList Q) (o : Option (ResourceList Q))
      → or_empty (if b then some x else o) ≡ (if b then x else or_empty o)
  or_empty-if true x o = refl
  or_empty-if false x o = refl

  resources_at-insert :
      (pod p : String) (x : ResourceList Q) (usage : UsageByPod Q)
      → resources_at pod (insert p x usage) ≡ (if p == pod then x else resources_at pod usage)
  resources_at-insert pod p x usage =
      ap or_empty (lookup-insert p pod x usage) ∙ or_empty-if (p == pod) x (lookup pod usage)

  choose_lem :
      (n : String) (b : Bool) (x y : ResourceList Q) (t : ℤ)
      → (b ≡ true → k.value (amount k n x) ≈ℤ k.value (amount k n y) +ℤ t)
      → k.value (amount k n (if b then x else y)) ≈ℤ k.value (amount k n y) +ℤ when b t
  choose_lem n true x y t h = h refl
  choose_lem n false x y t h = omega int_laws

  pub read_at-add_usage :
      (pod n p : String) (usage : UsageByPod Q) (request : ResourceList Q)
      → read_at k pod n (add_usage k usage p request)
        ≈ℤ read_at k pod n usage +ℤ when (p == pod) (total k n request)
  unfolding add_usage
  read_at-add_usage pod n p usage request =
      let added = add_resources k (resources_at p usage) request in
      subst
        (λ r.
          k.value (amount k n r) ≈ℤ read_at k pod n usage +ℤ when (p == pod) (total k n request))
        (sym (resources_at-insert pod p added usage))
        (choose_lem n (p == pod) added (resources_at pod usage) (total k n request) (λ same.
          subst (λ q. k.value (amount k n added) ≈ℤ read_at k q n usage +ℤ total k n request)
            ((eq_iff p pod).0 same) (amount-add_resources n (resources_at p usage) request)))

  -- Writing back what is there changes no reading.
  pub read_at-insert_same :
      (pod n p : String) (usage : UsageByPod Q)
      → read_at k pod n (insert p (resources_at p usage) usage) ≈ℤ read_at k pod n usage
  read_at-insert_same pod n p usage =
      subst (λ r. k.value (amount k n r) ≈ℤ read_at k pod n usage)
        (sym (resources_at-insert pod p (resources_at p usage) usage))
        (same (p == pod) (λ e. (eq_iff p pod).0 e))
    where
      same :
          (b : Bool)
          → (b ≡ true → p ≡ pod)
          → k.value (amount k n (if b then resources_at p usage else resources_at pod usage))
            ≈ℤ read_at k pod n usage
      same true e = subst (λ q. read_at k q n usage ≈ℤ read_at k pod n usage) (sym (e refl)) refl
      same false e = refl

  total_at-insert :
      (pod n p : String) (res : ResourceList Q) (usage : UsageByPod Q)
      → total_at k pod n (insert p res usage) +ℤ when (p == pod) (total k n (resources_at p usage))
        ≈ℤ total_at k pod n usage +ℤ when (p == pod) (total k n res)
  unfolding insert lookup
  total_at-insert pod n p res [] = elim (Bool-cases (p == pod)) [
    | inl same ↦ rw same (omega int_laws)
    | inr other ↦ rw other (omega int_laws)
  ]
  total_at-insert pod n p res ((j, w) ∷ usage) = elim (Bool-cases (j == p)) [
    | inl found ↦ rw (found, (eq_iff j p).0 found) (omega int_laws)
    | inr passed ↦ rw passed (omega (int_laws, total_at-insert pod n p res usage))
  ]

  when-add : (b : Bool) (x y z : ℤ) → x ≈ℤ y +ℤ z → when b x ≈ℤ when b y +ℤ when b z
  when-add true x y z h = h
  when-add false x y z h = omega int_laws

  total_at-add_usage :
      (pod n p : String) (usage : UsageByPod Q) (request : ResourceList Q)
      → total_at k pod n (add_usage k usage p request)
        ≈ℤ total_at k pod n usage +ℤ when (p == pod) (total k n request)
  unfolding add_usage
  total_at-add_usage pod n p usage request = omega (
    int_laws,
    total_at-insert pod n p (add_resources k (resources_at p usage) request) usage,
    when-add (p == pod) _ _ _ (total-add_resources n (resources_at p usage) request),
  )

  total_at-add_reservations :
      (pod n : String) (usage : UsageByPod Q) (rs : Reservations Q)
      → total_at k pod n (add_reservations k usage rs) ≈ℤ total_at k pod n usage +ℤ held k pod n rs
  unfolding add_reservations
  total_at-add_reservations pod n usage [] = omega int_laws
  total_at-add_reservations pod n usage ((_, r) ∷ rs) = omega (
    int_laws,
    total_at-add_reservations pod n (add_usage k usage r.pod_name r.request) rs,
    total_at-add_usage pod n r.pod_name usage r.request,
  )

  read_at-merge_usage :
      (pod n : String) (first second : UsageByPod Q)
      → read_at k pod n (merge_usage k first second)
        ≈ℤ read_at k pod n first +ℤ total_at k pod n second
  unfolding merge_usage
  read_at-merge_usage pod n first [] = omega int_laws
  read_at-merge_usage pod n first ((p, res) ∷ second) = omega (
    int_laws,
    read_at-merge_usage pod n (add_usage k first p res) second,
    read_at-add_usage pod n p first res,
  )

  -- For any usage and any reservations: the effective usage of a resource on a Pod is the actual
  -- one and what the reservations of that Pod hold of it.
  pub effective_usage :
      (pod n : String) (actual : UsageByPod Q) (rs : Reservations Q)
      → read_at k pod n (merge_usage k actual (usage_locked k rs))
        ≈ℤ read_at k pod n actual +ℤ held k pod n rs
  unfolding usage_locked
  effective_usage pod n actual rs = omega (
    int_laws,
    read_at-merge_usage pod n actual (add_reservations k [] rs),
    total_at-add_reservations pod n [] rs,
  )
