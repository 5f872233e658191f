-- ===== src/Base/Maps.antt =====
-- Go maps as association lists: a read takes the first entry of its key, a write replaces it.
use mathlib.Core.Path.{◌≡◌, refl, subst}
use mathlib.Core.Option.{Option, none, some}
use mathlib.Core.Logic.{inl, inr}
use mathlib.Core.List.{List, [], ◌∷◌}
use native.Mathlib.Omega.{arith}
use kruntimes.Base.Tests.{Eq, ◌==◌, if◌then◌else◌, Bool-cases}
use kruntimes.Base.Lists.{All}

abbrev pub Map {ℓ κ} : Type ℓ → Type κ → Type (ℓ ⊔ κ)
Map K V = List (K × V)

module _ {ℓ κ} {K : Type ℓ} {V : Type κ} ⦃e : Eq K⦄ where
  -- m[k], with `ok`
  unfoldable pub lookup : K → Map K V → Option V
  lookup key [] = none
  lookup key ((k, v) ∷ more) = let later = lookup key more in if k == key then some v else later

  -- m[k] = v
  unfoldable pub insert : K → V → Map K V → Map K V
  insert k v [] = (k, v) ∷ []
  insert k v ((j, w) ∷ m) = let rest = insert k v m in if j == k then (k, v) ∷ m else (j, w) ∷ rest

  -- delete(m, k)
  unfoldable pub delete : K → Map K V → Map K V
  delete k [] = []
  delete k ((j, w) ∷ m) = let rest = delete k m in if j == k then rest else (j, w) ∷ rest

  pub lookup-insert :
      (written read : K) (v : V) (m : Map K V)
      → lookup read (insert written v m) ≡ (if written == read then some v else lookup read m)
  unfolding insert lookup
  lookup-insert written read v ((i, w) ∷ rest) = ground (
    arith,
    lookup-insert written read v rest,
    e.equal_iff i read,
    e.equal_iff i written,
    e.equal_iff written read,
  )
  lookup-insert written read v [] = refl

  pub lookup-delete :
      (k j : K) (m : Map K V) → lookup j (delete k m) ≡ (if k == j then none else lookup j m)
  unfolding lookup delete
  lookup-delete k j [] = ground arith
  lookup-delete k j ((i, w) ∷ m) =
      ground (arith, e.equal_iff k j, e.equal_iff i k, e.equal_iff i j, lookup-delete k j m)

  -- No key twice, as in every Go map.
  abbrev pub Unique : Map K V → Type κ
  Unique [] = Unit
  Unique ((k, v) ∷ m) = (lookup k m ≡ none) × Unique m

  -- What holds of each entry holds of what a read finds.
  pub All-lookup {μ} :
      (P : K × V → Type μ) (m : Map K V) (k : K) (v : V) → All P m → lookup k m ≡ some v → P (k, v)
  unfolding lookup
  All-lookup P [] k v h found = absurd (ground arith)
  All-lookup P ((j, w) ∷ m) k v h found = elim (Bool-cases (j == k)) [
    | inl same ↦
        let here : some w ≡ some v = rw same at found in
        let value : w ≡ v = cc in
        subst (λ x. P (k, x)) value (subst (λ x. P (x, w)) ((e.equal_iff j k).0 same) h.0)
    | inr other ↦ All-lookup P m k v h.1 (rw other at found)
  ]

  pub lookup-insert_self : (k : K) (v : V) (m : Map K V) → lookup k (insert k v m) ≡ some v
  lookup-insert_self k v m = rw (lookup-insert k k v m, (e.equal_iff k k).1 refl) refl

  pub lookup-delete_self : (k : K) (m : Map K V) → lookup k (delete k m) ≡ none
  lookup-delete_self k m = rw (lookup-delete k k m, (e.equal_iff k k).1 refl) refl
