-- ===== src/RuntimePod/Fitting.antt =====
-- What Fits computes: a request fits exactly if each positive part of it does.
use kruntimes.Base.{
  string_eq, String, ◌≡◌, ◌↔◌, true, refl, [], ◌∷◌, some, All, arith, Option-cases, inl, inr,
  Bool-cases,
}
use kruntimes.Base.Int.{pos, ◌≤ℤ◌, ◌+ℤ◌}
use kruntimes.Base.Maps.{lookup}
use kruntimes.Api.Quantity.{QuantityOps, QuantityLaws, ResourceList}
use kruntimes.RuntimePod.{amount, is_positive, fits, fits_one}

module _ {Q : Type 0} {k : QuantityOps Q} (laws : QuantityLaws k) where
  open k use {value}

  -- There is capacity for that much more of a resource.
  pub record HasRoom (capacity usage : ResourceList Q) (name : String) (requested : Q)
      : Type 0 where
    pub available : Q
    pub advertised : lookup name capacity ≡ some available
    pub within : value (amount k name usage) +ℤ value requested ≤ℤ value available

  abbrev pub RoomFor : ResourceList Q → ResourceList Q → String × Q → Type 0
  RoomFor capacity usage (name, requested) =
      pos 1 ≤ℤ value requested → HasRoom capacity usage name requested

  fits_one-HasRoom :
      (capacity usage : ResourceList Q) (name : String) (requested : Q)
      → fits_one k (lookup name capacity) (amount k name usage) requested ≡ true
      → HasRoom capacity usage name requested
  unfolding fits_one
  fits_one-HasRoom capacity usage name requested h = elim (Option-cases (lookup name capacity)) [
    | inl missing ↦ absurd (ground arith)
    | inr (q, found) ↦ record {
      available = q;
      advertised = found;
      within = ground (
        arith,
        laws.cmp_pos (k.add (amount k name usage) requested) q,
        laws.value-add (amount k name usage) requested,
      );
    }
  ]

  HasRoom-fits_one :
      (capacity usage : ResourceList Q) (name : String) (requested : Q)
      → HasRoom capacity usage name requested
      → fits_one k (lookup name capacity) (amount k name usage) requested ≡ true
  unfolding fits_one
  HasRoom-fits_one capacity usage name requested h = ground (
    arith,
    h.advertised,
    laws.cmp_pos (k.add (amount k name usage) requested) h.available,
    laws.value-add (amount k name usage) requested,
  )

  -- For requests, capacities and usages of any amounts: Fits accepts a request exactly if for each
  -- of its resources with a positive amount the capacity advertises that resource and has room
  -- for the usage and the request together.
  pub fits_iff :
      (capacity usage request : ResourceList Q)
      → (fits k capacity usage request ≡ true) ↔ All (RoomFor capacity usage) request
  unfolding fits
  fits_iff capacity usage [] = (λ _. tt, λ _. refl)
  fits_iff capacity usage ((name, requested) ∷ rest) =
      let (sound, complete) = fits_iff capacity usage rest in
      elim (Bool-cases (is_positive k requested)) [
        | inl more ↦ (
          λ h. (
            λ _. fits_one-HasRoom capacity usage name requested (ground arith),
            sound (ground arith),
          ),
          λ h. ground (
            arith,
            complete h.1,
            HasRoom-fits_one capacity usage name requested
                (h.0 (ground (arith, laws.sign_pos requested))),
          ),
        )
        | inr none_wanted ↦ (
          λ h. (λ p. absurd (ground (arith, laws.sign_pos requested)), sound (ground arith)),
          λ h. ground (arith, complete h.1),
        )
      ]
