-- ===== src/Base/Sort.antt =====
-- The sort package, as insertion by the comparison that the caller gives.
use Prim.Native.Nat.{ℕ, ◌≤◌}
use mathlib.Core.Path.{◌≡◌, subst, sym}
use mathlib.Core.Logic.{◌⊎◌, inl, inr}
use mathlib.Core.Bool.{Bool, true, false}
use mathlib.Core.List.{List, [], ◌∷◌}
use native.Mathlib.Omega.{arith}
use kruntimes.Base.Tests.{if◌then◌else◌, Bool-cases}
use kruntimes.Base.Lists.{All, All-map, select}

-- Membership with its place.
abbrev pub Member : {A : Type 0} → A → List A → Type 0
Member x [] = ⊥
Member x (y ∷ ys) = (x ≡ y) ⊎ Member x ys

pub All-Member :
    {A : Type 0} (P : A → Type 0) (xs : List A) → ((x : A) → Member x xs → P x) → All P xs
All-Member P [] h = tt
All-Member P (x ∷ xs) h = (h x (inl (λ i. x)), All-Member P xs (λ y m. h y (inr m)))

pub Member-All : {A : Type 0} (P : A → Type 0) (x : A) (xs : List A) → All P xs → Member x xs → P x
Member-All P x [] h m = elim m [ ]
Member-All P x (y ∷ ys) h (inl e) = subst P (sym e) h.0
Member-All P x (y ∷ ys) h (inr m) = Member-All P x ys h.1 m

-- What the filtering loop keeps was there, and passes.
pub Member-select :
    {A : Type 0} (p : A → Bool) (x : A) (xs : List A)
    → Member x (select p xs)
    → Member x xs × (p x ≡ true)
unfolding select
Member-select p x [] m = elim m [ ]
Member-select p x (y ∷ ys) m = elim (Bool-cases (p y)) [
  | inl kept ↦ elim (rw kept at m) [
    | inl here ↦ (inl here, rw here kept)
    | inr later ↦ let (member, passes) = Member-select p x ys later in (inr member, passes)
  ]
  | inr dropped ↦
      let (member, passes) = Member-select p x ys (rw dropped at m) in (inr member, passes)
]

module _ {A : Type 0} (less : A → A → Bool) where
  unfoldable pub insert_by : A → List A → List A
  insert_by x [] = x ∷ []
  insert_by x (y ∷ ys) = let rest = insert_by x ys in if less y x then y ∷ rest else x ∷ y ∷ ys

  unfoldable pub sort_by : List A → List A
  unfolding insert_by
  sort_by [] = []
  sort_by (x ∷ xs) = insert_by x (sort_by xs)

  Member-insert_by : (z x : A) (ys : List A) → Member z (insert_by x ys) → (z ≡ x) ⊎ Member z ys
  unfolding insert_by
  Member-insert_by z x [] m = m
  Member-insert_by z x (y ∷ ys) m = elim (Bool-cases (less y x)) [
    | inl before ↦ elim (rw before at m) [
      | inl here ↦ inr (inl here)
      | inr later ↦ elim (Member-insert_by z x ys later) [
        | inl new ↦ inl new
        | inr old ↦ inr (inr old)
      ]
    ]
    | inr after ↦ rw after at m
  ]

  -- Sorting invents nothing.
  pub Member-sort_by : (z : A) (xs : List A) → Member z (sort_by xs) → Member z xs
  unfolding sort_by
  Member-sort_by z [] m = m
  Member-sort_by z (x ∷ xs) m = elim (Member-insert_by z x (sort_by xs) m) [
    | inl new ↦ inl new
    | inr old ↦ inr (Member-sort_by z xs old)
  ]

  insert_by-Member : (z x : A) (ys : List A) → (z ≡ x) ⊎ Member z ys → Member z (insert_by x ys)
  unfolding insert_by
  insert_by-Member z x [] m = m
  insert_by-Member z x (y ∷ ys) m = elim (Bool-cases (less y x)) [
    | inl before ↦ rw before (elim m [
      | inl new ↦ inr (insert_by-Member z x ys (inl new))
      | inr (inl here) ↦ inl here
      | inr (inr later) ↦ inr (insert_by-Member z x ys (inr later))
    ])
    | inr after ↦ rw after m
  ]

  -- What is sorted is still there.
  pub sort_by-Member : (z : A) (xs : List A) → Member z xs → Member z (sort_by xs)
  unfolding sort_by
  sort_by-Member z (x ∷ xs) (inl new) = insert_by-Member z x (sort_by xs) (inl new)
  sort_by-Member z (x ∷ xs) (inr old) =
      insert_by-Member z x (sort_by xs) (inr (sort_by-Member z xs old))
  sort_by-Member z [] m = elim m [ ]

  All-insert_by : (P : A → Type 0) (x : A) (ys : List A) → P x → All P ys → All P (insert_by x ys)
  unfolding insert_by
  All-insert_by P x [] px h = (px, tt)
  All-insert_by P x (y ∷ ys) px h = elim (Bool-cases (less y x)) [
    | inl before ↦ rw before (h.0, All-insert_by P x ys px h.1)
    | inr after ↦ rw after (px, h)
  ]

  -- Sorting loses nothing.
  pub All-sort_by : (P : A → Type 0) (xs : List A) → All P xs → All P (sort_by xs)
  unfolding sort_by
  All-sort_by P [] h = tt
  All-sort_by P (x ∷ xs) h = All-insert_by P x (sort_by xs) h.0 (All-sort_by P xs h.1)

module _ {A : Type 0} (key : A → ℕ) where
  -- In descending order of the key.
  abbrev pub IsRanked : List A → Type 0
  IsRanked [] = Unit
  IsRanked (x ∷ xs) = All (λ z. key z ≤ key x) xs × IsRanked xs

module _ {A : Type 0} (less : A → A → Bool) (key : A → ℕ)
    (first : (x y : A) → less x y ≡ true → key y ≤ key x)
    (rest : (x y : A) → less x y ≡ false → key x ≤ key y) where
  insert_by-IsRanked : (x : A) (ys : List A) → IsRanked key ys → IsRanked key (insert_by less x ys)
  unfolding insert_by
  insert_by-IsRanked x [] h = (tt, tt)
  insert_by-IsRanked x (y ∷ ys) h = elim (Bool-cases (less y x)) [
    | inl before ↦ rw before (
      All-insert_by less (λ z. key z ≤ key y) x ys (first y x before) h.0,
      insert_by-IsRanked x ys h.1,
    )
    | inr after ↦ rw after (
      (
        rest y x after,
        All-map (λ z. key z ≤ key y) (λ z. key z ≤ key x) (λ z le. omega (arith, rest y x after)) ys
            h.0,
      ),
      h,
    )
  ]

  -- A comparison that puts larger keys first leaves them in descending order.
  pub sort_by-IsRanked : (xs : List A) → IsRanked key (sort_by less xs)
  unfolding sort_by
  sort_by-IsRanked [] = tt
  sort_by-IsRanked (x ∷ xs) = insert_by-IsRanked x (sort_by less xs) (sort_by-IsRanked xs)
