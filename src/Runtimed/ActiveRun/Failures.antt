-- ===== src/Runtimed/ActiveRun/Failures.antt =====
-- The failures of execution starts: each is reported once at most, in the order of the starts.
use kruntimes.Base.{
  ℕ, suc, Bool-cases, ◌+◌, ◌≡◌, ◌⊎◌, inl, inr, refl, sym, ap, ◌∙◌, true, false, List, [], ◌∷◌, ◌++◌,
  Option, none, some, arith, length, length-append, if◌then◌else◌,
}
use mathlib.Core.Path.{subst}
use kruntimes.Runtimed.ActiveRun.{
  StartFailure, ActiveRun, begin_execution_start, finish_execution_start,
  consume_execution_start_failure,
}

abbrev pub listed : Option StartFailure → List StartFailure
listed none = []
listed (some failure) = failure ∷ []

-- The first list is what is left of the second when some elements are left out.
abbrev pub IsSubsequence : List StartFailure → List StartFailure → Type 0
IsSubsequence [] ys = Unit
IsSubsequence (x ∷ xs) [] = ⊥
IsSubsequence (x ∷ xs) (y ∷ ys) = (x ≡ y) × IsSubsequence xs ys ⊎ IsSubsequence (x ∷ xs) ys

module _ {R : Type 0} where
  -- The histories: how many starts were granted, the ends of starts with their failures, and the
  -- failures that were consumed. Only a start in flight can end.
  pub data Starts (first : ActiveRun R)
      : ℕ → List (Option StartFailure) → List StartFailure → ActiveRun R → Type 0 where
    idle : Starts first 0 [] [] first
    begins :
        {granted : ℕ} {ends : List (Option StartFailure)} {consumed : List StartFailure}
        {ar : ActiveRun R}
        → Starts first granted ends consumed ar
        → Starts first
            (if (begin_execution_start ar).1 then suc granted else granted)
            ends
            consumed
            (begin_execution_start ar).0
    ends_with :
        {granted : ℕ} {ends : List (Option StartFailure)} {consumed : List StartFailure}
        {ar : ActiveRun R} (failure : Option StartFailure)
        → Starts first granted ends consumed ar
        → ar.execution_starting ≡ true
        → Starts first granted (ends ++ failure ∷ []) consumed (finish_execution_start failure ar)
    consumes :
        {granted : ℕ} {ends : List (Option StartFailure)} {consumed : List StartFailure}
        {ar : ActiveRun R}
        → Starts first granted ends consumed ar
        → Starts first granted ends
            (consumed ++ listed (consume_execution_start_failure ar).1)
            (consume_execution_start_failure ar).0

abbrev pub failures : List (Option StartFailure) → List StartFailure
failures [] = []
failures (o ∷ os) = listed o ++ failures os

append_nil : (xs : List StartFailure) → xs ++ [] ≡ xs
append_nil [] = refl
append_nil (x ∷ xs) = ap (λ l. x ∷ l) (append_nil xs)

append_assoc : (xs ys zs : List StartFailure) → (xs ++ ys) ++ zs ≡ xs ++ (ys ++ zs)
append_assoc [] ys zs = refl
append_assoc (x ∷ xs) ys zs = ap (λ l. x ∷ l) (append_assoc xs ys zs)

failures-snoc :
    (os : List (Option StartFailure)) (o : Option StartFailure)
    → failures (os ++ o ∷ []) ≡ failures os ++ listed o
failures-snoc [] o = append_nil (listed o)
failures-snoc (p ∷ os) o =
    ap (λ l. listed p ++ l) (failures-snoc os o)
    ∙ sym (append_assoc (listed p) (failures os) (listed o))

IsSubsequence-front :
    (xs zs ys : List StartFailure) → IsSubsequence (xs ++ zs) ys → IsSubsequence xs ys
IsSubsequence-front [] zs ys h = tt
IsSubsequence-front (x ∷ xs) zs [] h = h
IsSubsequence-front (x ∷ xs) zs (y ∷ ys) (inl (here, h)) =
    inl (here, IsSubsequence-front xs zs ys h)
IsSubsequence-front (x ∷ xs) zs (y ∷ ys) (inr h) = inr (IsSubsequence-front (x ∷ xs) zs ys h)

IsSubsequence-self : (zs : List StartFailure) → IsSubsequence zs zs
IsSubsequence-self [] = tt
IsSubsequence-self (z ∷ zs) = inl (refl, IsSubsequence-self zs)

IsSubsequence-end : (zs ys : List StartFailure) → IsSubsequence zs (ys ++ zs)
IsSubsequence-end zs [] = IsSubsequence-self zs
IsSubsequence-end [] (y ∷ ys) = tt
IsSubsequence-end (z ∷ zs) (y ∷ ys) = inr (IsSubsequence-end (z ∷ zs) ys)

IsSubsequence-both :
    (xs ys zs : List StartFailure) → IsSubsequence xs ys → IsSubsequence (xs ++ zs) (ys ++ zs)
IsSubsequence-both [] ys zs h = IsSubsequence-end zs ys
IsSubsequence-both (x ∷ xs) [] zs h = elim h [ ]
IsSubsequence-both (x ∷ xs) (y ∷ ys) zs (inl (here, h)) = inl (here, IsSubsequence-both xs ys zs h)
IsSubsequence-both (x ∷ xs) (y ∷ ys) zs (inr h) = inr (IsSubsequence-both (x ∷ xs) ys zs h)

module _ {R : Type 0} where
  -- One start at most is in flight, and the failures consumed or waiting are among those reported.
  pub record IsAccounted (granted : ℕ) (ends : List (Option StartFailure))
      (consumed : List StartFailure) (ar : ActiveRun R) : Type 0 where
    pub counted : granted ≡ length ends + (if ar.execution_starting then 1 else 0)
    pub in_order : IsSubsequence (consumed ++ listed ar.execution_start) (failures ends)

  begin_start :
      (ar : ActiveRun R)
      → ((begin_execution_start ar).0.execution_start ≡ ar.execution_start)
        ⊎ ((begin_execution_start ar).0.execution_start ≡ none)
  unfolding begin_execution_start
  begin_start ar = elim (Bool-cases ar.execution_starting) [
    | inl busy ↦ inl (ground arith)
    | inr free ↦ inr (ground arith)
  ]

  begin-IsAccounted :
      (granted : ℕ) (ends : List (Option StartFailure)) (consumed : List StartFailure)
      (ar : ActiveRun R)
      → IsAccounted granted ends consumed ar
      → IsAccounted
          (if (begin_execution_start ar).1 then suc granted else granted)
          ends
          consumed
          (begin_execution_start ar).0
  unfolding begin_execution_start
  begin-IsAccounted granted ends consumed ar h = record {
    counted = ground (arith, h.counted);
    in_order = elim (begin_start ar) [
      | inl kept ↦
          subst (λ o. IsSubsequence (consumed ++ listed o) (failures ends)) (sym kept) h.in_order
      | inr cleared ↦
          subst (λ o. IsSubsequence (consumed ++ listed o) (failures ends)) (sym cleared)
            (rw (append_nil consumed)
              (IsSubsequence-front consumed (listed ar.execution_start) (failures ends) h.in_order))
    ];
  }

  -- For any history of the execution start of a Run that was idle: the starts that were granted are those
  -- that ended and the one in flight, if any, so two are never in flight together; and the failures that
  -- were consumed, with the one that waits, are among the failures of the ends, in their order and each
  -- once at most.
  pub Starts-IsAccounted :
      {first ar : ActiveRun R} {granted : ℕ} {ends : List (Option StartFailure)}
      {consumed : List StartFailure}
      → first.execution_starting ≡ false
      → first.execution_start ≡ none
      → Starts first granted ends consumed ar
      → IsAccounted granted ends consumed ar
  unfolding finish_execution_start consume_execution_start_failure
  Starts-IsAccounted free quiet idle = record { counted = ground arith; in_order = rw quiet tt }
  Starts-IsAccounted free quiet (begins {granted} {ends} {consumed} {ar} r) =
      begin-IsAccounted granted ends consumed ar (Starts-IsAccounted free quiet r)
  Starts-IsAccounted free quiet (ends_with {granted} {ends} {consumed} {ar} failure r busy) =
      let h = Starts-IsAccounted free quiet r in
      record {
        counted = ground (arith, h.counted, length-append ends (failure ∷ []));
        in_order = rw (failures-snoc ends failure) (
            IsSubsequence-both consumed (failures ends) (listed failure) (
              IsSubsequence-front consumed (listed ar.execution_start) (failures ends) h.in_order));
      }
  Starts-IsAccounted free quiet (consumes {granted} {ends} {consumed} {ar} r) =
      let h = Starts-IsAccounted free quiet r in
      record {
        counted = h.counted;
        in_order = rw (append_nil (consumed ++ listed ar.execution_start)) h.in_order;
      }
