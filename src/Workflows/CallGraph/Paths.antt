-- ===== src/Workflows/CallGraph/Paths.antt =====
-- Paths of calls, and what an error of the search shows.
use kruntimes.Base.{
  suc, ◌≡◌, refl, String, string_eq, ◌==◌, List, [], ◌∷◌, ◌++◌, none, some, arith, inl, inr,
  Bool-cases, length, get_elem?, eq_iff,
}
use kruntimes.Base.Sort.{Member}
use kruntimes.Api.Workflow.{WorkflowSpec}
use kruntimes.Workflows.CallGraph.{
  WorkflowLookup, loaded, load_error, absent, CallGraphError, call_cycle, too_deep,
  get_workflow_failed, empty_result, called_workflow_names, from_first, max_call_depth,
}

module _ (l : WorkflowLookup) where
  -- One workflow has a job that uses the other.
  abbrev pub Calls : String → String → Type 0
  Calls x y = (w : WorkflowSpec) × (l x ≡ loaded w) × Member y (called_workflow_names w.jobs)

  abbrev CallsFirst : String → List String → Type 0
  CallsFirst x [] = Unit
  CallsFirst x (y ∷ ys) = Calls x y

  -- Each workflow of the list calls the next.
  abbrev pub IsCallPath : List String → Type 0
  IsCallPath [] = Unit
  IsCallPath (x ∷ xs) = CallsFirst x xs × IsCallPath xs

  abbrev pub StartsAt : String → List String → Type 0
  StartsAt root names = get_elem? names 0 ≡ some root

  -- A path of calls from the root to the name.
  pub record IsReached (root : String) (before : List String) (name : String) : Type 0 where
    pub path : IsCallPath (before ++ name ∷ [])
    pub starts : StartsAt root (before ++ name ∷ [])

  -- What each error of the search shows of the workflows; the other errors do not occur.
  abbrev pub IsJustified : String → CallGraphError → Type 0
  IsJustified root (call_cycle names) =
      (name : String) × (middle : List String) × (names ≡ name ∷ middle ++ name ∷ [])
      × IsCallPath names
  IsJustified root (too_deep names) =
      IsCallPath names × StartsAt root names × (length names ≡ suc max_call_depth)
  IsJustified root (get_workflow_failed name) =
      (before : List String) × IsReached root before name × (l name ≡ load_error)
  IsJustified root (empty_result name) =
      (before : List String) × IsReached root before name × (l name ≡ absent)
  IsJustified root _ = ⊥

  CallPath-snoc :
      (xs : List String) (x y : String)
      → IsCallPath (xs ++ x ∷ [])
      → Calls x y
      → IsCallPath ((xs ++ x ∷ []) ++ y ∷ [])
  CallPath-snoc [] x y h c = (c, (tt, tt))
  CallPath-snoc (z ∷ []) x y h c = (h.0, CallPath-snoc [] x y h.1 c)
  CallPath-snoc (z ∷ v ∷ zs) x y h c = (h.0, CallPath-snoc (v ∷ zs) x y h.1 c)

  starts-snoc :
      (root : String) (xs : List String) (x y : String)
      → StartsAt root (xs ++ x ∷ [])
      → StartsAt root ((xs ++ x ∷ []) ++ y ∷ [])
  starts-snoc root [] x y h = h
  starts-snoc root (z ∷ zs) x y h = h

  -- The path to a callee.
  pub IsReached-callee :
      (root : String) (before : List String) (x y : String)
      → IsReached root before x
      → Calls x y
      → IsReached root (before ++ x ∷ []) y
  IsReached-callee root before x y h c = record {
    path = CallPath-snoc before x y h.path c;
    starts = starts-snoc root before x y h.starts;
  }

  -- The part of the stack from the name on closes a cycle.
  pub from_first-cycle :
      (name : String) (xs part : List String)
      → from_first name xs ≡ some part
      → IsCallPath (xs ++ name ∷ [])
      → (middle : List String) × (part ≡ name ∷ middle) × IsCallPath (part ++ name ∷ [])
  unfolding from_first
  from_first-cycle name [] part e h = absurd (ground arith)
  from_first-cycle name (x ∷ xs) part e h = elim (Bool-cases (x == name)) [
    | inl same ↦
        let whole : some (x ∷ xs) ≡ some part = rw same at e in
        let here : x ∷ xs ≡ part = cc in
        let is_name : x ≡ name = (eq_iff x name).0 same in
        (xs, rw (← here, is_name) refl, rw (← here) h)
    | inr other ↦ from_first-cycle name xs part (rw other at e) h.1
  ]

  pub from_first-none :
      (name : String) (xs : List String) → from_first name xs ≡ none → Member name xs → ⊥
  unfolding from_first
  from_first-none name [] e m = m
  from_first-none name (x ∷ xs) e (inl here) = ground (arith, eq_iff x name)
  from_first-none name (x ∷ xs) e (inr later) = elim (Bool-cases (x == name)) [
    | inl same ↦ ground arith
    | inr other ↦ from_first-none name xs (rw other at e) later
  ]
