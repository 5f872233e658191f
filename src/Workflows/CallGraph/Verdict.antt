-- ===== src/Workflows/CallGraph/Verdict.antt =====
-- What ValidateCallGraph answers.
use kruntimes.Base.{
  ◌≡◌, refl, sym, ap, ◌∙◌, String, string_eq, ◌==◌, false, List, [], ◌∷◌, ◌++◌, All, some, arith,
  inl, inr,
}
use mathlib.Core.Path.{subst}
use kruntimes.Base.Maps.{lookup}
use kruntimes.Base.Results.{Result, ok, err}
use kruntimes.Base.Sort.{Member, Member-All}
use kruntimes.Api.Workflow.{WorkflowSpec}
use kruntimes.Workflows.CallGraph.{
  WorkflowLookup, loaded, CallGraphError, States, called_workflow_names, visit, validate_call_graph,
}
use kruntimes.Workflows.CallGraph.Paths.{Calls, IsCallPath, IsReached, IsJustified}
use kruntimes.Workflows.CallGraph.Search.{IsTopological, IsSearch, Outcome, visit-Outcome}

-- Accepted: the root stands in an order in which each workflow exists and calls only later ones.
-- Refused: the error says what is wrong.
abbrev pub Verdict : WorkflowLookup → String → Result CallGraphError States → Type 0
Verdict l root (ok states) = (order : List String) × IsTopological l order × Member root order
Verdict l root (err e) = IsJustified l root e

start-IsSearch : (l : WorkflowLookup) → IsSearch l [] [] []
unfolding lookup
start-IsSearch l = record {
  topological = tt;
  finished = λ x e. absurd (ground arith);
  opened = λ x e. absurd (ground arith);
}

Outcome-Verdict :
    (l : WorkflowLookup) (root : String) (r : Result CallGraphError States)
    → Outcome l root [] [] (root ∷ []) r
    → Verdict l root r
Outcome-Verdict l root (ok states) p = (p.new_order, p.search.topological, p.reached.0)
Outcome-Verdict l root (err e) j = j

-- For any workflows and any root with a name, the search ends, and its answer is right. Accepted: some
-- order of workflows holds the root, and each workflow of it exists and calls only workflows behind
-- it. Refused: a reported cycle is a path of calls that ends where it began; a path reported as too
-- deep is a path of nine calls from the root on; a workflow that failed to load, or is missing, is
-- reached from the root by calls. No index goes out of range.
pub validate_call_graph-Verdict :
    (l : WorkflowLookup) (root : String)
    → (root == "") ≡ false
    → Verdict l root (validate_call_graph root (some l))
unfolding validate_call_graph
validate_call_graph-Verdict l root named = rw named (
    Outcome-Verdict l root (visit l 9 [] root []) (
      visit-Outcome l 9 root [] root [] [] (omega arith) (omega arith)
        (record { path = (tt, tt); starts = refl }) (start-IsSearch l)))

module _ (l : WorkflowLookup) where
  some_injective : (x y : String) → some x ≡ some y → x ≡ y
  some_injective x y e = cc

  head_callee-Member :
      (z : String) (zs : List String) (x y : String)
      → IsTopological l (z ∷ zs)
      → x ≡ z
      → Calls l x y
      → Member y zs
  head_callee-Member z zs x y h here (w, found, called) =
      let (v, known, behind) = h.0 in
      let answers : loaded v ≡ loaded w = sym known ∙ sym (ap l here) ∙ found in
      let same : v ≡ w = cc in
      Member-All (λ callee. Member callee zs) y (called_workflow_names v.jobs) behind
        (subst (λ (u : WorkflowSpec). Member y (called_workflow_names u.jobs)) (sym same) called)

  -- The callee of a workflow of the order stands in the order.
  callee-Member :
      (order : List String) (x y : String)
      → IsTopological l order
      → Member x order
      → Calls l x y
      → Member y order
  callee-Member [] x y h m c = m
  callee-Member (z ∷ zs) x y h (inl here) c = inr (head_callee-Member z zs x y h here c)
  callee-Member (z ∷ zs) x y h (inr later) c = inr (callee-Member zs x y h.1 later c)

  -- So is each workflow on a path of calls from one in the order.
  path-All :
      (order : List String) (x : String) (rest : List String)
      → IsTopological l order
      → Member x order
      → IsCallPath l (x ∷ rest)
      → All (λ y. Member y order) rest
  path-All order x [] h m path = tt
  path-All order x (y ∷ rest) h m path =
      let next = callee-Member order x y h m path.0 in (next, path-All order y rest h next path.1)

  member-loaded :
      (order : List String) (x : String)
      → IsTopological l order
      → Member x order
      → (w : WorkflowSpec) × (l x ≡ loaded w)
  member-loaded [] x h m = elim m [ ]
  member-loaded (z ∷ zs) x h (inl here) = let (w, known, _) = h.0 in (w, ap l here ∙ known)
  member-loaded (z ∷ zs) x h (inr later) = member-loaded zs x h.1 later

  -- What a first call reaches from the head of the order stands behind it.
  behind-All :
      (z : String) (zs rest : List String)
      → IsTopological l (z ∷ zs)
      → IsCallPath l (z ∷ rest)
      → All (λ y. Member y zs) rest
  behind-All z zs [] h path = tt
  behind-All z zs (y ∷ rest) h path =
      let next = head_callee-Member z zs z y h refl path.0 in
      (next, path-All zs y rest h.1 next path.1)

  All-last : (P : String → Type 0) (xs : List String) (x : String) → All P (xs ++ x ∷ []) → P x
  All-last P [] x h = h.0
  All-last P (y ∷ ys) x h = All-last P ys x h.1

  no_cycle :
      (order : List String) (name : String) (middle : List String)
      → IsTopological l order
      → Member name order
      → IsCallPath l (name ∷ middle ++ name ∷ [])
      → ⊥
  no_cycle [] name middle h m path = m
  no_cycle (z ∷ zs) name middle h (inl here) path =
      let cycle : IsCallPath l (z ∷ middle ++ name ∷ []) =
        subst (λ v. IsCallPath l (v ∷ middle ++ name ∷ [])) here path in
      let again : Member name zs =
        All-last (λ y. Member y zs) middle name (behind-All z zs (middle ++ name ∷ []) h cycle) in
      no_cycle zs name middle h.1 again path
  no_cycle (z ∷ zs) name middle h (inr later) path = no_cycle zs name middle h.1 later path

  reached-Member :
      (order : List String) (root : String) (before : List String) (name : String)
      → IsTopological l order
      → Member root order
      → IsReached l root before name
      → Member name order
  reached-Member order root [] name h m r =
      let same : name ≡ root = some_injective name root r.starts in
      subst (λ v. Member v order) (sym same) m
  reached-Member order root (z ∷ zs) name h m r =
      let same : z ≡ root = some_injective z root r.starts in
      All-last (λ y. Member y order) zs name
        (path-All order z (zs ++ name ∷ []) h (subst (λ v. Member v order) (sym same) m) r.path)

  -- For any workflows, if the search accepts a root with a name: each workflow that the root reaches by
  -- calls exists, and no path of calls leads from it back to it.
  pub validate_call_graph-IsAcyclic :
      (root : String) (states : States) (before : List String) (name : String)
      (middle : List String)
      → (root == "") ≡ false
      → validate_call_graph root (some l) ≡ ok states
      → IsReached l root before name
      → ((w : WorkflowSpec) × (l name ≡ loaded w)) × (¬ (IsCallPath l (name ∷ middle ++ name ∷ [])))
  validate_call_graph-IsAcyclic root states before name middle named accepted reached =
      let (order, topological, has_root) =
        subst (λ r. Verdict l root r) accepted (validate_call_graph-Verdict l root named) in
      let m = reached-Member order root before name topological has_root reached in
      (
        member-loaded order name topological m,
        λ path. no_cycle order name middle topological m path,
      )
