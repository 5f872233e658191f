-- ===== src/Workflows/CallGraph/Search.antt =====
-- What the search establishes, by induction on the nesting of its calls.
use kruntimes.Base.{
  ℕ, zero, suc, ◌+◌, ◌≤◌, ◌≡◌, refl, sym, String, string_eq, ◌==◌, false, List, [], ◌∷◌, ◌++◌, All,
  Option, none, some, arith, inl, inr, ◌⊎◌, Bool-cases, length, leb, eq_iff, length-append,
}
use kruntimes.Base.Maps.{lookup, insert, lookup-insert}
use kruntimes.Base.Results.{Result, ok, err, ◌>>=◌}
use kruntimes.Base.Sort.{Member, All-Member}
use kruntimes.Api.Workflow.{WorkflowSpec}
use kruntimes.Workflows.CallGraph.{
  WorkflowLookup, Loaded, loaded, load_error, absent, CallGraphError, VisitState, visiting, visited,
  States, called_workflow_names, from_first, cycle_error, visit_each, visit_loaded, visit_in_state,
  visit, max_call_depth,
}
use kruntimes.Workflows.CallGraph.Paths.{
  Calls, IsReached, IsReached-callee, IsJustified, from_first-cycle, from_first-none,
}

-- The order in which the search finished, the latest first: each workflow exists, and each one that it
-- calls stands behind it.
abbrev pub IsTopological : WorkflowLookup → List String → Type 0
IsTopological l [] = Unit
IsTopological l (x ∷ xs) =
    ((w : WorkflowSpec) × (l x ≡ loaded w)
      × All (λ callee. Member callee xs) (called_workflow_names w.jobs))
    × IsTopological l xs

Member-snoc : (x y : String) (xs : List String) → Member x (xs ++ y ∷ []) → (x ≡ y) ⊎ Member x xs
Member-snoc x y [] m = m
Member-snoc x y (z ∷ zs) (inl here) = inr (inl here)
Member-snoc x y (z ∷ zs) (inr later) = elim (Member-snoc x y zs later) [
  | inl last ↦ inl last
  | inr before ↦ inr (inr before)
]

Member-append_left : (x : String) (xs ys : List String) → Member x xs → Member x (xs ++ ys)
Member-append_left x [] ys m = elim m [ ]
Member-append_left x (z ∷ zs) ys (inl here) = inl here
Member-append_left x (z ∷ zs) ys (inr later) = inr (Member-append_left x zs ys later)

Member-last : (x : String) (xs : List String) → Member x (xs ++ x ∷ [])
Member-last x [] = inl refl
Member-last x (z ∷ zs) = inr (Member-last x zs)

module _ (l : WorkflowLookup) where
  -- The states of the search, with the stack of open names and the order of the finished ones.
  pub record IsSearch (states : States) (stack order : List String) : Type 0 where
    pub topological : IsTopological l order
    pub finished : (name : String) → lookup name states ≡ some visited → Member name order
    pub opened : (name : String) → lookup name states ≡ some visiting → Member name stack

  -- The search went on to `states` and finished the names.
  pub record IsProgress (stack order names : List String) (states : States) : Type 0 where
    pub new_order : List String
    pub grows : (x : String) → Member x order → Member x new_order
    pub search : IsSearch states stack new_order
    pub reached : All (λ name. Member name new_order) names

  abbrev pub Outcome :
      String → List String → List String → List String → Result CallGraphError States → Type 0
  Outcome root stack order names (ok states) = IsProgress stack order names states
  Outcome root stack order names (err e) = IsJustified l root e

  -- A name that is opened.
  open-IsSearch :
      (states : States) (stack order : List String) (name : String)
      → IsSearch states stack order
      → IsSearch (insert name visiting states) (stack ++ name ∷ []) order
  open-IsSearch states stack order name h = record {
    topological = h.topological;
    finished =
        λ x e. h.finished x (ground (arith, lookup-insert name x visiting states, eq_iff name x));
    opened = λ x e. elim (Bool-cases (name == x)) [
      | inl same ↦
          let is_name : name ≡ x = (eq_iff name x).0 same in rw (← is_name) (Member-last name stack)
      | inr other ↦
          Member-append_left x stack (name ∷ [])
            (h.opened x (ground (arith, lookup-insert name x visiting states)))
    ];
  }

  -- An opened name whose callees are finished.
  close-IsProgress :
      (states : States) (stack order : List String) (name : String) (w : WorkflowSpec)
      → l name ≡ loaded w
      → IsProgress (stack ++ name ∷ []) order (called_workflow_names w.jobs) states
      → IsProgress stack order (name ∷ []) (insert name visited states)
  close-IsProgress states stack order name w found p = record {
    new_order = name ∷ p.new_order;
    grows = λ x m. inr (p.grows x m);
    search = record {
      topological = ((w, found, p.reached), p.search.topological);
      finished = λ x e. elim (Bool-cases (name == x)) [
        | inl same ↦ inl (sym ((eq_iff name x).0 same))
        | inr other ↦
            inr (p.search.finished x (ground (arith, lookup-insert name x visited states)))
      ];
      opened = λ x e. elim (Bool-cases (name == x)) [
        | inl same ↦ absurd (ground (arith, lookup-insert name x visited states))
        | inr other ↦
            elim (Member-snoc x name stack
              (p.search.opened x (ground (arith, lookup-insert name x visited states)))) [
                | inl is_name ↦ absurd (ground (arith, eq_iff name x))
                | inr before ↦ before
              ]
      ];
    };
    reached = (inl refl, tt);
  }

  -- The loop over the callees, given what each call does.
  visit_each-Outcome :
      (root : String) (stack : List String) (step : String → States → Result CallGraphError States)
      (wanted : String → Type 0)
      → ((callee : String) (states : States) (order : List String)
          → wanted callee
          → IsSearch states stack order
          → Outcome root stack order (callee ∷ []) (step callee states))
      → (callees : List String) (states : States) (order : List String) → All wanted callees
      → IsSearch states stack order
      → Outcome root stack order callees (visit_each step callees states)
  unfolding visit_each
  visit_each-Outcome root stack step wanted good [] states order all h = record {
    new_order = order;
    grows = λ x m. m;
    search = h;
    reached = tt;
  }
  visit_each-Outcome root stack step wanted good (callee ∷ callees) states order all h =
      go (step callee states) (good callee states order all.0 h)
        (λ seen later. visit_each-Outcome root stack step wanted good callees seen later all.1)
    where
      extend :
          (seen : States) (p : IsProgress stack order (callee ∷ []) seen)
          (r : Result CallGraphError States)
          → Outcome root stack p.new_order callees r
          → Outcome root stack order (callee ∷ callees) r
      extend seen p (ok last) q = record {
        new_order = q.new_order;
        grows = λ x m. q.grows x (p.grows x m);
        search = q.search;
        reached = (q.grows callee p.reached.0, q.reached);
      }
      extend seen p (err e) q = q

      go :
          (r : Result CallGraphError States)
          → Outcome root stack order (callee ∷ []) r
          → ((seen : States) (later : List String)
              → IsSearch seen stack later
              → Outcome root stack later callees (visit_each step callees seen))
          → Outcome root stack order (callee ∷ callees) (r >>= visit_each step callees)
      go (err e) q next = q
      go (ok seen) p next =
          extend seen p (visit_each step callees seen) (next seen p.new_order p.search)

  -- A workflow that was looked up, given what the deeper calls do.
  visit_loaded-Outcome :
      (root : String) (stack : List String) (step : String → States → Result CallGraphError States)
      (name : String)
      → ((callee : String) (states : States) (order : List String)
          → Calls l name callee
          → IsSearch states (stack ++ name ∷ []) order
          → Outcome root (stack ++ name ∷ []) order (callee ∷ []) (step callee states))
      → (answer : Loaded) (states : States) (order : List String) → l name ≡ answer
      → IsReached l root stack name
      → IsSearch states stack order
      → Outcome root stack order (name ∷ []) (visit_loaded l step name answer states)
  unfolding visit_loaded
  visit_loaded-Outcome root stack step name good load_error states order e path h = (stack, path, e)
  visit_loaded-Outcome root stack step name good absent states order e path h = (stack, path, e)
  visit_loaded-Outcome root stack step name good (loaded w) states order e path h = close _ (
      visit_each-Outcome root (stack ++ name ∷ []) step (Calls l name) good
        (called_workflow_names w.jobs) (insert name visiting states) order
        (All-Member (Calls l name) (called_workflow_names w.jobs) (λ callee m. (w, e, m)))
        (open-IsSearch states stack order name h))
    where
      close :
          (r : Result CallGraphError States)
          → Outcome root (stack ++ name ∷ []) order (called_workflow_names w.jobs) r
          → Outcome root stack order (name ∷ []) (do seen ← r; ok (insert name visited seen))
      close (err x) q = q
      close (ok seen) p = close-IsProgress seen stack order name w e p

  cycle_error-IsJustified :
      (root name : String) (stack : List String) (o : Option (List String))
      → from_first name stack ≡ o
      → Member name stack
      → IsReached l root stack name
      → IsJustified l root (cycle_error name o)
  unfolding cycle_error
  cycle_error-IsJustified root name stack none e m path = from_first-none l name stack e m
  cycle_error-IsJustified root name stack (some part) e m path =
      let (middle, shape, cycle) = from_first-cycle l name stack part e path.path in
      (name, middle, rw shape refl, cycle)

  -- One call, within the bound on the stack and with enough fuel for what is left of it.
  pub visit-Outcome :
      (fuel : ℕ) (root : String) (stack : List String) (name : String) (states : States)
      (order : List String)
      → length stack ≤ max_call_depth
      → max_call_depth + 1 ≤ fuel + length stack
      → IsReached l root stack name
      → IsSearch states stack order
      → Outcome root stack order (name ∷ []) (visit l fuel stack name states)
  unfolding visit visit_in_state
  visit-Outcome zero root stack name states order bound enough path h = absurd (omega arith)
  visit-Outcome (suc fuel) root stack name states order bound enough path h =
      go
        (λ room callee more later called g.
          visit-Outcome fuel root (stack ++ name ∷ []) callee more later
            (ground (arith, length-append stack (name ∷ [])))
            (ground (arith, length-append stack (name ∷ [])))
            (IsReached-callee l root stack name callee path called) g)
        (lookup name states) refl
    where
      go :
          (leb max_call_depth (length stack) ≡ false
            → (callee : String) (more : States) (later : List String) → Calls l name callee
            → IsSearch more (stack ++ name ∷ []) later
            → Outcome root
                (stack ++ name ∷ [])
                later
                (callee ∷ [])
                (visit l fuel (stack ++ name ∷ []) callee more))
          → (state : Option VisitState) → lookup name states ≡ state
          → Outcome root stack order
              (name ∷ [])
              (visit_in_state l (visit l fuel (stack ++ name ∷ [])) stack name state states)
      go deeper (some visiting) e =
          cycle_error-IsJustified root name stack (from_first name stack) refl (h.opened name e)
            path
      go deeper (some visited) e = record {
        new_order = order;
        grows = λ x m. m;
        search = h;
        reached = (h.finished name e, tt);
      }
      go deeper none e = elim (Bool-cases (leb max_call_depth (length stack))) [
        | inl full ↦
            rw full (path.path, path.starts, ground (arith, length-append stack (name ∷ [])))
        | inr room ↦ rw room (
            visit_loaded-Outcome root stack (visit l fuel (stack ++ name ∷ [])) name (deeper room)
              (l name) states order refl path h)
      ]
