-- ===== src/Workflows/CallGraph.antt =====
-- internal/workflowtemplate/call_graph.go: a depth-first search over the workflows that a root calls.
pub mod Search
pub mod Verdict
pub mod Paths
use kruntimes.Base.{
  ℕ, zero, suc, String, string_eq, ◌==◌, Bool, true, false, ◌||◌, List, [], ◌∷◌, ◌++◌, Option, none,
  some, if◌then◌else◌, length, leb, any,
}
use kruntimes.Base.Maps.{Map, lookup, insert}
use kruntimes.Base.Text.{str_lt}
use kruntimes.Base.Results.{Result, ok, err, ◌>>=◌}
use kruntimes.Base.Sort.{sort_by}
use kruntimes.Api.Workflow.{JobSpec, WorkflowSpec}

abbrev pub max_call_depth : ℕ
max_call_depth = 8

-- What the lookup of a name returns; `absent` is a nil workflow with a nil error.
pub data Loaded : Type 0 where
  loaded : WorkflowSpec → Loaded
  load_error absent : Loaded

abbrev pub WorkflowLookup : Type 0
WorkflowLookup = String → Loaded

pub data CallGraphError : Type 0 where
  name_required lookup_required : CallGraphError
  call_cycle : List String → CallGraphError
  too_deep : List String → CallGraphError
  get_workflow_failed : String → CallGraphError
  empty_result : String → CallGraphError
  -- the panic of a slice from a negative index
  slice_out_of_range : CallGraphError
  -- the end of the model's fuel
  out_of_fuel : CallGraphError

pub data VisitState : Type 0 where
  visiting visited : VisitState

abbrev pub States : Type 0
States = Map String VisitState

-- The loop over the jobs, whose order Go leaves open; what it has seen is what it has collected.
unfoldable pub collect_uses : Map String JobSpec → List String → List String
collect_uses [] names = names
collect_uses ((_, job) ∷ jobs) names =
    let skipped = collect_uses jobs names in
    let taken = collect_uses jobs (names ++ job.uses ∷ []) in
    if job.uses == "" || any (λ name. name == job.uses) names then skipped else taken

unfoldable pub called_workflow_names : Map String JobSpec → List String
called_workflow_names jobs = sort_by str_lt (collect_uses jobs [])

-- stack[slices.Index(stack, name):]
unfoldable pub from_first : String → List String → Option (List String)
from_first name [] = none
from_first name (x ∷ xs) =
    let later = from_first name xs in if x == name then some (x ∷ xs) else later

cycle_error : String → Option (List String) → CallGraphError
cycle_error name none = slice_out_of_range
cycle_error name (some part) = call_cycle (part ++ name ∷ [])

-- The loop over the callees, which stops at the first error.
unfoldable pub visit_each :
    (String → States → Result CallGraphError States)
    → List String
    → States
    → Result CallGraphError States
visit_each step [] states = ok states
visit_each step (callee ∷ callees) states = do
  seen ← step callee states
  visit_each step callees seen

module _ (lookup_workflow : WorkflowLookup) where
  -- One call of the recursive function; `deeper` is the recursive call with the longer stack.
  visit_loaded :
      (String → States → Result CallGraphError States)
      → String
      → Loaded
      → States
      → Result CallGraphError States
  visit_loaded deeper name load_error states = err (get_workflow_failed name)
  visit_loaded deeper name absent states = err (empty_result name)
  visit_loaded deeper name (loaded workflow) states = do
    seen ← visit_each deeper (called_workflow_names workflow.jobs) (insert name visiting states)
    ok (insert name visited seen)

  visit_in_state :
      (String → States → Result CallGraphError States)
      → List String
      → String
      → Option VisitState
      → States
      → Result CallGraphError States
  unfolding visit_loaded cycle_error
  visit_in_state deeper stack name (some visiting) states =
      err (cycle_error name (from_first name stack))
  visit_in_state deeper stack name (some visited) states = ok states
  visit_in_state deeper stack name none states =
      let result = visit_loaded deeper name (lookup_workflow name) states in
      if leb max_call_depth (length stack) then err (too_deep (stack ++ name ∷ [])) else result

  unfoldable pub visit : ℕ → List String → String → States → Result CallGraphError States
  unfolding visit_in_state
  visit zero stack name states = err out_of_fuel
  visit (suc fuel) stack name states =
      visit_in_state (visit fuel (stack ++ name ∷ [])) stack name (lookup name states) states

-- ValidateCallGraph: the stack never exceeds eight names, so nine nested calls are enough.
unfoldable pub validate_call_graph : String → Option WorkflowLookup → Result CallGraphError States
validate_call_graph root lookup_workflow =
    if root == ""
    then err name_required
    else elim lookup_workflow [ none ↦ err lookup_required | some l ↦ visit l 9 [] root [] ]
