-- ===== src/Tests/Workflows.antt =====
-- The theorems on reusable workflows at concrete ones.
use kruntimes.Base.{
  ◌≡◌, refl, String, string_eq, ◌==◌, true, false, List, [], ◌∷◌, ◌++◌, some, inl, inr,
  if◌then◌else◌, map,
}
use kruntimes.Base.Maps.{Map, lookup, insert}
use kruntimes.Base.Text.{str_lt}
use kruntimes.Base.Sort.{sort_by, insert_by}
use kruntimes.Base.Results.{ok}
use kruntimes.Api.Workflow.{JobSpec, WorkflowSpec, WorkflowInputSpec}
use kruntimes.Workflows.CallGraph.{
  Loaded, loaded, absent, WorkflowLookup, States, visited, visit, visit_each, collect_uses,
  called_workflow_names, validate_call_graph,
}
use kruntimes.Workflows.CallGraph.Paths.{IsReached, IsCallPath}
use kruntimes.Workflows.CallGraph.Verdict.{
  Verdict, validate_call_graph-Verdict, validate_call_graph-IsAcyclic,
}
use kruntimes.Workflows.Materialize.{bind_inputs}
use kruntimes.Workflows.Materialize.Inputs.{IsBinding, bind_inputs-IsBinding}

abbrev job_using : String → JobSpec
job_using name = record {
  runs_on = "";
  needs = [];
  steps = [];
  uses = name;
  with_inputs = [];
  outputs = [];
}

abbrev calling : List String → Loaded
calling names =
    loaded (record { inputs = []; outputs = []; jobs = map (λ name. (name, job_using name)) names })

-- r calls a and b, and b calls a, which starts a chain of seven.
abbrev graph : WorkflowLookup
graph name =
    if name == "r"
    then calling ("b" ∷ "a" ∷ [])
    else if name == "b"
    then calling ("a" ∷ [])
    else if name == "a"
    then calling ("c" ∷ [])
    else if name == "c"
    then calling ("d" ∷ [])
    else if name == "d"
    then calling ("e" ∷ [])
    else if name == "e"
    then calling ("f" ∷ [])
    else if name == "f"
    then calling ("g" ∷ [])
    else if name == "g"
    then calling ("h" ∷ [])
    else if name == "h"
    then calling []
    else absent

abbrev all_visited : States
all_visited =
    map (λ name. (name, visited)) ("r" ∷ "a" ∷ "c" ∷ "d" ∷ "e" ∷ "f" ∷ "g" ∷ "h" ∷ "b" ∷ [])

graph_accepted : validate_call_graph "r" (some graph) ≡ ok all_visited
unfolding validate_call_graph visit visit_each called_workflow_names collect_uses lookup insert
    sort_by insert_by str_lt
graph_accepted = refl

-- The search accepts a path of nine workflows, since it does not look behind a visited one.
deep_path : IsCallPath graph ("r" ∷ "b" ∷ "a" ∷ "c" ∷ "d" ∷ "e" ∷ "f" ∷ "g" ∷ "h" ∷ [])
unfolding called_workflow_names collect_uses sort_by insert_by str_lt
deep_path = (
  (_, refl, inr (inl refl)),
  (
    (_, refl, inl refl),
    (
      (_, refl, inl refl),
      (
        (_, refl, inl refl),
        (
          (_, refl, inl refl),
          ((_, refl, inl refl), ((_, refl, inl refl), ((_, refl, inl refl), (tt, tt)))),
        ),
      ),
    ),
  ),
)

validate_call_graph-Verdict_example : Verdict graph "r" (validate_call_graph "r" (some graph))
validate_call_graph-Verdict_example = validate_call_graph-Verdict graph "r" refl

a-IsReached : IsReached graph "r" ("r" ∷ []) "a"
unfolding called_workflow_names collect_uses sort_by insert_by str_lt
a-IsReached = record { path = ((_, refl, inl refl), (tt, tt)); starts = refl }

validate_call_graph-IsAcyclic_example :
    ((w : WorkflowSpec) × (graph "a" ≡ loaded w))
    × (¬ (IsCallPath graph ("a" ∷ ("c" ∷ []) ++ "a" ∷ [])))
validate_call_graph-IsAcyclic_example =
    validate_call_graph-IsAcyclic graph "r" all_visited ("r" ∷ []) "a" ("c" ∷ []) refl
      graph_accepted a-IsReached

abbrev greeting : Map String WorkflowInputSpec
greeting =
    ("name", record { required = true; default = "" })
    ∷ ("word", record { required = false; default = "hello" })
    ∷ []

abbrev given : Map String String
given = ("name", "world") ∷ []

bind_inputs-IsBinding_example : IsBinding greeting given "word" (bind_inputs greeting given)
bind_inputs-IsBinding_example = bind_inputs-IsBinding greeting given "word"
