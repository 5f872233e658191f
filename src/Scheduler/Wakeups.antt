-- ===== src/Scheduler/Wakeups.antt =====
-- The events of internal/scheduler/reconciler.go that wake the reconciler: the predicates on Runs, and
-- the pending Runs that are queued when a Pod, a workspace or a finished Run may free capacity. The
-- lists are what the API answers for the index of the runtime or the workspace; `none` is an error.
use kruntimes.Base.{
  String, string_eq, ◌==◌, Bool, false, ◌&&◌, ◌||◌, not, List, [], ◌∷◌, Option, none, some,
  if◌then◌else◌,
}
use kruntimes.Base.Maps.{lookup}
use kruntimes.Api.Pod.{Pod}
use kruntimes.Api.Run.{Run, RunWorkspaceReference, is_pending_phase, mode_name}
use kruntimes.Scheduler.Types.{consumes_runtime_capacity}

-- A request of the work queue: namespace and name.
abbrev pub Request : Type 0
Request = String × String

pub data RunEvent (Q : Type 0) : Type 0 where
  run_created : Run Q → RunEvent Q
  run_updated : Run Q → Run Q → RunEvent Q
  run_deleted : Run Q → RunEvent Q
  run_generic : Run Q → RunEvent Q

abbrev or_empty_text : Option String → String
or_empty_text none = ""
or_empty_text (some text) = text

workspace_values : Option RunWorkspaceReference → List String
workspace_values none = []
workspace_values (some w) = if w.name == "" then [] else w.name ∷ []

module _ {Q : Type 0} where
  shows_another_mode : Run Q → Bool
  shows_another_mode run =
      not (mode_name run.spec.mode == "") && not (run.status.mode == mode_name run.spec.mode)

  unfoldable pub pending_run_predicate : RunEvent Q → Bool
  unfolding shows_another_mode
  pending_run_predicate (run_created run) =
      is_pending_phase run.status.phase || shows_another_mode run
  pending_run_predicate (run_updated _ run) =
      is_pending_phase run.status.phase || shows_another_mode run
  pending_run_predicate (run_deleted _) = false
  pending_run_predicate (run_generic _) = false

  unfoldable pub run_capacity_released_predicate : RunEvent Q → Bool
  unfolding consumes_runtime_capacity
  run_capacity_released_predicate (run_created _) = false
  run_capacity_released_predicate (run_updated old new) =
      consumes_runtime_capacity old.status.phase && not (consumes_runtime_capacity new.status.phase)
  run_capacity_released_predicate (run_deleted run) = consumes_runtime_capacity run.status.phase
  run_capacity_released_predicate (run_generic _) = false

  unfoldable pub pending_requests : List (Run Q) → List Request
  pending_requests [] = []
  pending_requests (run ∷ runs) =
      let rest = pending_requests runs in
      if is_pending_phase run.status.phase then (run.namespace, run.name) ∷ rest else rest

  unfoldable pub pending_runs_for : Option (List (Run Q)) → List Request
  unfolding pending_requests
  pending_runs_for none = []
  pending_runs_for (some runs) = pending_requests runs

  -- `list` is the API's answer for a namespace and the name of a runtime.
  unfoldable pub pending_runs_for_released_capacity :
      (String → String → Option (List (Run Q))) → Run Q → List Request
  unfolding pending_runs_for
  pending_runs_for_released_capacity list run =
      if run.spec.runtime == "" then [] else pending_runs_for (list run.namespace run.spec.runtime)

  unfoldable pub pending_runs_for_runtime_pod :
      (String → String → Option (List (Run Q))) → Pod → List Request
  unfolding pending_runs_for
  pending_runs_for_runtime_pod list pod =
      let runtime_name = or_empty_text (lookup "runtime" pod.labels) in
      if runtime_name == "" then [] else pending_runs_for (list pod.namespace runtime_name)

  -- The index values that the API lists by.
  unfoldable pub run_runtime_index_values : Run Q → List String
  run_runtime_index_values run = if run.spec.runtime == "" then [] else run.spec.runtime ∷ []

  unfoldable pub run_workspace_index_values : Run Q → List String
  unfolding workspace_values
  run_workspace_index_values run = workspace_values run.spec.workspace
