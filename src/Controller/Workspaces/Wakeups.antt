-- ===== src/Controller/Workspaces/Wakeups.antt =====
-- persistentworkspace_controller.go: which workspaces an event on a Runtime, a Pod or a Run wakes up.
use kruntimes.Base.{
  String, string_eq, ◌==◌, Bool, ◌&&◌, not, List, [], ◌∷◌, map, Option, none, some, if◌then◌else◌,
  select,
}
use kruntimes.Base.Maps.{lookup}
use kruntimes.Api.Pod.{Pod}
use kruntimes.Api.Run.{Run, RunWorkspaceReference}
use kruntimes.Api.Workspace.{PersistentWorkspace}
use kruntimes.Scheduler.Environment.{Answer, found}

-- A request: the namespace and the name of a workspace.
abbrev pub WorkspaceRequest : Type 0
WorkspaceRequest = String × String

abbrev request_for : PersistentWorkspace → WorkspaceRequest
request_for w = (w.namespace, w.name)

requests_of :
    Answer (List PersistentWorkspace) → (PersistentWorkspace → Bool) → List WorkspaceRequest
requests_of (found items) wanted = map request_for (select wanted items)
requests_of _ wanted = []

-- workspacesForRuntime, of the Runtime with that name
unfoldable pub workspaces_for_runtime :
    Answer (List PersistentWorkspace) → String → List WorkspaceRequest
unfolding requests_of
workspaces_for_runtime listed name = requests_of listed (λ w. w.spec.runtime == name)

or_empty : Option String → String
or_empty none = ""
or_empty (some s) = s

unfoldable pub workspaces_for_runtime_pod :
    Answer (List PersistentWorkspace) → Pod → List WorkspaceRequest
unfolding requests_of or_empty
workspaces_for_runtime_pod listed pod =
    let runtime_name = or_empty (lookup "runtime" pod.labels) in
    requests_of listed
      (λ w. not (not (w.spec.runtime == runtime_name) && not (w.status.bound_pod == pod.name)))

workspace_name : Option RunWorkspaceReference → List String
workspace_name none = []
workspace_name (some reference) = if reference.name == "" then [] else reference.name ∷ []

module _ {Q : Type 0} where
  unfoldable pub persistent_workspace_run_index_values : Run Q → List String
  unfolding workspace_name
  persistent_workspace_run_index_values run = workspace_name run.spec.workspace

  unfoldable pub workspaces_for_run : Run Q → List WorkspaceRequest
  unfolding workspace_name
  workspaces_for_run run = map (λ name. (run.namespace, name)) (workspace_name run.spec.workspace)
