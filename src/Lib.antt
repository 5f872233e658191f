-- ===== src/Lib.antt =====
-- Verification of kruntimes: a Kubernetes control plane that runs short jobs (Runs) on long-lived
-- Runtime Pods. A scheduler assigns pending Runs to Runtime Pods; the runtimed of each Pod executes
-- them and reports a heartbeat; controllers look after stale Runs, workspaces and workflows.
--
-- Parts and files:
--
-- * Api, over api/v1alpha1: Run (run_types.go), Resources (RunSpec.ResourceRequests), Workspace
--   (persistentworkspace_types.go); Pod and Conditions hold the fields of Kubernetes objects that
--   the code reads, Quantity the operations on resource.Quantity.
-- * Retry (internal/retry/retry.go), RunStatus (internal/runstatus/status.go) and RuntimePod
--   (internal/runtimepod/status.go: capacities and the heartbeat condition) are used by the rest.
-- * Scheduler, over internal/scheduler: Cache (assumed_reservation_cache.go), Affinity (affinity.go),
--   Filters (filter_workspace.go, filter_runtime_pod.go), Score (score.go, score_affinity.go),
--   LeastLoaded (strategy_leastloaded.go), Framework (framework.go: one scheduling cycle from the
--   filters over the scores to a plan), Usage, Reconcile and Wakeups (reconciler.go, reservation.go),
--   with the API and the reconciler's parts in Environment.
-- * Runtimed.SessionQueue, over internal/runtimed/session_queue.go: one entry of the queue and its
--   worker, the histories of both (Steps) and their invariant (Counting, Fifo), and the entries of all
--   sessions (Manager), which deletes one at Close and makes a new one for the next operation.
-- * Runtimed.ActiveRun, over internal/runtimed/active_run.go: the start and the registration of a Run.
-- * Runtimed.OperationStore, over internal/runtimed/session_operation_store.go: the journal of a session
--   operation (Journal), its subscribers (Broadcast, Replay) and the calls on the store (Calls).
-- * Controller, over internal/controller: StaleReaper (stale_reaper.go), CompletedRuns
--   (completed_run_gc.go) and Workspaces (persistentworkspace_controller.go and
--   persistentworkspace_lifecycle.go), with Binding, Usage, Cleanup, Wakeups and, for the whole
--   Reconcile and what it can write, Lifecycle.
-- * Workflows, over internal/workflowtemplate: CallGraph (call_graph.go) and Materialize
--   (materialize.go), with the types of Api.Workflow (workflow_types.go).
-- * Admission, over internal/admission/run_workspace.go: who may create a Run that names a workspace.
-- * EntrypointPath, over internal/execpath/entrypoint.go: entrypoints that stay in the workspace.
-- * Tests holds concrete objects, and the theorems applied to them.
--
-- How they interact: Reconcile reads the Run, its Pods, its workspace and the Runs of the namespace
-- from the API, takes a snapshot of them with the reservations of Cache, asks Framework for a plan,
-- reserves the Pod in Cache and writes the assignment; a failed write gives the reservation back.
-- The heartbeat that runtimed writes makes a Pod available; StaleReaper reads it too, and sends a Run
-- of a lost Pod back to the scheduler, which waits for the delay of Retry, or fails it. CompletedRuns
-- deletes terminal Runs. Workspaces binds a workspace to a ready Pod; the scheduler's workspace filter
-- then sends the Runs that name it to that Pod.
--
-- State and operations: a Go method that changes an object is a function from the old value to the
-- new one; a critical section under a mutex is one such function. Structs are records, string enums
-- data types, pointers options, maps association lists. An `(value, error)` result is a `Result`.
-- The API server is the environment: `World` holds the answer of each call of one Reconcile, so a
-- theorem on every `World` covers every conflict, error and missing object. The session queue runs
-- concurrently with its callers: its theorems are about every interleaving of their steps.
--
-- Numbers: times and durations are nanoseconds; a signed integer is `ℤ` over the native numbers,
-- unbounded but where the source can overflow: the totals of scores (Score.Bounds), the attempts
-- and the float64 of the retry delay (Retry). Loops are by recursion on a list, and the endless
-- loop of a session's worker is a step function. Only the search of Workflows.CallGraph has fuel: nine
-- nested calls, which its limit on the stack makes enough.
--
-- Parameters, since their code is not in the repository: quantities (their laws say that they act
-- on an exact value), the status conditions of apimachinery, label selectors, finalizers,
-- fnv32a, DeepEqual, the lookup of workflows, regular expressions, the codecs
-- of protobuf and JSON, the reviewer of the admission webhook, and the result of converting an out-of-range float64. Sorting is an insertion sort with the source's comparison.
--
-- Not modelled: logs, metrics, the watch on Runtime Pods, the controllers of WorkflowRuns,
-- Actions and Runtimes, the rest of runtimed, the command line, the console, the SDKs and the
-- runtimes.
pub mod Base
pub mod Api
pub mod Retry
pub mod RunStatus
pub mod RuntimePod
pub mod Scheduler
pub mod Runtimed
pub mod Controller
pub mod Workflows
pub mod Admission
pub mod EntrypointPath
pub mod Tests
