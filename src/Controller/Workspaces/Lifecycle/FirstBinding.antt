-- ===== src/Controller/Workspaces/Lifecycle/FirstBinding.antt =====
-- The first binding of a workspace, and the scheduler's view of it.
use kruntimes.Base.{
  ◌^◌, ◌<◌, ◌≡◌, ◌⊎◌, inl, inr, refl, sym, ap, ◌∙◌, eq_iff, String, string_eq, ◌==◌, true, false,
  List, [], All, is_some, arith, Bool-cases, length,
}
use kruntimes.Base.Results.{Result, ok}
use kruntimes.Base.Sort.{Member, Member-All}
use kruntimes.Api.Conditions.{ConditionStatus}
use kruntimes.Api.Pod.{Pod}
use kruntimes.Api.Workspace.{PersistentWorkspace, PersistentWorkspacePhase, pending_workspace}
use kruntimes.Scheduler.Environment.{Answer, found, not_found, unavailable}
use kruntimes.Scheduler.Filters.Workspace.{IsBoundTo}
use kruntimes.Controller.Workspaces.{
  WorkspaceParts, WorkspaceWorld, WorkspaceError, wrote_status, WorkspaceOutcome, with_condition,
}
use kruntimes.Controller.Workspaces.Writes.{OnStatus, one_write-All}
use kruntimes.Controller.Workspaces.Binding.{
  ready_runtime_pods, bind_pending_workspace, persistent_workspace_path,
}
use kruntimes.Controller.Workspaces.Binding.Choice.{
  IsCandidate, IsBinding, IsUnbound, bind_pending_workspace-eq,
}
use kruntimes.Controller.Workspaces.Lifecycle.{
  phase_at_start, accept_workspace, update_persistent_workspace_status, bind_new, by_binding,
  by_phase, by_runtime, live_workspace, reconcile_workspace, reconcile_found_workspace,
}

-- The workspace still waits, or it is bound to a candidate in the way the scheduler's filter asks for.
abbrev pub IsFirstBinding : List Pod → PersistentWorkspace → PersistentWorkspace → Type 0
IsFirstBinding items w new =
    (new.status.phase ≡ pending_workspace) × (new.status.bound_pod ≡ "")
    ⊎ (pod : Pod) × IsCandidate items pod
      × IsBoundTo new w.spec.runtime pod
      × (new.status.path ≡ persistent_workspace_path w.name)

-- What the steps before the binding leave alone.
record IsUntouched (w v : PersistentWorkspace) : Type 0 where
  same_spec : v.spec ≡ w.spec
  same_name : v.name ≡ w.name
  no_pod : v.status.bound_pod ≡ ""
  waits : v.status.phase ≡ pending_workspace

module _ {Q : Type 0} (parts : WorkspaceParts) (world : WorkspaceWorld Q) (items : List Pod) where
  abbrev AllFirst : PersistentWorkspace → WorkspaceOutcome → Type 0
  AllFirst w o = All (OnStatus (IsFirstBinding items w)) o.writes

  update-AllFirst :
      (w original new : PersistentWorkspace)
      → IsFirstBinding items w new
      → AllFirst w (update_persistent_workspace_status parts world original new)
  unfolding update_persistent_workspace_status
  update-AllFirst w original new h =
      elim (Bool-cases (parts.same_status original.status new.status)) [
        | inl same ↦ rw same tt
        | inr other ↦ rw other (
            one_write-All (OnStatus (IsFirstBinding items w)) (wrote_status new) world.status_update
              _ h)
      ]

  with_condition-IsUntouched :
      (w v : PersistentWorkspace) (type : String) (status : ConditionStatus)
      (reason message : String)
      → IsUntouched w v
      → IsUntouched w (with_condition parts world.now v type status reason message)
  unfolding with_condition
  with_condition-IsUntouched w v type status reason message h = record {
    same_spec = h.same_spec;
    same_name = h.same_name;
    no_pod = h.no_pod;
    waits = h.waits;
  }

  binding-IsFirstBinding :
      (w v new : PersistentWorkspace)
      → IsUntouched w v
      → (ready_runtime_pods items ≡ []) × IsUnbound v new
        ⊎ (pod : Pod) × IsCandidate items pod × IsBinding v new pod
      → IsFirstBinding items w new
  binding-IsFirstBinding w v new h (inl (_, unbound)) =
      inl (unbound.is_pending, ground (arith, unbound.same_pod, h.no_pod))
  binding-IsFirstBinding w v new h (inr (pod, candidate, bound)) = inr (
    pod,
    candidate,
    record {
      same_runtime = rw (bound.same_spec, h.same_spec) refl;
      is_bound = bound.is_bound;
      same_name = sym bound.to_pod;
      same_uid = sym bound.to_uid;
    },
    rw (bound.at_path, h.same_name) refl,
  )

  bind_new-AllFirst :
      (w original new : PersistentWorkspace) (r : Result WorkspaceError PersistentWorkspace)
      → r ≡ ok new
      → IsFirstBinding items w new
      → AllFirst w (bind_new parts world original r)
  unfolding bind_new
  bind_new-AllFirst w original new r e h = rw e (update-AllFirst w original new h)

  by_binding-AllFirst :
      (w original v : PersistentWorkspace)
      → world.pods ≡ found items
      → length (ready_runtime_pods items) < 2 ^ 32
      → IsUntouched w v
      → AllFirst w (by_binding parts world original v)
  unfolding by_binding
  by_binding-AllFirst w original v listed few h =
      let (new, result, outcome) = bind_pending_workspace-eq parts world.now v items few in
      let unnamed : (v.status.bound_pod == "") ≡ true = (eq_iff v.status.bound_pod "").1 h.no_pod in
      rw unnamed (
        bind_new-AllFirst w original new _
          (ap (λ a. bind_pending_workspace parts world.now a v) listed ∙ result)
          (binding-IsFirstBinding w v new h outcome))

  by_phase-AllFirst :
      (w original v : PersistentWorkspace) (phase : PersistentWorkspacePhase)
      → phase ≡ pending_workspace
      → world.pods ≡ found items
      → length (ready_runtime_pods items) < 2 ^ 32
      → IsUntouched w v
      → AllFirst w (by_phase parts world phase original v)
  unfolding by_phase
  by_phase-AllFirst w original v phase waits listed few h =
      rw waits (by_binding-AllFirst w original v listed few h)

  by_runtime-AllFirst :
      (w original v : PersistentWorkspace) (answer : Answer String)
      → world.pods ≡ found items
      → length (ready_runtime_pods items) < 2 ^ 32
      → IsUntouched w v
      → AllFirst w (by_runtime parts world answer original v)
  unfolding by_runtime
  by_runtime-AllFirst w original v unavailable listed few h = tt
  by_runtime-AllFirst w original v not_found listed few h =
      let k = with_condition-IsUntouched w v _ _ _ _ h in
      update-AllFirst w original _ (inl (k.waits, k.no_pod))
  by_runtime-AllFirst w original v (found name) listed few h =
      let k = with_condition-IsUntouched w v _ _ _ _ h in
      by_phase-AllFirst w original _ _ k.waits listed few k

  accept_workspace-IsUntouched :
      (w : PersistentWorkspace)
      → phase_at_start w.status.phase ≡ pending_workspace
      → w.status.bound_pod ≡ ""
      → IsUntouched w (accept_workspace parts world w)
  unfolding accept_workspace with_condition
  accept_workspace-IsUntouched w waits no_pod = record {
    same_spec = refl;
    same_name = refl;
    no_pod = no_pod;
    waits = waits;
  }

  found-AllFirst :
      (w : PersistentWorkspace) (answer : Answer PersistentWorkspace)
      → answer ≡ found w
      → is_some w.deletion_timestamp ≡ false
      → world.pods ≡ found items
      → length (ready_runtime_pods items) < 2 ^ 32
      → phase_at_start w.status.phase ≡ pending_workspace
      → w.status.bound_pod ≡ ""
      → AllFirst w (reconcile_found_workspace parts world answer)
  unfolding reconcile_found_workspace live_workspace
  found-AllFirst w answer e staying listed few waits no_pod =
      rw (e, staying)
        (by_runtime-AllFirst w w (accept_workspace parts world w) world.runtime listed few
          (accept_workspace-IsUntouched w waits no_pod))

  -- For any other answers of the API, where the workspace that is read is not being deleted, waits for
  -- its first Pod and names none, and fewer than 2^32 Pods are ready: each status that the Reconcile
  -- writes either still waits and names no Pod, or binds the workspace, for its Runtime and at its own
  -- path, to a listed Pod that is schedulable and whose runtimed is ready, by the name and UID that the
  -- scheduler's workspace filter compares.
  pub reconcile_workspace-IsFirstBinding :
      (w new : PersistentWorkspace)
      → world.workspace ≡ found w
      → is_some w.deletion_timestamp ≡ false
      → world.pods ≡ found items
      → length (ready_runtime_pods items) < 2 ^ 32
      → phase_at_start w.status.phase ≡ pending_workspace
      → w.status.bound_pod ≡ ""
      → Member (wrote_status new) (reconcile_workspace parts world).writes
      → IsFirstBinding items w new
  unfolding reconcile_workspace
  reconcile_workspace-IsFirstBinding w new e staying listed few waits no_pod m =
      Member-All (OnStatus (IsFirstBinding items w)) (wrote_status new) _
        (found-AllFirst w world.workspace e staying listed few waits no_pod) m
