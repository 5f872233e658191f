-- ===== src/Controller/Workspaces/Cleanup/Deletion.antt =====
-- When the controller itself gives up the finalizer of a workspace that is being deleted.
use kruntimes.Base.{
  ◌≡◌, ◌≢◌, ◌⊎◌, inl, inr, refl, eq_iff, string_eq, ◌==◌, Bool, true, false, arith, is_some,
  Bool-cases, ◌||◌,
}
use kruntimes.Base.Results.{Result, ok, err}
use kruntimes.Api.Pod.{Pod}
use kruntimes.Api.Workspace.{PersistentWorkspace, lost_workspace, workspace_cleanup_finalizer}
use kruntimes.Scheduler.Environment.{Answer, found, not_found, unavailable}
use kruntimes.Controller.Workspaces.{
  WorkspaceParts, WorkspaceWorld, WorkspaceWrite, WorkspaceError, wrote_object, WorkspaceOutcome,
  one_write, answers, finalizer_update_failed, get_pod_failed, settled, gave_up,
}
use kruntimes.Controller.Workspaces.Writes.{one_write-All}
use kruntimes.Base.{All}
use kruntimes.Controller.Workspaces.Cleanup.{
  is_lost_phase, pod_lost, bound_workspace_pod_lost, give_up_finalizer,
  reconcile_deleting_workspace,
}

-- The recorded Pod is there under its UID.
pub record IsHeld (answer : Answer Pod) (w : PersistentWorkspace) : Type 0 where
  pub pod : Pod
  pub is_found : answer ≡ found pod
  pub same_uid : pod.uid ≡ w.status.bound_pod_uid
  pub not_deleting : is_some pod.deletion_timestamp ≡ false

-- No Pod is recorded, or the recorded one is gone, on its way out, or another of that name.
abbrev pub IsPodLost : Answer Pod → PersistentWorkspace → Type 0
IsPodLost answer w =
    (w.status.bound_pod ≡ "")
    ⊎ (w.status.bound_pod_uid ≡ "")
    ⊎ (answer ≡ not_found)
    ⊎ ((pod : Pod) × (answer ≡ found pod)
        × ((is_some pod.deletion_timestamp ≡ true) ⊎ (pod.uid ≢ w.status.bound_pod_uid)))

module _ {Q : Type 0} (parts : WorkspaceParts) (world : WorkspaceWorld Q) where
  -- What the check answers on the recorded Pod.
  pod_lost-cases :
      (w : PersistentWorkspace) (answer : Answer Pod)
      → (pod_lost parts world w.status.bound_pod_uid answer ≡ ok true) × IsPodLost answer w
        ⊎ (pod_lost parts world w.status.bound_pod_uid answer ≡ ok false) × IsHeld answer w
        ⊎ (pod_lost parts world w.status.bound_pod_uid answer ≡ err get_pod_failed)
          × (answer ≡ unavailable)
  unfolding pod_lost
  pod_lost-cases w not_found = inl (refl, inr (inr (inl refl)))
  pod_lost-cases w unavailable = inr (inr (refl, refl))
  pod_lost-cases w (found pod) = elim (Bool-cases (is_some pod.deletion_timestamp)) [
    | inl leaving ↦ inl (rw leaving refl, inr (inr (inr (pod, refl, inl leaving))))
    | inr staying ↦ elim (Bool-cases (pod.uid == w.status.bound_pod_uid)) [
      | inl same ↦ inr (
          inl (
            rw (staying, same) refl,
            record {
              pod = pod;
              is_found = refl;
              same_uid = (eq_iff pod.uid w.status.bound_pod_uid).0 same;
              not_deleting = staying;
            },
          ))
      | inr other ↦ inl (
        rw (staying, other) refl,
        inr (
            inr
              (inr (pod, refl, inr (λ e. ground (arith, eq_iff pod.uid w.status.bound_pod_uid))))),
      )
    ]
  ]

  bound_workspace_pod_lost-cases :
      (w : PersistentWorkspace)
      → (bound_workspace_pod_lost parts world w ≡ ok true) × IsPodLost world.bound_pod w
        ⊎ (bound_workspace_pod_lost parts world w ≡ ok false) × IsHeld world.bound_pod w
        ⊎ (bound_workspace_pod_lost parts world w ≡ err get_pod_failed)
          × (world.bound_pod ≡ unavailable)
  unfolding bound_workspace_pod_lost
  bound_workspace_pod_lost-cases w = elim (Bool-cases (w.status.bound_pod == "")) [
    | inl unnamed ↦ inl (rw unnamed refl, inl ((eq_iff w.status.bound_pod "").0 unnamed))
    | inr named ↦ elim (Bool-cases (w.status.bound_pod_uid == "")) [
      | inl unidentified ↦ inl (
        rw (named, unidentified) refl,
        inr (inl ((eq_iff w.status.bound_pod_uid "").0 unidentified)),
      )
      | inr identified ↦ rw (named, identified) (pod_lost-cases w world.bound_pod)
    ]
  ]

  -- The one write gives up the finalizer.
  abbrev pub without_finalizer : PersistentWorkspace → WorkspaceOutcome
  without_finalizer w =
      one_write
        (wrote_object (record w {
          finalizers = (parts.remove_finalizer workspace_cleanup_finalizer w.finalizers).0;
        }))
        world.object_update finalizer_update_failed

  -- For any workspace that holds the cleanup finalizer and any answers of the API, the controller
  -- does one of three things with a workspace that is being deleted: it gives up the finalizer, and
  -- the workspace is Lost or its Pod is lost; it waits for the recorded Pod, which is there under its
  -- UID and stays, and the workspace is not Lost; or the Pod could not be read, nothing is written and
  -- the error is reported.
  pub reconcile_deleting_workspace-cases :
      (w : PersistentWorkspace)
      → parts.contains_finalizer workspace_cleanup_finalizer w.finalizers ≡ true
      → (reconcile_deleting_workspace parts world w ≡ without_finalizer w)
          × ((w.status.phase ≡ lost_workspace) ⊎ IsPodLost world.bound_pod w)
        ⊎ (reconcile_deleting_workspace parts world w ≡ answers settled)
          × (w.status.phase ≢ lost_workspace)
          × IsHeld world.bound_pod w
        ⊎ (reconcile_deleting_workspace parts world w ≡ answers (gave_up get_pod_failed))
          × (world.bound_pod ≡ unavailable)
  unfolding reconcile_deleting_workspace give_up_finalizer
  reconcile_deleting_workspace-cases w holds = elim (bound_workspace_pod_lost-cases w) [
    | inl (checked, lost) ↦ inl (rw (holds, checked) (ground arith), inr lost)
    | inr (inl (checked, held)) ↦ elim (Bool-cases (is_lost_phase w.status.phase)) [
      | inl gone ↦ inl (rw (holds, checked, gone) refl, inl (ground arith))
      | inr here ↦ inr (inl (rw (holds, checked, here) refl, λ e. ground arith, held))
    ]
    | inr (inr (checked, unread)) ↦ inr (inr (rw (holds, checked) refl, unread))
  ]

  give_up_finalizer-All :
      (P : WorkspaceWrite → Type 0) (w : PersistentWorkspace) (lost : Result WorkspaceError Bool)
      → ((v : PersistentWorkspace) → P (wrote_object v))
      → All P (give_up_finalizer parts world w lost).writes
  unfolding give_up_finalizer
  give_up_finalizer-All P w (err e) h = tt
  give_up_finalizer-All P w (ok lost) h = elim (Bool-cases (is_lost_phase w.status.phase || lost)) [
    | inl gone ↦ rw gone (one_write-All P _ world.object_update _ (h _))
    | inr here ↦ rw here tt
  ]

  -- A workspace that is being deleted gets no status.
  pub reconcile_deleting_workspace-All :
      (P : WorkspaceWrite → Type 0) (w : PersistentWorkspace)
      → ((v : PersistentWorkspace) → P (wrote_object v))
      → All P (reconcile_deleting_workspace parts world w).writes
  unfolding reconcile_deleting_workspace
  reconcile_deleting_workspace-All P w h =
      elim (Bool-cases (parts.contains_finalizer workspace_cleanup_finalizer w.finalizers)) [
        | inl holds ↦
            rw holds (give_up_finalizer-All P w (bound_workspace_pod_lost parts world w) h)
        | inr free ↦ rw free tt
      ]
