-- ===== src/Controller/Workspaces/Cleanup.antt =====
-- persistentworkspace_lifecycle.go: the release of a workspace that was unused for its time to live,
-- the request to delete it, and the finalizer of one that is being deleted.
pub mod Deletion
use kruntimes.Base.{
  ℕ, ◌+◌, ◌*◌, String, string_eq, ◌==◌, Bool, true, false, ◌||◌, not, List, [], ◌∷◌, Option, none,
  some, is_some, if◌then◌else◌,
}
use kruntimes.Base.Int.{ℤ, pos, pos_part, neg_part, sub_ℕ, ltb_ℤ, ◌+ℤ◌}
use kruntimes.Base.Results.{Result, ok, err}
use kruntimes.Api.Conditions.{false_status}
use kruntimes.Api.Pod.{Pod}
use kruntimes.Api.Workspace.{
  PersistentWorkspace, PersistentWorkspacePhase, CleanupPolicy, retain, delete_after_ttl,
  lost_workspace, released_workspace, workspace_cleanup_finalizer,
}
use kruntimes.Scheduler.Environment.{Answer, found, not_found, unavailable, UpdateAnswer}
use kruntimes.Controller.CompletedRuns.{DeleteAnswer, deleted, already_gone, delete_failed}
use kruntimes.Controller.Workspaces.{
  WorkspaceParts, WorkspaceWorld, WorkspaceError, get_pod_failed, finalizer_update_failed,
  release_failed, delete_failed_again, WorkspaceWrite, wrote_status, wrote_object,
  requested_deletion, WorkspaceReply, settled, look_again_after, gave_up, WorkspaceOutcome, answers,
  one_write, bound_condition, with_condition, with_phase,
}

abbrev pub is_retained : CleanupPolicy → Bool
is_retained retain = true
is_retained delete_after_ttl = false

abbrev pub is_lost_phase : PersistentWorkspacePhase → Bool
is_lost_phase lost_workspace = true
is_lost_phase _ = false

-- LastUsedTime plus the seconds of an int32, in nanoseconds.
unfoldable pub release_deadline : ℤ → ℕ → ℤ
release_deadline ttl last_used =
    sub_ℕ (last_used + pos_part ttl * 1000000000) (neg_part ttl * 1000000000)

abbrev pub remaining : ℤ → ℕ → ℤ
remaining deadline now = deadline +ℤ sub_ℕ 0 now

unfoldable pub request_persistent_workspace_deletion : DeleteAnswer → WorkspaceOutcome
request_persistent_workspace_deletion delete_failed = record {
  writes = requested_deletion ∷ [];
  reply = gave_up delete_failed_again;
}
request_persistent_workspace_deletion _ = record {
  writes = requested_deletion ∷ [];
  reply = settled;
}

module _ {Q : Type 0} (parts : WorkspaceParts) (world : WorkspaceWorld Q) where
  -- The status that ends the life of the workspace.
  unfoldable pub released_form : PersistentWorkspace → PersistentWorkspace
  released_form w =
      with_condition parts world.later (with_phase w released_workspace) bound_condition
        false_status "CleanupRequested"
        "Workspace cleanup was requested after its unused TTL elapsed"

  unfoldable pub release_when_due : PersistentWorkspace → Option ℤ → Option ℕ → WorkspaceOutcome
  release_when_due w none last_used = answers settled
  release_when_due w (some ttl) none = answers settled
  release_when_due w (some ttl) (some last_used) =
      let wait = remaining (release_deadline ttl last_used) world.later in
      if ltb_ℤ (pos 0) wait
      then answers (look_again_after wait)
      else one_write (wrote_status (released_form w)) world.release_update release_failed

  -- reconcilePersistentWorkspaceCleanup
  unfoldable pub reconcile_persistent_workspace_cleanup : PersistentWorkspace → WorkspaceOutcome
  reconcile_persistent_workspace_cleanup w =
      let (finalizers, added) = parts.add_finalizer workspace_cleanup_finalizer w.finalizers in
      if added
      then one_write (wrote_object (record w { finalizers = finalizers })) world.object_update
          finalizer_update_failed
      else if is_retained w.spec.cleanup_policy
      then answers settled
      else release_when_due w w.spec.ttl_seconds_after_unused w.status.last_used_time

  pod_lost : String → Answer Pod → Result WorkspaceError Bool
  pod_lost uid not_found = ok true
  pod_lost uid unavailable = err get_pod_failed
  pod_lost uid (found pod) = ok (is_some pod.deletion_timestamp || not (pod.uid == uid))

  -- boundWorkspacePodLost
  unfoldable pub bound_workspace_pod_lost : PersistentWorkspace → Result WorkspaceError Bool
  unfolding pod_lost
  bound_workspace_pod_lost w =
      if w.status.bound_pod == "" || w.status.bound_pod_uid == ""
      then ok true
      else pod_lost w.status.bound_pod_uid world.bound_pod

  give_up_finalizer : PersistentWorkspace → Result WorkspaceError Bool → WorkspaceOutcome
  give_up_finalizer w (err e) = answers (gave_up e)
  give_up_finalizer w (ok lost) =
      if is_lost_phase w.status.phase || lost
      then one_write
          (wrote_object (record w {
            finalizers = (parts.remove_finalizer workspace_cleanup_finalizer w.finalizers).0;
          }))
          world.object_update finalizer_update_failed
      else answers settled

  -- reconcileDeletingWorkspace
  unfoldable pub reconcile_deleting_workspace : PersistentWorkspace → WorkspaceOutcome
  unfolding give_up_finalizer
  reconcile_deleting_workspace w =
      if not (parts.contains_finalizer workspace_cleanup_finalizer w.finalizers)
      then answers settled
      else give_up_finalizer w (bound_workspace_pod_lost w)
