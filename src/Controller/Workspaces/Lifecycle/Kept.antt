-- ===== src/Controller/Workspaces/Lifecycle/Kept.antt =====
-- Each status write of a Reconcile keeps the binding of a bound workspace.
use kruntimes.Base.{
  ℕ, ◌≡◌, ◌⊎◌, inl, inr, refl, String, string_eq, ◌==◌, true, false, All, arith, Bool-cases,
  is_some, Option, some, none,
}
use kruntimes.Base.Results.{Result, ok, err, OnOk}
use kruntimes.Api.Workspace.{
  PersistentWorkspace, PersistentWorkspacePhase, unset_workspace, pending_workspace,
  bound_workspace, lost_workspace, released_workspace,
}
use kruntimes.Scheduler.Environment.{Answer, found, not_found, unavailable}
use kruntimes.Controller.Workspaces.{
  WorkspaceParts, WorkspaceWorld, WorkspaceError, wrote_status, WorkspaceOutcome, with_condition,
  with_phase,
}
use kruntimes.Controller.Workspaces.Writes.{OnStatus, one_write-All, and_then-All}
use kruntimes.Controller.Workspaces.Cleanup.{
  reconcile_persistent_workspace_cleanup, release_when_due, released_form,
  request_persistent_workspace_deletion, remaining, release_deadline, is_retained,
}
use kruntimes.Base.Int.{ℤ, pos, ltb_ℤ}
use kruntimes.Api.Workspace.{workspace_cleanup_finalizer}
use kruntimes.Controller.CompletedRuns.{deleted, already_gone, delete_failed}
use kruntimes.Controller.Workspaces.Lifecycle.{
  accept_workspace, update_persistent_workspace_status, check_bound, keep_bound, by_binding,
  by_phase, by_runtime, live_workspace,
}
use kruntimes.Controller.Workspaces.Lifecycle.Bindings.{
  may_follow, IsKept, with_condition-IsKept, with_phase-IsKept, check_bound-IsKept,
}
use kruntimes.Controller.Workspaces.Lifecycle.{reconcile_workspace, reconcile_found_workspace}
use kruntimes.Controller.Workspaces.Cleanup.Deletion.{reconcile_deleting_workspace-All}
use kruntimes.Base.Sort.{Member, Member-All}

module _ {Q : Type 0} (parts : WorkspaceParts) (world : WorkspaceWorld Q) where
  abbrev AllKept : PersistentWorkspace → WorkspaceOutcome → Type 0
  AllKept u o = All (OnStatus (IsKept u)) o.writes

  update-AllKept :
      (u original w : PersistentWorkspace)
      → IsKept u w
      → AllKept u (update_persistent_workspace_status parts world original w)
  unfolding update_persistent_workspace_status
  update-AllKept u original w h = elim (Bool-cases (parts.same_status original.status w.status)) [
    | inl same ↦ rw same tt
    | inr other ↦
        rw other (one_write-All (OnStatus (IsKept u)) (wrote_status w) world.status_update _ h)
  ]

  release_when_due-AllKept :
      (u w : PersistentWorkspace) (ttl : Option ℤ) (last_used : Option ℕ)
      → IsKept u w
      → may_follow u.status.phase released_workspace ≡ true
      → AllKept u (release_when_due parts world w ttl last_used)
  unfolding release_when_due released_form
  release_when_due-AllKept u w none last_used h released = tt
  release_when_due-AllKept u w (some ttl) none h released = tt
  release_when_due-AllKept u w (some ttl) (some last_used) h released =
      elim (Bool-cases (ltb_ℤ (pos 0) (remaining (release_deadline ttl last_used) world.later))) [
        | inl early ↦ rw early tt
        | inr due ↦ rw due (
            one_write-All (OnStatus (IsKept u)) _ world.release_update _ (
              with_condition-IsKept parts world world.later u (with_phase w released_workspace) _ _
                _ _ (with_phase-IsKept parts world u w released_workspace h released)))
      ]

  cleanup-AllKept :
      (u w : PersistentWorkspace)
      → IsKept u w
      → may_follow u.status.phase released_workspace ≡ true
      → AllKept u (reconcile_persistent_workspace_cleanup parts world w)
  unfolding reconcile_persistent_workspace_cleanup
  cleanup-AllKept u w h released =
      elim (Bool-cases (parts.add_finalizer workspace_cleanup_finalizer w.finalizers).1) [
        | inl added ↦ rw added (one_write-All (OnStatus (IsKept u)) _ world.object_update _ tt)
        | inr there ↦ rw there (elim (Bool-cases (is_retained w.spec.cleanup_policy)) [
          | inl retained ↦ rw retained tt
          | inr expires ↦ rw expires (
              release_when_due-AllKept u w w.spec.ttl_seconds_after_unused w.status.last_used_time h
                released)
        ])
      ]

  keep_bound-AllKept :
      (u original : PersistentWorkspace) (checked : Result WorkspaceError PersistentWorkspace)
      → OnOk (IsKept u) checked
      → may_follow u.status.phase released_workspace ≡ true
      → AllKept u (keep_bound parts world original checked)
  unfolding keep_bound
  keep_bound-AllKept u original (err e) h released = tt
  keep_bound-AllKept u original (ok w) h released =
      and_then-All (OnStatus (IsKept u)) (update_persistent_workspace_status parts world original w)
        (reconcile_persistent_workspace_cleanup parts world w) (update-AllKept u original w h)
        (cleanup-AllKept u w h released)

  request-AllKept :
      (u : PersistentWorkspace)
      → AllKept u (request_persistent_workspace_deletion world.delete_answer)
  unfolding request_persistent_workspace_deletion
  request-AllKept u =
      elim world.delete_answer as (λ d. AllKept u (request_persistent_workspace_deletion d)) [
        | deleted ↦ (tt, tt)
        | already_gone ↦ (tt, tt)
        | delete_failed ↦ (tt, tt)
      ]

  by_binding-AllKept :
      (u original w : PersistentWorkspace)
      → IsKept u w
      → (w.status.bound_pod == "") ≡ false
      → may_follow u.status.phase pending_workspace ≡ true ⊎ (u.status.phase ≡ bound_workspace)
      → AllKept u (by_binding parts world original w)
  unfolding by_binding
  by_binding-AllKept u original w h named live = rw named (
      keep_bound-AllKept u original (check_bound parts world w)
        (check_bound-IsKept parts world u w h (ground arith) (ground arith)) (ground arith))

  by_phase-AllKept :
      (u original w : PersistentWorkspace) (phase : PersistentWorkspacePhase)
      → w.status.phase ≡ phase
      → IsKept u w
      → (w.status.bound_pod == "") ≡ false
      → AllKept u (by_phase parts world phase original w)
  unfolding by_phase
  by_phase-AllKept u original w lost_workspace e h named = update-AllKept u original w h
  by_phase-AllKept u original w released_workspace e h named =
      and_then-All (OnStatus (IsKept u)) (update_persistent_workspace_status parts world original w)
        (request_persistent_workspace_deletion world.delete_answer) (update-AllKept u original w h)
        (request-AllKept u)
  by_phase-AllKept u original w unset_workspace e h named =
      by_binding-AllKept u original w h named (ground (arith, h.follows))
  by_phase-AllKept u original w pending_workspace e h named =
      by_binding-AllKept u original w h named (ground (arith, h.follows))
  by_phase-AllKept u original w bound_workspace e h named =
      by_binding-AllKept u original w h named (ground (arith, h.follows))

  by_runtime-AllKept :
      (u original w : PersistentWorkspace) (answer : Answer String)
      → IsKept u w
      → (w.status.bound_pod == "") ≡ false
      → AllKept u (by_runtime parts world answer original w)
  unfolding by_runtime with_condition
  by_runtime-AllKept u original w unavailable h named = tt
  by_runtime-AllKept u original w not_found h named =
      update-AllKept u original _ (with_condition-IsKept parts world world.now u w _ _ _ _ h)
  by_runtime-AllKept u original w (found name) h named =
      by_phase-AllKept u original _ _ refl
        (with_condition-IsKept parts world world.now u w _ _ _ _ h) named

  phase_at_start-IsKept : (w : PersistentWorkspace) → IsKept w (accept_workspace parts world w)
  unfolding accept_workspace with_condition
  phase_at_start-IsKept w = record {
    same_pod = refl;
    same_uid = refl;
    same_path = refl;
    follows = ground arith;
  }

  live_workspace-AllKept :
      (w : PersistentWorkspace)
      → (w.status.bound_pod == "") ≡ false
      → AllKept w (live_workspace parts world w)
  unfolding live_workspace
  live_workspace-AllKept w named =
      by_runtime-AllKept w w (accept_workspace parts world w) world.runtime
        (phase_at_start-IsKept w) (rw (phase_at_start-IsKept w).same_pod named)

  found-AllKept :
      (w : PersistentWorkspace) (answer : Answer PersistentWorkspace)
      → answer ≡ found w
      → (w.status.bound_pod == "") ≡ false
      → AllKept w (reconcile_found_workspace parts world answer)
  unfolding reconcile_found_workspace
  found-AllKept w answer e named = rw e (elim (Bool-cases (is_some w.deletion_timestamp)) [
    | inl leaving ↦
        rw leaving (reconcile_deleting_workspace-All parts world (OnStatus (IsKept w)) w (λ v. tt))
    | inr staying ↦ rw staying (live_workspace-AllKept w named)
  ])

  -- For any answers of the API: where the workspace that is read names a bound Pod, each status that
  -- the Reconcile writes names the same Pod, UID and path, and its phase may follow: a Lost workspace
  -- stays Lost, a Released one Released, and a Bound one becomes neither pending nor unset.
  pub reconcile_workspace-IsKept :
      (w new : PersistentWorkspace)
      → world.workspace ≡ found w
      → (w.status.bound_pod == "") ≡ false
      → Member (wrote_status new) (reconcile_workspace parts world).writes
      → IsKept w new
  unfolding reconcile_workspace
  reconcile_workspace-IsKept w new e named m =
      Member-All (OnStatus (IsKept w)) (wrote_status new) _
        (found-AllKept w world.workspace e named) m
