-- ===== src/Controller/Workspaces/Lifecycle/Timely.antt =====
-- No workspace is released before its time, and none is deleted that was not released.
use kruntimes.Base.{
  ℕ, ◌≡◌, inl, inr, refl, String, string_eq, ◌==◌, false, All, is_some, Option, none, some, arith,
  Bool-cases,
}
use kruntimes.Base.Int.{ℤ, pos, ◌≤ℤ◌, ltb_ℤ, sub_ℕ, +ℤ_parts}
use kruntimes.Base.Results.{Result, ok, err, OnOk}
use kruntimes.Base.Sort.{Member, Member-All}
use kruntimes.Api.Conditions.{ConditionStatus}
use kruntimes.Api.Workspace.{
  PersistentWorkspace, PersistentWorkspacePhase, unset_workspace, pending_workspace,
  bound_workspace, lost_workspace, released_workspace, workspace_cleanup_finalizer,
}
use kruntimes.Scheduler.Environment.{Answer, found, not_found, unavailable}
use kruntimes.Controller.CompletedRuns.{deleted, already_gone, delete_failed}
use kruntimes.Controller.Workspaces.{
  WorkspaceParts, WorkspaceWorld, WorkspaceError, WorkspaceWrite, wrote_status, WorkspaceOutcome,
  with_condition, with_phase,
}
use kruntimes.Controller.Workspaces.Writes.{one_write-All, and_then-All}
use kruntimes.Controller.Workspaces.Cleanup.{
  is_retained, release_deadline, remaining, release_when_due, released_form,
  reconcile_persistent_workspace_cleanup, request_persistent_workspace_deletion,
}
use kruntimes.Controller.Workspaces.Cleanup.Deletion.{reconcile_deleting_workspace-All}
use kruntimes.Controller.Workspaces.Lifecycle.{
  accept_workspace, update_persistent_workspace_status, check_bound, keep_bound, bind_new,
  by_binding, by_phase, by_runtime, live_workspace, reconcile_workspace, reconcile_found_workspace,
}
use kruntimes.Controller.Workspaces.Binding.Choice.{IsPlaced, bind_pending_workspace-IsPlaced}
use kruntimes.Controller.Workspaces.Lifecycle.Deadlines.{
  is_released, IsTimely, IsOpen, check_bound-IsOpen,
}

module _ {Q : Type 0} (parts : WorkspaceParts) (world : WorkspaceWorld Q) where
  abbrev AllTimely : PersistentWorkspace → WorkspaceOutcome → Type 0
  AllTimely w o = All (IsTimely world.now world.later w) o.writes

  update-AllTimely :
      (w original v : PersistentWorkspace)
      → IsTimely world.now world.later w (wrote_status v)
      → AllTimely w (update_persistent_workspace_status parts world original v)
  unfolding update_persistent_workspace_status
  update-AllTimely w original v h = elim (Bool-cases (parts.same_status original.status v.status)) [
    | inl same ↦ rw same tt
    | inr other ↦
        rw other (one_write-All (IsTimely world.now world.later w) _ world.status_update _ h)
  ]

  open-IsTimely :
      (w v : PersistentWorkspace)
      → IsOpen parts world w v
      → IsTimely world.now world.later w (wrote_status v)
  open-IsTimely w v h = inl (λ e. ground (arith, h.is_open))

  not_early :
      (deadline : ℤ) (later : ℕ)
      → ltb_ℤ (pos 0) (remaining deadline later) ≡ false
      → deadline ≤ℤ pos later
  not_early deadline later h = ground (arith, +ℤ_parts deadline (sub_ℕ 0 later))

  release_when_due-AllTimely :
      (w v : PersistentWorkspace) (ttl : Option ℤ) (last_used : Option ℕ)
      → IsOpen parts world w v
      → v.spec.ttl_seconds_after_unused ≡ ttl
      → v.status.last_used_time ≡ last_used
      → is_retained v.spec.cleanup_policy ≡ false
      → AllTimely w (release_when_due parts world v ttl last_used)
  unfolding release_when_due released_form with_condition with_phase
  release_when_due-AllTimely w v none last_used h e f expires = tt
  release_when_due-AllTimely w v (some ttl) none h e f expires = tt
  release_when_due-AllTimely w v (some ttl) (some last_used) h e f expires =
      elim (Bool-cases (ltb_ℤ (pos 0) (remaining (release_deadline ttl last_used) world.later))) [
        | inl early ↦ rw early tt
        | inr due ↦ rw due (
            one_write-All (IsTimely world.now world.later w) _ world.release_update _ (
              inr (
                inr (record {
                  ttl = ttl;
                  last_used = last_used;
                  has_ttl = rw (← h.same_spec) e;
                  was_used = f;
                  use_known = h.known;
                  not_retained = rw (← h.same_spec) expires;
                  over = not_early (release_deadline ttl last_used) world.later due;
                }))))
      ]

  cleanup-AllTimely :
      (w v : PersistentWorkspace)
      → IsOpen parts world w v
      → AllTimely w (reconcile_persistent_workspace_cleanup parts world v)
  unfolding reconcile_persistent_workspace_cleanup
  cleanup-AllTimely w v h =
      elim (Bool-cases (parts.add_finalizer workspace_cleanup_finalizer v.finalizers).1) [
        | inl added ↦
            rw added (one_write-All (IsTimely world.now world.later w) _ world.object_update _ tt)
        | inr there ↦ rw there (elim (Bool-cases (is_retained v.spec.cleanup_policy)) [
          | inl retained ↦ rw retained tt
          | inr expires ↦ rw expires (
              release_when_due-AllTimely w v v.spec.ttl_seconds_after_unused v.status.last_used_time
                h refl refl expires)
        ])
      ]

  keep_bound-AllTimely :
      (w original : PersistentWorkspace) (r : Result WorkspaceError PersistentWorkspace)
      → OnOk (IsOpen parts world w) r
      → AllTimely w (keep_bound parts world original r)
  unfolding keep_bound
  keep_bound-AllTimely w original (err e) h = tt
  keep_bound-AllTimely w original (ok v) h =
      and_then-All (IsTimely world.now world.later w)
        (update_persistent_workspace_status parts world original v)
        (reconcile_persistent_workspace_cleanup parts world v)
        (update-AllTimely w original v (open-IsTimely w v h)) (cleanup-AllTimely w v h)

  bind_new-AllTimely :
      (w original : PersistentWorkspace) (r : Result WorkspaceError PersistentWorkspace)
      → OnOk IsPlaced r
      → AllTimely w (bind_new parts world original r)
  unfolding bind_new
  bind_new-AllTimely w original (err e) h = tt
  bind_new-AllTimely w original (ok new) h =
      update-AllTimely w original new (inl (λ e. ground (arith, h)))

  by_binding-AllTimely :
      (w original v : PersistentWorkspace)
      → IsOpen parts world w v
      → AllTimely w (by_binding parts world original v)
  unfolding by_binding
  by_binding-AllTimely w original v h = elim (Bool-cases (v.status.bound_pod == "")) [
    | inl unnamed ↦ rw unnamed (
        bind_new-AllTimely w original _
          (bind_pending_workspace-IsPlaced parts world.now v world.pods))
    | inr named ↦ rw named (
        keep_bound-AllTimely w original (check_bound parts world v)
          (check_bound-IsOpen parts world w v h))
  ]

  request-AllTimely :
      (w : PersistentWorkspace)
      → w.status.phase ≡ released_workspace
      → AllTimely w (request_persistent_workspace_deletion world.delete_answer)
  unfolding request_persistent_workspace_deletion
  request-AllTimely w h =
      elim world.delete_answer as (λ d. AllTimely w (request_persistent_workspace_deletion d)) [
        | deleted ↦ (h, tt)
        | already_gone ↦ (h, tt)
        | delete_failed ↦ (h, tt)
      ]

  -- A workspace that was released before, or is open.
  record IsPassed (w v : PersistentWorkspace) : Type 0 where
    when_released : v.status.phase ≡ released_workspace → w.status.phase ≡ released_workspace
    same_spec : v.spec ≡ w.spec
    same_use : v.status.last_used_time ≡ w.status.last_used_time

  passed-IsOpen :
      (w v : PersistentWorkspace)
      → IsPassed w v
      → is_released v.status.phase ≡ false
      → IsOpen parts world w v
  passed-IsOpen w v h e = record { same_spec = h.same_spec; known = inl h.same_use; is_open = e }

  passed-IsTimely :
      (w v : PersistentWorkspace) → IsPassed w v → IsTimely world.now world.later w (wrote_status v)
  passed-IsTimely w v h = elim (Bool-cases (is_released v.status.phase)) [
    | inl released ↦ inr (inl (h.when_released (ground arith)))
    | inr opened ↦ inl (λ e. ground arith)
  ]

  by_phase-AllTimely :
      (w original v : PersistentWorkspace) (phase : PersistentWorkspacePhase)
      → v.status.phase ≡ phase
      → IsPassed w v
      → AllTimely w (by_phase parts world phase original v)
  unfolding by_phase
  by_phase-AllTimely w original v lost_workspace e h =
      update-AllTimely w original v (passed-IsTimely w v h)
  by_phase-AllTimely w original v released_workspace e h =
      and_then-All (IsTimely world.now world.later w)
        (update_persistent_workspace_status parts world original v)
        (request_persistent_workspace_deletion world.delete_answer)
        (update-AllTimely w original v (passed-IsTimely w v h))
        (request-AllTimely w (h.when_released e))
  by_phase-AllTimely w original v unset_workspace e h =
      by_binding-AllTimely w original v (passed-IsOpen w v h (ground arith))
  by_phase-AllTimely w original v pending_workspace e h =
      by_binding-AllTimely w original v (passed-IsOpen w v h (ground arith))
  by_phase-AllTimely w original v bound_workspace e h =
      by_binding-AllTimely w original v (passed-IsOpen w v h (ground arith))

  with_condition-IsPassed :
      (w v : PersistentWorkspace) (type : String) (status : ConditionStatus)
      (reason message : String)
      → IsPassed w v
      → IsPassed w (with_condition parts world.now v type status reason message)
  unfolding with_condition
  with_condition-IsPassed w v type status reason message h = record {
    when_released = h.when_released;
    same_spec = h.same_spec;
    same_use = h.same_use;
  }

  by_runtime-AllTimely :
      (w original v : PersistentWorkspace) (answer : Answer String)
      → IsPassed w v
      → AllTimely w (by_runtime parts world answer original v)
  unfolding by_runtime
  by_runtime-AllTimely w original v unavailable h = tt
  by_runtime-AllTimely w original v not_found h =
      update-AllTimely w original _ (passed-IsTimely w _ (with_condition-IsPassed w v _ _ _ _ h))
  by_runtime-AllTimely w original v (found name) h =
      by_phase-AllTimely w original _ _ refl (with_condition-IsPassed w v _ _ _ _ h)

  accept_workspace-IsPassed :
      (w : PersistentWorkspace) → IsPassed w (accept_workspace parts world w)
  unfolding accept_workspace with_condition
  accept_workspace-IsPassed w = record {
    when_released = λ e. ground arith;
    same_spec = refl;
    same_use = refl;
  }

  found-AllTimely :
      (w : PersistentWorkspace) (answer : Answer PersistentWorkspace)
      → answer ≡ found w
      → AllTimely w (reconcile_found_workspace parts world answer)
  unfolding reconcile_found_workspace live_workspace
  found-AllTimely w answer e = rw e (elim (Bool-cases (is_some w.deletion_timestamp)) [
    | inl leaving ↦ rw leaving (
        reconcile_deleting_workspace-All parts world (IsTimely world.now world.later w) w (λ v. tt))
    | inr staying ↦ rw staying (
        by_runtime-AllTimely w w (accept_workspace parts world w) world.runtime
          (accept_workspace-IsPassed w))
  ])

  -- For any answers of the API and any workspace that is read: the Reconcile requests a deletion only
  -- of a workspace read as Released; and a status it writes is Released only if the one read was, or
  -- the cleanup policy is to delete and the time to live after the last use, a recorded one or the
  -- time of this Reconcile, is over.
  pub reconcile_workspace-IsTimely :
      (w : PersistentWorkspace) (write : WorkspaceWrite)
      → world.workspace ≡ found w
      → Member write (reconcile_workspace parts world).writes
      → IsTimely world.now world.later w write
  unfolding reconcile_workspace
  reconcile_workspace-IsTimely w write e m =
      Member-All (IsTimely world.now world.later w) write _ (found-AllTimely w world.workspace e) m
