-- ===== src/Controller/Workspaces/Usage/Stability.antt =====
-- Reconciling the usage again changes nothing, so it does not postpone the cleanup.
use kruntimes.Base.{ℕ, String, List, ◌≡◌, refl, inl, inr, Bool, true, false, arith, Bool-cases}
use kruntimes.Api.Conditions.{ConditionStatus, Condition, true_status, false_status, MetaLaws}
use kruntimes.Api.Workspace.{PersistentWorkspace}
use kruntimes.RuntimePod.{status_eq}
use kruntimes.Controller.Workspaces.{WorkspaceParts, in_use_condition, with_condition}
use kruntimes.Controller.Workspaces.Usage.{differs, set_workspace_usage}

status_eq_self : (s : ConditionStatus) → status_eq s s ≡ true
status_eq_self s = ground arith

abbrev flag : Bool → ConditionStatus
flag true = true_status
flag false = false_status

module _ (parts : WorkspaceParts) (laws : MetaLaws parts.meta) where
  -- The condition that a write leaves no longer differs.
  set_agrees :
      (now : ℕ) (cs : List Condition) (c : Condition)
      → differs
          (parts.meta.find_status_condition (parts.meta.set_status_condition now cs c) c.type)
          c.status
        ≡ false
  set_agrees now cs c =
      let (d, found, _, same_status, _, _) = laws.set_found now cs c in
      rw (found, same_status, status_eq_self c.status) refl

  written_agrees :
      (now : ℕ) (w : PersistentWorkspace) (type reason message : String) (status : ConditionStatus)
      → differs
          (parts.meta.find_status_condition
            (with_condition parts now w type status reason message).status.conditions
            type)
          status
        ≡ false
  unfolding with_condition
  written_agrees now w type reason message status = set_agrees now w.status.conditions _

  agrees_after :
      (now : ℕ) (active : Bool) (w : PersistentWorkspace)
      → differs
          (parts.meta.find_status_condition
            (set_workspace_usage parts now active w).status.conditions
            in_use_condition)
          (flag active)
        ≡ false
  unfolding set_workspace_usage
  agrees_after now true w =
      elim (Bool-cases (
        differs (parts.meta.find_status_condition w.status.conditions in_use_condition)
          true_status)) [
            | inl e ↦ rw e (written_agrees now w in_use_condition _ _ true_status)
            | inr e ↦ rw (e, e) refl
          ]
  agrees_after now false w =
      elim (Bool-cases (
        differs (parts.meta.find_status_condition w.status.conditions in_use_condition)
          false_status)) [
            | inl e ↦ rw e (written_agrees now _ in_use_condition _ _ false_status)
            | inr e ↦ rw (e, e) refl
          ]

  unchanged :
      (later : ℕ) (active : Bool) (w : PersistentWorkspace)
      → differs
          (parts.meta.find_status_condition w.status.conditions in_use_condition)
          (flag active)
        ≡ false
      → set_workspace_usage parts later active w ≡ w
  unfolding set_workspace_usage
  unchanged later true w h = rw h refl
  unchanged later false w h = rw h refl

  -- For any workspace, under the documented laws of the condition helpers: with the same activity,
  -- reconciling the usage a second time changes nothing, at whatever time. So repeated
  -- reconciliations do not postpone the end of the time to live.
  pub set_workspace_usage-again :
      (now later : ℕ) (active : Bool) (w : PersistentWorkspace)
      → set_workspace_usage parts later active (set_workspace_usage parts now active w)
        ≡ set_workspace_usage parts now active w
  set_workspace_usage-again now later active w =
      unchanged later active (set_workspace_usage parts now active w) (agrees_after now active w)
