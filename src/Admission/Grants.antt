-- ===== src/Admission/Grants.antt =====
-- Who may create a Run that names a workspace.
use kruntimes.Base.{
  ◌≡◌, ◌↔◌, ◌⊎◌, inl, inr, refl, sym, ap, ◌∙◌, eq_iff, String, string_eq, ◌==◌, Bool, true, false,
  Option, none, some, arith, Bool-cases,
}
use kruntimes.Api.Run.{Run, RunWorkspaceReference}
use kruntimes.Api.Workspace.{PersistentWorkspace}
use kruntimes.Scheduler.Environment.{Answer, found, not_found, unavailable}
use kruntimes.Admission.{
  AdmissionWorld, allowed, ServiceAccountIdentity, OwnerReference, group_version,
  workflow_run_uid_label, workflow_job_label, label, service_account_matches, same_workflow_job,
  owned_child, validate_workflow_child_run, reviewed, on_workspace, with_reference, handle_run,
  handle_admission,
}

module _ {Q : Type 0} (w : AdmissionWorld Q) where
  -- The Run and the workspace belong to the same job of one WorkflowRun, which controls both.
  pub record IsVerifiedChild (run : Run Q) : Type 0 where
    pub owner : OwnerReference
    pub is_owned : w.owner ≡ some owner
    pub api_version : owner.api_version ≡ group_version
    pub kind : owner.kind ≡ "WorkflowRun"
    pub named : (owner.name == "") ≡ false
    pub identified : (owner.uid == "") ≡ false
    pub run_label : label workflow_run_uid_label run.labels ≡ owner.uid
    pub has_job : (label workflow_job_label run.labels == "") ≡ false
    pub workflow_run_found : w.workflow_run ≡ found owner.uid
    pub controls : w.is_controlled ≡ true
    pub workspace_label : label workflow_run_uid_label w.workspace_labels ≡ owner.uid
    pub same_job : label workflow_job_label w.workspace_labels ≡ label workflow_job_label run.labels

  same_workflow_job-true :
      (uid job : String) (answer : Answer String)
      → same_workflow_job w uid job answer ≡ true
      → (answer ≡ found uid)
        × (w.is_controlled ≡ true)
        × (label workflow_run_uid_label w.workspace_labels ≡ uid)
        × (label workflow_job_label w.workspace_labels ≡ job)
  unfolding same_workflow_job
  same_workflow_job-true uid job not_found h = absurd (ground arith)
  same_workflow_job-true uid job unavailable h = absurd (ground arith)
  same_workflow_job-true uid job (found v) h =
      let same : v ≡ uid = ground (arith, eq_iff v uid) in
      (
        ap found same,
        ground arith,
        ground (arith, eq_iff (label workflow_run_uid_label w.workspace_labels) v),
        ground (arith, eq_iff (label workflow_job_label w.workspace_labels) job),
      )

  owned_child-IsVerifiedChild :
      (run : Run Q) (o : Option OwnerReference)
      → w.owner ≡ o
      → owned_child w run o ≡ true
      → IsVerifiedChild run
  unfolding owned_child
  owned_child-IsVerifiedChild run none e h = absurd (ground arith)
  owned_child-IsVerifiedChild run (some owner) e h =
      let (read, controls, uid_label, job_label) =
        same_workflow_job-true owner.uid (label workflow_job_label run.labels) w.workflow_run
          (ground arith) in
      record {
        owner = owner;
        is_owned = e;
        api_version = ground (arith, eq_iff owner.api_version group_version);
        kind = ground (arith, eq_iff owner.kind "WorkflowRun");
        named = ground arith;
        identified = ground arith;
        run_label = ground (arith, eq_iff (label workflow_run_uid_label run.labels) owner.uid);
        has_job = ground arith;
        workflow_run_found = read;
        controls = controls;
        workspace_label = uid_label;
        same_job = job_label;
      }

  same_workflow_job-holds :
      (uid job : String) (answer : Answer String)
      → answer ≡ found uid
      → w.is_controlled ≡ true
      → label workflow_run_uid_label w.workspace_labels ≡ uid
      → label workflow_job_label w.workspace_labels ≡ job
      → same_workflow_job w uid job answer ≡ true
  unfolding same_workflow_job
  same_workflow_job-holds uid job not_found e c u j = absurd (ground arith)
  same_workflow_job-holds uid job unavailable e c u j = absurd (ground arith)
  same_workflow_job-holds uid job (found v) e c u j =
      let same : v ≡ uid = cc in
      ground (
        arith,
        eq_iff v uid,
        eq_iff (label workflow_run_uid_label w.workspace_labels) v,
        eq_iff (label workflow_job_label w.workspace_labels) job,
      )

  IsVerifiedChild-owned_child :
      (run : Run Q) (o : Option OwnerReference)
      → w.owner ≡ o
      → IsVerifiedChild run
      → owned_child w run o ≡ true
  unfolding owned_child
  IsVerifiedChild-owned_child run none e h = absurd (ground (arith, h.is_owned))
  IsVerifiedChild-owned_child run (some owner) e h =
      let both : some h.owner ≡ some owner = sym h.is_owned ∙ e in
      let same : h.owner ≡ owner = cc in
      let same_job =
        same_workflow_job-holds h.owner.uid (label workflow_job_label run.labels) w.workflow_run
          h.workflow_run_found h.controls h.workspace_label h.same_job in
      rw (← same) (
        ground (
          arith,
          same_job,
          h.named,
          h.identified,
          h.has_job,
          h.api_version,
          h.kind,
          h.run_label,
          eq_iff h.owner.api_version group_version,
          eq_iff h.owner.kind "WorkflowRun",
          eq_iff (label workflow_run_uid_label run.labels) h.owner.uid,
        ))

  -- The workspace exists and belongs to the Run's Runtime, and the caller may use it: as the controller
  -- of WorkflowRuns for a child of the workflow job, or because the reviewer allows it.
  pub record IsGranted (controller : ServiceAccountIdentity) (run : Run Q) : Type 0 where
    pub workspace : PersistentWorkspace
    pub exists : w.workspace ≡ found workspace
    pub same_runtime : workspace.spec.runtime ≡ run.spec.runtime
    pub may_use :
        (service_account_matches controller w.username ≡ true) × IsVerifiedChild run
        ⊎ (service_account_matches controller w.username ≡ false) × (w.review ≡ some true)

  reviewed-allowed : (r : Option Bool) → reviewed w r ≡ allowed → r ≡ some true
  unfolding reviewed
  reviewed-allowed none h = absurd (ground arith)
  reviewed-allowed (some true) h = refl
  reviewed-allowed (some false) h = absurd (ground arith)

  module _ (controller : ServiceAccountIdentity) where
    on_workspace-IsGranted :
        (run : Run Q) (answer : Answer PersistentWorkspace)
        → w.workspace ≡ answer
        → on_workspace w controller run answer ≡ allowed
        → IsGranted controller run
    unfolding on_workspace validate_workflow_child_run
    on_workspace-IsGranted run not_found e h = absurd (ground arith)
    on_workspace-IsGranted run unavailable e h = absurd (ground arith)
    on_workspace-IsGranted run (found workspace) e h =
        elim (Bool-cases (workspace.spec.runtime == run.spec.runtime)) [
          | inr other ↦ absurd (ground arith)
          | inl same ↦ record {
            workspace = workspace;
            exists = e;
            same_runtime = (eq_iff workspace.spec.runtime run.spec.runtime).0 same;
            may_use = elim (Bool-cases (service_account_matches controller w.username)) [
              | inl trusted ↦
                  inl (trusted, owned_child-IsVerifiedChild run w.owner refl (ground arith))
              | inr caller ↦ inr (caller, reviewed-allowed w.review (ground arith))
            ];
          }
        ]

    IsGranted-on_workspace :
        (run : Run Q) (answer : Answer PersistentWorkspace)
        → w.workspace ≡ answer
        → IsGranted controller run
        → on_workspace w controller run answer ≡ allowed
    unfolding on_workspace validate_workflow_child_run reviewed
    IsGranted-on_workspace run not_found e h = absurd (ground (arith, h.exists))
    IsGranted-on_workspace run unavailable e h = absurd (ground (arith, h.exists))
    IsGranted-on_workspace run (found workspace) e h =
        let both : found h.workspace ≡ found workspace = sym h.exists ∙ e in
        let is_workspace : h.workspace ≡ workspace = cc in
        let same : (workspace.spec.runtime == run.spec.runtime) ≡ true =
          (eq_iff workspace.spec.runtime run.spec.runtime).1 (
            ap (λ (v : PersistentWorkspace). v.spec.runtime) (sym is_workspace) ∙ h.same_runtime) in
        elim h.may_use [
          | inl (trusted, child) ↦
              ground (arith, trusted, same, IsVerifiedChild-owned_child run w.owner refl child)
          | inr (caller, granted) ↦ ground (arith, caller, same, granted)
        ]

    with_reference-eq :
        (run : Run Q) (o : Option RunWorkspaceReference) (reference : RunWorkspaceReference)
        → o ≡ some reference
        → with_reference w controller run o ≡ on_workspace w controller run w.workspace
    unfolding with_reference
    with_reference-eq run none reference e = absurd (ground arith)
    with_reference-eq run (some r) reference e = refl

    handle_run-eq :
        (run : Run Q) (o : Option (Run Q)) (reference : RunWorkspaceReference)
        → o ≡ some run
        → run.spec.workspace ≡ some reference
        → handle_run w controller o ≡ on_workspace w controller run w.workspace
    unfolding handle_run
    handle_run-eq run none reference e f = absurd (ground arith)
    handle_run-eq run (some r) reference e f =
        let same : r ≡ run = cc in
        ap (λ (v : Run Q). with_reference w controller v v.spec.workspace) same
        ∙ with_reference-eq run run.spec.workspace reference f

    -- For any answers, where the decoded Run names a workspace: it is admitted exactly if the workspace
    -- exists and belongs to the Run's Runtime, and either the caller is the controller of WorkflowRuns
    -- and the Run and the workspace belong to the same job of the WorkflowRun that controls both, or the
    -- caller is another one and the reviewer allows the use.
    pub handle_admission_iff :
        (run : Run Q) (reference : RunWorkspaceReference)
        → w.run ≡ some run
        → run.spec.workspace ≡ some reference
        → (handle_admission w controller ≡ allowed) ↔ IsGranted controller run
    unfolding handle_admission
    handle_admission_iff run reference e f =
        let same = handle_run-eq run w.run reference e f in
        (
          λ h. on_workspace-IsGranted run w.workspace refl (sym same ∙ h),
          λ g. same ∙ IsGranted-on_workspace run w.workspace refl g,
        )
