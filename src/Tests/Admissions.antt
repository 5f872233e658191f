-- ===== src/Tests/Admissions.antt =====
-- The theorem on admission at a Run that names a workspace.
use kruntimes.Base.{◌≡◌, ◌↔◌, refl, true, [], ◌∷◌, none, some}
use kruntimes.Base.Int.{ℤ}
use kruntimes.Api.Run.{Run, RunWorkspaceReference}
use kruntimes.Api.Workspace.{PersistentWorkspace, pending_workspace, retain}
use kruntimes.Scheduler.Environment.{found}
use kruntimes.Admission.{
  AdmissionWorld, ServiceAccountIdentity, allowed, handle_admission, workflow_run_uid_label,
  workflow_job_label,
}
use kruntimes.Admission.Grants.{IsGranted, handle_admission_iff}
use kruntimes.Tests.Samples.{waiting_run}

abbrev shared_workspace : PersistentWorkspace
shared_workspace = record {
  name = "shared";
  namespace = "default";
  uid = "shared-uid";
  generation = 1;
  finalizers = [];
  deletion_timestamp = none;
  spec = record { runtime = "bash"; ttl_seconds_after_unused = none; cleanup_policy = retain };
  status = record {
    phase = pending_workspace;
    runtime = "bash";
    bound_pod = "";
    bound_pod_uid = "";
    path = "";
    last_used_time = none;
    conditions = [];
  };
}

abbrev shared_reference : RunWorkspaceReference
shared_reference = record {
  name = "shared";
  kind = "PersistentWorkspace";
  api_group = "kruntimes.io";
}

abbrev child_run : Run ℤ
child_run = record waiting_run {
  labels = (workflow_run_uid_label, "flow-uid") ∷ (workflow_job_label, "build") ∷ [];
  spec = record (waiting_run.spec) { workspace = some shared_reference };
}

abbrev workflow_controller : ServiceAccountIdentity
workflow_controller = record { namespace = "system"; name = "controller" }

abbrev admission_world : AdmissionWorld ℤ
admission_world = record {
  username = "system:serviceaccount:system:controller";
  run = some child_run;
  workspace = found shared_workspace;
  workspace_labels = (workflow_run_uid_label, "flow-uid") ∷ (workflow_job_label, "build") ∷ [];
  owner = some (record {
    api_version = "kruntimes.io/v1alpha1";
    kind = "WorkflowRun";
    name = "flow";
    uid = "flow-uid";
  });
  workflow_run = found "flow-uid";
  is_controlled = true;
  review = none;
}

handle_admission_iff_example :
    (handle_admission admission_world workflow_controller ≡ allowed)
    ↔ IsGranted admission_world workflow_controller child_run
handle_admission_iff_example =
    handle_admission_iff admission_world workflow_controller child_run shared_reference refl refl
