-- ===== src/Admission.antt =====
-- internal/admission/run_workspace.go: the webhook that decides whether the creator of a Run may use the
-- workspace that the Run names. `AdmissionWorld` holds what the decoder, the API, the reviewer and the
-- owner helpers of apimachinery answer; the texts of the responses are left out.
pub mod Grants
use kruntimes.Base.{
  String, string_eq, ◌==◌, Bool, true, false, ◌&&◌, ◌||◌, not, Option, none, some, if◌then◌else◌,
}
use kruntimes.Base.Maps.{Map, lookup}
use kruntimes.Base.Text.{join}
use kruntimes.Api.Run.{Run, RunWorkspaceReference}
use kruntimes.Api.Workspace.{PersistentWorkspace}
use kruntimes.Scheduler.Environment.{Answer, found, not_found, unavailable}

abbrev pub group_version : String
group_version = "kruntimes.io/v1alpha1"

abbrev pub workflow_run_uid_label : String
workflow_run_uid_label = "kruntimes.io/workflowrun-uid"

abbrev pub workflow_job_label : String
workflow_job_label = "kruntimes.io/workflow-job"

pub record ServiceAccountIdentity : Type 0 where
  pub namespace : String
  pub name : String

-- The fields of metav1.OwnerReference that the code reads.
pub record OwnerReference : Type 0 where
  pub api_version : String
  pub kind : String
  pub name : String
  pub uid : String

-- `owner` is GetControllerOf(run), `workflow_run` the UID of the WorkflowRun that is read,
-- `is_controlled` IsControlledBy(workspace, workflowRun), and `review` the reviewer's answer.
pub record AdmissionWorld (Q : Type 0) : Type 0 where
  pub username : String
  pub run : Option (Run Q)
  pub workspace : Answer PersistentWorkspace
  pub workspace_labels : Map String String
  pub owner : Option OwnerReference
  pub workflow_run : Answer String
  pub is_controlled : Bool
  pub review : Option Bool

pub data AdmissionResponse : Type 0 where
  allowed denied : AdmissionResponse
  bad_request internal_server_error service_unavailable : AdmissionResponse

unfoldable pub service_account_matches : ServiceAccountIdentity → String → Bool
service_account_matches identity username =
    not (identity.namespace == "")
    && (not (identity.name == "")
        && username
          == join "system:serviceaccount:" (join identity.namespace (join ":" identity.name)))

label_or_empty : Option String → String
label_or_empty none = ""
label_or_empty (some value) = value

-- A label of a map, empty where it is missing.
unfoldable pub label : String → Map String String → String
unfolding label_or_empty
label name labels = label_or_empty (lookup name labels)

module _ {Q : Type 0} (w : AdmissionWorld Q) where
  same_workflow_job : String → String → Answer String → Bool
  same_workflow_job owner_uid job_name not_found = false
  same_workflow_job owner_uid job_name unavailable = false
  same_workflow_job owner_uid job_name (found uid) =
      if not (uid == owner_uid)
      then false
      else if not w.is_controlled
      then false
      else label workflow_run_uid_label w.workspace_labels == uid
        && label workflow_job_label w.workspace_labels == job_name

  owned_child : Run Q → Option OwnerReference → Bool
  unfolding same_workflow_job
  owned_child run none = false
  owned_child run (some owner) =
      let job_name = label workflow_job_label run.labels in
      let same = same_workflow_job owner.uid job_name w.workflow_run in
      if not (owner.api_version == group_version)
        || (not (owner.kind == "WorkflowRun") || (owner.name == "" || owner.uid == ""))
      then false
      else if not (label workflow_run_uid_label run.labels == owner.uid)
      then false
      else if job_name == ""
      then false
      else same

  -- validateWorkflowChildRun, which has no error
  unfoldable pub validate_workflow_child_run : Run Q → Bool
  unfolding owned_child
  validate_workflow_child_run run = owned_child run w.owner

  reviewed : Option Bool → AdmissionResponse
  reviewed none = service_unavailable
  reviewed (some true) = allowed
  reviewed (some false) = denied

  module _ (controller : ServiceAccountIdentity) where
    on_workspace : Run Q → Answer PersistentWorkspace → AdmissionResponse
    unfolding reviewed
    on_workspace run not_found = denied
    on_workspace run unavailable = internal_server_error
    on_workspace run (found workspace) =
        if not (workspace.spec.runtime == run.spec.runtime)
        then denied
        else if service_account_matches controller w.username
        then (if validate_workflow_child_run run then allowed else denied)
        else reviewed w.review

    with_reference : Run Q → Option RunWorkspaceReference → AdmissionResponse
    unfolding on_workspace
    with_reference run none = allowed
    with_reference run (some reference) = on_workspace run w.workspace

    handle_run : Option (Run Q) → AdmissionResponse
    unfolding with_reference
    handle_run none = bad_request
    handle_run (some run) = with_reference run run.spec.workspace

    -- RunAdmissionValidator.Handle
    unfoldable pub handle_admission : AdmissionResponse
    unfolding handle_run
    handle_admission = handle_run w.run
