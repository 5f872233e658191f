-- ===== src/Api/Run.antt =====
-- api/v1alpha1/run_types.go: the Run, its spec and its status, over the type `Q` of quantities.
-- A pointer is an `Option`, an int32 an integer, a time a number of nanoseconds (0 is the zero
-- time), and the empty phase is `unset`.
use kruntimes.Base.{ℕ, String, Bool, true, false, List, Option, none, some}
use kruntimes.Base.Int.{ℤ}
use kruntimes.Base.Maps.{Map}
use kruntimes.Api.Conditions.{Condition}
use kruntimes.Api.Quantity.{ResourceList}

pub data RunPhase : Type 0 where
  unset pending scheduled running ready finalizing succeeded failed timeout cancelled : RunPhase

pub data RunTerminationMode : Type 0 where
  immediate drain : RunTerminationMode

pub record RunTermination : Type 0 where
  pub mode : RunTerminationMode

pub record RetryPolicy : Type 0 where
  pub max_attempts : ℤ
  pub backoff : ℤ
  pub retryable_reasons : List String

pub record RunResourceRequirements (Q : Type 0) : Type 0 where
  pub requests : ResourceList Q

pub record RunTaskMode : Type 0 where
  pub entrypoint : String
  pub args : List String

pub record RunFunctionMode : Type 0 where
  pub handler : String
  pub idle_timeout_seconds : Option ℤ

pub record RunSessionMode : Type 0 where
  pub lease_timeout_seconds : Option ℤ
  pub queue_size : Option ℤ
  pub operation_timeout : Option ℤ

pub record RunMode : Type 0 where
  pub task : Option RunTaskMode
  pub function : Option RunFunctionMode
  pub session : Option RunSessionMode

pub record RunWorkspaceReference : Type 0 where
  pub name : String
  pub kind : String
  pub api_group : String

-- metav1.LabelSelector is kept as the text of its API form: only the library reads it.
abbrev pub LabelSelector : Type 0
LabelSelector = String

pub record RunAffinityTerm : Type 0 where
  pub label_selector : Option LabelSelector
  pub topology_key : String

pub record WeightedRunAffinityTerm : Type 0 where
  pub weight : ℤ
  pub run_affinity_term : RunAffinityTerm

pub record RunAffinityRules : Type 0 where
  pub required : List RunAffinityTerm
  pub preferred : List WeightedRunAffinityTerm

pub record RunAffinity : Type 0 where
  pub run_affinity : Option RunAffinityRules
  pub run_anti_affinity : Option RunAffinityRules

pub record RunSpec (Q : Type 0) : Type 0 where
  pub runtime : String
  pub mode : RunMode
  pub workspace : Option RunWorkspaceReference
  pub affinity : Option RunAffinity
  pub resources : Option (RunResourceRequirements Q)
  pub timeout : Option ℤ
  pub termination : Option RunTermination
  pub retry_policy : Option RetryPolicy
  pub ttl_seconds_after_finished : Option ℤ

pub record RunStatus : Type 0 where
  pub mode : String
  pub phase : RunPhase
  pub assigned_pod : String
  pub assigned_pod_uid : String
  pub message : String
  pub start_time : Option ℕ
  pub completion_time : Option ℕ
  pub attempt : ℤ
  pub conditions : List Condition

pub record Run (Q : Type 0) : Type 0 where
  pub name : String
  pub namespace : String
  pub uid : String
  pub labels : Map String String
  pub finalizers : List String
  pub deletion_timestamp : Option ℕ
  pub creation_timestamp : ℕ
  pub spec : RunSpec Q
  pub status : RunStatus

abbrev pub registration_cleanup_finalizer : String
registration_cleanup_finalizer = "kruntimes.io/registration-cleanup"

abbrev pub topology_runtime_pod : String
topology_runtime_pod = "kruntimes.io/runtime-pod"

-- The phases that the source's `switch` and `==` tests tell apart.
abbrev pub is_pending_phase : RunPhase → Bool
is_pending_phase unset = true
is_pending_phase pending = true
is_pending_phase _ = false

name_of : Option RunTaskMode → Option RunSessionMode → Option RunFunctionMode → String
name_of (some _) _ _ = "task"
name_of none (some _) _ = "session"
name_of none none (some _) = "function"
name_of none none none = ""

unfoldable pub mode_name : RunMode → String
unfolding name_of
mode_name m = name_of m.task m.session m.function

abbrev is_mode : RunTerminationMode → Option RunTermination → Bool
is_mode immediate (some t) = elim t.mode [ immediate ↦ true | drain ↦ false ]
is_mode drain (some t) = elim t.mode [ immediate ↦ false | drain ↦ true ]
is_mode _ none = false

module _ {Q : Type 0} where
  unfoldable pub has_immediate_termination : RunSpec Q → Bool
  has_immediate_termination s = is_mode immediate s.termination

  unfoldable pub has_drain_termination : RunSpec Q → Bool
  has_drain_termination s = is_mode drain s.termination
