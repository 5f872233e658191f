-- ===== src/Api/Pod.antt =====
-- The fields of corev1.Pod that the code reads.
use kruntimes.Base.{ℕ, String, List, Option, Bool, true, false}
use kruntimes.Base.Maps.{Map}
use kruntimes.Api.Conditions.{ConditionStatus}

-- corev1.PodPhase
pub data PodPhase : Type 0 where
  pod_pending pod_running pod_succeeded pod_failed pod_unknown : PodPhase

-- corev1.PodCondition; the times are in nanoseconds.
pub record PodCondition : Type 0 where
  pub type : String
  pub status : ConditionStatus
  pub reason : String
  pub message : String
  pub last_probe_time : ℕ
  pub last_transition_time : ℕ

pub record Pod : Type 0 where
  pub name : String
  pub namespace : String
  pub uid : String
  pub labels : Map String String
  pub annotations : Map String String
  pub deletion_timestamp : Option ℕ
  pub phase : PodPhase
  pub conditions : List PodCondition

-- corev1.PodReady
abbrev pub pod_ready : String
pod_ready = "Ready"

abbrev pub is_running : PodPhase → Bool
is_running pod_running = true
is_running _ = false
