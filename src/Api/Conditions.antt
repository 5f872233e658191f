-- ===== src/Api/Conditions.antt =====
-- metav1.Condition, and the two helpers of k8s.io/apimachinery's meta package as a parameter.
use kruntimes.Base.{ℕ, String, ◌≡◌, ◌≢◌, List, Option, some}

-- metav1.ConditionStatus; `unset_status` is the empty string.
pub data ConditionStatus : Type 0 where
  unset_status true_status false_status unknown_status : ConditionStatus

pub record Condition : Type 0 where
  pub type : String
  pub status : ConditionStatus
  pub reason : String
  pub message : String
  pub last_transition_time : ℕ
  pub observed_generation : ℕ

pub record MetaOps : Type 0 where
  pub find_status_condition : List Condition → String → Option Condition
  -- the first argument is the clock that the helper reads
  pub set_status_condition : ℕ → List Condition → Condition → List Condition

-- What the helpers document: the condition of that type is there afterwards with the new status,
-- reason and message, and the others are left alone.
pub record MetaLaws (m : MetaOps) : Type 0 where
  pub set_found :
      (now : ℕ) (cs : List Condition) (c : Condition)
      → (d : Condition) × (m.find_status_condition (m.set_status_condition now cs c) c.type
          ≡ some d)
        × (d.type ≡ c.type)
        × (d.status ≡ c.status)
        × (d.reason ≡ c.reason)
        × (d.message ≡ c.message)
  pub set_other :
      (now : ℕ) (cs : List Condition) (c : Condition) (t : String)
      → t ≢ c.type
      → m.find_status_condition (m.set_status_condition now cs c) t ≡ m.find_status_condition cs t
