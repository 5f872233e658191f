-- ===== src/RuntimePod/Heartbeat.antt =====
-- The heartbeat condition: what SetRuntimedReadyCondition writes is what the readers find.
use kruntimes.Base.{
  ℕ, String, ◌≡◌, refl, Bool, true, false, List, [], ◌∷◌, Option, none, some, arith, eq_iff,
  if◌then◌else◌, string_eq, ◌≢◌,
}
use kruntimes.Base.Int.{ℤ, pos, leb_ℤ, ltb_ℤ, sub_ℕ}
use kruntimes.Api.Conditions.{ConditionStatus, true_status}
use kruntimes.Api.Pod.{Pod, PodCondition}
use kruntimes.RuntimePod.{
  runtimed_ready, find_pod_condition, find_runtimed_ready, status_eq, set_condition,
  set_runtimed_ready, fresh_runtimed_ready,
}

-- The transition time after the write: the old one if the status stays.
abbrev pub transition_time : Option PodCondition → ConditionStatus → ℕ → ℕ
transition_time none status now = now
transition_time (some c) status now =
    if status_eq c.status status then c.last_transition_time else now

abbrev stamp : Option PodCondition → PodCondition → PodCondition
stamp old cond = record cond {
  last_transition_time = transition_time old cond.status cond.last_transition_time;
}

find-set_condition :
    (cond : PodCondition) (cs : List PodCondition)
    → cond.type ≡ runtimed_ready
    → find_pod_condition runtimed_ready (set_condition cond cs)
      ≡ some (stamp (find_pod_condition runtimed_ready cs) cond)
unfolding find_pod_condition set_condition
find-set_condition cond [] e = ground (arith, eq_iff cond.type runtimed_ready)
find-set_condition cond (c ∷ cs) e = ground (
  arith,
  find-set_condition cond cs,
  eq_iff cond.type runtimed_ready,
  eq_iff c.type runtimed_ready,
)

set_condition_other :
    (cond : PodCondition) (cs : List PodCondition) (t : String)
    → cond.type ≡ runtimed_ready
    → t ≢ runtimed_ready
    → find_pod_condition t (set_condition cond cs) ≡ find_pod_condition t cs
unfolding find_pod_condition set_condition
set_condition_other cond [] t e ne = ground (arith, eq_iff cond.type t)
set_condition_other cond (c ∷ cs) t e ne = ground (
  arith,
  set_condition_other cond cs t e ne,
  eq_iff cond.type t,
  eq_iff c.type t,
  eq_iff c.type runtimed_ready,
)

set_runtimed_ready_lem :
    (pod : Pod) (status : ConditionStatus) (reason message : String) (now : ℕ)
    → find_runtimed_ready (set_runtimed_ready pod status reason message now)
      ≡ some (record {
        type = runtimed_ready;
        status = status;
        reason = reason;
        message = message;
        last_probe_time = now;
        last_transition_time = transition_time (find_runtimed_ready pod) status now;
      })
unfolding find_runtimed_ready set_runtimed_ready
set_runtimed_ready_lem pod status reason message now = find-set_condition _ pod.conditions refl

-- A heartbeat of any Pod at time `now`: the condition that the readers find has the new status,
-- reason, message and probe time, and the transition time of the old condition if the status did
-- not change, `now` otherwise; the conditions of the other types are found as before.
pub find-set_runtimed_ready :
    (pod : Pod) (status : ConditionStatus) (reason message : String) (now : ℕ) (t : String)
    → t ≢ runtimed_ready
    → (find_runtimed_ready (set_runtimed_ready pod status reason message now)
        ≡ some (record {
          type = runtimed_ready;
          status = status;
          reason = reason;
          message = message;
          last_probe_time = now;
          last_transition_time = transition_time (find_runtimed_ready pod) status now;
        }))
      × (find_pod_condition t (set_runtimed_ready pod status reason message now).conditions
          ≡ find_pod_condition t pod.conditions)
unfolding find_runtimed_ready set_runtimed_ready
find-set_runtimed_ready pod status reason message now t ne =
    (find-set_condition _ pod.conditions refl, set_condition_other _ pod.conditions t refl ne)

abbrev pub is_true_status : ConditionStatus → Bool
is_true_status true_status = true
is_true_status _ = false

-- A Pod whose runtimed wrote a heartbeat at `beat` is fresh at a later time exactly if the status
-- written is true and the time since then is within the threshold; a threshold that is not
-- positive accepts a heartbeat of any age.
pub fresh-set_runtimed_ready :
    (pod : Pod) (status : ConditionStatus) (reason message : String) (beat now : ℕ)
    (stale_after : ℤ)
    → fresh_runtimed_ready (set_runtimed_ready pod status reason message beat) now stale_after ≡ (
        if is_true_status status
        then (if ltb_ℤ (pos 0) stale_after then leb_ℤ (sub_ℕ now beat) stale_after else true)
        else false)
unfolding fresh_runtimed_ready
fresh-set_runtimed_ready pod status reason message beat now stale_after =
    ground (arith, set_runtimed_ready_lem pod status reason message beat)
