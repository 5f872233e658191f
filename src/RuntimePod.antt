-- ===== src/RuntimePod.antt =====
-- internal/runtimepod/status.go: the capacity that a Runtime Pod advertises and the heartbeat
-- condition that its runtimed maintains.
pub mod Fitting
pub mod Heartbeat
use kruntimes.Base.{
  ℕ, String, ◌==◌, string_eq, Bool, true, false, List, [], ◌∷◌, Option, none, some, if◌then◌else◌,
}
use kruntimes.Base.Int.{ℤ, pos, sub_ℕ, leb_ℤ, ltb_ℤ}
use kruntimes.Base.Maps.{Map, lookup, insert}
use kruntimes.Base.Text.{cut_prefix, join}
use kruntimes.Api.Quantity.{QuantityOps, ResourceList}
use kruntimes.Api.Conditions.{
  ConditionStatus, unset_status, true_status, false_status, unknown_status,
}
use kruntimes.Api.Pod.{Pod, PodCondition}

abbrev pub capacity_prefix : String
capacity_prefix = "kruntimes.io/capacity."

abbrev pub resource_runs : String
resource_runs = "runs"

abbrev pub runtimed_ready : String
runtimed_ready = "kruntimes.io/RuntimedReady"

abbrev pub max_int32 : ℤ
max_int32 = pos 2147483647

module _ {Q : Type 0} (k : QuantityOps Q) where
  open k use {
    add, cmp, sign, as_int64, new_quantity, parse_quantity, format_quantity, zero_quantity,
  }

  abbrev pub is_positive : Q → Bool
  is_positive q = ltb_ℤ (pos 0) (sign q)

  abbrev or_zero : Option Q → Q
  or_zero none = zero_quantity
  or_zero (some q) = q

  -- The value that Go reads from a resource list, with no `ok`.
  abbrev pub amount : String → ResourceList Q → Q
  amount name resources = or_zero (lookup name resources)

  unfoldable pub capacity_annotation : String → String
  capacity_annotation name = join capacity_prefix name

  -- The annotations that the Runtime controller writes.
  unfoldable pub capacity_annotations : ResourceList Q → Map String String
  unfolding capacity_annotation
  capacity_annotations [] = []
  capacity_annotations ((name, qty) ∷ rest) =
      let more = capacity_annotations rest in
      if is_positive qty then (capacity_annotation name, format_quantity qty) ∷ more else more

  advertise : String → Option Q → ResourceList Q → ResourceList Q
  advertise name none capacity = capacity
  advertise name (some q) capacity = if is_positive q then insert name q capacity else capacity

  advertise_named : Option String → String → ResourceList Q → ResourceList Q
  unfolding advertise
  advertise_named none raw capacity = capacity
  advertise_named (some name) raw capacity =
      if name == "" then capacity else advertise name (parse_quantity raw) capacity

  -- The loop over the annotations of a Pod.
  unfoldable pub read_annotations : Map String String → ResourceList Q → ResourceList Q
  unfolding advertise_named
  read_annotations [] capacity = capacity
  read_annotations ((key, raw) ∷ rest) capacity =
      read_annotations rest (advertise_named (cut_prefix capacity_prefix key) raw capacity)

  unfoldable pub capacity_of : Option Pod → ResourceList Q → ResourceList Q
  unfolding read_annotations
  capacity_of none fallback = fallback
  capacity_of (some pod) fallback = read_annotations pod.annotations fallback

  fits_one : Option Q → Q → Q → Bool
  fits_one none used requested = false
  fits_one (some available) used requested =
      if ltb_ℤ (pos 0) (cmp (add used requested) available) then false else true

  unfoldable pub fits : ResourceList Q → ResourceList Q → ResourceList Q → Bool
  unfolding fits_one
  fits capacity usage [] = true
  fits capacity usage ((name, requested) ∷ rest) =
      let more = fits capacity usage rest in
      if is_positive requested
      then (if fits_one (lookup name capacity) (amount name usage) requested then more else false)
      else more

  positive_int32 : Option ℤ → ℤ → ℤ
  positive_int32 none fallback = fallback
  positive_int32 (some value) fallback =
      if leb_ℤ value (pos 0) then fallback else if ltb_ℤ max_int32 value then fallback else value

  unfoldable pub quantity_to_positive_int32 : Q → ℤ → ℤ
  unfolding positive_int32
  quantity_to_positive_int32 qty fallback =
      if is_positive qty then positive_int32 (as_int64 qty) fallback else fallback

  unfoldable pub runs_capacity : Option Pod → ℤ → ℤ
  unfolding capacity_of quantity_to_positive_int32
  runs_capacity pod fallback =
      quantity_to_positive_int32
        (amount resource_runs (capacity_of pod ((resource_runs, new_quantity fallback) ∷ [])))
        fallback

-- The heartbeat condition.

unfoldable pub find_pod_condition : String → List PodCondition → Option PodCondition
find_pod_condition type [] = none
find_pod_condition type (c ∷ cs) =
    let rest = find_pod_condition type cs in if c.type == type then some c else rest

unfoldable pub find_runtimed_ready : Pod → Option PodCondition
unfolding find_pod_condition
find_runtimed_ready pod = find_pod_condition runtimed_ready pod.conditions

abbrev pub status_eq : ConditionStatus → ConditionStatus → Bool
status_eq unset_status unset_status = true
status_eq true_status true_status = true
status_eq false_status false_status = true
status_eq unknown_status unknown_status = true
status_eq _ _ = false

-- The loop of SetRuntimedReadyCondition: the first condition of the type is replaced, and a
-- missing one is appended.
set_condition : PodCondition → List PodCondition → List PodCondition
set_condition cond [] = cond ∷ []
set_condition cond (c ∷ cs) =
    let rest = set_condition cond cs in
    if c.type == runtimed_ready
    then (if status_eq c.status cond.status
        then record cond { last_transition_time = c.last_transition_time }
        else cond)
      ∷ cs
    else c ∷ rest

unfoldable pub set_runtimed_ready : Pod → ConditionStatus → String → String → ℕ → Pod
unfolding set_condition
set_runtimed_ready pod status reason message now = record pod {
  conditions =
      set_condition
        (record {
          type = runtimed_ready;
          status = status;
          reason = reason;
          message = message;
          last_probe_time = now;
          last_transition_time = now;
        })
        pod.conditions;
}

abbrev is_true : ConditionStatus → Bool
is_true true_status = true
is_true _ = false

ready_since : Option PodCondition → ℕ → ℤ → Bool
ready_since none now stale_after = false
ready_since (some cond) now stale_after =
    if is_true cond.status
    then (if leb_ℤ stale_after (pos 0)
        then true
        else leb_ℤ (sub_ℕ now cond.last_probe_time) stale_after)
    else false

unfoldable pub is_runtimed_ready : Pod → Bool
unfolding find_runtimed_ready
is_runtimed_ready pod = elim (find_runtimed_ready pod) [ none ↦ false | some c ↦ is_true c.status ]

unfoldable pub fresh_runtimed_ready : Pod → ℕ → ℤ → Bool
unfolding find_runtimed_ready ready_since
fresh_runtimed_ready pod now stale_after = ready_since (find_runtimed_ready pod) now stale_after
