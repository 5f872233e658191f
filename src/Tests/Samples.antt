-- ===== src/Tests/Samples.antt =====
-- A concrete quantity type, concrete condition helpers and a few API objects.
use kruntimes.Base.{
  ℕ, ◌≡◌, ◌≢◌, refl, eq_iff, arith, String, string_eq, ◌==◌, List, [], ◌∷◌, Option, none, some,
  Bool-cases, inl, inr, if◌then◌else◌,
}
use kruntimes.Base.Int.{ℤ, pos, negsuc, ltb_ℤ, ◌+ℤ◌}
use kruntimes.Api.Quantity.{ResourceList, QuantityOps, QuantityLaws}
use kruntimes.Api.Conditions.{Condition, true_status, MetaOps, MetaLaws}
use kruntimes.Api.Pod.{Pod, pod_running, pod_ready}
use kruntimes.Api.Run.{Run, RunSpec, RunStatus, RunMode, pending, scheduled}
use kruntimes.Scheduler.Types.{SchedulingSnapshot, UsageByPod}
use kruntimes.Scheduler.Cache.{Reservations}
use kruntimes.RuntimePod.{runtimed_ready, status_eq}

-- Whole quantities.
abbrev digits : String → Option ℤ
digits s = if s == "4" then some (pos 4) else if s == "2" then some (pos 2) else none

abbrev compare_int : ℤ → ℤ → ℤ
compare_int a b = if ltb_ℤ b a then pos 1 else if ltb_ℤ a b then negsuc 0 else pos 0

abbrev pub whole : QuantityOps ℤ
whole = record {
  add = ◌+ℤ◌;
  cmp = compare_int;
  sign = λ q. q;
  as_int64 = some;
  new_quantity = λ z. z;
  parse_quantity = digits;
  format_quantity = λ _. "2";
  zero_quantity = pos 0;
  value = λ q. q;
}

cmp_pos_lem : (a b : ℤ) → ltb_ℤ (pos 0) (compare_int a b) ≡ ltb_ℤ b a
cmp_pos_lem a b = ground arith

pub whole_laws : QuantityLaws whole
whole_laws = record {
  value-add = λ a b. refl;
  cmp_pos = cmp_pos_lem;
  sign_pos = λ a. refl;
  sign_neg = λ a. refl;
  value_zero = refl;
}

unfoldable pub find_in : List Condition → String → Option Condition
find_in [] type = none
find_in (c ∷ cs) type = let rest = find_in cs type in if c.type == type then some c else rest

-- A changed condition of the list; the time stays where the status does.
unfoldable pub set_in : ℕ → List Condition → Condition → List Condition
set_in now [] cond = record cond { last_transition_time = now } ∷ []
set_in now (c ∷ cs) cond =
    let rest = set_in now cs cond in
    if c.type == cond.type
    then record cond {
      last_transition_time = if status_eq c.status cond.status then c.last_transition_time else now;
    }
      ∷ cs
    else c ∷ rest

set_found_lem :
    (now : ℕ) (cs : List Condition) (c : Condition)
    → (d : Condition) × (find_in (set_in now cs c) c.type ≡ some d)
      × (d.type ≡ c.type)
      × (d.status ≡ c.status)
      × (d.reason ≡ c.reason)
      × (d.message ≡ c.message)
unfolding find_in set_in
set_found_lem now [] c = (
  record c { last_transition_time = now },
  ground (arith, eq_iff c.type c.type),
  refl,
  refl,
  refl,
  refl,
)
set_found_lem now (h ∷ cs) c = elim (Bool-cases (h.type == c.type)) [
  | inl same ↦ (
    record c {
      last_transition_time = if status_eq h.status c.status then h.last_transition_time else now;
    },
    rw same (ground (arith, eq_iff c.type c.type)),
    refl,
    refl,
    refl,
    refl,
  )
  | inr other ↦
      let (d, found, same_type, same_status, same_reason, same_message) = set_found_lem now cs c in
      (d, rw (other, other) found, same_type, same_status, same_reason, same_message)
]

set_other_lem :
    (now : ℕ) (cs : List Condition) (c : Condition) (t : String)
    → t ≢ c.type
    → find_in (set_in now cs c) t ≡ find_in cs t
unfolding find_in set_in
set_other_lem now [] c t ne = ground (arith, eq_iff c.type t)
set_other_lem now (h ∷ cs) c t ne =
    ground
      (arith, set_other_lem now cs c t ne, eq_iff c.type t, eq_iff h.type t, eq_iff h.type c.type)

abbrev pub listed_conditions : MetaOps
listed_conditions = record { find_status_condition = find_in; set_status_condition = set_in }

pub listed_laws : MetaLaws listed_conditions
listed_laws = record { set_found = set_found_lem; set_other = set_other_lem }

-- A ready Pod of capacity four with a heartbeat at time 100.
abbrev pub worker : Pod
worker = record {
  name = "worker-0";
  namespace = "default";
  uid = "uid-0";
  labels = [];
  annotations = ("kruntimes.io/capacity.runs", "4") ∷ [];
  deletion_timestamp = none;
  phase = pod_running;
  conditions =
      record {
        type = pod_ready;
        status = true_status;
        reason = "";
        message = "";
        last_probe_time = 0;
        last_transition_time = 0;
      }
      ∷ record {
        type = runtimed_ready;
        status = true_status;
        reason = "Heartbeat";
        message = "";
        last_probe_time = 100;
        last_transition_time = 50;
      }
      ∷ [];
}

abbrev pub task_mode : RunMode
task_mode = record {
  task = some (record { entrypoint = "main.sh"; args = [] });
  session = none;
  function = none;
}

abbrev pub bash_spec : RunSpec ℤ
bash_spec = record {
  runtime = "bash";
  mode = task_mode;
  workspace = none;
  affinity = none;
  resources = none;
  timeout = none;
  termination = none;
  retry_policy = none;
  ttl_seconds_after_finished = none;
}

abbrev pub fresh_status : RunStatus
fresh_status = record {
  mode = "task";
  phase = pending;
  assigned_pod = "";
  assigned_pod_uid = "";
  message = "";
  start_time = none;
  completion_time = none;
  attempt = pos 0;
  conditions = [];
}

abbrev pub waiting_run : Run ℤ
waiting_run = record {
  name = "job";
  namespace = "default";
  uid = "run-uid";
  labels = ("app", "job") ∷ [];
  finalizers = [];
  deletion_timestamp = none;
  creation_timestamp = 1;
  spec = bash_spec;
  status = fresh_status;
}

-- A Run that holds a slot of the worker.
abbrev pub assigned_run : Run ℤ
assigned_run = record waiting_run {
  name = "other";
  uid = "other-uid";
  status = record fresh_status {
    phase = scheduled;
    assigned_pod = "worker-0";
    assigned_pod_uid = "uid-0";
  };
}

abbrev pub one_slot : ResourceList ℤ
one_slot = ("runs", pos 1) ∷ []

abbrev pub four_slots : ResourceList ℤ
four_slots = ("runs", pos 4) ∷ []

abbrev pub actual : UsageByPod ℤ
actual = ("worker-0", one_slot) ∷ []

abbrev pub assumed : Reservations ℤ
assumed =
    (
      record { namespace = "default"; run_uid = "late-uid" },
      record { run_name = "late"; pod_name = "worker-0"; request = one_slot; labels = [] },
    )
    ∷ []

abbrev pub late_run : Run ℤ
late_run = record waiting_run { name = "late"; uid = "late-uid" }

abbrev pub shown : SchedulingSnapshot ℤ
shown = record {
  run = waiting_run;
  request = one_slot;
  pods = worker ∷ [];
  actual_usage_by_pod = actual;
  usage_by_pod = ("worker-0", ("runs", pos 2) ∷ []) ∷ [];
  runs = assigned_run ∷ waiting_run ∷ late_run ∷ [];
  affinity_targets = record { pod_name = "worker-0"; labels = ("app", "job") ∷ [] } ∷ [];
  workspace = none;
  now = 200;
}
