-- ===== src/Scheduler/Cache.antt =====
-- internal/scheduler/assumed_reservation_cache.go: the assignments made after planning and before
-- the informer shows them. Each operation runs in one critical section; it is a function from the
-- cache to the new cache.
pub mod Totals
pub mod Admission
use kruntimes.Base.{
  ℕ, String, string_eq, ◌==◌, Eq, ◌≡◌, ◌↔◌, eq_iff, arith, Bool, true, false, ◌&&◌, ◌||◌, not, List,
  [], ◌∷◌, ◌++◌, Option, none, some, is_some, if◌then◌else◌, select,
}
use kruntimes.Base.Maps.{Map, lookup, insert, delete}
use kruntimes.Api.Quantity.{QuantityOps, ResourceList}
use kruntimes.Api.Pod.{Pod}
use kruntimes.Api.Run.{Run, is_pending_phase}
use kruntimes.RuntimePod.{amount}
use kruntimes.Scheduler.Types.{
  UsageByPod, AffinityTarget, SchedulingSnapshot, consumes_runtime_capacity,
}

pub record ReservationKey : Type 0 where
  pub namespace : String
  pub run_uid : String

abbrev pub key_eq : ReservationKey → ReservationKey → Bool
key_eq a b = a.namespace == b.namespace && a.run_uid == b.run_uid

pub key_eq_iff : (a b : ReservationKey) → (key_eq a b ≡ true) ↔ (a ≡ b)
key_eq_iff a b = (
  λ h. ground (arith, eq_iff a.namespace b.namespace, eq_iff a.run_uid b.run_uid),
  λ h. ground (arith, eq_iff a.namespace b.namespace, eq_iff a.run_uid b.run_uid),
)

instance abbrev pub reservation_key_eq : Eq ReservationKey
reservation_key_eq = record { equal = key_eq; equal_iff = key_eq_iff }

pub record AssumedReservation (Q : Type 0) : Type 0 where
  pub run_name : String
  pub pod_name : String
  pub request : ResourceList Q
  pub labels : Map String String

abbrev pub Reservations : Type 0 → Type 0
Reservations Q = Map ReservationKey (AssumedReservation Q)

module _ {Q : Type 0} where
  abbrev pub reservation_key_for : Run Q → ReservationKey
  reservation_key_for run = record { namespace = run.namespace; run_uid = run.uid }

  abbrev pub is_pending_run : Run Q → Bool
  is_pending_run run = is_pending_phase run.status.phase

  unfoldable pub is_active_affinity_target : Run Q → Bool
  unfolding consumes_runtime_capacity
  is_active_affinity_target run =
      if run.status.assigned_pod == "" then false else consumes_runtime_capacity run.status.phase

  -- The last Run of a key wins.
  unfoldable pub by_key : List (Run Q) → Map ReservationKey (Run Q) → Map ReservationKey (Run Q)
  by_key [] m = m
  by_key (run ∷ runs) m = by_key runs (insert (reservation_key_for run) run m)

  -- The Run still waits for the assignment that the reservation stands for.
  unfoldable pub still_assumed : Option (Run Q) → AssumedReservation Q → Bool
  still_assumed none reservation = false
  still_assumed (some run) reservation =
      is_pending_run run && run.status.assigned_pod == "" && run.name == reservation.run_name

  unfoldable pub sync_reservations : Map ReservationKey (Run Q) → Reservations Q → Reservations Q
  unfolding still_assumed
  sync_reservations runs [] = []
  sync_reservations runs ((key, reservation) ∷ rest) =
      let kept = sync_reservations runs rest in
      if still_assumed (lookup key runs) reservation then (key, reservation) ∷ kept else kept

  unfoldable pub sync_locked : List (Run Q) → Reservations Q → Reservations Q
  unfolding sync_reservations by_key
  sync_locked runs reservations = sync_reservations (by_key runs []) reservations

  unfoldable pub assume_locked : Run Q → String → ResourceList Q → Reservations Q → Reservations Q
  assume_locked run pod_name request reservations =
      insert (reservation_key_for run)
        (record {
          run_name = run.name;
          pod_name = pod_name;
          request = request;
          labels = run.labels;
        })
        reservations

  unfoldable pub observe : Run Q → Reservations Q → Reservations Q
  observe run reservations =
      if is_some (lookup (reservation_key_for run) reservations)
        && (not (run.status.assigned_pod == "") || not (is_pending_run run))
      then delete (reservation_key_for run) reservations
      else reservations

  unfoldable pub release : Run Q → Reservations Q → Reservations Q
  release run reservations = delete (reservation_key_for run) reservations

  unfoldable pub targets_of_runs : List (Run Q) → List AffinityTarget
  unfolding is_active_affinity_target
  targets_of_runs [] = []
  targets_of_runs (run ∷ runs) =
      let rest = targets_of_runs runs in
      if is_active_affinity_target run
      then record { pod_name = run.status.assigned_pod; labels = run.labels } ∷ rest
      else rest

  unfoldable pub targets_of_reservations : Reservations Q → List AffinityTarget
  targets_of_reservations [] = []
  targets_of_reservations ((_, r) ∷ rest) =
      record { pod_name = r.pod_name; labels = r.labels } ∷ targets_of_reservations rest

  abbrev pub or_empty : Option (ResourceList Q) → ResourceList Q
  or_empty none = []
  or_empty (some r) = r

  abbrev pub resources_at : String → UsageByPod Q → ResourceList Q
  resources_at pod_name usage = or_empty (lookup pod_name usage)

module _ {Q : Type 0} (k : QuantityOps Q) where
  -- The loop of addUsage over one request.
  unfoldable pub add_resources : ResourceList Q → ResourceList Q → ResourceList Q
  add_resources resources [] = resources
  add_resources resources ((name, quantity) ∷ request) =
      add_resources (insert name (k.add (amount k name resources) quantity) resources) request

  unfoldable pub add_usage : UsageByPod Q → String → ResourceList Q → UsageByPod Q
  unfolding add_resources
  add_usage usage pod_name request =
      insert pod_name (add_resources (resources_at pod_name usage) request) usage

  unfoldable pub add_reservations : UsageByPod Q → Reservations Q → UsageByPod Q
  unfolding add_usage
  add_reservations usage [] = usage
  add_reservations usage ((_, r) ∷ rest) =
      add_reservations (add_usage usage r.pod_name r.request) rest

  unfoldable pub usage_locked : Reservations Q → UsageByPod Q
  unfolding add_reservations
  usage_locked reservations = add_reservations [] reservations

  unfoldable pub merge_usage : UsageByPod Q → UsageByPod Q → UsageByPod Q
  unfolding add_usage
  merge_usage first [] = first
  merge_usage first ((pod_name, resources) ∷ second) =
      merge_usage (add_usage first pod_name resources) second

  -- Capacity accounting and affinity targets from one observation of the cache.
  unfoldable pub snapshot :
      UsageByPod Q
      → List (Run Q)
      → Reservations Q
      → Reservations Q × UsageByPod Q × List AffinityTarget
  unfolding sync_locked targets_of_runs targets_of_reservations usage_locked merge_usage
  snapshot actual runs reservations =
      let synced = sync_locked runs reservations in
      (
        synced,
        merge_usage actual (usage_locked synced),
        targets_of_runs runs ++ targets_of_reservations synced,
      )

  unfoldable pub reserve :
      SchedulingSnapshot Q → Pod → (ResourceList Q → Bool) → Reservations Q → Reservations Q × Bool
  unfolding sync_locked usage_locked merge_usage assume_locked
  reserve s pod available reservations =
      let synced = sync_locked s.runs reservations in
      let usage = merge_usage s.actual_usage_by_pod (usage_locked synced) in
      if available (resources_at pod.name usage)
      then (assume_locked s.run pod.name s.request synced, true)
      else (synced, false)
