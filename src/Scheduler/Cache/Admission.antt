-- ===== src/Scheduler/Cache/Admission.antt =====
-- Admission by the reservation cache: a reservation is made only where it fits beside the actual
-- usage and the other reservations.
use mathlib.Core.Path.{subst}
use mathlib.Core.Bool.{false≢true}
use kruntimes.Base.{
  String, string_eq, ◌==◌, ◌≡◌, refl, sym, eq_iff, arith, Bool, true, false, [], ◌∷◌, none, some,
  Bool-cases, inl, inr, ap,
}
use kruntimes.Base.Int.{ℤ, pos, ◌+ℤ◌, int_laws, ◌≤ℤ◌, ◌≈ℤ◌, ≈_of_eq}
use kruntimes.Base.Maps.{Map, lookup, insert, Unique, All-lookup}
use kruntimes.Api.Quantity.{QuantityOps, QuantityLaws, ResourceList}
use kruntimes.Api.Pod.{Pod}
use kruntimes.Api.Run.{Run}
use kruntimes.RuntimePod.{fits}
use kruntimes.RuntimePod.Fitting.{RoomFor, fits_iff}
use kruntimes.Scheduler.Types.{UsageByPod, SchedulingSnapshot}
use kruntimes.Scheduler.Cache.{
  ReservationKey, reservation_key_eq, AssumedReservation, Reservations, reservation_key_for,
  sync_reservations, by_key, sync_locked, still_assumed, usage_locked, merge_usage, resources_at,
  assume_locked, reserve,
}
use kruntimes.Scheduler.Cache.Totals.{when, total, held, read_at, effective_usage}

module _ {Q : Type 0} {k : QuantityOps Q} (laws : QuantityLaws k) where
  total_missing : (n : String) (m : ResourceList Q) → lookup n m ≡ none → total k n m ≈ℤ pos 0
  unfolding lookup
  total_missing n [] h = omega arith
  total_missing n ((j, w) ∷ m) h = elim (Bool-cases (j == n)) [
    | inl same ↦ absurd (ground arith)
    | inr other ↦ rw other (omega (int_laws, total_missing n m (rw other at h)))
  ]

  total_lookup :
      (n : String) (q : Q) (m : ResourceList Q)
      → Unique m
      → lookup n m ≡ some q
      → total k n m ≈ℤ k.value q
  unfolding lookup
  total_lookup n q [] u h = absurd (ground arith)
  total_lookup n q ((j, w) ∷ m) u h = elim (Bool-cases (j == n)) [
    | inl same ↦
        let here : some w ≡ some q = rw same at h in
        let value : w ≡ q = cc in
        rw (same, value) (omega (int_laws, total_missing n m (rw ((eq_iff j n).0 same) at (u.0))))
    | inr other ↦ rw other (omega (int_laws, total_lookup n q m u.1 (rw other at h)))
  ]

module _ {Q : Type 0} (k : QuantityOps Q) where
  -- No request of a reservation is negative.
  abbrev pub IsNonNegative : Reservations Q → Type 0
  IsNonNegative [] = Unit
  IsNonNegative ((_, r) ∷ rest) = ((n : String) → pos 0 ≤ℤ total k n r.request) × IsNonNegative rest

  sync_reservations-IsNonNegative :
      (runs : Map ReservationKey (Run Q)) (rs : Reservations Q)
      → IsNonNegative rs
      → IsNonNegative (sync_reservations runs rs)
  unfolding sync_reservations
  sync_reservations-IsNonNegative runs [] h = tt
  sync_reservations-IsNonNegative runs ((key, r) ∷ rs) h =
      elim (Bool-cases (still_assumed (lookup key runs) r)) [
        | inl kept ↦ rw kept (h.0, sync_reservations-IsNonNegative runs rs h.1)
        | inr dropped ↦ rw dropped (sync_reservations-IsNonNegative runs rs h.1)
      ]

  held-nonneg : (pod n : String) (rs : Reservations Q) → IsNonNegative rs → pos 0 ≤ℤ held k pod n rs
  held-nonneg pod n [] h = omega arith
  held-nonneg pod n ((_, r) ∷ rs) h = elim (Bool-cases (r.pod_name == pod)) [
    | inl same ↦ rw same (omega (int_laws, h.0 n, held-nonneg pod n rs h.1))
    | inr other ↦ rw other (omega (int_laws, held-nonneg pod n rs h.1))
  ]

  when-nonneg : (b : Bool) (z : ℤ) → pos 0 ≤ℤ z → pos 0 ≤ℤ when b z
  when-nonneg true z h = h
  when-nonneg false z h = omega arith

  -- A new reservation adds at most its own request: one of the same key makes room.
  held-insert :
      (pod n : String) (key : ReservationKey) (new : AssumedReservation Q) (rs : Reservations Q)
      → IsNonNegative rs
      → held k pod n (insert key new rs)
        ≤ℤ held k pod n rs +ℤ when (new.pod_name == pod) (total k n new.request)
  unfolding insert
  held-insert pod n key new [] h = omega int_laws
  held-insert pod n key new ((j, r) ∷ rs) h = elim (Bool-cases (j == key)) [
    | inl same ↦
        rw same (omega (int_laws, when-nonneg (r.pod_name == pod) (total k n r.request) (h.0 n)))
    | inr other ↦ rw other (omega (int_laws, held-insert pod n key new rs h.1))
  ]

  -- The effective usage, as a scheduling cycle accounts it.
  abbrev pub effective : UsageByPod Q → Reservations Q → UsageByPod Q
  effective actual rs = merge_usage k actual (usage_locked k rs)

module _ {Q : Type 0} {k : QuantityOps Q} (laws : QuantityLaws k) where
  -- The Pod's capacity of a resource covers that usage of it.
  pub record IsCovered (capacity : ResourceList Q) (name : String) (usage : ℤ) : Type 0 where
    pub available : Q
    pub advertised : lookup name capacity ≡ some available
    pub within : usage ≤ℤ k.value available

  assume_locked-IsCovered :
      (s : SchedulingSnapshot Q) (pod : Pod) (capacity : ResourceList Q) (rs : Reservations Q)
      → IsNonNegative k rs
      → Unique s.request
      → fits k capacity (resources_at pod.name (effective k s.actual_usage_by_pod rs)) s.request
        ≡ true
      → (name : String) (requested : Q) → lookup name s.request ≡ some requested
      → pos 1 ≤ℤ k.value requested
      → IsCovered capacity name (
          read_at k pod.name name
            (effective k s.actual_usage_by_pod (assume_locked s.run pod.name s.request rs)))
  unfolding assume_locked
  assume_locked-IsCovered s pod capacity rs nonneg unique fitting name requested found positive =
      let usage = resources_at pod.name (effective k s.actual_usage_by_pod rs) in
      let room =
        All-lookup (RoomFor laws capacity usage) s.request name requested
          ((fits_iff laws capacity usage s.request).0 fitting) found positive in
      let new : AssumedReservation Q = record {
        run_name = s.run.name;
        pod_name = pod.name;
        request = s.request;
        labels = s.run.labels;
      } in
      record {
        available = room.available;
        advertised = room.advertised;
        within = omega (
          int_laws,
          room.within,
          effective_usage laws pod.name name s.actual_usage_by_pod rs,
          effective_usage laws pod.name name s.actual_usage_by_pod
              (insert (reservation_key_for s.run) new rs),
          held-insert k pod.name name (reservation_key_for s.run) new rs nonneg,
          ≈_of_eq (
              ap (λ (b : Bool). when b (total k name s.request))
                ((eq_iff pod.name pod.name).1 refl)),
          total_lookup laws name requested s.request unique found,
        );
      }

module _ {Q : Type 0} (k : QuantityOps Q) where
  -- reserve succeeds exactly on the test, and then assumes the placement in the synchronised cache.
  pub reserve-granted :
      (s : SchedulingSnapshot Q) (pod : Pod) (available : ResourceList Q → Bool)
      (rs : Reservations Q)
      → (reserve k s pod available rs).1 ≡ true
      → (available
            (resources_at pod.name (effective k s.actual_usage_by_pod (sync_locked s.runs rs)))
          ≡ true)
        × ((reserve k s pod available rs).0
            ≡ assume_locked s.run pod.name s.request (sync_locked s.runs rs))
  unfolding reserve
  reserve-granted s pod available rs granted =
      elim (Bool-cases (
        available
          (resources_at pod.name (effective k s.actual_usage_by_pod (sync_locked s.runs rs))))) [
            | inl free ↦ (free, rw free refl)
            | inr full ↦ absurd (false≢true (rw full at granted))
          ]

module _ {Q : Type 0} {k : QuantityOps Q} (laws : QuantityLaws k) where
  -- A reservation is granted only where the request fits: for a cache with no negative requests, if
  -- the test that reserve is given implies that the snapshot's request fits the capacity and
  -- reserve succeeds, then for each resource with a positive request the capacity advertises the
  -- resource and covers the effective usage of the Pod with the new reservation counted.
  pub reserve_no_overcommit :
      (s : SchedulingSnapshot Q) (pod : Pod) (available : ResourceList Q → Bool)
      (capacity : ResourceList Q) (rs : Reservations Q)
      → IsNonNegative k rs
      → Unique s.request
      → ((usage : ResourceList Q) → available usage ≡ true → fits k capacity usage s.request ≡ true)
      → (reserve k s pod available rs).1 ≡ true
      → (name : String) (requested : Q) → lookup name s.request ≡ some requested
      → pos 1 ≤ℤ k.value requested
      → IsCovered laws capacity name (
          read_at k pod.name name
            (effective k s.actual_usage_by_pod (reserve k s pod available rs).0))
  unfolding sync_locked
  reserve_no_overcommit s pod available capacity rs nonneg unique test granted name requested found
        positive =
      let synced = sync_locked s.runs rs in
      let usage = resources_at pod.name (effective k s.actual_usage_by_pod synced) in
      let (free, assumed) = reserve-granted k s pod available rs granted in
      subst
        (λ after.
          IsCovered laws capacity name
            (read_at k pod.name name (effective k s.actual_usage_by_pod after)))
        (sym assumed)
        (assume_locked-IsCovered laws s pod capacity synced
          (sync_reservations-IsNonNegative k (by_key s.runs []) rs nonneg) unique (test usage free)
          name requested found positive)
