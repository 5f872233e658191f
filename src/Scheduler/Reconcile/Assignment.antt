-- ===== src/Scheduler/Reconcile/Assignment.antt =====
-- Binding: what is written, and what the cache holds afterwards.
use mathlib.Core.Path.{subst}
use kruntimes.Base.{
  string_eq, ◌≡◌, ◌≢◌, refl, sym, true, ◌⊎◌, inl, inr, [], ◌∷◌, none, some, arith, Bool-cases,
}
use kruntimes.Base.Maps.{lookup, insert, lookup-insert_self, lookup-delete_self}
use kruntimes.Base.Results.{ok}
use kruntimes.Api.Pod.{Pod}
use kruntimes.Api.Run.{Run}
use kruntimes.Scheduler.Types.{SchedulingSnapshot}
use kruntimes.Scheduler.Cache.{
  reservation_key_eq, Reservations, AssumedReservation, reservation_key_for, release, assume_locked,
  resources_at, sync_locked,
}
use kruntimes.Scheduler.Cache.Admission.{effective, reserve-granted}
use kruntimes.Scheduler.Filters.{is_runtime_pod_available}
use kruntimes.Scheduler.Framework.{bind}
use kruntimes.Scheduler.Environment.{
  Scheduler, World, UpdateAnswer, updated, conflict, update_failed, Outcome, done, requeue,
}
use kruntimes.Scheduler.Reconcile.{apply_plan, assign_to, bind_run_to, reserve_pod}

module _ {Q : Type 0} where
  -- A released Run has no reservation.
  lookup-release :
      (run : Run Q) (cache : Reservations Q)
      → lookup (reservation_key_for run) (release run cache) ≡ none
  unfolding release
  lookup-release run cache = lookup-delete_self (reservation_key_for run) cache

  abbrev pub reservation_of : Run Q → SchedulingSnapshot Q → Pod → AssumedReservation Q
  reservation_of run snap pod = record {
    run_name = run.name;
    pod_name = pod.name;
    request = snap.request;
    labels = run.labels;
  }

module _ {Q : Type 0} (s : Scheduler Q) (world : World Q) where
  -- The whole of a bind: its conflicts, its errors and its success.
  pub record BindOutcome (run : Run Q) (snap : SchedulingSnapshot Q) (pod : Pod)
      (cache : Reservations Q) (o : Outcome Q) : Type 0 where
    pub admitted :
        is_runtime_pod_available s.quantities s.stale_after pod snap.now
          (resources_at pod.name
            (effective s.quantities snap.actual_usage_by_pod (sync_locked snap.runs cache)))
          snap.request
        ≡ true
    pub written : o.writes ≡ assign_to s world run pod ∷ []
    -- The reservation stays exactly if the write was accepted.
    pub settled :
        (world.status_update ≡ updated)
          × (o.reply ≡ done)
          × (lookup (reservation_key_for run) o.cache ≡ some (reservation_of run snap pod))
        ⊎ (world.status_update ≢ updated) × (lookup (reservation_key_for run) o.cache ≡ none)

  bind_run_to_lem :
      (run : Run Q) (snap : SchedulingSnapshot Q) (pod : Pod) (answer : UpdateAnswer)
      (cache : Reservations Q)
      → snap.run ≡ run
      → let o =
          bind_run_to s world run pod answer (assume_locked snap.run pod.name snap.request cache) in
        (o.writes ≡ assign_to s world run pod ∷ [])
        × ((answer ≡ updated)
              × (o.reply ≡ done)
              × (lookup (reservation_key_for run) o.cache ≡ some (reservation_of run snap pod))
            ⊎ (answer ≢ updated) × (lookup (reservation_key_for run) o.cache ≡ none))
  unfolding bind_run_to assume_locked
  bind_run_to_lem run snap pod updated cache e = (
    refl,
    inl (
      refl,
      refl,
      subst
          (λ r.
            lookup (reservation_key_for run)
              (insert (reservation_key_for r) (reservation_of r snap pod) cache)
            ≡ some (reservation_of run snap pod))
          (sym e)
          (lookup-insert_self (reservation_key_for run) (reservation_of run snap pod) cache),
    ),
  )
  bind_run_to_lem run snap pod conflict cache e =
      (refl, inr ((λ h. absurd (ground arith)), lookup-release run _))
  bind_run_to_lem run snap pod update_failed cache e =
      (refl, inr ((λ h. absurd (ground arith)), lookup-release run _))

  -- For any snapshot of the Run and any cache, where the cycle plans to bind to a Pod: either the
  -- reservation is refused, and nothing is written and the Run is queued again; or the Pod was
  -- still available beside the other reservations, the assignment to it is the one status write,
  -- and the cache holds the reservation if the write was accepted and none of the Run otherwise.
  pub apply_plan-bind :
      (run : Run Q) (snap : SchedulingSnapshot Q) (pod : Pod) (cache : Reservations Q)
      → snap.run ≡ run
      → let o = apply_plan s world run snap cache (ok (bind pod)) in
        (o.writes ≡ []) × (o.reply ≡ requeue) ⊎ BindOutcome run snap pod cache o
  unfolding apply_plan
  apply_plan-bind run snap pod cache e =
      elim (Bool-cases ((reserve_pod s world snap pod cache).1)) [
        | inl granted ↦
            let (free, assumed) =
              reserve-granted s.quantities snap pod
                (λ usage.
                  is_runtime_pod_available s.quantities s.stale_after pod snap.now usage
                    snap.request)
                cache (unfold reserve_pod in granted) in
            let (written, settled) =
              bind_run_to_lem run snap pod world.status_update (sync_locked snap.runs cache) e in
            rw (granted, assumed)
              (inr (record { admitted = free; written = written; settled = settled }))
        | inr refused ↦ rw refused (inl (refl, refl))
      ]
