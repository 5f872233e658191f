-- ===== src/Scheduler/Reconcile/Guards.antt =====
-- What Reconcile never does: touch a Run that is past pending, or assign without admission.
use kruntimes.Base.{
  String, string_eq, ◌==◌, ◌≡◌, ◌≢◌, refl, true, false, ◌⊎◌, inl, inr, not, ◌&&◌, ◌||◌, [], ◌∷◌,
  arith, All, Bool-cases,
}
use kruntimes.Base.Results.{Result, ok, err}
use kruntimes.Base.Sort.{Member}
use kruntimes.Api.Pod.{Pod}
use kruntimes.Api.Run.{Run, scheduled, is_pending_phase, mode_name}
use kruntimes.Scheduler.Types.{SchedulingSnapshot}
use kruntimes.Scheduler.Cache.{Reservations, observe, resources_at, sync_locked}
use kruntimes.Scheduler.Cache.Admission.{effective}
use kruntimes.Scheduler.Filters.{is_runtime_pod_available}
use kruntimes.Scheduler.Framework.{PlanError, SchedulingPlan, wait, bind, score_plugin_error}
use kruntimes.Scheduler.Environment.{
  Scheduler, World, found, UpdateAnswer, updated, conflict, update_failed, Reply, ReconcileError,
  done,
}
use kruntimes.Scheduler.Reconcile.{
  stop, write, apply_plan, assign_to, waiting, is_exactly_pending, consider, after_mode,
  reconcile_found, reconcile_answer, reconcile, with_mode,
}
use kruntimes.Scheduler.Reconcile.Assignment.{apply_plan-bind}

module _ {Q : Type 0} (s : Scheduler Q) (world : World Q) where
  with_mode_lem :
      (run : Run Q)
      → is_pending_phase run.status.phase ≡ false
      → with_mode s world run
        ≡ record run { status = record (run.status) { mode = mode_name run.spec.mode } }
  unfolding with_mode
  with_mode_lem run h = ground arith

  consider_past :
      (run : Run Q) (cache : Reservations Q)
      → is_pending_phase run.status.phase ≡ false
      → consider s world run cache ≡ stop cache done
  unfolding consider
  consider_past run cache h = rw h refl

  after_mode_past :
      (run : Run Q) (answer : UpdateAnswer) (cache : Reservations Q)
      → is_pending_phase run.status.phase ≡ false
      → ((after_mode s world run answer cache).cache ≡ cache)
        × ((after_mode s world run answer cache).writes ≡ run ∷ [])
  unfolding after_mode
  after_mode_past run updated cache h = rw (consider_past run cache h) (refl, refl)
  after_mode_past run conflict cache h = (refl, refl)
  after_mode_past run update_failed cache h = (refl, refl)

  abbrev shown : Run Q → Run Q
  shown run = record run { status = record (run.status) { mode = mode_name run.spec.mode } }

  found_past :
      (run : Run Q) (cache : Reservations Q)
      → is_pending_phase run.status.phase ≡ false
      → let o = reconcile_found s world run cache in
        (o.cache ≡ cache) × ((o.writes ≡ []) ⊎ (o.writes ≡ shown run ∷ []))
  unfolding reconcile_found
  found_past run cache h =
      let name = mode_name run.spec.mode in
      elim (Bool-cases (not (name == "") && not (run.status.mode == name))) [
        | inl stale ↦
            let (kept, wrote) = after_mode_past (shown run) world.mode_update cache h in
            rw (stale, with_mode_lem run h) (kept, inr wrote)
        | inr current ↦ rw (current, consider_past run cache h) (refl, inl refl)
      ]

  -- For any answers of the API: a Run that is past pending is written at most once, and that write
  -- changes nothing but the displayed mode.
  pub reconcile_past_pending :
      (run : Run Q) (cache : Reservations Q)
      → world.run ≡ found run
      → is_pending_phase run.status.phase ≡ false
      → let o = reconcile s world cache in
        (o.cache ≡ observe run cache)
        × ((o.writes ≡ [])
            ⊎ (o.writes
                ≡ record run { status = record (run.status) { mode = mode_name run.spec.mode } }
                  ∷ []))
  unfolding reconcile reconcile_answer
  reconcile_past_pending run cache e h = rw e (found_past run (observe run cache) h)

  -- The Pod of an assignment is one of the snapshot and was available beside the usage and the reservations of its cycle.
  pub record WasAdmitted (snap : SchedulingSnapshot Q) (cache : Reservations Q) (w : Run Q)
      : Type 0 where
    pub pod : Pod
    pub listed : Member pod snap.pods
    pub to_pod : w.status.assigned_pod ≡ pod.name
    pub to_uid : w.status.assigned_pod_uid ≡ pod.uid
    pub admitted :
        is_runtime_pod_available s.quantities s.stale_after pod snap.now
          (resources_at pod.name
            (effective s.quantities snap.actual_usage_by_pod (sync_locked snap.runs cache)))
          snap.request
        ≡ true

  -- A write that schedules is an admitted assignment.
  abbrev pub IsSound : SchedulingSnapshot Q → Reservations Q → Run Q → Type 0
  IsSound snap cache w = w.status.phase ≡ scheduled → WasAdmitted snap cache w

  pub write-All :
      (P : Run Q → Type 0) (cache : Reservations Q) (w : Run Q) (answer : UpdateAnswer)
      (a b : Reply) (error : ReconcileError)
      → P w
      → All P (write cache w answer a b error).writes
  write-All P cache w updated a b error p = (p, tt)
  write-All P cache w conflict a b error p = (p, tt)
  write-All P cache w update_failed a b error p = (p, tt)

  -- A write that does not schedule needs no admission.
  pub write-unscheduled :
      (P : Run Q → Type 0) (cache : Reservations Q) (w : Run Q) (answer : UpdateAnswer)
      (a b : Reply) (error : ReconcileError)
      → w.status.phase ≢ scheduled
      → All (λ r. r.status.phase ≡ scheduled → P r) (write cache w answer a b error).writes
  write-unscheduled P cache w answer a b error ne =
      write-All (λ r. r.status.phase ≡ scheduled → P r) cache w answer a b error
        (λ h. absurd (ne h))

  waiting-unscheduled :
      (P : Run Q → Type 0) (run : Run Q) (message : String) (cache : Reservations Q)
      → All (λ r. r.status.phase ≡ scheduled → P r) (waiting s world run message cache).writes
  unfolding waiting
  waiting-unscheduled P run message cache =
      elim (Bool-cases
        (not (is_exactly_pending run.status.phase) || not (run.status.message == message))) [
          | inl changed ↦
              rw changed (write-unscheduled P cache _ world.status_update _ _ _ (λ h. cc))
          | inr same ↦ rw same tt
        ]

  pub apply_plan-IsSound :
      (run : Run Q) (snap : SchedulingSnapshot Q) (cache : Reservations Q)
      (plan : Result PlanError SchedulingPlan)
      → snap.run ≡ run
      → ((pod : Pod) → plan ≡ ok (bind pod) → Member pod snap.pods)
      → All (IsSound snap cache) (apply_plan s world run snap cache plan).writes
  unfolding apply_plan
  apply_plan-IsSound run snap cache (err (score_plugin_error e)) h inside = tt
  apply_plan-IsSound run snap cache (err e) h inside =
      write-unscheduled (WasAdmitted snap cache) cache _ world.status_update _ _ _ (λ x. cc)
  apply_plan-IsSound run snap cache (ok (wait message)) h inside =
      waiting-unscheduled (WasAdmitted snap cache) run message cache
  apply_plan-IsSound run snap cache (ok (bind pod)) h inside =
      elim (apply_plan-bind s world run snap pod cache h) [
        | inl (nothing, _) ↦ rw nothing tt
        | inr b ↦ rw b.written (
          (λ _. record {
            pod = pod;
            listed = inside pod refl;
            to_pod = unfold assign_to in refl;
            to_uid = unfold assign_to in refl;
            admitted = b.admitted;
          }),
          tt,
        )
      ]
