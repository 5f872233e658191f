-- ===== src/Controller/StaleReaper/Health.antt =====
-- What the reaper acts on.
use kruntimes.Base.{
  ℕ, string_eq, ◌==◌, ◌≡◌, ◌≢◌, refl, arith, eq_iff, true, false, ◌&&◌, ◌||◌, not, inl, inr, ◌⊎◌,
  Bool-cases, List, [], ◌∷◌,
}
use kruntimes.Api.Pod.{Pod, PodCondition}
use kruntimes.Api.Run.{Run}
use kruntimes.RuntimePod.{fresh_runtimed_ready}
use kruntimes.Scheduler.Filters.{is_pod_schedulable, ready_condition}
use kruntimes.Scheduler.Environment.{Answer, found, not_found, unavailable}
use kruntimes.Controller.StaleReaper.{
  Reaper, ReaperWorld, ReaperOutcome, ready_state, stale_pod_state, with_pod, with_run, reap,
  is_stale_monitored_run_phase,
}

module _ (r : Reaper) where
  ready_state-healthy :
      (pod : Pod) (now : ℕ) (conditions : List PodCondition)
      → ready_condition conditions ≡ true
      → fresh_runtimed_ready pod now r.staleness_threshold ≡ true
      → (ready_state r pod now conditions).0 ≡ false
  unfolding ready_state ready_condition
  ready_state-healthy pod now [] h fresh = refl
  ready_state-healthy pod now (c ∷ cs) h fresh = ground (arith, ready_state-healthy pod now cs)

  -- The scheduler and the reaper agree: a Pod that counts as schedulable and has a heartbeat fresh
  -- within the reaper's threshold is never stale to the reaper.
  pub stale_pod_state-healthy :
      (pod : Pod) (now : ℕ)
      → is_pod_schedulable pod ≡ true
      → fresh_runtimed_ready pod now r.staleness_threshold ≡ true
      → (stale_pod_state r pod now).0 ≡ false
  unfolding stale_pod_state is_pod_schedulable
  stale_pod_state-healthy pod now h fresh =
      ground (arith, ready_state-healthy pod now pod.conditions)

  module _ {Q : Type 0} (world : ReaperWorld Q) where
    -- The assigned Pod is gone, another Pod of that name, or stale.
    abbrev pub IsLost : Run Q → Type 0
    IsLost run =
        (world.pod ≡ not_found)
        ⊎ ((pod : Pod) × (world.pod ≡ found pod)
            × ((run.status.assigned_pod_uid ≢ "") × (pod.uid ≢ run.status.assigned_pod_uid)
                ⊎ ((stale_pod_state r pod world.now).0 ≡ true)))

    -- The reaper writes only on a monitored phase with a lost Pod.
    pub record IsJustified (run : Run Q) : Type 0 where
      pub is_monitored : is_stale_monitored_run_phase run.status.phase ≡ true
      pub is_assigned : run.status.assigned_pod ≢ ""
      pub is_lost : IsLost run

    IsQuiet : ReaperOutcome Q → Type 0
    IsQuiet o = (o.object_writes ≡ []) × (o.status_writes ≡ [])

    with_pod_lem :
        (run : Run Q) (answer : Answer Pod)
        → world.pod ≡ answer
        → IsQuiet (with_pod r world run answer) ⊎ IsLost run
    unfolding with_pod IsQuiet
    with_pod_lem run not_found e = inr (inl e)
    with_pod_lem run unavailable e = inl (refl, refl)
    with_pod_lem run (found pod) e =
        elim (Bool-cases (
          not (run.status.assigned_pod_uid == "")
          && not (pod.uid == run.status.assigned_pod_uid))) [
            | inl replaced ↦ inr (
                inr (
                  pod,
                  e,
                  inl (
                    ground (arith, eq_iff run.status.assigned_pod_uid ""),
                    ground (arith, eq_iff pod.uid run.status.assigned_pod_uid),
                  ),
                ))
            | inr same ↦ elim (Bool-cases ((stale_pod_state r pod world.now).0)) [
              | inl stale ↦ inr (inr (pod, e, inr stale))
              | inr healthy ↦ rw (same, healthy) (inl (refl, refl))
            ]
          ]

    -- For any answers of the API: the reaper writes nothing, or the Run that was read is in a
    -- monitored phase and assigned to a Pod that is gone, was replaced, or is stale.
    pub reap-IsJustified :
        (run : Run Q)
        → world.run ≡ found run
        → ((reap r world).object_writes ≡ []) × ((reap r world).status_writes ≡ [])
          ⊎ IsJustified run
    unfolding reap with_run IsQuiet
    reap-IsJustified run e =
        rw e
          (elim (Bool-cases (
            not (is_stale_monitored_run_phase run.status.phase) || run.status.assigned_pod == "")) [
              | inl ignored ↦ rw ignored (inl (refl, refl))
              | inr monitored ↦ rw monitored (elim (with_pod_lem run world.pod refl) [
                | inl quiet ↦ inl quiet
                | inr lost ↦ inr (record {
                  is_monitored = ground arith;
                  is_assigned = ground (arith, eq_iff run.status.assigned_pod "");
                  is_lost = lost;
                })
              ])
            ])
