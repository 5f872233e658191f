-- ===== src/Scheduler/Reconcile/Soundness.antt =====
-- Every assignment that Reconcile writes was admitted, and its Run was waiting for one.
use mathlib.Core.Path.{subst}
use kruntimes.Base.{
  sym, ◌∙◌, ap, string_eq, ◌==◌, ◌≡◌, ◌≢◌, refl, true, false, inl, inr, not, ◌&&◌, List, [], Option,
  none, some, arith, All, All-map, Bool-cases,
}
use kruntimes.Base.Int.{pos, ltb_ℤ}
use kruntimes.Base.Sort.{Member, Member-All}
use kruntimes.Base.Results.{Result, ok, err}
use kruntimes.Api.Quantity.{ResourceList}
use kruntimes.Api.Pod.{Pod}
use kruntimes.Api.Run.{
  Run, scheduled, is_pending_phase, mode_name, has_immediate_termination, RunWorkspaceReference,
}
use kruntimes.Api.Resources.{InvalidRequest, resource_requests}
use kruntimes.Api.Workspace.{PersistentWorkspace}
use kruntimes.RunStatus.{set_terminal}
use kruntimes.Scheduler.Types.{SchedulingSnapshot}
use kruntimes.Scheduler.Cache.{snapshot, sync_locked, Reservations, observe}
use kruntimes.Scheduler.Framework.{PlanError, SchedulingPlan, bind}
use kruntimes.Scheduler.Framework.Plan.{plan_scheduling_cycle-Member}
use kruntimes.Scheduler.Usage.{assigned_run_usage, pending_retry_delay}
use kruntimes.Scheduler.Environment.{
  Scheduler, World, Outcome, Answer, found, not_found, unavailable, UpdateAnswer, updated, conflict,
  update_failed,
}
use kruntimes.Scheduler.Reconcile.{
  plan_for, apply_plan, run_cycle, with_runs_listed, with_workspace, with_pods, schedule, consider,
  after_mode, reconcile_found, reconcile_answer, reconcile, with_mode,
}
use kruntimes.Scheduler.Reconcile.Guards.{
  IsSound, WasAdmitted, write-unscheduled, write-All, reconcile_past_pending, apply_plan-IsSound,
}

module _ {Q : Type 0} (s : Scheduler Q) (world : World Q) where
  -- The assignment of a cycle: the snapshot is of the listed Runs, their usage, the request of the
  -- Run and the time of the cycle.
  pub record IsCycle (run : Run Q) (cache : Reservations Q) (w : Run Q) : Type 0 where
    pub snap : SchedulingSnapshot Q
    pub listed : world.runs ≡ found snap.runs
    pub of_usage : snap.actual_usage_by_pod ≡ assigned_run_usage s.quantities snap.runs []
    pub of_request : resource_requests s.quantities run.spec ≡ ok snap.request
    pub of_now : snap.now ≡ world.now
    pub pods_listed : world.pods ≡ found snap.pods
    pub admission : WasAdmitted s world snap (sync_locked snap.runs cache) w

  -- A write that schedules is the assignment of a cycle.
  abbrev IsBacked : Run Q → Reservations Q → Run Q → Type 0
  IsBacked run cache w = w.status.phase ≡ scheduled → IsCycle run cache w

  module _ (run : Run Q) (request : ResourceList Q)
      (requested : resource_requests s.quantities run.spec ≡ ok request)
      (cache : Reservations Q) where
    apply_plan-IsBacked :
        (snap : SchedulingSnapshot Q) (plan : Result PlanError SchedulingPlan)
        → snap.run ≡ run
        → snap.request ≡ request
        → snap.actual_usage_by_pod ≡ assigned_run_usage s.quantities snap.runs []
        → snap.now ≡ world.now
        → world.pods ≡ found snap.pods
        → world.runs ≡ found snap.runs
        → ((pod : Pod) → plan ≡ ok (bind pod) → Member pod snap.pods)
        → All
            (IsBacked run cache)
            (apply_plan s world run snap (sync_locked snap.runs cache) plan).writes
    apply_plan-IsBacked snap plan of_run of_request of_usage of_now pods_listed listed inside =
        All-map (IsSound s world snap (sync_locked snap.runs cache)) (IsBacked run cache)
          (λ _ sound x. record {
            snap = snap;
            listed = listed;
            of_usage = of_usage;
            of_request = requested ∙ ap ok (sym of_request);
            of_now = of_now;
            pods_listed = pods_listed;
            admission = sound x;
          })
          _ (apply_plan-IsSound s world run snap _ plan of_run inside)

    plan_for-listed :
        (snap : SchedulingSnapshot Q) (pod : Pod)
        → plan_for s world snap ≡ ok (bind pod)
        → Member pod snap.pods
    unfolding plan_for
    plan_for-listed snap pod h = plan_scheduling_cycle-Member s.parse snap _ _ pod h

    run_cycle-IsBacked :
        (pods : List Pod) (w : Option PersistentWorkspace) (runs : List (Run Q))
        → world.pods ≡ found pods
        → world.runs ≡ found runs
        → All (IsBacked run cache) (run_cycle s world run request pods w runs cache).writes
    unfolding run_cycle snapshot
    run_cycle-IsBacked pods w runs pods_listed listed =
        apply_plan-IsBacked _ _ refl refl refl refl pods_listed listed (plan_for-listed _)

    with_runs_listed-IsBacked :
        (pods : List Pod) (w : Option PersistentWorkspace) (runs : Answer (List (Run Q)))
        → world.pods ≡ found pods
        → world.runs ≡ runs
        → All (IsBacked run cache) (with_runs_listed s world run request pods w runs cache).writes
    unfolding with_runs_listed
    with_runs_listed-IsBacked pods w (found runs) pods_listed listed =
        run_cycle-IsBacked pods w runs pods_listed listed
    with_runs_listed-IsBacked pods w not_found pods_listed listed = tt
    with_runs_listed-IsBacked pods w unavailable pods_listed listed = tt

    with_workspace-IsBacked :
        (pods : List Pod) (w : Answer PersistentWorkspace)
        → world.pods ≡ found pods
        → All (IsBacked run cache) (with_workspace s world run request pods w cache).writes
    unfolding with_workspace
    with_workspace-IsBacked pods (found w) pods_listed =
        with_runs_listed-IsBacked pods (some w) world.runs pods_listed refl
    with_workspace-IsBacked pods not_found pods_listed =
        with_runs_listed-IsBacked pods none world.runs pods_listed refl
    with_workspace-IsBacked pods unavailable pods_listed = tt

    by_reference-IsBacked :
        (pods : List Pod) (r : Option RunWorkspaceReference)
        → world.pods ≡ found pods
        → All
            (IsBacked run cache)
            (elim r as (λ _. Outcome Q) [
              | none ↦ with_runs_listed s world run request pods none world.runs cache
              | some _ ↦ with_workspace s world run request pods world.workspace cache
            ]).writes
    by_reference-IsBacked pods none pods_listed =
        with_runs_listed-IsBacked pods none world.runs pods_listed refl
    by_reference-IsBacked pods (some r) pods_listed =
        with_workspace-IsBacked pods world.workspace pods_listed

    with_pods-IsBacked :
        (pods : Answer (List Pod))
        → world.pods ≡ pods
        → All (IsBacked run cache) (with_pods s world run request pods cache).writes
    unfolding with_pods
    with_pods-IsBacked (found pods) pods_listed =
        by_reference-IsBacked pods run.spec.workspace pods_listed
    with_pods-IsBacked not_found pods_listed = tt
    with_pods-IsBacked unavailable pods_listed = tt

  schedule-IsBacked :
      (run : Run Q) (request : Result InvalidRequest (ResourceList Q)) (cache : Reservations Q)
      → resource_requests s.quantities run.spec ≡ request
      → All (IsBacked run cache) (schedule s world run request cache).writes
  unfolding schedule set_terminal
  schedule-IsBacked run (err e) cache requested =
      write-unscheduled s world (IsCycle run cache) cache _ world.status_update _ _ _ (λ x. cc)
  schedule-IsBacked run (ok request) cache requested =
      elim (Bool-cases (ltb_ℤ (pos 0) (pending_retry_delay s.meta s.out_of_range world.now run))) [
        | inl early ↦ rw early tt
        | inr due ↦ rw due (with_pods-IsBacked run request requested cache world.pods refl)
      ]

  -- The Run is one that the scheduler may assign.
  pub record IsEligible (run : Run Q) : Type 0 where
    pub is_waiting : is_pending_phase run.status.phase ≡ true
    pub has_runtime : (run.spec.runtime == "") ≡ false
    pub goes_on : has_immediate_termination run.spec ≡ false

  -- A write that schedules the Run.
  abbrev pub IsAssignment : Run Q → Reservations Q → Run Q → Type 0
  IsAssignment run cache w = w.status.phase ≡ scheduled → IsEligible run × IsCycle run cache w

  consider-IsAssignment :
      (run : Run Q) (cache : Reservations Q)
      → is_pending_phase run.status.phase ≡ true
      → All (IsAssignment run cache) (consider s world run cache).writes
  unfolding consider set_terminal
  consider-IsAssignment run cache h = elim (Bool-cases (run.spec.runtime == "")) [
    | inl nameless ↦ rw (h, nameless) tt
    | inr named ↦ elim (Bool-cases (has_immediate_termination run.spec)) [
      | inl ended ↦
          rw (h, named, ended)
            (write-All s world (IsAssignment run cache) cache _ world.status_update _ _ _ (λ x. cc))
      | inr goes_on ↦
          rw (h, named, goes_on)
            (All-map (IsBacked run cache) (IsAssignment run cache)
              (λ w sound x.
                (record { is_waiting = h; has_runtime = named; goes_on = goes_on }, sound x))
              _ (schedule-IsBacked run (resource_requests s.quantities run.spec) cache refl))
    ]
  ]

  with_mode-pending :
      (run : Run Q)
      → is_pending_phase run.status.phase ≡ true
      → (is_pending_phase (with_mode s world run).status.phase ≡ true)
        × ((with_mode s world run).status.phase ≢ scheduled)
  unfolding with_mode
  with_mode-pending run h = (ground arith, λ x. ground arith)

  with_mode-IsEligible :
      (run : Run Q)
      → is_pending_phase run.status.phase ≡ true
      → IsEligible (with_mode s world run)
      → IsEligible run
  unfolding with_mode
  with_mode-IsEligible run h e = record {
    is_waiting = h;
    has_runtime = e.has_runtime;
    goes_on = e.goes_on;
  }

  with_mode-IsCycle :
      (run : Run Q) (cache : Reservations Q) (w : Run Q)
      → IsCycle (with_mode s world run) cache w
      → IsCycle run cache w
  unfolding with_mode
  with_mode-IsCycle run cache w c = record {
    snap = c.snap;
    listed = c.listed;
    of_usage = c.of_usage;
    of_request = c.of_request;
    of_now = c.of_now;
    pods_listed = c.pods_listed;
    admission = c.admission;
  }

  with_mode-IsAssignment :
      (run : Run Q) (answer : UpdateAnswer) (cache : Reservations Q)
      → is_pending_phase run.status.phase ≡ true
      → All
          (IsAssignment run cache)
          (after_mode s world (with_mode s world run) answer cache).writes
  unfolding after_mode
  with_mode-IsAssignment run updated cache h =
      let (still, ne) = with_mode-pending run h in
      (
        (λ x. absurd (ne x)),
        All-map (IsAssignment (with_mode s world run) cache) (IsAssignment run cache)
            (λ w assigned x.
              let (eligible, admitted) = assigned x in
              (with_mode-IsEligible run h eligible, with_mode-IsCycle run cache w admitted))
            _ (consider-IsAssignment (with_mode s world run) cache still),
      )
  with_mode-IsAssignment run conflict cache h = ((λ x. absurd ((with_mode-pending run h).1 x)), tt)
  with_mode-IsAssignment run update_failed cache h =
      ((λ x. absurd ((with_mode-pending run h).1 x)), tt)

  found-IsAssignment :
      (run : Run Q) (cache : Reservations Q)
      → is_pending_phase run.status.phase ≡ true
      → All (IsAssignment run cache) (reconcile_found s world run cache).writes
  unfolding reconcile_found
  found-IsAssignment run cache h =
      let name = mode_name run.spec.mode in
      elim (Bool-cases (not (name == "") && not (run.status.mode == name))) [
        | inl stale ↦ rw stale (with_mode-IsAssignment run world.mode_update cache h)
        | inr current ↦ rw current (consider-IsAssignment run cache h)
      ]

  answer-IsAssignment :
      (run : Run Q) (answer : Answer (Run Q)) (cache : Reservations Q)
      → answer ≡ found run
      → is_pending_phase run.status.phase ≡ true
      → All (IsAssignment run (observe run cache)) (reconcile_answer s world answer cache).writes
  answer-IsAssignment run answer cache e waits =
      subst
        (λ a. All (IsAssignment run (observe run cache)) (reconcile_answer s world a cache).writes)
        (sym e) (unfold reconcile_answer in found-IsAssignment run (observe run cache) waits)

  reconcile-IsAssignment :
      (run : Run Q) (cache : Reservations Q)
      → world.run ≡ found run
      → run.status.phase ≢ scheduled
      → All (IsAssignment run (observe run cache)) (reconcile s world cache).writes
  reconcile-IsAssignment run cache e ne = elim (Bool-cases (is_pending_phase run.status.phase)) [
    | inl waits ↦ unfold reconcile in answer-IsAssignment run world.run cache e waits
    | inr past ↦ elim (reconcile_past_pending s world run cache e past).1 [
      | inl nothing ↦ rw nothing tt
      | inr shown ↦ rw shown ((λ x. absurd (ne x)), tt)
    ]
  ]

  -- For any answers of the API and any cache, where the Run that is read is not already scheduled:
  -- each status write that schedules it finds it waiting, with a runtime and without immediate
  -- termination, and assigns it, by name and UID, to a listed Pod that is available for the request
  -- of the Run at the time of the cycle, beside the usage of the listed Runs and the reservations that
  -- they leave.
  pub reconcile_assigns :
      (run w : Run Q) (cache : Reservations Q)
      → world.run ≡ found run
      → run.status.phase ≢ scheduled
      → Member w (reconcile s world cache).writes
      → w.status.phase ≡ scheduled
      → IsEligible run × IsCycle run (observe run cache) w
  reconcile_assigns run w cache e ne written =
      Member-All (IsAssignment run (observe run cache)) w (reconcile s world cache).writes
        (reconcile-IsAssignment run cache e ne) written
