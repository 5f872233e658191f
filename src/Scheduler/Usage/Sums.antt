-- ===== src/Scheduler/Usage/Sums.antt =====
-- The actual usage is the sum of the requests of the Runs that hold resources.
use kruntimes.Base.{
  String, string_eq, ◌==◌, ◌&&◌, not, Bool, true, false, ◌≡◌, arith, List, [], ◌∷◌, Bool-cases, inl,
  inr,
}
use kruntimes.Base.Int.{ℤ, pos, ◌+ℤ◌, ◌≈ℤ◌, int_laws}
use kruntimes.Base.Results.{Result, ok, err}
use kruntimes.Api.Quantity.{QuantityOps, QuantityLaws, ResourceList}
use kruntimes.Api.Run.{Run, RunPhase, scheduled, running, ready}
use kruntimes.Api.Resources.{InvalidRequest, resource_requests}
use kruntimes.Scheduler.Types.{UsageByPod, consumes_runtime_capacity}
use kruntimes.Scheduler.Cache.Totals.{when, total, read_at, read_at-add_usage, read_at-insert_same}
use kruntimes.Scheduler.Usage.{add_requests, assigned_run_usage}

module _ {Q : Type 0} (k : QuantityOps Q) where
  abbrev requested : String → Result InvalidRequest (ResourceList Q) → ℤ
  requested n (ok requests) = total k n requests
  requested n (err _) = pos 0

  -- The phases in which a Run holds its requests: assigned, running or ready.
  abbrev pub is_held : RunPhase → Bool
  is_held scheduled = true
  is_held running = true
  is_held ready = true
  is_held _ = false

  -- What a Run holds of a resource on a Pod.
  abbrev pub holds : String → String → Run Q → ℤ
  holds pod n run =
      when
        (not (run.status.assigned_pod == "")
          && is_held run.status.phase
          && run.status.assigned_pod == pod)
        (requested n (resource_requests k run.spec))

  abbrev pub held_by_runs : String → String → List (Run Q) → ℤ
  held_by_runs pod n [] = pos 0
  held_by_runs pod n (run ∷ runs) = holds pod n run +ℤ held_by_runs pod n runs

consumes_runtime_capacity-is_held :
    {Q : Type 0} (k : QuantityOps Q) (phase : RunPhase)
    → consumes_runtime_capacity phase ≡ is_held k phase
unfolding consumes_runtime_capacity
consumes_runtime_capacity-is_held k phase = ground arith

module _ {Q : Type 0} {k : QuantityOps Q} (laws : QuantityLaws k) where
  read_at-add_requests :
      (pod n p : String) (usage : UsageByPod Q) (r : Result InvalidRequest (ResourceList Q))
      → read_at k pod n (add_requests k usage p r)
        ≈ℤ read_at k pod n usage +ℤ when (p == pod) (requested k n r)
  unfolding add_requests
  read_at-add_requests pod n p usage (ok requests) = read_at-add_usage laws pod n p usage requests
  read_at-add_requests pod n p usage (err e) = elim (Bool-cases (p == pod)) [
    | inl same ↦ rw same (omega (int_laws, read_at-insert_same laws pod n p usage))
    | inr other ↦ rw other (omega (int_laws, read_at-insert_same laws pod n p usage))
  ]

  -- For any Runs and any usage to start from: the usage of a resource on a Pod grows by the sum of
  -- what the Runs assigned to that Pod in the phase Scheduled, Running or Ready request of it; a Run
  -- in another phase adds nothing, so one that is Finalizing holds nothing, though it is not yet
  -- terminal.
  pub assigned_run_usage-eq :
      (pod n : String) (runs : List (Run Q)) (usage : UsageByPod Q)
      → read_at k pod n (assigned_run_usage k runs usage)
        ≈ℤ read_at k pod n usage +ℤ held_by_runs k pod n runs
  unfolding assigned_run_usage
  assigned_run_usage-eq pod n [] usage = omega int_laws
  assigned_run_usage-eq pod n (run ∷ runs) usage =
      elim (Bool-cases (run.status.assigned_pod == "")) [
        | inl unassigned ↦ rw unassigned (omega (int_laws, assigned_run_usage-eq pod n runs usage))
        | inr assigned ↦ elim (Bool-cases (is_held k run.status.phase)) [
          | inl active ↦
              rw (assigned, consumes_runtime_capacity-is_held k run.status.phase, active)
                (omega (
                  int_laws,
                  assigned_run_usage-eq pod n runs
                      (add_requests k usage run.status.assigned_pod (resource_requests k run.spec)),
                  read_at-add_requests pod n run.status.assigned_pod usage
                      (resource_requests k run.spec),
                ))
          | inr idle ↦
              rw (assigned, consumes_runtime_capacity-is_held k run.status.phase, idle)
                (omega (int_laws, assigned_run_usage-eq pod n runs usage))
        ]
      ]
