-- ===== src/Tests/Scheduling.antt =====
-- The theorems on capacity at one worker Pod and three Runs.
use kruntimes.Base.{String, string_eq, ◌≡◌, refl, arith, Bool, true, [], ◌∷◌, some, All, ◌↔◌}
use kruntimes.Base.Int.{ℤ, pos, ◌≤ℤ◌, ◌≈ℤ◌, ◌+ℤ◌}
use kruntimes.Base.Maps.{lookup, insert, Unique}
use kruntimes.Api.Quantity.{ResourceList}
use kruntimes.RuntimePod.{fits}
use kruntimes.RuntimePod.Fitting.{RoomFor, fits_iff}
use kruntimes.Scheduler.Cache.{usage_locked, merge_usage, reserve}
use kruntimes.Scheduler.Cache.Totals.{total, read_at, held, effective_usage}
use kruntimes.Scheduler.Cache.Admission.{IsCovered, effective, reserve_no_overcommit}
use kruntimes.Scheduler.Usage.{assigned_run_usage}
use kruntimes.Scheduler.Usage.Sums.{held_by_runs, assigned_run_usage-eq}
use kruntimes.Tests.Samples.{
  one_slot, four_slots, actual, assumed, shown, whole, whole_laws, worker, waiting_run,
  assigned_run,
}

fits_iff_example :
    (fits whole four_slots one_slot one_slot ≡ true)
    ↔ All (RoomFor whole_laws four_slots one_slot) one_slot
fits_iff_example = fits_iff whole_laws four_slots one_slot one_slot

effective_usage_example :
    read_at whole "worker-0" "runs" (merge_usage whole actual (usage_locked whole assumed))
    ≈ℤ read_at whole "worker-0" "runs" actual +ℤ held whole "worker-0" "runs" assumed
effective_usage_example = effective_usage whole_laws "worker-0" "runs" actual assumed

assigned_run_usage-eq_example :
    read_at whole "worker-0" "runs" (assigned_run_usage whole (assigned_run ∷ waiting_run ∷ []) [])
    ≈ℤ read_at whole "worker-0" "runs" []
      +ℤ held_by_runs whole "worker-0" "runs" (assigned_run ∷ waiting_run ∷ [])
assigned_run_usage-eq_example =
    assigned_run_usage-eq whole_laws "worker-0" "runs" (assigned_run ∷ waiting_run ∷ []) []

abbrev fits_four : ResourceList ℤ → Bool
fits_four usage = fits whole four_slots usage one_slot

fits_four_lem : (reserve whole shown worker fits_four assumed).1 ≡ true
unfolding reserve fits lookup ◌+ℤ◌ insert
fits_four_lem = refl

one_slot_nonneg : (n : String) → pos 0 ≤ℤ total whole n one_slot
unfolding ◌+ℤ◌
one_slot_nonneg n = ground arith

one_slot-Unique : Unique one_slot
unfolding lookup
one_slot-Unique = (refl, tt)

one_slot_runs : lookup "runs" one_slot ≡ some (pos 1)
unfolding lookup
one_slot_runs = refl

reserve_no_overcommit_example : IsCovered whole_laws four_slots "runs" (
    read_at whole "worker-0" "runs"
      (effective whole actual (reserve whole shown worker fits_four assumed).0))
reserve_no_overcommit_example =
    reserve_no_overcommit whole_laws shown worker fits_four four_slots assumed (one_slot_nonneg, tt)
      one_slot-Unique (λ usage h. h) fits_four_lem "runs" (pos 1) one_slot_runs (omega arith)
