-- ===== src/Scheduler/Reconcile/Ignored.antt =====
-- The events that the scheduler's predicate drops are those it has nothing to do for.
use kruntimes.Base.{string_eq, ◌==◌, ◌≡◌, refl, arith, false, ◌&&◌, not}
use kruntimes.Api.Run.{Run, is_pending_phase, mode_name}
use kruntimes.Scheduler.Cache.{Reservations, observe}
use kruntimes.Scheduler.Environment.{Scheduler, World, Answer, found, done}
use kruntimes.Scheduler.Reconcile.{stop, consider, reconcile, reconcile_answer, reconcile_found}
use kruntimes.Scheduler.Wakeups.{run_updated, pending_run_predicate}

module _ {Q : Type 0} (s : Scheduler Q) (world : World Q) where
  found_ignored :
      (old run : Run Q) (cache : Reservations Q)
      → pending_run_predicate (run_updated old run) ≡ false
      → reconcile_found s world run cache ≡ stop cache done
  unfolding reconcile_found consider pending_run_predicate
  found_ignored old run cache h =
      let past : is_pending_phase run.status.phase ≡ false = ground arith in
      let same : (not (mode_name run.spec.mode == "")
            && not (run.status.mode == mode_name run.spec.mode))
          ≡ false =
        ground arith in
      rw (same, past) refl

  answer_ignored :
      (old run : Run Q) (answer : Answer (Run Q)) (cache : Reservations Q)
      → answer ≡ found run
      → pending_run_predicate (run_updated old run) ≡ false
      → reconcile_answer s world answer cache ≡ stop (observe run cache) done
  unfolding reconcile_answer
  answer_ignored old run answer cache e h = rw e (found_ignored old run (observe run cache) h)

  -- Dropping an event loses nothing: where the predicate drops an update to a Run, Reconcile of that
  -- Run would write nothing and ask for nothing, and only let the cache observe the Run, whatever
  -- the API answers.
  pub reconcile_ignored :
      (old run : Run Q) (cache : Reservations Q)
      → world.run ≡ found run
      → pending_run_predicate (run_updated old run) ≡ false
      → reconcile s world cache ≡ stop (observe run cache) done
  unfolding reconcile
  reconcile_ignored old run cache e h = answer_ignored old run world.run cache e h
