-- ===== src/Tests/ActiveRuns.antt =====
-- The theorem on execution starts at one start that fails and is consumed.
use kruntimes.Base.{refl, String, false, [], ◌∷◌, none, some}
use kruntimes.Runtimed.ActiveRun.{
  StartFailure, ActiveRun, begin_execution_start, finish_execution_start,
  consume_execution_start_failure,
}
use kruntimes.Runtimed.ActiveRun.Failures.{
  Starts, idle, begins, ends_with, consumes, IsAccounted, Starts-IsAccounted,
}

abbrev idle_run : ActiveRun String
idle_run = record {
  started = false;
  execution_start = none;
  execution_starting = false;
  session_registration = none;
  session_registering = false;
  function_registration = none;
  function_registering = false;
  function_closed = false;
}

abbrev lost_source : StartFailure
lost_source = record { reason = "SourceFailed"; message = "source is gone" }

abbrev failed_run : ActiveRun String
failed_run = record idle_run { execution_start = some lost_source }

failed_start :
    Starts idle_run 1
      (some lost_source ∷ [])
      (lost_source ∷ [])
      (consume_execution_start_failure failed_run).0
unfolding begin_execution_start finish_execution_start consume_execution_start_failure
failed_start = consumes (ends_with (some lost_source) (begins idle) refl)

Starts-IsAccounted_example :
    IsAccounted 1
      (some lost_source ∷ [])
      (lost_source ∷ [])
      (consume_execution_start_failure failed_run).0
Starts-IsAccounted_example = Starts-IsAccounted refl refl failed_start
