-- ===== src/RunStatus.antt =====
-- internal/runstatus/status.go: the fields and conditions of a terminal transition.
pub mod Terminal
use kruntimes.Base.{ℕ, String, Option, none, some, List}
use kruntimes.Api.Conditions.{Condition, false_status, MetaOps}
use kruntimes.Api.Run.{Run, RunPhase}

abbrev pub condition_scheduled : String
condition_scheduled = "Scheduled"

abbrev pub condition_running : String
condition_running = "Running"

abbrev pub condition_ready : String
condition_ready = "Ready"

abbrev pub condition_completed : String
condition_completed = "Completed"

-- A condition with no transition time of its own.
abbrev pub lowered : String → String → String → Condition
lowered type reason message = record {
  type = type;
  status = false_status;
  reason = reason;
  message = message;
  last_transition_time = 0;
  observed_generation = 0;
}

-- `clock` is what SetStatusCondition reads, `now` the caller's time.
module _ (m : MetaOps) (clock : ℕ) where
  open m use {find_status_condition, set_status_condition}

  lower_ready : Option Condition → String → String → List Condition → List Condition
  lower_ready none reason message cs = cs
  lower_ready (some _) reason message cs =
      set_status_condition clock cs (lowered condition_ready reason message)

  unfoldable pub set_terminal : {Q : Type 0} → Run Q → RunPhase → String → String → ℕ → Run Q
  unfolding lower_ready
  set_terminal run phase reason message now =
      let cs = run.status.conditions in
      let readied = lower_ready (find_status_condition cs condition_ready) reason message cs in
      let stopped = set_status_condition clock readied (lowered condition_running reason message) in
      record run {
        status = record (run.status) {
          phase = phase;
          message = message;
          completion_time = some now;
          conditions =
              set_status_condition clock stopped (lowered condition_completed reason message);
        };
      }
