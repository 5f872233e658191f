-- ===== src/Runtimed/ActiveRun.antt =====
-- internal/runtimed/active_run.go: what runtimed keeps of the asynchronous start of a Run and of its
-- registration as a session or function. Each method is one critical section. The paths of the working
-- directory are left out.
pub mod Failures
use kruntimes.Base.{String, Bool, true, false, Option, none, some, if◌then◌else◌}

-- executionStartFailure, sessionRegistrationFailure and functionRegistrationFailure
pub record StartFailure : Type 0 where
  pub reason : String
  pub message : String

-- A registration is an opaque value of the runtime API, of type `R`.
pub record FunctionRegistrationState (R : Type 0) : Type 0 where
  pub registration : Option R
  pub failure : Option StartFailure

pub record ActiveRun (R : Type 0) : Type 0 where
  pub started : Bool
  pub execution_start : Option StartFailure
  pub execution_starting : Bool
  pub session_registration : Option StartFailure
  pub session_registering : Bool
  pub function_registration : Option (FunctionRegistrationState R)
  pub function_registering : Bool
  pub function_closed : Bool

module _ {R : Type 0} where
  unfoldable pub begin_execution_start : ActiveRun R → ActiveRun R × Bool
  begin_execution_start ar =
      if ar.execution_starting
      then (ar, false)
      else (record ar { execution_starting = true; execution_start = none; started = false }, true)

  unfoldable pub finish_execution_start : Option StartFailure → ActiveRun R → ActiveRun R
  finish_execution_start failure ar = record ar {
    execution_starting = false;
    execution_start = failure;
  }

  unfoldable pub execution_start_in_flight : ActiveRun R → Bool
  execution_start_in_flight ar = ar.execution_starting

  unfoldable pub consume_execution_start_failure : ActiveRun R → ActiveRun R × Option StartFailure
  consume_execution_start_failure ar = (record ar { execution_start = none }, ar.execution_start)

  unfoldable pub begin_session_registration : ActiveRun R → ActiveRun R × Bool
  begin_session_registration ar =
      if ar.session_registering
      then (ar, false)
      else (record ar { session_registering = true; session_registration = none }, true)

  unfoldable pub finish_session_registration : Option StartFailure → ActiveRun R → ActiveRun R
  finish_session_registration failure ar = record ar {
    session_registering = false;
    session_registration = failure;
  }

  unfoldable pub session_registration_in_flight : ActiveRun R → Bool
  session_registration_in_flight ar = ar.session_registering

  unfoldable pub consume_session_registration_failure :
      ActiveRun R → ActiveRun R × Option StartFailure
  consume_session_registration_failure ar =
      (record ar { session_registration = none }, ar.session_registration)

  unfoldable pub begin_function_registration : ActiveRun R → ActiveRun R × Bool
  begin_function_registration ar =
      if ar.function_registering
      then (ar, false)
      else (record ar { function_registering = true; function_registration = none }, true)

  unfoldable pub finish_function_registration :
      Option R → Option StartFailure → ActiveRun R → ActiveRun R
  finish_function_registration registration failure ar = record ar {
    function_registering = false;
    function_registration = some (record { registration = registration; failure = failure });
  }

  unfoldable pub function_registration_in_flight : ActiveRun R → Bool
  function_registration_in_flight ar = ar.function_registering

  registration_of : Option (FunctionRegistrationState R) → Option R
  registration_of none = none
  registration_of (some state) = state.registration

  unfoldable pub function_registration_ref : ActiveRun R → Option R
  unfolding registration_of
  function_registration_ref ar = registration_of ar.function_registration

  consume_state :
      Option (FunctionRegistrationState R) → ActiveRun R → ActiveRun R × Option StartFailure
  consume_state none ar = (ar, none)
  consume_state (some state) ar =
      (record ar { function_registration = some (record state { failure = none }) }, state.failure)

  unfoldable pub consume_function_registration_failure :
      ActiveRun R → ActiveRun R × Option StartFailure
  unfolding consume_state
  consume_function_registration_failure ar = consume_state ar.function_registration ar

  unfoldable pub reset_function_registration : ActiveRun R → ActiveRun R
  reset_function_registration ar = record ar {
    function_registering = false;
    function_registration = none;
    function_closed = false;
  }
