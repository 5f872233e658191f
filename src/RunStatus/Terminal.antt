-- ===== src/RunStatus/Terminal.antt =====
-- What SetTerminal leaves in the status.
use mathlib.Core.Bool.{false≢true}
use kruntimes.Base.{eq_iff, ℕ, String, ◌≡◌, ◌≢◌, Option, none, some, ◌⊎◌, inl, inr, refl, List, ◌∙◌}
use kruntimes.Api.Conditions.{Condition, false_status, MetaOps, MetaLaws}
use kruntimes.Api.Run.{Run, RunPhase}
use kruntimes.RunStatus.{
  condition_running, condition_ready, condition_completed, lowered, lower_ready, set_terminal,
}

-- The condition of that type is there, false, for that reason.
pub record IsLowered (m : MetaOps) (cs : List Condition) (type reason : String) : Type 0 where
  pub condition : Condition
  pub found : m.find_status_condition cs type ≡ some condition
  pub is_false : condition.status ≡ false_status
  pub for_reason : condition.reason ≡ reason

running≢completed : condition_running ≢ condition_completed
running≢completed e = false≢true ((eq_iff condition_running condition_completed).1 e)

ready≢completed : condition_ready ≢ condition_completed
ready≢completed e = false≢true ((eq_iff condition_ready condition_completed).1 e)

ready≢running : condition_ready ≢ condition_running
ready≢running e = false≢true ((eq_iff condition_ready condition_running).1 e)

module _ (m : MetaOps) (laws : MetaLaws m) (clock : ℕ) where
  pub set_lowered :
      (cs : List Condition) (type reason message : String)
      → IsLowered m (m.set_status_condition clock cs (lowered type reason message)) type reason
  set_lowered cs type reason message =
      let (d, found, _, status, why, _) = laws.set_found clock cs (lowered type reason message) in
      record { condition = d; found = found; is_false = status; for_reason = why }

  keep_lowered :
      (cs : List Condition) (type reason other message : String)
      → type ≢ other
      → IsLowered m cs type reason
      → IsLowered m (m.set_status_condition clock cs (lowered other reason message)) type reason
  keep_lowered cs type reason other message ne h = record {
    condition = h.condition;
    found = laws.set_other clock cs (lowered other reason message) type ne ∙ h.found;
    is_false = h.is_false;
    for_reason = h.for_reason;
  }

  -- What SetTerminal leaves.
  pub record IsTerminated {Q : Type 0} (old run : Run Q) (phase : RunPhase)
      (reason message : String) (now : ℕ) : Type 0 where
    pub phase_set : run.status.phase ≡ phase
    pub message_set : run.status.message ≡ message
    pub completed_at : run.status.completion_time ≡ some now
    pub not_running : IsLowered m run.status.conditions condition_running reason
    pub not_completed : IsLowered m run.status.conditions condition_completed reason
    pub not_ready :
        (m.find_status_condition old.status.conditions condition_ready ≡ none)
          × (m.find_status_condition run.status.conditions condition_ready ≡ none)
        ⊎ IsLowered m run.status.conditions condition_ready reason
    pub keeps_spec : run.spec ≡ old.spec

  abbrev stop_conditions : List Condition → String → String → List Condition
  stop_conditions cs reason message =
      m.set_status_condition clock
        (m.set_status_condition clock cs (lowered condition_running reason message))
        (lowered condition_completed reason message)

  readied_lem :
      (cs : List Condition) (reason message : String) (before : Option Condition)
      → m.find_status_condition cs condition_ready ≡ before
      → let after = stop_conditions (lower_ready m clock before reason message cs) reason message in
        (before ≡ none) × (m.find_status_condition after condition_ready ≡ none)
        ⊎ IsLowered m after condition_ready reason
  unfolding lower_ready
  readied_lem cs reason message none e = inl (
    refl,
    laws.set_other clock _ _ condition_ready ready≢completed
        ∙ laws.set_other clock cs _ condition_ready ready≢running
        ∙ e,
  )
  readied_lem cs reason message (some c) e = inr (
      keep_lowered _ condition_ready reason condition_completed message ready≢completed (
        keep_lowered _ condition_ready reason condition_running message ready≢running
          (set_lowered cs condition_ready reason message)))

  module _ {Q : Type 0} (run : Run Q) (phase : RunPhase) (reason message : String) (now : ℕ) where
    -- For any Run, phase and texts, under the documented laws of the condition helpers: SetTerminal
    -- sets the phase, the message and the completion time and keeps the spec; Running and Completed are then
    -- false with the reason; Ready is too if it was there, and otherwise stays absent.
    pub set_terminal_lem :
        IsTerminated run
          (set_terminal m clock run phase reason message now)
          phase
          reason
          message
          now
    unfolding set_terminal
    set_terminal_lem = record {
      phase_set = refl;
      message_set = refl;
      completed_at = refl;
      not_running =
          keep_lowered _ condition_running reason condition_completed message running≢completed
            (set_lowered _ condition_running reason message);
      not_completed = set_lowered _ condition_completed reason message;
      not_ready =
          readied_lem run.status.conditions reason message
            (m.find_status_condition run.status.conditions condition_ready) refl;
      keeps_spec = refl;
    }
