-- ===== src/Workflows/Materialize.antt =====
-- internal/workflowtemplate/materialize.go: inputs are bound to values, and rendered into the jobs. The
-- regular expression is a parameter, which cuts a text into the pieces between and at its matches. A nil
-- map or slice is an empty one.
pub mod Inputs
use kruntimes.Base.{
  String, string_eq, ◌==◌, Bool, true, false, ◌&&◌, not, List, [], ◌∷◌, ◌++◌, map, Option, none,
  some, is_some, if◌then◌else◌,
}
use kruntimes.Base.Maps.{Map, lookup, insert}
use kruntimes.Base.Text.{join, str_lt}
use kruntimes.Base.Results.{Result, ok, err, ◌>>=◌, traverse}
use kruntimes.Base.Sort.{sort_by}
use kruntimes.Api.Workflow.{WorkflowInputSpec, StepSpec, JobSpec, WorkflowSpec}

-- Which field of a job, or of a step of it, was being rendered.
pub data RenderPlace : Type 0 where
  job_uses job_with job_outputs : RenderPlace
  step_run step_args step_env step_with : String → RenderPlace

pub data MaterializeError : Type 0 where
  unknown_input : String → MaterializeError
  missing_required_input : String → MaterializeError
  unknown_reference : String → RenderPlace → String → MaterializeError

abbrev pub given_or_default : Option String → String → String
given_or_default none fallback = fallback
given_or_default (some value) fallback = value

-- The zero value that Go reads for a missing key.
abbrev pub zero_input : WorkflowInputSpec
zero_input = record { required = false; default = "" }

abbrev pub input_or_zero : Option WorkflowInputSpec → WorkflowInputSpec
input_or_zero none = zero_input
input_or_zero (some spec) = spec

-- The first value whose name is not declared.
check_known :
    Map String WorkflowInputSpec → Map String String → Result MaterializeError (Map String String)
check_known inputs [] = ok []
check_known inputs ((name, _) ∷ rest) =
    let later = check_known inputs rest in
    if is_some (lookup name inputs) then later else err (unknown_input name)

-- The loop over the sorted names.
bind_each :
    Map String WorkflowInputSpec
    → Map String String
    → List String
    → Map String String
    → Result MaterializeError (Map String String)
bind_each inputs values [] bound = ok bound
bind_each inputs values (name ∷ names) bound =
    let input = input_or_zero (lookup name inputs) in
    let set = is_some (lookup name values) in
    let value = given_or_default (lookup name values) input.default in
    let rest = bind_each inputs values names (insert name value bound) in
    if (value == "") && (input.required && (not set && (input.default == "")))
    then err (missing_required_input name)
    else rest

unfoldable pub bind_inputs :
    Map String WorkflowInputSpec → Map String String → Result MaterializeError (Map String String)
unfolding check_known bind_each
bind_inputs inputs values = do
  _ ← check_known inputs values
  bind_each inputs values (sort_by str_lt (map (λ (e : String × WorkflowInputSpec). e.0) inputs)) []

-- The text before a match, and the name that the match captures; or the rest without one.
pub data Piece : Type 0 where
  plain : String → Piece
  input_expression : String → Piece

module _ (pieces : String → List Piece) where
  -- ReplaceAllStringFunc; the last unknown input is the error.
  replace_all : List Piece → Map String String → String → Option String → String × Option String
  replace_all [] inputs done failed = (done, failed)
  replace_all (plain text ∷ rest) inputs done failed =
      replace_all rest inputs (join done text) failed
  replace_all (input_expression name ∷ rest) inputs done failed =
      replace_all rest inputs (join done (given_or_default (lookup name inputs) ""))
        (if is_some (lookup name inputs) then failed else some name)

  rendered_or : String × Option String → Result String String
  rendered_or (text, none) = ok text
  rendered_or (text, some name) = err name

  unfoldable pub render_inputs : Map String String → String → Result String String
  unfolding replace_all rendered_or
  render_inputs inputs value = rendered_or (replace_all (pieces value) inputs "" none)

  unfoldable pub render_strings : Map String String → List String → Result String (List String)
  render_strings inputs values = traverse (render_inputs inputs) values

  with_key : String → Result String String → Result String (String × String)
  with_key name (err e) = err e
  with_key name (ok value) = ok (name, value)

  unfoldable pub render_string_map :
      Map String String → Map String String → Result String (Map String String)
  unfolding with_key
  render_string_map inputs values =
      traverse (λ (e : String × String). with_key e.0 (render_inputs inputs e.1)) values

  -- `fmt.Errorf("job %q ...: %w", ...)`
  at_place : {A : Type 0} → String → RenderPlace → Result String A → Result MaterializeError A
  at_place job place (err name) = err (unknown_reference job place name)
  at_place job place (ok a) = ok a

  render_step : Map String String → String → StepSpec → Result MaterializeError StepSpec
  unfolding at_place
  render_step inputs job step = do
    run ← at_place job (step_run step.name) (render_inputs inputs step.run)
    args ← at_place job (step_args step.name) (render_strings inputs step.args)
    env ← at_place job (step_env step.name) (render_string_map inputs step.env)
    with_inputs ← at_place job (step_with step.name) (render_string_map inputs step.with_inputs)
    ok (record step { run = run; args = args; env = env; with_inputs = with_inputs })

  render_job : Map String String → String × JobSpec → Result MaterializeError (String × JobSpec)
  unfolding render_step at_place
  render_job inputs (name, job) = do
    uses ← at_place name job_uses (render_inputs inputs job.uses)
    with_inputs ← at_place name job_with (render_string_map inputs job.with_inputs)
    outputs ← at_place name job_outputs (render_string_map inputs job.outputs)
    steps ← traverse (render_step inputs name) job.steps
    ok (
      name,
      record job { uses = uses; with_inputs = with_inputs; outputs = outputs; steps = steps },
    )

  unfoldable pub materialize :
      WorkflowSpec → Map String String → Result MaterializeError (Map String JobSpec)
  unfolding render_job
  materialize spec values = do
    inputs ← bind_inputs spec.inputs values
    traverse (render_job inputs) spec.jobs
