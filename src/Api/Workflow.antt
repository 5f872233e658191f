-- ===== src/Api/Workflow.antt =====
-- api/v1alpha1/workflow_types.go: reusable workflows. The artifact inputs of a step, which only the
-- WorkflowRun controller reads, and the type of an input, which is always a string, are left out.
use kruntimes.Base.{String, Bool, List}
use kruntimes.Base.Maps.{Map}

pub record WorkflowInputSpec : Type 0 where
  pub required : Bool
  pub default : String

pub record WorkflowOutputSpec : Type 0 where
  pub value : String

pub record StepSpec : Type 0 where
  pub name : String
  pub run : String
  pub args : List String
  pub env : Map String String
  pub uses : String
  pub with_inputs : Map String String

pub record JobSpec : Type 0 where
  pub runs_on : String
  pub needs : List String
  pub steps : List StepSpec
  pub uses : String
  pub with_inputs : Map String String
  pub outputs : Map String String

pub record WorkflowSpec : Type 0 where
  pub inputs : Map String WorkflowInputSpec
  pub outputs : Map String WorkflowOutputSpec
  pub jobs : Map String JobSpec
