-- ===== src/Workflows.antt =====
-- internal/workflowtemplate: the validation of the calls between reusable workflows, and the binding
-- of their inputs.
pub mod CallGraph
pub mod Materialize
