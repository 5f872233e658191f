-- ===== src/Api.antt =====
-- The API objects of api/v1alpha1 and the Kubernetes objects and helpers that the code reads.
pub mod Quantity
pub mod Conditions
pub mod Pod
pub mod Run
pub mod Workspace
pub mod Resources
pub mod Workflow
