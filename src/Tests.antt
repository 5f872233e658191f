-- ===== src/Tests.antt =====
-- Concrete objects and the theorems applied to them.
mod Samples
mod Plans
mod Cycles
mod Scheduling
mod Statuses
mod Controllers
mod Sessions
mod Workspaces
mod Workflows
mod Operations
mod Admissions
mod Entrypoints
mod ActiveRuns
