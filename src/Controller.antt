-- ===== src/Controller.antt =====
-- The controllers of internal/controller that look after Runs.
pub mod StaleReaper
pub mod CompletedRuns
pub mod Workspaces
