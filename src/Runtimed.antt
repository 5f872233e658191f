-- ===== src/Runtimed.antt =====
-- The daemon that executes the Runs of one Runtime Pod, internal/runtimed.
pub mod SessionQueue
pub mod ActiveRun
pub mod OperationStore
