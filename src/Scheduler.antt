-- ===== src/Scheduler.antt =====
-- internal/scheduler: the assignment of pending Runs to Runtime Pods.
pub mod Types
pub mod Cache
pub mod Affinity
pub mod Filters
pub mod Score
pub mod LeastLoaded
pub mod Framework
pub mod Usage
pub mod Environment
pub mod Reconcile
pub mod Wakeups
