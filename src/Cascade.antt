-- ===== src/Cascade.antt =====
-- src/everos/memory/cascade: the queue, the reconciler, the scanner and the worker.
pub mod Queue
pub mod Reconcile
pub mod Scan
pub mod Optimizer
pub mod Worker
pub mod Supervise
pub mod Health
pub mod DailyLog
