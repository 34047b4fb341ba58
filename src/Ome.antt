-- ===== src/Ome.antt =====
-- The offline memory engine (src/everos/infra/ome).
pub mod Counter
pub mod Registry
pub mod Dispatcher
pub mod RunRecord
pub mod Runner
pub mod CrashRecovery
mod Tests
mod RunTests
