-- ===== src/Memorize.antt =====
-- The memorize service's boundary stage (src/everos/service/_boundary.py).
pub mod Message
pub mod Merge
pub mod Detect
pub mod Boundary
