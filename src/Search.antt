-- ===== src/Search.antt =====
-- Search (src/everos/memory/search): the filters, and the heap expansion of episodes into facts.
pub mod Filters
pub mod Hierarchy
mod Tests
