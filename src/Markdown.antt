-- ===== src/Markdown.antt =====
-- The markdown files under the memory root: their entries, their frontmatter, and the writer.
pub mod Text
pub mod Entries
pub mod EntryId
pub mod Frontmatter
pub mod Writer
mod Tests
