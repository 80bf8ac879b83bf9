-- ===== src/Suggestions.antt =====
-- The proactive suggestions: their table here, the repository's operations on it in `Store`.
mod Rows
pub mod Store
unfoldable pub use Rows.*
