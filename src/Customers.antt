-- ===== src/Customers.antt =====
-- Customers: profiles, the channel identities linked to them, tags, the timeline and merges
-- (src/kachu_plus/persistence/repository.py; the routes over them in src/kachu_plus/customer_tags.py).
mod Rows
pub mod Tags
pub mod Profiles
pub mod Merge
pub mod Relink
mod Examples
unfoldable pub use Rows.*
