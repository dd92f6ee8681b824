-- ===== src/Database.antt =====
-- The tables (src/database/models.py) and the request-scoped unit of work
-- (src/database/session.py).
pub mod Rows
pub mod Session
pub mod Keeps
pub mod Refuse
unfoldable pub use Rows.*
