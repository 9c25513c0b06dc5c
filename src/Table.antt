-- ===== src/Table.antt =====
-- The SQL statements that the stores run (`this.sql.exec` in src/oauth/server-store.ts and
-- src/auth/account-store.ts), over a table that is the list of its rows.
mod Defs
pub mod Laws
pub mod Pairs
pub mod Counts
pub mod Sort
unfoldable pub use Defs.*
