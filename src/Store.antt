-- ===== src/Store.antt =====
-- src/store.rs: the query, the trait of the storage backends, and the backend in memory.
mod Defs
pub mod Query
pub mod Memory
pub mod Rows
pub mod Sqlite
pub mod Agree
pub mod Notify
pub use Defs.{EmailQuery, EmailStorage, IsLawful, Offers}
