-- ===== src/EventStore.antt =====
-- src/infrastructure/event_store.rs: the events table behind a batching writer with an optimistic
-- version check.
mod Types
mod Database
mod Prepare
pub mod Insert
pub mod Flush
pub mod Processor
pub mod Read
pub mod Memory
pub use Types.*
pub use Database.*
unfoldable pub use Prepare.*
unfoldable pub use Insert.*
unfoldable pub use Flush.*
unfoldable pub use Processor.*
unfoldable pub use Read.*
