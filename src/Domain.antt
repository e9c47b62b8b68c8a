-- ===== src/Domain.antt =====
-- The account aggregate of src/domain: its events and commands, how an event changes it and how it
-- decides a command.
mod Events
mod Commands
mod Aggregate
pub mod Apply
pub mod Decide
pub mod Lifecycle
pub mod Ledger
unfoldable pub use Events.*
pub use Commands.*
unfoldable pub use Aggregate.*
