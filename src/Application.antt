-- ===== src/Application.antt =====
-- src/application: the handlers and the service over the account repository.
mod Interface
pub mod Handlers
pub mod Service
pub use Interface.*
unfoldable pub use Handlers.*
