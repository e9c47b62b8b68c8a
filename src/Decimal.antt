-- ===== src/Decimal.antt =====
-- The amounts of money, behind an interface.
mod Interface
pub mod Cents
pub use Interface.*
