-- ===== src/Application/Safety/Rules.antt =====
-- The rules by which a property of a transaction follows from its steps.
mod Steps
mod Rows
mod Updates
mod Inserts
mod Constructs
pub use Steps.*
pub use Rows.*
pub use Updates.*
pub use Inserts.*
pub use Constructs.*
