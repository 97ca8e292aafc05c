-- ===== src/Application.antt =====
-- The application worker's server side.
pub mod State
pub mod Requests
pub mod Rows
pub mod Tx
pub mod WorkerStore
pub mod Session
pub mod Caps
pub mod Leases
pub mod Events
pub mod Submissions
pub mod Commands
pub mod Runs
pub mod Poll
pub mod Safety
pub mod Buckets
pub mod Effects
pub mod Examples
