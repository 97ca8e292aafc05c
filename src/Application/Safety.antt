-- ===== src/Application/Safety.antt =====
-- What every request of the worker's server side keeps.
pub mod Evolution
pub mod Rules
pub mod Keys
pub mod Leases
pub mod Revocation
pub mod Requests
pub mod Sweeping
pub mod Unwritten
pub mod Polling
pub mod Receiving
pub mod Sending
pub mod Decisions
pub mod Orders
pub mod Cancelling
pub mod RunOrders
pub mod OneLive
pub mod Orderly
pub mod History
pub mod Exclusive
