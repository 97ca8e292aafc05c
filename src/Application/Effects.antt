-- ===== src/Application/Effects.antt =====
-- What each request that succeeds has found and done, and what a request that fails leaves.
pub mod Rules
pub mod Events
pub mod Replays
pub mod Intents
pub mod Once
pub mod Sessions
pub mod Orders
pub mod Commands
pub mod Receipts
pub mod Leases
pub mod Scans
pub mod Candidates
pub mod Polls
pub mod Starts
