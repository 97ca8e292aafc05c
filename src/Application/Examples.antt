-- ===== src/Application/Examples.antt =====
-- Requests of a small household, and the theorems at these.
mod Household
mod Events
mod Submissions
mod Orders
mod Polls
mod Runs
