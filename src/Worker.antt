-- ===== src/Worker.antt =====
-- The worker on the applicant's machine: worker/guard.ts.
pub mod Guard
