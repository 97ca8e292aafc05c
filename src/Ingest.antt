-- ===== src/Ingest.antt =====
-- The ingestion of postings: scripts/ghost.ts.
pub mod Ghost
pub mod Dedupe
