-- ===== src/Board.antt =====
-- The board of postings: lib/auto-apply.ts, lib/chips.ts and lib/geo.ts.
pub mod Apply
pub mod Chips
pub mod Geo
pub mod Params
pub mod Examples
