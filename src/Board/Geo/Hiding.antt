-- ===== src/Board/Geo/Hiding.antt =====
-- lib/query.ts and lib/geo.ts: the tiers of SQL and of the code, and the rows that the board hides.
use Prim.Native.String.{String}
use job_dashboard.Prelude.{Bool, true, false}
use job_dashboard.Board.Geo.Sql.{Condition, holding}

abbrev taken : Condition → Bool
taken holding = true
taken _ = false
