-- ===== src/Ingest/Ghost/Tests.antt =====
-- The ghost pass at concrete inputs.
use job_dashboard.Prelude.{◌≡◌, refl, none, [], ◌∷◌, map}
use job_dashboard.Ingest.Ghost.{PostingSource, Posting, Corpus, GhostOptions, run_ghost_pass}
use job_dashboard.Ingest.Ghost.Delisting.{verdict, run_ghost_pass-verdict}

options : GhostOptions
options = record { run_id = "r9"; ok_connectors = "lever" ∷ []; now = 900 }

listed : Posting
listed = record { id = 1; delisted_at = none; delisted_reason = none }

source : PostingSource
source = record { posting_id = 1; source = "lever"; last_seen_run = "r8"; absence_count = 1 }

corpus : Corpus
corpus = record { postings = listed ∷ []; sources = source ∷ [] }

run_ghost_pass-verdict_example :
    (run_ghost_pass options corpus).1.postings
    ≡ map (verdict options corpus.sources) corpus.postings
unfolding options
run_ghost_pass-verdict_example = run_ghost_pass-verdict options corpus "lever" [] refl

fresh : PostingSource
fresh = record source { absence_count = 0 }
