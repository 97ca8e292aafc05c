-- ===== src/Ingest/Ghost.antt =====
-- scripts/ghost.ts: which postings have quietly died. The columns that the pass neither reads nor writes are left out.
use job_dashboard.Prelude.{
  ℕ, ◌+◌, ◌==◌, ltb, leb, String, str_eq, Bool, true, false, not, ◌&&◌, ◌||◌, Option, none, some,
  is_some, List, [], ◌∷◌, map, any, select, length, if◌then◌else◌,
}
pub mod Delisting
pub mod Tests

-- A row of `posting_sources` (lib/db/schema.ts).
pub record PostingSource : Type 0 where
  pub posting_id : ℕ
  pub source : String
  pub last_seen_run : String
  pub absence_count : ℕ

pub data DelistedReason : Type 0 where
  ghost linkcheck : DelistedReason

-- A row of `postings`.
pub record Posting : Type 0 where
  pub id : ℕ
  pub delisted_at : Option ℕ
  pub delisted_reason : Option DelistedReason

pub record Corpus : Type 0 where
  pub postings : List Posting
  pub sources : List PostingSource

pub record GhostOptions : Type 0 where
  pub run_id : String
  pub ok_connectors : List String
  pub now : ℕ

pub record GhostStats : Type 0 where
  pub polled : ℕ
  pub absent : ℕ
  pub delisted : ℕ
  pub restored : ℕ

-- `GHOST_ABSENCE_THRESHOLD` of lib/dedupe.ts.
abbrev pub ghost_absence_threshold : ℕ
ghost_absence_threshold = 2

abbrev pub names : List String → String → Bool
names [] source = false
names (c ∷ rest) source = str_eq c source || names rest source

-- `inArray(postingSources.source, okConnectors)`
unfoldable pub mine : GhostOptions → PostingSource → Bool
mine o s = names o.ok_connectors s.source

unfoldable pub seen_now : GhostOptions → PostingSource → Bool
seen_now o s = str_eq s.last_seen_run o.run_id

-- The first update, on one row.
unfoldable pub aged : GhostOptions → PostingSource → PostingSource
unfolding mine seen_now
aged o s =
    if mine o s
    then record s {
      absence_count =
          if seen_now o s
          then 0
          else if leb (s.absence_count + 1) ghost_absence_threshold
          then s.absence_count + 1
          else ghost_absence_threshold;
    }
    else s

abbrev pub of_posting : ℕ → PostingSource → Bool
of_posting id s = s.posting_id == id

abbrev pub is_quiet : PostingSource → Bool
is_quiet s = leb ghost_absence_threshold s.absence_count

-- The posting has a source, and all of its sources have gone quiet.
unfoldable pub is_ghost_now : List PostingSource → ℕ → Bool
is_ghost_now sources id =
    any (of_posting id) sources && not (any (λ s. of_posting id s && not (is_quiet s)) sources)

-- A source of the posting is below the threshold.
unfoldable pub still_listed : List PostingSource → ℕ → Bool
still_listed sources id = any (λ s. of_posting id s && not (is_quiet s)) sources

unfoldable pub to_delist : List PostingSource → Posting → Bool
to_delist sources p = not (is_some p.delisted_at) && is_ghost_now sources p.id

abbrev pub by_ghost : Option DelistedReason → Bool
by_ghost (some DelistedReason.ghost) = true
by_ghost _ = false

unfoldable pub to_restore : List PostingSource → Posting → Bool
to_restore sources p = by_ghost p.delisted_reason && still_listed sources p.id

-- The second and the third update, on one row.
unfoldable pub delisted : GhostOptions → List PostingSource → Posting → Posting
delisted o sources p =
    if to_delist sources p
    then record p { delisted_at = some o.now; delisted_reason = some DelistedReason.ghost }
    else p

unfoldable pub restored : List PostingSource → Posting → Posting
restored sources p =
    if to_restore sources p then record p { delisted_at = none; delisted_reason = none } else p

-- What a pass makes of a posting, by the sources as they are after the first update.
unfoldable pub judged : GhostOptions → List PostingSource → Posting → Posting
judged o sources p = restored sources (delisted o sources p)

abbrev pub no_stats : GhostStats
no_stats = record { polled = 0; absent = 0; delisted = 0; restored = 0 }

unfoldable pub pass : GhostOptions → Corpus → GhostStats × Corpus
pass o c =
    let sources = map (aged o) c.sources in
    let marked = map (delisted o sources) c.postings in
    (
      record {
        polled = length (select (mine o) c.sources);
        absent = length (select (λ s. mine o s && not (seen_now o s)) c.sources);
        delisted = length (select (to_delist sources) c.postings);
        restored = length (select (to_restore sources) marked);
      },
      record { postings = map (restored sources) marked; sources = sources },
    )

unfoldable pub run_ghost_pass : GhostOptions → Corpus → GhostStats × Corpus
run_ghost_pass o c = elim o.ok_connectors [ [] ↦ (no_stats, c) | ◌∷◌ name rest ↦ pass o c ]
