-- ===== src/Ingest/Dedupe/Merging.antt =====
-- lib/dedupe.ts: what a group becomes, and `dedupePostings`.
use Prim.Native.String.{String}
use job_dashboard.Prelude.{
  ℕ, ltb, leb, str_eq, Bool, false, ◌&&◌, Option, none, some, List, [], ◌∷◌, if◌then◌else◌, or_else,
  select, map,
}
use job_dashboard.Ingest.Dedupe.{
  RawPosting, PostingSource, Group, Feed, is_ats, first_some, shares_publisher_identity, near_dupe,
  remote_dupe,
}
use job_dashboard.Ingest.Dedupe.Passes.{source_le, sort_by, head, merge_pass, group_by_key}

abbrev pub earliest : Option ℕ → Option ℕ → Option ℕ
earliest none b = b
earliest (some a) none = some a
earliest (some a) (some b) = some (if leb a b then a else b)

-- The identity by which `collapseSourceUrls` knows a source.
unfoldable pub same_record : Feed → PostingSource → PostingSource → Bool
same_record feed a b = same_ids a.publisher_id b.publisher_id
  where
    same_ids : Option String → Option String → Bool
    same_ids (some i) (some j) = str_eq a.source b.source && str_eq i j
    same_ids none none =
        str_eq (feed.canonical_source_url a.source_url) (feed.canonical_source_url b.source_url)
    same_ids _ _ = false

unfoldable pub collapsed_with : PostingSource → PostingSource → PostingSource
collapsed_with existing source =
    let date = earliest existing.posted_at source.posted_at in
    if ltb source.priority existing.priority
    then record source { posted_at = date }
    else record existing { posted_at = date }

unfoldable pub collapse_into : Feed → PostingSource → List PostingSource → List PostingSource
collapse_into feed source [] = source ∷ []
collapse_into feed source (e ∷ rest) =
    let later = collapse_into feed source rest in
    if same_record feed e source then collapsed_with e source ∷ rest else e ∷ later

unfoldable pub collapse_source_urls :
    Feed → List PostingSource → List PostingSource → List PostingSource
collapse_source_urls feed [] kept = kept
collapse_source_urls feed (s ∷ rest) kept =
    collapse_source_urls feed rest (collapse_into feed s kept)

-- The dates that are finite.
unfoldable pub dates : List PostingSource → List ℕ
dates [] = []
dates (s ∷ rest) = elim s.posted_at [ none ↦ dates rest | some d ↦ d ∷ dates rest ]

-- `Math.min` of a list that is not empty.
unfoldable pub min_of : List ℕ → Option ℕ
min_of [] = none
min_of (d ∷ rest) = earliest (some d) (min_of rest)

abbrev pub at_least : ℕ → Option ℕ → ℕ
at_least n none = n
at_least n (some m) = if leb n m then m else n

pub record DedupedPosting : Type 0 where
  pub key : String
  pub sources : List PostingSource
  pub posted_at : ℕ
  pub canonical_url : String

unfoldable pub winner : List PostingSource → Option PostingSource
winner sources =
    let own = select (λ s. is_ats s.source_kind) sources in
    elim (head own) [ none ↦ head sources | some s ↦ some s ]

abbrev pub link : Feed → Option PostingSource → String
link feed none = ""
link feed (some s) =
    or_else (first_some (feed.http_url s.apply_url) (feed.http_url (some s.source_url))) ""

unfoldable pub materialize : Feed → (fallback : ℕ) → Group → DedupedPosting
materialize feed fallback group =
    let sources = sort_by (source_le feed) (collapse_source_urls feed group.sources []) in
    let own = dates (select (λ s. is_ats s.source_kind) sources) in
    record {
      key = group.key;
      sources = sources;
      posted_at = at_least (or_else (min_of (dates sources)) fallback) (min_of own);
      canonical_url = link feed (winner sources);
    }

unfoldable pub dedupe_postings : Feed → (fallback : ℕ) → List RawPosting → List DedupedPosting
dedupe_postings feed fallback postings =
    let groups = group_by_key feed postings [] in
    let same = merge_pass feed shares_publisher_identity groups in
    let near = merge_pass feed (near_dupe feed) same in
    let apart = merge_pass feed (remote_dupe feed) near in map (materialize feed fallback) apart
