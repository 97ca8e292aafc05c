-- ===== src/Ingest/Dedupe.antt =====
-- lib/dedupe.ts: postings of one role, from several sources, become one posting. What lib/normalize.ts makes of a posting's
-- texts, what `URL` makes of addresses, the tokens of a title, the order of texts and SHA-256 are the fields of Feed.
use Prim.Native.String.{String, ◌++◌ as ◌<>◌}
use job_dashboard.Prelude.{
  is_empty, ℕ, ◌+◌, ◌*◌, ◌==◌, ltb, leb, str_eq, Bool, true, false, not, ◌&&◌, ◌||◌, Option, none,
  some, List, [], ◌∷◌, ◌++◌, if◌then◌else◌, or_else, holds, is_some, any, select, find, map, length,
}
use job_dashboard.Board.Geo.{NormalizedLocation}
pub mod Passes
pub mod Merging
mod Ids
pub mod Identities
pub mod Dates
pub mod Requisitions
mod Tests

pub data SourceKind : Type 0 where
  ats aggregator rss scrape repo : SourceKind

-- `SOURCE_PRIORITY`
unfoldable pub source_priority : SourceKind → ℕ
source_priority ats = 1
source_priority aggregator = 2
source_priority rss = 3
source_priority scrape = 4
source_priority repo = 5

-- A `publisher_id` is the trimmed text; `posted_at` is none where the number is not finite.
pub record RawPosting : Type 0 where
  pub source : String
  pub source_kind : SourceKind
  pub source_url : String
  pub publisher_id : String
  pub apply_url : Option String
  pub posted_at : Option ℕ
  pub company : String
  pub title : String
  pub location : String

pub record PostingSource : Type 0 where
  pub source : String
  pub source_kind : SourceKind
  pub source_url : String
  pub publisher_id : Option String
  pub apply_url : Option String
  pub priority : ℕ
  pub posted_at : Option ℕ

abbrev pub Ids : Type 0
Ids = List (String × String)

pub record Group : Type 0 where
  pub key : String
  pub company_norm : String
  pub title_norm : String
  pub location_key : String
  pub is_remote : Bool
  pub sources : List PostingSource
  pub publisher_ids : Ids
  pub urls : List String

-- `urls_of` are the addresses of a posting's page, none or one; `job_id` is the requisition in the address of a Greenhouse
-- posting.
pub record Feed : Type 0 where
  pub normalize_company : String → String
  pub normalize_title : String → String
  pub normalize_location : String → NormalizedLocation
  pub tokens : String → List String
  pub canonical_source_url : String → String
  pub urls_of : String → List String
  pub job_id : String → Option String
  pub http_url : Option String → Option String
  pub key_of : String → String → String → Option (String × String) → String
  pub before : String → String → Bool

abbrev falsy : Option String → Bool
falsy none = true
falsy (some s) = str_eq s ""

unfoldable pub location_key : NormalizedLocation → String
location_key at =
    if at.is_remote
    then "remote"
    else if falsy at.city_norm && falsy at.state && falsy at.country
    then "unknown"
    else "onsite|"
      <> (or_else at.city_norm ""
          <> ("|" <> (or_else at.state "" <> ("|" <> or_else at.country ""))))

abbrev pub get : String → Ids → Option String
get k [] = none
get k ((j, v) ∷ rest) = if str_eq j k then some v else get k rest

unfoldable pub put : String → String → Ids → Ids
put k v [] = (k, v) ∷ []
put k v ((j, w) ∷ rest) =
    let later = put k v rest in if str_eq j k then (j, v) ∷ rest else (j, w) ∷ later

unfoldable pub put_all : Ids → Ids → Ids
put_all [] ids = ids
put_all ((k, v) ∷ rest) ids = put_all rest (put k v ids)

abbrev pub among : List String → String → Bool
among l s = any (str_eq s) l

-- A set in the order of insertion.
unfoldable pub add_all : List String → List String → List String
add_all [] set = set
add_all (s ∷ rest) set = add_all rest (if among set s then set else set ++ (s ∷ []))

abbrev pub is_ats : SourceKind → Bool
is_ats ats = true
is_ats _ = false

unfoldable pub nonempty : String → Option String
nonempty s = if str_eq s "" then none else some s

abbrev pub first_some : Option String → Option String → Option String
first_some none b = b
first_some (some a) b = some a

abbrev pub truthy : Option String → Option String
truthy none = none
truthy (some s) = if str_eq s "" then none else some s

unfoldable pub publisher_id_of : Feed → RawPosting → Option String
unfolding nonempty
publisher_id_of feed raw =
    if not (str_eq raw.publisher_id "")
    then some raw.publisher_id
    else if not (is_ats raw.source_kind)
    then none
    else first_some
        (if str_eq raw.source "greenhouse" then truthy (feed.job_id raw.source_url) else none)
        (nonempty (feed.canonical_source_url raw.source_url))

abbrev pub differs : Option String → String → Bool
differs none id = false
differs (some other) id = not (str_eq other id)

unfoldable pub has_publisher_conflict : Group → Group → Bool
has_publisher_conflict a b = any (λ e. differs (get e.0 b.publisher_ids) e.1) a.publisher_ids

unfoldable pub shares_publisher_identity : Group → Group → Bool
shares_publisher_identity a b =
    if not (str_eq a.company_norm b.company_norm) || has_publisher_conflict a b
    then false
    else any (λ e. holds (str_eq e.1) (get e.0 b.publisher_ids)) a.publisher_ids
      || ((any (λ s. is_ats s.source_kind) a.sources || any (λ s. is_ats s.source_kind) b.sources)
          && any (among b.urls) a.urls)

-- `tokenSetRatio(a, b) >= least / 100`
unfoldable pub alike : Feed → (least : ℕ) → String → String → Bool
alike feed least a b =
    let left = add_all (feed.tokens a) [] in
    let right = add_all (feed.tokens b) [] in
    not (is_empty left || is_empty right)
    && leb (least * (length left + length right)) (100 * (2 * length (select (among right) left)))

unfoldable pub near_dupe : Feed → Group → Group → Bool
near_dupe feed a b =
    not (has_publisher_conflict a b)
    && str_eq a.company_norm b.company_norm
    && str_eq a.location_key b.location_key
    && alike feed 90 a.title_norm b.title_norm

abbrev pub bool_eq : Bool → Bool → Bool
bool_eq true b = b
bool_eq false b = not b

unfoldable pub remote_dupe : Feed → Group → Group → Bool
remote_dupe feed a b =
    not (has_publisher_conflict a b)
    && str_eq a.company_norm b.company_norm
    && not (bool_eq a.is_remote b.is_remote)
    && alike feed 95 a.title_norm b.title_norm
