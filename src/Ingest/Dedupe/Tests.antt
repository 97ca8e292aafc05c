-- ===== src/Ingest/Dedupe/Tests.antt =====
-- A batch of two requisitions of one publisher, one of them copied by an aggregator.
use Prim.Native.String.{String, ◌++◌ as ◌<>◌}
use job_dashboard.Prelude.{
  ℕ, ◌≡◌, refl, false, true, str_eq, Option, none, some, List, [], ◌∷◌, any, select, map, length,
  or_else,
}
use job_dashboard.Ingest.Dedupe.Merging.{
  same_record, collapsed_with, collapse_into, collapse_source_urls, dates, min_of, winner,
  materialize, dedupe_postings, DedupedPosting,
}
use job_dashboard.Ingest.Dedupe.Passes.{
  source_le, insert_by, sort_by, best_source, merged, settle, settle_all, merge_pass, source_of,
  group_of, join_group, group_by_key,
}
use job_dashboard.Ingest.Dedupe.{
  SourceKind, RawPosting, Group, Feed, location_key, put, put_all, add_all, publisher_id_of,
  nonempty, has_publisher_conflict, shares_publisher_identity, near_dupe, remote_dupe, alike,
  source_priority,
}
use job_dashboard.Ingest.Dedupe.Dates.{own_sources, materialize-posted_at}
use job_dashboard.Ingest.Dedupe.Requisitions.{is_mixed, is_mixed-dedupe_postings}

abbrev who_text : Option (String × String) → String
who_text none = ""
who_text (some (source, id)) = "#" <> (source <> ("#" <> id))

abbrev feed : Feed
feed = record {
  normalize_company = λ s. s;
  normalize_title = λ s. s;
  normalize_location = λ s. record {
    city_norm = some s;
    state = none;
    country = none;
    is_remote = str_eq s "Remote";
  };
  tokens = λ s. s ∷ [];
  canonical_source_url = λ s. s;
  urls_of = λ s. s ∷ [];
  job_id = λ s. none;
  http_url = λ s. s;
  key_of = λ company title place identity.
      company <> ("," <> (title <> ("," <> (place <> who_text identity))));
  before = λ a b. false;
}

abbrev posting : String → SourceKind → String → String → ℕ → String → RawPosting
posting source kind url id date place = record {
  source = source;
  source_kind = kind;
  source_url = url;
  publisher_id = id;
  apply_url = none;
  posted_at = some date;
  company = "acme";
  title = "designer";
  location = place;
}

abbrev batch : List RawPosting
batch =
    posting "greenhouse" SourceKind.ats "acme/11" "11" 500 "Berlin"
    ∷ posting "remoteok" SourceKind.aggregator "ok/7" "7" 100 "Remote"
    ∷ posting "greenhouse" SourceKind.ats "acme/22" "22" 600 "Berlin"
    ∷ []

-- The copy, of an older date, joins the first requisition, and the second stands alone.
deduped :
    map {B = ℕ × ℕ}
      (λ (p : DedupedPosting). (length p.sources, p.posted_at))
      (dedupe_postings feed 900 batch)
    ≡ (2, 500) ∷ (1, 600) ∷ []
unfolding location_key put put_all add_all publisher_id_of nonempty has_publisher_conflict
    shares_publisher_identity near_dupe remote_dupe alike source_le source_priority insert_by
    sort_by best_source merged settle settle_all merge_pass source_of group_of join_group
    group_by_key same_record collapsed_with collapse_into collapse_source_urls dates min_of winner
    materialize dedupe_postings any select
deduped = refl

is_mixed-dedupe_postings_example : any is_mixed (dedupe_postings feed 900 batch) ≡ false
unfolding any group_of location_key publisher_id_of nonempty
is_mixed-dedupe_postings_example = is_mixed-dedupe_postings feed 900 batch refl

abbrev group : Group
group = record {
  key = "k";
  company_norm = "acme";
  title_norm = "designer";
  location_key = "remote";
  is_remote = true;
  sources =
      record {
        source = "remoteok";
        source_kind = SourceKind.aggregator;
        source_url = "ok/7";
        publisher_id = some "7";
        apply_url = none;
        priority = 2;
        posted_at = some 100;
      }
      ∷ record {
        source = "greenhouse";
        source_kind = SourceKind.ats;
        source_url = "acme/11";
        publisher_id = some "11";
        apply_url = none;
        priority = 1;
        posted_at = some 500;
      }
      ∷ [];
  publisher_ids = ("remoteok", "7") ∷ ("greenhouse", "11") ∷ [];
  urls = [];
}

materialize-posted_at_example :
    let p = materialize feed 900 group in
    p.posted_at
    ≡ or_else (min_of (dates (own_sources p.sources))) (or_else (min_of (dates p.sources)) 900)
materialize-posted_at_example = materialize-posted_at feed 900 group
