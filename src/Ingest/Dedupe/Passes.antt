-- ===== src/Ingest/Dedupe/Passes.antt =====
-- lib/dedupe.ts: the order of sources, the groups of keys and a pass that merges groups.
use Prim.Native.String.{String}
use job_dashboard.Prelude.{
  ℕ, ◌==◌, ltb, str_eq, Bool, true, not, ◌&&◌, ◌||◌, Option, none, some, List, [], ◌∷◌, ◌++◌,
  if◌then◌else◌, or_else,
}
use job_dashboard.Ingest.Dedupe.{
  source_priority, RawPosting, PostingSource, Ids, Group, Feed, location_key, put_all, add_all,
  publisher_id_of,
}

-- `orderableTime`: a date that is not finite comes last.
abbrev pub orderable_time : Option ℕ → ℕ
orderable_time t = or_else t 9007199254740991

-- `compareSources(a, b) <= 0`
unfoldable pub source_le : Feed → PostingSource → PostingSource → Bool
source_le feed a b =
    ltb a.priority b.priority
    || (a.priority == b.priority
        && (ltb (orderable_time a.posted_at) (orderable_time b.posted_at)
            || (orderable_time a.posted_at == orderable_time b.posted_at
                && not (feed.before b.source_url a.source_url))))

-- `sort`, which is stable.
module _ {A : Type 0} (le : A → A → Bool) where
  unfoldable pub insert_by : A → List A → List A
  insert_by x [] = x ∷ []
  insert_by x (y ∷ ys) = let later = insert_by x ys in if le x y then x ∷ y ∷ ys else y ∷ later

  unfoldable pub sort_by : List A → List A
  sort_by [] = []
  sort_by (x ∷ xs) = insert_by x (sort_by xs)

abbrev pub head : {A : Type 0} → List A → Option A
head [] = none
head (x ∷ xs) = some x

unfoldable pub best_source : Feed → Group → Option PostingSource
best_source feed g = head (sort_by (source_le feed) g.sources)

abbrev pub best_le : Feed → Option PostingSource → Option PostingSource → Bool
best_le feed (some a) (some b) = source_le feed a b
best_le feed _ _ = true

unfoldable pub merged : Group → Group → Group
merged target group = record target {
  sources = target.sources ++ group.sources;
  publisher_ids = put_all group.publisher_ids target.publisher_ids;
  urls = add_all group.urls target.urls;
}

-- The first kept group that may take the group does; otherwise it is kept.
unfoldable pub settle : (Group → Group → Bool) → Group → List Group → List Group
settle can group [] = group ∷ []
settle can group (k ∷ rest) =
    let later = settle can group rest in if can k group then merged k group ∷ rest else k ∷ later

unfoldable pub settle_all : (Group → Group → Bool) → List Group → List Group → List Group
settle_all can [] kept = kept
settle_all can (g ∷ rest) kept = settle_all can rest (settle can g kept)

unfoldable pub merge_pass : Feed → (Group → Group → Bool) → List Group → List Group
merge_pass feed can groups =
    settle_all can (sort_by (λ a b. best_le feed (best_source feed a) (best_source feed b)) groups)
      []

unfoldable pub source_of : Feed → RawPosting → PostingSource
source_of feed raw = record {
  source = raw.source;
  source_kind = raw.source_kind;
  source_url = raw.source_url;
  publisher_id = publisher_id_of feed raw;
  apply_url = raw.apply_url;
  priority = source_priority raw.source_kind;
  posted_at = raw.posted_at;
}

abbrev pub identity : RawPosting → Option String → Option (String × String)
identity raw none = none
identity raw (some id) = some (raw.source, id)

abbrev pub ids_of : Option (String × String) → Ids
ids_of none = []
ids_of (some e) = e ∷ []

unfoldable pub group_of : Feed → RawPosting → Group
group_of feed raw =
    let who = identity raw (publisher_id_of feed raw) in
    let company = feed.normalize_company raw.company in
    let title = feed.normalize_title raw.title in
    let location = feed.normalize_location raw.location in
    record {
      key = feed.key_of company title (location_key location) who;
      company_norm = company;
      title_norm = title;
      location_key = location_key location;
      is_remote = location.is_remote;
      sources = source_of feed raw ∷ [];
      publisher_ids = ids_of who;
      urls = add_all (feed.urls_of raw.source_url) [];
    }

-- A posting joins the group of its key, or begins one.
unfoldable pub join_group : Group → List Group → List Group
join_group new [] = new ∷ []
join_group new (g ∷ rest) =
    let later = join_group new rest in
    if str_eq g.key new.key
    then record g { sources = g.sources ++ new.sources; urls = add_all new.urls g.urls } ∷ rest
    else g ∷ later

unfoldable pub group_by_key : Feed → List RawPosting → List Group → List Group
group_by_key feed [] groups = groups
group_by_key feed (raw ∷ rest) groups =
    group_by_key feed rest (join_group (group_of feed raw) groups)
