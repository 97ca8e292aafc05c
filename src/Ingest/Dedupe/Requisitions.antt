-- ===== src/Ingest/Dedupe/Requisitions.antt =====
-- lib/dedupe.ts: `dedupePostings` as a whole, and the requisitions of one publisher.
use Prim.Native.String.{String}
use text.Mathlib.TextPositions.{eq_refl}
use job_dashboard.Prelude.{
  All-append, All-map, ℕ, ◌≡◌, refl, sym, ap, ◌∙◌, subst, str_eq, eq_iff, Bool, true, false, Option,
  none, some, List, [], ◌∷◌, All, any, map, Bool-cases, inl, inr, arith, ltb,
}
use job_dashboard.Ingest.Dedupe.Merging.{
  same_record, collapsed_with, collapse_into, collapse_source_urls, materialize, DedupedPosting,
  dedupe_postings,
}
use job_dashboard.Ingest.Dedupe.Passes.{
  source_le, source_of, identity, ids_of, group_of, join_group, group_by_key,
}
use job_dashboard.Ingest.Dedupe.{
  RawPosting, PostingSource, Group, Feed, get, shares_publisher_identity, near_dupe, remote_dupe,
  publisher_id_of,
}
use job_dashboard.Ingest.Dedupe.Ids.{Unique}
use job_dashboard.Ingest.Dedupe.Identities.{
  clash, same_who, who, collides, All-any, sort_by-All, Agrees, agreed, Sound, merge_pass-Sound,
  shares-guards, near_dupe-guards, remote_dupe-guards,
}

same_who_lem : (a b : Option (String × String)) → same_who a b ≡ true → a ≡ b
same_who_lem none none h = refl
same_who_lem none (some b) h = cc
same_who_lem (some a) none h = cc
same_who_lem (some (a, i)) (some (b, j)) h = ground (arith, eq_iff a b, eq_iff i j, h)

source_of-Agrees :
    (feed : Feed) (raw : RawPosting) → Agrees (ids_of (who feed raw)) (source_of feed raw)
unfolding source_of
source_of-Agrees feed raw = found (publisher_id_of feed raw)
  where
    found :
        (x : Option String) (id : String)
        → x ≡ some id
        → get raw.source (ids_of (identity raw x)) ≡ some id
    found none id e = cc
    found (some i) id e = ground (arith, eq_refl raw.source, e)

-- The groups are those of keys of the batch.
module _ (feed : Feed) (P : RawPosting → Type 0)
    (apart : (r s : RawPosting) → P r → P s → collides feed r s ≡ false) where
  -- A posting of the group's key gives the group's ids.
  record Keyed (g : Group) : Type 0 where
    raw : RawPosting
    member : P raw
    key : g.key ≡ (group_of feed raw).key
    ids : g.publisher_ids ≡ ids_of (who feed raw)
    agrees : All (Agrees g.publisher_ids) g.sources

  group_of-Keyed : (raw : RawPosting) → P raw → Keyed (group_of feed raw)
  group_of-Keyed raw member = record {
    raw = raw;
    member = member;
    key = refl;
    ids = unfold group_of in refl;
    agrees = unfold group_of in (source_of-Agrees feed raw, tt);
  }

  same_ids :
      (g : Group) (k : Keyed g) (raw : RawPosting)
      → P raw
      → str_eq g.key (group_of feed raw).key ≡ true
      → g.publisher_ids ≡ ids_of (who feed raw)
  same_ids g k raw member e =
      k.ids
      ∙ ap ids_of (
          same_who_lem (who feed k.raw) (who feed raw) (
            ground (
              arith,
              apart k.raw raw k.member member,
              k.key,
              eq_iff g.key (group_of feed raw).key,
              eq_iff (group_of feed k.raw).key (group_of feed raw).key,
              e,
            )))

  join_group-Keyed :
      (raw : RawPosting) (gs : List Group)
      → P raw
      → All Keyed gs
      → All Keyed (join_group (group_of feed raw) gs)
  unfolding join_group
  join_group-Keyed raw [] member h = (group_of-Keyed raw member, tt)
  join_group-Keyed raw (g ∷ gs) member h =
      elim (Bool-cases (str_eq g.key (group_of feed raw).key)) [
        | inl e ↦ rw e (
          record {
            raw = h.0.raw;
            member = h.0.member;
            key = h.0.key;
            ids = h.0.ids;
            agrees =
                All-append (Agrees g.publisher_ids) g.sources (group_of feed raw).sources h.0.agrees
                  (unfold group_of in
                    (
                      subst (λ m. Agrees m (source_of feed raw)) (sym (same_ids g h.0 raw member e))
                          (source_of-Agrees feed raw),
                      tt,
                    ));
          },
          h.1,
        )
        | inr e ↦ rw e (h.0, join_group-Keyed raw gs member h.1)
      ]

  group_by_key-Keyed :
      (rest : List RawPosting) (gs : List Group)
      → All P rest
      → All Keyed gs
      → All Keyed (group_by_key feed rest gs)
  unfolding group_by_key
  group_by_key-Keyed [] gs m h = h
  group_by_key-Keyed (raw ∷ rest) gs m h =
      group_by_key-Keyed rest (join_group (group_of feed raw) gs) m.1
        (join_group-Keyed raw gs m.0 h)

  Keyed-Sound : (g : Group) → Keyed g → Sound g
  Keyed-Sound g k = (subst Unique (sym k.ids) (single (who feed k.raw)), k.agrees)
    where
      single : (x : Option (String × String)) → Unique (ids_of x)
      single none = tt
      single (some e) = (refl, tt)

module _ (feed : Feed) (batch : List RawPosting)
    (apart : any (λ r. any (collides feed r) batch) batch ≡ false) where
  -- A posting of the batch, to the others.
  abbrev Member : RawPosting → Type 0
  Member s =
      ((r : RawPosting) → All (λ t. collides feed r t ≡ false) batch → collides feed r s ≡ false)
      × All (λ t. collides feed s t ≡ false) batch

  members :
      (xs : List RawPosting)
      → All (λ r. any (collides feed r) batch ≡ false) xs
      → ((r : RawPosting)
          → All (λ t. collides feed r t ≡ false) batch
          → All (λ t. collides feed r t ≡ false) xs)
      → All Member xs
  members [] h f = tt
  members (x ∷ xs) h f = (
    (λ r all. (f r all).0, All-any (collides feed x) batch h.0),
    members xs h.1 (λ r all. (f r all).1),
  )

  group_by_key-Sound : All Sound (group_by_key feed batch [])
  group_by_key-Sound =
      let among : (r s : RawPosting) → Member r → Member s → collides feed r s ≡ false =
        λ r s mr ms. ms.0 r mr.1 in
      All-map (Keyed feed Member among) Sound _ (Keyed-Sound feed Member among) (
        group_by_key-Keyed feed Member among batch []
          (members batch (All-any (λ r. any (collides feed r) batch) batch apart) (λ r all. all))
          tt)

-- `collapseSourceUrls` keeps the publishers and the ids of the sources.
module _ (feed : Feed) (ids : List (String × String)) where
  collapsed_with-Agrees :
      (e s : PostingSource) → Agrees ids e → Agrees ids s → Agrees ids (collapsed_with e s)
  unfolding collapsed_with
  collapsed_with-Agrees e s he hs = elim (Bool-cases (ltb s.priority e.priority)) [
    | inl l ↦ rw l hs
    | inr l ↦ rw l he
  ]

  collapse_into-Agrees :
      (s : PostingSource) (xs : List PostingSource)
      → Agrees ids s
      → All (Agrees ids) xs
      → All (Agrees ids) (collapse_into feed s xs)
  unfolding collapse_into
  collapse_into-Agrees s [] hs h = (hs, tt)
  collapse_into-Agrees s (e ∷ xs) hs h = elim (Bool-cases (same_record feed e s)) [
    | inl l ↦ rw l (collapsed_with-Agrees e s h.0 hs, h.1)
    | inr l ↦ rw l (h.0, collapse_into-Agrees s xs hs h.1)
  ]

  collapse-Agrees :
      (xs kept : List PostingSource)
      → All (Agrees ids) xs
      → All (Agrees ids) kept
      → All (Agrees ids) (collapse_source_urls feed xs kept)
  unfolding collapse_source_urls
  collapse-Agrees [] kept h k = k
  collapse-Agrees (x ∷ xs) kept h k =
      collapse-Agrees xs (collapse_into feed x kept) h.1 (collapse_into-Agrees x kept h.0 k)

-- A posting that lists two ids of one publisher.
abbrev pub is_mixed : DedupedPosting → Bool
is_mixed p = any (λ a. any (clash a) p.sources) p.sources

map-unmixed :
    (feed : Feed) (fallback : ℕ) (gs : List Group)
    → All Sound gs
    → any is_mixed (map (materialize feed fallback) gs) ≡ false
unfolding any
map-unmixed feed fallback [] h = refl
map-unmixed feed fallback (g ∷ gs) h =
    let one : is_mixed (materialize feed fallback g) ≡ false =
      unfold materialize in
      agreed g.publisher_ids _ (
        sort_by-All (Agrees g.publisher_ids) (source_le feed) _
          (collapse-Agrees feed g.publisher_ids g.sources [] h.0.1 tt)) in
    ground (arith, one, map-unmixed feed fallback gs h.1)

-- Where no two postings of a batch with different publishers or ids have one key, the passes merge postings of different
-- publishers but never two requisitions of one: no posting that comes out lists two sources of one publisher with two ids.
pub is_mixed-dedupe_postings :
    (feed : Feed) (fallback : ℕ) (batch : List RawPosting)
    → any (λ r. any (collides feed r) batch) batch ≡ false
    → any is_mixed (dedupe_postings feed fallback batch) ≡ false
unfolding dedupe_postings
is_mixed-dedupe_postings feed fallback batch apart = map-unmixed feed fallback _ (
    merge_pass-Sound (remote_dupe feed) (remote_dupe-guards feed) feed _ (
      merge_pass-Sound (near_dupe feed) (near_dupe-guards feed) feed _ (
        merge_pass-Sound shares_publisher_identity shares-guards feed _
          (group_by_key-Sound feed batch apart))))
