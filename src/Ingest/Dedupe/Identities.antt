-- ===== src/Ingest/Dedupe/Identities.antt =====
-- lib/dedupe.ts: the passes and the two ids that a publisher gives to two requisitions.
use Prim.Native.String.{String}
use job_dashboard.Prelude.{
  All-append, All-map, ◌≡◌, refl, str_eq, eq_iff, Bool, true, false, not, ◌&&◌, Option, none, some,
  List, [], ◌∷◌, All, any, holds, Bool-cases, inl, inr, arith,
}
use job_dashboard.Ingest.Dedupe.Passes.{
  insert_by, sort_by, merged, settle, settle_all, merge_pass, identity, group_of,
}
use job_dashboard.Ingest.Dedupe.{
  RawPosting, PostingSource, Ids, Group, Feed, get, put_all, has_publisher_conflict,
  shares_publisher_identity, near_dupe, remote_dupe, publisher_id_of,
}
use job_dashboard.Ingest.Dedupe.Ids.{Unique, put_all-Unique, put_all_old, put_all_new}

-- Two sources with two ids of one publisher.
abbrev pub clash : PostingSource → PostingSource → Bool
clash a b =
    str_eq a.source b.source
    && holds (λ i. holds (λ j. not (str_eq i j)) b.publisher_id) a.publisher_id

abbrev pub same_who : Option (String × String) → Option (String × String) → Bool
same_who none none = true
same_who (some (a, i)) (some (b, j)) = str_eq a b && str_eq i j
same_who _ _ = false

abbrev pub who : Feed → RawPosting → Option (String × String)
who feed raw = identity raw (publisher_id_of feed raw)

-- Two postings of one key whose publishers or ids are not the same.
abbrev pub collides : Feed → RawPosting → RawPosting → Bool
collides feed a b =
    str_eq (group_of feed a).key (group_of feed b).key && not (same_who (who feed a) (who feed b))

module _ {A : Type 0} where
  pub All-any : (p : A → Bool) (xs : List A) → any p xs ≡ false → All (λ x. p x ≡ false) xs
  unfolding any
  All-any p [] h = tt
  All-any p (x ∷ xs) h = (ground (arith, h), All-any p xs (ground (arith, h)))

  pub any-All : (p : A → Bool) (xs : List A) → All (λ x. p x ≡ false) xs → any p xs ≡ false
  unfolding any
  any-All p [] h = refl
  any-All p (x ∷ xs) h = ground (arith, h.0, any-All p xs h.1)

  module _ (P : A → Type 0) where
    insert_by-All :
        (le : A → A → Bool) (x : A) (xs : List A) → P x → All P xs → All P (insert_by le x xs)
    unfolding insert_by
    insert_by-All le x [] px h = (px, tt)
    insert_by-All le x (y ∷ ys) px h = elim (Bool-cases (le x y)) [
      | inl e ↦ rw e (px, h)
      | inr e ↦ rw e (h.0, insert_by-All le x ys px h.1)
    ]

    pub sort_by-All : (le : A → A → Bool) (xs : List A) → All P xs → All P (sort_by le xs)
    unfolding sort_by
    sort_by-All le [] h = tt
    sort_by-All le (x ∷ xs) h = insert_by-All le x (sort_by le xs) h.0 (sort_by-All le xs h.1)

-- The id of a source is the one that the map gives its publisher.
abbrev pub Agrees : Ids → PostingSource → Type 0
Agrees ids s = (id : String) → s.publisher_id ≡ some id → get s.source ids ≡ some id

unclashed :
    (ids : Ids) (s t : String) (x y : Option String)
    → ((i : String) → x ≡ some i → get s ids ≡ some i)
    → ((j : String) → y ≡ some j → get t ids ≡ some j)
    → (str_eq s t && holds (λ i. holds (λ j. not (str_eq i j)) y) x) ≡ false
unclashed ids s t none y f g = ground arith
unclashed ids s t (some i) none f g = ground arith
unclashed ids s t (some i) (some j) f g = ground (arith, eq_iff s t, eq_iff i j, f i refl, g j refl)

pub agreed :
    (ids : Ids) (xs : List PostingSource)
    → All (Agrees ids) xs
    → any (λ a. any (clash a) xs) xs ≡ false
agreed ids xs h =
    any-All (λ a. any (clash a) xs) xs
      (All-map (Agrees ids) (λ a. any (clash a) xs ≡ false) xs
        (λ a ha. any-All (clash a) xs (
          All-map (Agrees ids) (λ b. clash a b ≡ false) xs
            (λ b hb. unclashed ids a.source b.source a.publisher_id b.publisher_id ha hb) h))
        h)

abbrev pub Sound : Group → Type 0
Sound g = Unique g.publisher_ids × All (Agrees g.publisher_ids) g.sources

merged-Sound :
    (k g : Group) → has_publisher_conflict k g ≡ false → Sound k → Sound g → Sound (merged k g)
unfolding merged has_publisher_conflict
merged-Sound k g free sk sg =
    let all = put_all g.publisher_ids k.publisher_ids in
    (
      put_all-Unique g.publisher_ids k.publisher_ids sk.0,
      All-append (Agrees all) k.sources g.sources
          (All-map (Agrees k.publisher_ids) (Agrees all) k.sources
            (λ s h i e. put_all_old k.publisher_ids g.publisher_ids sg.0 free s.source i (h i e))
            sk.1)
          (All-map (Agrees g.publisher_ids) (Agrees all) g.sources
            (λ s h i e. put_all_new k.publisher_ids g.publisher_ids sg.0 free s.source i (h i e))
            sg.1),
    )

-- A test for a pass that lets no two groups in conflict merge, and the pass.
module _ (can : Group → Group → Bool)
    (guards : (k g : Group) → can k g ≡ true → has_publisher_conflict k g ≡ false) where
  settle-Sound :
      (g : Group) (kept : List Group) → Sound g → All Sound kept → All Sound (settle can g kept)
  unfolding settle
  settle-Sound g [] s h = (s, tt)
  settle-Sound g (k ∷ kept) s h = elim (Bool-cases (can k g)) [
    | inl e ↦ rw e (merged-Sound k g (guards k g e) h.0 s, h.1)
    | inr e ↦ rw e (h.0, settle-Sound g kept s h.1)
  ]

  settle_all-Sound :
      (gs kept : List Group) → All Sound gs → All Sound kept → All Sound (settle_all can gs kept)
  unfolding settle_all
  settle_all-Sound [] kept s h = h
  settle_all-Sound (g ∷ gs) kept s h =
      settle_all-Sound gs (settle can g kept) s.1 (settle-Sound g kept s.0 h)

  pub merge_pass-Sound :
      (feed : Feed) (gs : List Group) → All Sound gs → All Sound (merge_pass feed can gs)
  unfolding merge_pass
  merge_pass-Sound feed gs s = settle_all-Sound _ [] (sort_by-All Sound _ gs s) tt

pub shares-guards :
    (k g : Group) → shares_publisher_identity k g ≡ true → has_publisher_conflict k g ≡ false
unfolding shares_publisher_identity
shares-guards k g h = ground (arith, h)

pub near_dupe-guards :
    (feed : Feed) (k g : Group) → near_dupe feed k g ≡ true → has_publisher_conflict k g ≡ false
unfolding near_dupe
near_dupe-guards feed k g h = ground (arith, h)

pub remote_dupe-guards :
    (feed : Feed) (k g : Group) → remote_dupe feed k g ≡ true → has_publisher_conflict k g ≡ false
unfolding remote_dupe
remote_dupe-guards feed k g h = ground (arith, h)
