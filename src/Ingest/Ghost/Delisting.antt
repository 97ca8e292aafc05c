-- ===== src/Ingest/Ghost/Delisting.antt =====
-- scripts/ghost.ts: only a source that answered completely ages a posting towards its delisting.
use job_dashboard.Prelude.{
  ℕ, ◌+◌, ◌==◌, ◌≡◌, refl, ◌∙◌, ap, ◌⊎◌, inl, inr, leb, String, Bool, true, false, not, ◌&&◌, ◌||◌,
  none, some, is_some, List, [], ◌∷◌, map, any, if◌then◌else◌, arith,
}
use job_dashboard.Ingest.Ghost.{
  PostingSource, Posting, ghost, linkcheck, Corpus, GhostOptions, ghost_absence_threshold, mine,
  seen_now, aged, of_posting, is_quiet, is_ghost_now, still_listed, to_delist, to_restore, by_ghost,
  delisted, restored, judged, pass, run_ghost_pass, GhostStats, no_stats,
}

-- A source whose row keeps a posting from being delisted: it was not asked this run and is below the threshold, or it was
-- asked and listed the posting, or it was asked and this is its first absence.
abbrev pub keeps_listed : GhostOptions → PostingSource → Bool
keeps_listed o s =
    if mine o s
    then seen_now o s || leb (s.absence_count + 2) ghost_absence_threshold
    else leb (s.absence_count + 1) ghost_absence_threshold

quiet-aged : (o : GhostOptions) (s : PostingSource) → not (is_quiet (aged o s)) ≡ keeps_listed o s
unfolding aged
quiet-aged o s = ground arith

same_posting :
    (o : GhostOptions) (id : ℕ) (s : PostingSource) → of_posting id (aged o s) ≡ of_posting id s
unfolding aged
same_posting o id s = ground arith

-- The posting has a source that keeps it.
abbrev pub kept : GhostOptions → List PostingSource → ℕ → Bool
kept o [] id = false
kept o (s ∷ rest) id = (of_posting id s && keeps_listed o s) || kept o rest id

still_listed-aged :
    (o : GhostOptions) (sources : List PostingSource) (id : ℕ)
    → still_listed (map (aged o) sources) id ≡ kept o sources id
unfolding still_listed any
still_listed-aged o [] id = refl
still_listed-aged o (s ∷ rest) id =
    rw (same_posting o id s, quiet-aged o s, still_listed-aged o rest id) refl

has_source-aged :
    (o : GhostOptions) (sources : List PostingSource) (id : ℕ)
    → any (of_posting id) (map (aged o) sources) ≡ any (of_posting id) sources
unfolding any
has_source-aged o [] id = refl
has_source-aged o (s ∷ rest) id = rw (same_posting o id s, has_source-aged o rest id) refl

-- What a pass is to make of a posting, told from the sources as they were before it.
abbrev pub verdict : GhostOptions → List PostingSource → Posting → Posting
verdict o sources p =
    if not (is_some p.delisted_at) && any (of_posting p.id) sources && not (kept o sources p.id)
    then record p { delisted_at = some o.now; delisted_reason = some ghost }
    else if by_ghost p.delisted_reason && kept o sources p.id
    then record p { delisted_at = none; delisted_reason = none }
    else p

judged_lem :
    (o : GhostOptions) (sources after : List PostingSource) (p : Posting) (has keep : Bool)
    → any (of_posting p.id) after ≡ has
    → still_listed after p.id ≡ keep
    → judged o after p ≡ (
        if not (is_some p.delisted_at) && has && not keep
        then record p { delisted_at = some o.now; delisted_reason = some ghost }
        else if by_ghost p.delisted_reason && keep
        then record p { delisted_at = none; delisted_reason = none }
        else p)
unfolding judged delisted restored to_delist to_restore is_ghost_now still_listed
judged_lem o sources after p has keep h k = ground arith

judged-verdict :
    (o : GhostOptions) (sources : List PostingSource) (p : Posting)
    → judged o (map (aged o) sources) p ≡ verdict o sources p
judged-verdict o sources p =
    judged_lem o sources (map (aged o) sources) p _ _ (has_source-aged o sources p.id)
      (still_listed-aged o sources p.id)

both_updates :
    (o : GhostOptions) (sources : List PostingSource) (ps : List Posting)
    → map (restored (map (aged o) sources)) (map (delisted o (map (aged o) sources)) ps)
      ≡ map (verdict o sources) ps
unfolding judged
both_updates o sources [] = refl
both_updates o sources (p ∷ ps) =
    rw (both_updates o sources ps)
      (ap (λ q. q ∷ map (verdict o sources) ps) (judged-verdict o sources p))

-- With at least one eligible connector, a pass delists, under its own reason, exactly the listed postings that have a source
-- and none that keeps them; lists again exactly those that a pass had delisted and that a source keeps; and leaves every
-- other posting as it is.
pub run_ghost_pass-verdict :
    (o : GhostOptions) (c : Corpus) (name : String) (rest : List String)
    → o.ok_connectors ≡ name ∷ rest
    → (run_ghost_pass o c).1.postings ≡ map (verdict o c.sources) c.postings
unfolding run_ghost_pass pass
run_ghost_pass-verdict o c name rest e =
    ap
      (λ names.
        (elim names as (λ _. GhostStats × Corpus) [
          | [] ↦ (no_stats, c)
          | ◌∷◌ n r ↦ pass o c
        ]).1.postings)
      e
    ∙ both_updates o c.sources c.postings

kept_of :
    (o : GhostOptions) (id : ℕ) (sources : List PostingSource)
    → any (λ s. of_posting id s && (s.absence_count == 0 || (mine o s && seen_now o s))) sources
      ≡ true
    → kept o sources id ≡ true
unfolding any
kept_of o id [] h = cc
kept_of o id (s ∷ rest) h = ground (arith, kept_of o id rest)

-- A listed posting that has a source with no absence so far, or one that was asked and listed it in this run, stays listed;
-- and a posting that the link check delisted stays as it is.
pub verdict_spares :
    (o : GhostOptions) (sources : List PostingSource) (p : Posting)
    → (p.delisted_at ≡ none)
        × (any
              (λ s. of_posting p.id s && (s.absence_count == 0 || (mine o s && seen_now o s)))
              sources
            ≡ true)
      ⊎ ((is_some p.delisted_at ≡ true) × (p.delisted_reason ≡ some linkcheck))
    → (judged o (map (aged o) sources) p).delisted_at ≡ p.delisted_at
verdict_spares o sources p h =
    ap (λ (q : Posting). q.delisted_at) (judged-verdict o sources p) ∙ spared h
  where
    spared :
        (p.delisted_at ≡ none)
            × (any
                  (λ s. of_posting p.id s && (s.absence_count == 0 || (mine o s && seen_now o s)))
                  sources
                ≡ true)
          ⊎ ((is_some p.delisted_at ≡ true) × (p.delisted_reason ≡ some linkcheck))
        → (verdict o sources p).delisted_at ≡ p.delisted_at
    spared (inl (listed, by)) = let k = kept_of o p.id sources by in ground (arith, listed, k)
    spared (inr (gone, why)) = ground (arith, gone, why)
