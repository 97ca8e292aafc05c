-- ===== src/Ingest/Dedupe/Dates.antt =====
-- lib/dedupe.ts: the date of a merged posting.
use job_dashboard.Prelude.{
  ℕ, ◌≤◌, ◌≡◌, refl, Option, none, some, List, [], ◌∷◌, select, or_else, Option-cases, Bool-cases,
  inl, inr, arith,
}
use job_dashboard.Ingest.Dedupe.Merging.{
  earliest, dates, min_of, at_least, materialize, collapse_source_urls,
}
use job_dashboard.Ingest.Dedupe.Passes.{sort_by, source_le}
use job_dashboard.Ingest.Dedupe.{PostingSource, is_ats, Feed, Group}

abbrev pub own_sources : List PostingSource → List PostingSource
own_sources xs = select (λ (s : PostingSource). is_ats s.source_kind) xs

-- The first is a date no later than the second, if that is one.
abbrev NoLater : Option ℕ → Option ℕ → Type 0
NoLater o none = Unit
NoLater none (some m) = ⊥
NoLater (some k) (some m) = k ≤ m

earliest-NoLater : (d o p : Option ℕ) → NoLater o p → NoLater (earliest d o) p
earliest-NoLater none o p h = h
earliest-NoLater (some d) none none h = tt
earliest-NoLater (some d) none (some m) h = absurd h
earliest-NoLater (some d) (some k) none h = tt
earliest-NoLater (some d) (some k) (some m) h = ground arith

both-NoLater : (d o p : Option ℕ) → NoLater o p → NoLater (earliest d o) (earliest d p)
both-NoLater none o p h = h
both-NoLater (some d) none none h = ground arith
both-NoLater (some d) none (some m) h = absurd h
both-NoLater (some d) (some k) none h = ground arith
both-NoLater (some d) (some k) (some m) h = ground arith

min-dates :
    (s : PostingSource) (rest : List PostingSource)
    → min_of (dates (s ∷ rest)) ≡ earliest s.posted_at (min_of (dates rest))
unfolding dates min_of
min-dates s rest = elim (Option-cases s.posted_at) [ inl e ↦ rw e refl | inr (d, e) ↦ rw e refl ]

own-NoLater :
    (xs : List PostingSource) → NoLater (min_of (dates xs)) (min_of (dates (own_sources xs)))
unfolding select
own-NoLater [] = unfold dates min_of in tt
own-NoLater (s ∷ xs) = elim (Bool-cases (is_ats s.source_kind)) [
  | inl own ↦
      rw (own, min-dates s xs, min-dates s (own_sources xs))
        (both-NoLater s.posted_at _ _ (own-NoLater xs))
  | inr other ↦ rw (other, min-dates s xs) (earliest-NoLater s.posted_at _ _ (own-NoLater xs))
]

floored :
    (o p : Option ℕ) (fallback : ℕ)
    → NoLater o p
    → at_least (or_else o fallback) p ≡ or_else p (or_else o fallback)
floored o none fallback h = refl
floored none (some m) fallback h = absurd h
floored (some k) (some m) fallback h = ground arith

-- The date of a merged posting is the earliest date of the applicant tracking systems among the sources that it lists, else
-- the earliest of any of these sources, else the fallback: no other source makes it older or younger than the systems say.
pub materialize-posted_at :
    (feed : Feed) (fallback : ℕ) (group : Group)
    → let p = materialize feed fallback group in
      p.posted_at
      ≡ or_else
          (min_of (dates (own_sources p.sources)))
          (or_else (min_of (dates p.sources)) fallback)
unfolding materialize
materialize-posted_at feed fallback group =
    let sources = sort_by (source_le feed) (collapse_source_urls feed group.sources []) in
    floored (min_of (dates sources)) (min_of (dates (own_sources sources))) fallback
      (own-NoLater sources)
