-- ===== src/Application/Safety/Rules/Rows.antt =====
-- Rows found, selected and updated: `select` and `update` with a condition.
use job_dashboard.Prelude.{
  ◌≡◌, refl, sym, ◌∙◌, ap, subst, inl, inr, Bool, true, some, List, [], ◌∷◌, arith, select, find,
  update_where, Bool-cases,
}
use job_dashboard.Application.Rows.{Application}
use job_dashboard.Application.Safety.Evolution.{Evolves, Evolves-refl, Evolved, Evolved-refl, IsIn}

-- Rows found and selected.
pub find-IsIn :
    (p : Application → Bool) (xs : List Application) (row : Application)
    → find p xs ≡ some row
    → IsIn row xs
unfolding find
find-IsIn p [] row e = cc
find-IsIn p (x ∷ xs) row e = elim (Bool-cases (p x)) [
  | inl hit ↦ inl (ground arith)
  | inr miss ↦ inr (find-IsIn p xs row (ground arith))
]

pub find_holds :
    (p : Application → Bool) (xs : List Application) (row : Application)
    → find p xs ≡ some row
    → p row ≡ true
unfolding find
find_holds p [] row e = cc
find_holds p (x ∷ xs) row e = ground (arith, find_holds p xs row)

pub select-IsIn :
    (p : Application → Bool) (xs : List Application) (row : Application)
    → IsIn row xs
    → p row ≡ true
    → IsIn row (select p xs)
unfolding select
select-IsIn p [] row m h = m
select-IsIn p (x ∷ xs) row (inl e) h = rw (sym (ap p e) ∙ h) (inl e)
select-IsIn p (x ∷ xs) row (inr m) h = elim (Bool-cases (p x)) [
  | inl hit ↦ rw hit (inr (select-IsIn p xs row m h))
  | inr miss ↦ rw miss (select-IsIn p xs row m h)
]

pub select_only :
    (p : Application → Bool) (xs : List Application) (row old : Application)
    → IsIn row xs
    → p row ≡ true
    → select p xs ≡ old ∷ []
    → old ≡ row
select_only p xs row old m h e = go (subst (IsIn row) e (select-IsIn p xs row m h))
  where
    go : IsIn row (old ∷ []) → old ≡ row
    go (inl q) = sym q
    go (inr q) = absurd q

pub update_none :
    (p : Application → Bool) (set : Application → Application) (xs : List Application)
    → select p xs ≡ []
    → update_where p set xs ≡ xs
unfolding select update_where
update_none p set [] e = refl
update_none p set (x ∷ xs) e = ground (arith, update_none p set xs)

pub update-Evolved :
    (p : Application → Bool) (set : Application → Application) (xs : List Application)
    (row : Application)
    → select p xs ≡ row ∷ []
    → Evolves row (set row)
    → Evolved xs (update_where p set xs)
unfolding select update_where
update-Evolved p set [] row e ev = tt
update-Evolved p set (x ∷ xs) row e ev = elim (Bool-cases (p x)) [
  | inl hit ↦
      let e' : x ∷ select p xs ≡ row ∷ [] = rw hit at e in
      let same : x ≡ row = cc in
      let rest : select p xs ≡ [] = cc in
      rw (hit, update_none p set xs rest) (rw same ev, Evolved-refl xs)
  | inr miss ↦ rw miss (Evolves-refl x, update-Evolved p set xs row (rw miss at e) ev)
]

pub update-IsIn :
    (p : Application → Bool) (set : Application → Application) (xs : List Application)
    (row : Application)
    → IsIn row xs
    → p row ≡ true
    → IsIn (set row) (update_where p set xs)
unfolding update_where
update-IsIn p set [] row m h = m
update-IsIn p set (x ∷ xs) row (inl e) h = rw (sym (ap p e) ∙ h) (inl (ap set e))
update-IsIn p set (x ∷ xs) row (inr m) h = inr (update-IsIn p set xs row m h)

pub selected :
    (p : Application → Bool) (xs : List Application) (old : Application)
    → select p xs ≡ old ∷ []
    → IsIn old xs × (p old ≡ true)
unfolding select
selected p [] old e = cc
selected p (x ∷ xs) old e = elim (Bool-cases (p x)) [
  | inl hit ↦
      let e' : x ∷ select p xs ≡ old ∷ [] = rw hit at e in
      let same : old ≡ x = cc in (inl same, rw same hit)
  | inr miss ↦ let (m, h) = selected p xs old (rw miss at e) in (inr m, h)
]
