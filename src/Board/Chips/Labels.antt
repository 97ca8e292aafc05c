-- ===== src/Board/Chips/Labels.antt =====
-- lib/chips.ts: one label, one chip, and the first of them.
use job_dashboard.Prelude.{
  ◌≡◌, refl, String, str_eq, eq_iff, Bool, true, false, List, [], ◌∷◌, find, any, Bool-cases, inl,
  inr, subst,
}
use job_dashboard.Board.Chips.{ChipRow, Tab, Chip, all_chips, has, unseen, row_chips}

-- Whether a chip carries the label.
abbrev pub labelled : String → Chip → Bool
labelled value chip = str_eq chip.value value

-- No two chips carry the same label.
abbrev pub Distinct : List Chip → Type 0
Distinct [] = Unit {0}
Distinct (chip ∷ rest) = (any (labelled chip.value) rest ≡ false) × Distinct rest

same_label : (a b : String) → str_eq a b ≡ true → a ≡ b
same_label a b h = (eq_iff a b).0 h

unseen_absent :
    (value : String) (seen : List String) (chips : List Chip)
    → has seen value ≡ true
    → any (labelled value) (unseen seen chips) ≡ false
unfolding any unseen
unseen_absent value seen [] h = refl
unseen_absent value seen (chip ∷ rest) h = elim (Bool-cases (has seen chip.value)) [
  | inl old ↦ rw old (unseen_absent value seen rest h)
  | inr new ↦
      rw new
        (other (str_eq chip.value value) refl new (unseen_absent value (chip.value ∷ seen) rest))
]
  where
    other :
        (b : Bool)
        → str_eq chip.value value ≡ b
        → has seen chip.value ≡ false
        → (has (chip.value ∷ seen) value ≡ true
            → any (labelled value) (unseen (chip.value ∷ seen) rest) ≡ false)
        → any (labelled value) (chip ∷ unseen (chip.value ∷ seen) rest) ≡ false
    other true e new k = absurd (clash (rw (same_label chip.value value e) at new) h)
      where
        clash : has seen value ≡ false → has seen value ≡ true → ⊥
        clash p q = cc
    other false e new k = rw e (k (rw e h))

own_label : (value : String) (seen : List String) → has (value ∷ seen) value ≡ true
own_label value seen = rw ((eq_iff value value).1 refl) refl

unseen-Distinct : (seen : List String) (chips : List Chip) → Distinct (unseen seen chips)
unfolding unseen
unseen-Distinct seen [] = tt
unseen-Distinct seen (chip ∷ rest) = elim (Bool-cases (has seen chip.value)) [
  | inl old ↦ rw old (unseen-Distinct seen rest)
  | inr new ↦ rw new (
    unseen_absent chip.value (chip.value ∷ seen) rest (own_label chip.value seen),
    unseen-Distinct (chip.value ∷ seen) rest,
  )
]

find-unseen :
    (value : String) (seen : List String) (chips : List Chip)
    → has seen value ≡ false
    → find (labelled value) (unseen seen chips) ≡ find (labelled value) chips
unfolding unseen find
find-unseen value seen [] h = refl
find-unseen value seen (chip ∷ rest) h = elim (Bool-cases (has seen chip.value)) [
  | inl old ↦
      let other : str_eq chip.value value ≡ false = differs old (str_eq chip.value value) refl in
      rw (old, other) (find-unseen value seen rest h)
  | inr new ↦
      rw new (kept (str_eq chip.value value) refl (find-unseen value (chip.value ∷ seen) rest))
]
  where
    differs :
        has seen chip.value ≡ true
        → (b : Bool) → str_eq chip.value value ≡ b
        → str_eq chip.value value ≡ false
    differs old true e =
        let same : has seen value ≡ true =
          subst (λ v. has seen v ≡ true) (same_label chip.value value e) old in
        cc
    differs old false e = e

    kept :
        (b : Bool)
        → str_eq chip.value value ≡ b
        → (has (chip.value ∷ seen) value ≡ false
            → find (labelled value) (unseen (chip.value ∷ seen) rest) ≡ find (labelled value) rest)
        → find (labelled value) (chip ∷ unseen (chip.value ∷ seen) rest)
          ≡ find (labelled value) (chip ∷ rest)
    kept true e k = rw e refl
    kept false e k = let h' : has (chip.value ∷ seen) value ≡ false = rw e h in rw e (k h')

-- No two chips of a row carry the same label.
pub row_chips-Distinct : (row : ChipRow) (tab : Tab) → Distinct (row_chips row tab)
unfolding row_chips
row_chips-Distinct row tab = unseen-Distinct [] (all_chips row tab)

-- Every label of a row is shown, on the first chip that carries it: that of a filter rather than that of a badge.
pub row_chips_keep_first :
    (row : ChipRow) (tab : Tab) (value : String)
    → find (labelled value) (row_chips row tab) ≡ find (labelled value) (all_chips row tab)
unfolding row_chips
row_chips_keep_first row tab value = find-unseen value [] (all_chips row tab) refl
