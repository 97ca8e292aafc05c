-- ===== src/Board/Params/Fields.antt =====
-- lib/params.ts: each field of the parameters is read again from what `href` writes of it.
use Prim.Native.String.{String}
use job_dashboard.Prelude.{
  ℕ, All, ◌≤◌, str_eq, eq_iff, ◌≡◌, refl, ap, Bool, true, false, Bool-cases, Option-cases, inl, inr,
  Option, none, some, List, [], ◌∷◌, find, arith,
}
use job_dashboard.Board.Chips.{Tab, design, engineering}
use job_dashboard.Board.Params.Reading.{
  tab_of, basis_of, badge_of, job_of, page_of, tab_slot, basis_slot, job_slot, page_slot,
}
use job_dashboard.Board.Params.{
  Numbers, max_safe, has, split, units, short, first, collect, value_of, pick, within, whole,
  posted_windows,
}
use job_dashboard.Board.Params.Sets.{All-has}

-- `String` and `Number` agree on the numbers that are written, and the empty text is zero to `Number`.
pub record RoundTrips (numbers : Numbers) : Type 0 where
  pub back : (n : ℕ) → n ≤ max_safe → numbers.number (numbers.text_of n) ≡ some n
  pub empty : numbers.number "" ≡ some 0

pub first-value_of : (o : Option String) → first (value_of o) ≡ o
unfolding first
first-value_of none = refl
first-value_of (some s) = refl

pub collect-value_of : (o : Option String) → collect (value_of o) ≡ o
unfolding collect
collect-value_of none = refl
collect-value_of (some s) = refl

pub tab-tab_slot : (tab : Tab) → tab_of (tab_slot tab) ≡ tab
unfolding tab_of
tab-tab_slot design = refl
tab-tab_slot engineering = refl

pub basis_again :
    (tab : Tab) (raw : Option String)
    → basis_of tab (basis_slot (basis_of tab raw)) ≡ basis_of tab raw
unfolding basis_of
basis_again design none = refl
basis_again design (some s) = ground (arith, eq_iff s "freelance")
basis_again engineering raw = refl

pub badge_again : (raw : Option String) → badge_of (badge_of raw) ≡ badge_of raw
unfolding badge_of
badge_again none = refl
badge_again (some s) = ground arith

windows_again : All (λ w. pick (short (some w)) posted_windows ≡ some w) posted_windows
unfolding pick short units split find
windows_again = (refl, (refl, (refl, (refl, tt))))

found-IsAllowed :
    (p : String → Bool) (l : List String) (w : String) → find p l ≡ some w → p w ≡ true
unfolding find
found-IsAllowed p [] w h = cc
found-IsAllowed p (x ∷ l) w h = ground (arith, found-IsAllowed p l w)

pub posted_again :
    (raw : Option String)
    → pick (short (pick raw posted_windows)) posted_windows ≡ pick raw posted_windows
posted_again raw = elim (Option-cases (pick raw posted_windows)) [
  | inl e ↦ rw e (unfold pick short in refl)
  | inr (w, e) ↦ rw e (
      All-has (λ v. pick (short (some v)) posted_windows ≡ some v) posted_windows w windows_again
        (allowed raw w e))
]
  where
    allowed :
        (raw : Option String) (w : String)
        → pick raw posted_windows ≡ some w
        → has posted_windows w ≡ true
    allowed none w h = unfold pick in ground arith
    allowed (some s) w h =
        unfold pick in ground (arith, found-IsAllowed (has posted_windows) (split s) w)

within_bounds :
    (min max : ℕ) (o : Option ℕ) (n : ℕ) → within min max o ≡ some n → (min ≤ n) × (n ≤ max)
within_bounds min max none n h = absurd (cc)
within_bounds min max (some m) n h = ground arith

within_again : (min max n : ℕ) → min ≤ n → n ≤ max → within min max (some n) ≡ some n
within_again min max n above below = ground arith

module _ (numbers : Numbers) (trips : RoundTrips numbers) where
  whole-text_of :
      (min max n : ℕ)
      → min ≤ n
      → n ≤ max
      → max ≤ max_safe
      → whole numbers (numbers.text_of n) min max ≡ some n
  unfolding whole
  whole-text_of min max n above below safe =
      rw (trips.back n (omega arith)) (within_again min max n above below)

  text_of-ne_empty : (n : ℕ) → 1 ≤ n → n ≤ max_safe → str_eq (numbers.text_of n) "" ≡ false
  text_of-ne_empty n above safe = elim (Bool-cases (str_eq (numbers.text_of n) "")) [
    | inl e ↦ ground (
      arith,
      eq_iff (numbers.text_of n) "",
      trips.back n safe,
      trips.empty,
      ap numbers.number ((eq_iff (numbers.text_of n) "").0 e),
    )
    | inr e ↦ e
  ]

  job_bounds :
      (raw : Option String) (n : ℕ) → job_of numbers raw ≡ some n → (1 ≤ n) × (n ≤ max_safe)
  unfolding job_of whole
  job_bounds none n h = absurd (cc)
  job_bounds (some s) n h = ground (arith, within_bounds 1 max_safe (numbers.number s) n)

  pub job_again :
      (raw : Option String)
      → job_of numbers (job_slot numbers (job_of numbers raw)) ≡ job_of numbers raw
  job_again raw = elim (Option-cases (job_of numbers raw)) [
    | inl e ↦ rw e (unfold job_of in refl)
    | inr (n, e) ↦
        let (above, safe) = job_bounds raw n e in
        rw e (
          unfold job_of in
          rw (text_of-ne_empty n above safe) (whole-text_of 1 max_safe n above safe (omega arith)))
  ]

  page_bounds : (raw : Option String) → (1 ≤ page_of numbers raw) × (page_of numbers raw ≤ 10000)
  unfolding page_of whole
  page_bounds none = omega arith
  page_bounds (some s) = elim (Option-cases (within 1 10000 (numbers.number s))) [
    | inl e ↦ rw e (omega arith)
    | inr (n, e) ↦ rw e (within_bounds 1 10000 (numbers.number s) n e)
  ]

  page_kept_lem : (n : ℕ) → 1 ≤ n → n ≤ 10000 → page_of numbers (page_slot numbers n) ≡ n
  unfolding page_of
  page_kept_lem n above below = ground (arith, whole-text_of 1 10000 n above below (omega arith))

  pub page_again :
      (raw : Option String)
      → page_of numbers (page_slot numbers (page_of numbers raw)) ≡ page_of numbers raw
  page_again raw = let (above, below) = page_bounds raw in page_kept_lem _ above below
