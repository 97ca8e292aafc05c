-- ===== src/Board/Params/Writers/Flipped.antt =====
-- lib/params.ts: the sets that were parsed, and a set with one value turned round.
use Prim.Native.String.{String}
use job_dashboard.Prelude.{
  All-append, ◌+◌, ◌≤◌, str_eq, eq_iff, ◌≡◌, refl, ap, true, not, ◌||◌, Bool-cases, inl, inr,
  Option, none, some, List, [], ◌∷◌, ◌++◌, All, if◌then◌else◌, select, arith,
}
use job_dashboard.Board.Chips.{Tab, design, engineering, Group, type, pay, mode, season, level}
use job_dashboard.Board.Params.Reading.{tab_of, basis_of, parse_params, read_params}
use job_dashboard.Board.Params.{
  Numbers, Basis, tab_text, vocab, Raw, has, join, units, short, first, collect, pick_all,
}
use job_dashboard.Board.Params.Sets.{
  IsWord, All-has, total, total-select, All-select, has-select, picked, vocab-IsWord, vocab-total,
  reread,
}
use job_dashboard.Board.Params.Writers.{set_of, basis_value, same_group}

pub same_group_refl : (g : Group) → same_group g g ≡ true
unfolding same_group
same_group_refl type = refl
same_group_refl pay = refl
same_group_refl mode = refl
same_group_refl season = refl
same_group_refl level = refl

pub set_of-parse_params :
    (numbers : Numbers) (raw : Raw) (group : Group)
    → let p = parse_params numbers raw in
      set_of p group ≡ pick_all (short (collect (raw.group group))) (vocab p.tab group p.basis)
unfolding parse_params read_params set_of
set_of-parse_params numbers raw type = refl
set_of-parse_params numbers raw pay = refl
set_of-parse_params numbers raw mode = refl
set_of-parse_params numbers raw season = refl
set_of-parse_params numbers raw level = refl

pub tab-tab_text : (tab : Tab) → tab_of (some (tab_text tab)) ≡ tab
unfolding tab_of
tab-tab_text design = refl
tab-tab_text engineering = refl

pub basis-basis_value :
    (tab : Tab) (raw : Option String)
    → basis_of tab (first (basis_value (basis_of tab raw))) ≡ basis_of tab raw
unfolding basis_of first
basis-basis_value design none = refl
basis-basis_value design (some s) = ground (arith, eq_iff s "freelance")
basis-basis_value engineering raw = refl

-- The words of a parsed set, their length, and their places in the vocabulary.
pub record IsDrawn (s allowed : List String) : Type 0 where
  words : All IsWord s
  fits : total s ≤ 100
  inside : (v : String) → has s v ≡ true → has allowed v ≡ true

pub pick_all-IsDrawn :
    (raw : Option String) (tab : Tab) (group : Group) (basis : Option Basis)
    → IsDrawn (pick_all raw (vocab tab group basis)) (vocab tab group basis)
pick_all-IsDrawn raw tab group basis =
    let allowed = vocab tab group basis in
    let (p, e) = picked raw allowed in
    rw e (record {
      words = All-select IsWord p allowed (vocab-IsWord tab group basis);
      fits = omega (arith, total-select p allowed, vocab-total tab group basis);
      inside = λ v h. ground (arith, has-select p allowed v, h);
    })

has-append : (s t : List String) (v : String) → has (s ++ t) v ≡ has s v || has t v
has-append [] t v = refl
has-append (x ∷ s) t v = ground (arith, has-append s t v)

total-append : (s t : List String) → total (s ++ t) ≡ total s + total t
total-append [] t = omega arith
total-append (x ∷ s) t = omega (arith, total-append s t)

units-lt-total : (s : List String) (v : String) → has s v ≡ true → units v + 1 ≤ total s
units-lt-total [] v h = absurd (cc)
units-lt-total (x ∷ s) v h = elim (Bool-cases (str_eq x v)) [
  | inl e ↦ omega (arith, ap units ((eq_iff x v).0 e))
  | inr e ↦ omega (arith, units-lt-total s v (ground (arith, e, h)))
]

abbrev pub flipped : List String → String → List String
flipped current value =
    if has current value
    then select (λ existing. not (str_eq existing value)) current
    else current ++ (value ∷ [])

module _ (current allowed : List String) (value : String) (h : has allowed value ≡ true)
    (set : IsDrawn current allowed) where
  has-flipped :
      (v : String)
      → has (flipped current value) v
        ≡ (if str_eq value v then not (has current v) else has current v)
  has-flipped v = elim (Bool-cases (has current value)) [
    | inl e ↦ rw e (
        ground (
          arith,
          has-select (λ existing. not (str_eq existing value)) current v,
          eq_iff v value,
          eq_iff value v,
        ))
    | inr e ↦ rw e (ground (arith, has-append current (value ∷ []) v, eq_iff value v))
  ]

  flipped-IsWord : All IsWord allowed → All IsWord (flipped current value)
  flipped-IsWord words = elim (Bool-cases (has current value)) [
    | inl e ↦ rw e (All-select IsWord (λ existing. not (str_eq existing value)) current set.words)
    | inr e ↦ rw e (
        All-append IsWord current (value ∷ []) set.words (All-has IsWord allowed value words h, tt))
  ]

  total-flipped : total allowed ≤ 100 → total (flipped current value) ≤ 200
  total-flipped bound = elim (Bool-cases (has current value)) [
    | inl e ↦
        rw e
          (omega (arith, total-select (λ existing. not (str_eq existing value)) current, set.fits))
    | inr e ↦ rw e (
        omega (
          arith,
          total-append current (value ∷ []),
          units-lt-total allowed value h,
          set.fits,
          bound,
        ))
  ]

  pub reread-flipped :
      All IsWord allowed
      → total allowed ≤ 100
      → (v : String)
      → has (pick_all (short (some (join (flipped current value)))) allowed) v
        ≡ (if str_eq value v then not (has current v) else has current v)
  reread-flipped words bound v =
      rw (reread (flipped current value) allowed (flipped-IsWord words) (total-flipped bound)) (
        ground (
          arith,
          has-select (has (flipped current value)) allowed v,
          has-flipped v,
          set.inside v,
          eq_iff value v,
          h,
        ))
