-- ===== src/Board/Params/Sets.antt =====
-- lib/params.ts: the texts of the sets of badges, written by `href` and read by `parseParams`.
use Prim.Native.String.{String, ◌++◌ as ◌<>◌}
use Prim.Native.Char.{code}
use text.Mathlib.TextPositions.{eq_refl}
use text.Mathlib.TextLemmas.{nil-append, cons-append, append-eq-nil_iff}
use job_dashboard.Prelude.{
  ℕ, subst, ◌+◌, ◌≤◌, ◌==◌, str_eq, eq_iff, ◌≡◌, refl, sym, ap, ◌∙◌, Bool, true, false, not, ◌&&◌,
  Bool-cases, inl, inr, Option, none, some, List, [], ◌∷◌, All, select, arith,
}
use job_dashboard.Board.Chips.{Tab, design, engineering, Group, type, pay, mode, season, level}
use job_dashboard.Board.Params.Reading.{listed}
use job_dashboard.Board.Params.{
  Basis, employed, freelance, vocab, has, join, split, units, short, pick_all,
}

-- A text without a comma that is not empty.
abbrev pub is_plain : String → Bool
is_plain String.[] = true
is_plain (String.◌∷◌ c s) = not (code c == b',') && is_plain s

abbrev pub IsWord : String → Type 0
IsWord w = (is_plain w ≡ true) × (str_eq w "" ≡ false)

-- The list of `has` within another.
abbrev Within : List String → List String → Type 0
Within l m = (x : String) → has l x ≡ true → has m x ≡ true

split_plain : (w : String) → is_plain w ≡ true → split w ≡ w ∷ []
unfolding split
split_plain String.[] h = refl
split_plain (String.◌∷◌ c s) h = ground (arith, split_plain s)

comma-cons : (s : String) → "," <> s ≡ String.◌∷◌ "," s
comma-cons s = cons-append "," "" s ∙ ap (String.◌∷◌ ",") (nil-append s)

split-comma : (w s : String) → is_plain w ≡ true → split (w <> ("," <> s)) ≡ w ∷ split s
unfolding split
split-comma String.[] s h = ap split (nil-append ("," <> s)) ∙ ap split (comma-cons s)
split-comma (String.◌∷◌ c w) s h =
    ap split (cons-append c w ("," <> s)) ∙ ground (arith, split-comma w s)

-- The words of a list of words come back from its text.
split-join :
    (w : String) (rest : List String) → All IsWord (w ∷ rest) → split (join (w ∷ rest)) ≡ w ∷ rest
unfolding join
split-join w [] h = split_plain w h.0.0
split-join w (v ∷ rest) h =
    split-comma w (join (v ∷ rest)) h.0.0 ∙ ap (λ (l : List String). w ∷ l) (split-join v rest h.1)

append-ne_empty : (w s : String) → str_eq w "" ≡ false → str_eq (w <> s) "" ≡ false
append-ne_empty w s h =
    ground (arith, eq_iff w "", eq_iff (w <> s) "", append-eq-nil_iff {p = w} {q = s})

join-ne_empty : (w : String) (rest : List String) → IsWord w → str_eq (join (w ∷ rest)) "" ≡ false
unfolding join
join-ne_empty w [] h = h.1
join-ne_empty w (v ∷ rest) h = append-ne_empty w _ h.1

units-append : (s t : String) → units (s <> t) ≡ units s + units t
unfolding units
units-append String.[] t = ap units (nil-append t) ∙ omega arith
units-append (String.◌∷◌ c s) t = ap units (cons-append c s t) ∙ ground (arith, units-append s t)

-- The units of the words and of a comma after each.
abbrev pub total : List String → ℕ
total [] = 0
total (w ∷ rest) = units w + 1 + total rest

units-join : (l : List String) → units (join l) ≤ total l
unfolding join
units-join [] = unfold units in omega arith
units-join (w ∷ []) = omega arith
units-join (w ∷ v ∷ rest) =
    let comma : units "," ≡ 1 = unfold units in refl in
    omega (
      arith,
      comma,
      units-append w ("," <> join (v ∷ rest)),
      units-append "," (join (v ∷ rest)),
      units-join (v ∷ rest),
    )

pub total-select : (p : String → Bool) (l : List String) → total (select p l) ≤ total l
unfolding select
total-select p [] = omega arith
total-select p (w ∷ rest) = ground (arith, total-select p rest)

pub All-select :
    (P : String → Type 0) (p : String → Bool) (l : List String) → All P l → All P (select p l)
unfolding select
All-select P p [] h = h
All-select P p (w ∷ rest) h = elim (Bool-cases (p w)) [
  | inl kept ↦ rw kept (h.0, All-select P p rest h.1)
  | inr dropped ↦ rw dropped (All-select P p rest h.1)
]

pub All-has : (P : String → Type 0) (l : List String) (w : String) → All P l → has l w ≡ true → P w
All-has P [] w all h = absurd (cc)
All-has P (x ∷ l) w all h = elim (Bool-cases (str_eq x w)) [
  | inl e ↦ subst P ((eq_iff x w).0 e) all.0
  | inr e ↦ All-has P l w all.1 (ground (arith, h, e))
]

pub has-select :
    (p : String → Bool) (l : List String) (x : String) → has (select p l) x ≡ has l x && p x
unfolding select
has-select p [] x = refl
has-select p (y ∷ l) x = ground (arith, eq_iff y x, has-select p l x)

select-Within :
    (p : String → Bool) (l m : List String) → Within l m → select (has (select p m)) l ≡ select p l
unfolding select
select-Within p [] m h = refl
select-Within p (y ∷ l) m h = ground (
  arith,
  eq_refl y,
  has-select p m y,
  h y,
  select-Within p l m (λ x in_l. h x (ground (arith, in_l))),
)

pub vocab-IsWord :
    (tab : Tab) (group : Group) (basis : Option Basis) → All IsWord (vocab tab group basis)
unfolding vocab
vocab-IsWord design type none = ground arith
vocab-IsWord design type (some employed) = ground arith
vocab-IsWord design type (some freelance) = ground arith
vocab-IsWord design level basis = ground arith
vocab-IsWord design season basis = tt
vocab-IsWord engineering type basis = ground arith
vocab-IsWord engineering level basis = ground arith
vocab-IsWord engineering season basis = ground arith
vocab-IsWord design pay basis = ground arith
vocab-IsWord design mode basis = ground arith
vocab-IsWord engineering pay basis = ground arith
vocab-IsWord engineering mode basis = ground arith

pub vocab-total :
    (tab : Tab) (group : Group) (basis : Option Basis) → total (vocab tab group basis) ≤ 100
unfolding vocab units
vocab-total design type none = omega arith
vocab-total design type (some employed) = omega arith
vocab-total design type (some freelance) = omega arith
vocab-total design level basis = omega arith
vocab-total design season basis = omega arith
vocab-total engineering type basis = omega arith
vocab-total engineering level basis = omega arith
vocab-total engineering season basis = omega arith
vocab-total design pay basis = omega arith
vocab-total design mode basis = omega arith
vocab-total engineering pay basis = omega arith
vocab-total engineering mode basis = omega arith

select_nothing : (l : List String) → select (λ _. false) l ≡ []
unfolding select
select_nothing [] = refl
select_nothing (x ∷ l) = select_nothing l

-- A set of words that is written is read as a selection of the allowed words.
pub reread :
    (s allowed : List String)
    → All IsWord s
    → total s ≤ 200
    → pick_all (short (some (join s))) allowed ≡ select (has s) allowed
unfolding pick_all short units join
reread [] allowed words fits = sym (select_nothing allowed)
reread (w ∷ rest) allowed words fits = ground (
  arith,
  units-join (w ∷ rest),
  join-ne_empty w rest,
  split-join w rest,
  ap (λ (l : List String). select (has l) allowed) (split-join w rest words),
)

pub reread_listed :
    (s allowed : List String)
    → All IsWord s
    → total s ≤ 200
    → pick_all (short (listed s)) allowed ≡ select (has s) allowed
reread_listed [] allowed words fits = unfold pick_all short in sym (select_nothing allowed)
reread_listed (w ∷ rest) allowed words fits = reread (w ∷ rest) allowed words fits

-- What `pickAll` takes is a selection of the allowed words.
pub picked :
    (raw : Option String) (allowed : List String)
    → (p : String → Bool) × (pick_all raw allowed ≡ select p allowed)
unfolding pick_all
picked none allowed = ((λ _. false), sym (select_nothing allowed))
picked (some raw) allowed = elim (Bool-cases (str_eq raw "")) [
  | inl e ↦ ((λ _. false), rw e (sym (select_nothing allowed)))
  | inr e ↦ (has (split raw), rw e)
]

pub pick_all_again :
    (raw : Option String) (tab : Tab) (group : Group) (basis : Option Basis)
    → pick_all (short (listed (pick_all raw (vocab tab group basis)))) (vocab tab group basis)
      ≡ pick_all raw (vocab tab group basis)
pick_all_again raw tab group basis =
    let allowed = vocab tab group basis in
    let (p, e) = picked raw allowed in
    rw e (
      reread_listed (select p allowed) allowed
        (All-select IsWord p allowed (vocab-IsWord tab group basis))
        (omega (arith, total-select p allowed, vocab-total tab group basis))
      ∙ select-Within p allowed allowed (λ x h. h))
