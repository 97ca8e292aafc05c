-- ===== src/Board/Params/Reading.antt =====
-- lib/params.ts: `parseParams` and `href`.
use Prim.Native.String.{String, ◌++◌ as ◌<>◌}
use job_dashboard.Prelude.{
  ℕ, ltb, str_eq, Bool, true, false, not, ◌&&◌, ◌||◌, Option, none, some, List, [], ◌∷◌,
  if◌then◌else◌, is_some, or_else, holds,
}
use job_dashboard.Board.Chips.{Tab, design, engineering, Group, type, pay, mode, season, level}
use job_dashboard.Board.Params.{
  Numbers, Basis, employed, freelance, Value, absent, Raw, Params, max_safe, tab_text,
  posted_windows, vocab, join, short, first, collect, pick, pick_all, whole, is_badge,
}

unfoldable pub tab_of : Option String → Tab
tab_of none = design
tab_of (some s) = if str_eq s "engineering" then engineering else design

unfoldable pub basis_of : Tab → Option String → Option Basis
basis_of engineering raw = none
basis_of design none = some employed
basis_of design (some s) = if str_eq s "freelance" then some freelance else some employed

unfoldable pub badge_of : Option String → Option String
badge_of none = none
badge_of (some s) = if is_badge s then some s else none

unfoldable pub job_of : Numbers → Option String → Option ℕ
job_of numbers none = none
job_of numbers (some s) = if str_eq s "" then none else whole numbers s 1 max_safe

-- `Number(undefined)` is no number.
unfoldable pub page_of : Numbers → Option String → ℕ
page_of numbers none = 1
page_of numbers (some s) = or_else (whole numbers s 1 10000) 1

abbrev pub is_present : Value → Bool
is_present absent = false
is_present _ = true

-- Some filter is named, or all filters are called for by name.
unfoldable pub explicit : Raw → Bool
explicit raw =
    holds (λ s. str_eq s "all") (first raw.filters)
    || is_present raw.posted
    || is_present (raw.group type)
    || is_present (raw.group pay)
    || is_present (raw.group mode)
    || is_present (raw.group season)
    || is_present (raw.group level)
    || is_present raw.badge

abbrev pub nonempty : List String → Bool
nonempty [] = false
nonempty (s ∷ rest) = true

unfoldable pub has_filters : Params → Bool
has_filters p =
    is_some p.badge
    || is_some p.posted
    || nonempty p.type_set
    || nonempty p.pay_set
    || nonempty p.mode_set
    || nonempty p.season_set
    || nonempty p.level_set

-- The parameters, without the mark of an intentional unfiltered view.
unfoldable pub read_params : Numbers → Raw → Params
read_params numbers raw =
    let tab = tab_of (first raw.tab) in
    let basis = basis_of tab (first raw.basis) in
    let set =
      λ (group : Group). pick_all (short (collect (raw.group group))) (vocab tab group basis) in
    record {
      tab = tab;
      basis = basis;
      posted = pick (short (first raw.posted)) posted_windows;
      type_set = set type;
      pay_set = set pay;
      mode_set = set mode;
      season_set = set season;
      level_set = set level;
      badge = badge_of (first raw.badge);
      job = job_of numbers (first raw.job);
      page = page_of numbers (first raw.page);
      unfiltered = false;
    }

-- `parseParams`
unfoldable pub parse_params : Numbers → Raw → Params
parse_params numbers raw =
    let p = read_params numbers raw in record p { unfiltered = explicit raw && not (has_filters p) }

abbrev pub listed : List String → Option String
listed [] = none
listed (w ∷ rest) = some (join (w ∷ rest))

abbrev pub tab_slot : Tab → Option String
tab_slot tab = if str_eq (tab_text tab) "design" then none else some (tab_text tab)

abbrev pub mark_slot : Bool → Option String
mark_slot mark = if mark then some "all" else none

abbrev pub page_slot : Numbers → ℕ → Option String
page_slot numbers n = if ltb 1 n then some (numbers.text_of n) else none

abbrev pub basis_slot : Option Basis → Option String
basis_slot none = none
basis_slot (some employed) = none
basis_slot (some freelance) = some "freelance"

abbrev pub job_slot : Numbers → Option ℕ → Option String
job_slot numbers none = none
job_slot numbers (some n) = some (numbers.text_of n)

-- A slot for each key of `href`, in its order; the keys whose slot is empty are not set.
unfoldable pub slots : Numbers → Params → List (String × Option String)
slots numbers p =
    ("tab", tab_slot p.tab)
    ∷ ("basis", basis_slot p.basis)
    ∷ ("filters", mark_slot (p.unfiltered && not (has_filters p)))
    ∷ ("posted", p.posted)
    ∷ ("type", listed p.type_set)
    ∷ ("pay", listed p.pay_set)
    ∷ ("mode", listed p.mode_set)
    ∷ ("season", listed p.season_set)
    ∷ ("level", listed p.level_set)
    ∷ ("badge", p.badge)
    ∷ ("job", job_slot numbers p.job)
    ∷ ("page", page_slot numbers p.page)
    ∷ []

unfoldable pub present : List (String × Option String) → List (String × String)
present [] = []
present ((key, none) ∷ rest) = present rest
present ((key, some value) ∷ rest) = (key, value) ∷ present rest

-- The pairs that `href` writes after the question mark.
unfoldable pub query : Numbers → Params → List (String × String)
query numbers p = present (slots numbers p)

unfoldable pub href : Numbers → (List (String × String) → String) → Params → String
href numbers to_text p = let s = to_text (query numbers p) in if str_eq s "" then "/" else "/?" <> s
