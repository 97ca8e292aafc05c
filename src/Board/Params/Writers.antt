-- ===== src/Board/Params/Writers.antt =====
-- lib/params.ts: the writers of a link. Each makes the parameters it leads to, which `href` writes.
use Prim.Native.String.{String}
use job_dashboard.Prelude.{
  ℕ, str_eq, Bool, true, false, not, Option, none, some, List, [], ◌∷◌, ◌++◌, if◌then◌else◌, select,
}
use job_dashboard.Board.Chips.{Tab, Group, type, pay, mode, season, level}
use job_dashboard.Board.Params.Reading.{parse_params, listed, href}
use job_dashboard.Board.Params.{
  Numbers, Basis, tab_text, basis_text, Params, Value, absent, text, value_of, Raw, has, join,
}
pub mod Flipped
pub mod Toggled

-- `Filter | 'badge'`
pub data Filter : Type 0 where
  posted badge : Filter
  badges : Group → Filter

-- `p[group]`
unfoldable pub set_of : Params → Group → List String
set_of p type = p.type_set
set_of p pay = p.pay_set
set_of p mode = p.mode_set
set_of p season = p.season_set
set_of p level = p.level_set

abbrev pub basis_value : Option Basis → Value
basis_value none = absent
basis_value (some basis) = text (basis_text basis)

-- `toRaw`
unfoldable pub to_raw : Params → Raw
unfolding set_of
to_raw p = record {
  tab = text (tab_text p.tab);
  basis = basis_value p.basis;
  posted = value_of p.posted;
  group = λ group. value_of (listed (set_of p group));
  badge = value_of p.badge;
  job = absent;
  page = absent;
  filters = if p.unfiltered then text "all" else absent;
}

unfoldable pub same_group : Group → Group → Bool
same_group type type = true
same_group pay pay = true
same_group mode mode = true
same_group season season = true
same_group level level = true
same_group _ _ = false

-- `{ ...raw, [filter]: value }`
unfoldable pub set_filter : Filter → String → Raw → Raw
unfolding same_group
set_filter posted s raw = record raw { posted = text s }
set_filter badge s raw = record raw { badge = text s }
set_filter (badges group) s raw = record raw {
  group = λ g. if same_group group g then text s else raw.group g;
}

-- A text is a list of one.
abbrev pub chosen : Option (List String) → String
chosen none = ""
chosen (some values) = join values

unfoldable pub filtered : Numbers → Params → Filter → Option (List String) → Params
filtered numbers p filter value = parse_params numbers (set_filter filter (chosen value) (to_raw p))

unfoldable pub toggled : Numbers → Params → Group → String → Params
toggled numbers p group value =
    let current = set_of p group in
    let next =
      if has current value
      then select (λ existing. not (str_eq existing value)) current
      else current ++ (value ∷ []) in
    filtered numbers p (badges group) (some next)

unfoldable pub on_tab : Numbers → Params → Tab → Params
on_tab numbers p tab =
    let raw = to_raw p in parse_params numbers (record raw { tab = text (tab_text tab) })

unfoldable pub on_basis : Numbers → Params → Basis → Params
on_basis numbers p basis =
    let raw = to_raw p in parse_params numbers (record raw { basis = text (basis_text basis) })

unfoldable pub on_page : Numbers → Params → ℕ → Params
on_page numbers p page =
    let raw = to_raw p in parse_params numbers (record raw { page = text (numbers.text_of page) })

unfoldable pub bare : Params → Params
bare p = record p {
  posted = none;
  type_set = [];
  pay_set = [];
  mode_set = [];
  season_set = [];
  level_set = [];
  badge = none;
  page = 1;
}

unfoldable pub without_filters : Params → Params
without_filters p = let plain = bare p in record plain { job = none; unfiltered = true }

-- The writers: `href` after these.
module _ (numbers : Numbers) (to_text : List (String × String) → String) where
  unfoldable pub with_filter : Params → Filter → Option (List String) → String
  with_filter p filter value = href numbers to_text (filtered numbers p filter value)

  unfoldable pub toggle_filter : Params → Group → String → String
  toggle_filter p group value = href numbers to_text (toggled numbers p group value)

  unfoldable pub with_tab : Params → Tab → String
  with_tab p tab = href numbers to_text (on_tab numbers p tab)

  unfoldable pub with_basis : Params → Basis → String
  with_basis p basis = href numbers to_text (on_basis numbers p basis)

  unfoldable pub with_page : Params → ℕ → String
  with_page p page = href numbers to_text (on_page numbers p page)

  unfoldable pub with_job : Params → Option ℕ → String
  with_job p job = href numbers to_text (record p { job = job })

  unfoldable pub cleared : Params → String
  cleared p = href numbers to_text (without_filters p)
