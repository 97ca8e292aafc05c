-- ===== src/Board/Params/Canonical.antt =====
-- lib/params.ts: `parseParams` after `href`. The text of a query is its pairs, which a page is given as they are.
use Prim.Native.String.{String}
use job_dashboard.Prelude.{
  str_eq, ◌≡◌, refl, ap, ◌∙◌, Bool, true, false, not, ◌&&◌, ◌||◌, Option, none, some, List, [], ◌∷◌,
  if◌then◌else◌, is_some, holds, arith,
}
use job_dashboard.Board.Chips.{Group, type, pay, mode, season, level}
use job_dashboard.Board.Params.Reading.{
  tab_of, basis_of, badge_of, job_of, page_of, explicit, nonempty, has_filters, read_params,
  parse_params, listed, tab_slot, mark_slot, basis_slot, job_slot, page_slot, slots, present, query,
  is_present,
}
use job_dashboard.Board.Params.{
  Numbers, Params, Value, absent, text, value_of, Raw, short, first, collect, pick, pick_all,
  posted_windows, vocab,
}
use job_dashboard.Board.Params.Sets.{pick_all_again}
use job_dashboard.Board.Params.Fields.{
  first-value_of, collect-value_of, RoundTrips, tab-tab_slot, basis_again, badge_again,
  posted_again, job_again, page_again,
}

-- What a page is given for a key: its text in the query.
pub found : String → List (String × String) → Value
found key [] = absent
found key ((k, v) ∷ rest) = if str_eq k key then text v else found key rest

abbrev pub group_key : Group → String
group_key type = "type"
group_key pay = "pay"
group_key mode = "mode"
group_key season = "season"
group_key level = "level"

unfoldable pub given : List (String × String) → Raw
given pairs = record {
  tab = found "tab" pairs;
  basis = found "basis" pairs;
  posted = found "posted" pairs;
  group = λ group. found (group_key group) pairs;
  badge = found "badge" pairs;
  job = found "job" pairs;
  page = found "page" pairs;
  filters = found "filters" pairs;
}

abbrev over : Option String → Value → Value
over none rest = rest
over (some s) rest = text s

abbrev seek : String → List (String × Option String) → Value
seek key [] = absent
seek key ((k, o) ∷ rest) = if str_eq k key then over o (seek key rest) else seek key rest

found-present :
    (key : String) (l : List (String × Option String)) → found key (present l) ≡ seek key l
unfolding found present
found-present key [] = refl
found-present key ((k, none) ∷ rest) = ground (arith, found-present key rest)
found-present key ((k, some v) ∷ rest) = ground (arith, found-present key rest)

over_absent : (o : Option String) → over o absent ≡ value_of o
over_absent none = refl
over_absent (some s) = refl

-- Each field is read again from what is written of it.
pub record IsCanonical (numbers : Numbers) (p : Params) : Type 0 where
  pub basis_kept : basis_of p.tab (basis_slot p.basis) ≡ p.basis
  pub posted_kept : pick (short p.posted) posted_windows ≡ p.posted
  pub type_kept : pick_all (short (listed p.type_set)) (vocab p.tab type p.basis) ≡ p.type_set
  pub pay_kept : pick_all (short (listed p.pay_set)) (vocab p.tab pay p.basis) ≡ p.pay_set
  pub mode_kept : pick_all (short (listed p.mode_set)) (vocab p.tab mode p.basis) ≡ p.mode_set
  pub season_kept :
      pick_all (short (listed p.season_set)) (vocab p.tab season p.basis) ≡ p.season_set
  pub level_kept : pick_all (short (listed p.level_set)) (vocab p.tab level p.basis) ≡ p.level_set
  pub badge_kept : badge_of p.badge ≡ p.badge
  pub job_kept : job_of numbers (job_slot numbers p.job) ≡ p.job
  pub page_kept : page_of numbers (page_slot numbers p.page) ≡ p.page
  pub mark_kept : p.unfiltered && not (has_filters p) ≡ p.unfiltered

and_twice : (a b : Bool) → a && b && b ≡ a && b
and_twice true true = refl
and_twice true false = refl
and_twice false b = refl

module _ (numbers : Numbers) (trips : RoundTrips numbers) (raw : Raw) where
  pub parse_params-IsCanonical : IsCanonical numbers (parse_params numbers raw)
  unfolding parse_params read_params has_filters
  parse_params-IsCanonical =
      let tab = tab_of (first raw.tab) in
      let basis = basis_of tab (first raw.basis) in
      let set =
        λ (group : Group). pick_all_again (short (collect (raw.group group))) tab group basis in
      record {
        basis_kept = basis_again tab (first raw.basis);
        posted_kept = posted_again (short (first raw.posted));
        type_kept = set type;
        pay_kept = set pay;
        mode_kept = set mode;
        season_kept = set season;
        level_kept = set level;
        badge_kept = badge_again (first raw.badge);
        job_kept = job_again numbers trips (first raw.job);
        page_kept = page_again numbers trips (first raw.page);
        mark_kept = and_twice (explicit raw) (not (has_filters (read_params numbers raw)));
      }

is_present-value_of : (o : Option String) → is_present (value_of o) ≡ is_some o
is_present-value_of none = refl
is_present-value_of (some s) = refl

is_some-listed : (s : List String) → is_some (listed s) ≡ nonempty s
is_some-listed [] = refl
is_some-listed (w ∷ rest) = refl

all-mark_slot : (m : Bool) → holds (λ s. str_eq s "all") (mark_slot m) ≡ m
all-mark_slot true = refl
all-mark_slot false = refl

module _ (numbers : Numbers) (p : Params) where
  seen_value :
      (key : String) (o : Option String)
      → seek key (slots numbers p) ≡ over o absent
      → found key (query numbers p) ≡ value_of o
  unfolding query
  seen_value key o e = found-present key (slots numbers p) ∙ e ∙ over_absent o

  seen_first :
      (key : String) (o : Option String)
      → seek key (slots numbers p) ≡ over o absent
      → first (found key (query numbers p)) ≡ o
  seen_first key o e = ap first (seen_value key o e) ∙ first-value_of o

  seen_set :
      (key : String) (s : List String)
      → seek key (slots numbers p) ≡ over (listed s) absent
      → collect (found key (query numbers p)) ≡ listed s
  seen_set key s e = ap collect (seen_value key (listed s) e) ∙ collect-value_of (listed s)

  seen_present :
      (key : String) (o : Option String)
      → seek key (slots numbers p) ≡ over o absent
      → is_present (found key (query numbers p)) ≡ is_some o
  seen_present key o e = ap is_present (seen_value key o e) ∙ is_present-value_of o

  seen_nonempty :
      (key : String) (s : List String)
      → seek key (slots numbers p) ≡ over (listed s) absent
      → is_present (found key (query numbers p)) ≡ nonempty s
  seen_nonempty key s e = seen_present key (listed s) e ∙ is_some-listed s

  explicit_seen :
      explicit (given (query numbers p))
      ≡ (p.unfiltered && not (has_filters p))
        || is_some p.posted
        || nonempty p.type_set
        || nonempty p.pay_set
        || nonempty p.mode_set
        || nonempty p.season_set
        || nonempty p.level_set
        || is_some p.badge
  unfolding explicit given slots
  explicit_seen =
      let mark = p.unfiltered && not (has_filters p) in
      rw (
        ap (holds (λ s. str_eq s "all")) (seen_first "filters" (mark_slot mark) refl)
            ∙ all-mark_slot mark,
        seen_present "posted" p.posted refl,
        seen_nonempty "type" p.type_set refl,
        seen_nonempty "pay" p.pay_set refl,
        seen_nonempty "mode" p.mode_set refl,
        seen_nonempty "season" p.season_set refl,
        seen_nonempty "level" p.level_set refl,
        seen_present "badge" p.badge refl,
      )

  module _ (canon : IsCanonical numbers p) where
    read_again : read_params numbers (given (query numbers p)) ≡ record p { unfiltered = false }
    unfolding read_params given slots
    read_again = rw (
      seen_first "tab" (tab_slot p.tab) refl,
      tab-tab_slot p.tab,
      seen_first "basis" (basis_slot p.basis) refl,
      canon.basis_kept,
      seen_first "posted" p.posted refl,
      canon.posted_kept,
      seen_set "type" p.type_set refl,
      canon.type_kept,
      seen_set "pay" p.pay_set refl,
      canon.pay_kept,
      seen_set "mode" p.mode_set refl,
      canon.mode_kept,
      seen_set "season" p.season_set refl,
      canon.season_kept,
      seen_set "level" p.level_set refl,
      canon.level_kept,
      seen_first "badge" p.badge refl,
      canon.badge_kept,
      seen_first "job" (job_slot numbers p.job) refl,
      canon.job_kept,
      seen_first "page" (page_slot numbers p.page) refl,
      canon.page_kept,
    )

    mark_again : explicit (given (query numbers p)) && not (has_filters p) ≡ p.unfiltered
    unfolding has_filters
    mark_again = ground (arith, explicit_seen, canon.mark_kept)

    parse-query_canonical : parse_params numbers (given (query numbers p)) ≡ p
    unfolding parse_params has_filters
    parse-query_canonical =
        rw read_again
          (ap (λ (mark : Bool). record p { unfiltered = mark }) (unfold has_filters in mark_again))

-- What `parseParams` made of any parameters comes back whole from the query that `href` writes of it, where `String` and
-- `Number` agree on the numbers up to the largest safe integer and `Number("")` is 0.
pub parse-query :
    (numbers : Numbers) (raw : Raw)
    → RoundTrips numbers
    → parse_params numbers (given (query numbers (parse_params numbers raw)))
      ≡ parse_params numbers raw
parse-query numbers raw trips =
    parse-query_canonical numbers (parse_params numbers raw)
      (parse_params-IsCanonical numbers trips raw)
