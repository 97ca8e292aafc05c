-- ===== src/Board/Params/Examples.antt =====
-- Parameters of the board at given texts, with numbers written in ones.
use Prim.Native.String.{String}
use job_dashboard.Prelude.{
  ℕ, zero, suc, false, leb, ◌≡◌, refl, none, some, [], ◌∷◌, if◌then◌else◌, select, find, arith,
}
use job_dashboard.Board.Chips.{design, Group, mode, level}
use job_dashboard.Board.Params.Reading.{
  tab_of, basis_of, badge_of, job_of, page_of, explicit, has_filters, read_params, parse_params,
  slots, present, query,
}
use job_dashboard.Board.Params.{
  Numbers, max_safe, freelance, Params, Value, absent, text, texts, Raw, join, split, units, short,
  first, collect, pick, pick_all, whole, vocab,
}
use job_dashboard.Board.Params.Canonical.{given, parse-query}
use job_dashboard.Board.Params.Fields.{RoundTrips}
use job_dashboard.Board.Params.Writers.{toggled}
use job_dashboard.Board.Params.Writers.Toggled.{Toggles, toggled_lem}

ones : ℕ → String
ones zero = ""
ones (suc n) = String.◌∷◌ "1" (ones n)

abbrev tally : Numbers
tally = record {
  number = λ s. if leb (units s) max_safe then some (units s) else none;
  text_of = ones;
}

units-ones : (n : ℕ) → units (ones n) ≡ n
unfolding units ones
units-ones zero = refl
units-ones (suc n) = ground (arith, units-ones n)

tally-RoundTrips : RoundTrips tally
tally-RoundTrips = record {
  back = λ n safe. ground (arith, units-ones n);
  empty = unfold units in refl;
}

abbrev levels : Group → Value
levels level = texts ("junior" ∷ "entry" ∷ "boss" ∷ [])
levels mode = text "onsite"
levels _ = absent

-- `?basis=freelance&level=junior&level=entry&level=boss&mode=onsite&job=111&page=11`
abbrev visited : Raw
visited = record {
  tab = absent;
  basis = text "freelance";
  posted = text "year";
  group = levels;
  badge = absent;
  job = text "111";
  page = text "11";
  filters = absent;
}

abbrev landed_on : Params
landed_on = record {
  tab = design;
  basis = some freelance;
  posted = none;
  type_set = [];
  pay_set = [];
  mode_set = "onsite" ∷ [];
  season_set = [];
  level_set = "entry" ∷ "junior" ∷ [];
  badge = none;
  job = some 3;
  page = 2;
  unfiltered = false;
}

parsed_visit : parse_params tally visited ≡ landed_on
unfolding parse_params read_params explicit has_filters tab_of basis_of badge_of job_of page_of pick
    pick_all short first collect split join units whole vocab select find
parsed_visit = refl

written_visit :
    query tally landed_on
    ≡ ("basis", "freelance")
      ∷ ("mode", "onsite")
      ∷ ("level", "entry,junior")
      ∷ ("job", "111")
      ∷ ("page", "11")
      ∷ []
unfolding query slots present has_filters join ones
written_visit = refl

parse-query_example :
    parse_params tally (given (query tally (parse_params tally visited)))
    ≡ parse_params tally visited
parse-query_example = parse-query tally visited tally-RoundTrips

toggled_lem_example :
    Toggles level "mid"
      (parse_params tally visited)
      (toggled tally (parse_params tally visited) level "mid")
toggled_lem_example =
    toggled_lem tally visited level "mid"
      (unfold parse_params read_params tab_of basis_of first vocab in refl)
