-- ===== src/Board/Geo.antt =====
-- lib/geo.ts: the tier of a location.
use job_dashboard.Prelude.{
  ℕ, String, str_eq, Bool, true, false, not, ◌&&◌, ◌||◌, Option, is_some, holds, List, [], ◌∷◌,
  if◌then◌else◌, ◌≡◌, ◌↔◌, arith,
}
pub mod Sql
pub mod Hiding

-- `NormalizedLocation` of lib/normalize.ts.
pub record NormalizedLocation : Type 0 where
  pub city_norm : Option String
  pub state : Option String
  pub country : Option String
  pub is_remote : Bool

-- The keys of `CITY_ALIASES` in lib/normalize.ts.
abbrev pub metros : List String
metros = "sf" ∷ "la" ∷ "nyc" ∷ "sea" ∷ []

abbrev pub is_metro : List String → String → Bool
is_metro [] city = false
is_metro (m ∷ rest) city = str_eq m city || is_metro rest city

pub data Tier : Type 0 where
  metro california remote elsewhere unknown : Tier

-- The numbers of `GEO_TIER`.
abbrev pub tier_number : Tier → ℕ
tier_number metro = 0
tier_number california = 1
tier_number remote = 2
tier_number elsewhere = 3
tier_number unknown = 4

abbrev pub is_text : Option String → String → Bool
is_text o text = holds (λ s. str_eq s text) o

unfoldable pub geo_tier : NormalizedLocation → Option String → Tier
geo_tier location work_mode =
    if holds (is_metro metros) location.city_norm
    then metro
    else if is_text location.state "CA"
    then california
    else if is_text work_mode "remote" || (not (is_some work_mode) && location.is_remote)
    then remote
    else if not (is_some location.city_norm)
        && not (is_some location.state)
        && not (is_some location.country)
    then unknown
    else elsewhere
