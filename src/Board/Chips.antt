-- ===== src/Board/Chips.antt =====
-- lib/chips.ts: which chips a row of the board shows, in their order.
use job_dashboard.Prelude.{
  String, str_eq, Bool, true, false, not, ◌&&◌, Option, none, some, List, [], ◌∷◌, ◌++◌, map, any,
  or_else, if◌then◌else◌,
}
pub mod Labels

-- `Group` of lib/params.ts.
pub data Group : Type 0 where
  type pay mode season level : Group

pub data Tab : Type 0 where
  design engineering : Tab

pub record ChipRow : Type 0 where
  pub employment_type : Option String
  pub work_mode : Option String
  pub paid : Option Bool
  pub internship_season : Option String
  pub seniority : Option String
  pub badges : Option (List String)

-- A value of a filter, or a free badge.
pub record Chip : Type 0 where
  pub group : Option Group
  pub value : String

-- `if (text) chips.push(...)`: neither null nor empty.
unfoldable pub chip_of : Group → Option String → List Chip
chip_of group none = []
chip_of group (some text) =
    if str_eq text "" then [] else record { group = some group; value = text } ∷ []

abbrev pub pay_label : Option Bool → String
pay_label none = "unknown"
pay_label (some true) = "paid"
pay_label (some false) = "unpaid"

unfoldable pub level_chip : Tab → Option String → List Chip
level_chip Tab.design seniority = chip_of Group.level seniority
level_chip Tab.engineering seniority = []

abbrev pub badge_chip : String → Chip
badge_chip badge = record { group = none; value = badge }

-- The chips before the repeated labels are taken out.
unfoldable pub all_chips : ChipRow → Tab → List Chip
unfolding chip_of level_chip
all_chips row tab =
    chip_of Group.type row.employment_type
    ++ chip_of Group.mode row.work_mode
    ++ (record { group = some Group.pay; value = pay_label row.paid } ∷ [])
    ++ chip_of Group.season row.internship_season
    ++ level_chip tab row.seniority
    ++ map badge_chip (or_else row.badges [])

abbrev pub has : List String → String → Bool
has [] value = false
has (v ∷ seen) value = if str_eq v value then true else has seen value

-- `chips.filter((chip) => !seen.has(chip.value) && seen.add(chip.value))`
unfoldable pub unseen : List String → List Chip → List Chip
unseen seen [] = []
unseen seen (chip ∷ rest) =
    let skipped = unseen seen rest in
    let kept = unseen (chip.value ∷ seen) rest in
    if has seen chip.value then skipped else chip ∷ kept

unfoldable pub row_chips : ChipRow → Tab → List Chip
row_chips row tab = unseen [] (all_chips row tab)
