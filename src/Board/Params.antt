-- ===== src/Board/Params.antt =====
-- lib/params.ts: the search parameters of the board. A value is a text or, where its key is repeated, several. What
-- `Number` makes of a text and `String` of a number are parameters; `URLSearchParams` writes the pairs of `query`.
use Prim.Native.String.{String, ◌++◌ as ◌<>◌}
use Prim.Native.Char.{Char, code}
use job_dashboard.Prelude.{
  ℕ, ◌+◌, ◌==◌, ltb, leb, str_eq, Bool, true, false, not, ◌&&◌, ◌||◌, Option, none, some, List, [],
  ◌∷◌, ◌++◌, if◌then◌else◌, is_some, or_else, holds, any, select, find, map,
}
use job_dashboard.Board.Chips.{Tab, design, engineering, Group, type, pay, mode, season, level}
pub mod Reading
mod Sets
mod Fields
pub mod Canonical
pub mod Writers
mod Examples

-- `number text` is `Number(text)` where that is a natural number no greater than the largest safe integer.
pub record Numbers : Type 0 where
  pub number : String → Option ℕ
  pub text_of : ℕ → String

abbrev pub max_safe : ℕ
max_safe = 9007199254740991

pub data Basis : Type 0 where
  employed freelance : Basis

abbrev pub tab_text : Tab → String
tab_text design = "design"
tab_text engineering = "engineering"

abbrev pub basis_text : Basis → String
basis_text employed = "employed"
basis_text freelance = "freelance"

-- `DESIGN_TYPE`
abbrev pub design_type : Basis → List String
design_type employed = "full-time" ∷ "part-time" ∷ "internship" ∷ []
design_type freelance = "freelance" ∷ "contract" ∷ []

abbrev pub posted_windows : List String
posted_windows = "hour" ∷ "day" ∷ "week" ∷ "month" ∷ []

-- `vocab`, of a group of badges.
unfoldable pub vocab : Tab → Group → Option Basis → List String
vocab design type basis = design_type (or_else basis employed)
vocab design level basis = "entry" ∷ "junior" ∷ "mid" ∷ "senior+" ∷ []
vocab design season basis = []
vocab engineering type basis = "full-time" ∷ "internship" ∷ []
vocab engineering level basis = "entry" ∷ "junior" ∷ "mid" ∷ []
vocab engineering season basis = "summer" ∷ "fall" ∷ "winter" ∷ "spring" ∷ []
vocab tab pay basis = "paid" ∷ "unpaid" ∷ "unknown" ∷ []
vocab tab mode basis = "remote" ∷ "hybrid" ∷ "onsite" ∷ []

pub record Params : Type 0 where
  pub tab : Tab
  pub basis : Option Basis
  pub posted : Option String
  pub type_set : List String
  pub pay_set : List String
  pub mode_set : List String
  pub season_set : List String
  pub level_set : List String
  pub badge : Option String
  pub job : Option ℕ
  pub page : ℕ
  pub unfiltered : Bool

pub data Value : Type 0 where
  absent : Value
  text : String → Value
  texts : List String → Value

-- `value ?? undefined`
abbrev pub value_of : Option String → Value
value_of none = absent
value_of (some s) = text s

-- `RawSearchParams`, at the keys that are read.
pub record Raw : Type 0 where
  pub tab : Value
  pub basis : Value
  pub posted : Value
  pub group : Group → Value
  pub badge : Value
  pub job : Value
  pub page : Value
  pub filters : Value

abbrev pub has : List String → String → Bool
has [] s = false
has (t ∷ ts) s = str_eq t s || has ts s

-- `.join(',')`
unfoldable pub join : List String → String
join [] = ""
join (w ∷ []) = w
join (w ∷ v ∷ rest) = w <> ("," <> join (v ∷ rest))

abbrev pub longer : Char → List String → List String
longer c [] = String.◌∷◌ c "" ∷ []
longer c (w ∷ ws) = String.◌∷◌ c w ∷ ws

-- `.split(',')`
unfoldable pub split : String → List String
split String.[] = "" ∷ []
split (String.◌∷◌ c s) =
    let parts = split s in if code c == b',' then "" ∷ parts else longer c parts

-- `.length`, in units of UTF-16.
unfoldable pub units : String → ℕ
units String.[] = 0
units (String.◌∷◌ c s) = (if leb 65536 (code c) then 2 else 1) + units s

-- `text`
unfoldable pub short : Option String → Option String
short none = none
short (some s) = if leb (units s) 200 then some s else none

unfoldable pub first : Value → Option String
first absent = none
first (text s) = some s
first (texts []) = none
first (texts (s ∷ rest)) = some s

unfoldable pub collect : Value → Option String
collect absent = none
collect (text s) = some s
collect (texts parts) = some (join parts)

-- `pick`: an empty text is falsy.
unfoldable pub pick : Option String → List String → Option String
pick none allowed = none
pick (some raw) allowed = if str_eq raw "" then none else find (has allowed) (split raw)

unfoldable pub pick_all : Option String → List String → List String
pick_all none allowed = []
pick_all (some raw) allowed =
    if str_eq raw "" then [] else select (λ value. has (split raw) value) allowed

abbrev pub within : (min max : ℕ) → Option ℕ → Option ℕ
within min max none = none
within min max (some n) = if leb min n && leb n max then some n else none

unfoldable pub whole : Numbers → String → (min max : ℕ) → Option ℕ
whole numbers s min max = within min max (numbers.number s)

abbrev is_slug_char : ℕ → Bool
is_slug_char c = (leb b'a' c && leb c b'z') || (leb b'0' c && leb c b'9') || c == b'-'

all_slug : String → Bool
all_slug String.[] = true
all_slug (String.◌∷◌ c s) = is_slug_char (code c) && all_slug s

-- `/^[a-z0-9-]{1,32}$/`
unfoldable pub is_badge : String → Bool
unfolding all_slug
is_badge s = all_slug s && leb 1 (units s) && leb (units s) 32
