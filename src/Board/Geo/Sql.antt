-- ===== src/Board/Geo/Sql.antt =====
-- lib/query.ts: the rules on locations as SQL expressions, with the NULL of SQL.
use Prim.Native.String.{String}
use job_dashboard.Prelude.{ℕ, ◌==◌, str_eq, Bool, true, false, Option, none, some, List, [], ◌∷◌}
use job_dashboard.Board.Geo.{
  NormalizedLocation, metros, metro, california, remote, elsewhere, unknown, tier_number,
}

-- The value of a condition.
pub data Condition : Type 0 where
  holding failing null : Condition

abbrev pub truth : Bool → Condition
truth true = holding
truth false = failing

-- `a = b` and `a <> b`, for a column that may be NULL.
abbrev pub equal : Option String → String → Condition
equal none text = null
equal (some s) text = truth (str_eq s text)

abbrev pub negated : Condition → Condition
negated holding = failing
negated failing = holding
negated null = null

abbrev pub both : Condition → Condition → Condition
both failing c = failing
both holding c = c
both null failing = failing
both null c = null

abbrev pub either : Condition → Condition → Condition
either holding c = holding
either failing c = c
either null holding = holding
either null c = null

abbrev pub is_null : Option String → Condition
is_null none = holding
is_null (some s) = failing

-- `a in (...)`
abbrev pub one_of : Option String → List String → Condition
one_of column [] = failing
one_of column (t ∷ rest) = either (equal column t) (one_of column rest)

abbrev pub coalesce : Option String → String → Option String
coalesce none text = some text
coalesce (some s) text = some s

-- A branch of `case when`: only a condition that holds is taken.
abbrev pub when : {A : Type 0} → Condition → A → A → A
when holding a rest = a
when _ a rest = rest

-- `isRemoteSql`; the column is_remote is 0 or 1.
unfoldable pub is_remote_sql : (is_remote : Bool) (work_mode : Option String) → Condition
is_remote_sql is_remote work_mode =
    either (equal (coalesce work_mode "") "remote") (both (is_null work_mode) (truth is_remote))

unfoldable pub geo_tier_sql : NormalizedLocation → (work_mode : Option String) → ℕ
geo_tier_sql row work_mode = when (one_of row.city_norm metros) (tier_number metro) (
    when (equal row.state "CA") (tier_number california) (
      when (is_remote_sql row.is_remote work_mode) (tier_number remote) (
        when (both (is_null row.city_norm) (both (is_null row.state) (is_null row.country)))
          (tier_number unknown) (tier_number elsewhere))))

unfoldable pub outside_targets : NormalizedLocation → (work_mode : Option String) → Condition
outside_targets row work_mode = truth (geo_tier_sql row work_mode == tier_number elsewhere)

unfoldable pub foreign : NormalizedLocation → Condition
foreign row = both (negated (is_null row.country)) (negated (equal row.country "US"))

-- `is 'design'`, which is never NULL.
abbrev pub is_design : Option String → Condition
is_design none = failing
is_design (some track) = truth (str_eq track "design")

unfoldable pub hidden_by_location :
    (track : Option String) → NormalizedLocation → (work_mode : Option String) → Condition
hidden_by_location track row work_mode =
    either (foreign row) (both (is_design track) (outside_targets row work_mode))
