-- ===== src/Board/Params/Writers/Toggled.antt =====
-- lib/params.ts: what `toggleFilter` leads to from parameters that were parsed.
use Prim.Native.String.{String}
use job_dashboard.Prelude.{
  str_eq, ◌≡◌, refl, ap, ◌∙◌, true, false, not, Option, none, if◌then◌else◌,
}
use job_dashboard.Board.Chips.{Tab, Group}
use job_dashboard.Board.Params.Reading.{
  basis_of, badge_of, job_of, page_of, parse_params, read_params, listed,
}
use job_dashboard.Board.Params.{
  Numbers, Basis, vocab, Params, text, value_of, Raw, has, join, short, first, collect, pick,
  posted_windows, pick_all,
}
use job_dashboard.Board.Params.Sets.{vocab-IsWord, vocab-total, pick_all_again}
use job_dashboard.Board.Params.Fields.{first-value_of, collect-value_of, posted_again, badge_again}
use job_dashboard.Board.Params.Writers.{
  badges, set_of, basis_value, to_raw, same_group, set_filter, filtered, toggled,
}
use job_dashboard.Board.Params.Writers.Flipped.{
  IsDrawn, reread-flipped, same_group_refl, set_of-parse_params, tab-tab_text, basis-basis_value,
  pick_all-IsDrawn, flipped,
}

-- The parameters `q` are `p` with `value` added to the group or taken from it, the drawer closed and the first page shown.
pub record Toggles (group : Group) (value : String) (p q : Params) : Type 0 where
  pub flips :
      (v : String)
      → has (set_of q group) v
        ≡ (if str_eq value v then not (has (set_of p group) v) else has (set_of p group) v)
  pub others : (g : Group) → same_group group g ≡ false → set_of q g ≡ set_of p g
  pub tab : q.tab ≡ p.tab
  pub basis : q.basis ≡ p.basis
  pub posted : q.posted ≡ p.posted
  pub badge : q.badge ≡ p.badge
  pub job : q.job ≡ none
  pub page : q.page ≡ 1

module _ (numbers : Numbers) (raw : Raw) where
  abbrev parsed : Params
  parsed = parse_params numbers raw

  set_of-IsDrawn : (g : Group) → IsDrawn (set_of parsed g) (vocab parsed.tab g parsed.basis)
  set_of-IsDrawn g =
      rw (set_of-parse_params numbers raw g)
        (pick_all-IsDrawn (short (collect (raw.group g))) parsed.tab g parsed.basis)

  listed_again :
      (g : Group)
      → pick_all (short (listed (set_of parsed g))) (vocab parsed.tab g parsed.basis)
        ≡ set_of parsed g
  listed_again g =
      rw (set_of-parse_params numbers raw g)
        (pick_all_again (short (collect (raw.group g))) parsed.tab g parsed.basis)

  module _ (group : Group) (value : String) where
    abbrev led_to : Params
    led_to = toggled numbers parsed group value

    tab_again : led_to.tab ≡ parsed.tab
    unfolding toggled filtered set_filter to_raw parse_params read_params first
    tab_again = tab-tab_text parsed.tab

    basis_same : led_to.basis ≡ parsed.basis
    unfolding toggled filtered set_filter to_raw parse_params read_params first
    basis_same =
        ap (λ (tab : Tab). basis_of tab (first (basis_value parsed.basis)))
          (tab-tab_text parsed.tab)
        ∙ basis-basis_value parsed.tab (first raw.basis)

    abbrev read_of : Group → Option String
    read_of g = short (
        collect (
          if same_group group g
          then text (join (flipped (set_of parsed group) value))
          else value_of (listed (set_of parsed g))))

    set_of-toggled :
        (g : Group) → set_of led_to g ≡ pick_all (read_of g) (vocab parsed.tab g parsed.basis)
    unfolding toggled filtered set_filter to_raw
    set_of-toggled g =
        set_of-parse_params numbers
          (set_filter (badges group) (join (flipped (set_of parsed group) value)) (to_raw parsed)) g
        ∙ ap (λ (tab : Tab). pick_all (read_of g) (vocab tab g led_to.basis)) tab_again
        ∙ ap (λ (basis : Option Basis). pick_all (read_of g) (vocab parsed.tab g basis)) basis_same

    others_again : (g : Group) → same_group group g ≡ false → set_of led_to g ≡ set_of parsed g
    unfolding collect
    others_again g e = set_of-toggled g ∙ rw e (collected ∙ listed_again g)
      where
        collected :
            pick_all
              (short (collect (value_of (listed (set_of parsed g)))))
              (vocab parsed.tab g parsed.basis)
            ≡ pick_all (short (listed (set_of parsed g))) (vocab parsed.tab g parsed.basis)
        collected =
            ap (λ o. pick_all (short o) (vocab parsed.tab g parsed.basis))
              (collect-value_of (listed (set_of parsed g)))

    flips_again :
        has (vocab parsed.tab group parsed.basis) value ≡ true
        → (v : String)
        → has (set_of led_to group) v ≡ (
            if str_eq value v
            then not (has (set_of parsed group) v)
            else has (set_of parsed group) v)
    flips_again h v =
        rw (set_of-toggled group, same_group_refl group)
          (unfold collect in
            reread-flipped (set_of parsed group) (vocab parsed.tab group parsed.basis) value h
              (set_of-IsDrawn group) (vocab-IsWord parsed.tab group parsed.basis)
              (vocab-total parsed.tab group parsed.basis) v)

    posted_same : led_to.posted ≡ parsed.posted
    unfolding toggled filtered set_filter to_raw parse_params read_params
    posted_same =
        ap (λ o. pick (short o) posted_windows) (first-value_of parsed.posted)
        ∙ posted_again (short (first raw.posted))

    badge_same : led_to.badge ≡ parsed.badge
    unfolding toggled filtered set_filter to_raw parse_params read_params
    badge_same = ap badge_of (first-value_of parsed.badge) ∙ badge_again (first raw.badge)

-- From parsed parameters, toggling a value that the tab offers turns its membership of the group round and that of no other
-- value; the tab, the side of the split and the other filters stay, the drawer closes and the first page is shown.
pub toggled_lem :
    (numbers : Numbers) (raw : Raw) (group : Group) (value : String)
    → let p = parse_params numbers raw in
      has (vocab p.tab group p.basis) value ≡ true
      → Toggles group value p (toggled numbers p group value)
toggled_lem numbers raw group value h = record {
  flips = flips_again numbers raw group value h;
  others = others_again numbers raw group value;
  tab = tab_again numbers raw group value;
  basis = basis_same numbers raw group value;
  posted = posted_same numbers raw group value;
  badge = badge_same numbers raw group value;
  job = unfold toggled filtered set_filter to_raw parse_params read_params first job_of in refl;
  page = unfold toggled filtered set_filter to_raw parse_params read_params first page_of in refl;
}
