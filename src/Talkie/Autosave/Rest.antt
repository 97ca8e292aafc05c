-- ===== src/Talkie/Autosave/Rest.antt =====
-- app/talkie/autosave.ts: one write at a time, and no text lost.
use job_dashboard.Prelude.{
  ◌≡◌, refl, sym, ◌∙◌, ap, ◌⊎◌, inl, inr, String, str_eq, eq_iff, Bool, true, false, Option, none,
  some, is_some, List, arith,
}
use job_dashboard.Talkie.Autosave.{is_blank, trim, Writer, opened, needs_write}
use job_dashboard.Talkie.Autosave.Lane.{
  Act, acts, stored, last_refused, open_call, refused_last, Sound,
}
use job_dashboard.Talkie.Autosave.Starts.{Sound-opened}
use job_dashboard.Talkie.Autosave.Kept.{acts-Sound}

-- Whatever is done to a lane, in whatever order, each call of `write` comes after the end of the one before it.
pub acts_serial :
    (initial : String) (l : List Act) → is_some (open_call (acts l (opened initial)).log) ≡ true
acts_serial initial l =
    let k = acts-Sound (trim initial) l (opened initial) (Sound-opened initial) in
    ap is_some k.serial

-- The server has the newest text, or there is none to write, or it refused exactly this text last.
abbrev pub Written : String → Writer → Type 0
Written initial w =
    (is_blank (trim w.desired) ≡ true)
    ⊎ (stored initial w.log ≡ trim w.desired)
    ⊎ (last_refused w.log ≡ some (trim w.desired))

refused_text : (o : Option String) (s : String) → refused_last o s ≡ true → o ≡ some s
refused_text none s h = cc
refused_text (some a) s h = ap some ((eq_iff a s).0 h)

at_rest :
    (initial : String) (w : Writer)
    → Sound initial w
    → w.in_flight ≡ none
    → w.timer ≡ false
    → w.disposed ≡ false
    → Written initial w
unfolding needs_write
at_rest initial w k f t d = by_blank (is_blank (trim w.desired)) refl
  where
    by_failure :
        is_blank (trim w.desired) ≡ false → (failed : Bool) → w.failed ≡ failed → Written initial w
    by_failure b true h =
        inr (inr (refused_text (last_refused w.log) (trim w.desired) (k.blocked h)))
    by_failure b false h =
        let same : str_eq (trim w.desired) w.acknowledged ≡ true =
          ground (arith, k.awake, f, t, d, b, h) in
        inr (inl (sym ((eq_iff (trim w.desired) w.acknowledged).0 same ∙ k.in_step)))

    by_blank : (blank : Bool) → is_blank (trim w.desired) ≡ blank → Written initial w
    by_blank true b = inl b
    by_blank false b = by_failure b w.failed refl

-- Whatever was done to a lane, in whatever order: if it is not disposed of, no timeout is to come and no write is under way,
-- then the server has its newest text, or the text is blank, or it is the one that the server refused last.
pub acts-Written :
    (initial : String) (l : List Act)
    → (acts l (opened initial)).in_flight ≡ none
    → (acts l (opened initial)).timer ≡ false
    → (acts l (opened initial)).disposed ≡ false
    → Written (trim initial) (acts l (opened initial))
acts-Written initial l f t d =
    at_rest (trim initial) (acts l (opened initial))
      (acts-Sound (trim initial) l (opened initial) (Sound-opened initial)) f t d
