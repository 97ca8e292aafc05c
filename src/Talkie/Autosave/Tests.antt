-- ===== src/Talkie/Autosave/Tests.antt =====
-- A write lane at concrete inputs.
use job_dashboard.Prelude.{◌≡◌, refl, true, false, zero, some, is_some, List, [], ◌∷◌}
use job_dashboard.Talkie.Autosave.{
  opened, set_desired, needs_write, trim, start, schedule, timer_fired, write_ended, landed,
  outcome, lane_freed, left, freed, flush, reconcile_body, should_attach_server_id,
}
use job_dashboard.Talkie.Autosave.Lane.{Act, types, fires, ends, frees, acts, open_call}
use job_dashboard.Talkie.Autosave.Rest.{Written, acts_serial, acts-Written}
use job_dashboard.Talkie.Autosave.Flush.{is_clean, flush_returns}

-- A is stored; B is being written when the text goes back to A, which is written again.
abbrev back_and_forth : List Act
back_and_forth = types "B" ∷ fires ∷ types " A " ∷ ends true ∷ frees ∷ ends true ∷ frees ∷ []

trim_test : trim " a b\n" ≡ "a b"
unfolding trim
trim_test = refl

patch_test : (reconcile_body " a" "b").patch_body ≡ some "a"
unfolding reconcile_body trim
patch_test = refl

late_test : should_attach_server_id (some "k1") "k2" ≡ false
unfolding should_attach_server_id
late_test = refl

stored_test : (acts back_and_forth (opened "A")).acknowledged ≡ "A"
unfolding opened set_desired schedule needs_write trim timer_fired start write_ended landed outcome
    lane_freed left freed
stored_test = refl

acts_serial_example : is_some (open_call (acts back_and_forth (opened "A")).log) ≡ true
acts_serial_example = acts_serial "A" back_and_forth

acts-Written_example :
    Written (trim "A") (acts (types "B" ∷ fires ∷ ends true ∷ frees ∷ []) (opened "A"))
unfolding opened set_desired schedule needs_write trim timer_fired start write_ended landed outcome
    lane_freed left freed
acts-Written_example = acts-Written "A" (types "B" ∷ fires ∷ ends true ∷ frees ∷ []) refl refl refl

flush_returns_example : is_clean (flush 4 (λ body. true) (set_desired "B" (opened "A"))) ≡ true
unfolding opened set_desired schedule needs_write trim
flush_returns_example =
    flush_returns zero (λ body. true) (set_desired "B" (opened "A")) (λ body. refl) refl
