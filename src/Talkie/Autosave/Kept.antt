-- ===== src/Talkie/Autosave/Kept.antt =====
-- app/talkie/autosave.ts: everything that may be done to a write lane keeps it sound.
use job_dashboard.Prelude.{
  ◌≡◌, subst, refl, ◌∙◌, ap, String, str_eq, Bool, true, false, not, ◌&&◌, ◌||◌, Option, none, some,
  List, [], ◌∷◌, if◌then◌else◌, arith,
}
use job_dashboard.Talkie.Autosave.{
  trim, Flight, Writer, needs_write, start, outcome, landed, write_ended, freed, left, lane_freed,
}
use job_dashboard.Talkie.Autosave.Lane.{
  Act, types, retries, disposes, fires, flushes, turns, frees, ends, perform, acts, closes,
  open_call, under_way, same_body, Sound,
}
use job_dashboard.Talkie.Autosave.Starts.{
  turned, Sound-set_desired, Sound-retry, Sound-dispose, Sound-start, Sound-timer_fired,
  Sound-flush_began, closes_own,
}

closed :
    (flight : Flight) (w : Writer)
    → w.in_flight ≡ some flight
    → flight.ended ≡ false
    → open_call w.log ≡ some (under_way w.in_flight)
    → closes flight.body (open_call w.log) ≡ some none
closed flight w f e s = rw (s, f, e) (closes_own flight.body)

Sound-outcome :
    (initial : String) (ok : Bool) (flight : Flight) (w : Writer)
    → w.in_flight ≡ some flight
    → flight.ended ≡ false
    → Sound initial w
    → Sound initial (outcome ok flight.body w)
unfolding outcome needs_write
Sound-outcome initial ok flight w f e k = by_end ok
  where
    own : w.failed ≡ true → str_eq flight.body (trim w.desired) ≡ true
    own h = subst (λ x. same_body x (trim w.desired) ≡ true) f (k.repeating h)

    by_end : (ok : Bool) → Sound initial (outcome ok flight.body w)
    by_end true = record {
      in_step = refl;
      serial = closed flight w f e k.serial;
      awake = ground arith;
      blocked = k.blocked;
      repeating = own;
    }
    by_end false =
        let t = turned (trim w.desired) flight.body in
        record {
          in_step = k.in_step;
          serial = closed flight w f e k.serial;
          awake = ground arith;
          blocked = λ h. ground (arith, h, t, own);
          repeating = λ h. ground (arith, h, t, own);
        }

Sound-write_ended :
    (initial : String) (ok : Bool) (w : Writer) → Sound initial w → Sound initial (write_ended ok w)
unfolding write_ended landed
Sound-write_ended initial ok w k = by_flight w.in_flight refl
  where
    by_flight : (o : Option Flight) → w.in_flight ≡ o → Sound initial (landed ok w o)
    by_flight none f = k
    by_flight (some flight) f = by_phase flight.ended refl
      where
        by_phase :
            (ended : Bool)
            → flight.ended ≡ ended
            → Sound initial (if ended then w else outcome ok flight.body w)
        by_phase true e = k
        by_phase false e = Sound-outcome initial ok flight w f e k

restarts : Writer → Bool
restarts w = not w.disposed && not w.failed && needs_write (record w { in_flight = none })

stays_awake :
    (w : Writer)
    → restarts w ≡ false
    → (not (needs_write w) || w.disposed || w.failed || false || w.timer) ≡ true
unfolding restarts needs_write
stays_awake w h = ground (arith, h)

Sound-freed :
    (initial : String) (w : Writer)
    → (under_way w.in_flight ≡ none)
    → Sound initial w
    → Sound initial (freed w)
unfolding freed restarts
Sound-freed initial w e k = by_restart (restarts w) refl
  where
    free : Writer
    free = record w { in_flight = none }

    serial_free : open_call w.log ≡ some none
    serial_free = k.serial ∙ ap some e

    by_restart : (go : Bool) → restarts w ≡ go → Sound initial (if go then start free else free)
    by_restart true h = Sound-start initial free k.in_step serial_free k.blocked (λ f. refl)
    by_restart false h = record {
      in_step = k.in_step;
      serial = serial_free;
      awake = unfold needs_write in (stays_awake w h);
      blocked = k.blocked;
      repeating = λ f. refl;
    }

Sound-lane_freed : (initial : String) (w : Writer) → Sound initial w → Sound initial (lane_freed w)
unfolding lane_freed left
Sound-lane_freed initial w k = by_flight w.in_flight refl
  where
    by_flight : (o : Option Flight) → w.in_flight ≡ o → Sound initial (left w o)
    by_flight none f = k
    by_flight (some flight) f = by_phase flight.ended refl
      where
        by_phase :
            (ended : Bool) → flight.ended ≡ ended → Sound initial (if ended then freed w else w)
        by_phase true e = Sound-freed initial w (rw (f, e) refl) k
        by_phase false e = k

Sound-perform :
    (initial : String) (a : Act) (w : Writer) → Sound initial w → Sound initial (perform a w)
Sound-perform initial (types body) w k = Sound-set_desired initial body w k
Sound-perform initial retries w k = Sound-retry initial w k
Sound-perform initial disposes w k = Sound-dispose initial w k
Sound-perform initial fires w k = Sound-timer_fired initial w k
Sound-perform initial flushes w k = Sound-flush_began initial w k
Sound-perform initial turns w k = Sound-start initial w k.in_step k.serial k.blocked k.repeating
Sound-perform initial frees w k = Sound-lane_freed initial w k
Sound-perform initial (ends ok) w k = Sound-write_ended initial ok w k

pub acts-Sound :
    (initial : String) (l : List Act) (w : Writer) → Sound initial w → Sound initial (acts l w)
acts-Sound initial [] w k = k
acts-Sound initial (a ∷ rest) w k =
    acts-Sound initial rest (perform a w) (Sound-perform initial a w k)
