-- ===== src/Talkie/Autosave/Starts.antt =====
-- app/talkie/autosave.ts: what does not end a write keeps the lane sound.
use job_dashboard.Prelude.{
  ◌≡◌, subst, refl, ◌⊎◌, inl, inr, String, str_eq, eq_iff, Bool, true, false, none, some, ◌∷◌,
  if◌then◌else◌, arith,
}
use job_dashboard.Talkie.Autosave.{
  trim, called, Writer, opened, needs_write, schedule, set_desired, retry, dispose, start,
  timer_fired, flush_began,
}
use job_dashboard.Talkie.Autosave.Lane.{
  stored, last_refused, closes, open_call, under_way, same_body, refused_last, Sound,
}

pub same_text : (s : String) → str_eq s s ≡ true
same_text s = (eq_iff s s).1 refl

pub turned : (a b : String) → str_eq a b ≡ true → str_eq b a ≡ true
turned a b h = subst (λ c. str_eq c a ≡ true) ((eq_iff a b).0 h) (same_text a)

pub Sound-opened : (initial : String) → Sound (trim initial) (opened initial)
unfolding opened needs_write
Sound-opened initial =
    let k = same_text (trim initial) in
    record {
      in_step = refl;
      serial = refl;
      awake = ground (arith, k);
      blocked = λ h. ground (arith, h);
      repeating = λ h. ground (arith, h);
    }

Sound-schedule :
    (initial : String) (w : Writer)
    → (w.acknowledged ≡ stored initial w.log)
    → (open_call w.log ≡ some (under_way w.in_flight))
    → w.failed ≡ false
    → Sound initial (schedule w)
unfolding schedule needs_write
Sound-schedule initial w i s f = record {
  in_step = ground (arith, i);
  serial = ground (arith, s);
  awake = ground arith;
  blocked = λ h. ground (arith, f);
  repeating = λ h. ground (arith, f);
}

pub Sound-set_desired :
    (initial body : String) (w : Writer) → Sound initial w → Sound initial (set_desired body w)
unfolding set_desired
Sound-set_desired initial body w k =
    Sound-schedule initial (record w { desired = body; failed = false }) k.in_step k.serial refl

pub Sound-retry : (initial : String) (w : Writer) → Sound initial w → Sound initial (retry w)
unfolding retry
Sound-retry initial w k =
    Sound-schedule initial (record w { failed = false }) k.in_step k.serial refl

pub Sound-dispose : (initial : String) (w : Writer) → Sound initial w → Sound initial (dispose w)
unfolding dispose needs_write
Sound-dispose initial w k = record {
  in_step = k.in_step;
  serial = k.serial;
  awake = ground arith;
  blocked = k.blocked;
  repeating = k.repeating;
}

-- A start leaves the lane as it is, or calls `write` where nothing is under way.
abbrev pub StartLeaves : Writer → Writer → Type 0
StartLeaves w w' =
    ((w'.log ≡ w.log) × (w'.in_flight ≡ w.in_flight))
    ⊎ (w.in_flight ≡ none)
      × (w'.log ≡ called (trim w.desired) ∷ w.log)
      × (w'.in_flight ≡ some (record { body = trim w.desired; ended = false }))

started : (w : Writer) → StartLeaves w (start w)
unfolding start
started w = ground arith

serial-start :
    (w : Writer)
    → open_call w.log ≡ some (under_way w.in_flight)
    → open_call (start w).log ≡ some (under_way (start w).in_flight)
serial-start w s = serial_by (started w)
  where
    serial_by :
        StartLeaves w (start w) → open_call (start w).log ≡ some (under_way (start w).in_flight)
    serial_by (inl (l, f)) = rw (l, f) s
    serial_by (inr (n, l, f)) = rw (l, f, s, n) refl

-- A start may come where the timer has just been cleared.
pub Sound-start :
    (initial : String) (w : Writer)
    → (w.acknowledged ≡ stored initial w.log)
    → (open_call w.log ≡ some (under_way w.in_flight))
    → (w.failed ≡ true → refused_last (last_refused w.log) (trim w.desired) ≡ true)
    → (w.failed ≡ true → same_body w.in_flight (trim w.desired) ≡ true)
    → Sound initial (start w)
unfolding start needs_write
Sound-start initial w i s b r =
    let e = same_text (trim w.desired) in
    record {
      in_step = ground (arith, i);
      serial = serial-start w s;
      awake = ground arith;
      blocked = λ h. ground (arith, b);
      repeating = λ h. ground (arith, r, e);
    }

pub Sound-timer_fired :
    (initial : String) (w : Writer) → Sound initial w → Sound initial (timer_fired w)
unfolding timer_fired
Sound-timer_fired initial w k =
    if_sound w.timer
      (Sound-start initial (record w { timer = false }) k.in_step k.serial k.blocked k.repeating)
  where
    if_sound :
        (fires : Bool)
        → Sound initial (start (record w { timer = false }))
        → Sound initial (if fires then start (record w { timer = false }) else w)
    if_sound true s = s
    if_sound false s = k

pub Sound-flush_began :
    (initial : String) (w : Writer) → Sound initial w → Sound initial (flush_began w)
unfolding flush_began
Sound-flush_began initial w k =
    Sound-start initial (record w { timer = false }) k.in_step k.serial k.blocked k.repeating

pub closes_own : (body : String) → closes body (some (some body)) ≡ some none
closes_own body = rw (same_text body) refl
