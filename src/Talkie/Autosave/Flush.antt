-- ===== src/Talkie/Autosave/Flush.antt =====
-- app/talkie/autosave.ts: `flush` ends.
use job_dashboard.Prelude.{
  ℕ, suc, ◌≡◌, refl, ◌∙◌, ap, ◌⊎◌, inl, inr, String, Bool, true, false, not, ◌&&◌, Option, none,
  some, is_some, List, [], ◌∷◌, arith,
}
use job_dashboard.Talkie.Autosave.{
  trim, Flight, Entry, called, accepted, refused, Writer, needs_write, start, outcome, landed,
  write_ended, freed, left, lane_freed, Flushed, returned, rejected, unfinished, accepts,
  flush_turn, flush_loop, flush,
}
use job_dashboard.Talkie.Autosave.Starts.{same_text}

-- The flush returned, with nothing to write and nothing under way.
abbrev pub is_clean : Flushed → Bool
is_clean (returned w) = not (needs_write w) && not (is_some w.in_flight)
is_clean (rejected w) = false
is_clean (unfinished w) = false

-- Lanes by what is under way: nothing, or a write of a body that has not ended.
abbrev pub idle : Writer → Writer
idle w = record w { in_flight = none }

abbrev pub writing : String → Writer → Writer
writing body w = record w { in_flight = some (record { body = body; ended = false }) }

abbrev pub taken : String → Writer → Writer
taken body w = record w { acknowledged = body; in_flight = none; log = accepted body ∷ w.log }

abbrev pub begun : Writer → Writer
begun w = record w {
  in_flight = some (record { body = trim w.desired; ended = false });
  log = called (trim w.desired) ∷ w.log;
}

nothing_to_write :
    (n : ℕ) (reply : String → Bool) (w : Writer)
    → needs_write w ≡ false
    → is_clean (flush_loop (suc n) reply (idle w)) ≡ true
unfolding flush_loop flush_turn needs_write
nothing_to_write n reply w h = ground (arith, h)

start-idle : (w : Writer) → needs_write w ≡ true → start (idle w) ≡ begun w
unfolding start needs_write
start-idle w h = rw h refl

freed-either : (w : Writer) → (freed w ≡ idle w) ⊎ (freed w ≡ begun w)
unfolding freed start needs_write
freed-either w = ground arith

accepts_running :
    (reply : String → Bool) (log : List Entry) (body : String)
    → reply body ≡ true
    → accepts reply log (record { body = body; ended = false }) ≡ true
unfolding accepts
accepts_running reply [] body h = h
accepts_running reply (accepted b ∷ log) body h = h
accepts_running reply (called b ∷ log) body h = h
accepts_running reply (refused b ∷ log) body h = h

turn-writing :
    (n : ℕ) (reply : String → Bool) (body : String) (w : Writer)
    → reply body ≡ true
    → flush_loop (suc n) reply (writing body w) ≡ flush_loop n reply (freed (taken body w))
unfolding flush_loop flush_turn write_ended landed outcome lane_freed left freed
turn-writing n reply body w h = rw (accepts_running reply w.log body h) refl

newest_written : (w : Writer) → needs_write (taken (trim w.desired) w) ≡ false
unfolding needs_write
newest_written w = let e = same_text (trim w.desired) in ground (arith, e)

freed_written : (w : Writer) → freed (taken (trim w.desired) w) ≡ idle (taken (trim w.desired) w)
unfolding freed needs_write
freed_written w = let e = same_text (trim w.desired) in ground (arith, e)

turn-idle :
    (n : ℕ) (reply : String → Bool) (w : Writer)
    → needs_write w ≡ true
    → flush_loop (suc n) reply (idle w) ≡ flush_loop n reply (begun w)
unfolding flush_loop flush_turn needs_write
turn-idle n reply w h = ground (arith, h, start-idle w h)

own_written :
    (n : ℕ) (reply : String → Bool) (w : Writer)
    → ((b : String) → reply b ≡ true)
    → is_clean (flush_loop (suc (suc n)) reply (begun w)) ≡ true
own_written n reply w all =
    let b = trim w.desired in
    let v : Writer = record w { log = called b ∷ w.log } in
    ap is_clean (turn-writing (suc n) reply b v (all b)) ∙ by_restart v (freed_written v)
  where
    by_restart :
        (v : Writer)
        → freed (taken (trim v.desired) v) ≡ idle (taken (trim v.desired) v)
        → is_clean (flush_loop (suc n) reply (freed (taken (trim v.desired) v))) ≡ true
    by_restart v f =
        ap (λ x. is_clean (flush_loop (suc n) reply x)) f
        ∙ nothing_to_write n reply (taken (trim v.desired) v) (newest_written v)

written_next :
    (n : ℕ) (reply : String → Bool) (w : Writer)
    → ((b : String) → reply b ≡ true)
    → is_clean (flush_loop (suc (suc (suc n))) reply (idle w)) ≡ true
written_next n reply w all = by_need (needs_write w) refl
  where
    by_need :
        (need : Bool)
        → needs_write w ≡ need
        → is_clean (flush_loop (suc (suc (suc n))) reply (idle w)) ≡ true
    by_need true h = ap is_clean (turn-idle (suc (suc n)) reply w h) ∙ own_written n reply w all
    by_need false h = nothing_to_write (suc (suc n)) reply w h

written_after :
    (n : ℕ) (reply : String → Bool) (body : String) (w : Writer)
    → ((b : String) → reply b ≡ true)
    → is_clean (flush_loop (suc (suc (suc (suc n)))) reply (writing body w)) ≡ true
written_after n reply body w all =
    ap is_clean (turn-writing (suc (suc (suc n))) reply body w (all body))
    ∙ by_restart (freed-either (taken body w))
  where
    by_restart :
        (freed (taken body w) ≡ idle (taken body w)) ⊎ (freed (taken body w) ≡ begun (taken body w))
        → is_clean (flush_loop (suc (suc (suc n))) reply (freed (taken body w))) ≡ true
    by_restart (inl f) =
        ap (λ x. is_clean (flush_loop (suc (suc (suc n))) reply x)) f
        ∙ written_next n reply (taken body w) all
    by_restart (inr f) =
        ap (λ x. is_clean (flush_loop (suc (suc (suc n))) reply x)) f
        ∙ own_written (suc n) reply (taken body w) all

-- No write waits for its `finally`.
abbrev pub settled : Option Flight → Bool
settled none = true
settled (some flight) = not flight.ended

-- Where the server accepts every write and nobody else acts on the lane, four turns of the loop are enough for `flush`
-- to return, whatever was under way and disposed of or not, and it leaves nothing to write and nothing under way.
pub flush_returns :
    (n : ℕ) (reply : String → Bool) (w : Writer)
    → ((b : String) → reply b ≡ true)
    → settled w.in_flight ≡ true
    → is_clean (flush (suc (suc (suc (suc n)))) reply w) ≡ true
unfolding flush
flush_returns n reply w all s = by_flight w.in_flight s
  where
    by_flight :
        (o : Option Flight)
        → settled o ≡ true
        → is_clean
            (flush_loop (suc (suc (suc (suc n)))) reply (record w { timer = false; in_flight = o }))
          ≡ true
    by_flight none s = written_next (suc n) reply (record w { timer = false }) all
    by_flight (some flight) s = by_phase flight.ended s
      where
        by_phase :
            (ended : Bool)
            → not ended ≡ true
            → is_clean (
                flush_loop (suc (suc (suc (suc n)))) reply (record w {
                  timer = false;
                  in_flight = some (record { body = flight.body; ended = ended });
                }))
              ≡ true
        by_phase true e = cc
        by_phase false e = written_after n reply flight.body (record w { timer = false }) all
