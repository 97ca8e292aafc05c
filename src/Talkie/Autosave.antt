-- ===== src/Talkie/Autosave.antt =====
-- app/talkie/autosave.ts: one note's write lane. The three callbacks of a write (`then` or `catch`, and `finally`) are two
-- steps, since others may act between them; the log is what the function `write` of the options was called with and how
-- each call ended. A coordinate of a note is a number, since it is only compared.
use job_dashboard.Prelude.{
  ℕ, zero, suc, ◌==◌, leb, String, str_eq, Bool, true, false, not, ◌&&◌, ◌||◌, Option, none, some,
  is_some, holds, List, [], ◌∷◌, if◌then◌else◌,
}
use Prim.Native.String.{String}
use Prim.Native.Char.{Char, code}
pub mod Lane
pub mod Flush
pub mod Starts
pub mod Kept
pub mod Rest
pub mod Tests

-- White space and line terminators.
abbrev pub is_space : Char → Bool
is_space c =
    (leb 9 (code c) && leb (code c) 13)
    || code c == 32
    || code c == 160
    || code c == 5760
    || (leb 8192 (code c) && leb (code c) 8202)
    || code c == 8232
    || code c == 8233
    || code c == 8239
    || code c == 8287
    || code c == 12288
    || code c == 65279

abbrev pub is_blank : String → Bool
is_blank String.[] = true
is_blank (String.◌∷◌ c rest) = false

trim_start : String → String
trim_start String.[] = String.[]
trim_start (String.◌∷◌ c rest) =
    let skipped = trim_start rest in if is_space c then skipped else String.◌∷◌ c rest

trim_end : String → String
trim_end String.[] = String.[]
trim_end (String.◌∷◌ c rest) =
    let kept = trim_end rest in if is_space c && is_blank kept then String.[] else String.◌∷◌ c kept

-- `trim` of a text.
unfoldable pub trim : String → String
unfolding trim_start trim_end
trim text = trim_end (trim_start text)

pub record Reconciled : Type 0 where
  pub patch_body : Option String
  pub matches : Bool

unfoldable pub reconcile_body : (current_body persisted_body : String) → Reconciled
reconcile_body current_body persisted_body =
    let same = str_eq (trim current_body) (trim persisted_body) in
    record { patch_body = if same then none else some (trim current_body); matches = same }

unfoldable pub should_attach_server_id : Option String → String → Bool
should_attach_server_id active response = holds (λ key. str_eq key response) active

pub record Draft : Type 0 where
  pub body : String
  pub x : ℕ
  pub y : ℕ
  pub w : ℕ
  pub h : ℕ

unfoldable pub same_note_draft : (current persisted : Draft) → Bool
same_note_draft current persisted =
    (reconcile_body current.body persisted.body).matches
    && current.x == persisted.x
    && current.y == persisted.y
    && current.w == persisted.w
    && current.h == persisted.h

-- A write under way: its body, and whether its outcome is known already, so that only `finally` is left.
pub record Flight : Type 0 where
  pub body : String
  pub ended : Bool

pub data Entry : Type 0 where
  called accepted refused : (body : String) → Entry

-- The fields of a `DeferredEditWriter`, the latest entry of the log first. `timer` is whether a timeout is to come.
pub record Writer : Type 0 where
  pub acknowledged : String
  pub desired : String
  pub in_flight : Option Flight
  pub timer : Bool
  pub disposed : Bool
  pub failed : Bool
  pub log : List Entry

unfoldable pub opened : String → Writer
opened initial = record {
  acknowledged = trim initial;
  desired = initial;
  in_flight = none;
  timer = false;
  disposed = false;
  failed = false;
  log = [];
}

unfoldable pub needs_write : Writer → Bool
needs_write w = not (is_blank (trim w.desired)) && not (str_eq (trim w.desired) w.acknowledged)

unfoldable pub schedule : Writer → Writer
schedule w = if w.disposed || not (needs_write w) then w else record w { timer = true }

unfoldable pub set_desired : String → Writer → Writer
set_desired body w = schedule (record w { desired = body; failed = false })

unfoldable pub retry : Writer → Writer
retry w = schedule (record w { failed = false })

unfoldable pub dispose : Writer → Writer
dispose w = record w { disposed = true; timer = false }

-- `start` up to the call of `write`.
unfoldable pub start : Writer → Writer
start w = if is_some w.in_flight || not (needs_write w) then w else record w {
  in_flight = some (record { body = trim w.desired; ended = false });
  log = called (trim w.desired) ∷ w.log;
}

-- The timeout.
unfoldable pub timer_fired : Writer → Writer
timer_fired w = if w.timer then start (record w { timer = false }) else w

-- The beginning of `flush`, its first turn of the loop included.
unfoldable pub flush_began : Writer → Writer
flush_began w = start (record w { timer = false })

unfoldable pub outcome : Bool → String → Writer → Writer
outcome true body w = record w {
  acknowledged = body;
  in_flight = some (record { body = body; ended = true });
  log = accepted body ∷ w.log;
}
outcome false body w = record w {
  failed = w.failed || str_eq (trim w.desired) body;
  in_flight = some (record { body = body; ended = true });
  log = refused body ∷ w.log;
}

unfoldable pub landed : Bool → Writer → Option Flight → Writer
landed ok w none = w
landed ok w (some flight) = if flight.ended then w else outcome ok flight.body w

-- The `then` or the `catch` of the write under way.
unfoldable pub write_ended : Bool → Writer → Writer
write_ended ok w = landed ok w w.in_flight

unfoldable pub freed : Writer → Writer
freed w =
    let free : Writer = record w { in_flight = none } in
    if not w.disposed && not w.failed && needs_write free then start free else free

unfoldable pub left : Writer → Option Flight → Writer
left w none = w
left w (some flight) = if flight.ended then freed w else w

-- Its `finally`.
unfoldable pub lane_freed : Writer → Writer
lane_freed w = left w w.in_flight

-- How a `flush` ends; `unfinished` where the turns that it is given do not suffice.
pub data Flushed : Type 0 where
  returned rejected unfinished : Writer → Flushed

-- Whether the write under way is accepted, by what the server replies or has replied.
unfoldable pub accepts : (String → Bool) → List Entry → Flight → Bool
accepts reply (accepted body ∷ rest) flight = flight.ended || reply flight.body
accepts reply log flight = not flight.ended && reply flight.body

-- One turn of the loop, where nobody else acts on the lane; a `start` and the wait for it are two turns.
unfoldable pub flush_turn : (String → Bool) → (Writer → Flushed) → Writer → Option Flight → Flushed
flush_turn reply next w none =
    let begun = next (start w) in if needs_write w then begun else returned w
flush_turn reply next w (some flight) =
    let ok = accepts reply w.log flight in
    let after = lane_freed (write_ended ok w) in
    let waited = next after in if ok then waited else rejected after

unfoldable pub flush_loop : (fuel : ℕ) → (String → Bool) → Writer → Flushed
flush_loop zero reply w = unfinished w
flush_loop (suc fuel) reply w = flush_turn reply (flush_loop fuel reply) w w.in_flight

unfoldable pub flush : (fuel : ℕ) → (String → Bool) → Writer → Flushed
flush fuel reply w = flush_loop fuel reply (record w { timer = false })
