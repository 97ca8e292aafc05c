-- ===== src/Talkie/Autosave/Lane.antt =====
-- app/talkie/autosave.ts: what a write lane keeps, whatever is done to it in whatever order.
use job_dashboard.Prelude.{
  ◌≡◌, String, str_eq, Bool, true, false, not, ◌||◌, Option, none, some, is_some, List, [], ◌∷◌,
  if◌then◌else◌,
}
use job_dashboard.Talkie.Autosave.{
  trim, Flight, Entry, called, accepted, refused, Writer, needs_write, set_desired, retry, dispose,
  start, timer_fired, flush_began, write_ended, lane_freed,
}

-- What may be done to a lane; `turns` is a later turn of the loop of a `flush`.
pub data Act : Type 0 where
  types : (body : String) → Act
  retries disposes fires flushes turns frees : Act
  ends : (ok : Bool) → Act

abbrev pub perform : Act → Writer → Writer
perform (types body) w = set_desired body w
perform retries w = retry w
perform disposes w = dispose w
perform fires w = timer_fired w
perform flushes w = flush_began w
perform turns w = start w
perform frees w = lane_freed w
perform (ends ok) w = write_ended ok w

abbrev pub acts : List Act → Writer → Writer
acts [] w = w
acts (a ∷ rest) w = acts rest (perform a w)

-- The body that the server has, by the log: the last one accepted, or the one that the lane was opened with.
abbrev pub stored : String → List Entry → String
stored initial [] = initial
stored initial (accepted body ∷ rest) = body
stored initial (called body ∷ rest) = stored initial rest
stored initial (refused body ∷ rest) = stored initial rest

-- The last body that the server refused.
abbrev pub last_refused : List Entry → Option String
last_refused [] = none
last_refused (refused body ∷ rest) = some body
last_refused (called body ∷ rest) = last_refused rest
last_refused (accepted body ∷ rest) = last_refused rest

-- The write that the log leaves open; none where a call came before the one before it had ended, or an end without its call.
abbrev pub opens : String → Option (Option String) → Option (Option String)
opens body (some none) = some (some body)
opens body _ = none

abbrev pub closes : String → Option (Option String) → Option (Option String)
closes body (some (some under_way)) = if str_eq under_way body then some none else none
closes body _ = none

abbrev pub open_call : List Entry → Option (Option String)
open_call [] = some none
open_call (called body ∷ rest) = opens body (open_call rest)
open_call (accepted body ∷ rest) = closes body (open_call rest)
open_call (refused body ∷ rest) = closes body (open_call rest)

abbrev pub under_way : Option Flight → Option String
under_way none = none
under_way (some flight) = if flight.ended then none else some flight.body

abbrev pub same_body : Option Flight → String → Bool
same_body none body = true
same_body (some flight) body = str_eq flight.body body

abbrev pub refused_last : Option String → String → Bool
refused_last none body = false
refused_last (some last) body = str_eq last body

pub record Sound (initial : String) (w : Writer) : Type 0 where
  pub in_step : w.acknowledged ≡ stored initial w.log
  pub serial : open_call w.log ≡ some (under_way w.in_flight)
  pub awake :
      (not (needs_write w) || w.disposed || w.failed || is_some w.in_flight || w.timer) ≡ true
  pub blocked : w.failed ≡ true → refused_last (last_refused w.log) (trim w.desired) ≡ true
  pub repeating : w.failed ≡ true → same_body w.in_flight (trim w.desired) ≡ true
