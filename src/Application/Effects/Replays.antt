-- ===== src/Application/Effects/Replays.antt =====
-- lib/applications/events.ts: an event that is fresh, one that is repeated and one that comes too late.
use job_dashboard.Prelude.{
  ℕ, ◌==◌, ◌≡◌, refl, Bool, true, false, Option, none, some, List, [], ◌∷◌, arith, find,
  update_where, if◌then◌else◌, Bool-cases, inl, inr,
}
use job_dashboard.Application.Requests.{LeaseRef, EventRequest, EventResponse}
use job_dashboard.Application.Rows.{Worker, Application, Event, Db, Env}
use job_dashboard.Application.Tx.{
  done, thrown, ◌>>=◌, read, require, not_found, worker_error, lease_lost, app_scope, current,
  event_key,
}
use job_dashboard.Application.Leases.{assigned, lease_matches, checked_lease}
use job_dashboard.Application.Events.{
  advanced, replayed, event_row, fresh_event, answer_event, record_event,
}
use job_dashboard.Application.Effects.Rules.{Ensures_done, bind_thrown}
use job_dashboard.Application.Effects.Events.{event_ref, after_event, Recorded, Ensures-fresh_event}
use job_dashboard.Application.Safety.Leases.{Kept}

find_update :
    (p q : Application → Bool) (set : Application → Application) (xs : List Application)
    (row : Application)
    → ((a : Application) → p a ≡ true → p (set a) ≡ true)
    → find p xs ≡ some row
    → (new : Application) × (find p (update_where q set xs) ≡ some new)
unfolding find update_where
find_update p q set [] row k e = cc
find_update p q set (x ∷ xs) row k e = elim (Bool-cases (p (if q x then set x else x))) [
  | inl hit ↦ (if q x then set x else x, rw hit refl)
  | inr miss ↦ rw miss (find_update p q set xs row k (ground (arith, k x)))
]

advanced-assigned :
    (worker : Worker) (application : ℕ) (app : Application) (command : EventRequest)
    (a : Application)
    → assigned worker application a ≡ true
    → assigned worker application (advanced app command a) ≡ true
unfolding assigned advanced app_scope
advanced-assigned worker application app command a h = h

checked_lease-stale :
    (env : Env) (now : ℕ) (worker : Worker) (db : Db) (row : Application) (ref : LeaseRef)
    → find (assigned worker ref.application_id) db.applications ≡ some row
    → lease_matches row ref ≡ false
    → checked_lease env worker ref now db ≡ thrown (worker_error 409 lease_lost)
unfolding checked_lease
checked_lease-stale env now worker db row ref f m = rw (f, m) refl

module _ (env : Env) (now application : ℕ) (command : EventRequest) (worker : Worker)
    (db : Db) where
  -- The request id that an event stands under is known to the database.
  abbrev pub known_event : Option Event
  known_event = find (event_key worker.owner_id application command.event_id) db.events

  fresh :
      (owned : Option Application) (answer : EventResponse) (db' : Db)
      → known_event ≡ none
      → (require owned 404 not_found >>= λ _.
            read (λ d. find (event_key worker.owner_id application command.event_id) d.events)
            >>= answer_event env now application command worker)
          db
        ≡ done answer db'
      → fresh_event env now application command worker db ≡ done answer db'
  unfolding answer_event
  fresh none answer db' h e = cc
  fresh (some row) answer db' h e = rw h at e

  -- A new event that is recorded has found the application under the worker's lease, at the fence and revision of the
  -- request, in time and with a live run; the transition test, the checkpoint and the reason hold; the row advances to
  -- the requested state at the next revision, keeping its lease exactly if the event does not release it, and the event
  -- is stored with its answer. Nothing else in the database changes.
  pub record_event-Recorded :
      (answer : EventResponse) (db' : Db)
      → known_event ≡ none
      → record_event env now application command worker db ≡ done answer db'
      → Recorded env now application command worker db answer db'
  unfolding record_event
  record_event-Recorded answer db' h e =
      Ensures_done (Recorded env now application command worker db) (Kept db.applications)
        (fresh_event env now application command worker db) answer db'
        (Ensures-fresh_event env now application command worker db)
        (fresh (find (assigned worker application) db.applications) answer db' h e)

  stored_first :
      (row : Application)
      → find
          (event_key worker.owner_id application command.event_id)
          (after_event env now application command worker row db).events
        ≡ some (event_row env now application command worker (advanced row command row))
  unfolding find event_key
  stored_first row = ground arith

  -- The repetition of an event that was recorded, on the database that the first call left and whatever the clock says, is
  -- answered as at first but for the lease and the clock, and changes nothing.
  pub record_event-record_event :
      (answer : EventResponse) (db' : Db) (later : ℕ)
      → known_event ≡ none
      → record_event env now application command worker db ≡ done answer db'
      → record_event env later application command worker db'
        ≡ done (record answer { replayed = true; lease = none; server_time = later }) db'
  unfolding record_event answer_event replayed
  record_event-record_event answer db' later h e =
      let r = record_event-Recorded answer db' h e in
      let (new, f) =
        find_update (assigned worker application) (current r.row) (advanced r.row command)
          db.applications r.row (advanced-assigned worker application r.row command) r.found in
      let same : (env.hash_event command == env.hash_event command) ≡ true = ground arith in
      rw (r.left, r.answered, f, stored_first r.row, same) refl

  fresh_event-stale :
      (row : Application)
      → find (assigned worker application) db.applications ≡ some row
      → lease_matches row (event_ref application command) ≡ false
      → fresh_event env now application command worker db ≡ thrown (worker_error 409 lease_lost)
  unfolding fresh_event
  fresh_event-stale row f m =
      bind_thrown (checked_lease env worker (event_ref application command) now) _ db _
        (checked_lease-stale env now worker db row (event_ref application command) f m)

  -- A new event for an application of the worker, at another fence or revision than the application's present ones or
  -- when it is not leased, fails and leaves the database as it was.
  pub record_event-stale :
      (row : Application)
      → known_event ≡ none
      → find (assigned worker application) db.applications ≡ some row
      → lease_matches row (event_ref application command) ≡ false
      → record_event env now application command worker db ≡ thrown (worker_error 409 lease_lost)
  unfolding record_event answer_event
  record_event-stale row h f m = rw (f, h) (fresh_event-stale row f m)
