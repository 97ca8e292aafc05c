-- ===== src/Application/Effects/Events.antt =====
-- lib/applications/events.ts: what an event that was recorded has found, done and stored, and its repetition.
use job_dashboard.Prelude.{
  ℕ, ◌+◌, if◌then◌else◌, none, some, ◌≡◌, refl, sym, subst, Bool, true, false, not, Option, some,
  ◌∷◌, find, is_some, update_where, ◌||◌,
}
use job_dashboard.Application.State.{can_transition}
use job_dashboard.Application.Requests.{Lease, LeaseRef, EventRequest, EventResponse}
use job_dashboard.Application.Rows.{Worker, Application, Db, Env}
use job_dashboard.Application.Tx.{M, ◌>>=◌, return, current, update_application, insert_event}
use job_dashboard.Application.WorkerStore.{live_run, lease_of}
use job_dashboard.Application.Leases.{assigned, lease_matches, lease_in_time, checked_lease}
use job_dashboard.Application.Events.{
  event_evidence, releases, checkpoint_follows, advanced, next_lease, acknowledgement, event_row,
  acknowledge, check_event, fresh_event,
}
use job_dashboard.Application.Safety.Evolution.{Evolved-refl}
use job_dashboard.Application.Safety.Rules.{Ensures, Ensures-bind, Ensures-mono, find-IsIn}
use job_dashboard.Application.Safety.Leases.{Kept, Checked, Ensures-checked_lease}
use job_dashboard.Application.Safety.Requests.{Ensures-check_event}
use job_dashboard.Application.Effects.Rules.{
  Written, Ensures-update_exact, Ensures-insert_event_exact, Ensures-lease_of,
}

abbrev pub event_ref : ℕ → EventRequest → LeaseRef
event_ref application command = record {
  application_id = application;
  fence = command.fence;
  expected_revision = command.expected_revision;
}

-- The database after an event: the row has advanced, and the event is stored.
abbrev pub after_event : Env → ℕ → ℕ → EventRequest → Worker → Application → Db → Db
after_event env now application command worker app db = record db {
  applications = update_where (current app) (advanced app command) db.applications;
  events = event_row env now application command worker (advanced app command app) ∷ db.events;
}

-- What an event makes of the row: an event that releases takes the lease away and raises the fence.
abbrev pub IsAdvanced : EventRequest → Application → Application → Type 0
IsAdvanced command row new =
    (new.state ≡ command.state)
    × (new.checkpoint ≡ some command.checkpoint)
    × (new.reason_code ≡ command.reason_code)
    × (new.revision ≡ row.revision + 1)
    × (new.lease_until ≡ (if releases command then none else row.lease_until))
    × (new.fence ≡ (if releases command then row.fence + 1 else row.fence))

advanced-IsAdvanced :
    (command : EventRequest) (row : Application) → IsAdvanced command row (advanced row command row)
unfolding advanced
advanced-IsAdvanced command row = (refl, refl, refl, refl, refl, refl)

-- An event that was carried out: the row that it found under the worker's lease, the tests that it passed, the answer
-- and the database that it left.
pub record Recorded (env : Env) (now application : ℕ) (command : EventRequest) (worker : Worker)
    (db : Db) (answer : EventResponse) (db' : Db) : Type 0 where
  pub row : Application
  pub lease : Option Lease
  pub found : find (assigned worker application) db.applications ≡ some row
  pub matches : lease_matches row (event_ref application command) ≡ true
  pub in_time : lease_in_time row now ≡ true
  pub live : live_run env row now db ≡ true
  pub allowed : can_transition row.state command.state (event_evidence command.evidence) ≡ true
  pub follows : checkpoint_follows row command ≡ true
  pub reasoned : (not (releases command) || is_some command.reason_code) ≡ true
  pub kept_lease : is_some lease ≡ not (releases command)
  pub moved : IsAdvanced command row (advanced row command row)
  pub answered : answer ≡ acknowledgement now application command (advanced row command row) lease
  pub left : db' ≡ after_event env now application command worker row db

Ensures-next_lease :
    (E : Db → Type 0) (release : Bool) (row : Application) (db : Db)
    → Ensures
        (λ lease db'. (db' ≡ db) × (is_some lease ≡ not release))
        E
        (next_lease release row db)
unfolding next_lease
Ensures-next_lease E true row db = (refl, refl)
Ensures-next_lease E false row db =
    Ensures-bind {B = Option Lease} (λ _ db'. db' ≡ db)
      (λ lease db'. (db' ≡ db) × (is_some lease ≡ true)) E (lease_of row)
      (λ lease. return (some lease)) db (Ensures-lease_of E row db) (λ lease db' e. (e, refl))

module _ (env : Env) (now application : ℕ) (command : EventRequest) (worker : Worker) where
  Acknowledged : Application → Db → EventResponse → Db → Type 0
  Acknowledged row db answer db' =
      (lease : Option Lease) × (is_some lease ≡ not (releases command))
      × (answer ≡ acknowledgement now application command row lease)
      × (db' ≡ record db { events = event_row env now application command worker row ∷ db.events })

  Ensures-acknowledge :
      (E : Db → Type 0) (row : Application) (db : Db)
      → Ensures (Acknowledged row db) E (acknowledge env now application command worker row db)
  unfolding acknowledge Acknowledged
  Ensures-acknowledge E row db =
      Ensures-bind (λ lease db'. (db' ≡ db) × (is_some lease ≡ not (releases command)))
        (Acknowledged row db) E (next_lease (releases command) row) stored db
        (Ensures-next_lease E (releases command) row db)
        λ lease db' q.
          subst (λ d. Ensures (Acknowledged row db) E (stored lease d)) (sym q.0)
            (Ensures-bind {B = EventResponse}
              (λ _ db'. db' ≡ record db {
                events = event_row env now application command worker row ∷ db.events;
              })
              (Acknowledged row db) E
              (insert_event (event_row env now application command worker row))
              (λ _. return (acknowledgement now application command row lease)) db
              (Ensures-insert_event_exact E _ db) (λ _ d e. (lease, q.1, refl, e)))
    where
      stored : Option Lease → M EventResponse
      stored lease = insert_event (event_row env now application command worker row) >>= λ _.
          return (acknowledgement now application command row lease)

  after_test : Application → M EventResponse
  after_test app =
      update_application (current app) (advanced app command)
      >>= acknowledge env now application command worker

  after_check : Application → M EventResponse
  after_check app = check_event app command >>= λ _. after_test app

  pub Ensures-fresh_event :
      (db : Db)
      → Ensures
          (Recorded env now application command worker db)
          (Kept db.applications)
          (fresh_event env now application command worker db)
  unfolding fresh_event Acknowledged after_test after_check
  Ensures-fresh_event db =
      Ensures-bind (Checked env worker (event_ref application command) now db)
        (Recorded env now application command worker db) (Kept db.applications)
        (checked_lease env worker (event_ref application command) now) after_check db
        (Ensures-checked_lease env worker _ now db.applications db (Evolved-refl db.applications))
        λ app db' c.
          subst
            (λ d.
              Ensures (Recorded env now application command worker db) (Kept db.applications)
                (after_check app d))
            (sym c.unchanged)
            (Ensures-bind _ (Recorded env now application command worker db) (Kept db.applications)
              (check_event app command) (λ _. after_test app) db
              (Ensures-check_event (Kept db.applications) app command db)
              λ _ db' t.
                subst
                  (λ d.
                    Ensures (Recorded env now application command worker db) (Kept db.applications)
                      (after_test app d))
                  (sym t.0)
                  (Ensures-bind (Written (current app) (advanced app command) app db)
                    (Recorded env now application command worker db) (Kept db.applications)
                    (update_application (current app) (advanced app command)) _ db
                    (Ensures-update_exact _ (advanced app command) app db
                      (find-IsIn _ _ app c.found))
                    λ row d w.
                      Ensures-mono (Acknowledged row d)
                        (Recorded env now application command worker db) (Kept db.applications)
                        (Kept db.applications)
                        (acknowledge env now application command worker row d)
                        (Ensures-acknowledge (Kept db.applications) row d)
                        (λ answer d' (lease, k, a, l). record {
                          row = app;
                          lease = lease;
                          found = c.found;
                          matches = c.matches;
                          in_time = c.in_time;
                          live = c.live;
                          allowed = t.1;
                          follows = t.2;
                          reasoned = t.3;
                          kept_lease = k;
                          moved = advanced-IsAdvanced command app;
                          answered = cc;
                          left = cc;
                        })
                        (λ d' e. e)))
