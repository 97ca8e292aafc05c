-- ===== src/Application/Safety/Requests.antt =====
-- Each request of a worker or an applicant keeps the rows evolving.
use job_dashboard.Prelude.{
  ℕ, ◌≡◌, sym, subst, Bool, true, false, not, ◌||◌, Option, none, some, List, arith, find, is_some,
  Bool-cases, inl, inr, ◌==◌,
}
use job_dashboard.Application.State.{can_transition, is_waiting_state, is_terminal_state}
use job_dashboard.Application.Requests.{Lease, LeaseRef, EventRequest, EventResponse}
use job_dashboard.Application.Rows.{Worker, Application, Event, Db, Env}
use job_dashboard.Application.Tx.{
  Code, M, ◌>>=◌, ◌>>◌, return, fail_if, current, triggers_allow, update_application, update_worker,
  insert_event, event_key,
}
use job_dashboard.Application.WorkerStore.{lease_of}
use job_dashboard.Application.Leases.{assigned, checked_lease, renewed, renew, seen, beat}
use job_dashboard.Application.Events.{
  event_evidence, check_event, acknowledge, acknowledgement, event_row, releases, answer_event,
  checkpoint_follows, advanced, next_lease, replayed, fresh_event, record_event,
}
use job_dashboard.Application.Safety.Evolution.{Evolves}
use job_dashboard.Application.Safety.Rules.{
  Ensures, Ensures-bind, Ensures-fail_if, Ensures-require, Ensures-update, Ensures-insert_event,
  Updated, find-IsIn,
}
use job_dashboard.Application.Safety.Leases.{Kept, Checked, Ensures-checked_lease}
use job_dashboard.Application.Safety.Revocation.{Keeps, Keeps-same, Keeps-then, Keeps-update_worker}

pub Keeps-lease_of :
    (before : List Application) (app : Application) (db : Db) → Keeps before (lease_of app) db
unfolding lease_of
Keeps-lease_of before app db k =
    Ensures-require _ (Kept before) app.lease_until 409 _ _ db
      λ until e. Ensures-require _ (Kept before) (find _ db.runs) 409 _ _ db λ run f. k

renewed-Evolves :
    (now : ℕ) (row : Application)
    → triggers_allow row (renewed now row) ≡ true
    → Evolves row (renewed now row)
unfolding renewed
renewed-Evolves now row h = ground arith

Keeps-renew :
    (env : Env) (before : List Application) (worker : Worker) (now : ℕ) (ref : LeaseRef) (db : Db)
    → Keeps before (renew env worker now ref) db
unfolding renew
Keeps-renew env before worker now ref db k =
    Ensures-bind (Checked env worker ref now db) _ (Kept before) (checked_lease env worker ref now)
      _ db (Ensures-checked_lease env worker ref now before db k)
      λ app db' c.
        subst (λ d. Ensures (λ _. Kept before) (Kept before) (rest app d)) (sym c.unchanged)
          (Ensures-fail_if {B = Option Lease} (λ _. Kept before) (Kept before)
            (is_waiting_state app.state || is_terminal_state app.state) 409 Code.lease_lost _ db
            λ open_state.
              Ensures-bind {B = Option Lease} (Updated before (renewed now app)) (λ _. Kept before)
                (Kept before) (update_application (current app) (renewed now)) _ db
                (Ensures-update (Kept before) before (renewed now) app db k
                  (find-IsIn _ _ app c.found) (renewed-Evolves now app))
                λ row d u.
                  Keeps-then before (lease_of row) (λ lease. return (some lease)) d
                    (Keeps-lease_of before row d) (λ lease e ke. ke) u.1)
  where
    rest : Application → M (Option Lease)
    rest app = do
      fail_if (is_waiting_state app.state || is_terminal_state app.state) 409 Code.lease_lost
      row ← update_application (current app) (renewed now)
      lease ← lease_of row
      return (some lease)

pub Keeps-beat :
    (env : Env) (before : List Application) (now : ℕ) (lease : Option LeaseRef) (worker : Worker)
    (db : Db)
    → Keeps before (beat env now lease worker) db
unfolding beat
Keeps-beat env before now none worker db =
    Keeps-then {B = Option Lease} before (update_worker worker (seen now)) (λ _. return none) db
      (Keeps-update_worker before worker (seen now) db) (λ _ db' k. k)
Keeps-beat env before now (some ref) worker db =
    Keeps-then before (update_worker worker (seen now)) (λ _. renew env worker now ref) db
      (Keeps-update_worker before worker (seen now) db)
      (λ _ db'. Keeps-renew env before worker now ref db')

advanced-Evolves :
    (row : Application) (command : EventRequest)
    → can_transition row.state command.state (event_evidence command.evidence) ≡ true
    → triggers_allow row (advanced row command row) ≡ true
    → Evolves row (advanced row command row)
unfolding advanced is_terminal_state is_waiting_state can_transition event_evidence
advanced-Evolves row command c h = ground arith

Keeps-insert_event :
    (before : List Application) (e : Event) (db : Db) → Keeps before (insert_event e) db
Keeps-insert_event before e db =
    Keeps-same before (insert_event e) db (Ensures-insert_event (Kept before) e db)

Keeps-next_lease :
    (before : List Application) (release : Bool) (row : Application) (db : Db)
    → Keeps before (next_lease release row) db
unfolding next_lease
Keeps-next_lease before true row db k = k
Keeps-next_lease before false row db k =
    Keeps-then {B = Option Lease} before (lease_of row) (λ lease. return (some lease)) db
      (Keeps-lease_of before row db) (λ lease d ke. ke) k

Keeps-acknowledge :
    (env : Env) (before : List Application) (now application : ℕ) (command : EventRequest)
    (worker : Worker) (row : Application) (db : Db)
    → Keeps before (acknowledge env now application command worker row) db
unfolding acknowledge
Keeps-acknowledge env before now application command worker row db =
    Keeps-then before (next_lease (releases command) row) _ db (Keeps-next_lease before _ row db)
      λ lease db'.
        Keeps-then {B = EventResponse} before
          (insert_event (event_row env now application command worker row))
          (λ _. return (acknowledgement now application command row lease)) db'
          (Keeps-insert_event before _ db') (λ _ d k. k)

pub Ensures-check_event :
    (E : Db → Type 0) (app : Application) (command : EventRequest) (db : Db)
    → Ensures
        (λ _ db'.
          (db' ≡ db)
          × (can_transition app.state command.state (event_evidence command.evidence) ≡ true)
          × (checkpoint_follows app command ≡ true)
          × ((not (releases command) || is_some command.reason_code) ≡ true))
        E
        (check_event app command db)
unfolding check_event
Ensures-check_event E app command db = ground arith

Keeps-fresh_event :
    (env : Env) (before : List Application) (now application : ℕ) (command : EventRequest)
    (worker : Worker) (db : Db)
    → Keeps before (fresh_event env now application command worker) db
unfolding fresh_event
Keeps-fresh_event env before now application command worker db k =
    Ensures-bind (Checked env worker ref now db) (λ _. Kept before) (Kept before)
      (checked_lease env worker ref now) after_check db
      (Ensures-checked_lease env worker ref now before db k)
      λ app db' c.
        subst (λ d. Ensures (λ _. Kept before) (Kept before) (after_check app d)) (sym c.unchanged)
          (Ensures-bind _ (λ _. Kept before) (Kept before) (check_event app command)
            (λ _. after_test app) db (Ensures-check_event (Kept before) app command db)
            λ _ db' t.
              subst (λ d. Ensures (λ _. Kept before) (Kept before) (after_test app d)) (sym t.0)
                (Ensures-bind (Updated before (advanced app command app)) (λ _. Kept before)
                  (Kept before) (update_application (current app) (advanced app command)) _ db
                  (Ensures-update (Kept before) before (advanced app command) app db k
                    (find-IsIn _ _ app c.found) (advanced-Evolves app command t.1))
                  λ row d u. Keeps-acknowledge env before now application command worker row d u.1))
  where
    ref : LeaseRef
    ref = record {
      application_id = application;
      fence = command.fence;
      expected_revision = command.expected_revision;
    }

    after_test : Application → M EventResponse
    after_test app =
        update_application (current app) (advanced app command)
        >>= acknowledge env now application command worker

    after_check : Application → M EventResponse
    after_check app = check_event app command >>= λ _. after_test app

Keeps-answer_event :
    (env : Env) (before : List Application) (now application : ℕ) (command : EventRequest)
    (worker : Worker) (previous : Option Event) (db : Db)
    → Keeps before (answer_event env now application command worker previous) db
unfolding answer_event replayed
Keeps-answer_event env before now application command worker none db k =
    Keeps-fresh_event env before now application command worker db k
Keeps-answer_event env before now application command worker (some event) db k =
    elim (Bool-cases (event.request_hash == env.hash_event command)) [
      | inl again ↦ rw again k
      | inr other ↦ rw other tt
    ]

pub Keeps-record_event :
    (env : Env) (before : List Application) (now application : ℕ) (command : EventRequest)
    (worker : Worker) (db : Db)
    → Keeps before (record_event env now application command worker) db
unfolding record_event
Keeps-record_event env before now application command worker db k =
    Ensures-require {B = EventResponse} (λ _. Kept before) (Kept before)
      (find (assigned worker application) db.applications) 404 Code.not_found _ db
      λ owned e.
        Keeps-answer_event env before now application command worker
          (find (event_key worker.owner_id application command.event_id) db.events) db k
