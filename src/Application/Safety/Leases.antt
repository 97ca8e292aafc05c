-- ===== src/Application/Safety/Leases.antt =====
-- lib/applications/leases.ts and worker-store.ts: what the check of a lease, a heartbeat and a revocation do to the rows.
use job_dashboard.Prelude.{
  ℕ, ◌≡◌, refl, true, not, ◌&&◌, some, List, arith, String, find, Bool-cases, inl, inr,
}
use job_dashboard.Application.State.{is_terminal_state}
use job_dashboard.Application.Requests.{LeaseRef}
use job_dashboard.Application.Rows.{Worker, Application, Db, Env}
use job_dashboard.Application.Tx.{lease_lost, deny, triggers_allow}
use job_dashboard.Application.WorkerStore.{released, release_application, live_run}
use job_dashboard.Application.Leases.{
  assigned, lease_matches, lease_in_time, settle_lease, checked_lease,
}
use job_dashboard.Application.Safety.Evolution.{Evolves, Evolved, IsIn}
use job_dashboard.Application.Safety.Rules.{
  Ensures, Ensures-bind, Ensures-fail_if, Ensures-require, Ensures-update, Updated, find-IsIn,
}

-- The rows have only evolved since `before`.
abbrev pub Kept : List Application → Db → Type 0
Kept before db = Evolved before db.applications

pub released-Evolves :
    (reason : String) (row : Application)
    → triggers_allow row (released reason row row) ≡ true
    → Evolves row (released reason row row)
unfolding released is_terminal_state
released-Evolves reason row h = ground arith

pub Ensures-release :
    (before : List Application) (row : Application) (reason : String) (db : Db)
    → Kept before db
    → IsIn row db.applications
    → Ensures
        (Updated before (released reason row row))
        (Kept before)
        (release_application row reason db)
unfolding release_application
Ensures-release before row reason db k m =
    Ensures-update (Kept before) before (released reason row) row db k m
      (released-Evolves reason row)

-- What the check of a lease has found when it returns the row.
pub record Checked (env : Env) (worker : Worker) (ref : LeaseRef) (now : ℕ) (db : Db)
    (app : Application) (db' : Db) : Type 0 where
  pub unchanged : db' ≡ db
  pub found : find (assigned worker ref.application_id) db.applications ≡ some app
  pub matches : lease_matches app ref ≡ true
  pub in_time : lease_in_time app now ≡ true
  pub live : live_run env app now db ≡ true

settle :
    (env : Env) (worker : Worker) (ref : LeaseRef) (now : ℕ) (before : List Application) (db : Db)
    (app : Application)
    → Kept before db
    → find (assigned worker ref.application_id) db.applications ≡ some app
    → lease_matches app ref ≡ true
    → Ensures
        (Checked env worker ref now db)
        (Kept before)
        (settle_lease app (lease_in_time app now && live_run env app now db) db)
unfolding settle_lease
settle env worker ref now before db app k f m =
    elim (Bool-cases (lease_in_time app now && live_run env app now db)) [
      | inl fine ↦ rw fine (record {
        unchanged = refl;
        found = f;
        matches = m;
        in_time = ground arith;
        live = ground arith;
      })
      | inr lost ↦ rw lost (
          Ensures-bind (Updated before (released "lease_lost" app app)) _ (Kept before)
            (release_application app "lease_lost") (λ _. deny 409 lease_lost) db
            (Ensures-release before app "lease_lost" db k (find-IsIn _ _ app f)) (λ a db' u. u.1))
    ]

pub Ensures-checked_lease :
    (env : Env) (worker : Worker) (ref : LeaseRef) (now : ℕ) (before : List Application) (db : Db)
    → Kept before db
    → Ensures (Checked env worker ref now db) (Kept before) (checked_lease env worker ref now db)
unfolding checked_lease
Ensures-checked_lease env worker ref now before db k =
    Ensures-require _ (Kept before) (find (assigned worker ref.application_id) db.applications) 409
      lease_lost _ db
      λ app e.
        Ensures-fail_if _ (Kept before) (not (lease_matches app ref)) 409 lease_lost _ db
          λ matches. settle env worker ref now before db app k e (ground arith)
