-- ===== src/Application/Safety/Revocation.antt =====
-- lib/applications/worker-store.ts: the revocation of a worker and the transaction around its requests.
use job_dashboard.Prelude.{
  ℕ, sym, subst, Bool, true, false, Option, none, some, List, String, find, is_some, Bool-cases,
  Option-cases, inl, inr, select,
}
use job_dashboard.Application.Rows.{Pairing, Worker, Run, Application, Db, Env}
use job_dashboard.Application.Tx.{
  Outcome, done, denied, thrown, M, ◌>>=◌, return, read, for_each, update_worker, update_pairing,
  update_run,
}
use job_dashboard.Application.WorkerStore.{
  release_application, invalidate_pairing, revoke_pairing, revoke_worker, pause_runs,
  release_active, invalidate_worker, pairing_of, active_of,
}
use job_dashboard.Application.Session.{
  credential_binding, settle_worker, current_worker, token_shape, commit, admit, with_known_worker,
  with_worker,
}
use job_dashboard.Application.Safety.Evolution.{Evolved, Evolved-refl, IsIn}
use job_dashboard.Application.Safety.Rules.{
  Ensures, Ensures-bind, Ensures-for_each, Ensures-for_each-All, Ensures-both, Ensures-mono,
  SameApps, Ensures-update_worker, Ensures-update_pairing, Ensures-update_run,
}
use job_dashboard.Application.Safety.Keys.{
  Distinct, Distinct-Evolved, Ensures-release_stale, select-All-IsIn,
}
use job_dashboard.Application.Safety.Leases.{Kept}

-- A step that keeps the rows evolving, whatever it answers.
abbrev pub Keeps : {A : Type 0} → List Application → M A → Db → Type 0
Keeps before m db = Kept before db → Ensures (λ _. Kept before) (Kept before) (m db)

pub Keeps-same :
    {A : Type 0} (before : List Application) (m : M A) (db : Db)
    → Ensures (λ _. SameApps db) (Kept before) (m db)
    → Keeps before m db
Keeps-same before m db h k =
    Ensures-mono (λ _. SameApps db) (λ _. Kept before) (Kept before) (Kept before) (m db) h
      (λ a db' e. subst (Evolved before) (sym e) k) (λ db' e. e)

pub Keeps-then :
    {A B : Type 0} (before : List Application) (m : M A) (f : A → M B) (db : Db)
    → Keeps before m db
    → ((a : A) (db' : Db) → Keeps before (f a) db')
    → Keeps before (m >>= f) db
Keeps-then before m f db h g k =
    Ensures-bind (λ _. Kept before) (λ _. Kept before) (Kept before) m f db (h k) g

pub Keeps-update_worker :
    (before : List Application) (row : Worker) (set : Worker → Worker) (db : Db)
    → Keeps before (update_worker row set) db
Keeps-update_worker before row set db =
    Keeps-same before (update_worker row set) db (Ensures-update_worker (Kept before) row set db)

Keeps-update_pairing :
    (before : List Application) (row : Pairing) (set : Pairing → Pairing) (db : Db)
    → Keeps before (update_pairing row set) db
Keeps-update_pairing before row set db =
    Keeps-same before (update_pairing row set) db (Ensures-update_pairing (Kept before) row set db)

Keeps-update_run :
    (before : List Application) (row : Run) (set : Run → Run) (db : Db)
    → Keeps before (update_run row set) db
Keeps-update_run before row set db =
    Keeps-same before (update_run row set) db (Ensures-update_run (Kept before) row set db)

Keeps-revoke_worker :
    (before : List Application) (row : Worker) (now : ℕ) (db : Db)
    → Keeps before (revoke_worker row now) db
unfolding revoke_worker
Keeps-revoke_worker before row now db k = elim (Bool-cases (is_some row.revoked_at)) [
  | inl old ↦ rw old k
  | inr new ↦ rw new (Keeps-update_worker before row _ db k)
]

Keeps-revoke_pairing :
    (before : List Application) (row : Option Pairing) (now : ℕ) (db : Db)
    → Keeps before (revoke_pairing row now) db
unfolding revoke_pairing invalidate_pairing
Keeps-revoke_pairing before none now db k = k
Keeps-revoke_pairing before (some row) now db k = elim (Bool-cases (is_some row.revoked_at)) [
  | inl old ↦ rw old k
  | inr new ↦ rw new (Keeps-update_pairing before row _ db k)
]

Keeps-pause_runs :
    (before : List Application) (row : Worker) (db : Db) → Keeps before (pause_runs row) db
unfolding pause_runs
Keeps-pause_runs before row db k =
    Ensures-for_each (Kept before) _ (select _ db.runs) db
      (λ run db' h.
        Ensures-bind (λ _. Kept before) (λ _. Kept before) (Kept before) (update_run run _)
          (λ _. return tt) db' (Keeps-update_run before run _ db' h) (λ a d kd. kd))
      k

-- The rows that were read have only evolved, and so have those of the transaction's start.
abbrev pub Both : List Application → List Application → Db → Type 0
Both before read db = Kept before db × Kept read db

release_one_lem :
    (before read : List Application) (app : Application) (db : Db)
    → Distinct read
    → IsIn app read
    → Both before read db
    → Ensures
        (λ _. Both before read)
        (Both before read)
        ((release_application app "worker_revoked" >>= λ _. return tt) db)
release_one_lem before read app db d m h =
    Ensures-bind (λ _. Both before read) (λ _. Both before read) (Both before read)
      (release_application app "worker_revoked") (λ _. return tt) db
      (Ensures-both _ _ _ _ (release_application app "worker_revoked" db)
        (Ensures-release_stale before read app "worker_revoked" db d m h.1 h.0)
        (Ensures-release_stale read read app "worker_revoked" db d m h.1 h.1))
      (λ a db' k. k)

Keeps-release_active :
    (before : List Application) (row : Worker) (db : Db)
    → Distinct before
    → Keeps before (release_active row) db
unfolding release_active
Keeps-release_active before row db d k =
    Ensures-mono (λ _. Both before db.applications) (λ _. Kept before) (Both before db.applications)
      (Kept before) (for_each (select (active_of row) db.applications) _ db)
      (Ensures-for_each-All (λ a. IsIn a db.applications) (Both before db.applications) _
        (select (active_of row) db.applications) db (select-All-IsIn _ db.applications)
        (λ app db' m h.
          release_one_lem before db.applications app db' (Distinct-Evolved before _ k d) m h)
        (k, Evolved-refl db.applications))
      (λ a db' h. h.0) (λ db' h. h.0)

pub Keeps-invalidate_worker :
    (before : List Application) (row : Worker) (now : ℕ) (db : Db)
    → Distinct before
    → Keeps before (invalidate_worker row now) db
unfolding invalidate_worker
Keeps-invalidate_worker before row now db d =
    Keeps-then before (revoke_worker row now) _ db (Keeps-revoke_worker before row now db) λ _ db1.
      Keeps-then before (revoke_pairing (find (pairing_of row) db1.pairings) now) _ db1
        (Keeps-revoke_pairing before _ now db1)
        λ _ db2.
          Keeps-then before (pause_runs row) (λ _. release_active row) db2
            (Keeps-pause_runs before row db2) (λ _ db3. Keeps-release_active before row db3 d)

Keeps-settle_worker :
    (before : List Application) (row : Worker) (valid : Bool) (now : ℕ) (db : Db)
    → Distinct before
    → Keeps before (settle_worker row valid now) db
unfolding settle_worker
Keeps-settle_worker before row true now db d k = k
Keeps-settle_worker before row false now db d k =
    Keeps-then before (invalidate_worker row now) (λ _. return false) db
      (Keeps-invalidate_worker before row now db d) (λ _ db' k'. k') k

pub Keeps-current_worker :
    (env : Env) (before : List Application) (row : Worker) (now : ℕ) (db : Db)
    → Distinct before
    → Keeps before (current_worker env row now) db
unfolding current_worker credential_binding
Keeps-current_worker env before row now db d k = elim (Option-cases env.household) [
  | inl missing ↦ rw missing tt
  | inr (profiles, e) ↦ rw e (Keeps-settle_worker before row _ now db d k)
]

Kept-commit :
    {A : Type 0} (before : List Application) (db : Db) (o : Outcome A)
    → Kept before db
    → Ensures (λ _. Kept before) (Kept before) o
    → Kept before (commit db o).1
unfolding commit
Kept-commit before db (done a db') k h = h
Kept-commit before db (denied e db') k h = h
Kept-commit before db (thrown e) k h = k

Keeps-with_known_worker :
    {A : Type 0} (env : Env) (now : ℕ) (worker : Option Worker) (action : Worker → M A) (db : Db)
    (before : List Application)
    → Distinct before
    → ((w : Worker) (db' : Db) → Keeps before (action w) db')
    → Keeps before (with_known_worker env now worker action) db
unfolding with_known_worker
Keeps-with_known_worker env now none action db before d h k = k
Keeps-with_known_worker env now (some w) action db before d h k =
    Keeps-then before (current_worker env w now) _ db (Keeps-current_worker env before w now db d)
      admitted k
  where
    admitted : (valid : Bool) (db' : Db) → Keeps before (admit w valid action) db'
    admitted valid db' k =
        unfold admit in
        (elim valid as (λ v. Ensures (λ _. Kept before) (Kept before) (admit w v action db')) [
          | true ↦ h w db' k
          | false ↦ k
        ])

-- A worker's request keeps the rows evolving if its action does.
pub Kept-with_worker :
    {A : Type 0} (env : Env) (token : String) (now : ℕ) (action : Worker → M A) (db : Db)
    → Distinct db.applications
    → ((w : Worker) (db' : Db) → Keeps db.applications (action w) db')
    → Kept db.applications (with_worker env token now action db).1
unfolding with_worker
Kept-with_worker env token now action db d h = elim (Bool-cases (token_shape token)) [
  | inl shaped ↦ rw shaped (
      Kept-commit db.applications db (with_known_worker env now _ action db)
        (Evolved-refl db.applications)
        (Keeps-with_known_worker env now _ action db db.applications d h
          (Evolved-refl db.applications)))
  | inr other ↦ rw other (Evolved-refl db.applications)
]

pub Kept-commit_self :
    {A : Type 0} (db : Db) (m : M A)
    → Keeps db.applications m db
    → Kept db.applications (commit db (m db)).1
Kept-commit_self db m h =
    Kept-commit db.applications db (m db) (Evolved-refl db.applications)
      (h (Evolved-refl db.applications))
