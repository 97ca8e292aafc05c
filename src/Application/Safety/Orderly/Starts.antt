-- ===== src/Application/Safety/Orderly/Starts.antt =====
-- lib/applications/runs.ts: a run that is created, resumed, paused or stopped keeps every worker at one running run under
-- one policy.
use job_dashboard.Prelude.{
  ℕ, ◌==◌, ◌≡◌, refl, Bool, true, false, any, Option, none, some, find, select, is_some,
  if◌then◌else◌, Bool-cases, Option-cases, inl, inr,
}
use job_dashboard.Application.Requests.{RunState}
use job_dashboard.Application.Rows.{Application, Worker, Run, Db, Env}
use job_dashboard.Application.Tx.{return, read, run_active}
use job_dashboard.Application.WorkerStore.{get_policy, invalidate_worker}
use job_dashboard.Application.Session.{settle_worker, current_worker, credential_binding}
use job_dashboard.Application.Runs.{
  same_live_run, refuse_second_run, store_run, add_run, insert_run, start_run, refuse_revoked,
  new_run, cancel_released, release_one, release_run_applications, abandon_manifest,
}
use job_dashboard.Application.Safety.Rules.{
  Holds-option, Ensures, Ensures-bind, Ensures-fail_if, Ensures-one_of,
}
use job_dashboard.Application.Safety.OneLive.{OneLive-add}
use job_dashboard.Application.Safety.Rules.{Holds-read, Holds-if, Holds-bind}
use job_dashboard.Application.Safety.Orderly.{Ordered, Orderly, tables}
use job_dashboard.Application.Safety.Orderly.Credentials.{
  Orderly-release_application, Orderly-current_worker, Orderly-invalidate_worker,
  Orderly-save_command,
}

Ensures-store_run :
    (run : Run) (db : Db)
    → find (same_live_run run) db.runs ≡ none
    → Ordered db
    → Ensures (λ _. Ordered) Ordered (store_run run db)
unfolding store_run
Ensures-store_run run db free h = elim (Bool-cases (any (λ (r : Run). r.id == run.id) db.runs)) [
  | inl taken ↦ rw taken tt
  | inr new ↦ rw new (OneLive-add run db.runs free h)
]

pub not_some : {A : Type 0} (o : Option A) → is_some o ≡ false → o ≡ none
not_some none e = refl
not_some (some a) e = cc

Orderly-add_run : (run : Run) → Orderly (add_run run)
unfolding add_run refuse_second_run
Orderly-add_run run = record {
  at = λ db h.
      Ensures-fail_if {B = Option Run} (λ _. Ordered) Ordered
        (is_some (find (same_live_run run) db.runs)) 409 run_active (λ _. store_run run) db
        (λ e. Ensures-store_run run db (not_some _ e) h);
}

pub Orderly-insert_run :
    (env : Env) (id owner worker now : ℕ) → Orderly (insert_run env id owner worker now)
unfolding insert_run
Orderly-insert_run env id owner worker now =
    Holds-bind (read (get_policy env owner now)) _ (Holds-read _) λ policy.
      Holds-option policy.policy_hash (return none)
        (λ hash.
          if policy.enabled then add_run (new_run id owner worker now policy hash) else return none)
        (search tables) (λ hash. search (tables, Orderly-add_run))

Orderly-refuse_revoked : (valid : Bool) → Orderly (refuse_revoked valid)
unfolding refuse_revoked
Orderly-refuse_revoked true = search tables
Orderly-refuse_revoked false = search tables

pub Orderly-start_run :
    (env : Env) (id owner request worker now : ℕ)
    → Orderly (start_run env id owner request worker now)
unfolding start_run
Orderly-start_run env id owner request worker now =
    search
      (
        tables, Orderly-current_worker, Orderly-refuse_revoked, Orderly-insert_run,
        Orderly-save_command,
      )
      depth 14

Orderly-cancel_released :
    (app : Application) (state : RunState) (row : Application)
    → Orderly (cancel_released app state row)
unfolding cancel_released
Orderly-cancel_released app state row = search tables

pub Orderly-release_run_applications :
    (owner run_id : ℕ) (state : RunState) → Orderly (release_run_applications owner run_id state)
unfolding release_run_applications release_one
Orderly-release_run_applications owner run_id state =
    search (tables, Orderly-release_application, Orderly-cancel_released) depth 8

pub Orderly-abandon_manifest :
    (owner : ℕ) (row : Run) (state : RunState) → Orderly (abandon_manifest owner row state)
unfolding abandon_manifest
Orderly-abandon_manifest owner row state =
    Holds-if _ _ (return tt)
      (Holds-option row.current_manifest_id (return tt) _ (search tables) (λ id. record {
        at = λ db h. Ensures-one_of _ Ordered (select _ db.manifests) _ db (λ a. h);
      }))
      (search tables)

settled_true :
    (row : Worker) (valid : Bool) (now : ℕ) (db : Db)
    → Ordered db
    → Ensures
        (λ ok db'. Ordered db' × (ok ≡ true → db' ≡ db))
        Ordered
        (settle_worker row valid now db)
unfolding settle_worker
settled_true row true now db h = (h, λ _. refl)
settled_true row false now db h =
    Ensures-bind (λ _. Ordered) (λ ok db'. Ordered db' × (ok ≡ true → db' ≡ db)) Ordered
      (invalidate_worker row now) (λ _. return false) db
      ((Orderly-invalidate_worker row now).at db h) (λ _ db' h'. (h', λ e. absurd (cc)))

-- A worker that is trusted has been left as it was.
pub trusted_worker :
    (env : Env) (row : Worker) (now : ℕ) (db : Db)
    → Ordered db
    → Ensures
        (λ ok db'. Ordered db' × (ok ≡ true → db' ≡ db))
        Ordered
        (current_worker env row now db)
unfolding current_worker credential_binding
trusted_worker env row now db h = elim (Option-cases env.household) [
  | inl missing ↦ rw missing tt
  | inr (profiles, e) ↦ rw e (settled_true row _ now db h)
]
