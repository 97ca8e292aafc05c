-- ===== src/Application/Safety/Unwritten.antt =====
-- `pollWorker` of lib/applications/leases.ts: the steps that leave the applications' rows alone.
use Prim.Native.String.{String}
use job_dashboard.Prelude.{
  ℕ, refl, sym, subst, Bool, true, false, not, ◌&&◌, Option, none, some, List, find, any, is_some,
  if◌then◌else◌, Bool-cases, inl, inr, ◌==◌,
}
use job_dashboard.Application.State.{state_eq, submission_unknown}
use job_dashboard.Application.Rows.{Worker, Application, Run, Db, Env}
use job_dashboard.Application.Tx.{run_active, M, return}
use job_dashboard.Application.WorkerStore.{
  manifest_ready, marked_by_hand, live_run, CurrentPolicy, get_policy,
}
use job_dashboard.Application.Runs.{
  insert_run, store_run, add_run, new_run, refuse_second_run, same_live_run,
}
use job_dashboard.Application.Caps.{
  mark_targets, unheld, claim_under, discovery_claim_allowed, run_policy,
}
use job_dashboard.Application.Poll.{is_busy, may_claim}
use job_dashboard.Application.Safety.Evolution.{Evolved}
use job_dashboard.Application.Safety.Rules.{Ensures, Ensures-fail_if, Ensures-mono, SameApps}
use job_dashboard.Application.Safety.Revocation.{Both}
use job_dashboard.Application.Safety.Sweeping.{KeepsBoth}

-- Steps that leave the applications' rows alone.
abbrev Same : {A : Type 0} → M A → Db → Type 0
Same m db = Ensures (λ _. SameApps db) (SameApps db) (m db)

Same-if :
    {A : Type 0} (b : Bool) (m n : M A) (db : Db)
    → Same m db
    → Same n db
    → Same (if b then m else n) db
Same-if true m n db h k = h
Same-if false m n db h k = k

Same-claim_under :
    (env : Env) (app : Application) (now : ℕ) (tz : Option String) (policy : Option CurrentPolicy)
    (db : Db)
    → Same (claim_under env app now tz policy) db
unfolding claim_under unheld mark_targets
Same-claim_under env app now tz none db = refl
Same-claim_under env app now tz (some policy) db =
    Same-if (is_some app.started_at) (return true) (unheld env app now tz policy) db refl refl

Same-discovery_claim_allowed :
    (env : Env) (app : Application) (now : ℕ) (tz : Option String) (db : Db)
    → Same (discovery_claim_allowed env app now tz) db
unfolding discovery_claim_allowed
Same-discovery_claim_allowed env app now tz db =
    Same-if (not (is_some app.snapshot_manifest_id)) (return true) _ db refl (
      Same-if (not (manifest_ready app db && not (any (marked_by_hand app) db.marks)))
        (return false) (λ d. claim_under env app now tz (run_policy env app now d) d) db refl
        (Same-claim_under env app now tz (run_policy env app now db) db))

pub Same-may_claim :
    (env : Env) (worker : Worker) (now : ℕ) (app : Application) (db : Db)
    → Same (may_claim env worker now app) db
unfolding may_claim
Same-may_claim env worker now app db =
    Same-if (not (live_run env app now db && not (any (is_busy worker app) db.applications)))
      (return false) _ db refl
      (Same-if (state_eq app.state submission_unknown) (return true) _ db refl
        (Same-discovery_claim_allowed env app now worker.time_zone db))

Same-store_run : (run : Run) (db : Db) → Same (store_run run) db
unfolding store_run
Same-store_run run db = elim (Bool-cases (any (λ (r : Run). r.id == run.id) db.runs)) [
  | inl taken ↦ rw taken tt
  | inr free ↦ rw free refl
]

Same-add_run : (run : Run) (db : Db) → Same (add_run run) db
unfolding add_run refuse_second_run
Same-add_run run db =
    Ensures-fail_if {B = Option Run} (λ _. SameApps db) (SameApps db)
      (is_some (find (same_live_run run) db.runs)) 409 run_active (λ _. store_run run) db
      (λ e. Same-store_run run db)

pub Same-insert_run :
    (env : Env) (id owner worker now : ℕ) (db : Db) → Same (insert_run env id owner worker now) db
unfolding insert_run
Same-insert_run env id owner worker now db =
    elim (get_policy env owner now db).policy_hash
      as (λ (o : Option ℕ).
        Ensures {A = Option Run} (λ _. SameApps db) (SameApps db)
          ((elim o as (λ _. M (Option Run)) [
            | none ↦ return none
            | some hash ↦
                if (get_policy env owner now db).enabled
                then add_run (new_run id owner worker now (get_policy env owner now db) hash)
                else return none
          ])
            db)) [
              | none ↦ refl
              | some hash ↦
                  Same-if (get_policy env owner now db).enabled
                    (add_run (new_run id owner worker now (get_policy env owner now db) hash))
                    (return none) db (Same-add_run _ db) refl
            ]

pub KeepsBoth-Same :
    {A : Type 0} (before rows : List Application) (m : M A) (db : Db)
    → Same m db
    → KeepsBoth before rows m db
KeepsBoth-Same before rows m db h k =
    Ensures-mono (λ _. SameApps db) (λ _. Both before rows) (SameApps db) (Both before rows) (m db)
      h (λ a db' e. subst (λ l. Evolved before l × Evolved rows l) (sym e) k)
      (λ db' e. subst (λ l. Evolved before l × Evolved rows l) (sym e) k)
