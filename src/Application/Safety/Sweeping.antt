-- ===== src/Application/Safety/Sweeping.antt =====
-- `pollWorker` of lib/applications/leases.ts: the leases that are taken back keep the rows evolving.
use Prim.Native.String.{String}
use job_dashboard.Prelude.{
  ℕ, Bool, true, false, ◌&&◌, Option, List, [], ◌∷◌, All, arith, Bool-cases, inl, inr,
}
use job_dashboard.Application.State.{state_eq, submission_unknown}
use job_dashboard.Application.Rows.{Worker, Application, Db, Env}
use job_dashboard.Application.Tx.{M, ◌>>=◌, return, update_application}
use job_dashboard.Application.WorkerStore.{release_application}
use job_dashboard.Application.Poll.{
  released_scope, deferred, defer, is_mine, give_back, sweep_live, sweep_one, sweep,
}
use job_dashboard.Application.Safety.Evolution.{Evolves, IsIn}
use job_dashboard.Application.Safety.Rules.{Ensures, Ensures-bind, Ensures-both, Ensures-update_any}
use job_dashboard.Application.Safety.Keys.{Distinct, Ensures-release_stale}
use job_dashboard.Application.Safety.Leases.{Kept}
use job_dashboard.Application.Safety.Revocation.{Both}

-- A step that keeps both.
abbrev pub KeepsBoth : {A : Type 0} → List Application → List Application → M A → Db → Type 0
KeepsBoth before rows m db =
    Both before rows db → Ensures (λ _. Both before rows) (Both before rows) (m db)

pub KeepsBoth-then :
    {A B : Type 0} (before rows : List Application) (m : M A) (f : A → M B) (db : Db)
    → KeepsBoth before rows m db
    → ((a : A) (db' : Db) → KeepsBoth before rows (f a) db')
    → KeepsBoth before rows (m >>= f) db
KeepsBoth-then before rows m f db h g k =
    Ensures-bind (λ _. Both before rows) (λ _. Both before rows) (Both before rows) m f db (h k) g

deferred-Evolves : (now : ℕ) (old : Application) → Evolves old (deferred now old)
deferred-Evolves now old = ground arith

KeepsBoth-release :
    (before rows : List Application) (app : Application) (reason : String) (db : Db)
    → Distinct rows
    → IsIn app rows
    → KeepsBoth before rows (release_application app reason) db
KeepsBoth-release before rows app reason db d m h =
    Ensures-both _ _ _ _ (release_application app reason db)
      (Ensures-release_stale before rows app reason db d m h.1 h.0)
      (Ensures-release_stale rows rows app reason db d m h.1 h.1)

KeepsBoth-defer :
    (before rows : List Application) (worker : Worker) (now : ℕ) (app : Application) (db : Db)
    → Distinct rows
    → IsIn app rows
    → KeepsBoth before rows (defer worker now app) db
unfolding defer
KeepsBoth-defer before rows worker now app db d m =
    KeepsBoth-then before rows (release_application app "reconciliation_deferred") _ db
      (KeepsBoth-release before rows app "reconciliation_deferred" db d m)
      λ row db1.
        KeepsBoth-then before rows
          (update_application (released_scope worker app row) (deferred now)) (λ _. return tt) db1
          (λ k.
            Ensures-both _ _ _ _
              (update_application (released_scope worker app row) (deferred now) db1)
              (Ensures-update_any (Kept before) before _ _ db1 k.0
                (λ old n h t. deferred-Evolves now old))
              (Ensures-update_any (Kept rows) rows _ _ db1 k.1
                (λ old n h t. deferred-Evolves now old)))
          (λ _ db2 k. k)

KeepsBoth-sweep_live :
    (before rows : List Application) (worker : Worker) (app : Application)
    (assigned : Option Application) (live : Bool) (db : Db)
    → Distinct rows
    → IsIn app rows
    → KeepsBoth before rows (sweep_live worker app assigned live) db
unfolding sweep_live give_back
KeepsBoth-sweep_live before rows worker app assigned true db d m k = k
KeepsBoth-sweep_live before rows worker app assigned false db d m k =
    KeepsBoth-then before rows (give_back app) (λ _. return assigned) db
      (KeepsBoth-then before rows (release_application app "lease_expired") (λ _. return tt) db
        (KeepsBoth-release before rows app "lease_expired" db d m) (λ _ d k. k))
      (λ _ d k. k) k

KeepsBoth-sweep_one :
    (env : Env) (before rows : List Application) (worker : Worker) (now : ℕ) (app : Application)
    (assigned : Option Application) (db : Db)
    → Distinct rows
    → IsIn app rows
    → KeepsBoth before rows (sweep_one env worker now app assigned) db
unfolding sweep_one
KeepsBoth-sweep_one env before rows worker now app assigned db d m k =
    elim (Bool-cases (is_mine worker app && state_eq app.state submission_unknown)) [
      | inl unknown ↦ rw unknown (
          KeepsBoth-then before rows (defer worker now app) (λ _. return assigned) db
            (KeepsBoth-defer before rows worker now app db d m) (λ _ d k. k) k)
      | inr known ↦ rw known (KeepsBoth-sweep_live before rows worker app assigned _ db d m k)
    ]

pub KeepsBoth-sweep :
    (env : Env) (before rows : List Application) (worker : Worker) (now : ℕ)
    (apps : List Application) (assigned : Option Application) (db : Db)
    → Distinct rows
    → All (λ a. IsIn a rows) apps
    → KeepsBoth before rows (sweep env worker now apps assigned) db
unfolding sweep
KeepsBoth-sweep env before rows worker now [] assigned db d all = λ k. k
KeepsBoth-sweep env before rows worker now (app ∷ rest) assigned db d all =
    KeepsBoth-then before rows (sweep_one env worker now app assigned) _ db
      (KeepsBoth-sweep_one env before rows worker now app assigned db d all.0)
      λ next db'. KeepsBoth-sweep env before rows worker now rest next db' d all.1
