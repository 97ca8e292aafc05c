-- ===== src/Application/Safety/Orderly/Polls.antt =====
-- `pollWorker` of lib/applications/leases.ts: its daily start refuses a second running run.
use Prim.Native.String.{String}
use job_dashboard.Prelude.{ℕ, Bool, true, false, Option, none, some, List, [], ◌∷◌}
use job_dashboard.Application.Requests.{Lease}
use job_dashboard.Application.Rows.{Application, Worker, Env}
use job_dashboard.Application.Tx.{M}
use job_dashboard.Application.Caps.{mark_targets, unheld, claim_under, discovery_claim_allowed}
use job_dashboard.Application.WorkerStore.{CurrentPolicy}
use job_dashboard.Application.Poll.{
  defer, give_back, sweep_live, sweep_one, sweep, daily_start, may_claim, claim_row, claim_or, scan,
  hand_out, poll,
}
use job_dashboard.Application.Safety.Rules.{Holds-bind}
use job_dashboard.Application.Safety.Orderly.{Orderly, tables}
use job_dashboard.Application.Safety.Orderly.Credentials.{
  Orderly-release_application, Orderly-lease_of,
}
use job_dashboard.Application.Safety.Orderly.Starts.{Orderly-insert_run}

Orderly-defer : (worker : Worker) (now : ℕ) (app : Application) → Orderly (defer worker now app)
unfolding defer
Orderly-defer worker now app = search (tables, Orderly-release_application)

Orderly-sweep_live :
    (worker : Worker) (app : Application) (assigned : Option Application) (live : Bool)
    → Orderly (sweep_live worker app assigned live)
unfolding sweep_live give_back
Orderly-sweep_live worker app assigned true = search tables
Orderly-sweep_live worker app assigned false = search (tables, Orderly-release_application)

Orderly-sweep_one :
    (env : Env) (worker : Worker) (now : ℕ) (app : Application) (assigned : Option Application)
    → Orderly (sweep_one env worker now app assigned)
unfolding sweep_one
Orderly-sweep_one env worker now app assigned = search (tables, Orderly-defer, Orderly-sweep_live)

Orderly-sweep :
    (env : Env) (worker : Worker) (now : ℕ) (apps : List Application)
    (assigned : Option Application)
    → Orderly (sweep env worker now apps assigned)
unfolding sweep
Orderly-sweep env worker now [] assigned = search tables
Orderly-sweep env worker now (app ∷ rest) assigned =
    Holds-bind (sweep_one env worker now app assigned) _
      (Orderly-sweep_one env worker now app assigned)
      (λ next. Orderly-sweep env worker now rest next)

Orderly-daily_start :
    (env : Env) (id : ℕ) (worker : Worker) (now : ℕ) (minute : Option ℕ) (tz : Option String)
    → Orderly (daily_start env id worker now minute tz)
unfolding daily_start
Orderly-daily_start env id worker now none tz = search tables
Orderly-daily_start env id worker now (some minute) none = search tables
Orderly-daily_start env id worker now (some minute) (some tz) = search (tables, Orderly-insert_run)

Orderly-mark_targets : (app : Application) (held : Bool) → Orderly (mark_targets app held)
unfolding mark_targets
Orderly-mark_targets app held = record { at = λ db h. h }

Orderly-claim_under :
    (env : Env) (app : Application) (now : ℕ) (tz : Option String) (policy : Option CurrentPolicy)
    → Orderly (claim_under env app now tz policy)
unfolding claim_under unheld
Orderly-claim_under env app now tz none = search tables
Orderly-claim_under env app now tz (some policy) = search (tables, Orderly-mark_targets)

Orderly-may_claim :
    (env : Env) (worker : Worker) (now : ℕ) (app : Application)
    → Orderly (may_claim env worker now app)
unfolding may_claim discovery_claim_allowed
Orderly-may_claim env worker now app = search (tables, Orderly-claim_under) depth 10

Orderly-claim_row : (now : ℕ) (app : Application) → Orderly (claim_row now app)
unfolding claim_row
Orderly-claim_row now app = search (tables, Orderly-lease_of)

Orderly-claim_or :
    (now : ℕ) (app : Application) (rest : M (Option Lease)) (ok : Bool)
    → Orderly rest
    → Orderly (claim_or now app rest ok)
unfolding claim_or
Orderly-claim_or now app rest true h = Orderly-claim_row now app
Orderly-claim_or now app rest false h = h

Orderly-scan :
    (env : Env) (worker : Worker) (now : ℕ) (apps : List Application)
    → Orderly (scan env worker now apps)
unfolding scan
Orderly-scan env worker now [] = search tables
Orderly-scan env worker now (app ∷ rest) =
    Holds-bind (may_claim env worker now app) _ (Orderly-may_claim env worker now app)
      (λ ok. Orderly-claim_or now app _ ok (Orderly-scan env worker now rest))

pub Orderly-poll : (env : Env) (id now : ℕ) (worker : Worker) → Orderly (poll env id now worker)
unfolding poll hand_out
Orderly-poll env id now worker =
    search (tables, Orderly-sweep, Orderly-daily_start, Orderly-scan) depth 8
