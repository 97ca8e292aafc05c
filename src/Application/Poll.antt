-- ===== src/Application/Poll.antt =====
-- `pollWorker` of lib/applications/leases.ts: leases that ended are taken back, the daily run is started, and the first
-- row that may be claimed is handed out.
use Prim.Native.String.{String}
use job_dashboard.Prelude.{
  ℕ, ◌+◌, ◌==◌, ltb, leb, str_eq, Bool, true, false, not, ◌&&◌, ◌||◌, Option, none, some, List, [],
  ◌∷◌, if◌then◌else◌, is_some, holds, any, select, or_else,
}
use job_dashboard.Application.State.{
  ApplicationState, state_eq, includes, queued, screening, tailoring, filling, ready, submitting,
  submission_unknown,
}
use job_dashboard.Application.Requests.{Lease, RunState, lease_ms}
use job_dashboard.Application.Rows.{Worker, Run, Application, Db, Env}
use job_dashboard.Application.Tx.{
  M, ◌>>=◌, ◌>>◌, return, read, app_scope, current, update_application, update_worker,
}
use job_dashboard.Application.WorkerStore.{release_application, live_run, lease_of}
use job_dashboard.Application.Session.{Answer, with_worker}
use job_dashboard.Application.Leases.{seen}
use job_dashboard.Application.Runs.{run_state_eq, insert_run}
use job_dashboard.Application.Caps.{daily_start_instant, claimable_now, discovery_claim_allowed}

-- The row as it was released, by the polling worker's owner.
unfoldable pub released_scope : Worker → Application → Application → Application → Bool
unfolding app_scope
released_scope worker app released a =
    app_scope worker.owner_id app.id a
    && a.revision == released.revision
    && a.fence == released.fence

abbrev pub deferred : ℕ → Application → Application
deferred now a = record a { available_at = now + lease_ms }

-- The worker's read-only assignment is given up until later.
unfoldable pub defer : Worker → ℕ → Application → M (Unit {0})
defer worker now app = do
  released ← release_application app "reconciliation_deferred"
  updated ← update_application (released_scope worker app released) (deferred now)
  return tt

unfoldable pub lease_ended : ℕ → Application → Bool
lease_ended now app =
    holds (λ until. leb until now) app.lease_until
    || holds (λ checked. ltb now checked) app.lease_checked_at

abbrev pub is_mine : Worker → Application → Bool
is_mine worker app = app.worker_id == worker.id

-- `assigned ??= app`, for a row of the worker.
unfoldable pub assign : Worker → Application → Option Application → Option Application
assign worker app none = if is_mine worker app then some app else none
assign worker app (some first) = some first

unfoldable pub give_back : Application → M (Unit {0})
give_back app = do released ← release_application app "lease_expired"; return tt

unfoldable pub sweep_live :
    Worker → Application → Option Application → Bool → M (Option Application)
sweep_live worker app assigned true = return (assign worker app assigned)
sweep_live worker app assigned false = do give_back app; return assigned

-- One turn of the loop over the leased rows.
unfoldable pub sweep_one :
    Env → Worker → ℕ → Application → Option Application → M (Option Application)
sweep_one env worker now app assigned =
    if is_mine worker app && state_eq app.state submission_unknown
    then (defer worker now app >>= λ _. return assigned)
    else read (λ db. not (lease_ended now app) && live_run env app now db)
      >>= sweep_live worker app assigned

unfoldable pub sweep :
    Env → Worker → ℕ → List Application → Option Application → M (Option Application)
sweep env worker now [] assigned = return assigned
sweep env worker now (app ∷ rest) assigned =
    sweep_one env worker now app assigned >>= λ next. sweep env worker now rest next

-- A run of the worker is going, or was started since the instant.
unfoldable pub started_since : Worker → ℕ → Run → Bool
started_since worker start r =
    r.owner_id == worker.owner_id
    && r.worker_id == worker.id
    && (run_state_eq r.state RunState.running || leb start r.created_at)

unfoldable pub start_due : Worker → (now start : ℕ) → Db → Bool
start_due worker now start db =
    leb start now
    && leb (or_else worker.daily_start_updated_at 0) start
    && not (any (started_since worker start) db.runs)

-- The daily start; `id` is the random id of the run.
unfoldable pub daily_start : Env → (id : ℕ) → Worker → ℕ → Option ℕ → Option String → M (Unit {0})
daily_start env id worker now (some minute) (some tz) =
    read (start_due worker now (daily_start_instant env now minute tz)) >>= λ due.
    if due
    then (insert_run env id worker.owner_id worker.id now >>= λ run. return tt)
    else return tt
daily_start env id worker now _ _ = return tt

abbrev pub claimable_states : List ApplicationState
claimable_states =
    queued ∷ screening ∷ tailoring ∷ filling ∷ ready ∷ submitting ∷ submission_unknown ∷ []

abbrev pub only : Option Application → Application → Bool
only none app = true
only (some first) app = app.id == first.id

-- The rows that are considered: the assigned one alone, where there is one.
unfoldable pub is_candidate : Env → Worker → ℕ → Option Application → Db → Application → Bool
is_candidate env worker now assigned db app =
    app.owner_id == worker.owner_id
    && is_mine worker app
    && leb app.available_at now
    && only assigned app
    && includes claimable_states app.state
    && claimable_now env worker.owner_id now worker.time_zone db app

abbrev pub is_under_way : Application → Bool
is_under_way app = includes (screening ∷ tailoring ∷ filling ∷ ready ∷ []) app.state

abbrev pub bit : Bool → ℕ
bit true = 1
bit false = 0

-- Whether the first number is smaller, or is equal and the rest comes before.
abbrev pub first_by : ℕ → ℕ → Bool → Bool
first_by a b rest = ltb a b || (a == b && rest)

-- The order of the candidates: leased rows, then work under way, then by availability, creation and id.
unfoldable pub precedes : Application → Application → Bool
precedes a b = first_by (bit (not (is_some a.lease_until))) (bit (not (is_some b.lease_until))) (
    first_by (bit (not (is_under_way a))) (bit (not (is_under_way b)))
      (first_by a.available_at b.available_at (first_by a.created_at b.created_at (ltb a.id b.id))))

unfoldable pub place : Application → List Application → List Application
place a [] = a ∷ []
place a (b ∷ rest) = let later = place a rest in if precedes a b then a ∷ b ∷ rest else b ∷ later

unfoldable pub ordered : List Application → List Application
ordered [] = []
ordered (a ∷ rest) = place a (ordered rest)

-- Another row for the same employer's site is leased.
unfoldable pub is_busy : Worker → Application → Application → Bool
is_busy worker app a =
    a.owner_id == worker.owner_id
    && str_eq a.ats app.ats
    && str_eq a.tenant app.tenant
    && not (a.id == app.id)
    && is_some a.lease_until

unfoldable pub may_claim : Env → Worker → ℕ → Application → M Bool
may_claim env worker now app =
    read (λ db. live_run env app now db && not (any (is_busy worker app) db.applications))
    >>= λ free.
        if not free
        then return false
        else if state_eq app.state submission_unknown
        then return true
        else discovery_claim_allowed env app now worker.time_zone

unfoldable pub claimed_state : ApplicationState → ApplicationState
claimed_state s =
    if state_eq s queued then screening else if state_eq s submitting then submission_unknown else s

unfoldable pub claimed_row : ℕ → Application → Application → Application
claimed_row now app a = record a {
  state = claimed_state app.state;
  revision = app.revision + 1;
  fence = app.fence + 1;
  lease_until = some (now + lease_ms);
  lease_checked_at = some now;
  started_at = some (or_else app.started_at now);
}

unfoldable pub claim_row : ℕ → Application → M (Option Lease)
claim_row now app = do
  row ← update_application (current app) (claimed_row now app)
  lease ← lease_of row
  return (some lease)

unfoldable pub claim_or : ℕ → Application → M (Option Lease) → Bool → M (Option Lease)
claim_or now app rest true = claim_row now app
claim_or now app rest false = rest

-- The loop over the candidates.
unfoldable pub scan : Env → Worker → ℕ → List Application → M (Option Lease)
scan env worker now [] = return none
scan env worker now (app ∷ rest) =
    may_claim env worker now app >>= claim_or now app (scan env worker now rest)

unfoldable pub leased_by_owner : Worker → Application → Bool
leased_by_owner worker a = a.owner_id == worker.owner_id && is_some a.lease_until

-- The candidates are read a hundred at a time in the code, each page after the last row of the one before; nothing that they
-- are selected or ordered by is written between two pages, so that the pages are the ordered rows.
unfoldable pub hand_out : Env → Worker → ℕ → Option Application → M (Option Lease)
hand_out env worker now assigned =
    read (λ db. ordered (select (is_candidate env worker now assigned db) db.applications))
    >>= scan env worker now

unfoldable pub poll : Env → (id now : ℕ) → Worker → M (Option Lease)
poll env id now worker = do
  active ← read (λ db. select (leased_by_owner worker) db.applications)
  assigned ← sweep env worker now active none
  update_worker worker (seen now)
  daily_start env id worker now worker.daily_start_minute worker.time_zone
  hand_out env worker now assigned

-- `pollWorker` where the corpus is not given, as after the discovery.
unfoldable pub poll_worker : Env → String → (id now : ℕ) → Db → Answer (Option Lease) × Db
poll_worker env token id now = with_worker env token now (poll env id now)
