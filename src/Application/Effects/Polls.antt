-- ===== src/Application/Effects/Polls.antt =====
-- `pollWorker` of lib/applications/leases.ts: what a poll that succeeds has swept and handed out.
use job_dashboard.Prelude.{
  ◌∙◌, ℕ, ◌≡◌, refl, subst, Bool, true, false, not, Option, none, some, List, [], ◌∷◌, All, arith,
  select, ◌&&◌, Bool-cases, inl, inr,
}
use job_dashboard.Application.Requests.{Lease}
use job_dashboard.Application.Rows.{Worker, Application, Db, Env}
use job_dashboard.Application.Tx.{M, ◌>>=◌, return, done, update_worker}
use job_dashboard.Application.State.{state_eq, submission_unknown}
use job_dashboard.Application.WorkerStore.{live_run}
use job_dashboard.Application.Leases.{seen}
use job_dashboard.Application.Poll.{
  leased_by_owner, sweep, daily_start, hand_out, poll, is_mine, lease_ended, assign, sweep_one,
  sweep_live, defer, give_back,
}
use job_dashboard.Application.Safety.Evolution.{Evolved, Evolved-refl, IsIn}
use job_dashboard.Application.Safety.Keys.{Distinct, select-All-IsIn}
use job_dashboard.Application.Safety.Leases.{Kept}
use job_dashboard.Application.Safety.Revocation.{Both, Keeps-update_worker}
use job_dashboard.Application.Safety.Sweeping.{KeepsBoth-sweep}
use job_dashboard.Application.Safety.Polling.{Keeps-daily_start}
use job_dashboard.Application.Effects.Rules.{Ensures_done}
use job_dashboard.Application.Effects.Candidates.{HandOut, Ensures-hand_out}
use job_dashboard.Application.Effects.Rules.{bind_done, bind_split}

-- The steps before a row is handed out: the rows that were leased are swept, the worker is seen, the daily run is started.
abbrev pub prepare : Env → (id now : ℕ) → Worker → M (Option Application)
prepare env id now worker db =
    (sweep env worker now (select (leased_by_owner worker) db.applications) none >>= λ assigned.
    update_worker worker (seen now) >>= λ _.
    daily_start env id worker now worker.daily_start_minute worker.time_zone >>= λ _.
    return assigned)
      db

-- The row, if any, that the worker may go on with: a leased one of its own, not in doubt, whose lease has not ended.
abbrev pub IsHeld : Worker → ℕ → List Application → Option Application → Type 0
IsHeld worker now rows none = Unit {0}
IsHeld worker now rows (some a) =
    IsIn a rows
    × (is_mine worker a ≡ true)
    × (state_eq a.state submission_unknown ≡ false)
    × (lease_ended now a ≡ false)

assign-IsHeld :
    (worker : Worker) (now : ℕ) (rows : List Application) (app : Application)
    (assigned : Option Application)
    → IsHeld worker now rows assigned
    → IsIn app rows
    → (is_mine worker app && state_eq app.state submission_unknown) ≡ false
    → lease_ended now app ≡ false
    → IsHeld worker now rows (assign worker app assigned)
unfolding assign
assign-IsHeld worker now rows app (some a) h m known live = h
assign-IsHeld worker now rows app none h m known live = elim (Bool-cases (is_mine worker app)) [
  | inl mine ↦ rw mine (m, mine, ground (arith, known, mine), live)
  | inr other ↦ rw other tt
]

unmoved :
    {A : Type 0} (m : M A) (worker : Worker) (now : ℕ) (rows : List Application)
    (assigned next : Option Application) (db d : Db)
    → IsHeld worker now rows assigned
    → (m >>= λ _. return assigned) db ≡ done next d
    → IsHeld worker now rows next
unmoved m worker now rows assigned next db d h e =
    let (a, between, e1, e2) = bind_split m (λ _. return assigned) db d next e in
    let same : assigned ≡ next = cc in subst (IsHeld worker now rows) same h

sweep_live-IsHeld :
    (worker : Worker) (now : ℕ) (rows : List Application) (app : Application)
    (assigned next : Option Application) (live : Bool) (db d : Db)
    → IsHeld worker now rows assigned
    → (live ≡ true → IsHeld worker now rows (assign worker app assigned))
    → sweep_live worker app assigned live db ≡ done next d
    → IsHeld worker now rows next
unfolding sweep_live
sweep_live-IsHeld worker now rows app assigned next true db d h k e =
    let same : assign worker app assigned ≡ next = cc in
    subst (IsHeld worker now rows) same (k refl)
sweep_live-IsHeld worker now rows app assigned next false db d h k e =
    unmoved (give_back app) worker now rows assigned next db d h e

sweep_one-IsHeld :
    (env : Env) (worker : Worker) (now : ℕ) (rows : List Application) (app : Application)
    (assigned next : Option Application) (db d : Db)
    → IsHeld worker now rows assigned
    → IsIn app rows
    → sweep_one env worker now app assigned db ≡ done next d
    → IsHeld worker now rows next
unfolding sweep_one
sweep_one-IsHeld env worker now rows app assigned next db d h m e =
    elim (Bool-cases (is_mine worker app && state_eq app.state submission_unknown)) [
      | inl doubtful ↦
          unmoved (defer worker now app) worker now rows assigned next db d h (rw doubtful at e)
      | inr known ↦
          sweep_live-IsHeld worker now rows app assigned next
            (not (lease_ended now app) && live_run env app now db) db d h
            (λ live. assign-IsHeld worker now rows app assigned h m known (ground (arith, live)))
            (rw known at e)
    ]

sweep-IsHeld :
    (env : Env) (worker : Worker) (now : ℕ) (rows xs : List Application)
    (assigned last : Option Application) (db d : Db)
    → IsHeld worker now rows assigned
    → All (λ a. IsIn a rows) xs
    → sweep env worker now xs assigned db ≡ done last d
    → IsHeld worker now rows last
unfolding sweep
sweep-IsHeld env worker now rows [] assigned last db d h all e =
    let same : assigned ≡ last = cc in subst (IsHeld worker now rows) same h
sweep-IsHeld env worker now rows (app ∷ xs) assigned last db d h all e =
    let (next, between, e1, e2) =
      bind_split (sweep_one env worker now app assigned) (λ next. sweep env worker now xs next) db d
        last e in
    sweep-IsHeld env worker now rows xs next last between d
      (sweep_one-IsHeld env worker now rows app assigned next db between h all.0 e1) all.1 e2

-- A poll that succeeds has taken back leases and made sure of the daily run, by which the rows only evolve, and then handed
-- a row out.
pub record Polled (env : Env) (id now : ℕ) (worker : Worker) (db : Db) (o : Option Lease) (d : Db)
    : Type 0 where
  pub between : Db
  pub assigned : Option Application
  pub prepared : prepare env id now worker db ≡ done assigned between
  pub evolved : Evolved db.applications between.applications
  pub held : IsHeld worker now db.applications assigned
  pub handed_out : HandOut env worker now assigned between o d

-- A poll that succeeds has first prepared: it has swept the leased rows, set the instant at which the worker was seen, and
-- started the daily run where it is due, by which rows only evolve. What the sweep gives as the assigned row, if any, was a
-- leased row of the worker, not in doubt, whose lease had not ended; it is then the only candidate. In the database that
-- this left, the poll answers no lease, and has written nothing but the targets' dispositions, only if no candidate may
-- be handed out; else it hands out, for two minutes and at the next revision and fence, a candidate that may: its run is
-- live, no other leased row is for the same employer's site, and it is in doubt or allowed by its snapshot, the applicant's
-- marks and the caps; and no such candidate comes before it.
pub poll-Polled :
    (env : Env) (id now : ℕ) (worker : Worker) (db : Db) (o : Option Lease) (d : Db)
    → Distinct db.applications
    → poll env id now worker db ≡ done o d
    → Polled env id now worker db o d
unfolding poll
poll-Polled env id now worker db o d distinct e =
    let rows = db.applications in
    let leased = select (leased_by_owner worker) rows in
    let start = daily_start env id worker now worker.daily_start_minute worker.time_zone in
    let (assigned, db1, e1, rest1) =
      bind_split (sweep env worker now leased none)
        (λ a. update_worker worker (seen now) >>= λ _. start >>= λ _. hand_out env worker now a) db
        d o e in
    let (u, db2, e2, rest2) =
      bind_split (update_worker worker (seen now))
        (λ _. start >>= λ _. hand_out env worker now assigned) db1 d o rest1 in
    let (v, db3, e3, e4) = bind_split start (λ _. hand_out env worker now assigned) db2 d o rest2 in
    let all = select-All-IsIn (leased_by_owner worker) rows in
    let kept1 =
      Ensures_done (λ _. Both rows rows) (Both rows rows) (sweep env worker now leased none db)
        assigned db1
        (KeepsBoth-sweep env rows rows worker now leased none db distinct all
          (Evolved-refl rows, Evolved-refl rows))
        e1 in
    let kept2 =
      Ensures_done (λ _. Kept rows) (Kept rows) (update_worker worker (seen now) db1) u db2
        (Keeps-update_worker rows worker (seen now) db1 kept1.0) e2 in
    record {
      between = db3;
      assigned = assigned;
      prepared =
          bind_done (sweep env worker now leased none) _ db db1 assigned e1
          ∙ bind_done (update_worker worker (seen now)) _ db1 db2 u e2
          ∙ bind_done start _ db2 db3 v e3;
      evolved =
          Ensures_done (λ _. Kept rows) (Kept rows) (start db2) v db3
            (Keeps-daily_start env id rows worker now worker.daily_start_minute worker.time_zone db2
              kept2)
            e3;
      held = sweep-IsHeld env worker now rows leased none assigned db db1 tt all e1;
      handed_out =
          Ensures_done (HandOut env worker now assigned db3) (λ _. ⊥)
            (hand_out env worker now assigned db3) o d
            (Ensures-hand_out env worker now assigned db3) e4;
    }
