-- ===== src/Application/Safety/Exclusive.antt =====
-- `refuseSecondRun` of lib/applications/runs.ts, over any sequence of requests.
use Prim.Native.String.{String}
use job_dashboard.Prelude.{All-map, ℕ, false, List, [], ◌∷◌, Bool-cases, inl, inr, ◌≡◌, All, arith}
use job_dashboard.Application.Requests.{RunState, RunCommand}
use job_dashboard.Application.Rows.{Worker, Run, Db, Env}
use job_dashboard.Application.Tx.{Outcome, done, denied, thrown, M}
use job_dashboard.Application.Session.{commit, token_shape, with_known_worker, with_worker}
use job_dashboard.Application.Runs.{
  answer_create, create_run, answer_run_command, command_run, same_live_run,
}
use job_dashboard.Application.Leases.{beat, heartbeat_worker}
use job_dashboard.Application.Poll
use job_dashboard.Application.Poll.{poll_worker}
use job_dashboard.Application.Events.{record_event, record_worker_event}
use job_dashboard.Application.Submissions.{begin, begin_submission, take_receipt, record_receipt}
use job_dashboard.Application.Commands.{answer_command, command_application}
use job_dashboard.Application.Safety.Rules.{Ensures, constructs}
use job_dashboard.Application.Safety.OneLive.{OneLive, clash}
use job_dashboard.Application.Safety.Orderly.{Ordered, Orderly}
use job_dashboard.Application.Safety.Orderly.Credentials.{
  Orderly-with_known_worker, Orderly-replay_command,
}
use job_dashboard.Application.Safety.Orderly.Requests.{
  Orderly-beat, Orderly-record_event, Orderly-begin, Orderly-take_receipt, Orderly-answer_or,
  Orderly-answer_command,
}
use job_dashboard.Application.Safety.Orderly.Starts.{Orderly-start_run}
use job_dashboard.Application.Safety.Orderly.Resumes.{Orderly-new_run_command}
use job_dashboard.Application.Safety.Orderly.Polls.{Orderly-poll}
use job_dashboard.Application.Safety.History.{
  Request, polling, heartbeat, event, intent, receipt, run_start, run_order, command, serve,
  serve_all,
}

Ordered-commit :
    {A : Type 0} (db : Db) (o : Outcome A)
    → Ordered db
    → Ensures (λ _. Ordered) Ordered o
    → Ordered (commit db o).1
unfolding commit
Ordered-commit db (done a db') h k = k
Ordered-commit db (denied e db') h k = k
Ordered-commit db (thrown e) h k = h

Ordered-with_worker :
    {A : Type 0} (env : Env) (token : String) (now : ℕ) (action : Worker → M A) (db : Db)
    → ((w : Worker) → Orderly (action w))
    → Ordered db
    → Ordered (with_worker env token now action db).1
unfolding with_worker
Ordered-with_worker env token now action db h k = elim (Bool-cases (token_shape token)) [
  | inl shaped ↦ rw shaped (
      Ordered-commit db (with_known_worker env now _ action db) k
        ((Orderly-with_known_worker env now _ action h).at db k))
  | inr other ↦ rw other k
]

Orderly-answer_create :
    (env : Env) (id owner request worker now : ℕ)
    → Orderly (answer_create env id owner request worker now)
unfolding answer_create
Orderly-answer_create env id owner request worker now =
    search (constructs, Orderly-replay_command, Orderly-answer_or, Orderly-start_run)

Orderly-answer_run_command :
    (env : Env) (owner id now : ℕ) (c : RunCommand)
    → Orderly (answer_run_command env owner id now c)
unfolding answer_run_command
Orderly-answer_run_command env owner id now c =
    search (constructs, Orderly-replay_command, Orderly-answer_or, Orderly-new_run_command)

serve-Ordered : (env : Env) (r : Request) (db : Db) → Ordered db → Ordered (serve env r db)
unfolding create_run command_run poll_worker heartbeat_worker record_worker_event begin_submission
    record_receipt command_application
serve-Ordered env (polling token run_id now) db h =
    Ordered-with_worker env token now (Poll.poll env run_id now) db (Orderly-poll env run_id now) h
serve-Ordered env (heartbeat token now lease) db h =
    Ordered-with_worker env token now (beat env now lease) db (Orderly-beat env now lease) h
serve-Ordered env (event token now application c) db h =
    Ordered-with_worker env token now (record_event env now application c) db
      (Orderly-record_event env now application c) h
serve-Ordered env (intent token now application c) db h =
    Ordered-with_worker env token now (begin env now application c) db
      (Orderly-begin env now application c) h
serve-Ordered env (receipt token now application c) db h =
    Ordered-with_worker env token now (take_receipt env now application c) db
      (Orderly-take_receipt env now application c) h
serve-Ordered env (run_start owner request worker id now) db h =
    Ordered-commit db (answer_create env id owner request worker now db) h
      ((Orderly-answer_create env id owner request worker now).at db h)
serve-Ordered env (run_order owner id now c) db h =
    Ordered-commit db (answer_run_command env owner id now c db) h
      ((Orderly-answer_run_command env owner id now c).at db h)
serve-Ordered env (command owner run_id id now c) db h =
    Ordered-commit db (answer_command env owner run_id id now c db) h
      ((Orderly-answer_command env owner run_id id now c).at db h)

serve_all-Ordered :
    (env : Env) (rs : List Request) (db : Db) → Ordered db → Ordered (serve_all env rs db)
serve_all-Ordered env [] db h = h
serve_all-Ordered env (r ∷ rs) db h =
    serve_all-Ordered env rs (serve env r db) (serve-Ordered env r db h)

-- Two runs that both go, of one worker under one policy.
pub record Doubled (x y : Run) : Type 0 where
  pub first_runs : x.state ≡ RunState.running
  pub second_runs : y.state ≡ RunState.running
  pub owner : y.owner_id ≡ x.owner_id
  pub worker : y.worker_id ≡ x.worker_id
  pub revision : y.policy_revision ≡ x.policy_revision
  pub version : y.policy_version ≡ x.policy_version
  pub hash : y.policy_hash ≡ x.policy_hash

abbrev pub Exclusive : List Run → Type 0
Exclusive [] = Unit
Exclusive (x ∷ xs) = All (λ y. ¬ (Doubled x y)) xs × Exclusive xs

undoubled : (x y : Run) → clash x y ≡ false → ¬ (Doubled x y)
unfolding same_live_run
undoubled x y h b =
    ground (arith, b.first_runs, b.second_runs, b.owner, b.worker, b.revision, b.version, b.hash)

unclashed : (x y : Run) → ¬ (Doubled x y) → clash x y ≡ false
unfolding same_live_run
unclashed x y h = elim (Bool-cases (clash x y)) [
  | inl bad ↦ absurd (
      h (record {
        first_runs = ground arith;
        second_runs = ground arith;
        owner = ground arith;
        worker = ground arith;
        revision = ground arith;
        version = ground arith;
        hash = ground arith;
      }))
  | inr good ↦ good
]

Exclusive-OneLive : (xs : List Run) → Exclusive xs → OneLive xs
Exclusive-OneLive [] h = tt
Exclusive-OneLive (x ∷ xs) h = (
  All-map (λ y. ¬ (Doubled x y)) (λ y. clash x y ≡ false) xs (unclashed x) h.0,
  Exclusive-OneLive xs h.1,
)

OneLive-Exclusive : (xs : List Run) → OneLive xs → Exclusive xs
OneLive-Exclusive [] h = tt
OneLive-Exclusive (x ∷ xs) h = (
  All-map (λ y. clash x y ≡ false) (λ y. ¬ (Doubled x y)) xs (undoubled x) h.0,
  OneLive-Exclusive xs h.1,
)

-- Whatever polls, heartbeats, events, submission intents, receipts, starts and orders of runs and commands of applications
-- arrive, in any order: from a database in which no worker has two running runs under one policy, none ever has, whether a
-- run is created, is started by a poll's daily start or resumes. The request by which a policy is enabled, which binds the
-- running runs to it, is not among these.
pub serve_all-Exclusive :
    (env : Env) (rs : List Request) (db : Db)
    → Exclusive db.runs
    → Exclusive (serve_all env rs db).runs
serve_all-Exclusive env rs db h =
    OneLive-Exclusive _ (serve_all-Ordered env rs db (Exclusive-OneLive db.runs h))
