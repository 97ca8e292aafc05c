-- ===== src/Application/Safety/History.antt =====
-- Any sequence of requests by workers and of the applicant's requests about runs and applications.
use job_dashboard.Prelude.{ℕ, Option, List, [], ◌∷◌, String}
use job_dashboard.Application.Requests.{
  LeaseRef, EventRequest, SubmissionIntent, ReceiptCommand, RunCommand, ApplicationCommand,
}
use job_dashboard.Application.Rows.{Db, Env}
use job_dashboard.Application.Leases.{beat, heartbeat_worker}
use job_dashboard.Application.Poll
use job_dashboard.Application.Poll.{poll_worker}
use job_dashboard.Application.Events.{record_event, record_worker_event}
use job_dashboard.Application.Submissions.{begin, begin_submission, take_receipt, record_receipt}
use job_dashboard.Application.Commands.{answer_command, command_application}
use job_dashboard.Application.Runs.{answer_create, create_run, answer_run_command, command_run}
use job_dashboard.Application.Safety.RunOrders.{Holds-answer_create, Holds-answer_run_command}
use job_dashboard.Application.Safety.Evolution.{Evolved, Evolved-refl, Evolved-trans}
use job_dashboard.Application.Safety.Keys.{Distinct, Distinct-Evolved}
use job_dashboard.Application.Safety.Revocation.{Kept-with_worker, Kept-commit_self}
use job_dashboard.Application.Safety.Requests.{Keeps-beat, Keeps-record_event}
use job_dashboard.Application.Safety.Polling.{Keeps-poll}
use job_dashboard.Application.Safety.Receiving.{Keeps-take_receipt}
use job_dashboard.Application.Safety.Sending.{Keeps-begin}
use job_dashboard.Application.Safety.Orders.{Keeps-answer_command}

-- A request with the instant at which the server handles it.
pub data Request : Type 0 where
  polling : (token : String) (run_id now : ℕ) → Request
  heartbeat : (token : String) (now : ℕ) → Option LeaseRef → Request
  event : (token : String) (now application : ℕ) → EventRequest → Request
  intent : (token : String) (now application : ℕ) → SubmissionIntent → Request
  receipt : (token : String) (now application : ℕ) → ReceiptCommand → Request
  run_start : (owner request worker id now : ℕ) → Request
  run_order : (owner id now : ℕ) → RunCommand → Request
  command : (owner run_id id now : ℕ) → ApplicationCommand → Request

abbrev pub serve : Env → Request → Db → Db
serve env (polling token run_id now) db = (poll_worker env token run_id now db).1
serve env (heartbeat token now lease) db = (heartbeat_worker env token now lease db).1
serve env (event token now application c) db =
    (record_worker_event env token now application c db).1
serve env (intent token now application c) db = (begin_submission env token now application c db).1
serve env (receipt token now application c) db = (record_receipt env token now application c db).1
serve env (run_start owner request worker id now) db =
    (create_run env id owner request worker now db).1
serve env (run_order owner id now c) db = (command_run env owner id now c db).1
serve env (command owner run_id id now c) db = (command_application env owner run_id id now c db).1

abbrev pub serve_all : Env → List Request → Db → Db
serve_all env [] db = db
serve_all env (r ∷ rs) db = serve_all env rs (serve env r db)

serve-Evolved :
    (env : Env) (r : Request) (db : Db)
    → Distinct db.applications
    → Evolved db.applications (serve env r db).applications
unfolding create_run command_run poll_worker heartbeat_worker record_worker_event begin_submission
    record_receipt command_application
serve-Evolved env (polling token run_id now) db d =
    Kept-with_worker env token now (Poll.poll env run_id now) db d
      (λ w db'. Keeps-poll env run_id db.applications now w db' d)
serve-Evolved env (heartbeat token now lease) db d =
    Kept-with_worker env token now (beat env now lease) db d
      (λ w. Keeps-beat env db.applications now lease w)
serve-Evolved env (event token now application c) db d =
    Kept-with_worker env token now (record_event env now application c) db d
      (λ w. Keeps-record_event env db.applications now application c w)
serve-Evolved env (intent token now application c) db d =
    Kept-with_worker env token now (begin env now application c) db d
      (λ w. Keeps-begin env db.applications now application c w)
serve-Evolved env (receipt token now application c) db d =
    Kept-with_worker env token now (take_receipt env now application c) db d
      (λ w. Keeps-take_receipt env db.applications now application c w)
serve-Evolved env (run_start owner request worker id now) db d =
    Kept-commit_self db (answer_create env id owner request worker now)
      ((Holds-answer_create env db.applications d owner now id request worker).at db)
serve-Evolved env (run_order owner id now c) db d =
    Kept-commit_self db (answer_run_command env owner id now c)
      ((Holds-answer_run_command env db.applications d owner now id c).at db)
serve-Evolved env (command owner run_id id now c) db d =
    Kept-commit_self db (answer_command env owner run_id id now c)
      (Keeps-answer_command env db.applications owner run_id id now c db)

-- Whatever polls, heartbeats, events, submission intents, receipts, starts and orders of runs and commands of applications
-- arrive, from a database whose applications have distinct ids: no application is lost, added or reassigned; its revision
-- and fence never fall; a change of state raises the revision and the loss of a lease the fence; a terminal state is final; and an application
-- that may have been sent is from then on submitting, unknown, submitted or failed, so that it is not sent again.
pub serve_all-Evolved :
    (env : Env) (rs : List Request) (db : Db)
    → Distinct db.applications
    → Evolved db.applications (serve_all env rs db).applications
serve_all-Evolved env [] db d = Evolved-refl db.applications
serve_all-Evolved env (r ∷ rs) db d =
    let e = serve-Evolved env r db d in
    Evolved-trans db.applications (serve env r db).applications _ e
      (serve_all-Evolved env rs (serve env r db) (Distinct-Evolved db.applications _ e d))
