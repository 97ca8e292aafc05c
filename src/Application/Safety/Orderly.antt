-- ===== src/Application/Safety/Orderly.antt =====
-- Steps that keep every worker at one running run under one policy: a rule for each construct of a transaction, and the
-- updates of the other tables.
pub mod Credentials
pub mod Requests
pub mod Starts
pub mod Resumes
pub mod Polls
use job_dashboard.Prelude.{
  ℕ, ◌==◌, ◌≡◌, refl, ◌∙◌, Bool, true, false, not, ◌&&◌, ◌||◌, any, Option, none, some, List, [],
  ◌∷◌, if◌then◌else◌, arith, is_some, Bool-cases, inl, inr, select,
}
use job_dashboard.Application.Rows.{
  Application, Worker, Pairing, Run, Event, StoredCommand, Submission, Receipt, Db, Env,
}
use job_dashboard.Application.Tx.{
  Code, Failure, Outcome, done, denied, thrown, M, ◌>>=◌, ◌>>◌, return, read, deny, fail, fail_if,
  require, throwing, for_each, one, update_application, write_application, update_worker,
  update_pairing, update_run, insert_event, insert_command, insert_submission, insert_receipt,
  event_key, command_key, submission_for, receipt_for, same_receipt, checks_hold, triggers_allow,
  tenant_free,
}
use job_dashboard.Application.Safety.Rules.{
  Ensures, Ensures-bind, Ensures-throwing, Ensures-one_of, Ensures-mono, Holds, writes, constructs,
}
use job_dashboard.Application.Safety.OneLive.{OneLive, OneLive-update, Calms}

abbrev pub Ordered : Db → Type 0
Ordered db = OneLive db.runs

abbrev pub Orderly : {A : Type 0} → M A → Type 0
Orderly m = Holds Ordered m

pub Orderly-update_application :
    (p : Application → Bool) (set : Application → Application) → Orderly (update_application p set)
unfolding update_application write_application
Orderly-update_application p set = search writes

pub Orderly-update_worker : (row : Worker) (set : Worker → Worker) → Orderly (update_worker row set)
unfolding update_worker
Orderly-update_worker row set = record {
  at = λ db h. Ensures-one_of _ Ordered (select _ db.workers) _ db (λ a. h);
}

pub Orderly-update_pairing :
    (row : Pairing) (set : Pairing → Pairing) → Orderly (update_pairing row set)
unfolding update_pairing
Orderly-update_pairing row set = record {
  at = λ db h. Ensures-one_of _ Ordered (select _ db.pairings) _ db (λ a. h);
}

-- An update by which no run starts to run.
pub Orderly-update_run :
    (row : Run) (set : Run → Run) → ((r : Run) → Calms r (set r)) → Orderly (update_run row set)
unfolding update_run
Orderly-update_run row set calm = record {
  at = λ db h.
      Ensures-one_of _ Ordered (select _ db.runs) _ db
        (λ a. OneLive-update _ set (λ r _. calm r) db.runs h);
}

pub Orderly-insert_event : (e : Event) → Orderly (insert_event e)
unfolding insert_event
Orderly-insert_event e = search writes

pub Orderly-insert_command : (c : StoredCommand) → Orderly (insert_command c)
unfolding insert_command
Orderly-insert_command c = search writes

pub Orderly-insert_submission : (s : Submission) → Orderly (insert_submission s)
unfolding insert_submission
Orderly-insert_submission s = search writes

pub Orderly-insert_receipt : (r : Receipt) → Orderly (insert_receipt r)
unfolding insert_receipt
Orderly-insert_receipt r = search writes

pub ruleset tables = (
  constructs, Orderly-update_application, Orderly-update_worker, Orderly-update_pairing,
  Orderly-insert_event, Orderly-insert_command, Orderly-insert_submission, Orderly-insert_receipt,
)
