-- ===== src/Application/Safety/Orderly/Requests.antt =====
-- lib/applications/leases.ts, events.ts, submissions.ts and runs.ts: heartbeats, events, intents, receipts and the
-- commands of single applications leave the runs.
use job_dashboard.Prelude.{ℕ, Bool, true, false, Option, none, some}
use job_dashboard.Application.Requests.{
  LeaseRef, EventRequest, SubmissionIntent, ReceiptCommand, ApplicationAction, ApplicationCommand,
  Acknowledgement, skip, retry_safe, approve_submit, confirm_submitted, confirm_not_submitted,
}
use job_dashboard.Application.Rows.{Application, Worker, Event, Submission, Receipt, Env}
use job_dashboard.Application.Tx.{M}
use job_dashboard.Application.Leases.{settle_lease, checked_lease, renew, beat}
use job_dashboard.Application.Events.{
  next_lease, replayed, acknowledge, check_event, fresh_event, answer_event, record_event,
}
use job_dashboard.Application.Submissions.{
  replay_intent, check_intent, store_intent, new_intent, answer_intent, begin, close_intent,
  replay_receipt, store_receipt, new_receipt, answer_receipt, take_receipt,
}
use job_dashboard.Application.Commands.{
  refuse_open_submission, retry, approve, effect_of, hide, act, obey, new_command, answer_or,
  answer_command,
}
use job_dashboard.Application.Safety.Orderly.{Orderly, tables}
use job_dashboard.Application.Safety.Orderly.Credentials.{
  Orderly-release_application, Orderly-lease_of, Orderly-replay_command, Orderly-save_command,
}

Orderly-settle_lease : (app : Application) (held : Bool) → Orderly (settle_lease app held)
unfolding settle_lease
Orderly-settle_lease app true = search tables
Orderly-settle_lease app false = search (tables, Orderly-release_application)

Orderly-checked_lease :
    (env : Env) (worker : Worker) (ref : LeaseRef) (now : ℕ)
    → Orderly (checked_lease env worker ref now)
unfolding checked_lease
Orderly-checked_lease env worker ref now = search (tables, Orderly-settle_lease)

Orderly-renew :
    (env : Env) (worker : Worker) (now : ℕ) (ref : LeaseRef) → Orderly (renew env worker now ref)
unfolding renew
Orderly-renew env worker now ref = search (tables, Orderly-checked_lease, Orderly-lease_of)

pub Orderly-beat :
    (env : Env) (now : ℕ) (lease : Option LeaseRef) (worker : Worker)
    → Orderly (beat env now lease worker)
unfolding beat
Orderly-beat env now none worker = search tables
Orderly-beat env now (some ref) worker = search (tables, Orderly-renew)

Orderly-next_lease : (release : Bool) (row : Application) → Orderly (next_lease release row)
unfolding next_lease
Orderly-next_lease true row = search tables
Orderly-next_lease false row = search (tables, Orderly-lease_of)

module _ (env : Env) (now application : ℕ) (command : EventRequest) (worker : Worker) where
  Orderly-acknowledge :
      (row : Application) → Orderly (acknowledge env now application command worker row)
  unfolding acknowledge
  Orderly-acknowledge row = search (tables, Orderly-next_lease)

  Orderly-fresh_event : Orderly (fresh_event env now application command worker)
  unfolding fresh_event check_event
  Orderly-fresh_event = search (tables, Orderly-checked_lease, Orderly-acknowledge)

  Orderly-answer_event :
      (previous : Option Event) → Orderly (answer_event env now application command worker previous)
  unfolding answer_event replayed
  Orderly-answer_event none = Orderly-fresh_event
  Orderly-answer_event (some previous) = search tables

  pub Orderly-record_event : Orderly (record_event env now application command worker)
  unfolding record_event
  Orderly-record_event = search (tables, Orderly-answer_event)

module _ (env : Env) (now application : ℕ) (command : SubmissionIntent) (worker : Worker) where
  Orderly-new_intent : Orderly (new_intent env now application command worker)
  unfolding new_intent check_intent store_intent
  Orderly-new_intent = search (tables, Orderly-checked_lease) depth 12

  Orderly-answer_intent :
      (existing : Option Submission)
      → Orderly (answer_intent env now application command worker existing)
  unfolding answer_intent replay_intent
  Orderly-answer_intent none = Orderly-new_intent
  Orderly-answer_intent (some existing) = search tables

  pub Orderly-begin : Orderly (begin env now application command worker)
  unfolding begin
  Orderly-begin = search (tables, Orderly-answer_intent)

Orderly-close_intent :
    (worker : Worker) (command : ReceiptCommand) (intent : Submission)
    → Orderly (close_intent worker command intent)
Orderly-close_intent worker command intent = record { at = λ db h. h }

module _ (env : Env) (now application : ℕ) (command : ReceiptCommand) (worker : Worker) where
  Orderly-new_receipt :
      (intent : Submission) → Orderly (new_receipt env now application command worker intent)
  unfolding new_receipt store_receipt
  Orderly-new_receipt intent = search (tables, Orderly-checked_lease, Orderly-close_intent) depth 12

  Orderly-answer_receipt :
      (intent : Submission) (previous : Option Receipt)
      → Orderly (answer_receipt env now application command worker intent previous)
  unfolding answer_receipt replay_receipt
  Orderly-answer_receipt intent none = Orderly-new_receipt intent
  Orderly-answer_receipt intent (some previous) = search tables

  pub Orderly-take_receipt : Orderly (take_receipt env now application command worker)
  unfolding take_receipt
  Orderly-take_receipt = search (tables, Orderly-answer_receipt)

Orderly-effect_of :
    (env : Env) (owner run_id now : ℕ) (row : Application) (action : ApplicationAction)
    → Orderly (effect_of env owner run_id now row action)
unfolding effect_of retry approve refuse_open_submission
Orderly-effect_of env owner run_id now row retry_safe = search tables depth 12
Orderly-effect_of env owner run_id now row approve_submit = search tables depth 12
Orderly-effect_of env owner run_id now row confirm_submitted = search tables
Orderly-effect_of env owner run_id now row confirm_not_submitted = search tables
Orderly-effect_of env owner run_id now row skip = search tables
Orderly-effect_of env owner run_id now row action = search tables

module _ (env : Env) (owner run_id now : ℕ) (command : ApplicationCommand) where
  Orderly-obey : (row : Application) → Orderly (obey env owner run_id now command row)
  unfolding obey hide act
  Orderly-obey row = search (tables, Orderly-effect_of)

  Orderly-new_command : (id : ℕ) → Orderly (new_command env owner run_id id now command)
  unfolding new_command
  Orderly-new_command id = search (tables, Orderly-obey, Orderly-save_command)

pub Orderly-answer_or :
    (replay : Option Acknowledgement) (action : M Acknowledgement)
    → Orderly action
    → Orderly (answer_or replay action)
unfolding answer_or
Orderly-answer_or none action h = h
Orderly-answer_or (some answer) action h = search tables

pub Orderly-answer_command :
    (env : Env) (owner run_id id now : ℕ) (command : ApplicationCommand)
    → Orderly (answer_command env owner run_id id now command)
unfolding answer_command
Orderly-answer_command env owner run_id id now command =
    search (tables, Orderly-replay_command, Orderly-answer_or, Orderly-new_command)
