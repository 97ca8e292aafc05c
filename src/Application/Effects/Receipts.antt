-- ===== src/Application/Effects/Receipts.antt =====
-- lib/applications/submissions.ts, `recordReceipt`: what a receipt that was accepted has found and done, and its repetition.
use job_dashboard.Prelude.{ℕ, ◌+◌, ◌≡◌, true, false, none, some, ◌∷◌, find, any, ltb, update_where}
use job_dashboard.Application.State.{submitted}
use job_dashboard.Application.Requests.{ReceiptCommand, ReceiptResponse}
use job_dashboard.Application.Rows.{Worker, Application, Submission, Db, Env}
use job_dashboard.Application.Tx.{receipt_for, current}
use job_dashboard.Application.Leases.{assigned}
use job_dashboard.Application.Submissions.{
  receipt_row, confirmed, closed_intents, receipt_lease, awaiting_receipt,
}
use job_dashboard.Application.Safety.Leases.{Checked}

abbrev pub receipt_response : ℕ → ReceiptCommand → Application → ReceiptResponse
receipt_response application command row = record {
  application_id = application;
  intent_id = command.intent_id;
  state = submitted;
  revision = row.revision;
  replayed = false;
}

-- What a receipt makes of the row.
abbrev pub IsConfirmed : Application → Application → Type 0
IsConfirmed row new =
    (new.state ≡ submitted)
    × (new.revision ≡ row.revision + 1)
    × (new.fence ≡ row.fence + 1)
    × (new.lease_until ≡ none)

module _ (env : Env) (now application : ℕ) (command : ReceiptCommand) (worker : Worker) where
  abbrev pub after_receipt : Submission → Application → Db → Db
  after_receipt intent app db = record db {
    receipts = receipt_row now application command worker ∷ db.receipts;
    submissions = closed_intents worker command intent db.submissions;
    applications = update_where (current app) (confirmed app) db.applications;
  }

  -- A new receipt that was accepted: the row that it found, submitting or unknown and under the worker's lease, the
  -- answer and the database that it left.
  pub record Received (intent : Submission) (db : Db) (answer : ReceiptResponse) (db' : Db)
      : Type 0 where
    pub row : Application
    pub past : ltb (now + 300000) command.submitted_at ≡ false
    pub found : find (assigned worker application) db.applications ≡ some row
    pub was_sent : awaiting_receipt row.state ≡ true
    pub leased : Checked env worker (receipt_lease application row) now db row db
    pub first : any (receipt_for worker.owner_id application) db.receipts ≡ false
    pub moved : IsConfirmed row (confirmed row row)
    pub answered : answer ≡ receipt_response application command (confirmed row row)
    pub left : db' ≡ after_receipt intent row db

  abbrev Stored : Submission → Application → Db → ReceiptResponse → Db → Type 0
  Stored intent app db answer db' =
      (answer ≡ receipt_response application command (confirmed app app))
      × (db' ≡ after_receipt intent app db)
      × (any (receipt_for worker.owner_id application) db.receipts ≡ false)
