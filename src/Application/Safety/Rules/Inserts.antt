-- ===== src/Application/Safety/Rules/Inserts.antt =====
-- What leaves the applications alone: the inserts, and the updates of the other tables.
use job_dashboard.Prelude.{
  ◌==◌, ◌≡◌, refl, inl, inr, not, ◌&&◌, ◌||◌, any, List, [], ◌∷◌, select, Bool-cases,
}
use job_dashboard.Application.Rows.{
  Event, StoredCommand, Submission, Receipt, Worker, Pairing, Run, Db,
}
use job_dashboard.Application.Tx.{
  M, ◌>>=◌, insert_event, insert_command, insert_submission, insert_receipt, one, update_worker,
  update_pairing, update_run, event_key, command_key, submission_for, receipt_for, same_receipt,
}
use job_dashboard.Application.Safety.Rules.Steps.{Ensures}

-- What leaves the applications alone.
abbrev pub SameApps : Db → Db → Type 0
SameApps db db' = db'.applications ≡ db.applications

pub Ensures-one_of :
    {A B : Type 0} (R : B → Db → Type 0) (E : Db → Type 0) (rows : List A) (f : A → M B) (db : Db)
    → ((a : A) → Ensures R E (f a db))
    → Ensures R E ((one rows >>= f) db)
unfolding one
Ensures-one_of R E [] f db h = tt
Ensures-one_of R E (a ∷ []) f db h = h a
Ensures-one_of R E (a ∷ b ∷ rest) f db h = tt

pub Ensures-update_worker :
    (E : Db → Type 0) (row : Worker) (set : Worker → Worker) (db : Db)
    → Ensures (λ _. SameApps db) E (update_worker row set db)
unfolding update_worker
Ensures-update_worker E row set db = Ensures-one_of _ E (select _ db.workers) _ db (λ a. refl)

pub Ensures-update_pairing :
    (E : Db → Type 0) (row : Pairing) (set : Pairing → Pairing) (db : Db)
    → Ensures (λ _. SameApps db) E (update_pairing row set db)
unfolding update_pairing
Ensures-update_pairing E row set db = Ensures-one_of _ E (select _ db.pairings) _ db (λ a. refl)

pub Ensures-update_run :
    (E : Db → Type 0) (row : Run) (set : Run → Run) (db : Db)
    → Ensures (λ _. SameApps db) E (update_run row set db)
unfolding update_run
Ensures-update_run E row set db = Ensures-one_of _ E (select _ db.runs) _ db (λ a. refl)

pub Ensures-insert_event :
    (E : Db → Type 0) (e : Event) (db : Db) → Ensures (λ _. SameApps db) E (insert_event e db)
unfolding insert_event
Ensures-insert_event E e db =
    elim (Bool-cases (any (event_key e.owner_id e.application_id e.event_id) db.events)) [
      | inl taken ↦ rw taken tt
      | inr free ↦ rw free refl
    ]

pub Ensures-insert_command :
    (E : Db → Type 0) (c : StoredCommand) (db : Db)
    → Ensures (λ _. SameApps db) E (insert_command c db)
unfolding insert_command
Ensures-insert_command E c db =
    elim (Bool-cases (any (command_key c.owner_id c.request_id) db.commands)) [
      | inl taken ↦ rw taken tt
      | inr free ↦ rw free refl
    ]

pub Ensures-insert_submission :
    (E : Db → Type 0) (s : Submission) (db : Db)
    → Ensures (λ _. SameApps db) E (insert_submission s db)
unfolding insert_submission
Ensures-insert_submission E s db =
    elim (Bool-cases (
      any (λ (t : Submission). t.intent_id == s.intent_id) db.submissions
      || any (submission_for s.owner_id s.application_id) db.submissions)) [
        | inl taken ↦ rw taken tt
        | inr free ↦ rw free refl
      ]

pub Ensures-insert_receipt :
    (E : Db → Type 0) (r : Receipt) (db : Db) → Ensures (λ _. SameApps db) E (insert_receipt r db)
unfolding insert_receipt
Ensures-insert_receipt E r db =
    elim (Bool-cases (
      any (λ (t : Receipt). t.intent_id == r.intent_id) db.receipts
      || any (receipt_for r.owner_id r.application_id) db.receipts
      || any (same_receipt r) db.receipts
      || not (
          any
            (λ (s : Submission).
              s.intent_id == r.intent_id && submission_for r.owner_id r.application_id s)
            db.submissions))) [ inl taken ↦ rw taken tt | inr free ↦ rw free refl ]
