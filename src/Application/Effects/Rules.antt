-- ===== src/Application/Effects/Rules.antt =====
-- What the steps of a transaction write, exactly.
use job_dashboard.Prelude.{
  ◌==◌, ◌≡◌, refl, sym, ap, subst, Bool, true, false, not, ◌&&◌, ◌||◌, [], ◌∷◌, any, select,
  update_where, arith, Bool-cases, inl, inr, find,
}
use job_dashboard.Application.Rows.{Application, Event, Submission, Receipt, StoredCommand, Db}
use job_dashboard.Application.Tx.{
  Failure, Outcome, done, denied, thrown, M, ◌>>=◌, one, checks_hold, triggers_allow, tenant_free,
  current, write_application, update_application, event_key, insert_event, submission_for,
  insert_submission, receipt_for, same_receipt, insert_receipt, command_key, insert_command,
}
use job_dashboard.Application.WorkerStore.{lease_of}
use job_dashboard.Application.Safety.Evolution.{IsIn}
use job_dashboard.Application.Safety.Rules.{
  Ensures, Ensures-bind, Ensures-require, Ensures-one, current_self,
}

-- What holds of a successful outcome.
pub Ensures_done :
    {A : Type 0} (Q : A → Db → Type 0) (E : Db → Type 0) (o : Outcome A) (a : A) (db : Db)
    → Ensures Q E o
    → o ≡ done a db
    → Q a db
Ensures_done Q E o a db h e = subst (Ensures Q E) e h

-- The row and the database after an update, and what the table's checks and triggers have let through.
abbrev pub Written :
    (Application → Bool)
    → (Application → Application)
    → Application
    → Db
    → Application
    → Db
    → Type 0
Written p set row db a db' =
    (a ≡ set row)
    × (db' ≡ record db { applications = update_where p set db.applications })
    × (checks_hold (set row) ≡ true)
    × (triggers_allow row (set row) ≡ true)

Ensures-write_exact :
    (E : Db → Type 0) (p : Application → Bool) (set : Application → Application) (row : Application)
    (db : Db)
    → Ensures (Written p set row db) E (write_application p set row db)
unfolding write_application
Ensures-write_exact E p set row db =
    elim (Bool-cases (
      checks_hold (set row)
      && triggers_allow row (set row)
      && tenant_free (set row) db.applications)) [
        | inl all ↦ rw all (refl, refl, ground arith, ground arith)
        | inr some_fails ↦ rw some_fails tt
      ]

pub Ensures-update_exact :
    (E : Db → Type 0) (set : Application → Application) (row : Application) (db : Db)
    → IsIn row db.applications
    → Ensures (Written (current row) set row db) E (update_application (current row) set db)
unfolding update_application
Ensures-update_exact E set row db m =
    Ensures-bind
      (λ a db'. (a ≡ row) × (db' ≡ db) × (select (current row) db.applications ≡ row ∷ []))
      (Written (current row) set row db) E (one (select (current row) db.applications))
      (write_application (current row) set) db
      (Ensures-one E (current row) row db _ (current_self row) m refl)
      λ a db' q.
        subst
          (λ d.
            Ensures (Written (current row) set row db) E (write_application (current row) set a d))
          (sym q.1)
          (subst
            (λ b.
              Ensures (Written (current row) set row db) E
                (write_application (current row) set b db))
            (sym q.0) (Ensures-write_exact E (current row) set row db))

pub Ensures-insert_event_exact :
    (E : Db → Type 0) (e : Event) (db : Db)
    → Ensures (λ _ db'. db' ≡ record db { events = e ∷ db.events }) E (insert_event e db)
unfolding insert_event
Ensures-insert_event_exact E e db =
    elim (Bool-cases (any (event_key e.owner_id e.application_id e.event_id) db.events)) [
      | inl taken ↦ rw taken tt
      | inr free ↦ rw free refl
    ]

pub Ensures-insert_command_exact :
    (E : Db → Type 0) (c : StoredCommand) (db : Db)
    → Ensures (λ _ db'. db' ≡ record db { commands = c ∷ db.commands }) E (insert_command c db)
unfolding insert_command
Ensures-insert_command_exact E c db =
    elim (Bool-cases (any (command_key c.owner_id c.request_id) db.commands)) [
      | inl taken ↦ rw taken tt
      | inr free ↦ rw free refl
    ]

-- An intent is stored only if the application has none.
pub Ensures-insert_submission_exact :
    (E : Db → Type 0) (s : Submission) (db : Db)
    → Ensures
        (λ _ db'.
          (db' ≡ record db { submissions = s ∷ db.submissions })
          × (any (submission_for s.owner_id s.application_id) db.submissions ≡ false))
        E
        (insert_submission s db)
unfolding insert_submission
Ensures-insert_submission_exact E s db =
    elim (Bool-cases (
      any (λ (t : Submission). t.intent_id == s.intent_id) db.submissions
      || any (submission_for s.owner_id s.application_id) db.submissions)) [
        | inl taken ↦ rw taken tt
        | inr free ↦ rw free (refl, ground arith)
      ]

pub Ensures-lease_of :
    (E : Db → Type 0) (app : Application) (db : Db)
    → Ensures (λ _ db'. db' ≡ db) E (lease_of app db)
unfolding lease_of
Ensures-lease_of E app db =
    Ensures-require _ E app.lease_until 409 _ _ db
      λ until e. Ensures-require _ E (find _ db.runs) 409 _ _ db λ run f. refl

-- The first step decides a step that follows it.
pub bind_thrown :
    {A B : Type 0} (m : M A) (f : A → M B) (db : Db) (e : Failure)
    → m db ≡ thrown e
    → (m >>= f) db ≡ thrown e
bind_thrown m f db e h =
    ap (λ o. elim o [ done a db' ↦ f a db' | denied e db' ↦ denied e db' | thrown e ↦ thrown e ]) h

pub bind_done :
    {A B : Type 0} (m : M A) (f : A → M B) (db db' : Db) (a : A)
    → m db ≡ done a db'
    → (m >>= f) db ≡ f a db'
bind_done m f db db' a h =
    ap (λ o. elim o [ done a db' ↦ f a db' | denied e db' ↦ denied e db' | thrown e ↦ thrown e ]) h

-- A sequence that succeeds is two steps that do.
pub bind_split :
    {A B : Type 0} (m : M A) (f : A → M B) (db d : Db) (b : B)
    → (m >>= f) db ≡ done b d
    → (a : A) × (between : Db) × (m db ≡ done a between) × (f a between ≡ done b d)
bind_split {A = A} {B = B} m f db d b e = parts (m db) refl e
  where
    parts :
        (o : Outcome A)
        → m db ≡ o
        → elim o [ done a db' ↦ f a db' | denied e db' ↦ denied e db' | thrown e ↦ thrown e ]
          ≡ done b d
        → (a : A) × (between : Db) × (m db ≡ done a between) × (f a between ≡ done b d)
    parts (done a between) k h = (a, between, k, h)
    parts (denied x between) k h = cc
    parts (thrown x) k h = cc

pub bind_same :
    {A B : Type 0} (m n : M A) (f : A → M B) (db : Db) → m db ≡ n db → (m >>= f) db ≡ (n >>= f) db
bind_same m n f db h =
    ap (λ o. elim o [ done a db' ↦ f a db' | denied e db' ↦ denied e db' | thrown e ↦ thrown e ]) h

-- A receipt is stored only if the application has none and its intent is stored.
pub Ensures-insert_receipt_exact :
    (E : Db → Type 0) (r : Receipt) (db : Db)
    → Ensures
        (λ _ db'.
          (db' ≡ record db { receipts = r ∷ db.receipts })
          × (any (receipt_for r.owner_id r.application_id) db.receipts ≡ false))
        E
        (insert_receipt r db)
unfolding insert_receipt
Ensures-insert_receipt_exact E r db =
    elim (Bool-cases (
      any (λ (t : Receipt). t.intent_id == r.intent_id) db.receipts
      || any (receipt_for r.owner_id r.application_id) db.receipts
      || any (same_receipt r) db.receipts
      || not (
          any
            (λ (s : Submission).
              s.intent_id == r.intent_id && submission_for r.owner_id r.application_id s)
            db.submissions))) [ inl taken ↦ rw taken tt | inr free ↦ rw free (refl, ground arith) ]
