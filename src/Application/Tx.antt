-- ===== src/Application/Tx.antt =====
-- Transactions on the private database (drizzle over libSQL; `transaction` of lib/applications/stores.ts) and the row
-- updates of the worker's server side, with the checks, triggers and unique indexes of the tables they write.
-- An exception rolls the transaction back; a WorkerError that the action returns leaves what it wrote.
use job_dashboard.Prelude.{
  ℕ, ◌==◌, ltb, leb, str_eq, Bool, true, false, not, ◌&&◌, ◌||◌, Option, none, some, List, [], ◌∷◌,
  if◌then◌else◌, is_some, holds, same, any, select, update_where,
}
use job_dashboard.Application.State.{
  state_eq, is_terminal_state, includes, screening, tailoring, filling, ready, submitting,
  submission_unknown, submitted, failed, reason_is,
}
use job_dashboard.Application.Rows.{
  Pairing, Worker, Run, Application, Submission, Receipt, Event, StoredCommand, Db,
}

pub data Code : Type 0 where
  not_found conflict lease_lost execution_disabled invalid_input unauthorized forbidden : Code
  identity_mismatch staging_fixture_only submission_already_intended receipt_identity_mismatch :
      Code
  invalid_receipt run_active policy_changed submit_disabled may_still_complete : Code
  household_missing : Code

-- A WorkerError's status and code, or an abort by the database.
pub data Failure : Type 0 where
  worker_error : (status : ℕ) → Code → Failure
  constraint_failed : Failure

pub data Outcome (A : Type 0) : Type 0 where
  done : A → Db → Outcome A
  denied : Failure → Db → Outcome A
  thrown : Failure → Outcome A

abbrev pub M : Type 0 → Type 0
M A = Db → Outcome A

infixl 5 ◌>>=◌ ◌>>◌
abbrev pub ◌>>=◌ : {A B : Type 0} → M A → (A → M B) → M B
◌>>=◌ m f db = elim (m db) [
  | done a db' ↦ f a db'
  | denied e db' ↦ denied e db'
  | thrown e ↦ thrown e
]

abbrev pub ◌>>◌ : {B : Type 0} → M (Unit {0}) → M B → M B
m >> k = m >>= λ _. k

abbrev pub return : {A : Type 0} → A → M A
return a db = done a db

abbrev pub read : {A : Type 0} → (Db → A) → M A
read f db = done (f db) db

-- `fail(status, code)`
abbrev pub fail : {A : Type 0} → ℕ → Code → M A
fail status code db = thrown (worker_error status code)

-- `return new WorkerError(status, code)`
abbrev pub deny : {A : Type 0} → ℕ → Code → M A
deny status code db = denied (worker_error status code) db

-- `if (bad) fail(status, code)`
abbrev pub fail_if : Bool → ℕ → Code → M (Unit {0})
fail_if true status code = fail status code
fail_if false status code = return tt

-- `if (!row) fail(status, code)`
abbrev pub require : {A : Type 0} → Option A → ℕ → Code → M A
require none status code = fail status code
require (some a) status code = return a

-- `if (checked instanceof Error) throw checked`: what was written is rolled back.
abbrev pub throwing : {A : Type 0} → M A → M A
throwing m db = elim (m db) [
  | done a db' ↦ done a db'
  | denied e db' ↦ thrown e
  | thrown e ↦ thrown e
]

-- `for (const row of rows) await action(row)`
unfoldable pub for_each : {A : Type 0} → List A → (A → M (Unit {0})) → M (Unit {0})
for_each [] action = return tt
for_each (a ∷ rest) action = action a >>= λ _. for_each rest action

-- `one(rows)`
unfoldable pub one : {A : Type 0} → List A → M A
one (a ∷ []) = return a
one _ = fail 409 conflict

-- `appScope(ownerId, id)`
unfoldable pub app_scope : ℕ → ℕ → Application → Bool
app_scope owner id app = app.owner_id == owner && app.id == id

-- `appScope(row.ownerId, row.id)` at the row's revision and fence.
unfoldable pub current : Application → Application → Bool
unfolding app_scope
current row app =
    app_scope row.owner_id row.id app && app.revision == row.revision && app.fence == row.fence

-- The checks `private_application_counters` and `private_application_lease` of the table.
unfoldable pub checks_hold : Application → Bool
checks_hold a = ltb 0 a.revision && leb a.retries 3 && elim a.lease_until [
  | none ↦ not (is_some a.lease_checked_at)
  | some until ↦
      holds (λ checked. ltb checked until) a.lease_checked_at
      && ltb 0 a.fence
      && includes (screening ∷ tailoring ∷ filling ∷ ready ∷ submitting ∷ submission_unknown ∷ [])
          a.state
]

-- The triggers `private_application_no_unsafe_requeue` and `private_application_started_immutable`.
unfoldable pub triggers_allow : Application → Application → Bool
unfolding is_terminal_state
triggers_allow old new =
    not (
      state_eq old.state submission_unknown
      && not (includes (submission_unknown ∷ submitted ∷ []) new.state)
      && not (
          state_eq new.state failed
          && reason_is new.reason_code "applicant_confirmed_not_submitted"))
    && not (is_terminal_state old.state && not (state_eq new.state old.state))
    && not (is_some old.started_at && not (same new.started_at old.started_at))

-- The unique index `private_application_active_tenant`: one leased row for each tenant.
unfoldable pub tenant_free : Application → List Application → Bool
unfolding any
tenant_free new apps =
    not (is_some new.lease_until)
    || not (
        any
          (λ a.
            not (a.id == new.id)
            && a.owner_id == new.owner_id
            && str_eq a.ats new.ats
            && str_eq a.tenant new.tenant
            && is_some a.lease_until)
          apps)

unfoldable pub write_application :
    (Application → Bool) → (Application → Application) → Application → M Application
write_application hit set old db =
    if checks_hold (set old)
      && triggers_allow old (set old)
      && tenant_free (set old) db.applications
    then done (set old) (record db { applications = update_where hit set db.applications })
    else thrown constraint_failed

-- `one(await tx.update(applications).set(...).where(hit).returning())`
unfoldable pub update_application :
    (Application → Bool) → (Application → Application) → M Application
update_application hit set =
    read (λ db. select hit db.applications) >>= λ rows. one rows >>= write_application hit set

-- `one(await tx.update(workers)...returning())`, at the row's id, owner and revision.
unfoldable pub update_worker : Worker → (Worker → Worker) → M (Unit {0})
unfolding one
update_worker row set = do
  old ← (λ db. one (select hit db.workers) db)
  (λ db. done tt (record db { workers = update_where hit set db.workers }))
  where
    hit : Worker → Bool
    hit w = w.id == row.id && w.owner_id == row.owner_id && w.revision == row.revision

unfoldable pub update_pairing : Pairing → (Pairing → Pairing) → M (Unit {0})
unfolding one
update_pairing row set = do
  old ← (λ db. one (select hit db.pairings) db)
  (λ db. done tt (record db { pairings = update_where hit set db.pairings }))
  where
    hit : Pairing → Bool
    hit p = p.id == row.id && p.owner_id == row.owner_id && p.revision == row.revision

unfoldable pub update_run : Run → (Run → Run) → M Run
unfolding one
update_run row set = do
  old ← (λ db. one (select hit db.runs) db)
  (λ db. done (set old) (record db { runs = update_where hit set db.runs }))
  where
    hit : Run → Bool
    hit r = r.owner_id == row.owner_id && r.id == row.id && r.revision == row.revision

-- The primary key of `private_application_event`.
unfoldable pub event_key : ℕ → ℕ → ℕ → Event → Bool
event_key owner application event e =
    e.owner_id == owner && e.application_id == application && e.event_id == event

unfoldable pub insert_event : Event → M (Unit {0})
insert_event e db =
    if any (event_key e.owner_id e.application_id e.event_id) db.events
    then thrown constraint_failed
    else done tt (record db { events = e ∷ db.events })

-- The primary key of `private_worker_command`.
unfoldable pub command_key : ℕ → ℕ → StoredCommand → Bool
command_key owner request c = c.owner_id == owner && c.request_id == request

unfoldable pub insert_command : StoredCommand → M (Unit {0})
insert_command c db =
    if any (command_key c.owner_id c.request_id) db.commands
    then thrown constraint_failed
    else done tt (record db { commands = c ∷ db.commands })

-- `private_submission_owner_application`
unfoldable pub submission_for : ℕ → ℕ → Submission → Bool
submission_for owner application s = s.owner_id == owner && s.application_id == application

unfoldable pub insert_submission : Submission → M (Unit {0})
insert_submission s db =
    if any (λ t. t.intent_id == s.intent_id) db.submissions
      || any (submission_for s.owner_id s.application_id) db.submissions
    then thrown constraint_failed
    else done tt (record db { submissions = s ∷ db.submissions })

-- `private_receipt_owner_application`
unfoldable pub receipt_for : ℕ → ℕ → Receipt → Bool
receipt_for owner application r = r.owner_id == owner && r.application_id == application

-- `private_receipt_owner_receipt`
unfoldable pub same_receipt : Receipt → Receipt → Bool
same_receipt r t =
    t.owner_id == r.owner_id
    && str_eq t.identity.ats r.identity.ats
    && str_eq t.identity.tenant r.identity.tenant
    && t.receipt_id == r.receipt_id

-- With the trigger `private_receipt_owner`: a receipt belongs to its submission intent.
unfoldable pub insert_receipt : Receipt → M (Unit {0})
insert_receipt r db =
    if any (λ t. t.intent_id == r.intent_id) db.receipts
      || any (receipt_for r.owner_id r.application_id) db.receipts
      || any (same_receipt r) db.receipts
      || not (
          any (λ s. s.intent_id == r.intent_id && submission_for r.owner_id r.application_id s)
            db.submissions)
    then thrown constraint_failed
    else done tt (record db { receipts = r ∷ db.receipts })
