-- ===== src/Application/Effects/Intents.antt =====
-- lib/applications/submissions.ts, `beginSubmission`: what an intent that was accepted has found, done and stored.
use job_dashboard.Prelude.{
  ℕ, ◌+◌, ◌≡◌, refl, sym, ap, ◌∙◌, subst, Bool, true, false, not, ◌&&◌, some, ◌∷◌, arith, find, any,
  is_some, str_eq, update_where,
}
use job_dashboard.Application.State.{state_eq, ready, submitting}
use job_dashboard.Application.Requests.{
  SubmissionIntent, SubmissionResponse, staging_fixture_tenant,
}
use job_dashboard.Application.Rows.{Worker, Application, Db, Env}
use job_dashboard.Application.Tx.{
  Code, M, ◌>>=◌, fail_if, throwing, submission_for, current, update_application, insert_submission,
}
use job_dashboard.Application.Leases.{assigned, checked_lease}
use job_dashboard.Application.Submissions.{
  identity_of, same_identity, in_state, intent_row, sending, new_intent, intent_lease, check_intent,
  intent_answer, store_intent,
}
use job_dashboard.Application.Safety.Evolution.{Evolved-refl, IsIn}
use job_dashboard.Application.Safety.Rules.{
  Ensures, Ensures-bind, Ensures-fail_if, Ensures-require, Ensures-throwing, Ensures-mono,
  find-IsIn,
}
use job_dashboard.Application.Safety.Leases.{Kept, Checked, Ensures-checked_lease}
use job_dashboard.Application.Safety.Sending.{in_state-some}
use job_dashboard.Application.Effects.Rules.{
  Written, Ensures-update_exact, Ensures-insert_submission_exact,
}

abbrev pub intent_response : ℕ → SubmissionIntent → Application → SubmissionResponse
intent_response application command row = record {
  application_id = application;
  intent_id = command.intent_id;
  state = submitting;
  revision = row.revision;
  fence = row.fence;
  replayed = false;
}

abbrev pub after_intent : Env → ℕ → ℕ → SubmissionIntent → Worker → Application → Db → Db
after_intent env now application command worker app db = record db {
  submissions = intent_row env now application command worker ∷ db.submissions;
  applications = update_where (current app) (sending app) db.applications;
}

-- The tests that an intent passes beside that of the lease.
abbrev pub Admissible : Env → SubmissionIntent → Application → Type 0
Admissible env command row =
    (same_identity (identity_of row) command.identity ≡ true)
    × ((env.preview_deployment && not (str_eq row.tenant staging_fixture_tenant)) ≡ false)

-- What sending makes of the row.
abbrev pub IsSent : Application → Application → Type 0
IsSent row new =
    (new.state ≡ submitting)
    × (new.revision ≡ row.revision + 1)
    × (new.fence ≡ row.fence)
    × (new.lease_until ≡ row.lease_until)

sending-IsSent : (row : Application) → IsSent row (sending row row)
unfolding sending
sending-IsSent row = (refl, refl, refl, refl)

-- An intent that was accepted: the row that it found, ready and under the worker's lease, the tests that it passed, the
-- answer and the database that it left.
pub record Begun (env : Env) (now application : ℕ) (command : SubmissionIntent) (worker : Worker)
    (db : Db) (answer : SubmissionResponse) (db' : Db) : Type 0 where
  pub row : Application
  pub found : find (assigned worker application) db.applications ≡ some row
  pub was_ready : state_eq row.state ready ≡ true
  pub leased : Checked env worker (intent_lease application command) now db row db
  pub admissible : Admissible env command row
  pub first : any (submission_for worker.owner_id application) db.submissions ≡ false
  pub moved : IsSent row (sending row row)
  pub answered : answer ≡ intent_response application command (sending row row)
  pub left : db' ≡ after_intent env now application command worker row db

module _ (env : Env) (now application : ℕ) (command : SubmissionIntent) (worker : Worker) where
  Ensures-check_intent_exact :
      (E : Db → Type 0) (app : Application) (db : Db)
      → Ensures
          (λ _ db'. (db' ≡ db) × Admissible env command app)
          E
          (check_intent env application command worker app db)
  unfolding check_intent
  Ensures-check_intent_exact E app db =
      Ensures-fail_if {B = Unit {0}} (λ _ db'. (db' ≡ db) × Admissible env command app) E
        (not (same_identity (identity_of app) command.identity)) 409 Code.identity_mismatch _ db
        λ same.
          Ensures-fail_if {B = Unit {0}} (λ _ db'. (db' ≡ db) × Admissible env command app) E
            (env.preview_deployment && not (str_eq app.tenant staging_fixture_tenant)) 403
            Code.staging_fixture_only _ db
            λ staged.
              last (is_some (find (submission_for worker.owner_id application) db.submissions))
                (ground arith) staged
    where
      last :
          (b : Bool)
          → same_identity (identity_of app) command.identity ≡ true
          → (env.preview_deployment && not (str_eq app.tenant staging_fixture_tenant)) ≡ false
          → Ensures
              (λ _ db'. (db' ≡ db) × Admissible env command app)
              E
              (fail_if b 409 Code.submission_already_intended db)
      last true s t = tt
      last false s t = (refl, (s, t))

  Stored : Application → Db → SubmissionResponse → Db → Type 0
  Stored app db answer db' =
      (answer ≡ intent_response application command (sending app app))
      × (db' ≡ after_intent env now application command worker app db)
      × (any (submission_for worker.owner_id application) db.submissions ≡ false)

  Ensures-store_intent :
      (E : Db → Type 0) (app : Application) (db : Db)
      → IsIn app db.applications
      → Ensures (Stored app db) E (store_intent env now application command worker app db)
  unfolding store_intent Stored intent_row
  Ensures-store_intent E app db m =
      Ensures-bind
        (λ _ db'.
          (db' ≡ record db {
            submissions = intent_row env now application command worker ∷ db.submissions;
          })
          × (any (submission_for worker.owner_id application) db.submissions ≡ false))
        (Stored app db) E (insert_submission (intent_row env now application command worker)) _ db
        (Ensures-insert_submission_exact E (intent_row env now application command worker) db)
        λ _ db' q.
          Ensures-bind (Written (current app) (sending app) app db') (Stored app db) E
            (update_application (current app) (sending app)) (intent_answer application command) db'
            (Ensures-update_exact E (sending app) app db'
              (subst (λ (d : Db). IsIn app d.applications) (sym q.0) m))
            (λ row d w. (
              ap (intent_response application command) w.0,
              w.1
                  ∙ ap
                      (λ (d : Db). record d {
                        applications = update_where (current app) (sending app) d.applications;
                      })
                      q.0,
              q.1,
            ))

  after_lease : Application → M SubmissionResponse
  after_lease app = check_intent env application command worker app >>= λ _.
      store_intent env now application command worker app

  pub Ensures-new_intent :
      (db : Db)
      → Ensures
          (Begun env now application command worker db)
          (λ _. ⊥)
          (new_intent env now application command worker db)
  unfolding new_intent after_lease Stored
  Ensures-new_intent db =
      Ensures-require {B = SubmissionResponse} (Begun env now application command worker db)
        (λ _. ⊥)
        (in_state (λ s. state_eq s ready) (find (assigned worker application) db.applications)) 409
        Code.execution_disabled _ db
        λ app e.
          let (f, r) = in_state-some (λ s. state_eq s ready) _ app e in
          Ensures-bind (Checked env worker (intent_lease application command) now db)
            (Begun env now application command worker db) (λ _. ⊥)
            (throwing (checked_lease env worker (intent_lease application command) now))
            (λ _. after_lease app) db
            (Ensures-throwing _ _ (Kept db.applications)
              (checked_lease env worker (intent_lease application command) now) db
              (Ensures-checked_lease env worker _ now db.applications db
                (Evolved-refl db.applications)))
            λ a db' c.
              let same : a ≡ app = cc in
              subst
                (λ d.
                  Ensures (Begun env now application command worker db) (λ _. ⊥)
                    (after_lease app d))
                (sym c.unchanged)
                (Ensures-bind _ (Begun env now application command worker db) (λ _. ⊥)
                  (check_intent env application command worker app)
                  (λ _. store_intent env now application command worker app) db
                  (Ensures-check_intent_exact (λ _. ⊥) app db)
                  λ _ d q.
                    subst
                      (λ d.
                        Ensures (Begun env now application command worker db) (λ _. ⊥)
                          (store_intent env now application command worker app d))
                      (sym q.0)
                      (Ensures-mono (Stored app db) (Begun env now application command worker db)
                        (λ _. ⊥) (λ _. ⊥) (store_intent env now application command worker app db)
                        (Ensures-store_intent (λ _. ⊥) app db (find-IsIn _ _ app f))
                        (λ answer d' s. record {
                          row = app;
                          found = f;
                          was_ready = r;
                          leased =
                              subst
                                (λ b.
                                  Checked env worker (intent_lease application command) now db b db)
                                same
                                (subst
                                  (λ d.
                                    Checked env worker (intent_lease application command) now db a
                                      d)
                                  c.unchanged c);
                          admissible = q.1;
                          first = s.2;
                          moved = sending-IsSent app;
                          answered = s.0;
                          left = s.1;
                        })
                        (λ d' x. x)))
