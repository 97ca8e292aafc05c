-- ===== src/Application/Effects/Sessions.antt =====
-- lib/applications/worker-store.ts, `workerTransaction`: whose requests are carried out.
use Prim.Native.String.{String}
use job_dashboard.Prelude.{
  ℕ, ◌==◌, ◌≡◌, refl, sym, ap, ◌∙◌, Bool, true, false, Option, none, some, List, find, Bool-cases,
  Option-cases, inl, inr, not, ◌&&◌,
}
use job_dashboard.Application.State.{state_eq, submitting}
use job_dashboard.Application.Requests.{SubmissionIntent, SubmissionResponse}
use job_dashboard.Application.Rows.{Worker, User, Submission, Db, Env}
use job_dashboard.Application.Tx.{
  Code, Failure, worker_error, Outcome, done, denied, thrown, M, ◌>>=◌, return, require,
  household_missing, app_scope,
}
use job_dashboard.Application.WorkerStore.{pairing_of, invalidate_worker}
use job_dashboard.Application.Session.{
  user_binding, credential_binding, credentials_hold, settle_worker, current_worker, token_shape,
  Answer, ok, error, commit, admit, with_known_worker, with_worker,
}
use job_dashboard.Application.Submissions.{
  in_state, intent_known, replay_intent, new_intent, answer_intent, begin, begin_submission,
}
use job_dashboard.Application.Safety.Rules.{
  Ensures, Ensures-bind, Ensures-fail_if, Ensures-require, Ensures-mono,
}
use job_dashboard.Application.Effects.Rules.{Ensures_done, bind_done, bind_thrown, bind_same}
use job_dashboard.Application.Effects.Intents.{Begun, Ensures-new_intent}

-- The credentials of a worker, as the household configuration and the database have them.
abbrev pub trusted : Env → List ℕ → Worker → Db → Bool
trusted env profiles worker db =
    credentials_hold worker
      (user_binding env worker.owner_id profiles
        (find (λ (u : User). u.id == worker.owner_id) db.users))
      (find (pairing_of worker) db.pairings)

abbrev pub worker_by_token : Env → String → Db → Option Worker
worker_by_token env token db =
    find (λ (w : Worker). w.token_hash == env.hash_token token) db.workers

module _ {A : Type 0} (env : Env) (token : String) (now : ℕ) (action : Worker → M A) (db : Db) where
  settling :
      (worker : Worker) (profiles : List ℕ)
      → env.household ≡ some profiles
      → current_worker env worker now db
        ≡ settle_worker worker (trusted env profiles worker db) now db
  unfolding current_worker credential_binding
  settling worker profiles configured =
      bind_done (credential_binding env worker.owner_id) _ db db _ (
        bind_done (require env.household 503 household_missing) _ db db profiles
          (ap (λ o. require o 503 household_missing db) configured))

  with_worker-settle :
      (worker : Worker) (profiles : List ℕ)
      → token_shape token ≡ true
      → worker_by_token env token db ≡ some worker
      → env.household ≡ some profiles
      → with_worker env token now action db
        ≡ commit db (
            (settle_worker worker (trusted env profiles worker db) now >>= λ valid.
            admit worker valid action)
              db)
  unfolding with_worker with_known_worker
  with_worker-settle worker profiles shape found configured =
      rw (shape, found)
        (ap (commit db) (
          bind_same (current_worker env worker now)
            (settle_worker worker (trusted env profiles worker db) now)
            (λ valid. admit worker valid action) db (settling worker profiles configured)))

  -- A request with a token that a worker holds, in a configured household, whose credentials are trusted, is that
  -- worker's action in a transaction.
  pub with_worker-commit :
      (worker : Worker) (profiles : List ℕ)
      → token_shape token ≡ true
      → worker_by_token env token db ≡ some worker
      → env.household ≡ some profiles
      → trusted env profiles worker db ≡ true
      → with_worker env token now action db ≡ commit db (action worker db)
  unfolding settle_worker admit
  with_worker-commit worker profiles shape found configured trust =
      with_worker-settle worker profiles shape found configured
      ∙ ap (λ b. commit db ((settle_worker worker b now >>= λ valid. admit worker valid action) db))
          trust

  -- What an action that was carried out says of the request.
  pub record Accepted (answer : A) (db' : Db) : Type 0 where
    pub worker : Worker
    pub profiles : List ℕ
    pub shape : token_shape token ≡ true
    pub found : worker_by_token env token db ≡ some worker
    pub configured : env.household ≡ some profiles
    pub trust : trusted env profiles worker db ≡ true
    pub acted : action worker db ≡ done answer db'

  committed :
      (o : Outcome A) (answer : A) → (commit db o).0 ≡ ok answer → o ≡ done answer (commit db o).1
  unfolding commit
  committed (done a db') answer e = cc
  committed (denied x db') answer e = cc
  committed (thrown x) answer e = cc

  settled_false :
      (worker : Worker)
      → Ensures
          (λ _ _. ⊥)
          (λ _. Unit {0})
          ((settle_worker worker false now >>= λ valid. admit worker valid action) db)
  unfolding settle_worker admit
  settled_false worker =
      Ensures-bind (λ valid _. valid ≡ false) (λ _ _. ⊥) (λ _. Unit {0})
        (invalidate_worker worker now >>= λ _. return false) (λ valid. admit worker valid action) db
        (Ensures-bind (λ _ _. Unit {0}) (λ valid _. valid ≡ false) (λ _. Unit {0})
          (invalidate_worker worker now) (λ _. return false) db
          (anything (invalidate_worker worker now db)) (λ _ d u. refl))
        (λ valid d e. rw e tt)
    where
      anything : (o : Outcome (Unit {0})) → Ensures (λ _ _. Unit {0}) (λ _. Unit {0}) o
      anything (done a d) = tt
      anything (denied x d) = tt
      anything (thrown x) = tt

  error-ok : (x : Failure) (answer : A) → ¬ (error x ≡ ok answer)
  error-ok x answer e = cc

  no_household :
      (worker : Worker) (answer : A)
      → token_shape token ≡ true
      → worker_by_token env token db ≡ some worker
      → env.household ≡ none
      → ¬ ((with_worker env token now action db).0 ≡ ok answer)
  unfolding with_worker with_known_worker current_worker credential_binding commit
  no_household worker answer shape found missing e =
      let q : with_worker env token now action db
          ≡ (error (worker_error 503 household_missing), db) =
        rw (shape, found)
          (ap (commit db) (
            bind_thrown (current_worker env worker now) (λ valid. admit worker valid action) db _
              (bind_thrown (credential_binding env worker.owner_id) _ db _ (
                bind_thrown (require env.household 503 household_missing) _ db _
                  (ap (λ o. require o 503 household_missing db) missing))))) in
      error-ok _ answer (sym (ap (λ (r : Answer A × Db). r.0) q) ∙ e)

  rejected :
      (worker : Worker) (profiles : List ℕ) (answer : A)
      → token_shape token ≡ true
      → worker_by_token env token db ≡ some worker
      → env.household ≡ some profiles
      → trusted env profiles worker db ≡ false
      → ¬ ((with_worker env token now action db).0 ≡ ok answer)
  rejected worker profiles answer shape found configured broken e =
      let q =
        with_worker-settle worker profiles shape found configured
        ∙ ap
            (λ b.
              commit db ((settle_worker worker b now >>= λ valid. admit worker valid action) db))
            broken in
      Ensures_done (λ _ _. ⊥) (λ _. Unit {0}) _ answer _ (settled_false worker)
        (committed _ answer (sym (ap (λ (r : Answer A × Db). r.0) q) ∙ e))

  acted_as :
      (worker : Worker) (profiles : List ℕ) (answer : A)
      → token_shape token ≡ true
      → worker_by_token env token db ≡ some worker
      → env.household ≡ some profiles
      → trusted env profiles worker db ≡ true
      → (with_worker env token now action db).0 ≡ ok answer
      → action worker db ≡ done answer (with_worker env token now action db).1
  acted_as worker profiles answer shape found configured trust e =
      let q = with_worker-commit worker profiles shape found configured trust in
      committed (action worker db) answer (sym (ap (λ (r : Answer A × Db). r.0) q) ∙ e)
      ∙ ap (λ (r : Answer A × Db). done answer r.1) (sym q)

  -- A request that succeeds carries a well-formed token of a worker whose pairing, owner and household configuration
  -- are as they were when it was paired, none of them revoked, and is that worker's action, committed.
  pub with_worker-ok :
      (answer : A)
      → (with_worker env token now action db).0 ≡ ok answer
      → Accepted answer (with_worker env token now action db).1
  unfolding with_worker with_known_worker commit
  with_worker-ok answer e = elim (Bool-cases (token_shape token)) [
    | inr bad ↦ absurd (error-ok _ answer (rw bad at e))
    | inl shape ↦ elim (Option-cases (worker_by_token env token db)) [
      | inl nobody ↦ absurd (error-ok _ answer (rw (shape, nobody) at e))
      | inr (worker, found) ↦ elim (Option-cases env.household) [
        | inl missing ↦ absurd (no_household worker answer shape found missing e)
        | inr (profiles, configured) ↦ elim (Bool-cases (trusted env profiles worker db)) [
          | inl trust ↦ record {
            worker = worker;
            profiles = profiles;
            shape = shape;
            found = found;
            configured = configured;
            trust = trust;
            acted = acted_as worker profiles answer shape found configured trust e;
          }
          | inr broken ↦ absurd (rejected worker profiles answer shape found configured broken e)
        ]
      ]
    ]
  ]

-- A submission intent is never refused with a change: what was written is rolled back.
Ensures-begin :
    (env : Env) (now application : ℕ) (command : SubmissionIntent) (worker : Worker) (db : Db)
    → Ensures (λ _ _. Unit {0}) (λ _. ⊥) (begin env now application command worker db)
unfolding begin answer_intent replay_intent
Ensures-begin env now application command worker db =
    answers (find (intent_known worker command.intent_id) db.submissions)
  where
    answers :
        (o : Option Submission)
        → Ensures (λ _ _. Unit {0}) (λ _. ⊥) (answer_intent env now application command worker o db)
    answers none =
        Ensures-mono (Begun env now application command worker db) (λ _ _. Unit {0}) (λ _. ⊥)
          (λ _. ⊥) (new_intent env now application command worker db)
          (Ensures-new_intent env now application command worker db) (λ a d b. tt) (λ d x. x)
    answers (some s) =
        Ensures-fail_if {B = SubmissionResponse} (λ _ _. Unit {0}) (λ _. ⊥)
          (not (s.request_hash == env.hash_intent command && s.application_id == application)) 409
          Code.conflict _ db
          λ same.
            Ensures-require {B = SubmissionResponse} (λ _ _. Unit {0}) (λ _. ⊥)
              (in_state (λ t. state_eq t submitting)
                (find (app_scope worker.owner_id application) db.applications))
              409 Code.conflict _ db λ app e. tt

rolled_back :
    {A : Type 0} (db : Db) (o : Outcome A) (x : Failure)
    → Ensures (λ _ _. Unit {0}) (λ _. ⊥) o
    → (commit db o).0 ≡ error x
    → (commit db o).1 ≡ db
unfolding commit
rolled_back db (done a d) x h e = cc
rolled_back db (denied y d) x h e = absurd h
rolled_back db (thrown y) x h e = refl

-- A submission intent of a worker with trusted credentials that is answered with an error leaves the database exactly as
-- it was, also when the error is a lease that ran out and was about to be released.
pub begin_submission-error :
    (env : Env) (token : String) (now application : ℕ) (command : SubmissionIntent) (db : Db)
    (worker : Worker) (profiles : List ℕ) (x : Failure)
    → token_shape token ≡ true
    → worker_by_token env token db ≡ some worker
    → env.household ≡ some profiles
    → trusted env profiles worker db ≡ true
    → (begin_submission env token now application command db).0 ≡ error x
    → (begin_submission env token now application command db).1 ≡ db
unfolding begin_submission
begin_submission-error env token now application command db worker profiles x shape found configured
      trust e =
    let q =
      with_worker-commit env token now (begin env now application command) db worker profiles shape
        found configured trust in
    ap (λ (r : Answer SubmissionResponse × Db). r.1) q
    ∙ rolled_back db (begin env now application command worker db) x
        (Ensures-begin env now application command worker db)
        (sym (ap (λ (r : Answer SubmissionResponse × Db). r.0) q) ∙ e)
