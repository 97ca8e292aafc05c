-- ===== src/Application/Effects/Once.antt =====
-- lib/applications/submissions.ts, `beginSubmission`: an application is sent once.
use job_dashboard.Prelude.{
  ℕ, ◌==◌, ◌≡◌, refl, sym, ◌≢◌, ap, ◌∙◌, subst, Bool, true, false, none, some, List, [], ◌∷◌, arith,
  find, Bool-cases, inl, inr,
}
use job_dashboard.Application.Requests.{SubmissionIntent, SubmissionResponse}
use job_dashboard.Application.Rows.{Worker, Application, Db, Env}
use job_dashboard.Application.Tx.{done, app_scope, current}
use job_dashboard.Application.Leases.{assigned}
use job_dashboard.Application.Submissions.{
  in_state, sending, intent_row, replay_intent, new_intent, answer_intent, intent_known, begin,
}
use job_dashboard.Application.Safety.Evolution.{Evolved, IsIn}
use job_dashboard.Application.Safety.Keys.{Distinct, Distinct-Evolved, same_row}
use job_dashboard.Application.Safety.Sending.{Keeps-begin}
use job_dashboard.Application.Safety.Rules.{find-IsIn, find_holds, update-IsIn, current_self}
use job_dashboard.Application.Safety.Evolution.{Evolved-refl}
use job_dashboard.Application.Safety.Leases.{Kept}
use job_dashboard.Application.Effects.Rules.{Ensures_done}
use job_dashboard.Application.Effects.Intents.{
  after_intent, intent_response, Begun, Ensures-new_intent,
}

true-false : true ≢ false
true-false e = cc

-- With the primary key, a row is found by a test that it alone passes.
find_only :
    (p : Application → Bool) (row : Application) (xs : List Application)
    → IsIn row xs
    → p row ≡ true
    → ((a : Application) → IsIn a xs → p a ≡ true → a ≡ row)
    → find p xs ≡ some row
unfolding find
find_only p row [] m h u = absurd m
find_only p row (x ∷ xs) m h u = elim (Bool-cases (p x)) [
  | inl hit ↦ rw hit (ap some (u x (inl refl) hit))
  | inr miss ↦ rw miss (find_only p row xs (later miss m) h (λ a n. u a (inr n)))
]
  where
    later : p x ≡ false → IsIn row (x ∷ xs) → IsIn row xs
    later miss (inl e) =
        let other : true ≡ false = sym h ∙ ap p e ∙ miss in absurd (true-false other)
    later miss (inr n) = n

module _ (env : Env) (now application : ℕ) (command : SubmissionIntent) (worker : Worker)
    (db : Db) where
  -- A new intent that is accepted has found the application ready, under the worker's lease, for the same role, allowed
  -- on this deployment and without an earlier intent; the row becomes submitting at the next revision, the intent is
  -- stored, and nothing else in the database changes.
  pub begin-Begun :
      (answer : SubmissionResponse) (db' : Db)
      → find (intent_known worker command.intent_id) db.submissions ≡ none
      → begin env now application command worker db ≡ done answer db'
      → Begun env now application command worker db answer db'
  unfolding begin answer_intent
  begin-Begun answer db' h e =
      Ensures_done (Begun env now application command worker db) (λ _. ⊥)
        (new_intent env now application command worker db) answer db'
        (Ensures-new_intent env now application command worker db) (rw h at e)

  sent : Application → Application
  sent row = sending row row

  sent_found :
      (answer : SubmissionResponse) (db' : Db)
      → Distinct db.applications
      → begin env now application command worker db ≡ done answer db'
      → (b : Begun env now application command worker db answer db')
      → find (app_scope worker.owner_id application) db'.applications ≡ some (sent b.row)
  unfolding assigned app_scope sending sent
  sent_found answer db' d e b =
      let m : IsIn (sending b.row b.row) db'.applications =
        subst (λ (x : Db). IsIn (sending b.row b.row) x.applications) (sym b.left)
          (update-IsIn (current b.row) (sending b.row) db.applications b.row
            (find-IsIn _ _ b.row b.found) (current_self b.row)) in
      let ev : Evolved db.applications db'.applications =
        Ensures_done (λ _. Kept db.applications) (Kept db.applications)
          (begin env now application command worker db) answer db'
          (Keeps-begin env db.applications now application command worker db
            (Evolved-refl db.applications))
          e in
      let scope = find_holds (assigned worker application) db.applications b.row b.found in
      find_only (app_scope worker.owner_id application) (sending b.row b.row) db'.applications m
        (ground arith)
        (λ a n h.
          same_row a (sending b.row b.row) db'.applications (Distinct-Evolved _ _ ev d) n m
            (ground arith))

  known :
      (row : Application)
      → find
          (intent_known worker command.intent_id)
          (after_intent env now application command worker row db).submissions
        ≡ some (intent_row env now application command worker)
  unfolding find intent_known intent_row
  known row = ground arith

  again :
      (row : Application) (db' : Db)
      → find (app_scope worker.owner_id application) db'.applications ≡ some (sent row)
      → replay_intent env application command worker
          (intent_row env now application command worker)
          db'
        ≡ done (record (intent_response application command (sent row)) { replayed = true }) db'
  unfolding replay_intent intent_row sent sending in_state
  again row db' f =
      let same_hash : (env.hash_intent command == env.hash_intent command) ≡ true = ground arith in
      let same_id : (application == application) ≡ true = ground arith in
      rw (same_hash, same_id, f) refl

  -- From a database whose applications have distinct ids: the repetition of an intent that was accepted, on the very database
  -- that the first call left, is answered as at first, marked as a repetition, whatever the clock says, and changes nothing.
  pub begin-begin :
      (answer : SubmissionResponse) (db' : Db) (later : ℕ)
      → Distinct db.applications
      → find (intent_known worker command.intent_id) db.submissions ≡ none
      → begin env now application command worker db ≡ done answer db'
      → begin env later application command worker db'
        ≡ done (record answer { replayed = true }) db'
  unfolding begin answer_intent sent
  begin-begin answer db' later d h e =
      let b = begin-Begun answer db' h e in
      let k : find (intent_known worker command.intent_id) db'.submissions
          ≡ some (intent_row env now application command worker) =
        subst
          (λ (x : Db).
            find (intent_known worker command.intent_id) x.submissions
            ≡ some (intent_row env now application command worker))
          (sym b.left) (known b.row) in
      rw (k, b.answered) (again b.row db' (sent_found answer db' d e b))
