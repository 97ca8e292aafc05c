-- ===== src/Application/Effects/Commands.antt =====
-- `commandApplication` of lib/applications/runs.ts: an applicant's request that is new, and one that is repeated.
use job_dashboard.Prelude.{
  ℕ, ◌==◌, ◌≡◌, refl, sym, ap, ◌∙◌, subst, true, false, not, ◌||◌, ◌⊎◌, inl, inr, none, some, ◌∷◌,
  arith, find, is_some, update_where, Bool-cases,
}
use job_dashboard.Application.Requests.{ApplicationCommand, ScopedRequest, Acknowledgement}
use job_dashboard.Application.Rows.{Application, StoredCommand, Db, Env}
use job_dashboard.Application.Tx.{
  Code, done, M, return, command_key, current, update_application, insert_command,
}
use job_dashboard.Application.Session.{stored_answer, replay_command, save_command}
use job_dashboard.Application.Commands.{
  ambiguous, hidden, is_delete, hide, act, obey, in_run, new_command, answer_or, answer_command,
  application_summary,
}
use job_dashboard.Application.Safety.Evolution.{IsIn}
use job_dashboard.Application.Safety.Rules.{
  Ensures, Ensures-bind, Ensures-fail_if, Ensures-require, Ensures-mono, find-IsIn,
}
use job_dashboard.Application.Effects.Rules.{
  Ensures_done, bind_done, Written, Ensures-update_exact, Ensures-insert_command_exact,
}
use job_dashboard.Application.Effects.Orders.{Acted, Ensures-act}

-- What an order has made of the row and the database: by its action, a deletion or another one.
abbrev pub ByAction : ApplicationCommand → (hid acted : Type 0) → Type 0
ByAction command hid acted =
    ((is_delete command.action ≡ true) × hid) ⊎ ((is_delete command.action ≡ false) × acted)

-- A deletion that was carried out hides the row at its next revision, and cancels it if it had not ended.
pub record Hid (now : ℕ) (command : ApplicationCommand) (row : Application) (db : Db)
    (new : Application) (db' : Db) : Type 0 where
  pub timely : (row.revision == command.expected_revision) ≡ true
  pub shown : is_some row.hidden_at ≡ false
  pub settled : ambiguous row ≡ false
  pub written : new ≡ hidden now row row
  pub left :
      db' ≡ record db { applications = update_where (current row) (hidden now row) db.applications }

Ensures-hide :
    (E : Db → Type 0) (now : ℕ) (command : ApplicationCommand) (row : Application) (db : Db)
    → IsIn row db.applications
    → Ensures (Hid now command row db) E (hide now command row db)
unfolding hide
Ensures-hide E now command row db m =
    Ensures-fail_if {B = Application} (Hid now command row db) E
      (not (row.revision == command.expected_revision) || is_some row.hidden_at) 409 Code.conflict _
      db
      λ fresh.
        Ensures-fail_if {B = Application} (Hid now command row db) E (ambiguous row) 409
          Code.conflict _ db
          λ settled.
            Ensures-mono (Written (current row) (hidden now row) row db) (Hid now command row db) E
              E (update_application (current row) (hidden now row) db)
              (Ensures-update_exact E (hidden now row) row db m)
              (λ a d w. record {
                timely = ground arith;
                shown = ground arith;
                settled = settled;
                written = w.0;
                left = w.1;
              })
              (λ d x. x)

module _ (env : Env) (owner run_id id : ℕ) (command : ApplicationCommand) where
  abbrev pub scope : ScopedRequest
  scope = ScopedRequest.application_command run_id id command

  abbrev pub stored : ℕ → Acknowledgement → StoredCommand
  stored now answer = record {
    owner_id = owner;
    request_id = command.request_id;
    request_hash = env.hash_request scope;
    acknowledgement = answer;
    created_at = now;
  }

  -- A new request that was carried out: the row that it found, what became of it, the answer, and the stored request.
  pub record Carried (now : ℕ) (db : Db) (answer : Acknowledgement) (db' : Db) : Type 0 where
    pub row : Application
    pub new : Application
    pub between : Db
    pub found : find (in_run owner run_id id) db.applications ≡ some row
    pub changed :
        ByAction command
          (Hid now command row db new between)
          (Acted env owner run_id now command row db new between)
    pub answered : answer ≡ Acknowledgement.application (application_summary new)
    pub left : db' ≡ record between { commands = stored now answer ∷ between.commands }

  Obeyed : ℕ → Application → Db → Application → Db → Type 0
  Obeyed now row db new db' =
      ByAction command (Hid now command row db new db')
        (Acted env owner run_id now command row db new db')

  Ensures-obey :
      (E : Db → Type 0) (now : ℕ) (row : Application) (db : Db)
      → IsIn row db.applications
      → Ensures (Obeyed now row db) E (obey env owner run_id now command row db)
  unfolding obey Obeyed
  Ensures-obey E now row db m = elim (Bool-cases (is_delete command.action)) [
    | inl hides ↦ rw hides (
        Ensures-mono (Hid now command row db) (Obeyed now row db) E E (hide now command row db)
          (Ensures-hide E now command row db m) (λ a d h. inl (hides, h)) (λ d x. x))
    | inr acts ↦ rw acts (
        Ensures-mono (Acted env owner run_id now command row db) (Obeyed now row db) E E
          (act env owner run_id now command row db)
          (Ensures-act env owner run_id now E command row db m) (λ a d h. inr (acts, h)) (λ d x. x))
  ]

  abbrev Saved : ℕ → Acknowledgement → Db → Acknowledgement → Db → Type 0
  Saved now given db answer db' =
      (answer ≡ given) × (db' ≡ record db { commands = stored now given ∷ db.commands })

  Ensures-save :
      (E : Db → Type 0) (now : ℕ) (given : Acknowledgement) (db : Db)
      → Ensures
          (Saved now given db)
          E
          (save_command env owner command.request_id scope given now db)
  unfolding save_command
  Ensures-save E now given db =
      Ensures-bind {B = Acknowledgement} _ (Saved now given db) E
        (insert_command (stored now given)) (λ _. return given) db
        (Ensures-insert_command_exact E (stored now given) db) (λ _ d q. (refl, q))

  Ensures-new_command :
      (now : ℕ) (db : Db)
      → Ensures (Carried now db) (λ _. Unit {0}) (new_command env owner run_id id now command db)
  unfolding new_command Obeyed
  Ensures-new_command now db =
      Ensures-require {B = Acknowledgement} (Carried now db) (λ _. Unit {0})
        (find (in_run owner run_id id) db.applications) 404 Code.not_found _ db
        λ row f.
          Ensures-bind (Obeyed now row db) (Carried now db) (λ _. Unit {0})
            (obey env owner run_id now command row) save db
            (Ensures-obey (λ _. Unit {0}) now row db (find-IsIn _ _ row f))
            λ new d changed.
              Ensures-mono (Saved now (Acknowledgement.application (application_summary new)) d)
                (Carried now db) (λ _. Unit {0}) (λ _. Unit {0}) (save new d)
                (Ensures-save (λ _. Unit {0}) now
                  (Acknowledgement.application (application_summary new)) d)
                (λ answer d' s. record {
                  row = row;
                  new = new;
                  between = d;
                  found = f;
                  changed = changed;
                  answered = s.0;
                  left = cc;
                })
                (λ d' x. x)
    where
      save : Application → M Acknowledgement
      save new =
          save_command env owner command.request_id scope
            (Acknowledgement.application (application_summary new)) now

  pub answer_command-Carried :
      (now : ℕ) (db : Db) (answer : Acknowledgement) (db' : Db)
      → find (command_key owner command.request_id) db.commands ≡ none
      → answer_command env owner run_id id now command db ≡ done answer db'
      → Carried now db answer db'
  unfolding answer_command replay_command stored_answer answer_or
  answer_command-Carried now db answer db' h e =
      Ensures_done (Carried now db) (λ _. Unit {0}) (new_command env owner run_id id now command db)
        answer db' (Ensures-new_command now db)
        (sym (
            bind_done (replay_command env owner command.request_id scope) _ db db none
              (ap (λ o. stored_answer env scope o db) h))
          ∙ e)

  replays :
      (later : ℕ) (db : Db) (answer : Acknowledgement) (at : ℕ)
      → find (command_key owner command.request_id) db.commands ≡ some (stored at answer)
      → answer_command env owner run_id id later command db ≡ done answer db
  unfolding answer_command replay_command stored_answer answer_or
  replays later db answer at f =
      let same : (env.hash_request scope == env.hash_request scope) ≡ true = ground arith in
      let known : stored_answer env scope (some (stored at answer)) db ≡ done (some answer) db =
        rw same refl in
      bind_done (replay_command env owner command.request_id scope) _ db db (some answer)
        (ap (λ o. stored_answer env scope o db) f ∙ known)

  is_stored :
      (now : ℕ) (between : Db) (answer : Acknowledgement)
      → find
          (command_key owner command.request_id)
          (record between { commands = stored now answer ∷ between.commands }).commands
        ≡ some (stored now answer)
  unfolding find command_key
  is_stored now between answer = ground arith

  -- The repetition of a new request that succeeded, on the database that the first call left and whatever the clock says,
  -- gets the same answer and changes nothing.
  pub answer_command-answer_command :
      (now later : ℕ) (db : Db) (answer : Acknowledgement) (db' : Db)
      → find (command_key owner command.request_id) db.commands ≡ none
      → answer_command env owner run_id id now command db ≡ done answer db'
      → answer_command env owner run_id id later command db' ≡ done answer db'
  answer_command-answer_command now later db answer db' h e =
      let c = answer_command-Carried now db answer db' h e in
      replays later db' answer now (
        subst
          (λ (d : Db).
            find (command_key owner command.request_id) d.commands ≡ some (stored now answer))
          (sym c.left) (is_stored now c.between answer))
