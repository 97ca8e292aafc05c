-- ===== src/Application/Effects/Orders.antt =====
-- `commandApplication` of lib/applications/runs.ts: what an applicant's order that was carried out has found and done.
use job_dashboard.Prelude.{
  ℕ, ◌+◌, ◌*◌, ◌^◌, ◌==◌, ◌≡◌, refl, sym, subst, true, false, not, ◌&&◌, ◌||◌, Option, none, some,
  arith, find, is_some, leb, update_where, if◌then◌else◌,
}
use job_dashboard.Application.State.{
  state_eq, ready, submission_unknown, submitted, failed, skipped, cancelled, is_terminal_state,
  is_awaiting_submit_approval, is_safe_retry_state,
}
use job_dashboard.Application.Requests.{
  Checkpoint, ApplicationCommand, ApplicationAction, skip, retry_safe, approve_submit,
  confirm_submitted, confirm_not_submitted, cancel, emergency_stop, delete,
}
use job_dashboard.Application.Rows.{Run, Application, Db, Env}
use job_dashboard.Application.Tx.{Code, M, current, update_application}
use job_dashboard.Application.WorkerStore.{get_policy, policy_of_run}
use job_dashboard.Application.Commands.{
  Effect, is_running, refuse_open_submission, window_open, ambiguous, unstopped, run_by_id,
  retry_stage, retry, approve, keeping, effect_of, commanded, is_answer, settles, act,
}
use job_dashboard.Application.Safety.Evolution.{IsIn}
use job_dashboard.Application.Safety.Rules.{
  Ensures, Ensures-bind, Ensures-fail_if, Ensures-require, Ensures-mono,
}
use job_dashboard.Application.Effects.Rules.{Written, Ensures-update_exact}

-- What an order makes of the row.
abbrev pub IsCommanded : Effect → Application → Application → Type 0
IsCommanded effect row new =
    (new.state ≡ effect.state)
    × (new.revision ≡ row.revision + 1)
    × (new.fence ≡ row.fence + 1)
    × (new.lease_until ≡ none)
    × (new.available_at ≡ effect.available_at)
    × (new.retries ≡ effect.retries)

commanded-IsCommanded :
    (action : ApplicationAction) (effect : Effect) (row : Application)
    → IsCommanded effect row (commanded row action effect row)
unfolding commanded
commanded-IsCommanded action effect row = (refl, refl, refl, refl, refl, refl)

module _ (env : Env) (owner run_id now : ℕ) where
  -- A retry wants a run that is not stopped and whose policy is the present one, a row that may be retried from its
  -- checkpoint, and fewer than three retries; it waits longer each time.
  pub record Retries (row : Application) (db : Db) (e : Effect) : Type 0 where
    pub run : Run
    pub checkpoint : Checkpoint
    pub found : unstopped (find (run_by_id owner run_id) db.runs) ≡ some run
    pub safe : is_safe_retry_state row.state row.reason_code ≡ true
    pub reached : row.checkpoint ≡ some checkpoint
    pub few : leb 3 row.retries ≡ false
    pub present : policy_of_run (get_policy env owner now db) run ≡ true
    pub effect : e ≡ record {
      state = retry_stage checkpoint;
      available_at = now + 5000 * 2 ^ row.retries;
      retries = row.retries + 1;
    }

  -- An approval wants a row that waits for one, a running run, and its present policy to be enabled and to allow
  -- submitting.
  pub record Approves (row : Application) (db : Db) (e : Effect) : Type 0 where
    pub run : Run
    pub found : unstopped (find (run_by_id owner run_id) db.runs) ≡ some run
    pub awaiting : is_awaiting_submit_approval row.state row.reason_code ≡ true
    pub running : is_running run.state ≡ true
    pub enabled : (get_policy env owner now db).enabled ≡ true
    pub allows : (get_policy env owner now db).allows_submit ≡ true
    pub present : policy_of_run (get_policy env owner now db) run ≡ true
    pub effect : e ≡ record { state = ready; available_at = now; retries = row.retries }

  -- What each action wants and does.
  abbrev pub Decides : Application → ApplicationAction → Db → Effect → Type 0
  Decides row retry_safe db e = Retries row db e
  Decides row approve_submit db e = Approves row db e
  Decides row confirm_submitted db e =
      (state_eq row.state submission_unknown ≡ true) × (e ≡ keeping row submitted)
  Decides row confirm_not_submitted db e =
      (state_eq row.state submission_unknown ≡ true)
      × (find (window_open owner row.id now) db.submissions ≡ none)
      × (e ≡ keeping row failed)
  Decides row skip db e = e ≡ keeping row (if ambiguous row then submission_unknown else skipped)
  Decides row _ db e = e ≡ keeping row (if ambiguous row then submission_unknown else cancelled)

  abbrev Decided : Application → ApplicationAction → Db → Effect → Db → Type 0
  Decided row action db e db' = (db' ≡ db) × Decides row action db e

  Ensures-retry_exact :
      (E : Db → Type 0) (row : Application) (db : Db)
      → Ensures (Decided row retry_safe db) E (retry env owner run_id now row db)
  unfolding retry
  Ensures-retry_exact E row db =
      Ensures-require {B = Effect} (Decided row retry_safe db) E
        (unstopped (find (run_by_id owner run_id) db.runs)) 409 Code.conflict _ db
        λ run found.
          Ensures-fail_if {B = Effect} (Decided row retry_safe db) E
            (not (is_safe_retry_state row.state row.reason_code)) 409 Code.conflict _ db
            λ safe.
              Ensures-require {B = Effect} (Decided row retry_safe db) E row.checkpoint 409
                Code.conflict _ db
                λ c reached.
                  Ensures-fail_if {B = Effect} (Decided row retry_safe db) E (leb 3 row.retries) 409
                    Code.conflict _ db
                    λ few.
                      Ensures-fail_if {B = Effect} (Decided row retry_safe db) E
                        (not (policy_of_run (get_policy env owner now db) run)) 409
                        Code.policy_changed _ db
                        λ present. (
                          refl,
                          record {
                            run = run;
                            checkpoint = c;
                            found = found;
                            safe = ground arith;
                            reached = reached;
                            few = few;
                            present = ground arith;
                            effect = refl;
                          },
                        )

  Ensures-approve_exact :
      (E : Db → Type 0) (row : Application) (db : Db)
      → Ensures (Decided row approve_submit db) E (approve env owner run_id now row db)
  unfolding approve
  Ensures-approve_exact E row db =
      Ensures-require {B = Effect} (Decided row approve_submit db) E
        (unstopped (find (run_by_id owner run_id) db.runs)) 409 Code.conflict _ db
        λ run found.
          Ensures-fail_if {B = Effect} (Decided row approve_submit db) E
            (not (is_awaiting_submit_approval row.state row.reason_code)) 409 Code.conflict _ db
            λ awaiting.
              Ensures-fail_if {B = Effect} (Decided row approve_submit db) E
                (not (is_running run.state)) 409 Code.conflict _ db
                λ running.
                  let policy = get_policy env owner now db in
                  Ensures-fail_if {B = Effect} (Decided row approve_submit db) E
                    (not (policy.enabled && policy.allows_submit)) 403 Code.submit_disabled _ db
                    λ submits.
                      Ensures-fail_if {B = Effect} (Decided row approve_submit db) E
                        (not (policy_of_run policy run)) 409 Code.policy_changed _ db
                        λ present. (
                          refl,
                          record {
                            run = run;
                            found = found;
                            awaiting = ground arith;
                            running = ground arith;
                            enabled = ground arith;
                            allows = ground arith;
                            present = ground arith;
                            effect = refl;
                          },
                        )

  none_of_some : {A : Type 0} (o : Option A) → is_some o ≡ false → o ≡ none
  none_of_some none e = refl
  none_of_some (some a) e = cc

  Ensures-effect_of_exact :
      (E : Db → Type 0) (row : Application) (action : ApplicationAction) (db : Db)
      → Ensures (Decided row action db) E (effect_of env owner run_id now row action db)
  unfolding effect_of refuse_open_submission
  Ensures-effect_of_exact E row retry_safe db = Ensures-retry_exact E row db
  Ensures-effect_of_exact E row approve_submit db = Ensures-approve_exact E row db
  Ensures-effect_of_exact E row confirm_submitted db =
      Ensures-fail_if {B = Effect} (Decided row confirm_submitted db) E
        (not (state_eq row.state submission_unknown)) 409 Code.conflict _ db
        λ unknown. (refl, (ground arith, refl))
  Ensures-effect_of_exact E row confirm_not_submitted db =
      Ensures-fail_if {B = Effect} (Decided row confirm_not_submitted db) E
        (not (state_eq row.state submission_unknown)) 409 Code.conflict _ db
        λ unknown.
          Ensures-fail_if {B = Effect} (Decided row confirm_not_submitted db) E
            (is_some (find (window_open owner row.id now) db.submissions)) 409
            Code.may_still_complete _ db
            λ closed. (refl, (ground arith, none_of_some _ closed, refl))
  Ensures-effect_of_exact E row skip db = (refl, refl)
  Ensures-effect_of_exact E row cancel db = (refl, refl)
  Ensures-effect_of_exact E row emergency_stop db = (refl, refl)
  Ensures-effect_of_exact E row delete db = (refl, refl)

  -- An order other than deletion that was carried out: what it has found of the row, what the action decided, and what it
  -- wrote.
  pub record Acted (command : ApplicationCommand) (row : Application) (db : Db) (new : Application)
      (db' : Db) : Type 0 where
    pub effect : Effect
    pub timely :
        (row.revision == command.expected_revision
          || (is_answer command.action && state_eq row.state submission_unknown))
        ≡ true
    pub unfinished : is_terminal_state row.state ≡ false
    pub settling : (ambiguous row && not (settles command.action)) ≡ false
    pub decides : Decides row command.action db effect
    pub moved : IsCommanded effect row new
    pub written : new ≡ commanded row command.action effect row
    pub left : db' ≡ record db {
      applications =
          update_where (current row) (commanded row command.action effect) db.applications;
    }

  pub Ensures-act :
      (E : Db → Type 0) (command : ApplicationCommand) (row : Application) (db : Db)
      → IsIn row db.applications
      → Ensures (Acted command row db) E (act env owner run_id now command row db)
  unfolding act
  Ensures-act E command row db m =
      Ensures-fail_if {B = Application} (Acted command row db) E
        ((not (row.revision == command.expected_revision)
            && not (is_answer command.action && state_eq row.state submission_unknown))
          || is_terminal_state row.state)
        409 Code.conflict _ db
        λ fresh.
          Ensures-fail_if {B = Application} (Acted command row db) E
            (ambiguous row && not (settles command.action)) 409 Code.conflict _ db
            λ settled.
              Ensures-bind (Decided row command.action db) (Acted command row db) E
                (effect_of env owner run_id now row command.action) carry_out db
                (Ensures-effect_of_exact E row command.action db)
                λ e db' q.
                  subst (λ d. Ensures (Acted command row db) E (carry_out e d)) (sym q.0)
                    (Ensures-mono (Written (current row) (commanded row command.action e) row db)
                      (Acted command row db) E E (carry_out e db)
                      (Ensures-update_exact E (commanded row command.action e) row db m)
                      (λ a d w. record {
                        effect = e;
                        timely = ground arith;
                        unfinished = ground arith;
                        settling = settled;
                        decides = q.1;
                        moved =
                            subst (IsCommanded e row) (sym w.0)
                              (commanded-IsCommanded command.action e row);
                        written = w.0;
                        left = w.1;
                      })
                      (λ d x. x))
    where
      carry_out : Effect → M Application
      carry_out e = update_application (current row) (commanded row command.action e)
