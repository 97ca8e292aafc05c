-- ===== src/Application/Safety/Decisions.antt =====
-- `commandApplication` of lib/applications/runs.ts: what a command decides of an application.
use job_dashboard.Prelude.{
  ℕ, ◌≡◌, refl, true, false, not, ◌&&◌, arith, find, is_some, if◌then◌else◌, leb,
}
use job_dashboard.Application.State.{
  ApplicationState, state_eq, submission_unknown, skipped, cancelled, is_terminal_state,
  is_awaiting_submit_approval, is_safe_retry_state,
}
use job_dashboard.Application.Requests.{
  Checkpoint, ApplicationAction, skip, retry_safe, approve_submit, confirm_submitted,
  confirm_not_submitted,
}
use job_dashboard.Application.Rows.{Application, Db, Env}
use job_dashboard.Application.Tx.{Code}
use job_dashboard.Application.Safety.Evolution.{in_doubt, may_be_sent, Evolves}
use job_dashboard.Application.Safety.Rules.{Ensures, Ensures-fail_if, Ensures-require}
use job_dashboard.Application.WorkerStore.{get_policy, policy_of_run}
use job_dashboard.Application.Commands.{
  Effect, is_running, refuse_open_submission, window_open, ambiguous, unstopped, run_by_id,
  retry_stage, retry, approve, keeping, effect_of, commanded, hidden,
}

-- What an action may make of the row's state.
pub Allowed : Application → Effect → Type 0
Allowed row e =
    (is_terminal_state row.state ≡ false) × (in_doubt row.state ≡ true → may_be_sent e.state ≡ true)

pub commanded-Evolves :
    (row : Application) (action : ApplicationAction) (e : Effect)
    → Allowed row e
    → Evolves row (commanded row action e row)
unfolding commanded Allowed
commanded-Evolves row action e h = ground (arith, h.1)

pub hidden-Evolves :
    (now : ℕ) (row : Application) → ambiguous row ≡ false → Evolves row (hidden now row row)
unfolding hidden ambiguous
hidden-Evolves now row h = ground arith

stage-sent : (c : Checkpoint) → may_be_sent (retry_stage c) ≡ false
unfolding retry_stage
stage-sent c = ground arith

-- The effect of an action leaves the database alone.
abbrev pub EffectOf : Application → Db → Effect → Db → Type 0
EffectOf row db e db' = (db' ≡ db) × Allowed row e

Ensures-retry :
    (E : Db → Type 0) (env : Env) (owner run_id now : ℕ) (row : Application) (db : Db)
    → is_terminal_state row.state ≡ false
    → Ensures (EffectOf row db) E (retry env owner run_id now row db)
unfolding retry
Ensures-retry E env owner run_id now row db t =
    Ensures-require {B = Effect} (EffectOf row db) E
      (unstopped (find (run_by_id owner run_id) db.runs)) 409 Code.conflict _ db
      λ run e.
        Ensures-fail_if {B = Effect} (EffectOf row db) E
          (not (is_safe_retry_state row.state row.reason_code)) 409 Code.conflict _ db
          λ safe.
            Ensures-require {B = Effect} (EffectOf row db) E row.checkpoint 409 Code.conflict _ db
              λ c f.
                Ensures-fail_if {B = Effect} (EffectOf row db) E (leb 3 row.retries) 409
                  Code.conflict _ db
                  λ few.
                    Ensures-fail_if {B = Effect} (EffectOf row db) E
                      (not (policy_of_run (get_policy env owner now db) run)) 409
                      Code.policy_changed _ db λ current. (refl, retry_allowed row _ t safe)
  where
    retry_allowed :
        (row : Application) (e : Effect)
        → is_terminal_state row.state ≡ false
        → not (is_safe_retry_state row.state row.reason_code) ≡ false
        → Allowed row e
    retry_allowed row e t s = unfold Allowed is_safe_retry_state in (t, λ d. ground arith)

approve-Allowed :
    (row : Application) (e : Effect)
    → is_terminal_state row.state ≡ false
    → not (is_awaiting_submit_approval row.state row.reason_code) ≡ false
    → Allowed row e
unfolding Allowed is_awaiting_submit_approval
approve-Allowed row e t s = (t, λ d. ground arith)

Ensures-approve :
    (E : Db → Type 0) (env : Env) (owner run_id now : ℕ) (row : Application) (db : Db)
    → is_terminal_state row.state ≡ false
    → Ensures (EffectOf row db) E (approve env owner run_id now row db)
unfolding approve
Ensures-approve E env owner run_id now row db t =
    Ensures-require {B = Effect} (EffectOf row db) E
      (unstopped (find (run_by_id owner run_id) db.runs)) 409 Code.conflict _ db
      λ run e.
        Ensures-fail_if {B = Effect} (EffectOf row db) E
          (not (is_awaiting_submit_approval row.state row.reason_code)) 409 Code.conflict _ db
          λ awaiting.
            Ensures-fail_if {B = Effect} (EffectOf row db) E (not (is_running run.state)) 409
              Code.conflict _ db
              λ running.
                let policy = get_policy env owner now db in
                Ensures-fail_if {B = Effect} (EffectOf row db) E
                  (not (policy.enabled && policy.allows_submit)) 403 Code.submit_disabled _ db
                  λ submits.
                    Ensures-fail_if {B = Effect} (EffectOf row db) E
                      (not (policy_of_run policy run)) 409 Code.policy_changed _ db
                      λ present. (refl, approve-Allowed row _ t awaiting)

-- An ambiguous row takes only the actions that settle it.
settled_state :
    (row : Application) (s : ApplicationState) (available_at retries : ℕ)
    → is_terminal_state row.state ≡ false
    → Allowed row (record {
      state = if ambiguous row then submission_unknown else s;
      available_at = available_at;
      retries = retries;
    })
unfolding Allowed ambiguous
settled_state row s available_at retries t = (t, λ d. ground arith)

pub Ensures-effect_of :
    (E : Db → Type 0) (env : Env) (owner run_id now : ℕ) (row : Application)
    (action : ApplicationAction) (db : Db)
    → is_terminal_state row.state ≡ false
    → Ensures (EffectOf row db) E (effect_of env owner run_id now row action db)
unfolding effect_of keeping
Ensures-effect_of E env owner run_id now row retry_safe db t =
    Ensures-retry E env owner run_id now row db t
Ensures-effect_of E env owner run_id now row approve_submit db t =
    Ensures-approve E env owner run_id now row db t
Ensures-effect_of E env owner run_id now row confirm_submitted db t =
    Ensures-fail_if {B = Effect} (EffectOf row db) E (not (state_eq row.state submission_unknown))
      409 Code.conflict _ db λ unknown. (refl, unfold Allowed in (t, λ d. refl))
Ensures-effect_of E env owner run_id now row confirm_not_submitted db t =
    Ensures-fail_if {B = Effect} (EffectOf row db) E (not (state_eq row.state submission_unknown))
      409 Code.conflict _ db
      λ unknown.
        unfold refuse_open_submission Allowed in
        (Ensures-fail_if {B = Effect} (EffectOf row db) E
          (is_some (find (window_open owner row.id now) db.submissions)) 409 Code.may_still_complete
          _ db λ closed. (refl, (t, λ d. refl)))
Ensures-effect_of E env owner run_id now row skip db t =
    (refl, settled_state row skipped row.available_at row.retries t)
Ensures-effect_of E env owner run_id now row action db t =
    (refl, settled_state row cancelled row.available_at row.retries t)
