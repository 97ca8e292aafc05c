-- ===== src/Application/Safety/Orderly/Resumes.antt =====
-- `commandRun` of lib/applications/runs.ts: a run resumes only where no other run of its worker goes under its policy.
use job_dashboard.Prelude.{
  ℕ, ◌==◌, ◌≡◌, refl, sym, subst, Bool, true, false, not, ◌||◌, Option, none, some, List, [], ◌∷◌,
  find, select, update_where, is_some, if◌then◌else◌, arith,
}
use job_dashboard.Application.Requests.{
  RunState, RunAction, pause, resume, stop, RunCommand, Acknowledgement, ScopedRequest,
}
use job_dashboard.Application.Rows.{Worker, Run, Db, Env}
use job_dashboard.Application.Tx.{
  Code, M, ◌>>=◌, ◌>>◌, return, read, done, fail_if, one, update_run,
}
use job_dashboard.Application.WorkerStore.{get_policy, policy_of_run}
use job_dashboard.Application.Session.{save_command}
use job_dashboard.Application.Runs.{
  same_live_run, run_state_eq, refuse_second_run, refuse_revoked, worker_by_id, check_resume,
  still_valid, check_action, redirected, state_after, run_key, new_run_command, run_summary,
  abandon_manifest, release_run_applications,
}
use job_dashboard.Application.Safety.Rules.{Ensures, Ensures-bind, Ensures-fail_if, Ensures-require}
use job_dashboard.Application.Safety.OneLive.{
  Calms, find-Unmatched, OneLive-resumed, find-select, Alike,
}
use job_dashboard.Application.Safety.Rules.{Holds-bind}
use job_dashboard.Application.Safety.Orderly.{Ordered, Orderly, Orderly-update_run, tables}
use job_dashboard.Application.Safety.Orderly.Credentials.{Orderly-save_command}
use job_dashboard.Application.Safety.Orderly.Starts.{
  trusted_worker, not_some, Orderly-abandon_manifest, Orderly-release_run_applications,
}

-- The run may resume: the transaction has written nothing, and nothing runs in its place.
abbrev Resumable : Run → Db → Db → Type 0
Resumable row db db' = (db' ≡ db) × (find (same_live_run row) db.runs ≡ none)

resumed_worker :
    (env : Env) (now : ℕ) (worker : Option Worker) (db : Db)
    → Ordered db
    → Ensures
        (λ ok db'. Ordered db' × (ok ≡ true → db' ≡ db))
        Ordered
        (still_valid env now worker db)
unfolding still_valid
resumed_worker env now none db h = (h, λ e. absurd (cc))
resumed_worker env now (some w) db h = trusted_worker env w now db h

Ensures-test :
    (Q : Unit {0} → Db → Type 0) (b : Bool) (db : Db)
    → (b ≡ false → Q tt db)
    → Ensures Q Ordered (fail_if b 409 Code.run_active db)
Ensures-test Q true db h = tt
Ensures-test Q false db h = h refl

Ensures-check_resume :
    (env : Env) (owner now : ℕ) (row : Run) (db : Db)
    → Ordered db
    → Ensures (λ _. Resumable row db) Ordered (check_resume env owner now row db)
unfolding check_resume refuse_revoked refuse_second_run
Ensures-check_resume env owner now row db h =
    Ensures-fail_if {B = Unit {0}} (λ _. Resumable row db) Ordered
      (not (run_state_eq row.state RunState.paused)) 409 Code.conflict _ db
      λ paused.
        Ensures-bind (λ ok db'. Ordered db' × (ok ≡ true → db' ≡ db)) (λ _. Resumable row db)
          Ordered (still_valid env now (find (worker_by_id owner row.worker_id) db.workers)) _ db
          (resumed_worker env now (find (worker_by_id owner row.worker_id) db.workers) db h)
          valid_or_not
  where
    under_policy :
        Ensures
          (λ _. Resumable row db)
          Ordered
          ((fail_if (not (policy_of_run (get_policy env owner now db) row)) 403 Code.forbidden
              >>= λ _. refuse_second_run row)
            db)
    under_policy =
        Ensures-fail_if {B = Unit {0}} (λ _. Resumable row db) Ordered
          (not (policy_of_run (get_policy env owner now db) row)) 403 Code.forbidden
          (λ _. refuse_second_run row) db
          λ allowed.
            Ensures-test (λ _. Resumable row db) (is_some (find (same_live_run row) db.runs)) db
              (λ e. (refl, not_some _ e))

    valid_or_not :
        (ok : Bool) (db' : Db)
        → Ordered db' × (ok ≡ true → db' ≡ db)
        → Ensures
            (λ _. Resumable row db)
            Ordered
            ((refuse_revoked ok >>= λ _. read (get_policy env owner now) >>= λ policy.
                fail_if (not (policy_of_run policy row)) 403 Code.forbidden >>= λ _.
                refuse_second_run row)
              db')
    valid_or_not true db' q =
        subst
          (λ d.
            Ensures (λ _. Resumable row db) Ordered
              ((fail_if (not (policy_of_run (get_policy env owner now d) row)) 403 Code.forbidden
                  >>= λ _. refuse_second_run row)
                d))
          (sym (q.1 refl)) under_policy
    valid_or_not false db' q = q.0

resumed :
    (p : Run → Bool) (row : Run) (rows : List Run) (owner id : ℕ) (db : Db)
    → select p db.runs ≡ rows
    → p row ≡ true
    → find (run_key owner id) db.runs ≡ some row
    → find (same_live_run row) db.runs ≡ none
    → Ordered db
    → Ensures
        (λ _. Ordered)
        Ordered
        ((one rows >>= λ old d.
            done
              (redirected row RunState.running old)
              (record d { runs = update_where p (redirected row RunState.running) d.runs }))
          db)
unfolding one
resumed p row [] owner id db e hit found free h = tt
resumed p row (old ∷ []) owner id db e hit found free h =
    let same : old ≡ row = find-select (run_key owner id) p db.runs row old found hit e in
    OneLive-resumed p (redirected row RunState.running) row db.runs alike
      (find-Unmatched row db.runs free) (subst (λ o. select p db.runs ≡ o ∷ []) same e) h
  where
    alike : Alike p (redirected row RunState.running) row (redirected row RunState.running row)
    alike =
        unfold redirected in
        (record { owner = refl; worker = refl; revision = refl; version = refl; hash = refl })
resumed p row (a ∷ b ∷ rest) owner id db e hit found free h = tt

Ensures-resume :
    (row : Run) (owner id : ℕ) (db : Db)
    → find (run_key owner id) db.runs ≡ some row
    → find (same_live_run row) db.runs ≡ none
    → Ordered db
    → Ensures (λ _. Ordered) Ordered (update_run row (redirected row RunState.running) db)
unfolding update_run
Ensures-resume row owner id db found free h =
    resumed _ row (select _ db.runs) owner id db refl (ground arith) found free h

pause-Calms :
    (row : Run) (state : RunState) (r : Run)
    → run_state_eq state RunState.running ≡ false
    → Calms r (redirected row state r)
unfolding redirected
pause-Calms row state r h = ground arith

-- The steps after the tests.
module _ (env : Env) (owner id now : ℕ) (command : RunCommand) (row : Run) where
  abbrev told : Run → M Acknowledgement
  told updated = do
    abandon_manifest owner row (state_after command.action)
    (if run_state_eq (state_after command.action) RunState.running
        then return tt
        else release_run_applications owner id (state_after command.action))
    save_command env owner command.request_id (ScopedRequest.run_command id command)
        (Acknowledgement.run (run_summary updated)) now

  Orderly-told : (updated : Run) → Orderly (told updated)
  Orderly-told updated =
      search
        (tables, Orderly-abandon_manifest, Orderly-release_run_applications, Orderly-save_command)

  abbrev after_tests : M Acknowledgement
  after_tests = update_run row (redirected row (state_after command.action)) >>= told

  Orderly-after_tests :
      run_state_eq (state_after command.action) RunState.running ≡ false → Orderly after_tests
  Orderly-after_tests stops =
      Holds-bind (update_run row (redirected row (state_after command.action))) told
        (Orderly-update_run row _ (λ r. pause-Calms row (state_after command.action) r stops))
        Orderly-told

  resume_or_stop :
      (db : Db) (action : RunAction)
      → command.action ≡ action
      → find (run_key owner id) db.runs ≡ some row
      → Ordered db
      → Ensures
          (λ _. Ordered)
          Ordered
          ((check_action env owner now row action >>= λ _. after_tests) db)
  unfolding check_action
  resume_or_stop db resume e found h =
      Ensures-bind (λ _. Resumable row db) (λ _. Ordered) Ordered (check_resume env owner now row)
        (λ _. after_tests) db (Ensures-check_resume env owner now row db h)
        λ _ db' q.
          subst (λ d. Ensures (λ _. Ordered) Ordered (after_tests d)) (sym q.0)
            (Ensures-bind (λ _. Ordered) (λ _. Ordered) Ordered
              (update_run row (redirected row (state_after command.action))) told db
              (subst
                (λ a.
                  Ensures (λ _. Ordered) Ordered
                    (update_run row (redirected row (state_after a)) db))
                (sym e) (Ensures-resume row owner id db found q.1 h))
              (λ updated d k. (Orderly-told updated).at d k))
  resume_or_stop db pause e found h = (Orderly-after_tests (ground (arith, e))).at db h
  resume_or_stop db stop e found h = (Orderly-after_tests (ground (arith, e))).at db h
  resume_or_stop db RunAction.emergency_stop e found h =
      (Orderly-after_tests (ground (arith, e))).at db h

pub Orderly-new_run_command :
    (env : Env) (owner id now : ℕ) (command : RunCommand)
    → Orderly (new_run_command env owner id now command)
unfolding new_run_command
Orderly-new_run_command env owner id now command = record {
  at = λ db h.
      Ensures-require {B = Acknowledgement} (λ _. Ordered) Ordered (find (run_key owner id) db.runs)
        404 Code.not_found _ db
        λ row found.
          Ensures-fail_if {B = Acknowledgement} (λ _. Ordered) Ordered
            (not (row.revision == command.expected_revision)
              || run_state_eq row.state RunState.stopped)
            409 Code.conflict _ db
            (λ fresh. resume_or_stop env owner id now command row db command.action refl found h);
}
