-- ===== src/Application/Effects/Scans.antt =====
-- `pollWorker` of lib/applications/leases.ts: which row the loop over the candidates picks.
use Prim.Native.String.{String}
use job_dashboard.Prelude.{
  ℕ, ◌+◌, ◌≡◌, refl, sym, subst, ◌∙◌, Bool, true, false, not, ◌&&◌, ◌||◌, Option, none, some, List,
  [], ◌∷◌, All, arith, find, any, is_some, update_where, if◌then◌else◌,
}
use job_dashboard.Application.State.{state_eq, submission_unknown}
use job_dashboard.Application.Requests.{Lease, lease_ms}
use job_dashboard.Application.Rows.{Worker, Application, Run, Target, Db, Env}
use job_dashboard.Application.Tx.{
  require, lease_lost, M, ◌>>=◌, return, current, update_application,
}
use job_dashboard.Application.WorkerStore.{
  get_policy, live_run, lease_of, lease_of_run, run_of, manifest_ready, marked_by_hand,
  CurrentPolicy,
}
use job_dashboard.Application.Caps.{
  current_discovery_policy, policy_of_found, run_scope, starts, reached, employer_limit_reached,
  mark_targets, unheld, claim_under, discovery_claim_allowed, run_policy, cap_held,
}
use job_dashboard.Application.Poll.{is_busy, may_claim, claimed_row, claim_row, claim_or, scan}
use job_dashboard.Application.Safety.Evolution.{IsIn}
use job_dashboard.Application.Safety.Rules.{Ensures, Ensures-bind, Ensures-mono}
use job_dashboard.Application.Effects.Rules.{Written, Ensures-update_exact}

-- The policy of the row's run reads jobs, and the row was started already or no cap holds it.
abbrev pub within_policy : Env → Application → ℕ → Option String → Db → Option CurrentPolicy → Bool
within_policy env app now tz db none = false
within_policy env app now tz db (some policy) =
    is_some app.started_at || not (cap_held env app.owner_id policy now tz db app)

-- The row was not discovered, or its snapshot is complete, it was not reported by hand and its policy lets it start.
abbrev pub allowed : Env → Application → ℕ → Option String → Db → Bool
allowed env app now tz db =
    not (is_some app.snapshot_manifest_id)
    || (manifest_ready app db
        && not (any (marked_by_hand app) db.marks)
        && within_policy env app now tz db (run_policy env app now db))

-- A candidate that may be handed out.
abbrev pub is_claimable : Env → Worker → ℕ → Db → Application → Bool
is_claimable env worker now db app =
    live_run env app now db
    && not (any (is_busy worker app) db.applications)
    && (state_eq app.state submission_unknown || allowed env app now worker.time_zone db)

-- Nothing but the targets has been written.
abbrev pub Retargeted : Db → Db → Type 0
Retargeted db db' = db' ≡ record db { targets = db'.targets }

abbrev Answers : Bool → Db → M Bool → Type 0
Answers b db m = Ensures (λ ok d. (ok ≡ b) × Retargeted db d) (λ _. ⊥) (m db)

Answers-if :
    (x b : Bool) (db : Db) (m n : M Bool)
    → (b ≡ true → Answers x db m)
    → (b ≡ false → Answers x db n)
    → Answers x db (if b then m else n)
Answers-if x true db m n h k = h refl
Answers-if x false db m n h k = k refl

claim_under-answer :
    (env : Env) (app : Application) (now : ℕ) (tz : Option String) (policy : Option CurrentPolicy)
    (db : Db)
    → Answers (within_policy env app now tz db policy) db (claim_under env app now tz policy)
unfolding claim_under unheld mark_targets
claim_under-answer env app now tz none db = (refl, refl)
claim_under-answer env app now tz (some policy) db =
    Answers-if _ (is_some app.started_at) db (return true) (unheld env app now tz policy)
      (λ old. (ground arith, refl)) (λ new. (ground arith, refl))

discovery_claim_allowed-answer :
    (env : Env) (app : Application) (now : ℕ) (tz : Option String) (db : Db)
    → Answers (allowed env app now tz db) db (discovery_claim_allowed env app now tz)
unfolding discovery_claim_allowed
discovery_claim_allowed-answer env app now tz db =
    Answers-if _ (not (is_some app.snapshot_manifest_id)) db (return true) _
      (λ h. (ground arith, refl))
      λ found.
        Answers-if _ (not (manifest_ready app db && not (any (marked_by_hand app) db.marks))) db
          (return false) (λ d. claim_under env app now tz (run_policy env app now d) d)
          (λ h. (ground arith, refl))
          λ shown.
            subst (λ b. Answers b db (claim_under env app now tz (run_policy env app now db)))
              (ground arith) (claim_under-answer env app now tz (run_policy env app now db) db)

may_claim-answer :
    (env : Env) (worker : Worker) (now : ℕ) (app : Application) (db : Db)
    → Answers (is_claimable env worker now db app) db (may_claim env worker now app)
unfolding may_claim
may_claim-answer env worker now app db =
    Answers-if _ (not (live_run env app now db && not (any (is_busy worker app) db.applications)))
      db (return false) _ (λ h. (ground arith, refl))
      λ free.
        Answers-if _ (state_eq app.state submission_unknown) db (return true) _
          (λ h. (ground arith, refl))
          λ known.
            subst (λ b. Answers b db (discovery_claim_allowed env app now worker.time_zone))
              (ground arith) (discovery_claim_allowed-answer env app now worker.time_zone db)

-- What was written when a row was handed out.
pub record Handed (now : ℕ) (app : Application) (db : Db) (lease : Lease) (db' : Db) : Type 0 where
  pub run : Run
  pub found : find (run_of app) db.runs ≡ some run
  pub answer : lease ≡ lease_of_run (claimed_row now app app) (now + lease_ms) run
  pub written : db' ≡ record db {
    applications = update_where (current app) (claimed_row now app) db.applications;
    targets = db'.targets;
  }

policy_of_found-retarget :
    (env : Env) (now : ℕ) (ts : List Target) (db : Db) (found : Option Run)
    → policy_of_found env now (record db { targets = ts }) found ≡ policy_of_found env now db found
unfolding policy_of_found current_discovery_policy get_policy
policy_of_found-retarget env now ts db none = refl
policy_of_found-retarget env now ts db (some run) = refl

run_policy-retarget :
    (env : Env) (app : Application) (now : ℕ) (ts : List Target) (db : Db)
    → run_policy env app now (record db { targets = ts }) ≡ run_policy env app now db
unfolding run_policy
run_policy-retarget env app now ts db =
    policy_of_found-retarget env now ts db (find (run_scope app) db.runs)

within_policy-retarget :
    (env : Env) (app : Application) (now : ℕ) (tz : Option String) (ts : List Target) (db : Db)
    (policy : Option CurrentPolicy)
    → within_policy env app now tz (record db { targets = ts }) policy
      ≡ within_policy env app now tz db policy
unfolding cap_held starts reached employer_limit_reached
within_policy-retarget env app now tz ts db none = refl
within_policy-retarget env app now tz ts db (some policy) = refl

live_run-retarget :
    (env : Env) (app : Application) (now : ℕ) (ts : List Target) (db : Db)
    → live_run env app now (record db { targets = ts }) ≡ live_run env app now db
unfolding live_run manifest_ready get_policy
live_run-retarget env app now ts db = ground arith

is_claimable-retarget :
    (env : Env) (worker : Worker) (now : ℕ) (ts : List Target) (db : Db) (app : Application)
    → is_claimable env worker now (record db { targets = ts }) app
      ≡ is_claimable env worker now db app
unfolding manifest_ready
is_claimable-retarget env worker now ts db app =
    rw
      (
        live_run-retarget env app now ts db,
        run_policy-retarget env app now ts db,
        within_policy-retarget env app now worker.time_zone ts db (run_policy env app now db),
      )
      refl

-- What a claim_row answers, and what it leaves.
abbrev pub Claims : ℕ → Application → Db → Option Lease → Db → Type 0
Claims now app db o d = (lease : Lease) × (o ≡ some lease) × Handed now app db lease d

lease-Handed :
    (now : ℕ) (app : Application) (ts : List Target) (db : Db)
    → Ensures
        (Claims now app db)
        (λ _. ⊥)
        ((lease_of (claimed_row now app app) >>= λ lease. return (some lease)) (record db {
          applications = update_where (current app) (claimed_row now app) db.applications;
          targets = ts;
        }))
unfolding lease_of claimed_row run_of
lease-Handed now app ts db = by_run (find (run_of app) db.runs) refl
  where
    by_run :
        (found : Option Run)
        → find (run_of app) db.runs ≡ found
        → Ensures
            (Claims now app db)
            (λ _. ⊥)
            (((require found 409 lease_lost >>= λ run.
                  return (lease_of_run (claimed_row now app app) (now + lease_ms) run))
                >>= λ lease. return (some lease))
              (record db {
                applications = update_where (current app) (claimed_row now app) db.applications;
                targets = ts;
              }))
    by_run none e = tt
    by_run (some run) e = (
      lease_of_run (claimed_row now app app) (now + lease_ms) run,
      refl,
      record { run = run; found = e; answer = refl; written = refl },
    )

Claims-claim :
    (now : ℕ) (app : Application) (ts : List Target) (db : Db)
    → IsIn app db.applications
    → Ensures (Claims now app db) (λ _. ⊥) (claim_row now app (record db { targets = ts }))
unfolding claim_row
Claims-claim now app ts db m =
    Ensures-bind {B = Option Lease}
      (Written (current app) (claimed_row now app) app (record db { targets = ts }))
      (Claims now app db) (λ _. ⊥) (update_application (current app) (claimed_row now app))
      (λ row. lease_of row >>= λ lease. return (some lease)) (record db { targets = ts })
      (Ensures-update_exact (λ _. ⊥) (claimed_row now app) app (record db { targets = ts }) m)
      λ row d w.
        subst
          (λ e.
            Ensures (Claims now app db) (λ _. ⊥)
              ((lease_of row >>= λ lease. return (some lease)) e))
          (sym w.1)
          (subst
            (λ r.
              Ensures (Claims now app db) (λ _. ⊥)
                ((lease_of r >>= λ lease. return (some lease)) (record db {
                  applications = update_where (current app) (claimed_row now app) db.applications;
                  targets = ts;
                })))
            (sym w.0) (lease-Handed now app ts db))

-- The loop has passed over rows that may not be handed out, and then handed one out or come to the end.
pub data Scanned (env : Env) (worker : Worker) (now : ℕ) (db : Db)
    : List Application → Option Lease → Db → Type 0 where
  ended : (d : Db) → Retargeted db d → Scanned env worker now db [] none d
  passed :
      (app : Application) (rest : List Application) (o : Option Lease) (d : Db)
      → is_claimable env worker now db app ≡ false
      → Scanned env worker now db rest o d
      → Scanned env worker now db (app ∷ rest) o d
  picked :
      (app : Application) (rest : List Application) (lease : Lease) (d : Db)
      → is_claimable env worker now db app ≡ true
      → Handed now app db lease d
      → Scanned env worker now db (app ∷ rest) (some lease) d

pub Scanned-scan :
    (env : Env) (worker : Worker) (now : ℕ) (apps : List Application) (ts : List Target) (db : Db)
    → All (λ a. IsIn a db.applications) apps
    → Ensures
        (Scanned env worker now db apps)
        (λ _. ⊥)
        (scan env worker now apps (record db { targets = ts }))
unfolding scan
Scanned-scan env worker now [] ts db all = ended (record db { targets = ts }) refl
Scanned-scan env worker now (app ∷ rest) ts db all =
    Ensures-bind {B = Option Lease}
      (λ ok d.
        (ok ≡ is_claimable env worker now (record db { targets = ts }) app) × Retargeted db d)
      (Scanned env worker now db (app ∷ rest)) (λ _. ⊥) (may_claim env worker now app)
      (claim_or now app (scan env worker now rest)) (record db { targets = ts })
      (may_claim-answer env worker now app (record db { targets = ts }))
      λ ok d r.
        subst
          (λ e.
            Ensures (Scanned env worker now db (app ∷ rest)) (λ _. ⊥)
              (claim_or now app (scan env worker now rest) ok e))
          (sym r.1)
          (next (λ ts'. Scanned-scan env worker now rest ts' db all.1) ok d.targets
            (r.0 ∙ is_claimable-retarget env worker now ts db app))
  where
    next :
        ((ts' : List Target)
          → Ensures
              (Scanned env worker now db rest)
              (λ _. ⊥)
              (scan env worker now rest (record db { targets = ts' })))
        → (ok : Bool) (ts' : List Target) → ok ≡ is_claimable env worker now db app
        → Ensures
            (Scanned env worker now db (app ∷ rest))
            (λ _. ⊥)
            (claim_or now app (scan env worker now rest) ok (record db { targets = ts' }))
    next others true ts' e =
        unfold claim_or in
        (Ensures-mono (Claims now app db) (Scanned env worker now db (app ∷ rest)) (λ _. ⊥) (λ _. ⊥)
          (claim_row now app (record db { targets = ts' })) (Claims-claim now app ts' db all.0)
          (λ o d c.
            subst (λ p. Scanned env worker now db (app ∷ rest) p d) (sym c.1)
              (picked app rest c.0 d (sym e) c.2))
          (λ d x. x))
    next others false ts' e =
        unfold claim_or in
        (Ensures-mono (Scanned env worker now db rest) (Scanned env worker now db (app ∷ rest))
          (λ _. ⊥) (λ _. ⊥) (scan env worker now rest (record db { targets = ts' })) (others ts')
          (λ o d c. passed app rest o d (sym e) c) (λ d x. x))
