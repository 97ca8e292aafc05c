-- ===== src/Application/Safety/Polling.antt =====
-- `pollWorker` of lib/applications/leases.ts keeps the rows evolving.
use Prim.Native.String.{String}
use job_dashboard.Prelude.{
  ℕ, ◌≡◌, refl, sym, subst, Bool, true, false, Option, none, some, List, [], ◌∷◌, All, arith,
  select, Bool-cases, inl, inr,
}
use job_dashboard.Application.State.{includes, is_terminal_state}
use job_dashboard.Application.Requests.{Lease}
use job_dashboard.Application.Rows.{Worker, Application, Db, Env}
use job_dashboard.Application.Tx.{
  return, current, triggers_allow, update_application, update_worker,
}
use job_dashboard.Application.WorkerStore.{lease_of}
use job_dashboard.Application.Leases.{seen}
use job_dashboard.Application.Runs.{insert_run}
use job_dashboard.Application.Caps.{daily_start_instant}
use job_dashboard.Application.Poll.{
  sweep, start_due, daily_start, claimable_states, is_candidate, place, ordered, may_claim,
  claimed_state, claimed_row, claim_row, claim_or, scan, leased_by_owner, hand_out, poll, precedes,
}
use job_dashboard.Application.Safety.Evolution.{Evolves, Evolved, Evolved-refl, IsIn}
use job_dashboard.Application.Safety.Rules.{
  Ensures, Ensures-bind, Ensures-mono, Ensures-update_any, SameApps,
}
use job_dashboard.Application.Safety.Keys.{
  Distinct, Distinct-Evolved, select-All-IsIn, state_unchanged,
}
use job_dashboard.Application.Safety.Leases.{Kept}
use job_dashboard.Application.Safety.Revocation.{Keeps, Keeps-then, Both, Keeps-update_worker}
use job_dashboard.Application.Safety.Requests.{Keeps-lease_of}
use job_dashboard.Application.Safety.Sweeping.{KeepsBoth-sweep}
use job_dashboard.Application.Safety.Unwritten.{Same-may_claim, Same-insert_run, KeepsBoth-Same}

claimed-Evolves :
    (now : ℕ) (app old : Application)
    → old.state ≡ app.state
    → old.revision ≡ app.revision
    → old.fence ≡ app.fence
    → includes claimable_states app.state ≡ true
    → triggers_allow old (claimed_row now app old) ≡ true
    → Evolves old (claimed_row now app old)
unfolding claimed_row claimed_state is_terminal_state
claimed-Evolves now app old s r f c h = ground arith

Keeps-claim :
    (before rows : List Application) (now : ℕ) (app : Application) (db : Db)
    → Distinct rows
    → IsIn app rows
    → includes claimable_states app.state ≡ true
    → Both before rows db
    → Ensures (λ _. Kept before) (Kept before) (claim_row now app db)
unfolding claim_row
Keeps-claim before rows now app db d m c k =
    Keeps-then before (update_application (current app) (claimed_row now app)) _ db
      (λ kept.
        Ensures-update_any (Kept before) before (current app) (claimed_row now app) db kept
          λ old n h t.
            let (s, r, f) = state_unchanged app old rows db.applications d k.1 m n h in
            claimed-Evolves now app old s r f c t)
      (λ row db'.
        Keeps-then {B = Option Lease} before (lease_of row) (λ lease. return (some lease)) db'
          (Keeps-lease_of before row db') (λ lease d' kept. kept))
      k.0

-- What a candidate is, among the rows that were read.
abbrev Listed : List Application → Application → Type 0
Listed rows app = IsIn app rows × (includes claimable_states app.state ≡ true)

Keeps-scan :
    (env : Env) (before rows : List Application) (worker : Worker) (now : ℕ)
    (apps : List Application) (db : Db)
    → Distinct rows
    → All (Listed rows) apps
    → Both before rows db
    → Ensures (λ _. Kept before) (Kept before) (scan env worker now apps db)
unfolding scan
Keeps-scan env before rows worker now [] db d all k = k.0
Keeps-scan env before rows worker now (app ∷ rest) db d all k =
    Ensures-bind (λ _. Both before rows) (λ _. Kept before) (Kept before)
      (may_claim env worker now app) _ db
      (Ensures-mono (λ _. Both before rows) (λ _. Both before rows) (Both before rows) (Kept before)
        _
        (KeepsBoth-Same before rows (may_claim env worker now app) db
          (Same-may_claim env worker now app db) k)
        (λ a db' h. h) (λ db' h. h.0))
      (chosen (λ db'. Keeps-scan env before rows worker now rest db' d all.1))
  where
    chosen :
        ((db' : Db)
          → Both before rows db'
          → Ensures (λ _. Kept before) (Kept before) (scan env worker now rest db'))
        → (ok : Bool) (db' : Db) → Both before rows db'
        → Ensures
            (λ _. Kept before)
            (Kept before)
            (claim_or now app (scan env worker now rest) ok db')
    chosen others true db' h =
        unfold claim_or in (Keeps-claim before rows now app db' d all.0.0 all.0.1 h)
    chosen others false db' h = unfold claim_or in (others db' h)

pub All-select :
    (p : Application → Bool) (xs : List Application)
    → All (λ a. IsIn a xs × (p a ≡ true)) (select p xs)
unfolding select
All-select p [] = tt
All-select p (x ∷ xs) = elim (Bool-cases (p x)) [
  | inl hit ↦ rw hit ((inl refl, hit), deeper (select p xs) (All-select p xs))
  | inr miss ↦ rw miss (deeper (select p xs) (All-select p xs))
]
  where
    deeper :
        (ys : List Application)
        → All (λ a. IsIn a xs × (p a ≡ true)) ys
        → All (λ a. IsIn a (x ∷ xs) × (p a ≡ true)) ys
    deeper [] h = tt
    deeper (y ∷ ys) h = ((inr h.0.0, h.0.1), deeper ys h.1)

pub All-mono :
    (P Q : Application → Type 0) (xs : List Application)
    → ((a : Application) → P a → Q a)
    → All P xs
    → All Q xs
All-mono P Q [] f h = tt
All-mono P Q (x ∷ xs) f h = (f x h.0, All-mono P Q xs f h.1)

pub All-place :
    (P : Application → Type 0) (a : Application) (xs : List Application)
    → P a
    → All P xs
    → All P (place a xs)
unfolding place
All-place P a [] h all = (h, tt)
All-place P a (x ∷ xs) h all = elim (Bool-cases (precedes a x)) [
  | inl first ↦ rw first (h, all)
  | inr later ↦ rw later (all.0, All-place P a xs h all.1)
]

pub All-ordered : (P : Application → Type 0) (xs : List Application) → All P xs → All P (ordered xs)
unfolding ordered
All-ordered P [] all = tt
All-ordered P (x ∷ xs) all = All-place P x (ordered xs) all.0 (All-ordered P xs all.1)

candidate_state :
    (env : Env) (worker : Worker) (now : ℕ) (assigned : Option Application) (db : Db)
    (app : Application)
    → is_candidate env worker now assigned db app ≡ true
    → includes claimable_states app.state ≡ true
unfolding is_candidate
candidate_state env worker now assigned db app h = ground arith

Keeps-hand_out :
    (env : Env) (before : List Application) (worker : Worker) (now : ℕ)
    (assigned : Option Application) (db : Db)
    → Distinct before
    → Keeps before (hand_out env worker now assigned) db
unfolding hand_out
Keeps-hand_out env before worker now assigned db d k =
    let p = is_candidate env worker now assigned db in
    Keeps-scan env before db.applications worker now (ordered (select p db.applications)) db
      (Distinct-Evolved before db.applications k d)
      (All-ordered (Listed db.applications) (select p db.applications) (
        All-mono (λ a. IsIn a db.applications × (p a ≡ true)) (Listed db.applications)
          (select p db.applications)
          (λ a h. (h.0, candidate_state env worker now assigned db a h.1))
          (All-select p db.applications)))
      (k, Evolved-refl db.applications)

pub Keeps-insert_run :
    (env : Env) (id owner worker now : ℕ) (before : List Application) (db : Db)
    → Keeps before (insert_run env id owner worker now) db
Keeps-insert_run env id owner worker now before db k =
    Ensures-mono (λ _. SameApps db) (λ _. Kept before) (SameApps db) (Kept before)
      (insert_run env id owner worker now db) (Same-insert_run env id owner worker now db)
      (λ a db' e. subst (Evolved before) (sym e) k) (λ db' e. subst (Evolved before) (sym e) k)

pub Keeps-daily_start :
    (env : Env) (id : ℕ) (before : List Application) (worker : Worker) (now : ℕ) (minute : Option ℕ)
    (tz : Option String) (db : Db)
    → Keeps before (daily_start env id worker now minute tz) db
unfolding daily_start
Keeps-daily_start env id before worker now none tz db k = k
Keeps-daily_start env id before worker now (some minute) none db k = k
Keeps-daily_start env id before worker now (some minute) (some tz) db k =
    elim (Bool-cases (start_due worker now (daily_start_instant env now minute tz) db)) [
      | inl due ↦ rw due (
          Keeps-then before (insert_run env id worker.owner_id worker.id now) (λ _. return tt) db
            (Keeps-insert_run env id worker.owner_id worker.id now before db) (λ _ d kept. kept) k)
      | inr early ↦ rw early k
    ]

pub Keeps-poll :
    (env : Env) (id : ℕ) (before : List Application) (now : ℕ) (worker : Worker) (db : Db)
    → Distinct before
    → Keeps before (poll env id now worker) db
unfolding poll
Keeps-poll env id before now worker db d k =
    let active = select (leased_by_owner worker) db.applications in
    Ensures-bind {B = Option Lease} (λ _. Both before db.applications) (λ _. Kept before)
      (Kept before) (sweep env worker now active none) _ db
      (Ensures-mono (λ _. Both before db.applications) (λ _. Both before db.applications)
        (Both before db.applications) (Kept before) _
        (KeepsBoth-sweep env before db.applications worker now active none db
          (Distinct-Evolved before _ k d) (select-All-IsIn _ db.applications)
          (k, Evolved-refl db.applications))
        (λ a db' h. h) (λ db' h. h.0))
      λ assigned db1 h.
        Keeps-then {B = Option Lease} before (update_worker worker (seen now)) _ db1
          (Keeps-update_worker before worker (seen now) db1)
          (λ _ db2.
            Keeps-then {B = Option Lease} before
              (daily_start env id worker now worker.daily_start_minute worker.time_zone) _ db2
              (Keeps-daily_start env id before worker now worker.daily_start_minute worker.time_zone
                db2)
              (λ _ db3. Keeps-hand_out env before worker now assigned db3 d))
          h.0
