-- ===== src/Application/Effects/Starts.antt =====
-- lib/applications/discovery.ts: the caps, once a poll has started a discovered role.
use job_dashboard.Prelude.{
  ℕ, ◌+◌, ◌≤◌, ◌≡◌, refl, sym, ap, ◌∙◌, subst, ◌⊎◌, inl, inr, Bool, true, false, not, ◌&&◌, ◌||◌,
  Option, none, some, List, [], ◌∷◌, arith, select, length, is_some, leb, update_where, Bool-cases,
}
use job_dashboard.Application.State.{state_eq, submission_unknown}
use job_dashboard.Application.Requests.{Lease}
use job_dashboard.Application.Rows.{Worker, Application, Target, Db, Env}
use job_dashboard.Application.Tx.{done, current}
use job_dashboard.Application.WorkerStore.{CurrentPolicy}
use job_dashboard.Application.Caps.{
  cap_day, started_today, starts, reached, same_employer, limited, limit_max, uses_limit,
  marks_limit, employer_limit_reached, cap_held, run_policy,
}
use job_dashboard.Application.Poll.{claimed_row, poll}
use job_dashboard.Application.Safety.Evolution.{IsIn}
use job_dashboard.Application.Safety.Keys.{Distinct, Distinct-Evolved, one_current}
use job_dashboard.Application.Effects.Scans.{is_claimable, within_policy, Handed}
use job_dashboard.Application.Effects.Polls.{Polled, poll-Polled}

-- The starts of the day, those of them at the row's employer, and the attempts that count for the employer's own limit.
abbrev pub started : Env → Worker → ℕ → Application → Db → ℕ
started env worker now app db = length (starts env app.owner_id now worker.time_zone db)

abbrev pub at_employer : Env → Worker → ℕ → Application → Db → ℕ
at_employer env worker now app db = length (
    select (same_employer app)
      (select (reached db) (starts env app.owner_id now worker.time_zone db)))

abbrev pub attempts : ℕ → Application → Db → ℕ
attempts now app db =
    length (select (uses_limit app.owner_id now) db.applications)
    + length (select (marks_limit app.owner_id now) db.marks)

-- Nothing counts more than a bound allows, which is one more than it may be before.
record Counts (env : Env) (worker : Worker) (now : ℕ) (app : Application) (policy : CurrentPolicy)
    (more : ℕ) (db : Db) : Type 0 where
  today : started env worker now app db + more ≤ policy.daily_application_cap
  employer : at_employer env worker now app db + more ≤ policy.per_employer_cap
  own_limit : (limited app.ats app.tenant ≡ false) ⊎ (attempts now app db + more ≤ limit_max)

caps_left :
    (cap n limit m tries most : ℕ) (own : Bool)
    → not (leb cap n || leb limit m || (own && leb most tries)) ≡ true
    → (n + 1 ≤ cap) × (m + 1 ≤ limit) × ((own ≡ false) ⊎ (tries + 1 ≤ most))
caps_left cap n limit m tries most own h = ground arith

spare :
    (env : Env) (worker : Worker) (now : ℕ) (db : Db) (app : Application) (policy : CurrentPolicy)
    → app.started_at ≡ none
    → within_policy env app now worker.time_zone db (some policy) ≡ true
    → Counts env worker now app policy 1 db
unfolding cap_held employer_limit_reached same_employer
spare env worker now db app policy fresh h =
    let (today, employer, own_limit) =
      caps_left policy.daily_application_cap (started env worker now app db) policy.per_employer_cap
        (at_employer env worker now app db) (attempts now app db) limit_max
        (limited app.ats app.tenant) (rw fresh at h) in
    record { today = today; employer = employer; own_limit = own_limit }

module _ {A : Type 0} where
  -- An update adds to what is counted at most the rows that it hits.
  select-update_where :
      (p q : A → Bool) (set : A → A) (xs : List A)
      → length (select p (update_where q set xs)) ≤ length (select p xs) + length (select q xs)
  unfolding select update_where
  select-update_where p q set [] = omega arith
  select-update_where p q set (x ∷ xs) = ground (arith, select-update_where p q set xs)

  select-select :
      (p q : A → Bool) (xs : List A) → select p (select q xs) ≡ select (λ x. q x && p x) xs
  unfolding select
  select-select p q [] = refl
  select-select p q (x ∷ xs) = elim (Bool-cases (q x)) [
    | inl hit ↦ rw (hit, select-select p q xs) refl
    | inr miss ↦ rw (miss, select-select p q xs) refl
  ]

-- A row that is claimed adds at most itself.
module _ (now : ℕ) (app : Application) (xs : List Application) (d : Distinct xs)
    (m : IsIn app xs) where
  grows :
      (p : Application → Bool)
      → length (select p (update_where (current app) (claimed_row now app) xs))
        ≤ length (select p xs) + 1
  grows p =
      let more = select-update_where p (current app) (claimed_row now app) xs in
      let one = ap (λ (rows : List Application). length rows) (one_current app xs d m) in
      omega (arith, more, one)

  nested :
      (p q r : Application → Bool) (rows : List Application)
      → select p (select q (select r rows)) ≡ select (λ a. (r a && q a) && p a) rows
  nested p q r rows =
      ap (select p) (select-select q r rows) ∙ select-select p (λ a. r a && q a) rows

  grows_within :
      (p q r : Application → Bool)
      → length
          (select p (select q (select r (update_where (current app) (claimed_row now app) xs))))
        ≤ length (select p (select q (select r xs))) + 1
  grows_within p q r =
      rw (nested p q r (update_where (current app) (claimed_row now app) xs), nested p q r xs)
        (grows (λ a. (r a && q a) && p a))

after_claim :
    (env : Env) (worker : Worker) (now : ℕ) (app : Application) (policy : CurrentPolicy)
    (ts : List Target) (db : Db)
    → Distinct db.applications
    → IsIn app db.applications
    → Counts env worker now app policy 1 db
    → Counts env worker now app policy 0 (record db {
      applications = update_where (current app) (claimed_row now app) db.applications;
      targets = ts;
    })
unfolding starts reached
after_claim env worker now app policy ts db d m c =
    let owner = app.owner_id in
    let (day, end) = cap_day env now worker.time_zone in
    let today = grows now app db.applications d m (started_today owner day end) in
    let employer =
      grows_within now app db.applications d m (same_employer app) (reached db)
        (started_today owner day end) in
    let tries = grows now app db.applications d m (uses_limit owner now) in
    record {
      today = omega (arith, today, c.today);
      employer = omega (arith, employer, c.employer);
      own_limit = elim c.own_limit [
        | inl other ↦ inl other
        | inr few ↦ inr (omega (arith, tries, few))
      ];
    }

-- A discovered role that was never started and is not in doubt.
abbrev pub is_start : Application → Bool
is_start app =
    is_some app.snapshot_manifest_id
    && not (is_some app.started_at)
    && not (state_eq app.state submission_unknown)

-- The caps of the policy that the row's run was under when it was handed out, in the database after it.
pub record UnderCaps (env : Env) (worker : Worker) (now : ℕ) (app : Application) (before after : Db)
    : Type 0 where
  pub policy : CurrentPolicy
  pub of_run : run_policy env app now before ≡ some policy
  pub today : started env worker now app after ≤ policy.daily_application_cap
  pub employer : at_employer env worker now app after ≤ policy.per_employer_cap
  pub own_limit : (limited app.ats app.tenant ≡ false) ⊎ (attempts now app after ≤ limit_max)

none_of : (o : Option ℕ) → is_some o ≡ false → o ≡ none
none_of none h = refl
none_of (some n) h = cc

start-UnderCaps :
    (env : Env) (worker : Worker) (now : ℕ) (app : Application) (lease : Lease) (db d : Db)
    → Distinct db.applications
    → IsIn app db.applications
    → is_claimable env worker now db app ≡ true
    → Handed now app db lease d
    → is_start app ≡ true
    → UnderCaps env worker now app db d
start-UnderCaps env worker now app lease db d distinct m may h fresh =
    by_policy (run_policy env app now db) refl (ground (arith, may, fresh))
  where
    by_policy :
        (o : Option CurrentPolicy)
        → run_policy env app now db ≡ o
        → within_policy env app now worker.time_zone db o ≡ true
        → UnderCaps env worker now app db d
    by_policy none e h = cc
    by_policy (some policy) e allowed =
        let c = subst (Counts env worker now app policy 0) (sym h.written) (
          after_claim env worker now app policy d.targets db distinct m (
            spare env worker now db app policy (none_of app.started_at (ground (arith, fresh)))
              allowed)) in
        record {
          policy = policy;
          of_run = e;
          today = omega (arith, c.today);
          employer = omega (arith, c.employer);
          own_limit = elim c.own_limit [
            | inl other ↦ inl other
            | inr few ↦ inr (omega (arith, few))
          ];
        }

-- A poll, the row of its database that was handed out, and the caps that this start has kept to, if it is one.
pub record HandedUnderCaps (env : Env) (id now : ℕ) (worker : Worker) (db : Db) (lease : Lease)
    (d : Db) : Type 0 where
  pub polled : Polled env id now worker db (some lease) d
  pub app : Application
  pub is_in : IsIn app polled.between.applications
  pub handed : Handed now app polled.between lease d
  pub capped : (is_start app ≡ false) ⊎ UnderCaps env worker now app polled.between d

-- When a poll has handed out a discovered role that was never started and is not in doubt, then in the database that it
-- leaves, this start included, no more roles were started that day than the policy of the role's run allows, no more at its
-- employer than the policy allows for one, and no more attempts count than the employer's own limit, if it has one.
pub poll-UnderCaps :
    (env : Env) (id now : ℕ) (worker : Worker) (db : Db) (lease : Lease) (d : Db)
    → Distinct db.applications
    → poll env id now worker db ≡ done (some lease) d
    → HandedUnderCaps env id now worker db lease d
poll-UnderCaps env id now worker db lease d distinct e =
    let polled = poll-Polled env id now worker db (some lease) d distinct e in
    let (app, m, candidate, may, handed, first) = polled.handed_out in
    record {
      polled = polled;
      app = app;
      is_in = m;
      handed = handed;
      capped = elim (Bool-cases (is_start app)) [
        | inl fresh ↦ inr (
            start-UnderCaps env worker now app lease polled.between d
              (Distinct-Evolved db.applications polled.between.applications polled.evolved distinct)
              m may handed fresh)
        | inr other ↦ inl other
      ];
    }
