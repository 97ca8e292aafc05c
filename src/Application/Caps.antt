-- ===== src/Application/Caps.antt =====
-- lib/applications/schedule.ts and discovery.ts: the daily start in a worker's time zone, the caps of a policy and of an
-- employer, and which rows they hold. A difference to a zone's offset is written as a sum with a day, as in Env.
use Prim.Native.String.{String}
use Prim.Native.Char.{code}
use job_dashboard.Prelude.{
  ℕ, ◌+◌, ◌-◌, ◌*◌, ◌/◌, ◌%◌, ◌==◌, ltb, leb, str_eq, Bool, true, false, not, ◌&&◌, ◌||◌, Option,
  none, some, List, [], ◌∷◌, if◌then◌else◌, is_some, holds, same, any, select, find, length,
  update_where, or_else,
}
use job_dashboard.Application.State.{
  state_eq, includes, submission_unknown, skipped, cancelled, failed,
}
use job_dashboard.Application.Requests.{RunState}
use job_dashboard.Application.Rows.{
  Run, Application, Submission, ManualMark, Target, Disposition, eligible, held_cap, Db, Env,
}
use job_dashboard.Application.Tx.{done, M, ◌>>=◌, ◌>>◌, return, read}
use job_dashboard.Application.WorkerStore.{
  CurrentPolicy, get_policy, policy_of_run, marked_by_hand, manifest_ready,
}

abbrev pub day_ms : ℕ
day_ms = 86400000

-- `wall - offset(wall, timeZone)`
abbrev pub less_offset : Env → String → (wall at : ℕ) → ℕ
less_offset env tz wall at = wall + day_ms - env.ahead_and_day tz at

-- `dailyStartInstant`
unfoldable pub daily_start_instant : Env → (now minute : ℕ) → String → ℕ
daily_start_instant env now minute tz =
    let local = now + env.ahead_and_day tz now - day_ms in
    let wall = local - local % day_ms + minute * 60000 in
    less_offset env tz wall (less_offset env tz wall wall)

-- `capDay`: the day that the caps count in.
unfoldable pub cap_day : Env → ℕ → Option String → ℕ × ℕ
cap_day env now none = let day = now / day_ms * day_ms in (day, day + day_ms)
cap_day env now (some tz) =
    let next = λ (start : ℕ). daily_start_instant env (start + 36 * 3600000) 0 tz in
    let start = daily_start_instant env now 0 tz in
    let end = next start in if ltb now end then (start, end) else (end, next end)

abbrev lower : ℕ → ℕ
lower c = if leb b'A' c && leb c b'Z' then c + 32 else c

-- The text, in lower case, is another one or begins with it.
lower_is : String → String → Bool
lower_is String.[] String.[] = true
lower_is (String.◌∷◌ c s) (String.◌∷◌ d t) = lower (code c) == code d && lower_is s t
lower_is String.[] (String.◌∷◌ d t) = false
lower_is (String.◌∷◌ c s) String.[] = false

lower_begins : String → String → Bool
lower_begins String.[] s = true
lower_begins (String.◌∷◌ d t) String.[] = false
lower_begins (String.◌∷◌ d t) (String.◌∷◌ c s) = lower (code c) == code d && lower_begins t s

-- `like '%...%'`, whose letters may be of either case.
lower_contains : String → String → Bool
lower_contains t String.[] = lower_begins t String.[]
lower_contains t (String.◌∷◌ c s) = lower_begins t (String.◌∷◌ c s) || lower_contains t s

-- `EMPLOYER_LIMITS`
unfoldable pub limit_max : ℕ
limit_max = 2

abbrev limit_ms : ℕ
limit_ms = 60 * day_ms

unfoldable pub limited : (ats tenant : String) → Bool
unfolding lower_is
limited ats tenant = str_eq ats "ashby" && lower_is tenant "ramp"

-- A started attempt that may still reach the limited employer, and a report of one made by hand.
unfoldable pub uses_limit : (owner now : ℕ) → Application → Bool
uses_limit owner now used =
    used.owner_id == owner
    && limited used.ats used.tenant
    && holds (λ at. leb now (at + limit_ms)) used.started_at
    && not (includes (skipped ∷ cancelled ∷ failed ∷ []) used.state)

unfoldable pub marks_limit : (owner now : ℕ) → ManualMark → Bool
marks_limit owner now m =
    m.owner_id == owner
    && holds (λ ats. str_eq ats "ashby") m.ats
    && holds (λ tenant. limited "ashby" tenant) m.tenant
    && leb now (m.created_at + limit_ms)

-- `employerLimitReached`
unfoldable pub employer_limit_reached : ℕ → Db → Application → Bool
employer_limit_reached now db app =
    limited app.ats app.tenant
    && leb limit_max (
        length (select (uses_limit app.owner_id now) db.applications)
        + length (select (marks_limit app.owner_id now) db.marks))

-- A start of the day that counts for the daily cap: a skip at the screening does not.
unfoldable pub started_today : (owner : ℕ) (day end : ℕ) → Application → Bool
unfolding lower_begins lower_contains
started_today owner day end a =
    a.owner_id == owner
    && holds (λ at. leb day at && ltb at end) a.started_at
    && not (state_eq a.state skipped && lower_contains "_ineligible" (or_else a.reason_code ""))

-- It was not ended before its form was sent.
unfoldable pub reached : Db → Application → Bool
reached db a = not (
    includes (cancelled ∷ failed ∷ skipped ∷ []) a.state
    && not (
        any (λ (s : Submission). s.owner_id == a.owner_id && s.application_id == a.id)
          db.submissions))

unfoldable pub same_employer : Application → Application → Bool
same_employer app used =
    holds (λ key. holds (λ k. str_eq k key) used.employer_key) app.employer_key
    || (str_eq used.ats app.ats && str_eq used.tenant app.tenant)

-- The starts that count today.
unfoldable pub starts : Env → (owner now : ℕ) → Option String → Db → List Application
starts env owner now tz db =
    let (day, end) = cap_day env now tz in select (started_today owner day end) db.applications

-- `capHeld`, on one row.
unfoldable pub cap_held :
    Env → (owner : ℕ) → CurrentPolicy → (now : ℕ) → Option String → Db → Application → Bool
cap_held env owner policy now tz db app =
    leb policy.daily_application_cap (length (starts env owner now tz db))
    || leb policy.per_employer_cap
        (length (select (same_employer app) (select (reached db) (starts env owner now tz db))))
    || employer_limit_reached now db app

abbrev is_running : RunState → Bool
is_running RunState.running = true
is_running _ = false

unfoldable pub run_scope : Application → Run → Bool
run_scope app r = r.owner_id == app.owner_id && r.id == app.run_id

unfoldable pub live_under : CurrentPolicy → Application → Run → Bool
unfolding run_scope
live_under policy app r = run_scope app r && is_running r.state && policy_of_run policy r

-- `claimableNow`, on one row.
unfoldable pub claimable_now : Env → (owner now : ℕ) → Option String → Db → Application → Bool
claimable_now env owner now tz db app =
    let head = get_policy env owner now db in
    state_eq app.state submission_unknown
    || (head.enabled
        && any (live_under head app) db.runs
        && (is_some app.started_at
            || not (is_some app.snapshot_manifest_id)
            || not (if head.reads_jobs then cap_held env owner head now tz db app else true)))

-- `currentDiscoveryPolicy`
unfoldable pub current_discovery_policy : Env → Run → ℕ → Db → Option CurrentPolicy
current_discovery_policy env run now db =
    let policy = get_policy env run.owner_id now db in
    if is_running run.state && policy_of_run policy run && policy.reads_jobs
    then some policy
    else none

abbrev is_open : Disposition → Bool
is_open eligible = true
is_open held_cap = true
is_open _ = false

unfoldable pub target_of : Application → Target → Bool
target_of app t =
    t.owner_id == app.owner_id
    && t.run_id == app.run_id
    && same t.application_id (some app.id)
    && is_open t.disposition

unfoldable pub mark_targets : Application → Bool → M (Unit {0})
mark_targets app held db = done tt (record db {
  targets =
      update_where (target_of app)
        (λ t. record t { disposition = if held then held_cap else eligible }) db.targets;
})

unfoldable pub unheld : Env → Application → ℕ → Option String → CurrentPolicy → M Bool
unheld env app now tz policy = do
  held ← read (λ db. cap_held env app.owner_id policy now tz db app)
  mark_targets app held
  return (not held)

unfoldable pub claim_under : Env → Application → ℕ → Option String → Option CurrentPolicy → M Bool
claim_under env app now tz none = return false
claim_under env app now tz (some policy) =
    if is_some app.started_at then return true else unheld env app now tz policy

unfoldable pub policy_of_found : Env → ℕ → Db → Option Run → Option CurrentPolicy
policy_of_found env now db none = none
policy_of_found env now db (some run) = current_discovery_policy env run now db

unfoldable pub run_policy : Env → Application → ℕ → Db → Option CurrentPolicy
run_policy env app now db = policy_of_found env now db (find (run_scope app) db.runs)

-- `discoveryClaimAllowed`; the row is read at the start of the same transaction, so that the caps are asked of it.
unfoldable pub discovery_claim_allowed : Env → Application → ℕ → Option String → M Bool
discovery_claim_allowed env app now tz =
    if not (is_some app.snapshot_manifest_id)
    then return true
    else read (λ db. manifest_ready app db && not (any (marked_by_hand app) db.marks)) >>= λ shown.
        if not shown
        then return false
        else read (run_policy env app now) >>= λ policy. claim_under env app now tz policy
