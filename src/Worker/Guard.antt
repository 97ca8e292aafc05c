-- ===== src/Worker/Guard.antt =====
-- worker/guard.ts: the worker's own guard of the lease that it works under. Every function reads the clock once, and its
-- reading is an argument; instants are whole milliseconds, so that the tests for finite numbers hold of themselves.
use job_dashboard.Prelude.{
  ℕ, ◌+◌, ◌-◌, ◌==◌, ltb, leb, String, str_eq, Bool, true, false, not, ◌&&◌, ◌||◌, Option, none,
  some, or_else, if◌then◌else◌,
}
use job_dashboard.Application.State.{ApplicationState, state_eq, submitting, submission_unknown}
use job_dashboard.Application.Requests.{
  Identity, Lease, LeaseMode, lease_ms, heartbeat_ms, poll_timeout_ms,
}
pub mod Safety
pub mod Calls
pub mod Bindings
pub mod Tests

pub record ClockSample : Type 0 where
  pub mono : ℕ
  pub wall : ℕ

-- The origin of the server, which the guard does not read, is left out.
pub record WorkerScope : Type 0 where
  pub owner_id : ℕ
  pub worker_id : ℕ

pub data Reason : Type 0 where
  lease_lost clock_unsafe lease_expired invalid_lease binding_changed : Reason

-- The variables that the guard's functions share.
pub record Guard : Type 0 where
  pub lease : Lease
  pub previous : ClockSample
  pub deadline : ℕ
  pub revoked : Option Reason

-- A function of the guard returns, or throws the reason of its revocation.
pub data Result : Type 0 where
  returned : Guard → Result
  threw : Reason → Guard → Result

abbrev pub guard_of : Result → Guard
guard_of (returned g) = g
guard_of (threw r g) = g

abbrev pub then_do : Result → (Guard → Result) → Result
then_do (returned g) f = f g
then_do (threw r g) f = threw r g

-- `revoked ||= reason`
unfoldable pub revoke : Reason → Guard → Guard
revoke reason g = record g { revoked = some (or_else g.revoked reason) }

unfoldable pub fail : Reason → Guard → Result
unfolding revoke
fail reason g = threw (or_else g.revoked reason) (revoke reason g)

-- `Math.abs(a - b) > limit`
abbrev pub apart : ℕ → ℕ → ℕ → Bool
apart a b limit = ltb (b + limit) a || ltb (a + limit) b

-- The monotonic clock went back or stood still for too long, or the two clocks drifted apart; the differences of the
-- code are written as sums.
unfoldable pub clock_moved : ClockSample → ClockSample → Bool
clock_moved previous now =
    ltb now.mono previous.mono
    || ltb (previous.mono + heartbeat_ms + 10000) now.mono
    || apart (now.mono + previous.wall) (now.wall + previous.mono) 2000

unfoldable pub sample : ClockSample → Guard → Result
sample now g =
    if clock_moved g.previous now
    then fail clock_unsafe g
    else returned (record g { previous = now })

unfoldable pub expire : ClockSample → Guard → Result
expire now g = if leb g.deadline now.mono then fail lease_expired g else returned g

unfoldable pub unrevoked : Option Reason → Guard → Result
unrevoked none g = returned g
unrevoked (some reason) g = threw reason g

unfoldable pub check : ClockSample → Guard → Result
check now g = then_do (unrevoked g.revoked g) (λ g1. then_do (sample now g1) (λ g2. expire now g2))

-- Whether the lease and the reply that brought it make no deadline.
unfoldable pub bad_lease : Lease → (time : ℕ) → (start now : ClockSample) → Bool
bad_lease value time start now =
    not (leb 1 value.policy_revision)
    || leb value.lease_until (time + 1000)
    || ltb (time + lease_ms) value.lease_until
    || ltb now.mono start.mono
    || ltb (start.mono + poll_timeout_ms) now.mono
    || apart (now.wall + start.mono) (start.wall + now.mono) 2000

-- `start.mono + (value.leaseUntil - time) - 1000`, where the lease is good.
abbrev pub deadline_of : Lease → ℕ → ClockSample → ℕ
deadline_of value time start = start.mono + (value.lease_until - (time + 1000))

unfoldable pub set_deadline :
    Lease → (time : ℕ) → (start now checked : ClockSample) → Guard → Result
set_deadline value time start now checked g = then_do (sample now g) (λ g1.
    if bad_lease value time start now
    then fail invalid_lease g1
    else check checked (record g1 { deadline = deadline_of value time start }))

abbrev pub same_mode : LeaseMode → LeaseMode → Bool
same_mode LeaseMode.safe LeaseMode.safe = true
same_mode LeaseMode.reconcile LeaseMode.reconcile = true
same_mode _ _ = false

-- `identity(value) === identity(lease)`
unfoldable pub same_binding : Lease → Lease → Bool
same_binding a b =
    a.application_id == b.application_id
    && a.run_id == b.run_id
    && a.worker_id == b.worker_id
    && a.owner_id == b.owner_id
    && a.policy_revision == b.policy_revision
    && str_eq a.identity.ats b.identity.ats
    && str_eq a.identity.tenant b.identity.tenant
    && str_eq a.identity.requisition b.identity.requisition
    && a.fence == b.fence
    && same_mode a.mode b.mode
    && state_eq a.state b.state

-- `createLeaseGuard`
unfoldable pub create_lease_guard :
    Lease → WorkerScope → (time : ℕ) → (started now checked : ClockSample) → Result
create_lease_guard initial scope time started now checked =
    let g : Guard = record { lease = initial; previous = started; deadline = 0; revoked = none } in
    if not (initial.owner_id == scope.owner_id) || not (initial.worker_id == scope.worker_id)
    then fail binding_changed g
    else set_deadline initial time started now checked g

unfoldable pub adopt : Lease → Guard → Result
adopt value g = returned (record g { lease = value })

-- `renew`, which reads the clock three times.
unfoldable pub renew : Lease → (time : ℕ) → (start first now checked : ClockSample) → Guard → Result
renew value time start first now checked g = then_do (check first g) (λ g1.
    if not (same_binding value g1.lease) || not (value.revision == g1.lease.revision)
    then fail binding_changed g1
    else then_do (set_deadline value time start now checked g1) (λ g2. adopt value g2))

abbrev pub moved_on : (revision : ℕ) → ApplicationState → Lease → Lease
moved_on revision state lease = record lease {
  revision = revision;
  state = state;
  mode =
      if state_eq state submitting || state_eq state submission_unknown
      then LeaseMode.reconcile
      else lease.mode;
}

-- `advance`: a submission intent moves the application on under this same lease.
unfoldable pub advance : (revision fence : ℕ) → ApplicationState → ClockSample → Guard → Result
advance revision fence state now g = then_do (check now g) (λ g1.
    if revision == g1.lease.revision && state_eq state g1.lease.state
    then returned g1
    else if not (fence == g1.lease.fence) || ltb revision g1.lease.revision
    then fail binding_changed g1
    else returned (record g1 { lease = moved_on revision state g1.lease }))

-- `boundary`: an action between two checks; what it gives is dropped if the second fails.
unfoldable pub boundary : (before after : ClockSample) → (Guard → Guard) → Guard → Result
boundary before after action g = then_do (check before g) (λ g1. check after (action g1))
