-- ===== src/Worker/Guard/Tests.antt =====
-- The guard's theorems at concrete inputs.
use job_dashboard.Prelude.{ℕ, ◌+◌, ◌<◌, refl, none, [], ◌∷◌}
use job_dashboard.Application.State.{ready, submitting}
use job_dashboard.Application.Requests.{Lease, LeaseMode}
use job_dashboard.Worker.Guard.{
  ClockSample, Guard, check, sample, expire, unrevoked, clock_moved, bad_lease, set_deadline,
  same_binding, renew, adopt,
}
use job_dashboard.Worker.Guard.Calls.{checks, advances, calls, renew-check}
use job_dashboard.Worker.Guard.Bindings.{Continues, calls-Continues}

at : ℕ → ClockSample
at ms = record { mono = ms; wall = ms + 1000000 }

lease : Lease
lease = record {
  application_id = 20;
  run_id = 5;
  worker_id = 7;
  owner_id = 1;
  policy_revision = 1;
  identity = record { ats = "greenhouse"; tenant = "acme"; requisition = "r1" };
  state = ready;
  revision = 4;
  fence = 2;
  lease_until = 5120000;
  checkpoint = none;
  mode = LeaseMode.safe;
}

guard : Guard
guard = record { lease = lease; previous = at 1000; deadline = 100000; revoked = none }

longer : Lease
longer = record lease { lease_until = 5140000 }

renewed_guard : Guard
renewed_guard = record { lease = longer; previous = at 21020; deadline = 139990; revoked = none }

checked_guard : Guard
checked_guard = record renewed_guard { previous = at 30000 }

renew-check_example : 5020000 + 30000 + 1000 < 20990 + 5140000
unfolding at lease guard longer renewed_guard checked_guard renew check sample expire unrevoked
    clock_moved bad_lease set_deadline same_binding adopt
renew-check_example =
    renew-check longer 5020000 (at 20990) (at 21000) (at 21010) (at 21020) (at 30000) guard
      renewed_guard checked_guard refl refl

calls-Continues_example :
    Continues guard.lease
      (calls (checks (at 2000) ∷ advances 5 2 submitting (at 2100) ∷ []) guard).lease
calls-Continues_example =
    calls-Continues (checks (at 2000) ∷ advances 5 2 submitting (at 2100) ∷ []) guard
