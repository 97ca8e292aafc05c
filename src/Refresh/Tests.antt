-- ===== src/Refresh/Tests.antt =====
-- The refresh queue at concrete inputs.
use job_dashboard.Refresh.Cycles.{
  SourceCheckpoint, Runner, same_checkpoints, is_behind, catch_up, run_refresh_cycles,
  run_refresh_cycles_returns, run_refresh_cycles-up_to_date,
}
use job_dashboard.Prelude.{
  ℕ, List, true, false, ◌+◌, ◌<◌, suc, zero, is_some, any, ◌≡◌, ◌≤◌, refl, none, some, [], ◌∷◌,
  arith, select, not,
}
use job_dashboard.Refresh.{
  RefreshRequest, Queue, Asked, is_active, is_pending, request_refresh, take, finish_request,
}
use job_dashboard.Refresh.Claims.{
  insert, claim, finish, steps, active_count, steps_one_active, take-take, finish_request-take,
  request_refresh_returns,
}

-- A request whose claimer went away.
abandoned : RefreshRequest
abandoned = record {
  id = 1;
  requested_by = none;
  requested_at = 1000;
  claimed_at = some 2000;
  completed_at = none;
  error = none;
}

waiting_queue : Queue
waiting_queue = record { rows = abandoned ∷ []; next_id = 2 }

steps_one_active_example :
    active_count
      (steps
        (insert none 9000000 ∷ claim abandoned 9000000 ∷ finish abandoned none 9000001 ∷ [])
        waiting_queue).rows
    ≤ 1
unfolding select is_active waiting_queue abandoned
steps_one_active_example =
    steps_one_active
      (insert none 9000000 ∷ claim abandoned 9000000 ∷ finish abandoned none 9000001 ∷ [])
      waiting_queue (omega arith)

take-take_example :
    take abandoned 9000005 (take abandoned 9000000 waiting_queue).1
    ≡ (none, (take abandoned 9000000 waiting_queue).1)
unfolding is_pending is_active abandoned
take-take_example = take-take abandoned 8999990 9000000 9000005 waiting_queue refl (omega arith)

finish_request-take_example :
    finish_request abandoned none 9000005 (take abandoned 9000000 waiting_queue).1
    ≡ some (take abandoned 9000000 waiting_queue).1
unfolding is_pending is_active abandoned
finish_request-take_example =
    finish_request-take abandoned none 2000 8999990 9000000 9000005 waiting_queue refl refl
      (omega arith)

request_refresh_returns_example :
    (asked : Asked) × ((request_refresh 1 (λ _ others. others) none 9000000 waiting_queue).0
      ≡ some asked)
    × (is_active asked.request ≡ true)
    × (asked.queued ≡ not (any is_active waiting_queue.rows))
request_refresh_returns_example = request_refresh_returns 0 none 9000000 waiting_queue

-- A machine whose state is the scans that its one source still has to make and the instant; a cycle makes one.
abbrev remaining : ℕ → List SourceCheckpoint
remaining zero = record { name = "lever"; value = "done"; pending = false } ∷ []
remaining (suc zero) = record { name = "lever"; value = "one left"; pending = true } ∷ []
remaining (suc (suc n)) = record { name = "lever"; value = "more left"; pending = true } ∷ []

abbrev scanned : ℕ × ℕ → ℕ × ℕ
scanned (zero, now) = (zero, now + 1)
scanned (suc n, now) = (n, now + 1)

abbrev scanning : Runner (ℕ × ℕ)
scanning = record {
  cycle = λ pending_only s. (0, scanned s);
  checkpoints = λ s. remaining s.0;
  now = λ s. s.1;
}

scan_takes_time : (t : ℕ × ℕ) → t.1 < (scanned t).1
scan_takes_time (zero, now) = omega arith
scan_takes_time (suc n, now) = omega arith

run_refresh_cycles_returns_example :
    is_some (run_refresh_cycles (suc 4500000) scanning true (2, 100)) ≡ true
run_refresh_cycles_returns_example =
    run_refresh_cycles_returns 4500000 scanning true (2, 100) scan_takes_time (omega arith)
      (omega arith)

run_refresh_cycles-up_to_date_example : is_behind (remaining 0) ≡ false
unfolding run_refresh_cycles catch_up is_behind same_checkpoints any
run_refresh_cycles-up_to_date_example =
    run_refresh_cycles-up_to_date 3 scanning (2, 100) (0, 102) refl
