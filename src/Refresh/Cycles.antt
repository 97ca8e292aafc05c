-- ===== src/Refresh/Cycles.antt =====
-- `runRefreshCycles` of scripts/claim-refresh.ts. The process that runs a cycle, the checkpoints that it leaves and the
-- clock are given as functions of a state of the machine; a checkpoint's value is its JSON text.
use job_dashboard.Prelude.{
  ℕ, zero, suc, ◌+◌, ◌≤◌, ◌<◌, ◌==◌, leb, ◌≡◌, refl, subst, String, str_eq, Bool, true, false, not,
  ◌&&◌, ◌||◌, Option, none, some, is_some, List, [], ◌∷◌, any, if◌then◌else◌, arith,
}

pub record SourceCheckpoint : Type 0 where
  pub name : String
  pub value : String
  pub pending : Bool

pub record Runner (S : Type 0) : Type 0 where
  pub cycle : (pending_only : Bool) → S → ℕ × S
  pub checkpoints : S → List SourceCheckpoint
  pub now : S → ℕ

unfoldable pub same_checkpoints : List SourceCheckpoint → List SourceCheckpoint → Bool
same_checkpoints [] [] = true
same_checkpoints (a ∷ l) (b ∷ m) =
    str_eq a.name b.name
    && str_eq a.value b.value
    && not (a.pending && not b.pending)
    && not (b.pending && not a.pending)
    && same_checkpoints l m
same_checkpoints [] (b ∷ m) = false
same_checkpoints (a ∷ l) [] = false

unfoldable pub is_behind : List SourceCheckpoint → Bool
is_behind checkpoints = any (λ c. c.pending) checkpoints

-- The loop, entered with the code 0; none where the fuel does not suffice.
unfoldable pub catch_up : {S : Type 0} → (fuel deadline : ℕ) → Runner S → S → Option (ℕ × S)
catch_up zero deadline m s = none
catch_up (suc fuel) deadline m s =
    let after = m.cycle true s in
    let rest = catch_up fuel deadline m after.1 in
    if not (is_behind (m.checkpoints s))
    then some (0, s)
    else if leb deadline (m.now s)
    then some (75, s)
    else if not (after.0 == 0)
    then some after
    else if same_checkpoints (m.checkpoints s) (m.checkpoints after.1)
    then some (1, after.1)
    else rest

unfoldable pub run_refresh_cycles :
    {S : Type 0} → (fuel : ℕ) → Runner S → (catches_up : Bool) → S → Option (ℕ × S)
run_refresh_cycles fuel m catches_up s =
    let first = m.cycle false s in
    let caught = catch_up fuel (m.now s + 4500000) m first.1 in
    if first.0 == 0 && catches_up then caught else some first

catch_up_returns :
    {S : Type 0} (n deadline : ℕ) (m : Runner S) (s : S)
    → ((t : S) → m.now t < m.now (m.cycle true t).1)
    → deadline ≤ m.now s + n
    → is_some (catch_up (suc n) deadline m s) ≡ true
unfolding catch_up
catch_up_returns zero deadline m s passes d = ground (arith, d)
catch_up_returns (suc n) deadline m s passes d =
    let p = passes s in
    let rest = catch_up_returns n deadline m (m.cycle true s).1 passes in ground (arith, d, p, rest)

-- Where a cycle takes some time, however little, the loop ends: one turn for each of the 75 minutes' milliseconds, and one
-- more, are enough, with a first cycle that does not set the clock back.
pub run_refresh_cycles_returns :
    {S : Type 0} (n : ℕ) (m : Runner S) (catches_up : Bool) (s : S)
    → ((t : S) → m.now t < m.now (m.cycle true t).1)
    → m.now s ≤ m.now (m.cycle false s).1
    → 4500000 ≤ n
    → is_some (run_refresh_cycles (suc n) m catches_up s) ≡ true
unfolding run_refresh_cycles
run_refresh_cycles_returns n m catches_up s passes first enough =
    let caught = catch_up_returns n (m.now s + 4500000) m (m.cycle false s).1 passes in
    ground (arith, first, enough, caught)

-- A result 0 leaves no source behind.
abbrev pub up_to_date : {S : Type 0} → Runner S → Option (ℕ × S) → Bool
up_to_date m none = true
up_to_date m (some result) = not (result.0 == 0) || not (is_behind (m.checkpoints result.1))

catch_up-up_to_date :
    {S : Type 0} (fuel deadline : ℕ) (m : Runner S) (s : S)
    → up_to_date m (catch_up fuel deadline m s) ≡ true
unfolding catch_up
catch_up-up_to_date zero deadline m s = refl
catch_up-up_to_date (suc fuel) deadline m s =
    let rest = catch_up-up_to_date fuel deadline m (m.cycle true s).1 in ground (arith, rest)

result-up_to_date :
    {S : Type 0} (fuel : ℕ) (m : Runner S) (s : S)
    → up_to_date m (run_refresh_cycles fuel m true s) ≡ true
unfolding run_refresh_cycles
result-up_to_date fuel m s =
    let caught = catch_up-up_to_date fuel (m.now s + 4500000) m (m.cycle false s).1 in
    ground (arith, caught)

-- Cycles that were to catch up and whose result is 0 have left no source with a scan to go on with.
pub run_refresh_cycles-up_to_date :
    {S : Type 0} (fuel : ℕ) (m : Runner S) (s s' : S)
    → run_refresh_cycles fuel m true s ≡ some (0, s')
    → is_behind (m.checkpoints s') ≡ false
run_refresh_cycles-up_to_date fuel m s s' e =
    let k = subst (λ o. up_to_date m o ≡ true) e (result-up_to_date fuel m s) in ground (arith, k)
