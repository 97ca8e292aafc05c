-- ===== src/Application/Safety/OneLive.antt =====
-- `refuseSecondRun` of lib/applications/runs.ts: no two running runs of a worker under one policy.
use job_dashboard.Prelude.{
  ◌≡◌, ◌≢◌, refl, inl, inr, Bool, true, false, ◌&&◌, Bool-cases, none, some, List, [], ◌∷◌, All,
  arith, find, select, update_where,
}
use job_dashboard.Application.Requests.{RunState}
use job_dashboard.Application.Rows.{Run}
use job_dashboard.Application.Runs.{run_state_eq, same_live_run}

abbrev pub clash : Run → Run → Bool
clash x y = run_state_eq x.state RunState.running && same_live_run x y

abbrev pub OneLive : List Run → Type 0
OneLive [] = Unit
OneLive (x ∷ xs) = All (λ y. clash x y ≡ false) xs × OneLive xs

-- The run is the same, and runs only if it ran.
pub record Calms (old new : Run) : Type 0 where
  pub owner : new.owner_id ≡ old.owner_id
  pub worker : new.worker_id ≡ old.worker_id
  pub revision : new.policy_revision ≡ old.policy_revision
  pub version : new.policy_version ≡ old.policy_version
  pub hash : new.policy_hash ≡ old.policy_hash
  pub ran :
      run_state_eq new.state RunState.running ≡ true
      → run_state_eq old.state RunState.running ≡ true

clash-Calms : (x x' y y' : Run) → Calms x x' → Calms y y' → clash x y ≡ false → clash x' y' ≡ false
unfolding same_live_run
clash-Calms x x' y y' p q h = ground (
  arith, p.owner, p.worker, p.revision, p.version, p.hash, q.owner, q.worker, q.revision, q.version,
  q.hash, p.ran, q.ran,
)

Calms-refl : (x : Run) → Calms x x
Calms-refl x = record {
  owner = refl;
  worker = refl;
  revision = refl;
  version = refl;
  hash = refl;
  ran = λ h. h;
}

module _ (p : Run → Bool) (set : Run → Run) (calm : (r : Run) → p r ≡ true → Calms r (set r)) where
  All-clash :
      (x x' : Run) (ys : List Run)
      → Calms x x'
      → All (λ y. clash x y ≡ false) ys
      → All (λ y. clash x' y ≡ false) (update_where p set ys)
  unfolding update_where
  All-clash x x' [] c h = tt
  All-clash x x' (y ∷ ys) c h = elim (Bool-cases (p y)) [
    | inl hit ↦ rw hit (clash-Calms x x' y (set y) c (calm y hit) h.0, All-clash x x' ys c h.1)
    | inr miss ↦ rw miss (clash-Calms x x' y y c (Calms-refl y) h.0, All-clash x x' ys c h.1)
  ]

  pub OneLive-update : (xs : List Run) → OneLive xs → OneLive (update_where p set xs)
  unfolding update_where
  OneLive-update [] h = tt
  OneLive-update (x ∷ xs) h = elim (Bool-cases (p x)) [
    | inl hit ↦ rw hit (All-clash x (set x) xs (calm x hit) h.0, OneLive-update xs h.1)
    | inr miss ↦ rw miss (All-clash x x xs (Calms-refl x) h.0, OneLive-update xs h.1)
  ]

-- No run in the list runs for the worker and the policy of `row`.
abbrev pub Unmatched : Run → List Run → Type 0
Unmatched row xs = All (λ y. same_live_run row y ≡ false) xs

pub find-Unmatched :
    (row : Run) (xs : List Run) → find (same_live_run row) xs ≡ none → Unmatched row xs
unfolding find
find-Unmatched row [] e = tt
find-Unmatched row (x ∷ xs) e = elim (Bool-cases (same_live_run row x)) [
  | inl hit ↦ absurd (ground arith)
  | inr miss ↦ (miss, find-Unmatched row xs (ground arith))
]

pub OneLive-add :
    (row : Run) (xs : List Run)
    → find (same_live_run row) xs ≡ none
    → OneLive xs
    → OneLive (row ∷ xs)
OneLive-add row xs e h = (unclashed row xs (find-Unmatched row xs e), h)
  where
    unclashed : (row : Run) (xs : List Run) → Unmatched row xs → All (λ y. clash row y ≡ false) xs
    unclashed row [] u = tt
    unclashed row (x ∷ xs) u = (ground (arith, u.0), unclashed row xs u.1)

selected_one :
    (q p : Run → Bool) (xs : List Run) (row : Run)
    → find q xs ≡ some row
    → p row ≡ true
    → select p xs ≢ []
unfolding find select
selected_one q p [] row e h = cc
selected_one q p (x ∷ xs) row e h = ground (arith, selected_one q p xs row)

-- The row that was found is the one that an update at its key hits.
pub find-select :
    (q p : Run → Bool) (xs : List Run) (row old : Run)
    → find q xs ≡ some row
    → p row ≡ true
    → select p xs ≡ old ∷ []
    → old ≡ row
unfolding find select
find-select q p [] row old e h s = cc
find-select q p (x ∷ xs) row old e h s =
    ground (arith, find-select q p xs row old, selected_one q p xs row)

update_nothing :
    (p : Run → Bool) (set : Run → Run) (xs : List Run)
    → select p xs ≡ []
    → update_where p set xs ≡ xs
unfolding select update_where
update_nothing p set [] e = refl
update_nothing p set (x ∷ xs) e = ground (arith, update_nothing p set xs)

module _ (p : Run → Bool) (set : Run → Run) (row : Run) where
  -- A run of the same worker under the same policy.
  pub record Alike (new : Run) : Type 0 where
    pub owner : new.owner_id ≡ row.owner_id
    pub worker : new.worker_id ≡ row.worker_id
    pub revision : new.policy_revision ≡ row.policy_revision
    pub version : new.policy_version ≡ row.policy_version
    pub hash : new.policy_hash ≡ row.policy_hash

  unclash : (new x : Run) → Alike new → same_live_run row x ≡ false → clash x new ≡ false
  unfolding same_live_run
  unclash new x a h = ground (arith, a.owner, a.worker, a.revision, a.version, a.hash, h)

  clash_new :
      (new : Run) (xs : List Run) → Alike new → Unmatched row xs → All (λ y. clash new y ≡ false) xs
  unfolding same_live_run
  clash_new new [] a u = tt
  clash_new new (x ∷ xs) a u = (
    ground (arith, a.owner, a.worker, a.revision, a.version, a.hash, u.0),
    clash_new new xs a u.1,
  )

  clash_updated :
      (x : Run) (ys : List Run)
      → Alike (set row)
      → same_live_run row x ≡ false
      → select p ys ≡ row ∷ []
      → All (λ y. clash x y ≡ false) ys
      → All (λ y. clash x y ≡ false) (update_where p set ys)
  unfolding select update_where
  clash_updated x [] a u e h = tt
  clash_updated x (y ∷ ys) a u e h = elim (Bool-cases (p y)) [
    | inl hit ↦
        let e' : y ∷ select p ys ≡ row ∷ [] = rw hit at e in
        let same : y ≡ row = cc in
        let rest : select p ys ≡ [] = cc in
        rw (hit, update_nothing p set ys rest) (rw same (unclash (set row) x a u), h.1)
    | inr miss ↦ rw miss (h.0, clash_updated x ys a u (rw miss at e) h.1)
  ]

  pub OneLive-resumed :
      (xs : List Run)
      → Alike (set row)
      → Unmatched row xs
      → select p xs ≡ row ∷ []
      → OneLive xs
      → OneLive (update_where p set xs)
  unfolding select update_where
  OneLive-resumed [] a u e h = tt
  OneLive-resumed (x ∷ xs) a u e h = elim (Bool-cases (p x)) [
    | inl hit ↦
        let e' : x ∷ select p xs ≡ row ∷ [] = rw hit at e in
        let same : x ≡ row = cc in
        let rest : select p xs ≡ [] = cc in
        rw (hit, update_nothing p set xs rest) (rw same (clash_new (set row) xs a u.1), h.1)
    | inr miss ↦
        rw miss
          (clash_updated x xs a u.0 (rw miss at e) h.0, OneLive-resumed xs a u.1 (rw miss at e) h.1)
  ]
