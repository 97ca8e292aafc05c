-- ===== src/Application/Safety/Evolution.antt =====
-- How one request may change the applications' rows, whatever it is.
use job_dashboard.Prelude.{
  ◌≤◌, ◌<◌, ◌≡◌, refl, ◌⊎◌, inl, inr, Bool, true, false, is_some, List, [], ◌∷◌, arith, Bool-cases,
  ◌∙◌,
}
use native.Mathlib.Nat.{le_trans, le_refl}
use job_dashboard.Application.State.{
  ApplicationState, is_terminal_state, submitting, submission_unknown, submitted, failed,
}
use job_dashboard.Application.Rows.{Application}

-- An employer may have the application, or has it, or the applicant said that it does not.
abbrev pub may_be_sent : ApplicationState → Bool
may_be_sent submitting = true
may_be_sent submission_unknown = true
may_be_sent submitted = true
may_be_sent failed = true
may_be_sent _ = false

abbrev pub in_doubt : ApplicationState → Bool
in_doubt submitting = true
in_doubt submission_unknown = true
in_doubt _ = false

pub record Evolves (old new : Application) : Type 0 where
  pub same_id : new.id ≡ old.id
  pub same_owner : new.owner_id ≡ old.owner_id
  pub same_run : new.run_id ≡ old.run_id
  pub same_worker : new.worker_id ≡ old.worker_id
  pub revision_grows : old.revision ≤ new.revision
  pub fence_grows : old.fence ≤ new.fence
  -- A change of state shows in the revision.
  pub versioned : (new.state ≡ old.state) ⊎ (old.revision < new.revision)
  -- A lease that is taken away shows in the fence.
  pub fenced :
      is_some new.lease_until ≡ false → is_some old.lease_until ≡ true → old.fence < new.fence
  pub final : is_terminal_state old.state ≡ true → new.state ≡ old.state
  -- A form that may have been sent is not sent again.
  pub no_resend : in_doubt old.state ≡ true → may_be_sent new.state ≡ true

pub Evolves-refl : (a : Application) → Evolves a a
Evolves-refl a = record {
  same_id = refl;
  same_owner = refl;
  same_run = refl;
  same_worker = refl;
  revision_grows = le_refl _;
  fence_grows = le_refl _;
  versioned = inl refl;
  fenced = λ p q. ground arith;
  final = λ h. refl;
  no_resend = λ h. ground arith;
}

final_of_sent :
    (s : ApplicationState)
    → may_be_sent s ≡ true
    → (in_doubt s ≡ true) ⊎ (is_terminal_state s ≡ true)
unfolding is_terminal_state
final_of_sent s h = ground arith

no_resend_trans :
    (a b c : Application)
    → Evolves a b
    → Evolves b c
    → in_doubt a.state ≡ true
    → may_be_sent c.state ≡ true
no_resend_trans a b c p q h = elim (final_of_sent b.state (p.no_resend h)) [
  | inl doubt ↦ q.no_resend doubt
  | inr ended ↦ ground (arith, q.final ended, p.no_resend h)
]

fenced_trans :
    (a b c : Application)
    → Evolves a b
    → Evolves b c
    → is_some c.lease_until ≡ false
    → is_some a.lease_until ≡ true
    → a.fence < c.fence
fenced_trans a b c p q x y = elim (Bool-cases (is_some b.lease_until)) [
  | inl held ↦ omega (arith, q.fenced x held, p.fence_grows)
  | inr gone ↦ omega (arith, p.fenced gone y, q.fence_grows)
]

final_trans :
    (a b c : Application)
    → Evolves a b
    → Evolves b c
    → is_terminal_state a.state ≡ true
    → c.state ≡ a.state
final_trans a b c p q h = let e : b.state ≡ a.state = p.final h in q.final (rw e h) ∙ e

versioned_trans :
    (a b c : Application)
    → Evolves a b
    → Evolves b c
    → (c.state ≡ a.state) ⊎ (a.revision < c.revision)
versioned_trans a b c p q = elim p.versioned [
  | inl same ↦ elim q.versioned [
    | inl again ↦ inl (again ∙ same)
    | inr later ↦ inr (omega (arith, p.revision_grows))
  ]
  | inr sooner ↦ inr (omega (arith, q.revision_grows))
]

pub Evolves-trans : (a b c : Application) → Evolves a b → Evolves b c → Evolves a c
Evolves-trans a b c p q = record {
  same_id = q.same_id ∙ p.same_id;
  same_owner = q.same_owner ∙ p.same_owner;
  same_run = q.same_run ∙ p.same_run;
  same_worker = q.same_worker ∙ p.same_worker;
  revision_grows = le_trans p.revision_grows q.revision_grows;
  fence_grows = le_trans p.fence_grows q.fence_grows;
  versioned = versioned_trans a b c p q;
  fenced = fenced_trans a b c p q;
  final = final_trans a b c p q;
  no_resend = no_resend_trans a b c p q;
}

-- Row by row: no application appears or disappears.
abbrev pub Evolved : List Application → List Application → Type 0
Evolved [] [] = Unit
Evolved [] (y ∷ ys) = ⊥
Evolved (x ∷ xs) [] = ⊥
Evolved (x ∷ xs) (y ∷ ys) = Evolves x y × Evolved xs ys

pub Evolved-refl : (xs : List Application) → Evolved xs xs
Evolved-refl [] = tt
Evolved-refl (x ∷ xs) = (Evolves-refl x, Evolved-refl xs)

pub Evolved-trans : (xs ys zs : List Application) → Evolved xs ys → Evolved ys zs → Evolved xs zs
Evolved-trans [] [] [] p q = tt
Evolved-trans [] [] (z ∷ zs) p q = q
Evolved-trans [] (y ∷ ys) zs p q = absurd p
Evolved-trans (x ∷ xs) [] zs p q = absurd p
Evolved-trans (x ∷ xs) (y ∷ ys) [] p q = q
Evolved-trans (x ∷ xs) (y ∷ ys) (z ∷ zs) p q =
    (Evolves-trans x y z p.0 q.0, Evolved-trans xs ys zs p.1 q.1)

abbrev pub IsIn : Application → List Application → Type 0
IsIn row [] = ⊥
IsIn row (x ∷ xs) = (row ≡ x) ⊎ IsIn row xs
