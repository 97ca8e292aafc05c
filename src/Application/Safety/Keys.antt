-- ===== src/Application/Safety/Keys.antt =====
-- Rows read earlier in a transaction: with the primary key, a row at the same revision is the row that was read.
use job_dashboard.Prelude.{
  ℕ, ◌≡◌, ◌≢◌, refl, sym, ◌∙◌, ap, subst, inl, inr, Bool, true, false, List, [], ◌∷◌, All, arith,
  String, select, Bool-cases,
}
use job_dashboard.Application.State.{is_terminal_state}
use job_dashboard.Application.Rows.{Application, Db}
use job_dashboard.Application.Tx.{app_scope, current, triggers_allow}
use job_dashboard.Application.WorkerStore.{released, release_application}
use job_dashboard.Application.Safety.Evolution.{Evolves, Evolved, IsIn}
use job_dashboard.Application.Safety.Rules.{Ensures, Ensures-update_any, current_self}

-- The primary key of the applications' table.
abbrev pub Distinct : List Application → Type 0
Distinct [] = Unit {0}
Distinct (x ∷ xs) = All (λ (y : Application). y.id ≢ x.id) xs × Distinct xs

All-Evolved :
    (id : ℕ) (xs ys : List Application)
    → Evolved xs ys
    → All (λ (y : Application). y.id ≢ id) xs
    → All (λ (y : Application). y.id ≢ id) ys
All-Evolved id [] [] e h = tt
All-Evolved id [] (y ∷ ys) e h = absurd e
All-Evolved id (x ∷ xs) [] e h = absurd e
All-Evolved id (x ∷ xs) (y ∷ ys) e h =
    (λ q. h.0 (sym e.0.same_id ∙ q), All-Evolved id xs ys e.1 h.1)

pub Distinct-Evolved : (xs ys : List Application) → Evolved xs ys → Distinct xs → Distinct ys
Distinct-Evolved [] [] e d = tt
Distinct-Evolved [] (y ∷ ys) e d = absurd e
Distinct-Evolved (x ∷ xs) [] e d = absurd e
Distinct-Evolved (x ∷ xs) (y ∷ ys) e d = (
  subst (λ (id : ℕ). All (λ (z : Application). z.id ≢ id) ys) (sym e.0.same_id)
      (All-Evolved x.id xs ys e.1 d.0),
  Distinct-Evolved xs ys e.1 d.1,
)

ne_of_IsIn :
    (id : ℕ) (a : Application) (xs : List Application)
    → All (λ (y : Application). y.id ≢ id) xs
    → IsIn a xs
    → a.id ≢ id
ne_of_IsIn id a [] h m = absurd m
ne_of_IsIn id a (x ∷ xs) h (inl e) = λ q. h.0 (sym (ap (λ (b : Application). b.id) e) ∙ q)
ne_of_IsIn id a (x ∷ xs) h (inr m) = ne_of_IsIn id a xs h.1 m

pub same_row :
    (a b : Application) (xs : List Application)
    → Distinct xs
    → IsIn a xs
    → IsIn b xs
    → a.id ≡ b.id
    → a ≡ b
same_row a b [] d m n e = absurd m
same_row a b (x ∷ xs) d (inl p) (inl q) e = p ∙ sym q
same_row a b (x ∷ xs) d (inl p) (inr n) e =
    absurd (ne_of_IsIn x.id b xs d.0 n (sym e ∙ ap (λ (c : Application). c.id) p))
same_row a b (x ∷ xs) d (inr m) (inl q) e =
    absurd (ne_of_IsIn x.id a xs d.0 m (e ∙ ap (λ (c : Application). c.id) q))
same_row a b (x ∷ xs) d (inr m) (inr n) e = same_row a b xs d.1 m n e

-- With the primary key, a row is the only one at its id, revision and fence.
none_current :
    (row : Application) (xs : List Application)
    → All (λ (y : Application). y.id ≢ row.id) xs
    → select (current row) xs ≡ []
unfolding select current app_scope
none_current row [] h = refl
none_current row (x ∷ xs) h = ground (arith, h.0, none_current row xs h.1)

other_id : (row x : Application) → row.id ≢ x.id → current row x ≡ false
unfolding current app_scope
other_id row x h = ground (arith, h)

pub one_current :
    (row : Application) (xs : List Application)
    → Distinct xs
    → IsIn row xs
    → select (current row) xs ≡ row ∷ []
unfolding select
one_current row [] d m = absurd m
one_current row (x ∷ xs) d (inl e) =
    subst (λ r. select (current r) (x ∷ xs) ≡ r ∷ []) (sym e)
      (rw (current_self x, none_current x xs d.0) refl)
one_current row (x ∷ xs) d (inr n) =
    rw (other_id row x (ne_of_IsIn x.id row xs d.0 n)) (one_current row xs d.1 n)

-- What has become of a row.
pub partner :
    (a : Application) (xs ys : List Application)
    → Evolved xs ys
    → IsIn a xs
    → (b : Application) × Evolves a b × IsIn b ys
partner a [] ys e m = absurd m
partner a (x ∷ xs) [] e m = absurd e
partner a (x ∷ xs) (y ∷ ys) e (inl q) = (y, subst (λ z. Evolves z y) (sym q) e.0, inl refl)
partner a (x ∷ xs) (y ∷ ys) e (inr m) = let (b, ev, n) = partner a xs ys e.1 m in (b, ev, inr n)

-- A row found again at the revision that was read is in the state that was read.
pub state_unchanged :
    (row old : Application) (xs ys : List Application)
    → Distinct xs
    → Evolved xs ys
    → IsIn row xs
    → IsIn old ys
    → current row old ≡ true
    → (old.state ≡ row.state) × (old.revision ≡ row.revision) × (old.fence ≡ row.fence)
unfolding current
state_unchanged row old xs ys d e m n c =
    let (b, ev, k) = partner row xs ys e m in
    let q : old ≡ b =
      same_row old b ys (Distinct-Evolved xs ys e d) n k (ground (arith, ev.same_id)) in
    ground (arith, ev.versioned)

pub released_stale :
    (reason : String) (row old : Application)
    → old.state ≡ row.state
    → old.revision ≡ row.revision
    → old.fence ≡ row.fence
    → triggers_allow old (released reason row old) ≡ true
    → Evolves old (released reason row old)
unfolding released is_terminal_state
released_stale reason row old s r f h = ground arith

-- The release of a row that was read when the rows were `read`.
pub Ensures-release_stale :
    (before read : List Application) (row : Application) (reason : String) (db : Db)
    → Distinct read
    → IsIn row read
    → Evolved read db.applications
    → Evolved before db.applications
    → Ensures
        (λ _ db'. Evolved before db'.applications)
        (λ db'. Evolved before db'.applications)
        (release_application row reason db)
unfolding release_application
Ensures-release_stale before read row reason db d m e k =
    Ensures-update_any (λ db'. Evolved before db'.applications) before (current row)
      (released reason row) db k
      λ old n h t.
        let (s, r, f) = state_unchanged row old read db.applications d e m n h in
        released_stale reason row old s r f t

pub select-All-IsIn :
    (p : Application → Bool) (xs : List Application) → All (λ a. IsIn a xs) (select p xs)
unfolding select
select-All-IsIn p [] = tt
select-All-IsIn p (x ∷ xs) = elim (Bool-cases (p x)) [
  | inl hit ↦ rw hit (inl refl, deeper (select p xs) (select-All-IsIn p xs))
  | inr miss ↦ rw miss (deeper (select p xs) (select-All-IsIn p xs))
]
  where
    deeper : (ys : List Application) → All (λ a. IsIn a xs) ys → All (λ a. IsIn a (x ∷ xs)) ys
    deeper [] h = tt
    deeper (y ∷ ys) h = (inr h.0, deeper ys h.1)
