-- ===== src/Application/Safety/Rules/Steps.antt =====
-- A rule for each construct of a transaction (lib/applications/stores.ts, worker-store.ts).
use job_dashboard.Prelude.{ℕ, ◌≡◌, refl, Bool, true, false, Option, none, some, List, [], ◌∷◌, All}
use job_dashboard.Application.Rows.{Db}
use job_dashboard.Application.Tx.{
  Code, Outcome, done, denied, thrown, M, ◌>>=◌, fail_if, require, throwing, for_each,
}

-- What holds of an outcome: `Q` of a result and its database, `E` of the database that a returned error leaves.
abbrev pub Ensures : {A : Type 0} → (A → Db → Type 0) → (Db → Type 0) → Outcome A → Type 0
Ensures Q E (done a db) = Q a db
Ensures Q E (denied e db) = E db
Ensures Q E (thrown e) = Unit {0}

Ensures-after :
    {A B : Type 0} (Q : A → Db → Type 0) (R : B → Db → Type 0) (E : Db → Type 0) (f : A → M B)
    (o : Outcome A)
    → Ensures Q E o
    → ((a : A) (db : Db) → Q a db → Ensures R E (f a db))
    → Ensures R E
        (elim o [ done a db' ↦ f a db' | denied e db' ↦ denied e db' | thrown e ↦ thrown e ])
Ensures-after Q R E f (done a db) h k = k a db h
Ensures-after Q R E f (denied e db) h k = h
Ensures-after Q R E f (thrown e) h k = tt

pub Ensures-bind :
    {A B : Type 0} (Q : A → Db → Type 0) (R : B → Db → Type 0) (E : Db → Type 0) (m : M A)
    (f : A → M B) (db : Db)
    → Ensures Q E (m db)
    → ((a : A) (db' : Db) → Q a db' → Ensures R E (f a db'))
    → Ensures R E ((m >>= f) db)
Ensures-bind Q R E m f db h k = Ensures-after Q R E f (m db) h k

-- The tests that fail leave the database as it is.
pub Ensures-fail_if :
    {B : Type 0} (R : B → Db → Type 0) (E : Db → Type 0) (b : Bool) (status : ℕ) (code : Code)
    (f : Unit {0} → M B) (db : Db)
    → (b ≡ false → Ensures R E (f tt db))
    → Ensures R E ((fail_if b status code >>= f) db)
Ensures-fail_if R E true status code f db h = tt
Ensures-fail_if R E false status code f db h = h refl

pub Ensures-require :
    {A B : Type 0} (R : B → Db → Type 0) (E : Db → Type 0) (o : Option A) (status : ℕ) (code : Code)
    (f : A → M B) (db : Db)
    → ((a : A) → o ≡ some a → Ensures R E (f a db))
    → Ensures R E ((require o status code >>= f) db)
Ensures-require R E none status code f db h = tt
Ensures-require R E (some a) status code f db h = h a refl

pub Ensures-throwing :
    {A : Type 0} (Q : A → Db → Type 0) (E F : Db → Type 0) (m : M A) (db : Db)
    → Ensures Q F (m db)
    → Ensures Q E (throwing m db)
Ensures-throwing {A} Q E F m db h = go (m db) h
  where
    go :
        (o : Outcome A)
        → Ensures Q F o
        → Ensures Q E
            (elim o [ done a db' ↦ done a db' | denied e db' ↦ thrown e | thrown e ↦ thrown e ])
    go (done a db') k = k
    go (denied e db') k = tt
    go (thrown e) k = tt

pub Ensures-mono :
    {A : Type 0} (Q R : A → Db → Type 0) (E F : Db → Type 0) (o : Outcome A)
    → Ensures Q E o
    → ((a : A) (db : Db) → Q a db → R a db)
    → ((db : Db) → E db → F db)
    → Ensures R F o
Ensures-mono Q R E F (done a db) h q e = q a db h
Ensures-mono Q R E F (denied x db) h q e = e db h
Ensures-mono Q R E F (thrown x) h q e = tt

pub Ensures-both :
    {A : Type 0} (Q R : A → Db → Type 0) (E F : Db → Type 0) (o : Outcome A)
    → Ensures Q E o
    → Ensures R F o
    → Ensures (λ a db. Q a db × R a db) (λ db. E db × F db) o
Ensures-both Q R E F (done a db) h k = (h, k)
Ensures-both Q R E F (denied x db) h k = (h, k)
Ensures-both Q R E F (thrown x) h k = tt

pub Ensures-for_each :
    {A : Type 0} (E : Db → Type 0) (action : A → M (Unit {0})) (xs : List A) (db : Db)
    → ((a : A) (db' : Db) → E db' → Ensures (λ _ db'. E db') E (action a db'))
    → E db
    → Ensures (λ _ db'. E db') E (for_each xs action db)
unfolding for_each
Ensures-for_each E action [] db k h = h
Ensures-for_each E action (x ∷ xs) db k h =
    Ensures-bind (λ _ db'. E db') (λ _ db'. E db') E (action x) (λ _. for_each xs action) db
      (k x db h) (λ _ db' h'. Ensures-for_each E action xs db' k h')

-- A loop over rows that were read together.
pub Ensures-for_each-All :
    {A : Type 0} (P : A → Type 0) (E : Db → Type 0) (action : A → M (Unit {0})) (xs : List A)
    (db : Db)
    → All P xs
    → ((a : A) (db' : Db) → P a → E db' → Ensures (λ _ db'. E db') E (action a db'))
    → E db
    → Ensures (λ _ db'. E db') E (for_each xs action db)
unfolding for_each
Ensures-for_each-All P E action [] db all k h = h
Ensures-for_each-All P E action (x ∷ xs) db all k h =
    Ensures-bind (λ _ db'. E db') (λ _ db'. E db') E (action x) (λ _. for_each xs action) db
      (k x db all.0 h) (λ _ db' h'. Ensures-for_each-All P E action xs db' all.1 k h')
