-- ===== src/Application/Safety/Rules/Constructs.antt =====
-- A rule for each construct of a transaction, for a property of the database that every step keeps.
use job_dashboard.Prelude.{ℕ, Bool, true, false, Option, none, some, List, [], ◌∷◌, if◌then◌else◌}
use job_dashboard.Application.Rows.{Db}
use job_dashboard.Application.Tx.{
  Code, Failure, done, thrown, M, ◌>>=◌, read, deny, fail, fail_if, require, throwing, for_each,
  one,
}
use job_dashboard.Application.Safety.Rules.Steps.{Ensures, Ensures-bind, Ensures-throwing}

-- A transaction by which `P` stays true, whatever it answers.
pub record Holds (P : Db → Type 0) {A : Type 0} (m : M A) : Type 0 where
  pub at : (db : Db) → P db → Ensures (λ _. P) P (m db)

module _ {P : Db → Type 0} {A : Type 0} where
  pub Holds-read : (f : Db → A) → Holds P (read f)
  Holds-read f = record { at = λ db h. h }

  pub Holds-fail : (status : ℕ) (code : Code) → Holds P (fail {A = A} status code)
  Holds-fail status code = record { at = λ db h. tt }

  pub Holds-deny : (status : ℕ) (code : Code) → Holds P (deny {A = A} status code)
  Holds-deny status code = record { at = λ db h. h }

  pub Holds-if : (b : Bool) (m n : M A) → Holds P m → Holds P n → Holds P (if b then m else n)
  Holds-if true m n h k = h
  Holds-if false m n h k = k

  pub Holds-require : (o : Option A) (status : ℕ) (code : Code) → Holds P (require o status code)
  Holds-require none status code = record { at = λ db h. tt }
  Holds-require (some a) status code = record { at = λ db h. h }

  pub Holds-throwing : (m : M A) → Holds P m → Holds P (throwing m)
  Holds-throwing m h = record { at = λ db k. Ensures-throwing (λ _. P) P P m db (h.at db k) }

  pub Holds-one : (rows : List A) → Holds P (one rows)
  unfolding one
  Holds-one [] = record { at = λ db h. tt }
  Holds-one (a ∷ []) = record { at = λ db h. h }
  Holds-one (a ∷ b ∷ rest) = record { at = λ db h. tt }

pub Holds-fail_if :
    {P : Db → Type 0} (b : Bool) (status : ℕ) (code : Code) → Holds P (fail_if b status code)
Holds-fail_if true status code = record { at = λ db h. tt }
Holds-fail_if false status code = record { at = λ db h. h }

pub Holds-bind :
    {P : Db → Type 0} {A B : Type 0} (m : M A) (f : A → M B)
    → Holds P m
    → ((a : A) → Holds P (f a))
    → Holds P (m >>= f)
Holds-bind {P} m f h k = record {
  at = λ db o. Ensures-bind (λ _. P) (λ _. P) P m f db (h.at db o) (λ a db' o'. (k a).at db' o');
}

pub Holds-for_each :
    {P : Db → Type 0} {A : Type 0} (xs : List A) (action : A → M (Unit {0}))
    → ((a : A) → Holds P (action a))
    → Holds P (for_each xs action)
unfolding for_each
Holds-for_each [] action h = record { at = λ db o. o }
Holds-for_each (x ∷ xs) action h =
    Holds-bind (action x) (λ _. for_each xs action) (h x) (λ _. Holds-for_each xs action h)

pub ruleset constructs = (
  Holds-read, Holds-fail, Holds-deny, Holds-if, Holds-require, Holds-throwing, Holds-one,
  Holds-fail_if, Holds-bind, Holds-for_each,
)

pub Holds-option :
    {P : Db → Type 0} {A B : Type 0} (o : Option A) (m : M B) (f : A → M B)
    → Holds P m
    → ((a : A) → Holds P (f a))
    → Holds P (elim o as (λ _. M B) [ none ↦ m | some a ↦ f a ])
Holds-option none m f h k = h
Holds-option (some a) m f h k = k a

-- A write to another table, and one that a constraint may stop.
pub Holds-put :
    {P : Db → Type 0} {A : Type 0} (a : Db → A) (put : Db → Db)
    → ((db : Db) → P db → P (put db))
    → Holds P (λ db. done (a db) (put db))
Holds-put {P} a put same = record { at = same }

pub Holds-unless :
    {P : Db → Type 0} {A : Type 0} (bad : Db → Bool) (e : Failure) (m : M A)
    → Holds P m
    → Holds P (λ db. if bad db then thrown e else m db)
Holds-unless {P} {A} bad e m h = record { at = λ db o. go (bad db) db (h.at db o) }
  where
    go :
        (b : Bool) (db : Db)
        → Ensures (λ _. P) P (m db)
        → Ensures (λ _. P) P (if b then thrown e else m db)
    go true db k = tt
    go false db k = k

pub Holds-when :
    {P : Db → Type 0} {A : Type 0} (good : Db → Bool) (e : Failure) (m : M A)
    → Holds P m
    → Holds P (λ db. if good db then m db else thrown e)
Holds-when {P} {A} good e m h = record { at = λ db o. go (good db) db (h.at db o) }
  where
    go :
        (b : Bool) (db : Db)
        → Ensures (λ _. P) P (m db)
        → Ensures (λ _. P) P (if b then m db else thrown e)
    go true db k = k
    go false db k = tt

pub ruleset writes = (constructs, Holds-put, Holds-unless, Holds-when)
