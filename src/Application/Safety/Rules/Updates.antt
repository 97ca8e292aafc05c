-- ===== src/Application/Safety/Rules/Updates.antt =====
-- The updates of the table of applications.
use job_dashboard.Prelude.{
  ◌≡◌, refl, sym, subst, inl, inr, Bool, true, ◌&&◌, List, [], ◌∷◌, arith, select, Bool-cases,
}
use job_dashboard.Application.Rows.{Application, Db}
use job_dashboard.Application.Tx.{
  ◌>>=◌, one, current, checks_hold, tenant_free, triggers_allow, write_application,
  update_application,
}
use job_dashboard.Application.Safety.Evolution.{Evolves, Evolved, Evolved-trans, IsIn}
use job_dashboard.Application.Safety.Rules.Steps.{Ensures, Ensures-bind, Ensures-mono}
use job_dashboard.Application.Safety.Rules.Rows.{select_only, update-Evolved, update-IsIn, selected}

-- What an update of the row returns, and what it leaves.
abbrev pub Updated : List Application → Application → Application → Db → Type 0
Updated before new a db = (a ≡ new) × Evolved before db.applications × IsIn new db.applications

pub current_self : (row : Application) → current row row ≡ true
unfolding current
current_self row = ground arith

pub Ensures-write :
    (E : Db → Type 0) (before : List Application) (p : Application → Bool)
    (set : Application → Application) (row : Application) (db : Db)
    → p row ≡ true
    → Evolved before db.applications
    → IsIn row db.applications
    → select p db.applications ≡ row ∷ []
    → (triggers_allow row (set row) ≡ true → Evolves row (set row))
    → Ensures (Updated before (set row)) E (write_application p set row db)
unfolding write_application
Ensures-write E before p set row db h ev m e ok =
    elim (Bool-cases (
      checks_hold (set row)
      && triggers_allow row (set row)
      && tenant_free (set row) db.applications)) [
        | inl all ↦ rw all (
          refl,
          Evolved-trans before db.applications _ ev
              (update-Evolved p set _ row e (ok (ground arith))),
          update-IsIn p set _ row m h,
        )
        | inr some_fails ↦ rw some_fails tt
      ]

-- `one` of the rows that an update would hit is the row itself.
pub Ensures-one :
    (E : Db → Type 0) (p : Application → Bool) (row : Application) (db : Db)
    (rows : List Application)
    → p row ≡ true
    → IsIn row db.applications
    → select p db.applications ≡ rows
    → Ensures
        (λ a db'. (a ≡ row) × (db' ≡ db) × (select p db.applications ≡ row ∷ []))
        E
        (one rows db)
unfolding one
Ensures-one E p row db [] h m e = tt
Ensures-one E p row db (a ∷ []) h m e =
    let q : a ≡ row = select_only p db.applications row a m h e in (q, refl, rw q at e)
Ensures-one E p row db (a ∷ b ∷ rest) h m e = tt

pub Ensures-update_where :
    (E : Db → Type 0) (before : List Application) (p : Application → Bool)
    (set : Application → Application) (row : Application) (db : Db)
    → p row ≡ true
    → Evolved before db.applications
    → IsIn row db.applications
    → (triggers_allow row (set row) ≡ true → Evolves row (set row))
    → Ensures (Updated before (set row)) E (update_application p set db)
unfolding update_application
Ensures-update_where E before p set row db h ev m ok =
    Ensures-bind (λ a db'. (a ≡ row) × (db' ≡ db) × (select p db.applications ≡ row ∷ []))
      (Updated before (set row)) E (one (select p db.applications)) (write_application p set) db
      (Ensures-one E p row db _ h m refl)
      λ a db' q.
        subst (λ d. Ensures (Updated before (set row)) E (write_application p set a d)) (sym q.1)
          (subst (λ b. Ensures (Updated before (set row)) E (write_application p set b db))
            (sym q.0) (Ensures-write E before p set row db h ev m q.2 ok))

-- The update of a row at its revision and fence.
pub Ensures-update :
    (E : Db → Type 0) (before : List Application) (set : Application → Application)
    (row : Application) (db : Db)
    → Evolved before db.applications
    → IsIn row db.applications
    → (triggers_allow row (set row) ≡ true → Evolves row (set row))
    → Ensures (Updated before (set row)) E (update_application (current row) set db)
Ensures-update E before set row db =
    Ensures-update_where E before (current row) set row db (current_self row)

-- An update whose hit may be another row than the one that was read.
pub Ensures-update_any :
    (E : Db → Type 0) (before : List Application) (p : Application → Bool)
    (set : Application → Application) (db : Db)
    → Evolved before db.applications
    → ((old : Application)
        → IsIn old db.applications
        → p old ≡ true
        → triggers_allow old (set old) ≡ true
        → Evolves old (set old))
    → Ensures (λ _ db'. Evolved before db'.applications) E (update_application p set db)
unfolding update_application one
Ensures-update_any E before p set db ev ok = go (select p db.applications) refl
  where
    go :
        (rows : List Application)
        → select p db.applications ≡ rows
        → Ensures
            (λ _ db'. Evolved before db'.applications)
            E
            ((one rows >>= write_application p set) db)
    go [] e = tt
    go (old ∷ []) e =
        Ensures-mono (Updated before (set old)) _ E E (write_application p set old db)
          (Ensures-write E before p set old db (selected p db.applications old e).1 ev
            (selected p db.applications old e).0 e
            (ok old (selected p db.applications old e).0 (selected p db.applications old e).1))
          (λ a db' u. u.1) (λ db' x. x)
    go (a ∷ b ∷ rest) e = tt
