-- ===== src/Application/Safety/Cancelling.antt =====
-- `releaseRunApplications` of lib/applications/runs.ts: an application of a stopped run is released and then cancelled.
use Prim.Native.String.{String}
use job_dashboard.Prelude.{
  ◌≡◌, ◌≢◌, refl, sym, ap, subst, Bool, true, false, not, ◌&&◌, List, [], ◌∷◌, arith, select,
  update_where, if◌then◌else◌, Bool-cases, inl, inr,
}
use job_dashboard.Application.State.{state_eq, is_terminal_state, submission_unknown, cancelled}
use job_dashboard.Application.Requests.{RunState}
use job_dashboard.Application.Rows.{Application, Db}
use job_dashboard.Application.Tx.{
  ◌>>=◌, return, one, current, app_scope, checks_hold, triggers_allow, tenant_free,
  write_application, update_application,
}
use job_dashboard.Application.WorkerStore.{released, release_application}
use job_dashboard.Application.Runs.{run_state_eq, same_revision, cancel_released, release_one}
use job_dashboard.Application.Safety.Evolution.{
  Evolves, Evolves-refl, Evolved, Evolved-refl, Evolved-trans, IsIn,
}
use job_dashboard.Application.Safety.Rules.{
  Ensures, Ensures-bind, update_none, update-Evolved, selected,
}
use job_dashboard.Application.Safety.Keys.{Distinct, state_unchanged, released_stale}
use job_dashboard.Application.Safety.Leases.{Kept}

-- The one row that an update has hit, and what the update has made of the table.
abbrev Hit : (Application → Bool) → (Application → Application) → Db → Application → Db → Type 0
Hit p set db a db' =
    (old : Application) × (select p db.applications ≡ old ∷ [])
    × (a ≡ set old)
    × (db'.applications ≡ update_where p set db.applications)
    × (triggers_allow old (set old) ≡ true)

Ensures-Hit :
    (E : Db → Type 0) (p : Application → Bool) (set : Application → Application) (db : Db)
    → Ensures (Hit p set db) E (update_application p set db)
unfolding update_application one write_application
Ensures-Hit E p set db = go (select p db.applications) refl
  where
    go :
        (rows : List Application)
        → select p db.applications ≡ rows
        → Ensures (Hit p set db) E ((one rows >>= write_application p set) db)
    go [] e = tt
    go (old ∷ []) e =
        elim (Bool-cases (
          checks_hold (set old)
          && triggers_allow old (set old)
          && tenant_free (set old) db.applications)) [
            | inl all ↦ rw all (old, e, refl, refl, ground arith)
            | inr some_fails ↦ rw some_fails tt
          ]
    go (a ∷ b ∷ rest) e = tt

module _ (p q : Application → Bool) (set then_set : Application → Application) (old : Application)
    (again : q (set old) ≡ true) where
  hit_again :
      (xs : List Application) → select p xs ≡ old ∷ [] → select q (update_where p set xs) ≢ []
  unfolding select update_where
  hit_again [] e = λ f. absurd (cc)
  hit_again (x ∷ xs) e = elim (Bool-cases (p x)) [
    | inl hit ↦
        let e' : x ∷ select p xs ≡ old ∷ [] = rw hit at e in
        let same : x ≡ old = cc in rw hit (rw same (λ f. ground (arith, again)))
    | inr miss ↦ rw miss (λ f. hit_again xs (rw miss at e) (ground arith))
  ]

  -- A row that two updates hit, one after the other.
  twice-Evolved :
      (r : Application) (xs : List Application)
      → select p xs ≡ old ∷ []
      → select q (update_where p set xs) ≡ r ∷ []
      → Evolves old (then_set (set old))
      → Evolved xs (update_where q then_set (update_where p set xs))
  unfolding select update_where
  twice-Evolved r [] e f ev = tt
  twice-Evolved r (x ∷ xs) e f ev = elim (Bool-cases (p x)) [
    | inl hit ↦
        let e' : x ∷ select p xs ≡ old ∷ [] = rw hit at e in
        let same : x ≡ old = cc in
        let rest : select p xs ≡ [] = cc in
        let hit_x : q (set x) ≡ true = rw same again in
        let f' : set x ∷ select q (update_where p set xs) ≡ r ∷ [] = rw (hit, hit_x) at f in
        let none_left : select q (update_where p set xs) ≡ [] = cc in
        let nothing : select q xs ≡ [] = rw (update_none p set xs rest) at none_left in
        rw (hit, hit_x, update_none p set xs rest, update_none q then_set xs nothing)
          (rw same ev, Evolved-refl xs)
    | inr miss ↦ rw miss (elim (Bool-cases (q x)) [
      | inl other ↦
          let f' : x ∷ select q (update_where p set xs) ≡ r ∷ [] = rw (miss, other) at f in
          let none_left : select q (update_where p set xs) ≡ [] = cc in
          absurd (hit_again xs (rw miss at e) none_left)
      | inr neither ↦
          rw neither
            (Evolves-refl x, twice-Evolved r xs (rw miss at e) (rw (miss, neither) at f) ev)
    ])
  ]

cancelled-Evolves :
    (reason : String) (app old : Application)
    → old.state ≡ app.state
    → old.revision ≡ app.revision
    → old.fence ≡ app.fence
    → is_terminal_state app.state ≡ false
    → state_eq (released reason app old).state submission_unknown ≡ false
    → Evolves old (record (released reason app old) { state = cancelled })
unfolding released is_terminal_state
cancelled-Evolves reason app old s r f open_state known = ground arith

same_revision-released :
    (reason : String) (app old : Application)
    → current app old ≡ true
    → same_revision app (released reason app old) (released reason app old) ≡ true
unfolding current same_revision released app_scope
same_revision-released reason app old h = ground arith

module _ (before rows : List Application) (app : Application) (reason : String) (db db1 : Db)
    (a : Application) (d : Distinct rows) (m : IsIn app rows) (k : Kept before db)
    (e : Kept rows db) (open_state : is_terminal_state app.state ≡ false)
    (hit : Hit (current app) (released reason app) db a db1) where
  abbrev was : Application
  was = hit.0

  as_read : (was.state ≡ app.state) × (was.revision ≡ app.revision) × (was.fence ≡ app.fence)
  as_read =
      let (n, h) = selected (current app) db.applications was hit.1 in
      state_unchanged app was rows db.applications d e m n h

  Kept-released : Kept before db1
  Kept-released =
      let (s, r, f) = as_read in
      subst (Evolved before) (sym hit.3) (
        Evolved-trans before db.applications _ k (
          update-Evolved (current app) (released reason app) db.applications was hit.1
            (released_stale reason app was s r f hit.4)))

  again_hit : same_revision app a (released reason app was) ≡ true
  again_hit =
      subst (λ b. same_revision app b (released reason app was) ≡ true) (sym hit.2)
        (same_revision-released reason app was (selected (current app) db.applications was hit.1).1)

  Kept-cancelled :
      (state : RunState)
      → Ensures (λ _. Kept before) (Kept before) (cancel_released app state a db1)
  unfolding cancel_released
  Kept-cancelled state =
      elim (Bool-cases
        (run_state_eq state RunState.stopped && not (state_eq a.state submission_unknown))) [
          | inl stops ↦ rw stops (
              Ensures-bind (Hit (same_revision app a) cancel db1) (λ _. Kept before) (Kept before)
                (update_application (same_revision app a) cancel) (λ _. return tt) db1
                (Ensures-Hit (Kept before) (same_revision app a) cancel db1)
                (λ b db2 h. twice b db2 h (ground (arith, ap_state))))
          | inr stays ↦ rw stays Kept-released
        ]
    where
      cancel : Application → Application
      cancel x = record x { state = cancelled }

      ap_state : a.state ≡ (released reason app was).state
      ap_state = ap (λ (x : Application). x.state) hit.2

      twice :
          (b : Application) (db2 : Db)
          → Hit (same_revision app a) cancel db1 b db2
          → state_eq (released reason app was).state submission_unknown ≡ false
          → Kept before db2
      twice b db2 h known =
          let (s, r, f) = as_read in
          subst (Evolved before) (sym h.3) (
            subst (λ l. Evolved before (update_where (same_revision app a) cancel l)) (sym hit.3)
              (Evolved-trans before db.applications _ k (
                twice-Evolved (current app) (same_revision app a) (released reason app) cancel was
                  again_hit h.0 db.applications hit.1
                  (subst (λ l. select (same_revision app a) l ≡ h.0 ∷ []) hit.3 h.1)
                  (cancelled-Evolves reason app was s r f open_state known))))

-- One application of the loop.
pub Ensures-release_one :
    (before rows : List Application) (app : Application) (state : RunState) (db : Db)
    → Distinct rows
    → IsIn app rows
    → Kept before db
    → Kept rows db
    → Ensures (λ _. Kept before) (Kept before) (release_one state app db)
unfolding release_one release_application
Ensures-release_one before rows app state db d m k e =
    elim (Bool-cases (is_terminal_state app.state)) [
      | inl ended ↦ rw ended k
      | inr open_state ↦ rw open_state (
          Ensures-bind (Hit (current app) (released reason app) db) (λ _. Kept before) (Kept before)
            (update_application (current app) (released reason app)) (cancel_released app state) db
            (Ensures-Hit (Kept before) (current app) (released reason app) db)
            (λ a db1 hit.
              Kept-cancelled before rows app reason db db1 a d m k e open_state hit state))
    ]
  where
    reason : String
    reason = if run_state_eq state RunState.paused then "run_paused" else "run_stopped"
