-- ===== src/Worker/Guard/Bindings.antt =====
-- worker/guard.ts: what the guard watches over stays the same application.
use job_dashboard.Prelude.{
  ℕ, ◌==◌, ◌≤◌, ◌≡◌, refl, sym, ◌∙◌, subst, ltb, leb, Bool, true, false, not, ◌&&◌, ◌||◌, Option,
  none, some, ==_iff, List, [], ◌∷◌, arith, if◌then◌else◌, Bool-cases, inl, inr,
}
use job_dashboard.Application.State.{ApplicationState, state_eq}
use job_dashboard.Application.Requests.{Lease}
use job_dashboard.Worker.Guard.{
  ClockSample, Reason, Guard, Result, returned, threw, guard_of, then_do, revoke, fail, clock_moved,
  sample, expire, unrevoked, check, bad_lease, deadline_of, set_deadline, same_binding, adopt,
  renew, moved_on, advance,
}
use job_dashboard.Worker.Guard.Calls.{Call, checks, revokes, renews, advances, call, calls}

-- What stays the same of a lease, and that its revision only grows.
pub record Continues (old new : Lease) : Type 0 where
  pub same_application : new.application_id ≡ old.application_id
  pub same_run : new.run_id ≡ old.run_id
  pub same_worker : new.worker_id ≡ old.worker_id
  pub same_owner : new.owner_id ≡ old.owner_id
  pub same_policy : new.policy_revision ≡ old.policy_revision
  pub same_fence : new.fence ≡ old.fence
  pub grows : old.revision ≤ new.revision

Continues-refl : (l : Lease) → Continues l l
Continues-refl l = record {
  same_application = refl;
  same_run = refl;
  same_worker = refl;
  same_owner = refl;
  same_policy = refl;
  same_fence = refl;
  grows = omega arith;
}

Continues-trans : (a b c : Lease) → Continues a b → Continues b c → Continues a c
Continues-trans a b c p q = record {
  same_application = q.same_application ∙ p.same_application;
  same_run = q.same_run ∙ p.same_run;
  same_worker = q.same_worker ∙ p.same_worker;
  same_owner = q.same_owner ∙ p.same_owner;
  same_policy = q.same_policy ∙ p.same_policy;
  same_fence = q.same_fence ∙ p.same_fence;
  grows = omega (arith, p.grows, q.grows);
}

all_of :
    (a b c d e s t u f m n : Bool)
    → (a && b && c && d && e && s && t && u && f && m && n) ≡ true
    → (a ≡ true) × (b ≡ true) × (c ≡ true) × (d ≡ true) × (e ≡ true) × (f ≡ true)
all_of a b c d e s t u f m n h = ground arith

renewed-Continues :
    (value lease : Lease)
    → same_binding value lease ≡ true
    → value.revision ≡ lease.revision
    → Continues lease value
unfolding same_binding
renewed-Continues value lease b v =
    let (p, q, r, o, w, f) = all_of _ _ _ _ _ _ _ _ _ _ _ b in
    record {
      same_application = (==_iff _ _).0 p;
      same_run = (==_iff _ _).0 q;
      same_worker = (==_iff _ _).0 r;
      same_owner = (==_iff _ _).0 o;
      same_policy = (==_iff _ _).0 w;
      same_fence = (==_iff _ _).0 f;
      grows = omega (arith, v);
    }

-- What holds of the guard that the first part leaves, thrown or not, and of what the second part makes of such a guard.
then_holds :
    (K P : Guard → Type 0) (r : Result) (f : Guard → Result)
    → K (guard_of r)
    → ((g : Guard) → K g → P g)
    → ((g : Guard) → K g → P (guard_of (f g)))
    → P (guard_of (then_do r f))
then_holds K P (returned g) f k weaken go = go g k
then_holds K P (threw r g) f k weaken go = weaken g k

abbrev HasLease : Lease → Guard → Type 0
HasLease l g = g.lease ≡ l

check_keeps :
    (l : Lease) (now : ClockSample) (g : Guard) → HasLease l g → HasLease l (guard_of (check now g))
unfolding check
check_keeps l now g h =
    then_holds (HasLease l) (HasLease l) (unrevoked g.revoked g) _ (live g.revoked) (λ g k. k)
      λ g1 k1.
        then_holds (HasLease l) (HasLease l) (sample now g1) (λ g2. expire now g2) (sampled g1 k1)
          (λ g k. k) expired
  where
    live : (o : Option Reason) → HasLease l (guard_of (unrevoked o g))
    live none = unfold unrevoked in h
    live (some r) = unfold unrevoked in h

    sampled : (g1 : Guard) → HasLease l g1 → HasLease l (guard_of (sample now g1))
    sampled g1 k =
        unfold sample fail revoke in
        (elim (Bool-cases (clock_moved g1.previous now)) [
          | inl moved ↦ rw moved k
          | inr steady ↦ rw steady k
        ])

    expired : (g2 : Guard) → HasLease l g2 → HasLease l (guard_of (expire now g2))
    expired g2 k =
        unfold expire fail revoke in
        (elim (Bool-cases (leb g2.deadline now.mono)) [
          | inl late ↦ rw late k
          | inr early ↦ rw early k
        ])

set_keeps :
    (l value : Lease) (time : ℕ) (start now checked : ClockSample) (g : Guard)
    → HasLease l g
    → HasLease l (guard_of (set_deadline value time start now checked g))
unfolding set_deadline sample fail revoke
set_keeps l value time start now checked g h =
    then_holds (HasLease l) (HasLease l) (sample now g) _ sampled (λ g k. k) bounded
  where
    sampled : HasLease l (guard_of (sample now g))
    sampled = elim (Bool-cases (clock_moved g.previous now)) [
      | inl moved ↦ rw moved h
      | inr steady ↦ rw steady h
    ]

    bounded :
        (g1 : Guard)
        → HasLease l g1
        → HasLease l (
            guard_of (
              if bad_lease value time start now
              then fail Reason.invalid_lease g1
              else check checked (record g1 { deadline = deadline_of value time start })))
    bounded g1 k = elim (Bool-cases (bad_lease value time start now)) [
      | inl bad ↦ rw bad k
      | inr good ↦
          rw good (check_keeps l checked (record g1 { deadline = deadline_of value time start }) k)
    ]

abbrev ContinuesFrom : Lease → Guard → Type 0
ContinuesFrom l g = Continues l g.lease

continues : (l : Lease) (g : Guard) → HasLease l g → ContinuesFrom l g
continues l g h = subst (λ (x : Lease). Continues l x) (sym h) (Continues-refl l)

renew-Continues :
    (value : Lease) (time : ℕ) (start first now checked : ClockSample) (g : Guard)
    → ContinuesFrom g.lease (guard_of (renew value time start first now checked g))
unfolding renew fail revoke adopt
renew-Continues value time start first now checked g =
    then_holds (HasLease g.lease) (ContinuesFrom g.lease) (check first g) _
      (check_keeps g.lease first g refl) (continues g.lease)
      λ g1 k.
        elim (Bool-cases
          (not (same_binding value g1.lease) || not (value.revision == g1.lease.revision))) [
            | inl other ↦ rw other (continues g.lease g1 k)
            | inr own ↦ rw own (
                then_holds (HasLease g.lease) (ContinuesFrom g.lease)
                  (set_deadline value time start now checked g1) (λ g2. adopt value g2)
                  (set_keeps g.lease value time start now checked g1 k) (continues g.lease)
                  λ g2 k2.
                    subst (λ (x : Lease). Continues x value) k
                      (renewed-Continues value g1.lease (ground arith) (ground arith)))
          ]

advance-Continues :
    (revision fence : ℕ) (state : ApplicationState) (now : ClockSample) (g : Guard)
    → ContinuesFrom g.lease (guard_of (advance revision fence state now g))
unfolding advance fail revoke
advance-Continues revision fence state now g =
    then_holds (HasLease g.lease) (ContinuesFrom g.lease) (check now g) _
      (check_keeps g.lease now g refl) (continues g.lease)
      λ g1 k. elim (Bool-cases (revision == g1.lease.revision && state_eq state g1.lease.state)) [
        | inl again ↦ rw again (continues g.lease g1 k)
        | inr forward ↦
            rw forward
              (elim (Bool-cases (not (fence == g1.lease.fence) || ltb revision g1.lease.revision)) [
                | inl other ↦ rw other (continues g.lease g1 k)
                | inr own ↦ rw own (
                    subst (λ (x : Lease). Continues x (moved_on revision state g1.lease)) k
                      (moved (ltb_le (ground arith)) g1.lease))
              ])
      ]
  where
    ltb_le : {a b : ℕ} → ltb a b ≡ false → b ≤ a
    ltb_le h = ground arith

    moved :
        {l : Lease} → l.revision ≤ revision → (m : Lease) → Continues l (moved_on revision state l)
    moved h m = record {
      same_application = refl;
      same_run = refl;
      same_worker = refl;
      same_owner = refl;
      same_policy = refl;
      same_fence = refl;
      grows = h;
    }

-- Whatever is called, in any order, the guard never comes to watch over another application, run, worker, owner, policy or
-- fence than at first, and the revision of its lease never falls.
pub calls-Continues : (cs : List Call) (g : Guard) → Continues g.lease (calls cs g).lease
calls-Continues [] g = Continues-refl g.lease
calls-Continues (c ∷ cs) g =
    Continues-trans g.lease (call c g).lease (calls cs (call c g)).lease (one c)
      (calls-Continues cs (call c g))
  where
    one : (c : Call) → Continues g.lease (call c g).lease
    one (checks now) = continues g.lease (guard_of (check now g)) (check_keeps g.lease now g refl)
    one (revokes reason) = unfold revoke in (Continues-refl g.lease)
    one (renews value time start first now checked) =
        renew-Continues value time start first now checked g
    one (advances revision fence state now) = advance-Continues revision fence state now g
