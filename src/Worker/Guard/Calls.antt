-- ===== src/Worker/Guard/Calls.antt =====
-- worker/guard.ts: any sequence of calls of one guard.
use job_dashboard.Prelude.{
  ℕ, ◌+◌, ◌<◌, ◌≡◌, refl, sym, ◌∙◌, ap, subst, some, or_else, List, [], ◌∷◌, arith,
}
use job_dashboard.Application.State.{ApplicationState}
use job_dashboard.Application.Requests.{Lease}
use job_dashboard.Worker.Guard.{
  ClockSample, Reason, Guard, Result, returned, threw, guard_of, then_do, revoke, sample, expire,
  unrevoked, check, renew, advance,
}
use job_dashboard.Worker.Guard.Safety.{check-Checked, renew-Bounded}

-- A check that passes after a renewal does so while the server, whose clock is `time` at the earliest when the renewal was
-- asked for, still has more than a second of the lease before it.
pub renew-check :
    (value : Lease) (time : ℕ) (start first now checked later : ClockSample) (g g' g'' : Guard)
    → renew value time start first now checked g ≡ returned g'
    → check later g' ≡ returned g''
    → time + later.mono + 1000 < start.mono + value.lease_until
renew-check value time start first now checked later g g' g'' r c =
    let (b, v, l, d) = renew-Bounded value time start first now checked g g' r in
    let d' : g'.deadline + time + 1000 ≡ start.mono + value.lease_until =
      subst (λ (x : Lease). g'.deadline + time + 1000 ≡ start.mono + x.lease_until) l d in
    let k = check-Checked later g' g'' c in omega (arith, d', k.in_time)

pub data Call : Type 0 where
  checks : (now : ClockSample) → Call
  revokes : Reason → Call
  renews : (value : Lease) (time : ℕ) (start first now checked : ClockSample) → Call
  advances : (revision fence : ℕ) → ApplicationState → (now : ClockSample) → Call

abbrev pub call : Call → Guard → Guard
call (checks now) g = guard_of (check now g)
call (revokes reason) g = revoke reason g
call (renews value time start first now checked) g =
    guard_of (renew value time start first now checked g)
call (advances revision fence state now) g = guard_of (advance revision fence state now g)

abbrev pub calls : List Call → Guard → Guard
calls [] g = g
calls (c ∷ cs) g = calls cs (call c g)

dead_check :
    (now : ClockSample) (g : Guard) (r : Reason) → g.revoked ≡ some r → check now g ≡ threw r g
unfolding check unrevoked
dead_check now g r h =
    ap (λ o. then_do (unrevoked o g) (λ g1. then_do (sample now g1) (λ g2. expire now g2))) h

then_threw :
    (x : Result) (f : Guard → Result) (g : Guard) (r : Reason)
    → x ≡ threw r g
    → guard_of (then_do x f) ≡ g
then_threw x f g r h = ap (λ y. guard_of (then_do y f)) h

dead_call : (c : Call) (g : Guard) (r : Reason) → g.revoked ≡ some r → call c g ≡ g
unfolding revoke renew advance
dead_call (checks now) g r h = ap guard_of (dead_check now g r h)
dead_call (revokes reason) g r h =
    ap (λ o. record g { revoked = some (or_else o reason) }) h
    ∙ ap (λ o. record g { revoked = o }) (sym h)
dead_call (renews value time start first now checked) g r h =
    then_threw (check first g) _ g r (dead_check first g r h)
dead_call (advances revision fence state now) g r h =
    then_threw (check now g) _ g r (dead_check now g r h)

-- A guard that is revoked stays as it is, whatever is called: it is never renewed, and every check of it throws the first
-- reason.
pub revoked_stays :
    (cs : List Call) (g : Guard) (r : Reason) (now : ClockSample)
    → g.revoked ≡ some r
    → (calls cs g ≡ g) × (check now (calls cs g) ≡ threw r g)
revoked_stays [] g r now h = (refl, dead_check now g r h)
revoked_stays (c ∷ cs) g r now h =
    let e = dead_call c g r h in
    let (p, q) = revoked_stays cs g r now h in
    (ap (λ x. calls cs x) e ∙ p, subst (λ x. check now (calls cs x) ≡ threw r g) (sym e) q)
