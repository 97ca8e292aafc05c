-- ===== src/Worker/Guard/Safety.antt =====
-- worker/guard.ts: what the guard promises over any sequence of calls.
use job_dashboard.Prelude.{
  ℕ, ◌+◌, ◌==◌, ◌<◌, ◌≡◌, refl, sym, ◌∙◌, ap, subst, leb, true, false, not, ◌||◌, Option, none,
  some, arith, Bool-cases, inl, inr,
}
use job_dashboard.Application.Requests.{Lease}
use job_dashboard.Worker.Guard.{
  ClockSample, Reason, Guard, Result, returned, threw, then_do, fail, clock_moved, sample, expire,
  unrevoked, check, bad_lease, deadline_of, set_deadline, same_binding, adopt, renew,
}

-- What a check that returned has found.
pub record Checked (now : ClockSample) (g g' : Guard) : Type 0 where
  pub live : g.revoked ≡ none
  pub steady : clock_moved g.previous now ≡ false
  pub in_time : now.mono < g.deadline
  pub after : g' ≡ record g { previous = now }

pub then_returned :
    (r : Result) (f : Guard → Result) (g' : Guard)
    → then_do r f ≡ returned g'
    → (g1 : Guard) × (r ≡ returned g1) × (f g1 ≡ returned g')
then_returned (returned g) f g' e = (g, refl, e)
then_returned (threw r g) f g' e = cc

same_guard : (g g' : Guard) → returned g ≡ returned g' → g' ≡ g
same_guard g g' e = cc

unrevoked_returned :
    (o : Option Reason) (g g' : Guard) → unrevoked o g ≡ returned g' → (o ≡ none) × (g' ≡ g)
unfolding unrevoked
unrevoked_returned none g g' e = (refl, same_guard g g' e)
unrevoked_returned (some r) g g' e = cc

pub sample_returned :
    (now : ClockSample) (g g' : Guard)
    → sample now g ≡ returned g'
    → (clock_moved g.previous now ≡ false) × (g' ≡ record g { previous = now })
unfolding sample fail
sample_returned now g g' e = elim (Bool-cases (clock_moved g.previous now)) [
  | inl moved ↦ let e' = rw moved at e in cc
  | inr steady ↦ (steady, same_guard (record g { previous = now }) g' (rw steady at e))
]

expire_returned :
    (now : ClockSample) (g g' : Guard)
    → expire now g ≡ returned g'
    → (now.mono < g.deadline) × (g' ≡ g)
unfolding expire fail
expire_returned now g g' e = elim (Bool-cases (leb g.deadline now.mono)) [
  | inl late ↦ let e' = rw late at e in cc
  | inr early ↦ (ground arith, same_guard g g' (rw early at e))
]

pub check-Checked :
    (now : ClockSample) (g g' : Guard) → check now g ≡ returned g' → Checked now g g'
unfolding check
check-Checked now g g' e =
    let (g1, a, rest) = then_returned (unrevoked g.revoked g) _ g' e in
    let (g2, b, c) = then_returned (sample now g1) (λ g2. expire now g2) g' rest in
    let (live, p) = unrevoked_returned g.revoked g g1 a in
    let (steady, q) = sample_returned now g g2 (subst (λ h. sample now h ≡ returned g2) p b) in
    let (early, r) = expire_returned now g2 g' c in
    record {
      live = live;
      steady = steady;
      in_time = subst (λ (h : Guard). now.mono < h.deadline) q early;
      after = r ∙ q;
    }

-- The deadline stands one second before the end of the lease, told from the start of the request whose reply brought the
-- lease with the server's time.
abbrev pub Bounded : (time : ℕ) → (start : ClockSample) → Guard → Type 0
Bounded time start g = g.deadline + time + 1000 ≡ start.mono + g.lease.lease_until

set_returned :
    (value : Lease) (time : ℕ) (start now checked : ClockSample) (g g' : Guard)
    → set_deadline value time start now checked g ≡ returned g'
    → (g'.deadline ≡ deadline_of value time start)
      × (bad_lease value time start now ≡ false)
      × (checked.mono < g'.deadline)
      × (g'.revoked ≡ none)
      × (g'.lease ≡ g.lease)
unfolding set_deadline fail
set_returned value time start now checked g g' e =
    let (g1, a, rest) = then_returned (sample now g) _ g' e in
    let (steady, q) = sample_returned now g g1 a in
    elim (Bool-cases (bad_lease value time start now)) [
      | inl bad ↦ let e' = rw bad at rest in cc
      | inr good ↦
          let c =
            check-Checked checked (record g1 { deadline = deadline_of value time start }) g'
              (rw good at rest) in
          (
            ap (λ (h : Guard). h.deadline) c.after,
            good,
            subst (λ (d : ℕ). checked.mono < d) (sym (ap (λ (h : Guard). h.deadline) c.after))
                c.in_time,
            ap (λ (h : Guard). h.revoked) c.after ∙ c.live,
            ap (λ (h : Guard). h.lease) c.after ∙ ap (λ (h : Guard). h.lease) q,
          )
    ]

-- A renewal that returned has carried the lease's own binding and revision, and has bounded the deadline by the new end of
-- the lease.
pub renew-Bounded :
    (value : Lease) (time : ℕ) (start first now checked : ClockSample) (g g' : Guard)
    → renew value time start first now checked g ≡ returned g'
    → (same_binding value g.lease ≡ true)
      × (value.revision ≡ g.lease.revision)
      × (g'.lease ≡ value)
      × Bounded time start g'
unfolding renew fail adopt
renew-Bounded value time start first now checked g g' e =
    let (g1, a, rest) = then_returned (check first g) _ g' e in
    let c = check-Checked first g g1 a in
    let l : g1.lease ≡ g.lease = ap (λ (h : Guard). h.lease) c.after in
    elim (Bool-cases
      (not (same_binding value g1.lease) || not (value.revision == g1.lease.revision))) [
        | inl other ↦ let e' = rw other at rest in cc
        | inr own ↦
            let (g2, b, d) =
              then_returned (set_deadline value time start now checked g1) _ g' (rw own at rest) in
            let (q, good, t, v, k) = set_returned value time start now checked g1 g2 b in
            let f : g' ≡ record g2 { lease = value } =
              same_guard (record g2 { lease = value }) g' d in
            (
              subst (λ (x : Lease). same_binding value x ≡ true) l (ground arith),
              subst (λ (x : Lease). value.revision ≡ x.revision) l (ground arith),
              ap (λ (h : Guard). h.lease) f,
              subst (λ (h : Guard). Bounded time start h) (sym f)
                  (bounded value time start now g2 q good),
            )
      ]
  where
    bounded :
        (value : Lease) (time : ℕ) (start now : ClockSample) (g2 : Guard)
        → g2.deadline ≡ deadline_of value time start
        → bad_lease value time start now ≡ false
        → g2.deadline + time + 1000 ≡ start.mono + value.lease_until
    bounded value time start now g2 q good = unfold bad_lease in (rw q (ground arith))
