-- ===== src/Application/Effects/Candidates.antt =====
-- `pollWorker` of lib/applications/leases.ts: of the candidates, the first one that may be handed out is.
use job_dashboard.Prelude.{
  ℕ, ◌≡◌, refl, sym, subst, Bool, true, false, not, ltb, Option, none, some, List, [], ◌∷◌, All,
  arith, select, is_some, Bool-cases, inl, inr,
}
use job_dashboard.Application.Requests.{Lease}
use job_dashboard.Application.Rows.{Worker, Application, Db, Env}
use job_dashboard.Application.Poll.{
  first_by, bit, is_under_way, precedes, place, ordered, is_candidate, scan, hand_out,
}
use job_dashboard.Application.Safety.Evolution.{IsIn}
use job_dashboard.Application.Safety.Rules.{Ensures, Ensures-mono, select-IsIn}
use job_dashboard.Application.Safety.Polling.{All-mono, All-place, All-select, All-ordered}
use job_dashboard.Application.Effects.Scans.{
  is_claimable, Retargeted, Handed, Scanned, ended, passed, picked, Scanned-scan,
}

first_by_trans :
    (a b c : ℕ) (x y z : Bool)
    → (x ≡ true → y ≡ true → z ≡ true)
    → first_by a b x ≡ true
    → first_by b c y ≡ true
    → first_by a c z ≡ true
first_by_trans a b c x y z rest h k = ground (arith, rest)

precedes_trans :
    (a b c : Application) → precedes a b ≡ true → precedes b c ≡ true → precedes a c ≡ true
unfolding precedes
precedes_trans a b c =
    first_by_trans (bit (not (is_some a.lease_until))) (bit (not (is_some b.lease_until)))
      (bit (not (is_some c.lease_until))) _ _ _
      (first_by_trans (bit (not (is_under_way a))) (bit (not (is_under_way b)))
        (bit (not (is_under_way c))) _ _ _
        (first_by_trans a.available_at b.available_at c.available_at _ _ _ (
          first_by_trans a.created_at b.created_at c.created_at (ltb a.id b.id) (ltb b.id c.id)
            (ltb a.id c.id) (λ h k. ground (arith, h, k)))))

precedes_irrefl : (a : Application) → precedes a a ≡ false
unfolding precedes
precedes_irrefl a = ground arith

-- No row comes after one that it precedes.
abbrev Sorted : List Application → Type 0
Sorted [] = Unit {0}
Sorted (a ∷ rest) = All (λ b. precedes b a ≡ false) rest × Sorted rest

not_before :
    (a b : Application)
    → precedes a b ≡ true
    → (c : Application) → precedes c b ≡ false
    → precedes c a ≡ false
not_before a b h c k = elim (Bool-cases (precedes c a)) [
  | inl ca ↦ let cb = precedes_trans c a b ca h in cc
  | inr no_ca ↦ no_ca
]

after_itself : (a b : Application) → precedes a b ≡ true → precedes b a ≡ false
after_itself a b h = elim (Bool-cases (precedes b a)) [
  | inl ba ↦ let aa = precedes_trans a b a h ba in let no_aa = precedes_irrefl a in cc
  | inr no_ba ↦ no_ba
]

place-Sorted : (a : Application) (xs : List Application) → Sorted xs → Sorted (place a xs)
unfolding place
place-Sorted a [] s = (tt, tt)
place-Sorted a (x ∷ xs) s = elim (Bool-cases (precedes a x)) [
  | inl first ↦ rw first (
    (
      after_itself a x first,
      All-mono (λ c. precedes c x ≡ false) (λ c. precedes c a ≡ false) xs (not_before a x first)
          s.0,
    ),
    s,
  )
  | inr later ↦
      rw later (All-place (λ c. precedes c x ≡ false) a xs later s.0, place-Sorted a xs s.1)
]

ordered-Sorted : (xs : List Application) → Sorted (ordered xs)
unfolding ordered
ordered-Sorted [] = tt
ordered-Sorted (x ∷ xs) = place-Sorted x (ordered xs) (ordered-Sorted xs)

place-IsIn : (a b : Application) (xs : List Application) → IsIn b (a ∷ xs) → IsIn b (place a xs)
unfolding place
place-IsIn a b [] m = m
place-IsIn a b (x ∷ xs) m = elim (Bool-cases (precedes a x)) [
  | inl first ↦ rw first m
  | inr later ↦ rw later (moved (place-IsIn a b xs) m)
]
  where
    moved : (IsIn b (a ∷ xs) → IsIn b (place a xs)) → IsIn b (a ∷ x ∷ xs) → IsIn b (x ∷ place a xs)
    moved deeper (inl e) = inr (deeper (inl e))
    moved deeper (inr (inl e)) = inl e
    moved deeper (inr (inr n)) = inr (deeper (inr n))

ordered-IsIn : (b : Application) (xs : List Application) → IsIn b xs → IsIn b (ordered xs)
unfolding ordered
ordered-IsIn b [] m = m
ordered-IsIn b (x ∷ xs) (inl e) = place-IsIn x b (ordered xs) (inl e)
ordered-IsIn b (x ∷ xs) (inr m) = place-IsIn x b (ordered xs) (inr (ordered-IsIn b xs m))

-- What the loop over the rows has answered.
abbrev ScanResult : Env → Worker → ℕ → Db → List Application → Option Lease → Db → Type 0
ScanResult env worker now db xs none d =
    ((b : Application) → IsIn b xs → is_claimable env worker now db b ≡ false) × Retargeted db d
ScanResult env worker now db xs (some lease) d =
    (app : Application) × IsIn app xs
    × (is_claimable env worker now db app ≡ true)
    × Handed now app db lease d
    × ((b : Application)
        → IsIn b xs
        → is_claimable env worker now db b ≡ true
        → precedes b app ≡ false)

All-IsIn :
    (P : Application → Type 0) (b : Application) (xs : List Application)
    → All P xs
    → IsIn b xs
    → P b
All-IsIn P b [] all m = absurd m
All-IsIn P b (x ∷ xs) all (inl e) = subst P (sym e) all.0
All-IsIn P b (x ∷ xs) all (inr m) = All-IsIn P b xs all.1 m

not_both : (x : Bool) → x ≡ true → x ≡ false → ⊥
not_both x h k = cc

Scanned-result :
    (env : Env) (worker : Worker) (now : ℕ) (db : Db) (xs : List Application) (o : Option Lease)
    (d : Db)
    → Scanned env worker now db xs o d
    → Sorted xs
    → ScanResult env worker now db xs o d
Scanned-result env worker now db _ _ _ (ended d r) s = (λ b m. absurd m, r)
Scanned-result env worker now db _ _ _ (passed app rest o d held k) s =
    past o (Scanned-result env worker now db rest o d k s.1)
  where
    past :
        (o : Option Lease)
        → ScanResult env worker now db rest o d
        → ScanResult env worker now db (app ∷ rest) o d
    past none (no_more, r) = (
      λ b m. elim m [
        | inl e ↦ subst (λ a. is_claimable env worker now db a ≡ false) (sym e) held
        | inr n ↦ no_more b n
      ],
      r,
    )
    past (some lease) (a, m, may, h, first) = (
      a,
      inr m,
      may,
      h,
      λ b m may_b. elim m [
        | inl e ↦
            absurd (not_both _ (subst (λ a. is_claimable env worker now db a ≡ true) e may_b) held)
        | inr n ↦ first b n may_b
      ],
    )
Scanned-result env worker now db _ _ _ (picked app rest lease d may h) s = (
  app,
  inl refl,
  may,
  h,
  λ b m may_b. elim m [
    | inl e ↦ subst (λ a. precedes a app ≡ false) (sym e) (precedes_irrefl app)
    | inr n ↦ All-IsIn (λ c. precedes c app ≡ false) b rest s.0 n
  ],
)

-- What a poll has answered: nothing, where no candidate may be handed out, or a lease on a candidate that may, that no other
-- such candidate comes before.
abbrev pub HandOut : Env → Worker → ℕ → Option Application → Db → Option Lease → Db → Type 0
HandOut env worker now assigned db none d =
    ((b : Application)
      → IsIn b db.applications
      → is_candidate env worker now assigned db b ≡ true
      → is_claimable env worker now db b ≡ false)
    × Retargeted db d
HandOut env worker now assigned db (some lease) d =
    (app : Application) × IsIn app db.applications
    × (is_candidate env worker now assigned db app ≡ true)
    × (is_claimable env worker now db app ≡ true)
    × Handed now app db lease d
    × ((b : Application)
        → IsIn b db.applications
        → is_candidate env worker now assigned db b ≡ true
        → is_claimable env worker now db b ≡ true
        → precedes b app ≡ false)

module _ (env : Env) (worker : Worker) (now : ℕ) (assigned : Option Application) (db : Db) where
  candidates : List Application
  candidates = ordered (select (is_candidate env worker now assigned db) db.applications)

  listed :
      (b : Application)
      → IsIn b db.applications
      → is_candidate env worker now assigned db b ≡ true
      → IsIn b candidates
  unfolding candidates
  listed b m h =
      ordered-IsIn b _ (select-IsIn (is_candidate env worker now assigned db) db.applications b m h)

  candidates-All :
      All
        (λ a. IsIn a db.applications × (is_candidate env worker now assigned db a ≡ true))
        candidates
  unfolding candidates
  candidates-All =
      All-ordered _ _ (All-select (is_candidate env worker now assigned db) db.applications)

  HandOut-of_result :
      (o : Option Lease) (d : Db)
      → ScanResult env worker now db candidates o d
      → HandOut env worker now assigned db o d
  HandOut-of_result none d (no_more, r) = (λ b m h. no_more b (listed b m h), r)
  HandOut-of_result (some lease) d (app, m, may, h, first) =
      let (is_in, candidate) = All-IsIn _ app candidates candidates-All m in
      (app, is_in, candidate, may, h, λ b mb hb may_b. first b (listed b mb hb) may_b)

  pub Ensures-hand_out :
      Ensures (HandOut env worker now assigned db) (λ _. ⊥) (hand_out env worker now assigned db)
  unfolding hand_out candidates
  Ensures-hand_out =
      Ensures-mono (Scanned env worker now db candidates) (HandOut env worker now assigned db)
        (λ _. ⊥) (λ _. ⊥) (scan env worker now candidates db)
        (Scanned-scan env worker now candidates db.targets db
          (All-mono _ (λ a. IsIn a db.applications) candidates (λ a h. h.0) candidates-All))
        (λ o d k.
          HandOut-of_result o d
            (Scanned-result env worker now db candidates o d k (ordered-Sorted _)))
        (λ d x. x)
