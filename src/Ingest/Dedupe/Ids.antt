-- ===== src/Ingest/Dedupe/Ids.antt =====
-- lib/dedupe.ts: the maps from publishers to ids, merged where they do not conflict.
use Prim.Native.String.{String}
use text.Mathlib.TextPositions.{eq_refl}
use job_dashboard.Prelude.{
  ◌≡◌, refl, str_eq, eq_iff, false, Option, none, some, [], ◌∷◌, All, any, if◌then◌else◌, arith,
  Bool-cases, inl, inr,
}
use job_dashboard.Ingest.Dedupe.{Ids, get, put, put_all, differs}

get-put :
    (k j v : String) (ids : Ids) → get j (put k v ids) ≡ (if str_eq k j then some v else get j ids)
unfolding put
get-put k j v [] = refl
get-put k j v ((i, w) ∷ rest) =
    ground (arith, eq_iff k j, eq_iff i k, eq_iff i j, get-put k j v rest)

-- No key stands twice.
abbrev pub Unique : Ids → Type 0
Unique [] = Unit
Unique ((k, v) ∷ rest) = (get k rest ≡ none) × Unique rest

put-Unique : (k v : String) (ids : Ids) → Unique ids → Unique (put k v ids)
unfolding put
put-Unique k v [] u = (refl, tt)
put-Unique k v ((j, w) ∷ rest) u = elim (Bool-cases (str_eq j k)) [
  | inl e ↦ rw e u
  | inr e ↦
      rw e
        (ground (arith, get-put k j v rest, eq_iff k j, eq_iff j k, u.0), put-Unique k v rest u.1)
]

pub put_all-Unique : (b a : Ids) → Unique a → Unique (put_all b a)
unfolding put_all
put_all-Unique [] a u = u
put_all-Unique ((k, v) ∷ b) a u = put_all-Unique b (put k v a) (put-Unique k v a u)

module _ (m : String → Option String) where
  -- The entries are those of `m`, and the map gives nothing else than `m` does.
  abbrev Entries : Ids → Type 0
  Entries b = All (λ (e : String × String). m e.0 ≡ some e.1) b

  abbrev Fits : Ids → Type 0
  Fits a = (k i j : String) → get k a ≡ some i → m k ≡ some j → i ≡ j

  put-Fits : (k v : String) (a : Ids) → m k ≡ some v → Fits a → Fits (put k v a)
  put-Fits k v a e h l i j g f = ground (arith, get-put k l v a, eq_iff k l, h l i j, e, g, f)

  keeps_old :
      (b a : Ids) (k i : String)
      → Entries b
      → Fits a
      → get k a ≡ some i
      → get k (put_all b a) ≡ some i
  unfolding put_all
  keeps_old [] a k i es h g = g
  keeps_old ((j, v) ∷ b) a k i es h g =
      keeps_old b (put j v a) k i es.1 (put-Fits j v a es.0 h)
        (ground (arith, get-put j k v a, eq_iff j k, h k i v g, es.0))

  takes_new :
      (b a : Ids) (k i : String)
      → Entries b
      → Fits a
      → get k b ≡ some i
      → get k (put_all b a) ≡ some i
  unfolding put_all
  takes_new [] a k i es h g = cc
  takes_new ((j, v) ∷ b) a k i es h g = elim (Bool-cases (str_eq j k)) [
    | inl e ↦
        keeps_old b (put j v a) k i es.1 (put-Fits j v a es.0 h)
          (ground (arith, get-put j k v a, e, g))
    | inr e ↦ takes_new b (put j v a) k i es.1 (put-Fits j v a es.0 h) (ground (arith, e, g))
  ]

  Unique-Entries :
      (b : Ids) → Unique b → ((k v : String) → get k b ≡ some v → m k ≡ some v) → Entries b
  Unique-Entries [] u h = tt
  Unique-Entries ((k, v) ∷ b) u h = (
    h k v (ground (arith, eq_refl k)),
    Unique-Entries b u.1 (λ j w g. h j w (ground (arith, eq_iff k j, u.0, g))),
  )

-- The maps of two groups without a conflict give no publisher two ids.
conflict_free :
    (a b : Ids) (k i j : String)
    → any (λ (e : String × String). differs (get e.0 b) e.1) a ≡ false
    → get k a ≡ some i
    → get k b ≡ some j
    → i ≡ j
unfolding any
conflict_free [] b k i j h g f = cc
conflict_free ((l, v) ∷ a) b k i j h g f =
    ground (arith, eq_iff l k, eq_iff j v, conflict_free a b k i j)

-- What either map gives, the merged one gives.
module _ (a b : Ids) (u : Unique b)
    (free : any (λ (e : String × String). differs (get e.0 b) e.1) a ≡ false) where
  entries : Entries (λ k. get k b) b
  entries = Unique-Entries (λ k. get k b) b u (λ k v g. g)

  fits : Fits (λ k. get k b) a
  fits k i j g f = conflict_free a b k i j free g f

  pub put_all_old : (k i : String) → get k a ≡ some i → get k (put_all b a) ≡ some i
  put_all_old k i g = keeps_old (λ j. get j b) b a k i entries fits g

  pub put_all_new : (k i : String) → get k b ≡ some i → get k (put_all b a) ≡ some i
  put_all_new k i g = takes_new (λ j. get j b) b a k i entries fits g
