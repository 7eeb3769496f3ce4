-- ===== src/Prisma/Reads.antt =====
-- What a query finds after a write.
use mathlib.Core.Option
use mathlib.Core.Option.{some-injective}
use mathlib.Core.Path.{subst}
use ai_planner.Prisma.{Model, create_all}
use ai_planner.Prelude.{
  ◌++◌, Bool, true, List, [], ◌∷◌, some, map, ◌≡◌, refl, inl, inr, arith, find?, change, Bool-cases,
  All,
}

module _ {Row : Type 0} where
  -- A change that keeps the key leaves the search on it where it was.
  pub find?-change :
      (p q : Row → Bool) (f : Row → Row) (t : List Row)
      → ((r : Row) → p (change q f r) ≡ p r)
      → find? p (map (change q f) t) ≡ Option.map (change q f) (find? p t)
  find?-change p q f [] keep = refl
  find?-change p q f (r ∷ t) keep = elim (Bool-cases (p r)) [
    | inl e ↦ rw (keep r, e) refl
    | inr e ↦ rw (keep r, e) (find?-change p q f t keep)
  ]

  pub find?-holds : (p : Row → Bool) (t : List Row) {r : Row} → find? p t ≡ some r → p r ≡ true
  find?-holds p [] h = cc
  find?-holds p (x ∷ t) {r} h = ground (arith, find?-holds p t {r = r})

  pub All-find? {κ} :
      (P : Row → Type κ) (p : Row → Bool) (t : List Row) {r : Row}
      → All P t
      → find? p t ≡ some r
      → P r
  All-find? P p [] h e = cc
  All-find? P p (x ∷ t) {r} h e = elim (Bool-cases (p x)) [
    | inl y ↦ subst P (some-injective x r (rw y at e)) h.0
    | inr n ↦ All-find? P p t h.1 (rw n at e)
  ]

  pub create_all-eq : (db : Model Row) (rs t : List Row) → create_all db rs t ≡ rs ++ t
  create_all-eq db [] t = refl
  create_all-eq db (r ∷ rs) t = rw (db.create-eq r (create_all db rs t), create_all-eq db rs t)
