-- ===== src/Prisma/Selects.antt =====
-- Rows that a filter keeps.
use ai_planner.Prelude.{
  ℕ, suc, Bool, false, List, [], ◌∷◌, map, ◌≡◌, ◌≢◌, refl, ap, inl, inr, arith, ◌&&◌, not,
  Bool-cases, length, select, All,
}
use ai_planner.Prisma.Keys.{IsUnique}

module _ {A : Type 0} where
  pub All-select : (P : A → Type 0) (p : A → Bool) (t : List A) → All P t → All P (select p t)
  All-select P p [] h = tt
  All-select P p (x ∷ t) h = elim (Bool-cases (p x)) [
    | inl y ↦ rw y (h.0, All-select P p t h.1)
    | inr n ↦ rw n (All-select P p t h.1)
  ]

  pub IsUnique-select :
      (k : A → ℕ) (p : A → Bool) (t : List A) → IsUnique k t → IsUnique k (select p t)
  IsUnique-select k p [] u = tt
  IsUnique-select k p (x ∷ t) u = elim (Bool-cases (p x)) [
    | inl y ↦ rw y (All-select (λ z. k z ≢ k x) p t u.0, IsUnique-select k p t u.1)
    | inr n ↦ rw n (IsUnique-select k p t u.1)
  ]

  pub select-select :
      (p q : A → Bool) (t : List A) → select (λ x. p x && q x) (select q t) ≡ select q (select p t)
  select-select p q [] = refl
  select-select p q (x ∷ t) = ground (arith, select-select p q t)

  pub length-map : {B : Type 0} (f : A → B) (t : List A) → length (map f t) ≡ length t
  length-map f [] = refl
  length-map f (x ∷ t) = ap suc (length-map f t)

  pub select-not : (p : A → Bool) (t : List A) → All (λ x. p x ≡ false) (select (λ x. not (p x)) t)
  select-not p [] = tt
  select-not p (x ∷ t) = ground (arith, select-not p t)
