-- ===== src/Admin/Sorting.antt =====
-- A sort by the time, newest first: an order of the rows that `orderBy: { createdAt: 'desc' }` may answer.
use mathlib.Core.List.{Permᴰ}
use mathlib.Core.List.Permᴰ
use ai_planner.Prelude.{
  ℕ, ◌≤◌, Bool, List, [], ◌∷◌, refl, inl, inr, arith, All, ltb, Bool-cases, insert_by, sort_by,
}
use ai_planner.Pipeline.Visiting.{All-Perm}
use ai_planner.Admin.Ordering.{IsNewestFirst}

module _ {A : Type 0} (made : A → ℕ) where
  abbrev is_older : A → A → Bool
  is_older x y = ltb (made x) (made y)

  abbrev pub newest_first : List A → List A
  newest_first t = sort_by is_older t

  insert_by-Perm : (x : A) (t : List A) → Permᴰ (insert_by is_older x t) (x ∷ t)
  insert_by-Perm x [] = Permᴰ.refl (x ∷ [])
  insert_by-Perm x (y ∷ t) = elim (Bool-cases (is_older x y)) [
    | inl older ↦
        rw older (Permᴰ.trans (Permᴰ.cons refl (insert_by-Perm x t)) (Permᴰ.swap refl refl))
    | inr newer ↦ rw newer (Permᴰ.refl (x ∷ y ∷ t))
  ]

  pub newest_first-Perm : (t : List A) → Permᴰ (newest_first t) t
  newest_first-Perm [] = Permᴰ.nil
  newest_first-Perm (x ∷ t) =
      Permᴰ.trans (insert_by-Perm x (sort_by is_older t)) (Permᴰ.cons refl (newest_first-Perm t))

  All_older :
      (x y : A) (t : List A)
      → made y ≤ made x
      → All (λ z. made z ≤ made y) t
      → All (λ z. made z ≤ made x) t
  All_older x y [] le h = tt
  All_older x y (z ∷ t) le h = let first = h.0 in (omega (arith, first, le), All_older x y t le h.1)

  insert_by-IsNewestFirst :
      (x : A) (t : List A) → IsNewestFirst made t → IsNewestFirst made (insert_by is_older x t)
  insert_by-IsNewestFirst x [] h = (tt, tt)
  insert_by-IsNewestFirst x (y ∷ t) h = elim (Bool-cases (is_older x y)) [
    | inl older ↦
        let le : made x ≤ made y = ground arith in
        rw older (
          All-Perm (λ z. made z ≤ made y) (Permᴰ.symm (insert_by-Perm x t)) (le, h.0),
          insert_by-IsNewestFirst x t h.1,
        )
    | inr newer ↦
        let le : made y ≤ made x = ground arith in rw newer ((le, All_older x y t le h.0), h)
  ]

  pub newest_first-IsNewestFirst : (t : List A) → IsNewestFirst made (newest_first t)
  newest_first-IsNewestFirst [] = tt
  newest_first-IsNewestFirst (x ∷ t) =
      insert_by-IsNewestFirst x (sort_by is_older t) (newest_first-IsNewestFirst t)
