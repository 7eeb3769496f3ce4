-- ===== src/Prelude/Sorting.antt =====
-- `xs.sort(compare)` of JavaScript, which is stable: an insertion sort, where `after a b` is
-- `compare(a, b) > 0`; and what stands first.
use mathlib.Core.Path.{◌≡◌, refl, sym, ap, ◌∙◌, subst}
use mathlib.Core.Logic.{◌⊎◌, inl, inr}
use mathlib.Core.Bool.{Bool, true, false}
use mathlib.Core.Option.{Option, none, some, some-injective}
use mathlib.Core.List.{List, [], ◌∷◌}
use ai_planner.Prelude.Tests.{Bool-cases, if◌then◌else◌}
use Prim.Native.Nat.{suc}
use ai_planner.Prelude.Lists.{All, In, length}
use ai_planner.Prelude.Parts.{All_of_In, All-In}

module _ {A : Type 0} (after : A → A → Bool) where
  abbrev pub insert_by : A → List A → List A
  insert_by x [] = x ∷ []
  insert_by x (y ∷ t) = let rest = insert_by x t in if after x y then y ∷ rest else x ∷ y ∷ t

  abbrev pub sort_by : List A → List A
  sort_by [] = []
  sort_by (x ∷ t) = insert_by x (sort_by t)

  pub In-insert_by : (x z : A) (t : List A) → In z (insert_by x t) → (x ≡ z) ⊎ In z t
  In-insert_by x z [] (inl e) = inl e
  In-insert_by x z [] (inr i) = absurd i
  In-insert_by x z (y ∷ t) i = elim (Bool-cases (after x y)) [
    | inl later ↦ elim (rw later at i) [
      | inl e ↦ inr (inl e)
      | inr k ↦ elim (In-insert_by x z t k) [ inl e ↦ inl e | inr l ↦ inr (inr l) ]
    ]
    | inr sooner ↦ elim (rw sooner at i) [ inl e ↦ inl e | inr k ↦ inr k ]
  ]

  pub In-sort_by : (z : A) (t : List A) → In z (sort_by t) → In z t
  In-sort_by z [] i = i
  In-sort_by z (x ∷ t) i = elim (In-insert_by x z (sort_by t) i) [
    | inl e ↦ inl e
    | inr k ↦ inr (In-sort_by z t k)
  ]

length-insert_by :
    {A : Type 0} (after : A → A → Bool) (x : A) (t : List A)
    → length (insert_by after x t) ≡ suc (length t)
length-insert_by after x [] = refl
length-insert_by after x (y ∷ t) = elim (Bool-cases (after x y)) [
  | inl later ↦ rw later (ap suc (length-insert_by after x t))
  | inr sooner ↦ rw sooner refl
]

pub length-sort_by :
    {A : Type 0} (after : A → A → Bool) (t : List A) → length (sort_by after t) ≡ length t
length-sort_by after [] = refl
length-sort_by after (x ∷ t) =
    length-insert_by after x (sort_by after t) ∙ ap suc (length-sort_by after t)

pub All-sort_by :
    {A : Type 0} (P : A → Type 0) (after : A → A → Bool) (t : List A)
    → All P t
    → All P (sort_by after t)
All-sort_by P after t h =
    All_of_In P (sort_by after t) (λ x i. All-In P x t h (In-sort_by after x t i))

abbrev pub first_of : {A : Type 0} → List A → Option A
first_of [] = none
first_of (x ∷ t) = some x

module _ {A : Type 0} (after : A → A → Bool)
    (once : (x y : A) → after x y ≡ true → after y x ≡ false)
    (chain : (x y z : A) → after x y ≡ false → after y z ≡ false → after x z ≡ false) where
  not_after_self : (x : A) → after x x ≡ false
  not_after_self x = elim (Bool-cases (after x x)) [ inl y ↦ once x x y | inr n ↦ n ]

  -- Nothing in the list goes before the head of the sorted list.
  abbrev IsFirst : List A → List A → Type 0
  IsFirst t [] = All (λ _. ⊥) t
  IsFirst t (h ∷ _) = All (λ z. after h z ≡ false) t

  weaken :
      (x y : A) (t : List A)
      → after x y ≡ false
      → All (λ z. after y z ≡ false) t
      → All (λ z. after x z ≡ false) t
  weaken x y [] e h = tt
  weaken x y (z ∷ t) e h = (chain x y z e h.0, weaken x y t e h.1)

  sort_by-IsFirst : (t : List A) → IsFirst t (sort_by after t)
  sort_by-IsFirst [] = tt
  sort_by-IsFirst (x ∷ t) = go (sort_by after t) (sort_by-IsFirst t)
    where
      go : (s : List A) → IsFirst t s → IsFirst (x ∷ t) (insert_by after x s)
      go [] h = (not_after_self x, none_left t h)
        where
          none_left : (u : List A) → All (λ _. ⊥) u → All (λ z. after x z ≡ false) u
          none_left [] k = tt
          none_left (z ∷ u) k = absurd k.0
      go (y ∷ s) h = elim (Bool-cases (after x y)) [
        | inl later ↦ rw later (once x y later, h)
        | inr sooner ↦ rw sooner (not_after_self x, weaken x y t sooner h)
      ]

  -- What the sorted list starts with stands in the list, and nothing of the list goes before it.
  pub first-sort_by :
      (t : List A) {x : A}
      → first_of (sort_by after t) ≡ some x
      → In x t × All (λ z. after x z ≡ false) t
  first-sort_by t {x} e = go (sort_by after t) refl (sort_by-IsFirst t) e
    where
      go :
          (s : List A)
          → sort_by after t ≡ s
          → IsFirst t s
          → first_of s ≡ some x
          → In x t × All (λ z. after x z ≡ false) t
      go [] same h k = cc
      go (y ∷ s) same h k =
          let it : y ≡ x = some-injective y x k in
          let there : In y t = In-sort_by after y t (subst (λ u. In y u) (sym same) (inl refl)) in
          subst (λ w. In w t × All (λ z. after w z ≡ false) t) it (there, h)
