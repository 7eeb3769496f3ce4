-- ===== src/Prelude/Parts.antt =====
-- The first elements of a list, lists put together, and what holds of all elements of such lists.
use Prim.Native.Nat.{ℕ, zero, suc, ◌+◌, ◌≤◌, ◌<◌}
use mathlib.Core.Path.{◌≡◌, refl, sym, ap, ◌∙◌, subst}
use mathlib.Core.Logic.{◌⊎◌, inl, inr}
use mathlib.Core.Bool.{Bool, true, false, ◌||◌}
use mathlib.Core.List.{List, [], ◌∷◌, ◌++◌, map}
use native.Mathlib.Omega.{arith}
use Prim.Native.String.{String}
use ai_planner.Prelude.Tests.{Bool-cases, str_eq}
use ai_planner.Prelude.Lists.{length, select, any, All, In}

module _ {A : Type 0} where
  -- `xs.slice(0, n)` and `xs.slice(n)`
  abbrev pub take : ℕ → List A → List A
  take zero xs = []
  take (suc n) [] = []
  take (suc n) (x ∷ xs) = x ∷ take n xs

  abbrev pub drop : ℕ → List A → List A
  drop zero xs = xs
  drop (suc n) [] = []
  drop (suc n) (x ∷ xs) = drop n xs

  pub length-take : (n : ℕ) (t : List A) → length (take n t) ≤ n
  length-take zero t = omega arith
  length-take (suc n) [] = omega arith
  length-take (suc n) (x ∷ t) = omega (arith, length-take n t)

  pub take_some : (n : ℕ) (t : List A) → 0 < length t → 0 < length (take (suc n) t)
  take_some n [] h = h
  take_some n (x ∷ t) h = omega arith

  pub append_nil : (t : List A) → (t ++ []) ≡ t
  append_nil [] = refl
  append_nil (x ∷ t) = ap (λ u. x ∷ u) (append_nil t)

  pub append_assoc : (r s t : List A) → ((r ++ s) ++ t) ≡ (r ++ (s ++ t))
  append_assoc [] s t = refl
  append_assoc (x ∷ r) s t = ap (λ u. x ∷ u) (append_assoc r s t)

  pub length-append : (s t : List A) → length (s ++ t) ≡ length s + length t
  length-append [] t = omega arith
  length-append (x ∷ s) t = omega (arith, length-append s t)

  pub All-take : (P : A → Type 0) (n : ℕ) (t : List A) → All P t → All P (take n t)
  All-take P zero t h = tt
  All-take P (suc n) [] h = tt
  All-take P (suc n) (x ∷ t) h = (h.0, All-take P n t h.1)

  pub All-append : (P : A → Type 0) (s t : List A) → All P s → All P t → All P (s ++ t)
  All-append P [] t h k = k
  All-append P (x ∷ s) t h k = (h.0, All-append P s t h.1 k)

  pub All_empty : (P : A → Type 0) (t : List A) → length t ≡ 0 → All P t
  All_empty P [] h = tt
  All_empty P (x ∷ t) h = absurd (omega arith)

  pub All-In : (P : A → Type 0) (x : A) (t : List A) → All P t → In x t → P x
  All-In P x [] h i = absurd i
  All-In P x (y ∷ t) h (inl same) = subst P same h.0
  All-In P x (y ∷ t) h (inr later) = All-In P x t h.1 later

  -- What holds of each element that a filter keeps.
  pub All-select_In :
      (P : A → Type 0) (p : A → Bool) (t : List A)
      → ((x : A) → In x t → p x ≡ true → P x)
      → All P (select p t)
  All-select_In P p [] h = tt
  All-select_In P p (x ∷ t) h = elim (Bool-cases (p x)) [
    | inl here ↦ rw here (h x (inl refl) here, All-select_In P p t (λ y i. h y (inr i)))
    | inr away ↦ rw away (All-select_In P p t (λ y i. h y (inr i)))
  ]

  pub All_of_In : (P : A → Type 0) (t : List A) → ((x : A) → In x t → P x) → All P t
  All_of_In P [] h = tt
  All_of_In P (x ∷ t) h = (h x (inl refl), All_of_In P t (λ y i. h y (inr i)))

pub All-map :
    {A B : Type 0} (P : B → Type 0) (f : A → B) (t : List A)
    → All (λ x. P (f x)) t
    → All P (map f t)
All-map P f [] h = tt
All-map P f (x ∷ t) h = (h.0, All-map P f t h.1)

pub any-All : {A : Type 0} (p : A → Bool) (t : List A) → any p t ≡ false → All (λ x. p x ≡ false) t
any-All p [] e = tt
any-All p (x ∷ t) e = elim (Bool-cases (p x)) [
  | inl y ↦ let it = rw (y, any) at e in cc
  | inr n ↦ (n, any-All p t (rw (n, any) at e))
]

pub any-append : {A : Type 0} (p : A → Bool) (s t : List A) → any p (s ++ t) ≡ (any p s || any p t)
any-append p [] t = refl
any-append p (x ∷ s) t = elim (Bool-cases (p x)) [
  | inl y ↦ rw y refl
  | inr n ↦ rw n (any-append p s t)
]

pub take_whole : {A : Type 0} (n : ℕ) (t : List A) → length t ≤ n → take n t ≡ t
take_whole zero [] h = refl
take_whole zero (x ∷ t) h = absurd (omega arith)
take_whole (suc n) [] h = refl
take_whole (suc n) (x ∷ t) h = ap (λ u. x ∷ u) (take_whole n t (omega arith))

-- No two elements have one key.
abbrev pub AreApart : {A : Type 0} → (A → String) → List A → Type 0
AreApart k [] = Unit
AreApart k (x ∷ t) = All (λ z. str_eq (k x) (k z) ≡ false) t × AreApart k t

pub AreApart-take :
    {A : Type 0} (k : A → String) (n : ℕ) (t : List A) → AreApart k t → AreApart k (take n t)
AreApart-take k zero t h = tt
AreApart-take k (suc n) [] h = tt
AreApart-take k (suc n) (x ∷ t) h =
    (All-take (λ z. str_eq (k x) (k z) ≡ false) n t h.0, AreApart-take k n t h.1)

pub AreApart-snoc :
    {A : Type 0} (k : A → String) (t : List A) (x : A)
    → AreApart k t
    → any (λ z. str_eq (k z) (k x)) t ≡ false
    → AreApart k (t ++ (x ∷ []))
AreApart-snoc k [] x h e = (tt, tt)
AreApart-snoc k (y ∷ t) x h e =
    let other = any-All (λ z. str_eq (k z) (k x)) (y ∷ t) e in
    (
      All-append (λ z. str_eq (k y) (k z) ≡ false) t (x ∷ []) h.0 (other.0, tt),
      AreApart-snoc k t x h.1 (ground (arith, e, other.0)),
    )

-- The keys that were seen are those of the elements, and no two elements have one key.
abbrev pub IsTracked : {A : Type 0} → (A → String) → List A → List String → Type 0
IsTracked k t seen =
    AreApart k t × ((key : String) → any (λ s. str_eq s key) seen ≡ any (λ z. str_eq (k z) key) t)

pub IsTracked-snoc :
    {A : Type 0} (k : A → String) (t : List A) (seen : List String) (x : A)
    → IsTracked k t seen
    → any (λ s. str_eq s (k x)) seen ≡ false
    → IsTracked k (t ++ (x ∷ [])) (k x ∷ seen)
IsTracked-snoc k t seen x (apart, same) new = (
  AreApart-snoc k t x apart (sym (same (k x)) ∙ new),
  λ key. elim (Bool-cases (str_eq (k x) key)) [
    | inl y ↦
        rw (any-append (λ z. str_eq (k z) key) t (x ∷ []), y)
          (sym (or_true (any (λ z. str_eq (k z) key) t)))
    | inr n ↦
        rw (any-append (λ z. str_eq (k z) key) t (x ∷ []), n, same key)
          (sym (or_false (any (λ z. str_eq (k z) key) t)))
  ],
)
  where
    or_true : (b : Bool) → (b || true) ≡ true
    or_true true = refl
    or_true false = refl

    or_false : (b : Bool) → (b || false) ≡ b
    or_false true = refl
    or_false false = refl

pub List-cases : {A : Type 0} (t : List A) → (t ≡ []) ⊎ ((x : A) × (r : List A) × (t ≡ x ∷ r))
List-cases [] = inl refl
List-cases (x ∷ r) = inr (x, r, refl)
