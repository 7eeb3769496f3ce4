-- ===== src/Admin/Ordering.antt =====
-- backend/src/modules/admin/admin.service.ts: `orderBy: { createdAt: 'desc' }` leaves one order, where
-- no two rows were made at the same time.
use mathlib.Core.List.{Permᴰ}
use mathlib.Core.List.Permᴰ
use mathlib.Core.Path.{subst, ap₂}
use ai_planner.Prelude.{
  ℕ, ◌≤◌, List, [], ◌∷◌, ◌≡◌, ◌≢◌, refl, sym, ap, inl, inr, arith, All, All-In, All_of_In, In,
}
use ai_planner.Prisma.Keys.{IsUnique}
use ai_planner.Pipeline.Visiting.{All-Perm}

module _ {A : Type 0} (made : A → ℕ) where
  -- The rows stand with the newest first.
  abbrev pub IsNewestFirst : List A → Type 0
  IsNewestFirst [] = Unit
  IsNewestFirst (x ∷ t) = All (λ y. made y ≤ made x) t × IsNewestFirst t

  IsUnique-Perm : {s t : List A} → Permᴰ s t → IsUnique made s → IsUnique made t
  IsUnique-Perm Permᴰ.nil u = tt
  IsUnique-Perm (Permᴰ.cons {a} {b} {l₁} {l₂} e d) u = (
    subst (λ k. All (λ z. made z ≢ k) l₂) (ap made e) (All-Perm (λ z. made z ≢ made a) d u.0),
    IsUnique-Perm d u.1,
  )
  IsUnique-Perm (Permᴰ.swap {a} {b} {a' = c} {b' = d} {l} e e') u =
      subst (λ y. IsUnique made (c ∷ y ∷ l)) e
        (subst (λ x. IsUnique made (x ∷ a ∷ l)) e'
          (((λ same. u.0.0 (sym same)), u.1.0), (u.0.1, u.1.1)))
  IsUnique-Perm (Permᴰ.trans d d') u = IsUnique-Perm d' (IsUnique-Perm d u)

  In-Perm : {s t : List A} → Permᴰ s t → All (λ x. In x t) s
  In-Perm {s} {t} d = All-Perm (λ x. In x t) (Permᴰ.symm d) (All_of_In (λ x. In x t) t (λ x i. i))

  -- The elements of a rest stand in the rest of another list with the same head.
  rest-In :
      (x : A) (s t : List A)
      → All (λ z. made z ≢ made x) s
      → All (λ z. In z (x ∷ t)) s
      → All (λ z. In z t) s
  rest-In x [] t u h = tt
  rest-In x (z ∷ s) t u h = (
    elim h.0 [ inl same ↦ absurd (u.0 (ap made (sym same))) | inr later ↦ later ],
    rest-In x s t u.1 h.1,
  )

  one_order :
      (s t : List A)
      → IsUnique made s
      → IsUnique made t
      → IsNewestFirst s
      → IsNewestFirst t
      → All (λ x. In x t) s
      → All (λ x. In x s) t
      → s ≡ t
  one_order [] [] us ut hs ht into back = refl
  one_order [] (y ∷ t) us ut hs ht into back = absurd back.0
  one_order (x ∷ s) [] us ut hs ht into back = absurd into.0
  one_order (x ∷ s) (y ∷ t) us ut hs ht into back =
      let heads : x ≡ y = elim into.0 [
        | inl same ↦ sym same
        | inr x_in_t ↦ elim back.0 [
          | inl same ↦ same
          | inr y_in_s ↦
              let older : made x ≤ made y = All-In (λ z. made z ≤ made y) x t ht.0 x_in_t in
              let newer : made y ≤ made x = All-In (λ z. made z ≤ made x) y s hs.0 y_in_s in
              let apart : made y ≢ made x = All-In (λ z. made z ≢ made x) y s us.0 y_in_s in
              absurd (apart (omega (arith, older, newer)))
        ]
      ] in
      let into' : All (λ z. In z (x ∷ t)) s =
        subst (λ w. All (λ z. In z (w ∷ t)) s) (sym heads) into.1 in
      let back' : All (λ z. In z (y ∷ s)) t = subst (λ w. All (λ z. In z (w ∷ s)) t) heads back.1 in
      ap₂ ◌∷◌ heads
        (one_order s t us.1 ut.1 hs.1 ht.1 (rest-In x s t us.0 into') (rest-In y t s ut.0 back'))

  -- Two lists of the same rows, both with the newest first, are one.
  pub one_order-Perm :
      {r s t : List A}
      → IsUnique made r
      → Permᴰ s r
      → Permᴰ t r
      → IsNewestFirst s
      → IsNewestFirst t
      → s ≡ t
  one_order-Perm {r} {s} {t} u p q hs ht =
      one_order s t (IsUnique-Perm (Permᴰ.symm p) u) (IsUnique-Perm (Permᴰ.symm q) u) hs ht
        (In-Perm (Permᴰ.trans p (Permᴰ.symm q))) (In-Perm (Permᴰ.trans q (Permᴰ.symm p)))
