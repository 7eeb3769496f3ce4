-- ===== src/Pipeline/Merging.antt =====
-- backend/src/modules/ai/steps/search-places.step.ts: what `mergeSources` makes of two lists of places.
use mathlib.Core.Path.{subst}
use ai_planner.Prelude.{
  ℕ, zero, suc, ◌≤◌, ◌<◌, Bool, true, false, String, List, [], ◌∷◌, ◌++◌, ◌≡◌, refl, sym, ◌∙◌, ◌⊎◌,
  inl, inr, arith, any, All, In, Bool-cases, str_eq, str_eq_iff, length, take, take_whole,
  length-take, any-append, AreApart, AreApart-take, IsTracked, IsTracked-snoc, All-append, All-take,
  ltb, All_of_In, In-append_left, In-append_right,
}
use ai_planner.Pipeline.Places.{PlaceResult}
use ai_planner.Pipeline.Search.{
  Merged, place_key, push_if_new, merge_from, merge_sources, max_merged_results,
}

module _ (lower : String → String) where
  abbrev pub has_key : String → List PlaceResult → Bool
  has_key k t = any (λ z. str_eq (place_key lower z) k) t

  abbrev AreKept : Merged → Type 0
  AreKept m = IsTracked (place_key lower) m.places m.seen

  push-AreKept : (p : PlaceResult) (m : Merged) → AreKept m → AreKept (push_if_new lower p m)
  push-AreKept p m kept = elim (Bool-cases (any (λ s. str_eq s (place_key lower p)) m.seen)) [
    | inl old ↦ rw old kept
    | inr new ↦ rw new (IsTracked-snoc (place_key lower) m.places m.seen p kept new)
  ]

  -- The key of what is pushed is there then, as are those that were there.
  push-has :
      (p : PlaceResult) (m : Merged)
      → AreKept m
      → (has_key (place_key lower p) (push_if_new lower p m).places ≡ true)
        × ((k : String)
            → has_key k m.places ≡ true
            → has_key k (push_if_new lower p m).places ≡ true)
  push-has p m (apart, same) = elim (Bool-cases (any (λ s. str_eq s (place_key lower p)) m.seen)) [
    | inl old ↦ rw old (sym (same (place_key lower p)) ∙ old, λ k h. h)
    | inr new ↦
        let self : str_eq (place_key lower p) (place_key lower p) ≡ true =
          (str_eq_iff (place_key lower p) (place_key lower p)).1 refl in
        rw new (
          any-append (λ z. str_eq (place_key lower z) (place_key lower p)) m.places (p ∷ [])
              ∙ ground (arith, self),
          λ k h.
              any-append (λ z. str_eq (place_key lower z) k) m.places (p ∷ []) ∙ ground (arith, h),
        )
  ]

  push-All :
      (P : PlaceResult → Type 0) (p : PlaceResult) (m : Merged)
      → P p
      → All P m.places
      → All P (push_if_new lower p m).places
  push-All P p m h all = elim (Bool-cases (any (λ s. str_eq s (place_key lower p)) m.seen)) [
    | inl old ↦ rw old all
    | inr new ↦ rw new (All-append P m.places (p ∷ []) all (h, tt))
  ]

  -- What the loop keeps, and what it takes in if it does not stop early.
  abbrev Merges : List PlaceResult → List PlaceResult → Merged → Merged → Type 1
  Merges ns as_ m m' =
      AreKept m'
      × ((P : PlaceResult → Type 0) → All P ns → All P as_ → All P m.places → All P m'.places)
      × (length m'.places < max_merged_results
          → All (λ p. has_key (place_key lower p) m'.places ≡ true) ns
            × All (λ p. has_key (place_key lower p) m'.places ≡ true) as_
            × ((k : String) → has_key k m.places ≡ true → has_key k m'.places ≡ true))

  merge_from-Merges :
      (ns as_ : List PlaceResult) (m : Merged)
      → AreKept m
      → Merges ns as_ m (merge_from lower ns as_ m)
  unfolding merge_from
  merge_from-Merges [] [] m t = (t, λ P a b c. c, λ h. (tt, tt, λ k e. e))
  merge_from-Merges (n ∷ ns) [] m t = elim (Bool-cases (ltb (length m.places) max_merged_results)) [
    | inr full ↦ rw full (t, λ P a b c. c, λ h. absurd (ground arith))
    | inl room ↦
        let (t', kept, took) =
          merge_from-Merges ns [] (push_if_new lower n m) (push-AreKept n m t) in
        let has = push-has n m t in
        let next : merge_from lower (n ∷ ns) [] m ≡ merge_from lower ns [] (push_if_new lower n m) =
          rw room refl in
        subst (Merges (n ∷ ns) [] m) (sym next) (
          t',
          λ P a b c. kept P a.1 b (push-All P n m a.0 c),
          λ h.
              let (x, y, z) = took h in
              ((z (place_key lower n) has.0, x), y, λ k e. z k (has.1 k e)),
        )
  ]
  merge_from-Merges [] (a ∷ as_) m t =
      elim (Bool-cases (ltb (length m.places) max_merged_results)) [
        | inr full ↦ rw full (t, λ P b c d. d, λ h. absurd (ground arith))
        | inl room ↦
            let (t', kept, took) =
              merge_from-Merges [] as_ (push_if_new lower a m) (push-AreKept a m t) in
            let has = push-has a m t in
            let next : merge_from lower [] (a ∷ as_) m
                ≡ merge_from lower [] as_ (push_if_new lower a m) =
              rw room refl in
            subst (Merges [] (a ∷ as_) m) (sym next) (
              t',
              λ P b c d. kept P b c.1 (push-All P a m c.0 d),
              λ h.
                  let (x, y, z) = took h in
                  (x, (z (place_key lower a) has.0, y), λ k e. z k (has.1 k e)),
            )
      ]
  merge_from-Merges (n ∷ ns) (a ∷ as_) m t =
      elim (Bool-cases (ltb (length m.places) max_merged_results)) [
        | inr full ↦ rw full (t, λ P b c d. d, λ h. absurd (ground arith))
        | inl room ↦
            let m' = push_if_new lower n m in
            let t' = push-AreKept n m t in
            let (t'', kept, took) =
              merge_from-Merges ns as_ (push_if_new lower a m') (push-AreKept a m' t') in
            let has = push-has n m t in
            let has' = push-has a m' t' in
            let next : merge_from lower (n ∷ ns) (a ∷ as_) m
                ≡ merge_from lower ns as_ (push_if_new lower a m') =
              rw room refl in
            subst (Merges (n ∷ ns) (a ∷ as_) m) (sym next) (
              t'',
              λ P b c d. kept P b.1 c.1 (push-All P a m' c.0 (push-All P n m b.0 d)),
              λ h.
                  let (x, y, z) = took h in
                  (
                    (z (place_key lower n) (has'.1 (place_key lower n) has.0), x),
                    (z (place_key lower a) has'.0, y),
                    λ k e. z k (has'.1 k (has.1 k e)),
                  ),
            )
      ]

-- The places merged of two lists are of the lists, at most 20, and no two have one key, which is the
-- name without white space and case. If they are not 20, the key of each place of the lists is among
-- them.
pub merge_sources-lem :
    (lower : String → String) (ns as_ : List PlaceResult)
    → let merged = merge_sources lower ns as_ in
      AreApart (place_key lower) merged
      × (length merged ≤ 20)
      × All (λ p. In p (ns ++ as_)) merged
      × ((length merged ≡ 20)
          ⊎ All (λ p. has_key lower (place_key lower p) merged ≡ true) (ns ++ as_))
unfolding merge_sources
merge_sources-lem lower ns as_ =
    let empty : Merged = record { places = []; seen = [] } in
    let whole = (merge_from lower ns as_ empty).places in
    let ((apart, _), kept, took) = merge_from-Merges lower ns as_ empty (tt, λ k. refl) in
    (
      AreApart-take (place_key lower) 20 whole apart,
      length-take 20 whole,
      All-take (λ p. In p (ns ++ as_)) 20 whole
          (kept (λ p. In p (ns ++ as_))
            (All_of_In (λ p. In p (ns ++ as_)) ns (λ p i. In-append_left p ns as_ i))
            (All_of_In (λ p. In p (ns ++ as_)) as_ (λ p i. In-append_right p ns as_ i)) tt),
      elim (Bool-cases (ltb (length (take 20 whole)) 20)) [
        | inr n ↦ inl (omega (arith, length-take 20 whole, full n))
        | inl y ↦
            let short = short_take 20 whole (ground arith) in
            let (x, y, _) = took short in
            inr (
              subst (λ t. All (λ p. has_key lower (place_key lower p) t ≡ true) (ns ++ as_))
                (sym (take_whole 20 whole (omega (arith, short))))
                (All-append (λ p. has_key lower (place_key lower p) whole ≡ true) ns as_ x y))
      ],
    )
  where
    short_take : (n : ℕ) (t : List PlaceResult) → length (take n t) < n → length t < n
    short_take zero t h = absurd (omega arith)
    short_take (suc n) [] h = h
    short_take (suc n) (x ∷ t) h = omega (arith, short_take n t (omega arith))

    full : {n : ℕ} → ltb n 20 ≡ false → 20 ≤ n
    full h = ground arith
