-- ===== src/Pipeline/Improving.antt =====
-- backend/src/modules/ai/steps/optimize-route.step.ts: `twoOpt` ends, with a route of the same places
-- that is no longer than the given one and that no reversal of a part makes shorter.
use mathlib.Core.List
use mathlib.Core.List.{Permᴰ}
use mathlib.Core.List.Permᴰ
use mathlib.Core.Path.{subst}
use ai_planner.Prelude.{
  take, drop, All-append, ℕ, zero, suc, ◌+◌, ◌-◌, ◌≤◌, ◌<◌, ◌≡◌, refl, ap, sym, ◌∙◌, arith, Bool,
  true, false, List, [], ◌∷◌, ◌++◌, length, if◌then◌else◌, ltb, Bool-cases, inl, inr, All,
}
use ai_planner.Pipeline.Places.{OrderedPlace}
use ai_planner.Pipeline.Route.{
  Geometry, two_opt_swap, total_distance, pairs_at, pairs_from, Search, try_swap, sweep, pass,
  improve, started,
}

module _ {A : Type 0} where
  take-drop : (n : ℕ) (xs : List A) → (take n xs ++ drop n xs) ≡ xs
  take-drop zero xs = refl
  take-drop (suc n) [] = refl
  take-drop (suc n) (x ∷ xs) = ap (λ ys. x ∷ ys) (take-drop n xs)

  drop-nil : (n : ℕ) → drop {A = A} n [] ≡ []
  drop-nil zero = refl
  drop-nil (suc n) = refl

  drop-drop : (m n l : ℕ) (xs : List A) → n + m ≡ l → drop m (drop n xs) ≡ drop l xs
  drop-drop m zero l xs h = ap (λ k. drop k xs) (omega arith)
  drop-drop m (suc n) l [] h = drop-nil m ∙ sym (drop-nil l)
  drop-drop m (suc n) zero (x ∷ xs) h = absurd (omega arith)
  drop-drop m (suc n) (suc l) (x ∷ xs) h = drop-drop m n l xs (omega arith)

  two_opt_swap-Perm : (route : List A) (i k : ℕ) → i ≤ suc k → Permᴰ (two_opt_swap route i k) route
  unfolding two_opt_swap
  two_opt_swap-Perm route i k h =
      let middle : List A = take (suc k - i) (drop i route) in
      let swapped : Permᴰ (take i route ++ (List.reverse middle ++ drop (suc k) route))
          (take i route ++ (middle ++ drop (suc k) route)) =
        Permᴰ.append_left (take i route)
          (Permᴰ.append_right (drop (suc k) route) (Permᴰ.reverse middle)) in
      let rest : (middle ++ drop (suc k) route) ≡ drop i route =
        ap (λ ys. middle ++ ys) (sym (drop-drop (suc k - i) i (suc k) route (omega arith)))
        ∙ take-drop (suc k - i) (drop i route) in
      subst (λ ys. Permᴰ (two_opt_swap route i k) ys)
        (ap (λ ys. take i route ++ ys) rest ∙ take-drop i route) swapped

module _ (geo : Geometry) (lat lng : ℕ) where
  -- `best_distance` is the distance of `best`.
  abbrev IsMeasured : Search → Type 0
  IsMeasured s = s.best_distance ≡ total_distance geo lat lng s.best

  try_swap-lem :
      (s : Search) (q : ℕ × ℕ)
      → IsMeasured s
      → q.0 ≤ suc q.1
      → let after = try_swap geo lat lng s q in
        IsMeasured after × Permᴰ after.best s.best × (after.best_distance ≤ s.best_distance)
  unfolding try_swap
  try_swap-lem s q measured fine =
      let route : List OrderedPlace = two_opt_swap s.best q.0 q.1 in
      elim (Bool-cases (ltb (total_distance geo lat lng route) s.best_distance)) [
        | inl less ↦ rw less (refl, two_opt_swap-Perm s.best q.0 q.1 fine, ground arith)
        | inr more ↦ rw more (measured, Permᴰ.refl s.best, omega arith)
      ]

  -- Whatever a pass does, the route is measured, of the same places, and no longer.
  sweep-lem :
      (pairs : List (ℕ × ℕ)) (s : Search)
      → IsMeasured s
      → All (λ q. q.0 ≤ suc q.1) pairs
      → let after = sweep geo lat lng pairs s in
        IsMeasured after × Permᴰ after.best s.best × (after.best_distance ≤ s.best_distance)
  unfolding sweep
  sweep-lem [] s measured fine = (measured, Permᴰ.refl s.best, omega arith)
  sweep-lem (q ∷ pairs) s measured fine =
      let (one, two, three) = try_swap-lem s q measured fine.0 in
      let (right, same, short) = sweep-lem pairs (try_swap geo lat lng s q) one fine.1 in
      (right, Permᴰ.trans same two, omega arith)

  -- A pass that reports no improvement has found none.
  sweep-quiet :
      (pairs : List (ℕ × ℕ)) (s : Search)
      → (sweep geo lat lng pairs s).improved ≡ false
      → (s.improved ≡ false)
        × (sweep geo lat lng pairs s ≡ s)
        × All
            (λ q. s.best_distance ≤ total_distance geo lat lng (two_opt_swap s.best q.0 q.1))
            pairs
  unfolding sweep try_swap
  sweep-quiet [] s h = (h, refl, tt)
  sweep-quiet (q ∷ pairs) s h =
      let (quiet, same, none_better) = sweep-quiet pairs (try_swap geo lat lng s q) h in
      elim (Bool-cases
        (ltb (total_distance geo lat lng (two_opt_swap s.best q.0 q.1)) s.best_distance)) [
          | inl less ↦ absurd (ground arith)
          | inr more ↦
              let kept : try_swap geo lat lng s q ≡ s = rw more refl in
              (
                subst (λ t. t.improved ≡ false) kept quiet,
                same ∙ kept,
                (
                  ground arith,
                  subst
                      (λ t.
                        All
                          (λ q.
                            t.best_distance
                            ≤ total_distance geo lat lng (two_opt_swap t.best q.0 q.1))
                          pairs)
                      kept none_better,
                ),
              )
        ]

  sweep-le :
      (pairs : List (ℕ × ℕ)) (s : Search)
      → (sweep geo lat lng pairs s).best_distance ≤ s.best_distance
  unfolding sweep try_swap
  sweep-le [] s = omega arith
  sweep-le (q ∷ pairs) s = ground (arith, sweep-le pairs (try_swap geo lat lng s q))

  -- A pass that reports an improvement has made the distance less.
  sweep-progress :
      (pairs : List (ℕ × ℕ)) (s : Search)
      → (sweep geo lat lng pairs s).improved ≡ true
      → s.improved ≡ false
      → (sweep geo lat lng pairs s).best_distance < s.best_distance
  unfolding sweep try_swap
  sweep-progress [] s h fresh = absurd (ground arith)
  sweep-progress (q ∷ pairs) s h fresh =
      elim (Bool-cases
        (ltb (total_distance geo lat lng (two_opt_swap s.best q.0 q.1)) s.best_distance)) [
          | inl less ↦
              let below : (try_swap geo lat lng s q).best_distance < s.best_distance =
                rw less (ground arith) in
              omega (arith, sweep-le pairs (try_swap geo lat lng s q))
          | inr more ↦
              let kept : try_swap geo lat lng s q ≡ s = rw more refl in
              let later : (sweep geo lat lng pairs s).improved ≡ true =
                subst (λ t. (sweep geo lat lng pairs t).improved ≡ true) kept h in
              subst (λ t. (sweep geo lat lng pairs t).best_distance < s.best_distance) (sym kept)
                (sweep-progress pairs s later fresh)
        ]

  pairs_at-fine : (i k n : ℕ) → i ≤ suc k → All (λ q. q.0 ≤ suc q.1) (pairs_at i k n)
  pairs_at-fine i k zero h = tt
  pairs_at-fine i k (suc n) h = (h, pairs_at-fine i (suc k) n (omega arith))

  pairs_from-fine : (i n : ℕ) → All (λ q. q.0 ≤ suc q.1) (pairs_from i n)
  pairs_from-fine i zero = tt
  pairs_from-fine i (suc n) =
      All-append (λ q. q.0 ≤ suc q.1) (pairs_at i (suc i) n) (pairs_from (suc i) n)
        (pairs_at-fine i (suc i) n (omega arith)) (pairs_from-fine (suc i) n)

  -- No reversal of a part makes the route shorter.
  abbrev pub IsOptimal : List OrderedPlace → Type 0
  IsOptimal route =
      All
        (λ q.
          total_distance geo lat lng route
          ≤ total_distance geo lat lng (two_opt_swap route q.0 q.1))
        (pairs_from 0 (length route))

  improve-eq :
      (fuel : ℕ) (s : Search) (b : Bool)
      → (pass geo lat lng s).improved ≡ b
      → improve geo lat lng (suc fuel) s
        ≡ (if b then improve geo lat lng fuel (pass geo lat lng s) else pass geo lat lng s)
  unfolding improve
  improve-eq fuel s b h =
      ap (λ c. if c then improve geo lat lng fuel (pass geo lat lng s) else pass geo lat lng s) h

  improve-lem :
      (fuel : ℕ) (s : Search)
      → IsMeasured s
      → s.best_distance < fuel
      → let after = improve geo lat lng fuel s in
        (after.improved ≡ false)
        × Permᴰ after.best s.best
        × (total_distance geo lat lng after.best ≤ s.best_distance)
        × IsOptimal after.best
  improve-lem zero s measured h = absurd (omega arith)
  improve-lem (suc fuel) s measured h =
      let begun : Search = record s { improved = false } in
      let pairs : List (ℕ × ℕ) = pairs_from 0 (length s.best) in
      let (right, same, short) =
        sweep-lem pairs begun measured (pairs_from-fine 0 (length s.best)) in
      elim (Bool-cases (pass geo lat lng s).improved) [
        | inl more ↦
            let less = sweep-progress pairs begun more refl in
            let (ended, places, total, optimal) =
              improve-lem fuel (pass geo lat lng s) right (omega arith) in
            rw (improve-eq fuel s true more) (ended, Permᴰ.trans places same, omega arith, optimal)
        | inr done ↦
            let (_, kept, none_better) = sweep-quiet pairs begun done in
            rw (improve-eq fuel s false done, kept)
              (
                refl,
                Permᴰ.refl s.best,
                omega arith,
                subst
                    (λ d.
                      All (λ q. d ≤ total_distance geo lat lng (two_opt_swap s.best q.0 q.1)) pairs)
                    measured none_better,
              )
      ]

  -- The loop of `twoOpt` ends by itself: the fuel, one more than the distance at the start, is
  -- enough. The route it finds is of the same places, not longer than the given one, and no reversal
  -- of a part of it makes it shorter.
  pub improve-settles :
      (places : List OrderedPlace)
      → let after =
          improve geo lat lng
            (suc (total_distance geo lat lng places))
            (started geo lat lng places) in
        (after.improved ≡ false)
        × Permᴰ after.best places
        × (total_distance geo lat lng after.best ≤ total_distance geo lat lng places)
        × IsOptimal after.best
  improve-settles places =
      improve-lem (suc (total_distance geo lat lng places)) (started geo lat lng places) refl
        (omega arith)
