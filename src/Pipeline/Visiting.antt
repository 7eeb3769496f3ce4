-- ===== src/Pipeline/Visiting.antt =====
-- backend/src/modules/ai/steps/optimize-route.step.ts: the route by nearest neighbours visits each
-- place once.
use mathlib.Core.List.{Permᴰ}
use mathlib.Core.List.Permᴰ
use mathlib.Core.Option.{some-injective}
use mathlib.Core.Path.{subst}
use ai_planner.Prelude.{
  ℕ, zero, suc, ◌+◌, ◌≤◌, ◌<◌, ◌≡◌, refl, ap, ◌∙◌, arith, some, List, [], ◌∷◌, map, length,
  if◌then◌else◌, ltb, Option-cases, inl, inr, All,
}
use ai_planner.Pipeline.Places.{RoutePlace, OrderedPlace}
use ai_planner.Pipeline.Route.{
  Geometry, splice, nearest, distance_to, ordered_at, neighbors_from, nearest_neighbor,
}

module _ {A : Type 0} where
  splice-found : (i : ℕ) (xs : List A) → i < length xs → (t : A × List A) × (splice i xs ≡ some t)
  splice-found i [] h = absurd (omega arith)
  splice-found zero (x ∷ xs) h = ((x, xs), refl)
  splice-found (suc i) (x ∷ xs) h =
      let (t, e) = splice-found i xs (omega arith) in ((t.0, x ∷ t.1), rw e refl)

  splice-Perm : (i : ℕ) (xs : List A) {t : A × List A} → splice i xs ≡ some t → Permᴰ (t.0 ∷ t.1) xs
  splice-Perm i [] h = absurd (ground arith)
  splice-Perm zero (x ∷ xs) {t} h =
      let same : (x, xs) ≡ t = some-injective (x, xs) t h in
      subst (λ u. Permᴰ (u.0 ∷ u.1) (x ∷ xs)) same (Permᴰ.refl (x ∷ xs))
  splice-Perm (suc i) (x ∷ xs) {t} h = elim (Option-cases (splice i xs)) [
    | inl missing ↦ absurd (ground arith)
    | inr (u, found) ↦
        let same : (u.0, x ∷ u.1) ≡ t = some-injective (u.0, x ∷ u.1) t (rw found at h) in
        subst (λ w. Permᴰ (w.0 ∷ w.1) (x ∷ xs)) same
          (Permᴰ.trans (Permᴰ.swap refl refl) (Permᴰ.cons refl (splice-Perm i xs found)))
  ]

  splice-length :
      (i : ℕ) (xs : List A) {t : A × List A} → splice i xs ≡ some t → length xs ≡ suc (length t.1)
  splice-length i [] h = absurd (ground arith)
  splice-length zero (x ∷ xs) {t} h = ap (λ w. suc (length w.1)) (some-injective (x, xs) t h)
  splice-length (suc i) (x ∷ xs) {t} h = elim (Option-cases (splice i xs)) [
    | inl missing ↦ absurd (ground arith)
    | inr (u, found) ↦
        let same : (u.0, x ∷ u.1) ≡ t = some-injective (u.0, x ∷ u.1) t (rw found at h) in
        ap suc (splice-length i xs found) ∙ ap (λ w. suc (length w.1)) same
  ]

  pub All-Perm : (P : A → Type 0) {xs ys : List A} → Permᴰ xs ys → All P xs → All P ys
  All-Perm P Permᴰ.nil h = tt
  All-Perm P (Permᴰ.cons e d) h = (subst P e h.0, All-Perm P d h.1)
  All-Perm P (Permᴰ.swap e e') h = (subst P e' h.1.0, (subst P e h.0, h.1.1))
  All-Perm P (Permᴰ.trans d d') h = All-Perm P d' (All-Perm P d h)

module _ (geo : Geometry) where
  -- The index that `nearest` gives is one of the list, and no place is nearer than the distance.
  nearest-bound :
      (lat lng i : ℕ) (best : ℕ × ℕ) (ps : List RoutePlace)
      → best.1 < i + length ps
      → (nearest geo lat lng i best ps).1 < i + length ps
  unfolding nearest
  nearest-bound lat lng i best [] h = h
  nearest-bound lat lng i best (p ∷ ps) h = ground (
    arith,
    nearest-bound lat lng (suc i)
        (if ltb (distance_to geo lat lng p) best.0 then (distance_to geo lat lng p, i) else best)
        ps,
  )

  nearest-le :
      (lat lng i : ℕ) (best : ℕ × ℕ) (ps : List RoutePlace)
      → ((nearest geo lat lng i best ps).0 ≤ best.0)
        × All (λ p. (nearest geo lat lng i best ps).0 ≤ distance_to geo lat lng p) ps
  unfolding nearest
  nearest-le lat lng i best [] = (omega arith, tt)
  nearest-le lat lng i best (p ∷ ps) =
      let next : ℕ × ℕ =
        if ltb (distance_to geo lat lng p) best.0 then (distance_to geo lat lng p, i) else best in
      let (below, each) = nearest-le lat lng (suc i) next ps in
      (ground (arith, below), (ground (arith, below), each))

  -- No place that comes later is nearer to where the way to a place begins.
  abbrev pub IsGreedy : ℕ → ℕ → List OrderedPlace → Type 0
  IsGreedy lat lng [] = Unit
  IsGreedy lat lng (q ∷ qs) =
      All (λ p. q.distance_from_prev ≤ distance_to geo lat lng p) (map (λ o. o.place) qs)
      × IsGreedy q.place.lat q.place.lng qs

  -- The orders count on.
  abbrev pub AreNumbered : ℕ → List OrderedPlace → Type 0
  AreNumbered n [] = Unit
  AreNumbered n (q ∷ qs) = (q.order ≡ n) × AreNumbered (suc n) qs

  neighbors_from-eq :
      (fuel lat lng count : ℕ) (ps : List RoutePlace) {t : RoutePlace × List RoutePlace}
      → splice (nearest geo lat lng 0 (geo.infinity, 0) ps).1 ps ≡ some t
      → neighbors_from geo (suc fuel) lat lng count ps ≡ (
          ordered_at geo count (nearest geo lat lng 0 (geo.infinity, 0) ps).0 t.0
          ∷ neighbors_from geo fuel t.0.lat t.0.lng (suc count) t.1)
  unfolding neighbors_from
  neighbors_from-eq fuel lat lng count ps found = rw (neighbors_from, found) refl

  neighbors_from-lem :
      (fuel lat lng count : ℕ) (ps : List RoutePlace)
      → length ps ≤ fuel
      → Permᴰ (map (λ o. o.place) (neighbors_from geo fuel lat lng count ps)) ps
        × AreNumbered (suc count) (neighbors_from geo fuel lat lng count ps)
        × IsGreedy lat lng (neighbors_from geo fuel lat lng count ps)
  unfolding neighbors_from
  neighbors_from-lem zero lat lng count [] h = (Permᴰ.nil, tt, tt)
  neighbors_from-lem zero lat lng count (p ∷ ps) h = absurd (omega arith)
  neighbors_from-lem (suc fuel) lat lng count [] h = (Permᴰ.nil, tt, tt)
  neighbors_from-lem (suc fuel) lat lng count (p ∷ ps) h =
      let closest : ℕ × ℕ = nearest geo lat lng 0 (geo.infinity, 0) (p ∷ ps) in
      let inside : closest.1 < length (p ∷ ps) =
        omega (arith, nearest-bound lat lng 0 (geo.infinity, 0) (p ∷ ps) (omega arith)) in
      let (t, found) = splice-found closest.1 (p ∷ ps) inside in
      let all = splice-Perm closest.1 (p ∷ ps) found in
      let (visits, numbers, greedy) =
        neighbors_from-lem fuel t.0.lat t.0.lng (suc count) t.1
          (omega (arith, splice-length closest.1 (p ∷ ps) found)) in
      let nearer =
        All-Perm (λ q. closest.0 ≤ distance_to geo lat lng q) (Permᴰ.symm all)
          (nearest-le lat lng 0 (geo.infinity, 0) (p ∷ ps)).1 in
      rw (neighbors_from-eq fuel lat lng count (p ∷ ps) found) (
        Permᴰ.trans (Permᴰ.cons refl visits) all,
        (omega arith, numbers),
        (
          All-Perm (λ q. closest.0 ≤ distance_to geo lat lng q) (Permᴰ.symm visits) nearer.1,
          greedy,
        ),
      )

  -- The route by nearest neighbours visits each place once, with the orders from 1 on, and the
  -- distance it gives for a way is at most that to any place that comes later.
  pub nearest_neighbor-lem :
      (places : List RoutePlace) (lat lng : ℕ)
      → Permᴰ (map (λ o. o.place) (nearest_neighbor geo places lat lng)) places
        × AreNumbered 1 (nearest_neighbor geo places lat lng)
        × IsGreedy lat lng (nearest_neighbor geo places lat lng)
  unfolding nearest_neighbor
  nearest_neighbor-lem places lat lng =
      neighbors_from-lem (length places) lat lng 0 places (omega arith)
