-- ===== src/Pipeline/Pool.antt =====
-- backend/src/modules/ai/steps/select-candidates.step.ts: which places become candidates.

use ai_planner.Prelude.{
  ℕ, ◌≤◌, ◌<◌, true, false, not, ◌||◌, String, some, List, [], ◌∷◌, ◌≡◌, refl, inl, inr, arith, any,
  All, In, All-In, All_of_In, All-take, All-append, All-sort_by, All-map, Bool-cases, Option-cases,
  str_eq, length, length-append, select, map, AreApart, IsTracked, IsTracked-snoc, sort_by, ltb,
  All-select_In,
}
use ai_planner.Prisma.Selects.{All-select, length-map}
use ai_planner.Pipeline.Places.{PlaceResult, ActivityIntent}
use ai_planner.Pipeline.Registry.{is_strict_activity_subtype}
use ai_planner.Pipeline.Diversity.{normalize_place_key}
use ai_planner.Pipeline.Scoring.{Floats, Wishes, is_typical}
use ai_planner.Pipeline.Select.{
  ScoredEntry, PoolState, entry_key, ranks_after, push_entry, fill_pool, first_pick,
  build_candidate_pool, within_radius, nearby, suitable, scored_at, pool_of, distance_from,
}
use ai_planner.Pipeline.Picking.{first_pick-holds}

module _ (fl : Floats) (lower : String → String) where
  -- The pool so far: at most 5 entries, of distinct keys, each a scored one of those that `P` holds of.
  IsPool : (PlaceResult → Type 0) → PoolState → Type 0
  IsPool P s =
      IsTracked (entry_key fl lower) s.picked s.seen
      × (length s.picked ≤ 5)
      × All (λ e. (p : PlaceResult) × P p × (e.place ≡ record p { score = e.place.score })) s.picked

  push-IsPool :
      (P : PlaceResult → Type 0) (e : ScoredEntry) (s : PoolState)
      → P e.place
      → length s.picked < 5
      → IsPool P s
      → IsPool P (push_entry fl lower e s)
  unfolding IsPool
  push-IsPool P e s h few (tracked, short, all) =
      elim (Bool-cases (any (λ k. str_eq k (entry_key fl lower e)) s.seen)) [
        | inl old ↦ rw old (tracked, short, all)
        | inr new ↦
            let scored : ScoredEntry = record e {
              place = record e.place { score = some e.score };
            } in
            rw new (
              IsTracked-snoc (entry_key fl lower) s.picked s.seen scored tracked new,
              omega (arith, length-append s.picked (scored ∷ []), few),
              All-append
                  (λ e. (p : PlaceResult) × P p × (e.place ≡ record p { score = e.place.score }))
                  s.picked (scored ∷ []) all ((e.place, h, refl), tt),
            )
      ]

  fill_pool-IsPool :
      (P : PlaceResult → Type 0) (t : List ScoredEntry) (s : PoolState)
      → All (λ e. P e.place) t
      → IsPool P s
      → IsPool P (fill_pool fl lower t s)
  fill_pool-IsPool P [] s all h = h
  fill_pool-IsPool P (e ∷ t) s all h = elim (Bool-cases (ltb (length s.picked) 5)) [
    | inl few ↦ rw few (
        fill_pool-IsPool P t (push_entry fl lower e s) all.1
          (push-IsPool P e s all.0 (ground arith) h))
    | inr full ↦ rw full h
  ]

  -- The places of a pool: 1 to 5 where there are any, of distinct keys, each a scored one that `P`
  -- holds of.
  abbrev pub IsFit : (PlaceResult → Type 0) → List PlaceResult → Type 0
  IsFit P ps =
      AreApart (λ p. normalize_place_key lower p.name) ps
      × (length ps ≤ 5)
      × All (λ p. (p' : PlaceResult) × P p' × (p ≡ record p' { score = p.score })) ps

  apart-map :
      (t : List ScoredEntry)
      → AreApart (entry_key fl lower) t
      → AreApart (λ p. normalize_place_key lower p.name) (map (λ e. e.place) t)
  apart-map [] h = tt
  apart-map (e ∷ t) h = (
    All-map (λ p. str_eq (entry_key fl lower e) (normalize_place_key lower p.name) ≡ false)
        (λ e. e.place) t h.0,
    apart-map t h.1,
  )

  build_candidate_pool-IsFit :
      (P : PlaceResult → Type 0) (roll : ℕ) (t : List ScoredEntry)
      → All (λ e. P e.place) t
      → IsFit P (map (λ e. e.place) (build_candidate_pool fl lower roll t))
  unfolding build_candidate_pool IsPool
  build_candidate_pool-IsFit P roll t all =
      let sorted = sort_by (ranks_after fl lower) t in
      let all' = All-sort_by (λ e. P e.place) (ranks_after fl lower) t all in
      let empty : PoolState = record { picked = []; seen = [] } in
      let start : IsPool P empty = ((tt, λ k. refl), omega arith, tt) in
      elim (Option-cases (first_pick fl lower roll sorted)) [
        | inl absent ↦
            rw (absent, build_candidate_pool)
              (fit (fill_pool fl lower sorted empty) (fill_pool-IsPool P sorted empty all' start))
        | inr (e, there) ↦
            let h = first_pick-holds fl lower (λ e. P e.place) roll sorted all' there in
            let s = push_entry fl lower e empty in
            rw (there, build_candidate_pool)
              (fit (fill_pool fl lower sorted s)
                (fill_pool-IsPool P sorted s all' (push-IsPool P e empty h (omega arith) start)))
      ]
    where
      fit : (s : PoolState) → IsPool P s → IsFit P (map (λ e. e.place) s.picked)
      fit s (tracked, short, all) = (
        apart-map s.picked tracked.0,
        omega (arith, length-map (λ (e : ScoredEntry). e.place) s.picked, short),
        All-map (λ p. (p' : PlaceResult) × P p' × (p ≡ record p' { score = p.score }))
            (λ e. e.place) s.picked all,
      )

  within_radius-All :
      (P : PlaceResult → Type 0) (center : ℕ × ℕ) (t : List PlaceResult) (radii : List ℕ)
      → All P t
      → All P (within_radius fl lower center t radii)
  within_radius-All P center t [] all = tt
  within_radius-All P center t (radius ∷ radii) all =
      let near = select (λ p. fl.le (distance_from fl lower center p) radius) t in
      elim (Bool-cases (ltb 0 (length near))) [
        | inl y ↦ rw y (All-select P (λ p. fl.le (distance_from fl lower center p) radius) t all)
        | inr n ↦ rw n (within_radius-All P center t radii all)
      ]

  nearby-All :
      (P : PlaceResult → Type 0) (center : ℕ × ℕ) (t : List PlaceResult) (radii : List ℕ)
      → All P t
      → All P (nearby fl lower center t radii)
  unfolding nearby
  nearby-All P center t radii all =
      elim (Bool-cases (ltb 0 (length (within_radius fl lower center t radii)))) [
        | inl y ↦ rw (y, nearby) (within_radius-All P center t radii all)
        | inr n ↦
            let nearer = λ (a b : PlaceResult).
              fl.lt (distance_from fl lower center b) (distance_from fl lower center a) in
            rw (n, nearby) (All-take P 1 (sort_by nearer t) (All-sort_by P nearer t all))
      ]

  -- A place of those of the slot, and of the kind that the activity insists on.
  abbrev pub IsMeant : List PlaceResult → ActivityIntent → PlaceResult → Type 0
  IsMeant places a p =
      In p places × ((not (is_strict_activity_subtype a.subtype) || is_typical fl lower a p) ≡ true)

  suitable-IsMeant :
      (places : List PlaceResult) (a : ActivityIntent) (near : List PlaceResult)
      → All (λ p. In p places) near
      → All (IsMeant places a) (suitable fl lower a near)
  unfolding suitable
  suitable-IsMeant places a near all =
      elim (Bool-cases (ltb 0 (length (select (is_typical fl lower a) near)))) [
        | inl y ↦
            rw (y, suitable)
              (All-select_In (IsMeant places a) (is_typical fl lower a) near
                (λ p i t. (All-In (λ p. In p places) p near all i, ground (arith, t))))
        | inr n ↦ elim (Bool-cases (is_strict_activity_subtype a.subtype)) [
          | inl strict ↦ rw (n, strict, suitable) tt
          | inr lax ↦
              rw (n, lax, suitable)
                (All_of_In (IsMeant places a) near
                  (λ p i. (All-In (λ p. In p places) p near all i, ground (arith, lax))))
        ]
      ]

  pub pool_of-IsFit :
      (w : Wishes) (a : ActivityIntent) (roll : ℕ) (center : ℕ × ℕ) (radii : List ℕ)
      (places : List PlaceResult)
      → IsFit (IsMeant places a) (pool_of fl lower w a roll center radii places)
  unfolding pool_of
  pool_of-IsFit w a roll center radii places =
      let near = nearby fl lower center places radii in
      build_candidate_pool-IsFit (IsMeant places a) roll
        (map (scored_at fl lower w a center) (suitable fl lower a near))
        (All-map (λ e. IsMeant places a e.place) (scored_at fl lower w a center)
          (suitable fl lower a near)
          (suitable-IsMeant places a near (
            nearby-All (λ p. In p places) center places radii
              (All_of_In (λ p. In p places) places (λ p i. i)))))
