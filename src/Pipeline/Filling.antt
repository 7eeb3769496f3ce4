-- ===== src/Pipeline/Filling.antt =====
-- backend/src/modules/ai/steps/select-candidates.step.ts: a slot that has places gets candidates.
use ai_planner.Prelude.{
  ℕ, ◌<◌, ◌≤◌, false, String, some, List, [], ◌∷◌, ◌≡◌, inl, inr, arith, any, Bool-cases,
  List-cases, Option-cases, str_eq, length, length-append, length-sort_by, select, map, sort_by,
  ltb,
}
use ai_planner.Prisma.Selects.{length-map}
use ai_planner.Pipeline.Places.{PlaceResult, ActivityIntent}
use ai_planner.Pipeline.Registry.{is_strict_activity_subtype}
use ai_planner.Pipeline.Scoring.{Floats, Wishes, is_typical}
use ai_planner.Pipeline.Select.{
  ScoredEntry, PoolState, entry_key, ranks_after, push_entry, fill_pool, first_pick,
  build_candidate_pool, within_radius, nearby, suitable, scored_at, pool_of, distance_from,
}

module _ (fl : Floats) (lower : String → String) where
  push_grows :
      (e : ScoredEntry) (s : PoolState) → length s.picked ≤ length (push_entry fl lower e s).picked
  push_grows e s = elim (Bool-cases (any (λ k. str_eq k (entry_key fl lower e)) s.seen)) [
    | inl old ↦ rw old (omega arith)
    | inr new ↦
        let scored : ScoredEntry = record e { place = record e.place { score = some e.score } } in
        rw new (omega (arith, length-append s.picked (scored ∷ [])))
  ]

  fill_pool_grows :
      (t : List ScoredEntry) (s : PoolState)
      → length s.picked ≤ length (fill_pool fl lower t s).picked
  fill_pool_grows [] s = omega arith
  fill_pool_grows (e ∷ t) s = elim (Bool-cases (ltb (length s.picked) 5)) [
    | inl few ↦
        let one = push_grows e s in
        let more = fill_pool_grows t (push_entry fl lower e s) in rw few (omega (arith, one, more))
    | inr full ↦ rw full (omega arith)
  ]

  build_candidate_pool_some :
      (roll : ℕ) (t : List ScoredEntry)
      → 0 < length t
      → 0 < length (build_candidate_pool fl lower roll t)
  unfolding build_candidate_pool
  build_candidate_pool_some roll t many =
      let sorted = sort_by (ranks_after fl lower) t in
      let same = length-sort_by (ranks_after fl lower) t in
      let empty : PoolState = record { picked = []; seen = [] } in
      elim (Option-cases (first_pick fl lower roll sorted)) [
        | inr (e, there) ↦
            rw (there, build_candidate_pool) (fill_pool_grows sorted (push_entry fl lower e empty))
        | inl absent ↦ elim (List-cases sorted) [
          | inl none_sorted ↦
              let impossible = rw none_sorted at same in ground (arith, impossible, many)
          | inr (e, u, cons) ↦
              rw (absent, cons, build_candidate_pool)
                (fill_pool_grows u (push_entry fl lower e empty))
        ]
      ]

  nearby_some :
      (center : ℕ × ℕ) (t : List PlaceResult) (radii : List ℕ)
      → 0 < length t
      → 0 < length (nearby fl lower center t radii)
  unfolding nearby
  nearby_some center t radii many =
      elim (Bool-cases (ltb 0 (length (within_radius fl lower center t radii)))) [
        | inl y ↦ rw (y, nearby) (ground (arith, y))
        | inr n ↦
            let nearer = λ (a b : PlaceResult).
              fl.lt (distance_from fl lower center b) (distance_from fl lower center a) in
            let same = length-sort_by nearer t in
            rw (n, nearby)
              (elim (List-cases (sort_by nearer t)) [
                | inl none_sorted ↦
                    let impossible = rw none_sorted at same in ground (arith, impossible, many)
                | inr (p, u, cons) ↦ rw cons (omega arith)
              ])
      ]

  suitable_some :
      (a : ActivityIntent) (near : List PlaceResult)
      → is_strict_activity_subtype a.subtype ≡ false
      → 0 < length near
      → 0 < length (suitable fl lower a near)
  unfolding suitable
  suitable_some a near lax many =
      elim (Bool-cases (ltb 0 (length (select (is_typical fl lower a) near)))) [
        | inl y ↦ rw (y, suitable) (ground (arith, y))
        | inr n ↦ rw (n, lax, suitable) many
      ]

  pub pool_of_some :
      (w : Wishes) (a : ActivityIntent) (roll : ℕ) (center : ℕ × ℕ) (radii : List ℕ)
      (places : List PlaceResult)
      → is_strict_activity_subtype a.subtype ≡ false
      → 0 < length places
      → 0 < length (pool_of fl lower w a roll center radii places)
  unfolding pool_of
  pool_of_some w a roll center radii places lax many =
      let found = suitable fl lower a (nearby fl lower center places radii) in
      let entries = map (scored_at fl lower w a center) found in
      let some_found =
        suitable_some a (nearby fl lower center places radii) lax
          (nearby_some center places radii many) in
      let some_picked =
        build_candidate_pool_some roll entries
          (omega (arith, length-map (scored_at fl lower w a center) found, some_found)) in
      omega (
        arith,
        length-map (λ (e : ScoredEntry). e.place) (build_candidate_pool fl lower roll entries),
        some_picked,
      )
