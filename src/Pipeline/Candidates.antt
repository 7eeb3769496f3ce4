-- ===== src/Pipeline/Candidates.antt =====
-- backend/src/modules/ai/steps/select-candidates.step.ts: the candidates of a day.
use mathlib.Core.Path.{subst}
use ai_planner.Prelude.{
  ℕ, ◌<◌, Bool, true, Bool-cases, ltb, map, ◌⊎◌, sym, String, List, [], ◌∷◌, ◌≡◌, refl, inl, inr,
  arith, All, In, length, List-cases, any, ◌||◌, if◌then◌else◌,
}
use ai_planner.Pipeline.Registry.{is_strict_activity_subtype}
use ai_planner.Pipeline.Filling.{pool_of_some}
use ai_planner.Pipeline.Places.{PlaceResult, ActivityIntent}
use ai_planner.Pipeline.Scoring.{Floats, Wishes, whole}
use ai_planner.Pipeline.Select.{
  places_at, pool_of, select_from, select_candidates, base_center, radius_steps, estimate_spread_km,
  all_places,
}
use ai_planner.Pipeline.Pool.{IsFit, IsMeant, pool_of-IsFit}

module _ (fl : Floats) (lower : String → String) (w : Wishes) (roll : ℕ → ℕ)
    (raw : List (ℕ × List PlaceResult)) where
  -- The candidates of a slot are for one of the activities.
  abbrev pub IsAnswer : List ActivityIntent → ℕ × List PlaceResult → Type 0
  IsAnswer activities (slot, ps) =
      (a : ActivityIntent) × In a activities
      × (a.slot_id ≡ slot)
      × (0 < length ps)
      × IsFit fl lower (IsMeant fl lower (places_at slot raw) a) ps

  later-IsAnswer :
      (a : ActivityIntent) (activities : List ActivityIntent) (t : List (ℕ × List PlaceResult))
      → All (IsAnswer activities) t
      → All (IsAnswer (a ∷ activities)) t
  later-IsAnswer a activities [] h = tt
  later-IsAnswer a activities (e ∷ t) ((b, at_b, slot, some_places, fits), h) =
      ((b, inr at_b, slot, some_places, fits), later-IsAnswer a activities t h)

  select_from-IsAnswer :
      (moves : Bool) (radii : List ℕ) (center : ℕ × ℕ) (activities : List ActivityIntent)
      → All (IsAnswer activities) (select_from fl lower w moves roll radii raw center activities)
  unfolding select_from
  select_from-IsAnswer moves radii center [] = tt
  select_from-IsAnswer moves radii center (a ∷ rest_of) =
      let pool = pool_of fl lower w a (roll a.slot_id) center radii (places_at a.slot_id raw) in
      let fits =
        pool_of-IsFit fl lower w a (roll a.slot_id) center radii (places_at a.slot_id raw) in
      elim (List-cases pool) [
        | inl empty ↦
            rw (empty, select_from)
              (later-IsAnswer a rest_of (select_from fl lower w moves roll radii raw center rest_of)
                (select_from-IsAnswer moves radii center rest_of))
        | inr (p, ps, same) ↦
            let next = if moves then (p.lat, p.lng) else center in
            rw (same, select_from)
              (
                (a, inl refl, refl, omega arith, rw same at fits),
                later-IsAnswer a rest_of (select_from fl lower w moves roll radii raw next rest_of)
                    (select_from-IsAnswer moves radii next rest_of),
              )
      ]

  -- An activity whose slot has places gets candidates, unless it insists on its kind.
  abbrev pub IsServed : List (ℕ × List PlaceResult) → ActivityIntent → Type 0
  IsServed answers a =
      (length (places_at a.slot_id raw) ≡ 0)
      ⊎ (is_strict_activity_subtype a.subtype ≡ true)
      ⊎ In a.slot_id (map (λ e. e.0) answers)

  later-IsServed :
      (e : ℕ × List PlaceResult) (t : List (ℕ × List PlaceResult))
      (activities : List ActivityIntent)
      → All (IsServed t) activities
      → All (IsServed (e ∷ t)) activities
  later-IsServed e t [] h = tt
  later-IsServed e t (a ∷ rest_of) (inl bare, h) = (inl bare, later-IsServed e t rest_of h)
  later-IsServed e t (a ∷ rest_of) (inr (inl strict), h) =
      (inr (inl strict), later-IsServed e t rest_of h)
  later-IsServed e t (a ∷ rest_of) (inr (inr at_a), h) =
      (inr (inr (inr at_a)), later-IsServed e t rest_of h)

  unserved-IsServed :
      (a : ActivityIntent) (radii : List ℕ) (center : ℕ × ℕ) (t : List (ℕ × List PlaceResult))
      → pool_of fl lower w a (roll a.slot_id) center radii (places_at a.slot_id raw) ≡ []
      → IsServed t a
  unserved-IsServed a radii center t empty =
      let places = places_at a.slot_id raw in
      elim (Bool-cases (is_strict_activity_subtype a.subtype)) [
        | inl strict ↦ inr (inl strict)
        | inr lax ↦ elim (Bool-cases (ltb 0 (length places))) [
          | inl many ↦
              let picks =
                pool_of_some fl lower w a (roll a.slot_id) center radii places lax
                  (ground (arith, many)) in
              let impossible = rw empty at picks in ground (arith, impossible)
          | inr bare ↦ inl (ground (arith, bare))
        ]
      ]

  select_from-IsServed :
      (moves : Bool) (radii : List ℕ) (center : ℕ × ℕ) (activities : List ActivityIntent)
      → All (IsServed (select_from fl lower w moves roll radii raw center activities)) activities
  unfolding select_from
  select_from-IsServed moves radii center [] = tt
  select_from-IsServed moves radii center (a ∷ rest_of) =
      elim (List-cases
        (pool_of fl lower w a (roll a.slot_id) center radii (places_at a.slot_id raw))) [
          | inl empty ↦
              let answers = select_from fl lower w moves roll radii raw center rest_of in
              let skipped : select_from fl lower w moves roll radii raw center (a ∷ rest_of)
                  ≡ answers =
                rw (empty, select_from) refl in
              subst (λ t. All (IsServed t) (a ∷ rest_of)) (sym skipped)
                (
                  unserved-IsServed a radii center answers empty,
                  select_from-IsServed moves radii center rest_of,
                )
          | inr (p, ps, same) ↦
              let next = if moves then (p.lat, p.lng) else center in
              let answers = select_from fl lower w moves roll radii raw next rest_of in
              let added : select_from fl lower w moves roll radii raw center (a ∷ rest_of)
                  ≡ (a.slot_id, p ∷ ps) ∷ answers =
                rw (same, select_from) refl in
              subst (λ t. All (IsServed t) (a ∷ rest_of)) (sym added)
                (
                  inr (inr (inl refl)),
                  later-IsServed (a.slot_id, p ∷ ps) answers rest_of
                      (select_from-IsServed moves radii next rest_of),
                )
        ]

  -- Each activity whose slot has places gets candidates, unless it insists on its kind. Each slot that
  -- gets candidates is of one of the activities, and gets 1 to 5, of distinct keys. Each is one of the
  -- places found for the slot, with a score put to it, and if the activity insists on its kind, it is
  -- of that kind.
  pub select_candidates-IsAnswer :
      (center : ℕ × ℕ) (activities : List ActivityIntent)
      → let answers = select_candidates fl lower w roll center activities raw in
        All (IsServed answers) activities × All (IsAnswer activities) answers
  unfolding select_candidates
  select_candidates-IsAnswer center activities =
      let moves = any (λ a. a.order_locked) activities || w.compact_route in
      let radii =
        radius_steps fl lower w.mode
          (fl.lt (whole fl lower 12) (estimate_spread_km fl lower (all_places fl lower raw))) in
      let start = base_center fl lower w.mode center (all_places fl lower raw) in
      (
        select_from-IsServed moves radii start activities,
        select_from-IsAnswer moves radii start activities,
      )
