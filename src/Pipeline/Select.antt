-- ===== src/Pipeline/Select.antt =====
-- backend/src/modules/ai/steps/select-candidates.step.ts: the candidates for each slot of a day. The draw
-- of `randomFn` for a slot enters as an argument.
use ai_planner.Prelude.{
  ℕ, ◌*◌, ◌/◌, Bool, not, String, Option, none, some, List, [], ◌∷◌, ◌++◌, map, any, select, length,
  take, if◌then◌else◌, ltb, str_eq, sort_by, first_of, ◌&&◌, ◌||◌, ◌==◌,
}
use ai_planner.Schema.{Mode}
use ai_planner.Pipeline.Places.{PlaceResult, ActivityIntent}
use ai_planner.Pipeline.Registry.{is_strict_activity_subtype}
use ai_planner.Pipeline.Diversity.{normalize_place_key}
use ai_planner.Pipeline.Scoring.{Floats, Wishes, is_date, whole, full_score, is_typical}

abbrev pub max_candidates_per_slot : ℕ
max_candidates_per_slot = 5

pub record ScoredEntry : Type 0 where
  pub place : PlaceResult
  pub distance : ℕ
  pub score : ℕ

-- The entries picked for the pool, and the keys of their places.
pub record PoolState : Type 0 where
  pub picked : List ScoredEntry
  pub seen : List String

abbrev pub places_at : ℕ → List (ℕ × List PlaceResult) → List PlaceResult
places_at slot [] = []
places_at slot (e ∷ t) = if e.0 == slot then e.1 else places_at slot t

module _ (fl : Floats) (lower : String → String) where
  abbrev pub entry_key : ScoredEntry → String
  entry_key e = normalize_place_key lower e.place.name

  -- `b.score - a.score || a.distance - b.distance` is positive.
  abbrev pub ranks_after : ScoredEntry → ScoredEntry → Bool
  ranks_after a b =
      fl.lt a.score b.score || (not (fl.lt b.score a.score) && fl.lt b.distance a.distance)

  abbrev pub weight_of : ℕ → ScoredEntry → ℕ
  weight_of top e =
      fl.max (fl.lit 5 100)
        (fl.sub (fl.add (whole fl lower 1) e.score) (fl.sub top (fl.lit 35 100)))

  abbrev pub total_weight : ℕ → List ScoredEntry → ℕ → ℕ
  total_weight top [] sum = sum
  total_weight top (e ∷ t) sum = total_weight top t (fl.add sum (weight_of top e))

  -- The loop with the cursor; the last entry if it never comes down to zero.
  abbrev pub draw : ℕ → ℕ → ScoredEntry → List ScoredEntry → ScoredEntry
  draw top cursor last [] = last
  draw top cursor last (e ∷ t) =
      let left = fl.sub cursor (weight_of top e) in
      let later = draw top left e t in if fl.le left (whole fl lower 0) then e else later

  -- The head of the sorted entries, and those of the next three that are close to it.
  abbrev pub top_band : ScoredEntry → List ScoredEntry → List ScoredEntry
  top_band head rest_of =
      select (λ e. fl.le (fl.sub head.score e.score) (fl.lit 35 100)) (take 3 rest_of)

  unfoldable pub pick_from_top_band : ℕ → List ScoredEntry → Option ScoredEntry
  pick_from_top_band roll scored = elim (sort_by ranks_after scored) [
    | [] ↦ none
    | ◌∷◌ head t ↦
        let band = top_band head t in
        if ltb 0 (length band)
        then some (
            draw head.score (fl.mul roll (total_weight head.score (head ∷ band) (whole fl lower 0)))
              head (head ∷ band))
        else some head
  ]

  -- `pushIfNew` of `buildCandidatePool`
  abbrev pub push_entry : ScoredEntry → PoolState → PoolState
  push_entry e s = if any (λ k. str_eq k (entry_key e)) s.seen then s else record {
    picked = s.picked ++ (record e { place = record e.place { score = some e.score } } ∷ []);
    seen = entry_key e ∷ s.seen;
  }

  abbrev pub fill_pool : List ScoredEntry → PoolState → PoolState
  fill_pool [] s = s
  fill_pool (e ∷ t) s =
      let next = fill_pool t (push_entry e s) in
      if ltb (length s.picked) max_candidates_per_slot then next else s

  abbrev pub first_pick : ℕ → List ScoredEntry → Option ScoredEntry
  first_pick roll sorted = elim (pick_from_top_band roll sorted) [
    | none ↦ first_of sorted
    | some e ↦ some e
  ]

  unfoldable pub build_candidate_pool : ℕ → List ScoredEntry → List ScoredEntry
  build_candidate_pool roll scored =
      let sorted = sort_by ranks_after scored in
      let empty : PoolState = record { picked = []; seen = [] } in
      elim (first_pick roll sorted) [
        | none ↦ (fill_pool sorted empty).picked
        | some e ↦ (fill_pool sorted (push_entry e empty)).picked
      ]

  abbrev pub distance_from : ℕ × ℕ → PlaceResult → ℕ
  distance_from center p = fl.haversine center.0 center.1 p.lat p.lng

  -- `estimateSpreadKm`
  abbrev pub bounds : List PlaceResult → (ℕ × ℕ) × (ℕ × ℕ) → (ℕ × ℕ) × (ℕ × ℕ)
  bounds [] b = b
  bounds (p ∷ t) ((low_lat, high_lat), (low_lng, high_lng)) =
      bounds t (
        (fl.min low_lat p.lat, fl.max high_lat p.lat),
        (fl.min low_lng p.lng, fl.max high_lng p.lng),
      )

  abbrev pub estimate_spread_km : List PlaceResult → ℕ
  estimate_spread_km [] = whole fl lower 0
  estimate_spread_km (p ∷ []) = whole fl lower 0
  estimate_spread_km (p ∷ q ∷ t) =
      let ((low_lat, high_lat), (low_lng, high_lng)) =
        bounds (p ∷ q ∷ t) ((p.lat, p.lat), (p.lng, p.lng)) in
      fl.haversine low_lat low_lng high_lat high_lng

  abbrev pub sum_of : (PlaceResult → ℕ) → List PlaceResult → ℕ → ℕ
  sum_of f [] sum = sum
  sum_of f (p ∷ t) sum = sum_of f t (fl.add sum (f p))

  -- The mean of the coordinates
  abbrev pub centroid : List PlaceResult → ℕ × ℕ
  centroid t = (
    fl.div (sum_of (λ p. p.lat) t (whole fl lower 0)) (whole fl lower (length t)),
    fl.div (sum_of (λ p. p.lng) t (whole fl lower 0)) (whole fl lower (length t)),
  )

  -- `Math.max(3, Math.floor(withDist.length * 0.8))`
  abbrev pub kept_count : ℕ → ℕ
  kept_count n = if ltb (n * 8 / 10) 3 then 3 else n * 8 / 10

  -- The places nearest to the mean, four fifths of them
  abbrev pub trimmed : List PlaceResult → List PlaceResult
  trimmed t =
      take (kept_count (length t))
        (sort_by (λ a b. fl.lt (distance_from (centroid t) b) (distance_from (centroid t) a)) t)

  -- `baseCenterLat` and `baseCenterLng`
  unfoldable pub base_center : Mode → ℕ × ℕ → List PlaceResult → ℕ × ℕ
  base_center mode center t =
      if ltb (length t) 3
      then center
      else let mean = centroid (trimmed t) in
        if fl.lt (if is_date mode then whole fl lower 3 else whole fl lower 5)
          (fl.haversine center.0 center.1 mean.0 mean.1)
        then mean
        else center

  abbrev pub radius_steps : Mode → Bool → List ℕ
  radius_steps mode wide = map (whole fl lower) (
      if wide
      then (if is_date mode then 5 ∷ 10 ∷ 20 ∷ [] else 5 ∷ 10 ∷ 20 ∷ 30 ∷ [])
      else if is_date mode
      then 3 ∷ 5 ∷ []
      else 3 ∷ 5 ∷ 10 ∷ [])

  -- The places within the first radius that has any
  abbrev pub within_radius : ℕ × ℕ → List PlaceResult → List ℕ → List PlaceResult
  within_radius center places [] = []
  within_radius center places (radius ∷ radii) =
      let near = select (λ p. fl.le (distance_from center p) radius) places in
      let farther = within_radius center places radii in
      if ltb 0 (length near) then near else farther

  -- `filtered`, before types are looked at: the nearest place if none is within a radius
  unfoldable pub nearby : ℕ × ℕ → List PlaceResult → List ℕ → List PlaceResult
  nearby center places radii =
      let near = within_radius center places radii in
      if ltb 0 (length near)
      then near
      else take 1 (sort_by (λ a b. fl.lt (distance_from center b) (distance_from center a)) places)

  -- The places for an activity, none if it asks for a kind that none of them is of.
  unfoldable pub suitable : ActivityIntent → List PlaceResult → List PlaceResult
  suitable a near =
      let typical = select (is_typical fl lower a) near in
      if ltb 0 (length typical)
      then typical
      else if is_strict_activity_subtype a.subtype
      then []
      else near

  abbrev pub scored_at : Wishes → ActivityIntent → ℕ × ℕ → PlaceResult → ScoredEntry
  scored_at w a center p = record {
    place = p;
    distance = distance_from center p;
    score = full_score fl lower w a p (distance_from center p);
  }

  -- The body of the loop over the activities, up to the pool
  unfoldable pub pool_of :
      Wishes → ActivityIntent → ℕ → ℕ × ℕ → List ℕ → List PlaceResult → List PlaceResult
  unfolding build_candidate_pool nearby suitable
  pool_of w a roll center radii places =
      map (λ e. e.place)
        (build_candidate_pool roll
          (map (scored_at w a center) (suitable a (nearby center places radii))))

  -- `ctx.candidates`, an object with the slots as keys: the activities of a plan have slots of their
  -- own, so that no entry takes the place of another. Where the center moves, it goes on from the place
  -- that was picked.
  unfoldable pub select_from :
      Wishes
      → Bool
      → (ℕ → ℕ)
      → List ℕ
      → List (ℕ × List PlaceResult)
      → ℕ × ℕ
      → List ActivityIntent
      → List (ℕ × List PlaceResult)
  select_from w moves roll radii raw center [] = []
  select_from w moves roll radii raw center (a ∷ rest_of) =
      elim (pool_of w a (roll a.slot_id) center radii (places_at a.slot_id raw)) [
        | [] ↦ select_from w moves roll radii raw center rest_of
        | ◌∷◌ p ps ↦
            (a.slot_id, p ∷ ps)
            ∷ select_from w moves roll radii raw (if moves then (p.lat, p.lng) else center) rest_of
      ]

  abbrev pub all_places : List (ℕ × List PlaceResult) → List PlaceResult
  all_places [] = []
  all_places (e ∷ t) = e.1 ++ all_places t

  unfoldable pub select_candidates :
      Wishes
      → (ℕ → ℕ)
      → ℕ × ℕ
      → List ActivityIntent
      → List (ℕ × List PlaceResult)
      → List (ℕ × List PlaceResult)
  unfolding base_center select_from
  select_candidates w roll center activities raw =
      let wide = fl.lt (whole fl lower 12) (estimate_spread_km (all_places raw)) in
      select_from w (any (λ a. a.order_locked) activities || w.compact_route) roll
        (radius_steps w.mode wide) raw (base_center w.mode center (all_places raw)) activities
