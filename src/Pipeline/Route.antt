-- ===== src/Pipeline/Route.antt =====
-- backend/src/modules/ai/steps/optimize-route.step.ts: the order of a day's places. A distance is a
-- float that is not negative, or infinite, as its bit pattern, so that `<` on floats is `<` here.
-- What floats compute enters as `Geometry`: `distance` (haversine, which the memo leaves a function
-- of the coordinates), the sum of two floats, and the minutes of a walk.
use mathlib.Core.List
use ai_planner.Prelude.{
  take, drop, ℕ, zero, suc, ◌+◌, ◌-◌, Bool, true, false, Option, none, some, List, [], ◌∷◌, ◌++◌,
  map, length, if◌then◌else◌, ltb,
}
use ai_planner.Pipeline.Places.{RoutePlace, OrderedPlace}

pub record Geometry : Type 0 where
  -- lat1, lng1, lat2, lng2
  pub distance : ℕ → ℕ → ℕ → ℕ → ℕ
  pub add : ℕ → ℕ → ℕ
  pub infinity : ℕ
  -- `roundUpToTen(Math.ceil((d / 5) * 60))`
  pub walk_minutes : ℕ → ℕ

module _ {A : Type 0} where
  abbrev pub splice : ℕ → List A → Option (A × List A)
  splice i [] = none
  splice zero (x ∷ xs) = some (x, xs)
  splice (suc i) (x ∷ xs) = elim (splice i xs) [ none ↦ none | some t ↦ some (t.0, x ∷ t.1) ]

  unfoldable pub two_opt_swap : List A → ℕ → ℕ → List A
  two_opt_swap route i k =
      take i route ++ (List.reverse (take (suc k - i) (drop i route)) ++ drop (suc k) route)

module _ (geo : Geometry) where
  abbrev pub distance_to : ℕ → ℕ → RoutePlace → ℕ
  distance_to lat lng p = geo.distance lat lng p.lat p.lng

  -- The loop for `minDist` and `minIdx`, from the index `i` on.
  unfoldable pub nearest : ℕ → ℕ → ℕ → ℕ × ℕ → List RoutePlace → ℕ × ℕ
  nearest lat lng i best [] = best
  nearest lat lng i best (p ∷ ps) =
      nearest lat lng (suc i)
        (if ltb (distance_to lat lng p) best.0 then (distance_to lat lng p, i) else best) ps

  abbrev pub ordered_at : ℕ → ℕ → RoutePlace → OrderedPlace
  ordered_at count d p = record {
    place = p;
    order = count + 1;
    distance_from_prev = d;
    travel_minutes = geo.walk_minutes d;
  }

  -- The `while` of `nearestNeighbor`, with fuel; `count` is `ordered.length`.
  unfoldable pub neighbors_from : ℕ → ℕ → ℕ → ℕ → List RoutePlace → List OrderedPlace
  unfolding nearest
  neighbors_from zero lat lng count unvisited = []
  neighbors_from (suc fuel) lat lng count unvisited =
      let closest = nearest lat lng 0 (geo.infinity, 0) unvisited in
      elim (splice closest.1 unvisited) [
        | none ↦ []
        | some t ↦
            ordered_at count closest.0 t.0 ∷ neighbors_from fuel t.0.lat t.0.lng (suc count) t.1
      ]

  unfoldable pub nearest_neighbor : List RoutePlace → ℕ → ℕ → List OrderedPlace
  unfolding neighbors_from
  nearest_neighbor places lat lng = neighbors_from (length places) lat lng 0 places

  -- `makeOrdered`, from the place at the index `count` on.
  unfoldable pub ordered_from : ℕ → ℕ → ℕ → List RoutePlace → List OrderedPlace
  ordered_from count lat lng [] = []
  ordered_from count lat lng (p ∷ ps) =
      ordered_at count (distance_to lat lng p) p ∷ ordered_from (suc count) p.lat p.lng ps

  abbrev pub make_ordered : List RoutePlace → ℕ → ℕ → List OrderedPlace
  make_ordered places lat lng = ordered_from 0 lat lng places

  -- The loop of `totalDistance`, after the place `p`.
  unfoldable pub legs : ℕ → RoutePlace → List OrderedPlace → ℕ
  legs sum p [] = sum
  legs sum p (q ∷ qs) = legs (geo.add sum (distance_to p.lat p.lng q.place)) q.place qs

  unfoldable pub total_distance : ℕ → ℕ → List OrderedPlace → ℕ
  unfolding legs
  total_distance lat lng [] = 0
  total_distance lat lng (p ∷ ps) = legs (distance_to lat lng p.place) p.place ps

-- The pairs (i, k) of the two `for` loops, for k from `k` on, `n` of them, and for each i.
abbrev pub pairs_at : ℕ → ℕ → ℕ → List (ℕ × ℕ)
pairs_at i k zero = []
pairs_at i k (suc n) = (i, k) ∷ pairs_at i (suc k) n

abbrev pub pairs_from : ℕ → ℕ → List (ℕ × ℕ)
pairs_from i zero = []
pairs_from i (suc n) = pairs_at i (suc i) n ++ pairs_from (suc i) n

-- `best`, `bestDistance` and `improved` of `twoOpt`
pub record Search : Type 0 where
  pub best : List OrderedPlace
  pub best_distance : ℕ
  pub improved : Bool

module _ (geo : Geometry) (lat lng : ℕ) where
  -- The body of the two loops.
  unfoldable pub try_swap : Search → ℕ × ℕ → Search
  unfolding total_distance
  try_swap s pair =
      let route = two_opt_swap s.best pair.0 pair.1 in
      let shorter = total_distance geo lat lng route in
      if ltb shorter s.best_distance
      then record { best = route; best_distance = shorter; improved = true }
      else s

  unfoldable pub sweep : List (ℕ × ℕ) → Search → Search
  sweep [] s = s
  sweep (pair ∷ pairs) s = sweep pairs (try_swap s pair)

  abbrev pub pass : Search → Search
  pass s = sweep (pairs_from 0 (length s.best)) (record s { improved = false })

  -- The `while` of `twoOpt`, with fuel.
  unfoldable pub improve : ℕ → Search → Search
  improve zero s = s
  improve (suc fuel) s =
      let after = pass s in let more = improve fuel after in if after.improved then more else after

  abbrev pub started : List OrderedPlace → Search
  started places = record {
    best = places;
    best_distance = total_distance geo lat lng places;
    improved = true;
  }

  -- The fuel is one more than the distance at the start, which each pass that goes on makes less.
  unfoldable pub two_opt : List OrderedPlace → List OrderedPlace
  unfolding improve total_distance
  two_opt places =
      if ltb (length places) 3
      then places
      else make_ordered geo
          (map (λ p. p.place)
            (improve (suc (total_distance geo lat lng places)) (started places)).best)
          lat lng

  unfoldable pub optimize_sequence : List RoutePlace → List OrderedPlace
  unfolding two_opt nearest_neighbor
  optimize_sequence places = two_opt (nearest_neighbor geo places lat lng)
