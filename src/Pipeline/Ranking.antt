-- ===== src/Pipeline/Ranking.antt =====
-- backend/src/modules/ai/steps/optimize-route.step.ts: `execute`, which ranks the routes of all
-- combinations and draws one of the best. Scores are floats; the draw of `randomFn` is an argument.
use ai_planner.Prelude.{
  ℕ, suc, ◌*◌, Bool, not, String, Option, none, some, List, [], ◌∷◌, map, any, select, length, take,
  drop, if◌then◌else◌, str_eq, ltb, sort_by, ◌&&◌, ◌||◌, ◌++◌,
}
use ai_planner.Schema.{Mode}
use ai_planner.Pipeline.Places.{RoutePlace, OrderedPlace, PlaceResult, ActivityIntent}
use ai_planner.Pipeline.Diversity.{normalize_place_key}
use ai_planner.Pipeline.Scoring.{Floats, is_date, whole}
use ai_planner.Pipeline.Select.{places_at}
use ai_planner.Pipeline.Route.{Geometry, make_ordered, optimize_sequence, total_distance}
use ai_planner.Pipeline.Beam.{CandidateGroup, Scoring, build_candidate_combinations}

pub record EvaluatedRoute : Type 0 where
  pub route : List OrderedPlace
  pub distance : ℕ
  pub final_score : ℕ

abbrev pub route_place : ActivityIntent → PlaceResult → RoutePlace
route_place a p = record {
  slot_id = a.slot_id;
  name = p.name;
  lat = p.lat;
  lng = p.lng;
  kind = a.kind;
  address = p.address;
  link = p.link;
  source = p.source;
  score = p.score;
  anchor_minutes = a.anchor_minutes;
  required = a.required;
}

abbrev pub group_of : List (ℕ × List PlaceResult) → ActivityIntent → CandidateGroup
group_of candidates a = record {
  slot_id = a.slot_id;
  places = map (route_place a) (places_at a.slot_id candidates);
}

-- `groups`: of the activities that have candidates
abbrev pub groups_of : List (ℕ × List PlaceResult) → List ActivityIntent → List CandidateGroup
groups_of candidates activities =
    select (λ g. ltb 0 (length g.places)) (map (group_of candidates) activities)

module _ (fl : Floats) (lower : String → String) (geo : Geometry) (center : ℕ × ℕ) where
  abbrev pub zero_score : ℕ
  zero_score = whole fl lower 0

  abbrev pub count_duplicates : List String → List RoutePlace → ℕ
  count_duplicates seen [] = 0
  count_duplicates seen (p ∷ ps) =
      let key = normalize_place_key lower p.name in
      let more = count_duplicates seen ps in
      let fresh = count_duplicates (key ∷ seen) ps in
      if any (λ k. str_eq k key) seen then suc more else fresh

  -- `DUPLICATE_PLACE_PENALTY` for each
  abbrev pub duplicate_place_penalty : List RoutePlace → ℕ
  duplicate_place_penalty ps = whole fl lower (count_duplicates [] ps * 4)

  abbrev pub or_zero_score : Option ℕ → ℕ
  or_zero_score none = zero_score
  or_zero_score (some s) = s

  abbrev pub candidate_score : List RoutePlace → ℕ → ℕ
  candidate_score [] sum = sum
  candidate_score (p ∷ ps) sum = candidate_score ps (fl.add sum (or_zero_score p.score))

  -- The route that a combination is evaluated with
  abbrev pub route_of : Bool → List RoutePlace → List OrderedPlace
  route_of locked sequence =
      if locked
      then make_ordered geo sequence center.0 center.1
      else optimize_sequence geo center.0 center.1 sequence

  abbrev pub penalty_divisor : Mode → ℕ
  penalty_divisor mode = if is_date mode then fl.lit 25 10 else whole fl lower 4

  abbrev pub evaluate : Mode → Bool → List RoutePlace → EvaluatedRoute
  evaluate mode locked sequence =
      let route = route_of locked sequence in
      let distance = total_distance geo center.0 center.1 route in
      record {
        route = route;
        distance = distance;
        final_score =
            fl.sub (fl.sub (candidate_score sequence zero_score) (duplicate_place_penalty sequence))
              (fl.div distance (penalty_divisor mode));
      }

  -- `b.finalScore - a.finalScore || a.distance - b.distance` is positive.
  abbrev pub is_worse : EvaluatedRoute → EvaluatedRoute → Bool
  is_worse a b =
      fl.lt a.final_score b.final_score
      || (not (fl.lt b.final_score a.final_score) && fl.lt b.distance a.distance)

  abbrev pub route_weight : ℕ → EvaluatedRoute → ℕ
  route_weight best e =
      fl.max (fl.lit 5 100)
        (fl.sub (fl.add (whole fl lower 1) e.final_score) (fl.sub best (fl.lit 75 100)))

  abbrev pub route_weights : ℕ → List EvaluatedRoute → ℕ → ℕ
  route_weights best [] sum = sum
  route_weights best (e ∷ t) sum = route_weights best t (fl.add sum (route_weight best e))

  abbrev pub draw_route : ℕ → ℕ → EvaluatedRoute → List EvaluatedRoute → EvaluatedRoute
  draw_route best cursor last [] = last
  draw_route best cursor last (e ∷ t) =
      let left = fl.sub cursor (route_weight best e) in
      let later = draw_route best left e t in if fl.le left zero_score then e else later

  -- `top`: the first five, and the later ones that are close to the best
  abbrev pub top_routes : ℕ → List EvaluatedRoute → List EvaluatedRoute
  top_routes best ranked =
      take 5 ranked
      ++ select (λ e. fl.le (fl.sub best e.final_score) (fl.lit 75 100)) (drop 5 ranked)

  unfoldable pub pick_weighted_top_route : List EvaluatedRoute → ℕ → EvaluatedRoute
  pick_weighted_top_route [] roll = record {
    route = [];
    distance = zero_score;
    final_score = zero_score;
  }
  pick_weighted_top_route (head ∷ []) roll = head
  pick_weighted_top_route (head ∷ e ∷ t) roll =
      let best = head.final_score in
      let top = top_routes best (head ∷ e ∷ t) in
      draw_route best (fl.mul roll (route_weights best top zero_score)) head top

  abbrev pub ranked_routes : Mode → Bool → List (List RoutePlace) → List EvaluatedRoute
  ranked_routes mode locked combinations =
      sort_by is_worse (map (evaluate mode locked) combinations)

  -- `ctx.orderedPlaces`
  unfoldable pub optimize_route :
      {S : Type 0} → Scoring S → Mode → Bool → ℕ → List CandidateGroup → List OrderedPlace
  optimize_route scoring mode locked roll groups =
      (pick_weighted_top_route
        (ranked_routes mode locked (build_candidate_combinations scoring groups)) roll).route
