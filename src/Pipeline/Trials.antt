-- ===== src/Pipeline/Trials.antt =====
-- backend/src/modules/ai: the search, the choice and the whole pipeline, on small inputs.

use mathlib.Core.List.Permᴰ
use ai_planner.Prelude.{
  ℕ, ◌+◌, ◌-◌, ◌*◌, ◌/◌, ◌≤◌, true, false, String, some, none, List, [], ◌∷◌, ◌≡◌, ◌⊎◌, refl, All,
  In, AreApart, length, ltb, leb, ok, err, if◌then◌else◌,
}
use ai_planner.Schema.{Mode, bad_request}
use ai_planner.Pipeline.Places.{
  PlaceResult, ActivityIntent, RoutePlace, food, activity, movie, naver, PlaceType,
}
use ai_planner.Pipeline.Registry.{resolve_activity_subtype, matches_activity_place}
use ai_planner.Pipeline.Diversity.{create_empty_diversity_history}
use ai_planner.Pipeline.Scoring.{Floats, Wishes}
use ai_planner.Pipeline.Search.{Searches, merge_sources, merge_from, place_key}
use ai_planner.Pipeline.Merging.{has_key, merge_sources-lem}
use ai_planner.Pipeline.Select.{select_candidates}
use ai_planner.Pipeline.Candidates.{IsAnswer, IsServed, select_candidates-IsAnswer}
use ai_planner.Pipeline.Route.{Geometry}
use ai_planner.Pipeline.Beam.{Scoring}
use ai_planner.Pipeline.Ranking.{groups_of, optimize_route}
use ai_planner.Pipeline.Winning.{Chooses, Visits, optimize_route-Visits}
use ai_planner.Pipeline.Run.{Day, PipelineResult, run_pipeline}
use ai_planner.Pipeline.Outcome.{IsResult, run_pipeline-lem}

-- Numbers in hundredths, where a difference stops at 0.
abbrev hundredths : Floats
hundredths = record {
  lit = λ m d. m * 100 / d;
  add = λ a b. a + b;
  sub = λ a b. a - b;
  mul = λ a b. a * b / 100;
  div = λ a b. a * 100 / b;
  max = λ a b. if leb a b then b else a;
  min = λ a b. if leb a b then a else b;
  lt = ltb;
  le = leb;
  haversine = λ a b c d. (a - c) + (c - a);
}

abbrev as_it_is : String → String
as_it_is s = s

abbrev cinema : PlaceResult
cinema = record {
  name = "메가박스 홍대";
  lat = 100;
  lng = 0;
  category = "영화관";
  address = "";
  link = none;
  source = some naver;
  score = none;
}

abbrev gym : PlaceResult
gym = record cinema { name = "영화 복싱"; category = "복싱" }

abbrev diner : PlaceResult
diner = record cinema { name = "국수 집"; category = "국수"; lat = 120 }

abbrev same_diner : PlaceResult
same_diner = record diner { name = "국수집" }

movies_known : resolve_activity_subtype as_it_is "심야 영화관" ≡ some movie
unfolding resolve_activity_subtype
movies_known = refl

boxing_rejected : matches_activity_place as_it_is gym (some movie) ≡ false
unfolding matches_activity_place
boxing_rejected = refl

merge_sources-lem_example :
    let merged = merge_sources as_it_is (diner ∷ cinema ∷ []) (same_diner ∷ gym ∷ []) in
    AreApart (place_key as_it_is) merged
    × (length merged ≤ 20)
    × All (λ p. In p (diner ∷ cinema ∷ same_diner ∷ gym ∷ [])) merged
    × ((length merged ≡ 20)
        ⊎ All
            (λ p. has_key as_it_is (place_key as_it_is p) merged ≡ true)
            (diner ∷ cinema ∷ same_diner ∷ gym ∷ []))
merge_sources-lem_example = merge_sources-lem as_it_is (diner ∷ cinema ∷ []) (same_diner ∷ gym ∷ [])

one_diner : merge_sources as_it_is (diner ∷ cinema ∷ []) (same_diner ∷ []) ≡ diner ∷ cinema ∷ []
unfolding merge_sources merge_from
one_diner = refl

abbrev film : ActivityIntent
film = record {
  slot_id = 1;
  kind = activity;
  naver_query = "홍대 영화";
  slot_query = some "영화";
  subtype = some movie;
  anchor_minutes = none;
  order_locked = true;
  required = false;
}

abbrev supper : ActivityIntent
supper = record film {
  slot_id = 2;
  kind = food;
  naver_query = "홍대 맛집";
  slot_query = some "맛집";
  subtype = none;
}

abbrev wishes : Wishes
wishes = record {
  mode = Mode.date;
  preferences = "국수" ∷ [];
  chain_penalty = false;
  compact_route = false;
  history = create_empty_diversity_history;
}

abbrev raw : List (ℕ × List PlaceResult)
raw = (1, cinema ∷ gym ∷ []) ∷ (2, diner ∷ same_diner ∷ []) ∷ []

select_candidates-IsAnswer_example :
    let answers =
      select_candidates hundredths as_it_is wishes (λ slot. 50) (100, 0) (film ∷ supper ∷ []) raw in
    All (IsServed hundredths as_it_is wishes (λ slot. 50) raw answers) (film ∷ supper ∷ [])
    × All (IsAnswer hundredths as_it_is wishes (λ slot. 50) raw (film ∷ supper ∷ [])) answers
select_candidates-IsAnswer_example =
    select_candidates-IsAnswer hundredths as_it_is wishes (λ slot. 50) raw (100, 0)
      (film ∷ supper ∷ [])

abbrev line : Geometry
line = record {
  distance = λ a b c d. (a - c) + (c - a);
  add = λ a b. a + b;
  infinity = 1000000;
  walk_minutes = λ d. d;
}

abbrev alike : Scoring ℕ
alike = record {
  no_score = 0;
  extend = λ s before p duplicate. s;
  place_key = λ name. name;
  sort = λ beams. beams;
  sort-Perm = λ beams. Permᴰ.refl beams;
}

abbrev chosen : List (ℕ × List PlaceResult)
chosen = (1, cinema ∷ gym ∷ []) ∷ (2, diner ∷ []) ∷ []

optimize_route-Visits_example :
    (sequence : List RoutePlace) × Chooses hundredths as_it_is line
      (100, 0)
      chosen
      (film ∷ supper ∷ [])
      sequence
    × Visits hundredths as_it_is line
        (100, 0)
        true
        sequence
        (optimize_route hundredths as_it_is line
          (100, 0)
          alike
          Mode.date
          true
          50
          (groups_of chosen (film ∷ supper ∷ [])))
optimize_route-Visits_example =
    optimize_route-Visits hundredths as_it_is line (100, 0) alike Mode.date true 50 chosen
      (film ∷ supper ∷ [])

-- What is searched for finds films for a film, and food for the rest.
abbrev searches : Searches
searches = record {
  search_nearby =
      λ query kind display. elim kind [ PlaceType.activity ↦ cinema ∷ [] | _ ↦ diner ∷ [] ];
  search_nearby_kakao = λ query display. [];
}

abbrev late : Day
late = record {
  search_location = "홍대";
  center = (100, 0);
  activities = film ∷ supper ∷ [];
  start_time = "22:00";
  end_time = "24:00";
  wishes = wishes;
  constraints = record { duration_cap_minutes = none; end_by_minutes = none };
}

run_pipeline-lem_example :
    let out = run_pipeline hundredths as_it_is line searches alike (λ slot. 50) 50 (ok late) in
    (out ≡ err bad_request) ⊎ ((r : PipelineResult) × (out ≡ ok r) × IsResult late r)
run_pipeline-lem_example =
    run_pipeline-lem hundredths as_it_is line searches alike (λ slot. 50) 50 late
