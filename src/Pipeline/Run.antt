-- ===== src/Pipeline/Run.antt =====
-- backend/src/modules/ai/ai.service.ts: `runPipeline`, the steps one after the other. What the first two
-- steps make of the input, with calls of language models, is an argument: what they leave in the
-- context, or how they fail. The texts of the summary and of log lines are left out.
use ai_planner.Prelude.{
  ℕ, suc, ◌-◌, String, Option, none, some, List, [], ◌∷◌, map, any, length, ltb, leb, if◌then◌else◌,
  Result, ok, err,
}
use ai_planner.Schema.{HttpError, bad_request, internal}
use ai_planner.Pipeline.Places.{PlaceResult, ActivityIntent}
use ai_planner.Pipeline.Scoring.{Floats, Wishes}
use ai_planner.Pipeline.Search.{Searches, search_places}
use ai_planner.Pipeline.Select.{select_candidates}
use ai_planner.Pipeline.Route.{Geometry}
use ai_planner.Pipeline.Beam.{Scoring}
use ai_planner.Pipeline.Ranking.{groups_of, optimize_route}
use ai_planner.Pipeline.Schedule.{SoftConstraints, Schedule, Visit, execute}
use ai_planner.Pipeline.Clock.{format_time, parse_time}

-- A number of minutes, which can be negative.
pub data ℤ : Type 0 where
  pos negsuc : ℕ → ℤ

abbrev pub minus : ℕ → ℕ → ℤ
minus a b = if leb b a then pos (a - b) else negsuc (b - suc a)

-- What the first two steps leave in the context.
pub record Day : Type 0 where
  pub search_location : String
  pub center : ℕ × ℕ
  pub activities : List ActivityIntent
  pub start_time : String
  pub end_time : String
  pub wishes : Wishes
  pub constraints : SoftConstraints

-- What is thrown: an exception of Nest, or any other error.
pub data Failure : Type 0 where
  http : HttpError → Failure
  other : Failure

pub record PipelineResult : Type 0 where
  pub items : List Visit
  pub polyline : List (ℕ × ℕ)
  pub total_duration_min : ℤ

-- The `catch`: of the exceptions of Nest, two classes go on as they are.
abbrev pub failure_of : Failure → HttpError
failure_of (http bad_request) = bad_request
failure_of _ = internal

abbrev pub last_visit : List Visit → Option Visit
last_visit [] = none
last_visit (v ∷ []) = some v
last_visit (v ∷ w ∷ vs) = last_visit (w ∷ vs)

-- `parseTimeToMin`; a text that is no time, for which the code computes NaN, gives 0.
abbrev pub parse_time_to_min : String → ℕ
parse_time_to_min text = elim (parse_time text) [ none ↦ 0 | some m ↦ m ]

-- The second half of the last item's `time`, its end
abbrev pub end_time_text : Day → List Visit → String
end_time_text day visits = elim (last_visit visits) [
  | none ↦ day.end_time
  | some v ↦ format_time v.end_min
]

abbrev pub answer_of : Day → Schedule → PipelineResult
answer_of day schedule = record {
  items = schedule.visits;
  polyline = map (λ p. (p.place.lat, p.place.lng)) schedule.places;
  total_duration_min =
      minus (parse_time_to_min (end_time_text day schedule.visits))
        (parse_time_to_min day.start_time);
}

unfoldable pub result_of : Day → Schedule → Result HttpError PipelineResult
result_of day schedule =
    if ltb 0 (length schedule.visits) then ok (answer_of day schedule) else err bad_request

module _ (fl : Floats) (lower : String → String) (geo : Geometry) (searches : Searches) {S : Type 0}
    (scoring : Scoring S) (rolls : ℕ → ℕ) (roll : ℕ) where
  -- The four steps that are modelled, on what was found.
  abbrev pub schedule_of : Day → List (ℕ × List PlaceResult) → Schedule
  schedule_of day raw =
      let candidates = select_candidates fl lower day.wishes rolls day.center day.activities raw in
      let locked = any (λ a. a.order_locked) day.activities in
      execute (parse_time_to_min day.start_time) day.constraints (
        optimize_route fl lower geo day.center scoring day.wishes.mode locked roll
          (groups_of candidates day.activities))

  unfoldable pub run_pipeline : Result Failure Day → Result HttpError PipelineResult
  unfolding result_of
  run_pipeline (err failure) = err (failure_of failure)
  run_pipeline (ok day) =
      elim (search_places lower searches day.search_location day.wishes.preferences
        day.activities) [
          | err e ↦ err (failure_of (http e))
          | ok raw ↦ result_of day (schedule_of day raw)
        ]
