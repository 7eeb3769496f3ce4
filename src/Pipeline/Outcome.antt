-- ===== src/Pipeline/Outcome.antt =====
-- backend/src/modules/ai/ai.service.ts: what `runPipeline` answers.
use Prim.Native.Nat.{◌%◌}
use ai_planner.Prelude.{
  ℕ, ◌<◌, String, some, List, [], ◌∷◌, ◌≡◌, refl, ap, ◌∙◌, ◌⊎◌, inl, inr, arith, length, ltb,
  Bool-cases, ok, err,
}
use ai_planner.Schema.{bad_request}
use ai_planner.Pipeline.Scoring.{Floats}
use ai_planner.Pipeline.Search.{Searches, search_places, raw_places, is_bare}
use ai_planner.Pipeline.Route.{Geometry}
use ai_planner.Pipeline.Beam.{Scoring}
use ai_planner.Pipeline.Schedule.{Visit, Schedule}
use ai_planner.Pipeline.Clock.{parse_time-format_time, format_time}
use ai_planner.Pipeline.Run.{
  Day, minus, PipelineResult, last_visit, parse_time_to_min, end_time_text, schedule_of, answer_of,
  result_of, run_pipeline,
}

last_visit-some : (vs : List Visit) → 0 < length vs → (v : Visit) × (last_visit vs ≡ some v)
last_visit-some [] h = absurd (omega arith)
last_visit-some (v ∷ []) h = (v, refl)
last_visit-some (v ∷ w ∷ vs) h = last_visit-some (w ∷ vs) (omega arith)

parse_time_to_min-format_time : (m : ℕ) → parse_time_to_min (format_time m) ≡ m % 1440
parse_time_to_min-format_time m = rw (parse_time-format_time m, parse_time_to_min) refl

-- What is answered for a day: there are items, and the total goes by the time at which the last ends.
abbrev pub IsResult : Day → PipelineResult → Type 0
IsResult day r =
    (v : Visit) × (last_visit r.items ≡ some v)
    × (r.total_duration_min ≡ minus (v.end_min % 1440) (parse_time_to_min day.start_time))

result_of-lem :
    (day : Day) (schedule : Schedule)
    → let out = result_of day schedule in
      (out ≡ err bad_request) ⊎ ((r : PipelineResult) × (out ≡ ok r) × IsResult day r)
unfolding result_of
result_of-lem day schedule = elim (Bool-cases (ltb 0 (length schedule.visits))) [
  | inr n ↦ inl (rw (n, result_of) refl)
  | inl y ↦
      let (v, there) = last_visit-some schedule.visits (ground arith) in
      let at_end : end_time_text day schedule.visits ≡ format_time v.end_min =
        rw (there, end_time_text) refl in
      let end : parse_time_to_min (end_time_text day schedule.visits) ≡ v.end_min % 1440 =
        ap parse_time_to_min at_end ∙ parse_time_to_min-format_time v.end_min in
      inr (
        answer_of day schedule,
        rw (y, result_of) refl,
        (v, there, ap (λ m. minus m (parse_time_to_min day.start_time)) end),
      )
]

module _ (fl : Floats) (lower : String → String) (geo : Geometry) (searches : Searches) {S : Type 0}
    (scoring : Scoring S) (rolls : ℕ → ℕ) (roll : ℕ) where
  -- For a day that the first steps made of an input, the pipeline answers 400, or a plan with one item
  -- at least. The number of minutes of the plan is the time of day at which the last item ends, less
  -- the time at which the day starts.
  pub run_pipeline-lem :
      (day : Day)
      → let out = run_pipeline fl lower geo searches scoring rolls roll (ok day) in
        (out ≡ err bad_request) ⊎ ((r : PipelineResult) × (out ≡ ok r) × IsResult day r)
  unfolding run_pipeline search_places
  run_pipeline-lem day =
      let raw =
        raw_places lower searches day.search_location day.wishes.preferences day.activities in
      elim (Bool-cases (is_bare lower searches raw)) [
        | inl y ↦ inl (rw (y, run_pipeline, search_places) refl)
        | inr n ↦
            rw (n, run_pipeline, search_places)
              (result_of-lem day (schedule_of fl lower geo searches scoring rolls roll day raw))
      ]
