-- ===== src/Pipeline/Schedule.antt =====
-- backend/src/modules/ai/steps/generate-schedule.step.ts: `GenerateScheduleStep`. Log lines are left
-- out.
use ai_planner.Prelude.{
  ℕ, zero, suc, ◌+◌, Bool, true, false, String, Option, none, some, List, [], ◌∷◌, ◌++◌, any,
  length, if◌then◌else◌, leb, ltb, not, ◌&&◌, is_some,
}
use ai_planner.Pipeline.Places.{PlaceType, food, cafe, activity, attraction, rest, OrderedPlace}
use ai_planner.Pipeline.Clock.{format_time, round_up_to_ten}

-- `DWELL_MINUTES`
abbrev pub dwell_minutes : PlaceType → ℕ
dwell_minutes food = 90
dwell_minutes cafe = 45
dwell_minutes activity = 90
dwell_minutes attraction = 90
dwell_minutes rest = 30

abbrev pub is_food : PlaceType → Bool
is_food food = true
is_food _ = false

abbrev pub food_gap_min : ℕ
food_gap_min = 240

-- An item of the schedule: its place, from when to when.
pub record Visit : Type 0 where
  pub at : OrderedPlace
  pub start : ℕ
  pub end_min : ℕ

-- The variables of the loop of `buildSchedule`.
pub record Progress : Type 0 where
  pub current_min : ℕ
  -- `lastFoodEndMin`, with `none` for -1
  pub last_food_end : Option ℕ
  -- `items.length > 0`
  pub has_items : Bool

abbrev pub max : ℕ → ℕ → ℕ
max a b = if leb a b then b else a

-- The time at which the place is reached.
unfoldable pub arrival : Progress → OrderedPlace → ℕ
arrival s p =
    let current = round_up_to_ten s.current_min in
    if s.has_items then round_up_to_ten (current + (p.travel_minutes + 10)) else current

-- Food waits for the gap after the last food.
unfoldable pub after_gap : Option ℕ → ℕ → ℕ
after_gap none current = current
after_gap (some last) current =
    if ltb current (last + food_gap_min) then round_up_to_ten (last + food_gap_min) else current

unfoldable pub start_of : Progress → OrderedPlace → ℕ
unfolding arrival after_gap
start_of s p = elim p.place.anchor_minutes [
  | some anchor ↦ max (arrival s p) (round_up_to_ten anchor)
  | none ↦ if is_food p.place.kind then after_gap s.last_food_end (arrival s p) else arrival s p
]

unfoldable pub visit : Progress → OrderedPlace → Visit
unfolding start_of
visit s p = record {
  at = p;
  start = start_of s p;
  end_min = round_up_to_ten (start_of s p + dwell_minutes p.place.kind);
}

unfoldable pub advance : Progress → Visit → Progress
advance s v = record {
  current_min = v.end_min;
  last_food_end = if is_food v.at.place.kind then some v.end_min else s.last_food_end;
  has_items = true;
}

-- The loop of `buildSchedule`.
unfoldable pub visits_from : Progress → List OrderedPlace → List Visit
unfolding visit advance
visits_from s [] = []
visits_from s (p ∷ ps) = visit s p ∷ visits_from (advance s (visit s p)) ps

abbrev pub started : ℕ → Progress
started start_min = record { current_min = start_min; last_food_end = none; has_items = false }

unfoldable pub build_schedule : ℕ → List OrderedPlace → List Visit
unfolding visits_from
build_schedule start_min places = visits_from (started start_min) places

-- `endMin`: where the last visit ends, or the start if there is none.
abbrev pub end_of : ℕ → List Visit → ℕ
end_of current [] = current
end_of current (v ∷ vs) = end_of v.end_min vs

-- `time` of an item
abbrev pub time_text : Visit → String × String
time_text v = (format_time v.start, format_time v.end_min)

-- `findLastDroppableIndex` and the `filter` that drops it: the places without the last one that is
-- not required, or `none` where all are.
unfoldable pub drop_last_optional : List OrderedPlace → Option (List OrderedPlace)
drop_last_optional [] = none
drop_last_optional (p ∷ ps) =
    let rest = drop_last_optional ps in
    elim rest [ some qs ↦ some (p ∷ qs) | none ↦ if p.place.required then none else some ps ]

-- The `while` loop of `execute`, with fuel.
unfoldable pub fit : ℕ → ℕ → ℕ → List OrderedPlace → List OrderedPlace
unfolding drop_last_optional build_schedule
fit zero limit start_min places = places
fit (suc fuel) limit start_min places =
    if leb (end_of start_min (build_schedule start_min places)) limit
    then places
    else elim (drop_last_optional places) [
      | none ↦ places
      | some fewer ↦ fit fuel limit start_min fewer
    ]

pub data Hint : Type 0 where
  -- `durationCapMinutes` and an anchor cannot both be met
  anchor_conflict : ℕ → Hint
  -- the day ends after `endByMinutes`
  end_missed : ℕ → Hint
  -- the day lasts longer than `durationCapMinutes`
  cap_missed : ℕ → Hint

pub record SoftConstraints : Type 0 where
  pub duration_cap_minutes : Option ℕ
  pub end_by_minutes : Option ℕ

-- A place that must be visited, anchored after the limit.
abbrev pub clashes : ℕ → OrderedPlace → Bool
clashes limit p =
    p.place.required && elim p.place.anchor_minutes [ none ↦ false | some a ↦ ltb limit a ]

-- `Math.min` of the targets that are set
abbrev pub earlier : Option ℕ → Option ℕ → Option ℕ
earlier none b = b
earlier (some a) none = some a
earlier (some a) (some b) = some (if leb a b then a else b)

abbrev pub exceeds : ℕ → Option ℕ → Bool
exceeds end_min none = false
exceeds end_min (some limit) = ltb limit end_min

-- `startMin + durationCapMinutes`, unless an anchor clashes with it.
unfoldable pub duration_limit : ℕ → SoftConstraints → List OrderedPlace → Option ℕ
duration_limit start_min c places = elim c.duration_cap_minutes [
  | none ↦ none
  | some cap ↦ if any (clashes (start_min + cap)) places then none else some (start_min + cap)
]

pub record Schedule : Type 0 where
  pub places : List OrderedPlace
  pub visits : List Visit
  pub hints : List Hint

abbrev pub hint_if : Bool → Option ℕ → (ℕ → Hint) → List Hint
hint_if true (some n) h = h n ∷ []
hint_if _ _ h = []

-- The places that are left after the loop, which runs only if there is a time to end by.
unfoldable pub kept_places : ℕ → Option ℕ → List OrderedPlace → List OrderedPlace
unfolding fit
kept_places start_min none places = places
kept_places start_min (some target) places = fit (length places) target start_min places

-- `execute`, from the parsed start time on; the hints are those that it adds.
unfoldable pub execute : ℕ → SoftConstraints → List OrderedPlace → Schedule
unfolding kept_places duration_limit
execute start_min c [] = record { places = []; visits = []; hints = [] }
execute start_min c (p ∷ ps) =
    let limit = duration_limit start_min c (p ∷ ps) in
    let kept = kept_places start_min (earlier c.end_by_minutes limit) (p ∷ ps) in
    let visits = build_schedule start_min kept in
    let end_min = end_of start_min visits in
    record {
      places = kept;
      visits = visits;
      hints =
          hint_if (is_some c.duration_cap_minutes && not (is_some limit)) c.duration_cap_minutes
            anchor_conflict
          ++ hint_if (exceeds end_min c.end_by_minutes) c.end_by_minutes end_missed
          ++ hint_if (exceeds end_min limit) c.duration_cap_minutes cap_missed;
    }
