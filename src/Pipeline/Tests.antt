-- ===== src/Pipeline/Tests.antt =====
-- backend/src/modules/ai/steps/generate-schedule.step.ts: days that the schedule step makes, and the theorems on them at concrete inputs.
use Prim.Native.Nat.{◌%◌}
use mathlib.Core.List.{Permᴰ}
use mathlib.Core.List.Permᴰ
use ai_planner.Prelude.{
  ℕ, suc, ◌+◌, ◌-◌, ◌*◌, ◌≤◌, ◌<◌, ◌≡◌, refl, true, false, some, none, [], ◌∷◌, List, select, map,
  arith,
}
use ai_planner.Pipeline.Places.{OrderedPlace, RoutePlace, food, attraction}
use ai_planner.Pipeline.Clock.{round_up_to_ten, format_time, parse_time, parse_time-format_time}
use ai_planner.Pipeline.Schedule.{
  SoftConstraints, Visit, duration_limit, build_schedule, execute, end_of, fit, time_text,
}
use ai_planner.Pipeline.Spacing.{AreTimely, build_schedule-AreTimely}
use ai_planner.Pipeline.Fitting.{Fits, fit-Fits, target_of, execute-required, is_required}
use ai_planner.Pipeline.Route.{Geometry, improve, started as begun, total_distance}
use ai_planner.Pipeline.Beam.{CandidateGroup, Scoring}
use ai_planner.Pipeline.Improving.{IsOptimal, improve-settles}

abbrev palace : OrderedPlace
palace = record {
  place = record {
    slot_id = 1;
    name = "palace";
    lat = 0;
    lng = 0;
    kind = attraction;
    address = "";
    link = none;
    source = none;
    score = none;
    anchor_minutes = none;
    required = true;
  };
  order = 1;
  distance_from_prev = 0;
  travel_minutes = 0;
}

abbrev noodles : OrderedPlace
noodles = record palace {
  place = record palace.place { slot_id = 2; name = "noodles"; kind = food; required = false };
  order = 2;
  travel_minutes = 12;
}

abbrev grill : OrderedPlace
grill = record noodles { place = record noodles.place { slot_id = 3; name = "grill" }; order = 3 }

abbrev day : List OrderedPlace
day = palace ∷ noodles ∷ grill ∷ []

abbrev until_two : SoftConstraints
until_two = record { duration_cap_minutes = none; end_by_minutes = some 840 }

-- The palace from ten, twelve minutes of way and ten more, and the grill four hours after the noodles.
day_times :
    map time_text (build_schedule 600 day)
    ≡ (("10:00", "11:30") ∷ ("12:00", "13:30") ∷ ("17:30", "19:00") ∷ [])
unfolding build_schedule format_time round_up_to_ten
day_times = refl

-- With the day to end at two, the grill is dropped.
dropped_times :
    map time_text (execute 600 until_two day).visits
    ≡ (("10:00", "11:30") ∷ ("12:00", "13:30") ∷ [])
unfolding execute format_time round_up_to_ten
dropped_times = refl

parse_time-format_time_example : parse_time (format_time 1505) ≡ some (1505 % 1440)
parse_time-format_time_example = parse_time-format_time 1505

build_schedule-AreTimely_example :
    AreTimely none none (build_schedule 600 day)
    × (map (λ (v : Visit). v.at) (build_schedule 600 day) ≡ day)
build_schedule-AreTimely_example = build_schedule-AreTimely 600 day

fit-Fits_example : Fits 840 600 day (fit 3 840 600 day)
fit-Fits_example = fit-Fits 3 840 600 day (omega arith)

execute-required_example :
    let schedule = execute 600 until_two day in
    let visited = map (λ (v : Visit). v.at) schedule.visits in
    (select is_required visited ≡ select is_required day) × (visited ≡ schedule.places)
execute-required_example = execute-required 600 until_two day

-- A day that cannot end by eleven.
abbrev until_eleven : SoftConstraints
until_eleven = record { duration_cap_minutes = none; end_by_minutes = some 660 }

late : 660 < end_of 600 (execute 600 until_eleven day).visits
unfolding execute round_up_to_ten
late = omega arith

target : target_of 600 until_eleven day ≡ some 660
unfolding duration_limit
target = refl

-- Places on a line, at their `lat`, with the difference as the distance.
abbrev line : Geometry
line = record {
  distance = λ a b c d. (a - c) + (c - a);
  add = λ a b. a + b;
  infinity = 1000000;
  walk_minutes = λ d. 12 * d;
}

abbrev at_lat : ℕ → RoutePlace
at_lat lat = record palace.place { lat = lat }

abbrev spots : List RoutePlace
spots = at_lat 5 ∷ at_lat 1 ∷ at_lat 3 ∷ []

abbrev zigzag : List OrderedPlace
zigzag =
    record palace { place = at_lat 5 }
    ∷ record palace { place = at_lat 1 }
    ∷ record palace { place = at_lat 3 }
    ∷ []

improve-settles_example :
    let after = improve line 0 0 (suc (total_distance line 0 0 zigzag)) (begun line 0 0 zigzag) in
    (after.improved ≡ false)
    × Permᴰ after.best zigzag
    × (total_distance line 0 0 after.best ≤ total_distance line 0 0 zigzag)
    × IsOptimal line 0 0 after.best
improve-settles_example = improve-settles line 0 0 zigzag

-- Scores that are all alike, kept in the order in which they come.
abbrev alike : Scoring ℕ
alike = record {
  no_score = 0;
  extend = λ s before p duplicate. s;
  place_key = λ name. name;
  sort = λ beams. beams;
  sort-Perm = λ beams. Permᴰ.refl beams;
}

abbrev sights : CandidateGroup
sights = record { slot_id = 1; places = spots }

abbrev meals : CandidateGroup
meals = record { slot_id = 2; places = noodles.place ∷ [] }
