-- ===== src/Pipeline/Spacing.antt =====
-- backend/src/modules/ai/steps/generate-schedule.step.ts: the times of a day's visits.
use Prim.Native.Nat.{◌%◌}
use ai_planner.Prelude.{
  ℕ, ◌+◌, ◌≤◌, ◌≡◌, refl, ap, arith, Option, none, some, List, [], ◌∷◌, map, if◌then◌else◌, is_some,
  not, ◌&&◌,
}
use ai_planner.Pipeline.Places.{OrderedPlace}
use ai_planner.Pipeline.Clock.{round_up_to_ten, round_up_to_ten_bounds}
use ai_planner.Pipeline.Schedule.{
  Visit, Progress, dwell_minutes, is_food, food_gap_min, arrival, after_gap, start_of, visit,
  advance, visits_from, started, build_schedule,
}

abbrev or_zero : Option ℕ → ℕ
or_zero none = 0
or_zero (some n) = n

-- `start` leaves the pause after `time`, if that is set.
abbrev pub Leaves : ℕ → Option ℕ → ℕ → Type 0
Leaves pause none start = Unit
Leaves pause (some time) start = time + pause ≤ start

-- The end of the last food before a visit that has to wait for it: food that has no anchor.
abbrev pub awaited : Visit → Option ℕ → Option ℕ
awaited v fed =
    if is_food v.at.place.kind && not (is_some v.at.place.anchor_minutes) then fed else none

-- A visit after one that ended at `previous`, the last food having ended at `fed`: there is time for
-- the way and ten minutes more, it does not start before its anchor, food that has no anchor waits
-- for the gap, there is time to dwell, and it starts at a multiple of ten.
pub record IsTimely (previous fed : Option ℕ) (v : Visit) : Type 0 where
  pub travel : Leaves (v.at.travel_minutes + 10) previous v.start
  pub anchored : Leaves 0 v.at.place.anchor_minutes v.start
  pub digested : Leaves food_gap_min (awaited v fed) v.start
  pub dwelt : v.start + dwell_minutes v.at.place.kind ≤ v.end_min
  pub tens : v.start % 10 ≡ 0

abbrev pub AreTimely : Option ℕ → Option ℕ → List Visit → Type 0
AreTimely previous fed [] = Unit
AreTimely previous fed (v ∷ vs) =
    IsTimely previous fed v
    × AreTimely (some v.end_min) (if is_food v.at.place.kind then some v.end_min else fed) vs

abbrev previous_end : Progress → Option ℕ
previous_end s = if s.has_items then some s.current_min else none

arrival_lem :
    (s : Progress) (p : OrderedPlace)
    → Leaves (p.travel_minutes + 10) (previous_end s) (arrival s p)
      × (arrival s p % 10 ≡ 0)
      × (s.current_min ≤ arrival s p)
unfolding arrival
arrival_lem s p = ground (
  arith,
  round_up_to_ten_bounds s.current_min,
  round_up_to_ten_bounds (round_up_to_ten s.current_min + (p.travel_minutes + 10)),
)

after_gap_lem :
    (fed : Option ℕ) (current : ℕ)
    → current % 10 ≡ 0
    → (current ≤ after_gap fed current)
      × (after_gap fed current % 10 ≡ 0)
      × Leaves food_gap_min fed (after_gap fed current)
unfolding after_gap
after_gap_lem none current h = ground arith
after_gap_lem (some last) current h = ground (arith, round_up_to_ten_bounds (last + food_gap_min))

start_of_lem :
    (s : Progress) (p : OrderedPlace)
    → (arrival s p ≤ start_of s p)
      × (start_of s p % 10 ≡ 0)
      × Leaves 0 p.place.anchor_minutes (start_of s p)
      × Leaves food_gap_min (awaited (visit s p) s.last_food_end) (start_of s p)
unfolding start_of visit
start_of_lem s p = ground (
  arith,
  arrival_lem s p,
  after_gap_lem s.last_food_end (arrival s p),
  round_up_to_ten_bounds (or_zero p.place.anchor_minutes),
)

visit-IsTimely :
    (s : Progress) (p : OrderedPlace) → IsTimely (previous_end s) s.last_food_end (visit s p)
unfolding visit
visit-IsTimely s p =
    let begun = start_of_lem s p in
    record {
      travel = ground (arith, arrival_lem s p);
      anchored = begun.2;
      digested = begun.3;
      dwelt = ground (arith, round_up_to_ten_bounds (start_of s p + dwell_minutes p.place.kind));
      tens = begun.1;
    }

visits_from-AreTimely :
    (s : Progress) (ps : List OrderedPlace)
    → AreTimely (previous_end s) s.last_food_end (visits_from s ps)
unfolding visits_from
visits_from-AreTimely s [] = tt
visits_from-AreTimely s (p ∷ ps) =
    (visit-IsTimely s p, unfold visit advance in visits_from-AreTimely (advance s (visit s p)) ps)

visits_from-places :
    (s : Progress) (ps : List OrderedPlace) → map (λ v. v.at) (visits_from s ps) ≡ ps
unfolding visits_from visit
visits_from-places s [] = refl
visits_from-places s (p ∷ ps) = ap (λ qs. p ∷ qs) (visits_from-places (advance s (visit s p)) ps)

-- The schedule visits the given places in their order, each one timely after those before it.
pub build_schedule-AreTimely :
    (start_min : ℕ) (places : List OrderedPlace)
    → AreTimely none none (build_schedule start_min places)
      × (map (λ v. v.at) (build_schedule start_min places) ≡ places)
unfolding build_schedule
build_schedule-AreTimely start_min places = (
  visits_from-AreTimely (started start_min) places,
  visits_from-places (started start_min) places,
)
