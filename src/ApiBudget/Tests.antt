-- ===== src/ApiBudget/Tests.antt =====
-- backend/src/services/api-budget.service.ts, on sample requests. Costs are numbers here.
use ai_planner.Prelude.{
  ℕ, ◌+◌, ◌-◌, ◌*◌, ◌≤◌, true, false, List, [], ◌∷◌, none, ◌≡◌, refl, arith, ltb,
}
use ai_planner.Prisma.{Model, in_memory}
use ai_planner.ApiBudget.{
  Number, Clock, Budget, ApiUsage, or_zero, cache_key, roll_day, check_monthly_budget,
}
use ai_planner.ApiBudget.Limit.{
  Request, Event, arrives, ticks, tracks, cleans, resets, count_passed, count_passed-le,
}

abbrev number : Number
number = record { Cost = ℕ; nothing = 0; plus = ◌+◌; less = ltb }

abbrev database : Model (ApiUsage ℕ)
database = in_memory

abbrev noon : Clock
noon = record {
  time = 1000;
  today = 5;
  month = 1;
  start_of_day = 500;
  start_of_month = 0;
  three_months_ago = 0;
  is_midnight = false;
}

abbrev next_month : Clock
next_month = record noon { time = 9000; today = 6; month = 2 }

abbrev budget : Budget ℕ
budget = record {
  daily_limit = 2;
  monthly_budget = 100;
  current_month_usage = 30;
  current_month = 1;
  daily_usage = λ _. none;
  last_reset_date = 5;
  records = [];
}

abbrev by_ann : Request
by_ann = record { clock = noon; user_id = "ann"; ip = "10.0.0.1"; db_up = true }

abbrev by_bob : Request
by_bob = record by_ann { user_id = "bob" }

-- The database is down at the last request, and the scheduler runs at local midnight before it.
abbrev events : List (Event ℕ)
events =
    arrives by_ann
    ∷ arrives by_bob
    ∷ tracks by_ann 5
    ∷ arrives by_ann
    ∷ ticks (record noon { is_midnight = true })
    ∷ cleans true noon
    ∷ arrives (record by_ann { db_up = false })
    ∷ []

count_passed-le_example :
    count_passed number database true "ann" events budget ≤ (2 - 0) + resets events * 2
count_passed-le_example =
    count_passed-le number database true "ann" events budget
      (refl, (refl, (refl, (refl, (refl, tt))))) (omega arith)

new_caller : or_zero ((roll_day noon budget).daily_usage (cache_key "ann" "10.0.0.1")) ≡ 0
unfolding roll_day
new_caller = refl

lasts : check_monthly_budget number budget ≡ true
unfolding check_monthly_budget
lasts = refl
