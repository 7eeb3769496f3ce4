-- ===== src/ApiBudget/Monthly.antt =====
-- backend/src/services/api-budget.service.ts: the monthly budget and the scheduler.
use ai_planner.Prelude.{if◌then◌else◌, Bool, true, false, String, none, ◌≡◌, ◌≢◌, arith}
use ai_planner.Prisma.{Model}
use ai_planner.ApiBudget.{
  Number, Clock, Budget, ApiUsage, next, check_daily_limit, check_monthly_budget, use_middleware,
  track_request, reset_tick,
}

module _ (num : Number) (db : Model (ApiUsage num.Cost)) where
  -- Once the cost of a pipeline run has used up the budget, no request passes, whoever asks, until
  -- the scheduler sees a new month; a tick within the month does not help.
  pub exhausted_blocks :
      (open_filter up up' : Bool) (now tick later : Clock) (user_id ip caller caller_ip : String)
      (cost : num.Cost) (b : Budget num.Cost)
      → tick.month ≡ b.current_month
      → num.less (num.plus b.current_month_usage cost) b.monthly_budget ≡ false
      → let b' = reset_tick num tick (track_request num db up now user_id ip cost b) in
        (use_middleware num db open_filter up' true later caller caller_ip b').0 ≢ next
  unfolding use_middleware check_daily_limit check_monthly_budget track_request reset_tick
  exhausted_blocks open_filter up up' now tick later user_id ip caller caller_ip cost b same spent
        e =
      ground arith

  -- After the first tick of a new month the budget lasts if it is more than nothing; the requests
  -- counted are kept, but for a tick in the first minute of a day, which forgets them.
  pub reset_tick_month :
      (tick : Clock) (b : Budget num.Cost)
      → tick.month ≢ b.current_month
      → let b' = reset_tick num tick b in
        (check_monthly_budget num b' ≡ num.less num.nothing b.monthly_budget)
        × ((k : String) → b'.daily_usage k ≡ (if tick.is_midnight then none else b.daily_usage k))
  unfolding reset_tick check_monthly_budget
  reset_tick_month tick b changed = (ground arith, λ k. ground arith)
