-- ===== src/ApiBudget.antt =====
-- backend/src/services/api-budget.service.ts and backend/src/middleware/api-budget.middleware.ts:
-- the daily limit on requests and the monthly budget of the AI pipeline.
-- Costs are floats: the type and its operations are a parameter. A call reads the clock once. The
-- database can fail at each call (`db_up`); the service then goes on without it.
pub mod Limit
pub mod Monthly
mod Tests
use ai_planner.Prelude.{
  ℕ, ◌+◌, Bool, true, false, String, Option, none, some, List, [], ◌∷◌, if◌then◌else◌, ltb, leb,
  ◌==◌, str_eq, ◌&&◌, ◌||◌, not, length,
}
use ai_planner.Prisma.{Model}

pub record Number : Type 1 where
  pub Cost : Type 0
  pub nothing : Cost
  pub plus : Cost → Cost → Cost
  pub less : Cost → Cost → Bool

-- The two endpoints under which calls are recorded.
pub data Endpoint : Type 0 where
  daily_limit ai_pipeline : Endpoint

abbrev pub is_daily : Endpoint → Bool
is_daily daily_limit = true
is_daily ai_pipeline = false

-- What the code reads off the clock: the time, the dates and month in UTC, the local start of the day
-- and of the month, three months ago, and whether it is the first minute of the local day.
pub record Clock : Type 0 where
  pub time : ℕ
  pub today : ℕ
  pub month : ℕ
  pub start_of_day : ℕ
  pub start_of_month : ℕ
  pub three_months_ago : ℕ
  pub is_midnight : Bool

pub data Outcome : Type 0 where
  next : Outcome
  -- status 429, with the requests used
  too_many_requests : ℕ → Outcome
  -- status 503
  service_unavailable : Outcome

pub record DailyLimitCheck : Type 0 where
  pub allowed : Bool
  pub limit : ℕ
  pub used : ℕ

abbrev pub or_zero : Option ℕ → ℕ
or_zero none = 0
or_zero (some n) = n

-- `userId !== 'anonymous' ? userId : ipAddress`
abbrev pub cache_key : String → String → String
cache_key user_id ip = if str_eq user_id "anonymous" then ip else user_id

pub record ApiUsage (Cost : Type 0) : Type 0 where
  pub user_id : String
  pub ip_address : String
  pub endpoint : Endpoint
  pub cost : Cost
  pub timestamp : ℕ

pub record Budget (Cost : Type 0) : Type 0 where
  pub daily_limit : ℕ
  pub monthly_budget : Cost
  pub current_month_usage : Cost
  pub current_month : ℕ
  -- `dailyUsageCache`, a `Map`
  pub daily_usage : String → Option ℕ
  pub last_reset_date : ℕ
  -- the table `ApiUsage`
  pub records : List (ApiUsage Cost)

module _ {Cost : Type 0} where
  -- The reset of `checkDailyLimit`, when the date has changed.
  unfoldable pub roll_day : Clock → Budget Cost → Budget Cost
  roll_day clock b =
      if clock.today == b.last_reset_date
      then b
      else record b { daily_usage = λ _. none; last_reset_date = clock.today }

  abbrev pub set_usage : String → ℕ → Budget Cost → Budget Cost
  set_usage key n b = record b {
    daily_usage = λ k. if str_eq k key then some n else b.daily_usage k;
  }

  -- The rows that `checkDailyLimit` counts. The filter `userId: undefined` of an anonymous caller is
  -- dropped by Prisma; `open_filter` is whether it then matches every row.
  abbrev pub counts : Bool → Clock → String → String → ApiUsage Cost → Bool
  counts open_filter clock user_id ip r =
      ((if str_eq user_id "anonymous" then open_filter else str_eq r.user_id user_id)
        || str_eq r.ip_address ip)
      && is_daily r.endpoint
      && leb clock.start_of_day r.timestamp

  unfoldable pub check_daily_limit :
      Model (ApiUsage Cost)
      → Bool
      → Bool
      → Clock
      → String
      → String
      → Budget Cost
      → DailyLimitCheck × Budget Cost
  unfolding roll_day
  check_daily_limit db open_filter db_up clock user_id ip b =
      let b' = roll_day clock b in
      let key = cache_key user_id ip in
      let used = or_zero (b'.daily_usage key) in
      let count = length (db.find_many (counts open_filter clock user_id ip) b'.records) in
      if ltb 0 used
      then (record { allowed = ltb used b'.daily_limit; limit = b'.daily_limit; used = used }, b')
      else if db_up
      then (
        record { allowed = ltb count b'.daily_limit; limit = b'.daily_limit; used = count },
        set_usage key count b',
      )
      else (record { allowed = true; limit = b'.daily_limit; used = 0 }, b')

  unfoldable pub increment_daily_count : String → String → Budget Cost → Budget Cost
  increment_daily_count user_id ip b =
      let key = cache_key user_id ip in set_usage key (or_zero (b.daily_usage key) + 1) b

  -- `storeUsageRecord`, whose failure its callers catch.
  unfoldable pub store_usage_record :
      Model (ApiUsage Cost) → Bool → ApiUsage Cost → Budget Cost → Budget Cost
  store_usage_record db db_up r b =
      if db_up then record b { records = db.create r b.records } else b

module _ (num : Number) where
  open num use {Cost, nothing, plus, less}

  unfoldable pub check_monthly_budget : Budget Cost → Bool
  check_monthly_budget b = less b.current_month_usage b.monthly_budget

  unfoldable pub record_daily_request :
      Model (ApiUsage Cost) → Bool → Clock → String → String → Budget Cost → Budget Cost
  unfolding increment_daily_count store_usage_record
  record_daily_request db db_up clock user_id ip b =
      store_usage_record db db_up
        (record {
          user_id = user_id;
          ip_address = ip;
          endpoint = Endpoint.daily_limit;
          cost = nothing;
          timestamp = clock.time;
        })
        (increment_daily_count user_id ip b)

  -- The total is raised before the row is stored, so that it counts even if the database is down.
  unfoldable pub track_request :
      Model (ApiUsage Cost) → Bool → Clock → String → String → Cost → Budget Cost → Budget Cost
  unfolding store_usage_record
  track_request db db_up clock user_id ip cost b =
      store_usage_record db db_up
        (record {
          user_id = user_id;
          ip_address = ip;
          endpoint = ai_pipeline;
          cost = cost;
          timestamp = clock.time;
        })
        (record b { current_month_usage = plus b.current_month_usage cost })

  -- One tick of `startUsageResetScheduler`.
  unfoldable pub reset_tick : Clock → Budget Cost → Budget Cost
  reset_tick clock b =
      let b' =
        if clock.is_midnight
        then record b { daily_usage = λ _. none; last_reset_date = clock.today }
        else b in
      if clock.month == b'.current_month
      then b'
      else record b' { current_month = clock.month; current_month_usage = nothing }

  -- `loadCurrentMonthUsage`: the database's sum of the costs of the month's rows, `null` if there are
  -- none, or 0 if the database fails.
  unfoldable pub load_current_month_usage :
      Model (ApiUsage Cost)
      → (List (ApiUsage Cost) → Option Cost)
      → Bool
      → Clock
      → Budget Cost
      → Budget Cost
  load_current_month_usage db sum db_up clock b =
      let rows = db.find_many (λ r. leb clock.start_of_month r.timestamp) b.records in
      record b {
        current_month_usage =
            if db_up then elim (sum rows) [ none ↦ nothing | some total ↦ total ] else nothing;
      }

  unfoldable pub cleanup_old_records :
      Model (ApiUsage Cost) → Bool → Clock → Budget Cost → Budget Cost
  cleanup_old_records db db_up clock b =
      if db_up
      then record b {
        records = db.delete_many (λ r. ltb r.timestamp clock.three_months_ago) b.records;
      }
      else b

  -- `ApiBudgetMiddleware.use`; `is_ai_path` is whether the path holds `/api/plan` or `/api/ai`.
  unfoldable pub use_middleware :
      Model (ApiUsage Cost)
      → Bool
      → Bool
      → Bool
      → Clock
      → String
      → String
      → Budget Cost
      → Outcome × Budget Cost
  use_middleware db open_filter db_up is_ai_path clock user_id ip b =
      let (check, b') = check_daily_limit db open_filter db_up clock user_id ip b in
      if not is_ai_path
      then (next, b)
      else if not check.allowed
      then (too_many_requests check.used, b')
      else if not (check_monthly_budget b')
      then (service_unavailable, b')
      else (next, record_daily_request db db_up clock user_id ip b')
