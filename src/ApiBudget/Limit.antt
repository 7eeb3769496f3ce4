-- ===== src/ApiBudget/Limit.antt =====
-- backend/src/middleware/api-budget.middleware.ts: how many requests pass in a day.
use mathlib.Core.Path.{subst, sym}
use native.Mathlib.Nat.{suc-mul}
use ai_planner.Prelude.{
  ℕ, ◌+◌, ◌-◌, ◌≤◌, ◌<◌, Bool, true, false, String, List, [], ◌∷◌, ◌≡◌, arith, str_eq, str_eq_iff,
  if◌then◌else◌, length, ltb, ◌⊎◌, inl, inr, ap, ◌*◌, ◌∙◌, suc,
}
use ai_planner.Prisma.{Model}
use ai_planner.ApiBudget.{
  Number, Clock, Budget, ApiUsage, Outcome, next, too_many_requests, service_unavailable,
  daily_limit, or_zero, cache_key, counts, roll_day, check_daily_limit, check_monthly_budget,
  record_daily_request, use_middleware, reset_tick, track_request, cleanup_old_records,
  store_usage_record,
}

-- A request to the pipeline, with what the database does at that time.
pub record Request : Type 0 where
  pub clock : Clock
  pub user_id : String
  pub ip : String
  pub db_up : Bool

abbrev pub passes : Outcome → ℕ
passes next = 1
passes _ = 0

-- What happens to the service: a request through the middleware, a tick of the scheduler, the record
-- of a call with its cost, the deletion of old records.
pub data Event (Cost : Type 0) : Type 0 where
  arrives : Request → Event Cost
  ticks : Clock → Event Cost
  tracks : Request → Cost → Event Cost
  cleans : Bool → Clock → Event Cost

-- `clock.getHours() === 0 && clock.getMinutes() === 0`, as a number
abbrev pub midnights : Clock → ℕ
midnights clock = if clock.is_midnight then 1 else 0

-- How often the scheduler empties the cache, which it does in the first minute of the local day.
abbrev pub resets : {Cost : Type 0} → List (Event Cost) → ℕ
resets [] = 0
resets (ticks clock ∷ es) = midnights clock + resets es
resets (_ ∷ es) = resets es

module _ (num : Number) (db : Model (ApiUsage num.Cost)) (open_filter : Bool) where
  -- How many of the requests with the cache key `key` pass.
  unfoldable pub count_passed : String → List (Event num.Cost) → Budget num.Cost → ℕ
  count_passed key [] b = 0
  count_passed key (arrives r ∷ es) b =
      let (o, b') = use_middleware num db open_filter r.db_up true r.clock r.user_id r.ip b in
      (if str_eq key (cache_key r.user_id r.ip) then passes o else 0) + count_passed key es b'
  count_passed key (ticks clock ∷ es) b = count_passed key es (reset_tick num clock b)
  count_passed key (tracks r cost ∷ es) b =
      count_passed key es (track_request num db r.db_up r.clock r.user_id r.ip cost b)
  count_passed key (cleans db_up clock ∷ es) b =
      count_passed key es (cleanup_old_records num db db_up clock b)

  abbrev used : String → Budget num.Cost → ℕ
  used key b = or_zero (b.daily_usage key)

  -- On the day of the cache, a request that passes was below the limit and is counted.
  use-counted :
      (key : String) (r : Request) (b : Budget num.Cost)
      → r.clock.today ≡ b.last_reset_date
      → 0 < b.daily_limit
      → let (o, b') = use_middleware num db open_filter r.db_up true r.clock r.user_id r.ip b in
        ((if str_eq key (cache_key r.user_id r.ip) then passes o else 0)
            + (b.daily_limit - used key b')
          ≤ b.daily_limit - used key b)
        × (b'.daily_limit ≡ b.daily_limit)
        × (b'.last_reset_date ≡ b.last_reset_date)
  unfolding use_middleware check_daily_limit record_daily_request
  use-counted key r b day pos = ground (
    arith,
    str_eq_iff key (cache_key r.user_id r.ip),
    str_eq_iff (cache_key r.user_id r.ip) (cache_key r.user_id r.ip),
  )

  abbrev pub IsOn : ℕ → List (Event num.Cost) → Type 0
  IsOn day [] = Unit
  IsOn day (arrives r ∷ es) = (r.clock.today ≡ day) × IsOn day es
  IsOn day (ticks clock ∷ es) = (clock.today ≡ day) × IsOn day es
  IsOn day (tracks _ _ ∷ es) = IsOn day es
  IsOn day (cleans _ _ ∷ es) = IsOn day es

  -- What a tick does to the count of a key, on the day of the cache.
  tick-counted :
      (key : String) (clock : Clock) (b : Budget num.Cost)
      → clock.today ≡ b.last_reset_date
      → let b' = reset_tick num clock b in
        (b'.daily_limit ≡ b.daily_limit)
        × (b'.last_reset_date ≡ b.last_reset_date)
        × (((midnights clock ≡ 1) × (used key b' ≡ 0))
            ⊎ ((midnights clock ≡ 0) × (used key b' ≡ used key b)))
  unfolding reset_tick
  tick-counted key clock b day = ground (arith, day)

  track-counted :
      (key : String) (r : Request) (cost : num.Cost) (b : Budget num.Cost)
      → let b' = track_request num db r.db_up r.clock r.user_id r.ip cost b in
        (used key b' ≡ used key b)
        × (b'.daily_limit ≡ b.daily_limit)
        × (b'.last_reset_date ≡ b.last_reset_date)
  unfolding track_request store_usage_record
  track-counted key r cost b = ground arith

  clean-counted :
      (key : String) (db_up : Bool) (clock : Clock) (b : Budget num.Cost)
      → let b' = cleanup_old_records num db db_up clock b in
        (used key b' ≡ used key b)
        × (b'.daily_limit ≡ b.daily_limit)
        × (b'.last_reset_date ≡ b.last_reset_date)
  unfolding cleanup_old_records
  clean-counted key db_up clock b = ground arith

  IsOn-day : {d d' : ℕ} (es : List (Event num.Cost)) → d' ≡ d → IsOn d es → IsOn d' es
  IsOn-day es same = subst (λ d. IsOn d es) (sym same)

  -- Of any requests of the cache's day (a date of UTC), under a limit above 0, by any callers, with the
  -- database up or down at each, and with runs of the scheduler, records of calls and clean-ups among
  -- them: at most as many pass for one user, or for one address of anonymous callers, as the limit
  -- leaves over what the cache has counted for that key, and once more the limit for each time that
  -- the scheduler empties the cache, at local midnight.
  pub count_passed-le :
      (key : String) (es : List (Event num.Cost)) (b : Budget num.Cost)
      → IsOn b.last_reset_date es
      → 0 < b.daily_limit
      → count_passed key es b ≤ (b.daily_limit - used key b) + resets es * b.daily_limit
  unfolding count_passed
  count_passed-le key [] b day pos = omega arith
  count_passed-le key (arrives r ∷ es) b day pos =
      let b' = (use_middleware num db open_filter r.db_up true r.clock r.user_id r.ip b).1 in
      let (step, limit, date) = use-counted key r b day.0 pos in
      let ih = count_passed-le key es b' (IsOn-day es date day.1) (omega (arith, limit)) in
      let same : resets es * b'.daily_limit ≡ resets es * b.daily_limit =
        ap (λ n. resets es * n) limit in
      omega (arith, step, limit, ih, same)
  count_passed-le key (ticks clock ∷ es) b day pos =
      let b' = reset_tick num clock b in
      let (limit, date, counted) = tick-counted key clock b day.0 in
      let ih = count_passed-le key es b' (IsOn-day es date day.1) (omega (arith, limit)) in
      let same : resets es * b'.daily_limit ≡ resets es * b.daily_limit =
        ap (λ n. resets es * n) limit in
      elim counted [
        | inl (one, empty) ↦
            let more : resets (ticks clock ∷ es) ≡ suc (resets es) = omega (arith, one) in
            let product : resets (ticks clock ∷ es) * b.daily_limit
                ≡ resets es * b.daily_limit + b.daily_limit =
              ap (λ n. n * b.daily_limit) more ∙ suc-mul (resets es) b.daily_limit in
            omega (arith, empty, limit, ih, same, product)
        | inr (none_more, kept) ↦
            let equal : resets (ticks clock ∷ es) ≡ resets es = omega (arith, none_more) in
            let product : resets (ticks clock ∷ es) * b.daily_limit ≡ resets es * b.daily_limit =
              ap (λ n. n * b.daily_limit) equal in
            omega (arith, kept, limit, ih, same, product)
      ]
  count_passed-le key (tracks r cost ∷ es) b day pos =
      let b' = track_request num db r.db_up r.clock r.user_id r.ip cost b in
      let (kept, limit, date) = track-counted key r cost b in
      let ih = count_passed-le key es b' (IsOn-day es date day) (omega (arith, limit)) in
      let same : resets es * b'.daily_limit ≡ resets es * b.daily_limit =
        ap (λ n. resets es * n) limit in
      omega (arith, kept, limit, ih, same)
  count_passed-le key (cleans db_up clock ∷ es) b day pos =
      let b' = cleanup_old_records num db db_up clock b in
      let (kept, limit, date) = clean-counted key db_up clock b in
      let ih = count_passed-le key es b' (IsOn-day es date day) (omega (arith, limit)) in
      let same : resets es * b'.daily_limit ≡ resets es * b.daily_limit =
        ap (λ n. resets es * n) limit in
      omega (arith, kept, limit, ih, same)

  -- What the middleware has to go by: the cached count if there is one, else that of the database.
  abbrev pub usage : Request → Budget num.Cost → ℕ
  usage r b =
      let cached = used (cache_key r.user_id r.ip) b in
      if ltb 0 cached
      then cached
      else length (db.find_many (counts open_filter r.clock r.user_id r.ip) b.records)

  -- The row that `recordDailyRequest` stores.
  abbrev pub request_row : Request → ApiUsage num.Cost
  request_row r = record {
    user_id = r.user_id;
    ip_address = r.ip;
    endpoint = daily_limit;
    cost = num.nothing;
    timestamp = r.clock.time;
  }

  -- With the database up, on the day of the cache, each outcome has its cause: a request passes
  -- exactly if its usage is below the limit and the monthly budget is not used up, and it is then
  -- counted and recorded; 429 and 503 record nothing.
  use_middleware_cases :
      (r : Request) (b : Budget num.Cost)
      → r.clock.today ≡ b.last_reset_date
      → r.db_up ≡ true
      → let (o, b') = use_middleware num db open_filter r.db_up true r.clock r.user_id r.ip b in
        ((b.daily_limit ≤ usage r b)
          × (o ≡ too_many_requests (usage r b))
          × (b'.records ≡ b.records))
        ⊎ ((usage r b < b.daily_limit)
            × (check_monthly_budget num b ≡ false)
            × (o ≡ service_unavailable)
            × (b'.records ≡ b.records))
        ⊎ ((usage r b < b.daily_limit)
            × (check_monthly_budget num b ≡ true)
            × (o ≡ next)
            × (used (cache_key r.user_id r.ip) b' ≡ usage r b + 1)
            × (b'.records ≡ request_row r ∷ b.records))
  unfolding use_middleware check_daily_limit record_daily_request check_monthly_budget
  use_middleware_cases r b day up = ground (
    arith,
    str_eq_iff (cache_key r.user_id r.ip) (cache_key r.user_id r.ip),
    db.create-eq (request_row r) b.records,
  )

  -- A caller that is not in the cache passes whenever the database is down and the budget lasts.
  pub use_fail_open :
      (r : Request) (b : Budget num.Cost)
      → used (cache_key r.user_id r.ip) (roll_day r.clock b) ≡ 0
      → r.db_up ≡ false
      → check_monthly_budget num b ≡ true
      → (use_middleware num db open_filter r.db_up true r.clock r.user_id r.ip b).0 ≡ next
  unfolding use_middleware check_daily_limit check_monthly_budget
  use_fail_open r b new down lasts = ground arith
