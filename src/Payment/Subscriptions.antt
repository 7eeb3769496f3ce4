-- ===== src/Payment/Subscriptions.antt =====
-- backend/src/modules/payment/payment.service.ts: subscriptions, their status and its changes.
-- A handler reads the clock once, as `now`. What is drawn or asked outside enters as an argument:
-- the id of a new row, the order id of `createOrderId`, and `Env`, the settings and Toss Payments.
use ai_planner.Prelude.{
  ℕ, ◌+◌, Bool, true, false, String, Option, none, some, Result, Action, pure, gets, or_throw,
  modify, ◌>>=◌, ◌>>◌, if◌then◌else◌, leb, ◌==◌, is_some, ◌&&◌, ◌||◌, not,
}
use ai_planner.Schema.{
  Subscription, SubscriptionState, inactive, active, grace, expired, cancelled, Store, Prisma,
  HttpError, internal,
}

-- 3 and 30 days, in milliseconds
abbrev pub grace_period_ms : ℕ
grace_period_ms = 259200000

abbrev pub subscription_window_ms : ℕ
subscription_window_ms = 2592000000

-- billing.config.ts
abbrev pub plan_code : String
plan_code = "couple_monthly"

pub record ConfirmPaymentDto : Type 0 where
  pub payment_key : ℕ
  pub order_id : ℕ
  pub amount : ℕ

pub record TossConfirmResponse : Type 0 where
  pub payment_key : ℕ
  pub method : Option String
  pub approved_at : Option ℕ

pub record Env : Type 0 where
  pub monthly_amount : ℕ
  pub has_toss_secret : Bool
  pub is_production : Bool
  -- the answer of the confirmation request
  pub toss_confirm : ConfirmPaymentDto → Result HttpError TossConfirmResponse

pub record StatusResponse : Type 0 where
  pub subscription : Subscription
  pub has_access : Bool
  pub monthly_amount : ℕ

-- `t && t.getTime() <= now.getTime()`
abbrev pub due : ℕ → Option ℕ → Bool
due now none = false
due now (some t) = leb t now

abbrev pub or_else : Option ℕ → ℕ → ℕ
or_else none n = n
or_else (some m) n = m

abbrev pub is_active : SubscriptionState → Bool
is_active active = true
is_active _ = false

abbrev pub is_grace : SubscriptionState → Bool
is_grace grace = true
is_grace _ = false

-- The first `if` of `syncLifecycle`: the period is over, and the grace time begins.
unfoldable pub begin_grace : ℕ → Subscription → Subscription
begin_grace now s =
    if is_active s.status && due now s.current_period_end
    then record s {
      status = grace;
      grace_ends_at = some (or_else s.grace_ends_at (now + grace_period_ms));
    }
    else s

-- The second `if`: the grace time is over.
unfoldable pub end_grace : ℕ → Subscription → Subscription
end_grace now s =
    if is_grace s.status && due now s.grace_ends_at then record s { status = expired } else s

-- The row with the `nextStatus` and `nextGraceEndsAt` of `syncLifecycle`.
unfoldable pub lifecycle : ℕ → Subscription → Subscription
unfolding begin_grace end_grace
lifecycle now s = end_grace now (begin_grace now s)

abbrev pub same_state : SubscriptionState → SubscriptionState → Bool
same_state inactive inactive = true
same_state active active = true
same_state grace grace = true
same_state expired expired = true
same_state cancelled cancelled = true
same_state _ _ = false

abbrev pub same_time : Option ℕ → Option ℕ → Bool
same_time none none = true
same_time (some a) (some b) = a == b
same_time _ _ = false

abbrev pub has_access : SubscriptionState → Bool
has_access s = is_active s || is_grace s

unfoldable pub to_status_response : Env → Subscription → StatusResponse
to_status_response env s = record {
  subscription = s;
  has_access = has_access s.status;
  monthly_amount = env.monthly_amount;
}

-- The actions of the backend's services.
abbrev pub Call : Type 0 → Type 0
Call A = Action HttpError Store A

abbrev pub new_subscription : ℕ → ℕ → Subscription
new_subscription new_id user_id = record {
  id = new_id;
  user_id = user_id;
  plan_code = plan_code;
  status = inactive;
  current_period_end = none;
  grace_ends_at = none;
  cancelled_at = none;
}

module _ (db : Prisma) where
  unfoldable pub find_subscription : (Subscription → Bool) → Call (Option Subscription)
  find_subscription p = gets (λ st. db.subscription.find_first p st.subscriptions)

  -- `subscription.update` on a unique key: it throws when no row has it.
  unfoldable pub update_subscription :
      (Subscription → Bool) → (Subscription → Subscription) → Call Subscription
  unfolding find_subscription
  update_subscription p f = do
    row ← or_throw (← find_subscription p) internal
    modify (λ st. record st { subscriptions = db.subscription.update_many p f st.subscriptions })
    pure (f row)

  -- The `upsert` with an empty update.
  unfoldable pub ensure_subscription : ℕ → ℕ → Call Subscription
  unfolding find_subscription
  ensure_subscription new_id user_id = do
    found ← find_subscription (λ s. s.user_id == user_id)
    elim found [
      | some s ↦ pure s
      | none ↦ do
        modify (λ st. record st {
          subscriptions = db.subscription.create (new_subscription new_id user_id) st.subscriptions;
        })
        pure (new_subscription new_id user_id)
    ]

  unfoldable pub sync_lifecycle : ℕ → Subscription → Call Subscription
  sync_lifecycle now s =
      let next = lifecycle now s in
      if same_state next.status s.status && same_time next.grace_ends_at s.grace_ends_at
      then pure s
      else update_subscription (λ r. r.id == s.id)
          (λ r. record r { status = next.status; grace_ends_at = next.grace_ends_at })

  unfoldable pub get_status : Env → ℕ → ℕ → ℕ → Call StatusResponse
  get_status env new_id now user_id = do
    subscription ← ensure_subscription new_id user_id
    synced ← sync_lifecycle now subscription
    pure (to_status_response env synced)

  unfoldable pub cancel_by_user : ℕ → ℕ → Call (Unit {0})
  unfolding find_subscription
  cancel_by_user now user_id = do
    found ← find_subscription (λ s. s.user_id == user_id)
    elim found [
      | none ↦ pure tt
      | some s ↦
          if not (has_access s.status)
          then pure tt
          else update_subscription (λ r. r.id == s.id) (λ r. record r { cancelled_at = some now })
            >> pure tt
    ]

  unfoldable pub resubscribe_by_user : ℕ → Call (Unit {0})
  unfolding find_subscription
  resubscribe_by_user user_id = do
    found ← find_subscription (λ s. s.user_id == user_id)
    elim found [
      | none ↦ pure tt
      | some s ↦
          if not (is_some s.cancelled_at) || not (has_access s.status)
          then pure tt
          else update_subscription (λ r. r.id == s.id) (λ r. record r { cancelled_at = none })
            >> pure tt
    ]
