-- ===== src/Payment/Orders.antt =====
-- backend/src/modules/payment/payment.service.ts: `prepare`, `confirm` and `handleWebhook`.
use ai_planner.Prelude.{
  JsString, ℕ, ◌+◌, Bool, true, false, String, Option, none, some, ◌∷◌, Result, ok, err, pure, gets,
  or_throw, modify, throw_if, ◌>>=◌, ◌>>◌, if◌then◌else◌, ltb, ◌==◌, str_eq, some_is, is_some, ◌&&◌,
  not,
}
use ai_planner.Schema.{
  Subscription, active, Payment, PaymentState, ready, done, failed, canceled, Prisma, HttpError,
  bad_request, not_found, internal, receipt,
}
use ai_planner.Payment.Subscriptions.{
  Env, ConfirmPaymentDto, TossConfirmResponse, StatusResponse, Call, plan_code,
  subscription_window_ms, to_status_response, find_subscription, update_subscription,
  ensure_subscription, sync_lifecycle,
}

pub record PrepareResponse : Type 0 where
  pub status : StatusResponse
  pub order_id : ℕ
  pub payment : Payment

abbrev pub is_done : PaymentState → Bool
is_done done = true
is_done _ = false

abbrev pub get_or : Option String → String → String
get_or none d = d
get_or (some x) d = x

-- `findUnique` by the order id, with its subscription.
pub record PaymentWith : Type 0 where
  pub payment : Payment
  pub subscription : Subscription

abbrev pub new_payment : Env → ℕ → ℕ → ℕ → ℕ → Payment
new_payment env new_id order_id user_id subscription_id = record {
  id = new_id;
  user_id = user_id;
  subscription_id = subscription_id;
  order_id = order_id;
  payment_key = none;
  amount = env.monthly_amount;
  method = "TOSSPAY";
  status = ready;
  confirmed_at = none;
  fail_reason = none;
}

-- The `currentPeriodEnd` after a payment: the window starts at the end of a period that still runs.
unfoldable pub next_period_end : ℕ → Option ℕ → ℕ
next_period_end now none = now + subscription_window_ms
next_period_end now (some t) = (if ltb now t then t else now) + subscription_window_ms

abbrev pub confirmed_payment : ℕ → ℕ → TossConfirmResponse → Payment → Payment
confirmed_payment now user_id c p = record p {
  payment_key = some c.payment_key;
  user_id = user_id;
  method = get_or c.method p.method;
  status = done;
  confirmed_at = some (elim c.approved_at [ none ↦ now | some t ↦ t ]);
  fail_reason = none;
}

abbrev pub paid_subscription : ℕ → Subscription → Subscription
paid_subscription period_end s = record s {
  status = active;
  plan_code = plan_code;
  current_period_end = some period_end;
  grace_ends_at = none;
  cancelled_at = none;
}

-- `confirmWithToss`
unfoldable pub confirm_with_toss :
    Env → ℕ → ConfirmPaymentDto → Result HttpError TossConfirmResponse
confirm_with_toss env now dto =
    if env.has_toss_secret
    then env.toss_confirm dto
    else if env.is_production
    then err internal
    else ok
        (record { payment_key = dto.payment_key; method = some "TOSSPAY"; approved_at = some now })

-- The texts that a webhook's body holds: `orderId`, `data.orderId`, `status` and `eventType`, where
-- they are texts. An order id in a body is 0 if it is the empty text.
pub record WebhookBody : Type 0 where
  pub order_id : Option ℕ
  pub data_order_id : Option ℕ
  pub status : Option String
  pub event_type : Option String

abbrev pub order_of_body : WebhookBody → Option ℕ
order_of_body b = elim b.order_id [ none ↦ b.data_order_id | some i ↦ some i ]

abbrev pub status_of_body : WebhookBody → String
status_of_body b = elim b.status [ none ↦ get_or b.event_type "" | some s ↦ s ]

module _ (db : Prisma) where
  unfoldable pub find_payment : (Payment → Bool) → Call (Option Payment)
  find_payment p = gets (λ st. db.payment.find_first p st.payments)

  unfoldable pub prepare : Env → ℕ → ℕ → ℕ → ℕ → Call PrepareResponse
  unfolding find_payment
  prepare env new_subscription_id new_id order_id user_id = do
    subscription ← ensure_subscription db new_subscription_id user_id
    taken ← find_payment (λ p. p.order_id == order_id)
    throw_if (is_some taken) internal
    let payment = new_payment env new_id order_id user_id subscription.id
    modify (λ st. record st { payments = db.payment.create payment st.payments })
    pure (record {
      status = to_status_response env subscription;
      order_id = order_id;
      payment = payment;
    })

  -- The payment of an order, whose subscription the foreign key provides.
  unfoldable pub load_payment : ℕ → Call (Option PaymentWith)
  unfolding find_payment find_subscription
  load_payment order_id = do
    found ← find_payment (λ p. p.order_id == order_id)
    elim found [
      | none ↦ pure none
      | some p ↦ do
        s ← or_throw (← find_subscription db (λ s. s.id == p.subscription_id)) internal
        pure (some (record { payment = p; subscription = s }))
    ]

  -- The transaction of `confirm`. A payment key is unique: one that another payment has is refused
  -- by the database, and nothing is written.
  unfoldable pub settle : ℕ → ℕ → TossConfirmResponse → PaymentWith → Call Subscription
  unfolding find_payment
  settle now user_id c found = do
    clash ←
        find_payment (λ p. not (p.id == found.payment.id) && some_is p.payment_key c.payment_key)
    throw_if (is_some clash) internal
    modify (λ st. record st {
      payments =
          db.payment.update_many (λ p. p.id == found.payment.id) (confirmed_payment now user_id c)
            st.payments;
    })
    update_subscription db (λ s. s.id == found.payment.subscription_id)
        (paid_subscription (next_period_end now found.subscription.current_period_end))

  -- The receipt of `p`, to the e-mail address of the user that the payment had when it was loaded.
  unfoldable pub send_receipt : ℕ → Payment → Option ℕ → Call (Unit {0})
  send_receipt payer_id p period_end = do
    user ← gets (λ st. db.user.find_first (λ u. u.id == payer_id) st.users)
    elim user [
      | none ↦ pure tt
      | some u ↦ elim u.email [
        | none ↦ pure tt
        | some to ↦
            if str_eq to ""
            then pure tt
            else modify (λ st. record st { outbox = receipt to p period_end ∷ st.outbox })
      ]
    ]

  -- A payment that this key has already settled: only the status is brought up to date.
  unfoldable pub replay : Env → ℕ → ℕ → Call StatusResponse
  unfolding find_subscription
  replay env now user_id = do
    s ← or_throw (← find_subscription db (λ s. s.user_id == user_id)) not_found
    synced ← sync_lifecycle db now s
    pure (to_status_response env synced)

  -- A payment that is to be settled.
  unfoldable pub charge : Env → ℕ → ℕ → ConfirmPaymentDto → PaymentWith → Call StatusResponse
  charge env now user_id dto found = do
    c ← (λ st. (confirm_with_toss env now dto, st))
    s ← settle now user_id c found
    send_receipt found.payment.user_id (confirmed_payment now user_id c found.payment)
        s.current_period_end
    pure (to_status_response env s)

  unfoldable pub confirm : Env → ℕ → ℕ → ConfirmPaymentDto → Call StatusResponse
  confirm env now user_id dto = do
    found ← or_throw (← load_payment dto.order_id) not_found
    throw_if (not (found.subscription.user_id == user_id)) not_found
    throw_if (not (found.payment.amount == dto.amount)) bad_request
    if is_done found.payment.status && some_is found.payment.payment_key dto.payment_key
        then replay env now user_id
        else charge env now user_id dto found

  unfoldable pub set_payment : ℕ → PaymentState → String → Call (Unit {0})
  set_payment id status reason = modify (λ st. record st {
    payments =
        db.payment.update_many (λ p. p.id == id)
          (λ p. record p { status = status; fail_reason = some reason }) st.payments;
  })

  unfoldable pub handle_webhook : JsString → WebhookBody → Call (Unit {0})
  unfolding find_payment set_payment
  handle_webhook js body = elim (order_of_body body) [
    | none ↦ pure tt
    | some order_id ↦ if order_id == 0 then pure tt else do
      found ← find_payment (λ p. p.order_id == order_id)
      elim found [
        | none ↦ pure tt
        | some p ↦
            let status = js.to_lower_case (status_of_body body) in
            if js.includes status "cancel"
            then set_payment p.id canceled "Webhook cancel"
            else if js.includes status "fail"
            then set_payment p.id failed "Webhook failure"
            else pure tt
      ]
  ]
