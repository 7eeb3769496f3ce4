-- ===== src/Payment/Confirm.antt =====
-- backend/src/modules/payment/payment.service.ts: what `confirm` promises.
use mathlib.Core.List.{map}
use mathlib.Core.Path.{subst}
use ai_planner.Prelude.{
  ℕ, false, Option, some, none, ◌≡◌, refl, arith, find?, change, ok, err, ◌==◌, ◌&&◌, ◌∙◌, not, ◌≤◌,
  ◌<◌, ◌+◌, some_is,
}
use ai_planner.Prisma.Keys.{find?-at, find?-key, find?-update, IsUnique-change}
use ai_planner.Schema.{Subscription, Payment, Store, Prisma, HttpError}
use ai_planner.Payment.Subscriptions.{
  Env, ConfirmPaymentDto, TossConfirmResponse, lifecycle, update_subscription, sync_lifecycle,
  to_status_response, or_else, subscription_window_ms,
}
use ai_planner.Payment.Orders.{
  load_payment, settle, send_receipt, replay, charge, confirm, confirm_with_toss, is_done,
  next_period_end, paid_subscription, confirmed_payment, PaymentWith,
}
use ai_planner.Payment.Status.{subscription_of, HasKeys, Sets}

-- The window that a payment buys ends at least thirty days from now, and from the end of the period
-- before, if there is one; a status check before it is over leaves the subscription as it was paid.
pub paid_window :
    (now later : ℕ) (s : Subscription)
    → let period_end = next_period_end now s.current_period_end in
      later < period_end
      → (now + subscription_window_ms ≤ period_end)
        × (or_else s.current_period_end 0 + subscription_window_ms ≤ period_end)
        × (lifecycle later (paid_subscription period_end s) ≡ paid_subscription period_end s)
unfolding next_period_end lifecycle
paid_window now later s h = (ground arith, ground arith, ground arith)

-- The payment of an order, and the subscription that it pays for.
pub record IsOrder (st : Store) (dto : ConfirmPaymentDto) (p : Payment) (s : Subscription)
    : Type 0 where
  pub payment : find? (λ x. x.order_id == dto.order_id) st.payments ≡ some p
  pub subscription : find? (λ x. x.id == p.subscription_id) st.subscriptions ≡ some s

module _ (db : Prisma) where
  pub load_payment_lem :
      (st : Store) (dto : ConfirmPaymentDto) {p : Payment} {s : Subscription}
      → IsOrder st dto p s
      → load_payment db dto.order_id st ≡ (ok (some (record { payment = p; subscription = s })), st)
  unfolding load_payment
  load_payment_lem st dto {p} {s} o =
      rw (db.payment.find_first-eq (λ x. x.order_id == dto.order_id) st.payments, o.payment)
        (rw (
          db.subscription.find_first-eq (λ x. x.id == p.subscription_id) st.subscriptions,
          o.subscription,
        ))

  -- A confirmation that throws has written nothing.
  pub confirm-IsAtomic :
      (env : Env) (now user_id : ℕ) (dto : ConfirmPaymentDto) (st : Store) (e : HttpError)
      → (confirm db env now user_id dto st).0 ≡ err e
      → (confirm db env now user_id dto st).1 ≡ st
  unfolding confirm load_payment replay charge settle send_receipt update_subscription
      sync_lifecycle
  confirm-IsAtomic env now user_id dto st e h = ground arith

  -- What `settle` writes.
  pub settled : ℕ → ℕ → TossConfirmResponse → PaymentWith → Store → Store
  settled now user_id c found st = record st {
    payments =
        map (change (λ x. x.id == found.payment.id) (confirmed_payment now user_id c)) st.payments;
    subscriptions =
        map
          (change (λ x. x.id == found.payment.subscription_id)
            (paid_subscription (next_period_end now found.subscription.current_period_end)))
          st.subscriptions;
  }

  settle_lem :
      (now user_id : ℕ) (c : TossConfirmResponse) (st : Store) (p : Payment) (s : Subscription)
      → find? (λ x. x.id == p.subscription_id) st.subscriptions ≡ some s
      → find? (λ x. not (x.id == p.id) && some_is x.payment_key c.payment_key) st.payments ≡ none
      → settle db now user_id c (record { payment = p; subscription = s }) st ≡ (
        ok (paid_subscription (next_period_end now s.current_period_end) s),
        settled now user_id c (record { payment = p; subscription = s }) st,
      )
  unfolding settle settled update_subscription
  settle_lem now user_id c st p s found fresh =
      rw
        (
          db.payment.find_first-eq (λ x. not (x.id == p.id) && some_is x.payment_key c.payment_key)
              st.payments,
          fresh,
        )
        (rw (db.subscription.find_first-eq (λ x. x.id == p.subscription_id) st.subscriptions, found)
          (rw
            (db.subscription.update_many-eq (λ x. x.id == p.subscription_id)
              (paid_subscription (next_period_end now s.current_period_end)) st.subscriptions)
            (rw (
              db.payment.update_many-eq (λ x. x.id == p.id) (confirmed_payment now user_id c)
                st.payments))))

  send_receipt_lem :
      (payer_id : ℕ) (p : Payment) (period_end : Option ℕ) (st : Store)
      → let (r, st') = send_receipt db payer_id p period_end st in
        (r ≡ ok tt) × (st'.payments ≡ st.payments) × (st'.subscriptions ≡ st.subscriptions)
  unfolding send_receipt
  send_receipt_lem payer_id p period_end st = ground arith

  module _ (env : Env) (now user_id : ℕ) (dto : ConfirmPaymentDto) (st : Store) {p : Payment}
      {s : Subscription} {c : TossConfirmResponse} (k : HasKeys st) (order : IsOrder st dto p s)
      (mine : s.user_id ≡ user_id) (price : p.amount ≡ dto.amount)
      (unsettled : is_done p.status && some_is p.payment_key dto.payment_key ≡ false)
      (charged : confirm_with_toss env now dto ≡ ok c)
      (fresh : find? (λ x. not (x.id == p.id) && some_is x.payment_key c.payment_key) st.payments
        ≡ none) where
    confirm-eq :
        let s' = paid_subscription (next_period_end now s.current_period_end) s in
        confirm db env now user_id dto st ≡ (
          ok (to_status_response env s'),
          (send_receipt db p.user_id
              (confirmed_payment now user_id c p)
              s'.current_period_end
              (settled now user_id c (record { payment = p; subscription = s }) st)).1,
        )
    unfolding confirm charge
    confirm-eq = ground (
      arith,
      load_payment_lem st dto order,
      settle_lem now user_id c st p s order.subscription fresh,
      (send_receipt_lem p.user_id (confirmed_payment now user_id c p)
          (some (next_period_end now s.current_period_end))
          (settled now user_id c (record { payment = p; subscription = s }) st)).0,
    )

    mine_found : subscription_of user_id st ≡ some s
    mine_found =
        let found =
          find?-key (λ x. x.user_id) (λ x. x.id == p.subscription_id) st.subscriptions k.users
            order.subscription in
        subst (λ u. subscription_of u st ≡ some s) mine found

    pub settled-Sets :
        let s' = paid_subscription (next_period_end now s.current_period_end) s in
        let st' = settled now user_id c (record { payment = p; subscription = s }) st in
        Sets user_id s' st st'
        × (find? (λ x. x.order_id == dto.order_id) st'.payments
            ≡ some (confirmed_payment now user_id c p))
        × HasKeys st'
    unfolding settled
    settled-Sets =
        let period_end = next_period_end now s.current_period_end in
        let same : s.id ≡ p.subscription_id =
          find?-at (λ x. x.id) p.subscription_id st.subscriptions order.subscription in
        (
          λ v. rw (← same) (
              find?-update (λ x. x.user_id) (λ x. x.id) (paid_subscription period_end) user_id v
                st.subscriptions k.ids (λ r. refl) mine_found),
          find?-update (λ x. x.order_id) (λ x. x.id) (confirmed_payment now user_id c) dto.order_id
                dto.order_id st.payments k.payment_ids (λ r. refl) order.payment
              ∙ ground arith,
          record {
            ids =
                IsUnique-change (λ x. x.id) _ (paid_subscription period_end) st.subscriptions
                  (λ r. refl) k.ids;
            users =
                IsUnique-change (λ x. x.user_id) _ (paid_subscription period_end) st.subscriptions
                  (λ r. refl) k.users;
            payment_ids =
                IsUnique-change (λ x. x.id) _ (confirmed_payment now user_id c) st.payments
                  (λ r. refl) k.payment_ids;
          },
        )

    -- Where the ids are unique, a payment of the user, for the right amount, that has not been settled
    -- by this key, and that Toss approves under a key which no other payment has: the answer is the subscription with the window that the payment buys, which
    -- becomes the user's row while no other user's changes, and the order's payment is done.
    pub confirm_charged :
        let (r, st') = confirm db env now user_id dto st in
        let s' = paid_subscription (next_period_end now s.current_period_end) s in
        (r ≡ ok (to_status_response env s'))
        × Sets user_id s' st st'
        × (find? (λ x. x.order_id == dto.order_id) st'.payments
            ≡ some (confirmed_payment now user_id c p))
        × HasKeys st'
    confirm_charged =
        let (sets, pays, keys) = settled-Sets in
        let (sent, same_payments, same) =
          send_receipt_lem p.user_id (confirmed_payment now user_id c p)
            (some (next_period_end now s.current_period_end))
            (settled now user_id c (record { payment = p; subscription = s }) st) in
        rw confirm-eq (
          refl,
          (λ v. rw same (sets v)),
          rw same_payments pays,
          record {
            ids = rw same keys.ids;
            users = rw same keys.users;
            payment_ids = rw same_payments keys.payment_ids;
          },
        )
