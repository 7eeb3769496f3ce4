-- ===== src/Payment/Cancel.antt =====
-- backend/src/modules/payment/payment.service.ts: cancelling, resubscribing, and the webhook.
use ai_planner.Prelude.{JsString, ℕ, true, some, none, ◌≡◌, refl, arith, ok, ◌==◌, ◌∙◌}
use ai_planner.Schema.{Subscription, Store, Prisma}
use ai_planner.Payment.Subscriptions.{
  has_access, cancel_by_user, resubscribe_by_user, update_subscription,
}
use ai_planner.Payment.Orders.{handle_webhook, WebhookBody}
use ai_planner.Payment.Status.{subscription_of, HasKeys, Sets, Sets-here, Sets-self, update_found}

module _ (db : Prisma) where
  cancel-eq :
      (now user_id : ℕ) (st : Store) {s : Subscription}
      → HasKeys st
      → subscription_of user_id st ≡ some s
      → has_access s.status ≡ true
      → cancel_by_user db now user_id st ≡ (
        ok tt,
        (update_subscription db
            (λ x. x.id == s.id)
            (λ r. record r { cancelled_at = some now })
            st).1,
      )
  unfolding cancel_by_user
  cancel-eq now user_id st {s} k found access =
      let (sent, _, _) =
        update_found db (λ r. record r { cancelled_at = some now }) user_id st (λ r. refl)
          (λ r. refl) k found in
      rw (db.subscription.find_first-eq (λ x. x.user_id == user_id) st.subscriptions, found)
        (ground arith)

  -- Where the ids are unique, a user with access who cancels keeps the row, its status and its period, and only gets the time
  -- of the cancellation; nobody else's row changes.
  pub cancel_found :
      (now user_id : ℕ) (st : Store) {s : Subscription}
      → HasKeys st
      → subscription_of user_id st ≡ some s
      → has_access s.status ≡ true
      → let (r, st') = cancel_by_user db now user_id st in
        (r ≡ ok tt) × Sets user_id (record s { cancelled_at = some now }) st st' × HasKeys st'
  cancel_found now user_id st {s} k found access =
      let (sent, sets, keys) =
        update_found db (λ r. record r { cancelled_at = some now }) user_id st (λ r. refl)
          (λ r. refl) k found in
      rw (cancel-eq now user_id st k found access) (refl, sets, keys)

  resubscribe-eq :
      (user_id time : ℕ) (st : Store) {s : Subscription}
      → HasKeys st
      → subscription_of user_id st ≡ some s
      → has_access s.status ≡ true
      → s.cancelled_at ≡ some time
      → resubscribe_by_user db user_id st ≡ (
        ok tt,
        (update_subscription db (λ x. x.id == s.id) (λ r. record r { cancelled_at = none }) st).1,
      )
  unfolding resubscribe_by_user
  resubscribe-eq user_id time st {s} k found access was =
      let (sent, _, _) =
        update_found db (λ r. record r { cancelled_at = none }) user_id st (λ r. refl) (λ r. refl) k
          found in
      rw (db.subscription.find_first-eq (λ x. x.user_id == user_id) st.subscriptions, found)
        (ground arith)

  -- Where the ids are unique, and a user with access has not cancelled before: resubscribing after a
  -- cancellation takes it back: every user's row is as it was before.
  resubscribe-cancel :
      (now user_id : ℕ) (st : Store) {s : Subscription}
      → HasKeys st
      → subscription_of user_id st ≡ some s
      → has_access s.status ≡ true
      → s.cancelled_at ≡ none
      → let st' = (cancel_by_user db now user_id st).1 in
        let (r, st'') = resubscribe_by_user db user_id st' in
        (r ≡ ok tt) × ((v : ℕ) → subscription_of v st'' ≡ subscription_of v st)
  resubscribe-cancel now user_id st {s} k found access fresh =
      let (_, sets, keys) = cancel_found now user_id st k found access in
      let st' = (cancel_by_user db now user_id st).1 in
      let there = Sets-here user_id st st' sets in
      let (_, sets', _) =
        update_found db (λ r. record r { cancelled_at = none }) user_id st' (λ r. refl) (λ r. refl)
          keys there in
      let same : record s { cancelled_at = none } ≡ s = ground arith in
      rw (resubscribe-eq user_id now st' keys there access refl)
        (refl, λ v. sets' v ∙ ground (arith, sets v, Sets-self db user_id st found v, same))

  -- A webhook, whatever it holds, changes no subscription: not even one that reports that the
  -- payment behind it was cancelled.
  pub webhook-subscriptions :
      (js : JsString) (body : WebhookBody) (st : Store)
      → (handle_webhook db js body st).1.subscriptions ≡ st.subscriptions
  unfolding handle_webhook
  webhook-subscriptions js body st = ground arith
