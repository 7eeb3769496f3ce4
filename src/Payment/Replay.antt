-- ===== src/Payment/Replay.antt =====
-- backend/src/modules/payment/payment.service.ts: confirming an order a second time.

use mathlib.Core.Path.{subst}
use ai_planner.Prelude.{
  ℕ, true, false, some, none, ◌≡◌, refl, arith, find?, ok, ◌==◌, ◌&&◌, ◌∙◌, ap, not, ◌<◌, some_is,
}
use ai_planner.Prisma.Keys.{find?-at, find?-key}
use ai_planner.Schema.{Subscription, Payment, Store, Prisma}
use ai_planner.Payment.Subscriptions.{
  Env, ConfirmPaymentDto, TossConfirmResponse, lifecycle, sync_lifecycle, to_status_response,
  same_state, same_time,
}
use ai_planner.Payment.Orders.{
  replay, confirm, confirm_with_toss, is_done, next_period_end, paid_subscription,
}
use ai_planner.Payment.Confirm.{IsOrder, paid_window, load_payment_lem, confirm_charged}
use ai_planner.Payment.Status.{subscription_of, HasKeys, Sets-here}

same_self :
    (s : Subscription)
    → same_state s.status s.status && same_time s.grace_ends_at s.grace_ends_at ≡ true
same_self s = ground arith

to_status_same :
    (env' env : Env) (s : Subscription)
    → env'.monthly_amount ≡ env.monthly_amount
    → to_status_response env' s ≡ to_status_response env s
unfolding to_status_response
to_status_same env' env s e = ground arith

module _ (db : Prisma) where
  sync_same :
      (now : ℕ) (s : Subscription) (st : Store)
      → lifecycle now s ≡ s
      → sync_lifecycle db now s st ≡ (ok s, st)
  unfolding sync_lifecycle
  sync_same now s st same = rw (same, same_self s)

  replay_lem :
      (env : Env) (later user_id : ℕ) (st : Store) {s : Subscription}
      → subscription_of user_id st ≡ some s
      → lifecycle later s ≡ s
      → replay db env later user_id st ≡ (ok (to_status_response env s), st)
  unfolding replay
  replay_lem env later user_id st {s} mine same =
      rw (db.subscription.find_first-eq (λ x. x.user_id == user_id) st.subscriptions, mine)
        (ground (arith, sync_same later s st same))

  -- Where the ids are unique: confirming an order of the user again, for its amount and with the key
  -- that settled its payment, while the subscription's status is up to date, answers that
  -- subscription and writes nothing, whatever Toss would say.
  pub confirm_replay :
      (env : Env) (later user_id : ℕ) (dto : ConfirmPaymentDto) (st : Store) {p : Payment}
      {s : Subscription}
      → HasKeys st
      → IsOrder st dto p s
      → s.user_id ≡ user_id
      → p.amount ≡ dto.amount
      → is_done p.status ≡ true
      → p.payment_key ≡ some dto.payment_key
      → lifecycle later s ≡ s
      → confirm db env later user_id dto st ≡ (ok (to_status_response env s), st)
  unfolding confirm
  confirm_replay env later user_id dto st {p} {s} k order mine price settled_before key same =
      let found =
        find?-key (λ x. x.user_id) (λ x. x.id == p.subscription_id) st.subscriptions k.users
          order.subscription in
      let mine_found : subscription_of user_id st ≡ some s =
        subst (λ u. subscription_of u st ≡ some s) mine found in
      ground
        (arith, load_payment_lem db st dto order, replay_lem env later user_id st mine_found same)

  module _ (env : Env) (now user_id : ℕ) (dto : ConfirmPaymentDto) (st : Store) {p : Payment}
      {s : Subscription} {c : TossConfirmResponse} (k : HasKeys st) (order : IsOrder st dto p s)
      (mine : s.user_id ≡ user_id) (price : p.amount ≡ dto.amount)
      (unsettled : is_done p.status && some_is p.payment_key dto.payment_key ≡ false)
      (charged : confirm_with_toss env now dto ≡ ok c)
      (fresh : find? (λ x. not (x.id == p.id) && some_is x.payment_key c.payment_key) st.payments
        ≡ none)
      (same_key : c.payment_key ≡ dto.payment_key) where
    -- Where the ids are unique, and an order is the user's, for the right amount and not yet settled
    -- by the key, which no other payment has and under which Toss approves it: after it is confirmed,
    -- confirming it again before its window is over, at the same price, answers as the first time
    -- did and writes nothing, whatever Toss would say then.
    pub confirm_twice :
        (env' : Env) (later : ℕ)
        → env'.monthly_amount ≡ env.monthly_amount
        → later < next_period_end now s.current_period_end
        → let (r, st') = confirm db env now user_id dto st in
          confirm db env' later user_id dto st' ≡ (r, st')
    confirm_twice env' later price' running =
        let period_end = next_period_end now s.current_period_end in
        let (answer, sets, pays, keys) =
          confirm_charged db env now user_id dto st k order mine price unsettled charged fresh in
        let st' = (confirm db env now user_id dto st).1 in
        let again =
          find?-key (λ (x : Subscription). x.id) (λ x. x.user_id == user_id) st'.subscriptions
            keys.ids (Sets-here user_id st st' sets) in
        let same : s.id ≡ p.subscription_id =
          find?-at (λ x. x.id) p.subscription_id st.subscriptions order.subscription in
        rw answer (
          confirm_replay env' later user_id dto st' keys
            (record {
              payment = pays;
              subscription =
                  subst
                    (λ i.
                      find? (λ x. x.id == i) st'.subscriptions
                      ≡ some (paid_subscription period_end s))
                    same again;
            })
            mine price refl (ap some same_key) (paid_window now later s running).2
          ∙ ap (λ x. (ok x, st')) (to_status_same env' env (paid_subscription period_end s) price'))
