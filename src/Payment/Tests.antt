-- ===== src/Payment/Tests.antt =====
-- backend/src/modules/payment/payment.service.ts, on a small database.

use ai_planner.Prelude.{◌<◌, true, false, [], ◌∷◌, some, none, ok, err, ◌≡◌, ◌↔◌, refl, arith}
use ai_planner.Samples.{memory, env, subscription, payment, payment_dto, store}
use ai_planner.Schema.{Store, Subscription, Payment, expired, done, not_found}
use ai_planner.Payment.Subscriptions.{has_access, lifecycle}
use ai_planner.Payment.Orders.{
  confirm, confirm_with_toss, next_period_end, WebhookBody, load_payment,
}
use ai_planner.Payment.Lifecycle.{IsEntitled, lifecycle-access_iff}
use ai_planner.Payment.Status.{HasKeys}
use ai_planner.Payment.Confirm.{IsOrder, confirm-IsAtomic}
use ai_planner.Payment.Replay.{confirm_twice}

keys : HasKeys store
keys = record { ids = ground arith; users = ground arith; payment_ids = ground arith }

order : IsOrder store payment_dto payment subscription
order = record { payment = refl; subscription = refl }

approved :
    confirm_with_toss env 1000 payment_dto
    ≡ ok (record { payment_key = 41; method = none; approved_at = some 1000 })
unfolding confirm_with_toss
approved = refl

lifecycle-access_iff_example :
    (has_access (lifecycle 3000 subscription).status ≡ true) ↔ IsEntitled 3000 subscription
lifecycle-access_iff_example = lifecycle-access_iff 3000 subscription

abbrev lapsed_row : Subscription
lapsed_row = record subscription { status = expired }

no_access : has_access (lifecycle 3000 lapsed_row).status ≡ false
unfolding lifecycle
no_access = refl

in_window : 1500 < next_period_end 1000 subscription.current_period_end
unfolding next_period_end
in_window = ground arith

thrown : (confirm memory env 1000 2 payment_dto store).0 ≡ err not_found
unfolding confirm load_payment
thrown = refl

-- The payment of another user.
confirm-IsAtomic_example : (confirm memory env 1000 2 payment_dto store).1 ≡ store
confirm-IsAtomic_example = confirm-IsAtomic memory env 1000 2 payment_dto store not_found thrown

abbrev settled_payment : Payment
settled_payment = record payment { status = done; payment_key = some 41 }

abbrev settled_store : Store
settled_store = record store { payments = settled_payment ∷ [] }

settled_keys : HasKeys settled_store
settled_keys = record { ids = ground arith; users = ground arith; payment_ids = ground arith }

running : lifecycle 1500 subscription ≡ subscription
unfolding lifecycle
running = refl

confirm_twice_example :
    let (r, st') = confirm memory env 1000 1 payment_dto store in
    confirm memory env 1500 1 payment_dto st' ≡ (r, st')
confirm_twice_example =
    confirm_twice memory env 1000 1 payment_dto store keys order refl refl refl approved refl refl
      env 1500 refl in_window

abbrev cancel_body : WebhookBody
cancel_body = record {
  order_id = none;
  data_order_id = some 31;
  status = none;
  event_type = some "cancel";
}
