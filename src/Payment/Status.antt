-- ===== src/Payment/Status.antt =====
-- backend/src/modules/payment/payment.service.ts: what the status, cancel and resubscribe calls do
-- to the table of subscriptions, as its users see it.
use mathlib.Core.List.{map}
use ai_planner.Prelude.{
  ℕ, Bool, Option, some, none, ◌≡◌, refl, inl, inr, ◌∷◌, arith, find?, change, ok, ◌==◌, ◌&&◌,
  if◌then◌else◌, Bool-cases, ◌∙◌, sym,
}
use ai_planner.Prisma.Keys.{IsUnique, find?-key, find?-update, IsUnique-change}
use ai_planner.Schema.{Subscription, Payment, Store, Prisma}
use ai_planner.Payment.Subscriptions.{
  Env, lifecycle, same_state, same_time, find_subscription, update_subscription, sync_lifecycle,
  ensure_subscription, new_subscription, get_status, to_status_response,
}
use ai_planner.Payment.Lifecycle.{lifecycle_same, lifecycle_fields, lifecycle_idem}

-- The subscription of a user.
abbrev pub subscription_of : ℕ → Store → Option Subscription
subscription_of user_id st = find? (λ s. s.user_id == user_id) st.subscriptions

-- The `id` and the `userId` of a subscription, and the `id` of a payment, are unique.
pub record HasKeys (st : Store) : Type 0 where
  pub ids : IsUnique (λ (s : Subscription). s.id) st.subscriptions
  pub users : IsUnique (λ (s : Subscription). s.user_id) st.subscriptions
  pub payment_ids : IsUnique (λ (p : Payment). p.id) st.payments

-- The table has `s` as the row of `user_id`, and is otherwise as before.
abbrev pub Sets : ℕ → Subscription → Store → Store → Type 0
Sets user_id s st st' =
    (v : ℕ) → subscription_of v st' ≡ (if v == user_id then some s else subscription_of v st)

pub Sets-here :
    (user_id : ℕ) (st st' : Store) {s : Subscription}
    → Sets user_id s st st'
    → subscription_of user_id st' ≡ some s
Sets-here user_id st st' h = h user_id ∙ ground arith

module _ (db : Prisma) where
  update_subscription_lem :
      (p : Subscription → Bool) (f : Subscription → Subscription) (st : Store) {s : Subscription}
      → find? p st.subscriptions ≡ some s
      → update_subscription db p f st
        ≡ (ok (f s), record st { subscriptions = map (change p f) st.subscriptions })
  unfolding update_subscription find_subscription
  update_subscription_lem p f st h =
      rw (db.subscription.find_first-eq p st.subscriptions, h)
        (rw (db.subscription.update_many-eq p f st.subscriptions))

  -- An update, by its id, of a row that was found by its user.
  pub update_found :
      (f : Subscription → Subscription) (user_id : ℕ) (st : Store) {s : Subscription}
      → ((r : Subscription) → (f r).id ≡ r.id)
      → ((r : Subscription) → (f r).user_id ≡ r.user_id)
      → HasKeys st
      → subscription_of user_id st ≡ some s
      → let (r, st') = update_subscription db (λ x. x.id == s.id) f st in
        (r ≡ ok (f s)) × Sets user_id (f s) st st' × HasKeys st'
  update_found f user_id st {s} same_id same_user k found =
      rw (update_subscription_lem (λ x. x.id == s.id) f st (find?-key (λ x. x.id) _ _ k.ids found))
        (
          refl,
          (λ v.
              find?-update (λ x. x.user_id) (λ x. x.id) f user_id v st.subscriptions k.ids same_user
                found),
          record {
            ids = IsUnique-change (λ x. x.id) (λ x. x.id == s.id) f st.subscriptions same_id k.ids;
            users =
                IsUnique-change (λ x. x.user_id) (λ x. x.id == s.id) f st.subscriptions same_user
                  k.users;
            payment_ids = k.payment_ids;
          },
        )

  -- Writing the row that is there changes nothing.
  pub Sets-self :
      (user_id : ℕ) (st : Store) {s : Subscription}
      → subscription_of user_id st ≡ some s
      → Sets user_id s st st
  Sets-self user_id st {s} found v = elim (Bool-cases (v == user_id)) [
    | inl y ↦ let e : v ≡ user_id = ground arith in rw (y, e) found
    | inr n ↦ rw n refl
  ]

  sync_found :
      (now user_id : ℕ) (st : Store) {s : Subscription}
      → HasKeys st
      → subscription_of user_id st ≡ some s
      → let (r, st') = sync_lifecycle db now s st in
        (r ≡ ok (lifecycle now s)) × Sets user_id (lifecycle now s) st st' × HasKeys st'
  unfolding sync_lifecycle
  sync_found now user_id st {s} k found =
      elim (Bool-cases (
        same_state (lifecycle now s).status s.status
        && same_time (lifecycle now s).grace_ends_at s.grace_ends_at)) [
          | inl y ↦
              let e = lifecycle_same now s (ground arith) (ground arith) in
              rw (y, e) (refl, Sets-self user_id st found, k)
          | inr n ↦ rw n (
              rw (lifecycle_fields now s) at (
                update_found
                  (λ r. record r {
                    status = (lifecycle now s).status;
                    grace_ends_at = (lifecycle now s).grace_ends_at;
                  })
                  user_id st (λ r. refl) (λ r. refl) k found))
        ]

  ensure_found :
      (new_id user_id : ℕ) (st : Store) {s : Subscription}
      → subscription_of user_id st ≡ some s
      → ensure_subscription db new_id user_id st ≡ (ok s, st)
  unfolding ensure_subscription
  ensure_found new_id user_id st found =
      rw (db.subscription.find_first-eq (λ s. s.user_id == user_id) st.subscriptions, found)

  get_status-eq :
      (env : Env) (new_id now user_id : ℕ) (st : Store) {s : Subscription}
      → HasKeys st
      → subscription_of user_id st ≡ some s
      → get_status db env new_id now user_id st
        ≡ (ok (to_status_response env (lifecycle now s)), (sync_lifecycle db now s st).1)
  unfolding get_status
  get_status-eq env new_id now user_id st {s} k found =
      ground (arith, ensure_found new_id user_id st found, (sync_found now user_id st k found).0)

  -- Where the ids are unique, the status of a user with a subscription is that of the row brought up to date, which is
  -- stored; no other user's row changes.
  pub get_status_found :
      (env : Env) (new_id now user_id : ℕ) (st : Store) {s : Subscription}
      → HasKeys st
      → subscription_of user_id st ≡ some s
      → let (r, st') = get_status db env new_id now user_id st in
        (r ≡ ok (to_status_response env (lifecycle now s)))
        × Sets user_id (lifecycle now s) st st'
        × HasKeys st'
  get_status_found env new_id now user_id st {s} k found =
      let (synced, sets, keys) = sync_found now user_id st k found in
      rw (get_status-eq env new_id now user_id st k found) (refl, sets, keys)

  ensure_new :
      (new_id user_id : ℕ) (st : Store)
      → subscription_of user_id st ≡ none
      → ensure_subscription db new_id user_id st ≡ (
        ok (new_subscription new_id user_id),
        record st { subscriptions = new_subscription new_id user_id ∷ st.subscriptions },
      )
  unfolding ensure_subscription
  ensure_new new_id user_id st missing =
      rw (db.subscription.find_first-eq (λ s. s.user_id == user_id) st.subscriptions, missing)
        (rw (db.subscription.create-eq (new_subscription new_id user_id) st.subscriptions))

  get_status_new-eq :
      (env : Env) (new_id now user_id : ℕ) (st : Store)
      → subscription_of user_id st ≡ none
      → get_status db env new_id now user_id st ≡ (
        ok (to_status_response env (new_subscription new_id user_id)),
        record st { subscriptions = new_subscription new_id user_id ∷ st.subscriptions },
      )
  unfolding get_status sync_lifecycle lifecycle
  get_status_new-eq env new_id now user_id st missing =
      ground (arith, ensure_new new_id user_id st missing)

  -- A user without a subscription gets an inactive one, and no access; no other row changes.
  pub get_status_new :
      (env : Env) (new_id now user_id : ℕ) (st : Store)
      → subscription_of user_id st ≡ none
      → let (r, st') = get_status db env new_id now user_id st in
        (r ≡ ok (to_status_response env (new_subscription new_id user_id)))
        × Sets user_id (new_subscription new_id user_id) st st'
  get_status_new env new_id now user_id st missing =
      rw (get_status_new-eq env new_id now user_id st missing) (refl, λ v. ground arith)

  -- Where the ids are unique, asking again for a user with a subscription at the same time gives the same answer, and every user's row stays as it is.
  pub get_status_idem :
      (env : Env) (new_id other_id now user_id : ℕ) (st : Store) {s : Subscription}
      → HasKeys st
      → subscription_of user_id st ≡ some s
      → let (r, st') = get_status db env new_id now user_id st in
        let (r', st'') = get_status db env other_id now user_id st' in
        (r' ≡ r) × ((v : ℕ) → subscription_of v st'' ≡ subscription_of v st')
  get_status_idem env new_id other_id now user_id st {s} k found =
      let (answer, sets, keys) = get_status_found env new_id now user_id st k found in
      let st' = (get_status db env new_id now user_id st).1 in
      let again : subscription_of user_id st' ≡ some (lifecycle now s) =
        Sets-here user_id st st' sets in
      let (answer', sets', keys') = get_status_found env other_id now user_id st' keys again in
      (
        rw (answer, answer', lifecycle_idem now s) refl,
        λ v. rw (lifecycle_idem now s) at (sets' v) ∙ sym (Sets-self user_id st' again v),
      )
