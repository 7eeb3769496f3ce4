-- ===== src/Workspace/Frames.antt =====
-- backend/src/modules/workspace/workspace.service.ts: which tables the parts of the calls leave
-- alone.
use ai_planner.Prelude.{JsString, ℕ, Bool, List, none, ◌≡◌, arith, ok}
use ai_planner.Schema.{Store, Prisma, NotificationType, Payload, WorkspaceMember}
use ai_planner.Payment.Subscriptions.{
  Env, get_status, ensure_subscription, sync_lifecycle, update_subscription,
}
use ai_planner.Notification
use ai_planner.Workspace.{Ids, find_membership, assert_paid_access}

module _ (db : Prisma) where
  -- A status check writes to the subscriptions alone.
  pub get_status-frame :
      (env : Env) (new_id now user_id : ℕ) (st : Store)
      → let st' = (get_status db env new_id now user_id st).1 in
        st' ≡ record st { subscriptions = st'.subscriptions }
  unfolding get_status ensure_subscription sync_lifecycle update_subscription
  get_status-frame env new_id now user_id st = ground arith

  -- A notification writes to the notifications alone, and does not throw.
  pub create-frame :
      (new_id user_id : ℕ) (kind : NotificationType) (payload : Payload) (st : Store)
      → let (r, st') = Notification.create db new_id user_id kind payload st in
        (r ≡ ok tt) × (st' ≡ record st { notifications = st'.notifications })
  unfolding Notification.create
  create-frame new_id user_id kind payload st = ground arith

  pub create_many-frame :
      (new_id : ℕ → ℕ) (user_ids : List ℕ) (kind : NotificationType) (payload : Payload)
      (st : Store)
      → let st' = (Notification.create_many db new_id user_ids kind payload st).1 in
        st' ≡ record st { notifications = st'.notifications }
  unfolding Notification.create_many
  create_many-frame new_id user_ids kind payload st = ground arith

  module _ (js : JsString) (env : Env) (ids : Ids) where
    pub find_membership-frame :
        (now : ℕ) (p : WorkspaceMember → Bool) (st : Store)
        → (find_membership db js env ids now p st).1 ≡ st
    unfolding find_membership
    find_membership-frame now p st = ground arith

    -- Nobody is found as a member exactly if no row fits.
    pub find_membership-none :
        (now : ℕ) (p : WorkspaceMember → Bool) (st : Store)
        → (find_membership db js env ids now p st).0 ≡ ok none
        → db.workspace_member.find_first p st.members ≡ none
    unfolding find_membership
    find_membership-none now p st h = ground arith

    pub assert_paid_access-frame :
        (now user_id : ℕ) (st : Store)
        → let st' = (assert_paid_access db js env ids now user_id st).1 in
          st' ≡ record st { subscriptions = st'.subscriptions }
    unfolding assert_paid_access
    assert_paid_access-frame now user_id st =
        ground (arith, get_status-frame env ids.subscription now user_id st)
