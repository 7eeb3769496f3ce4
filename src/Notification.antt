-- ===== src/Notification.antt =====
-- backend/src/modules/notification/notification.service.ts: `NotificationService`. The id of a new
-- row is an argument; that of each row of `createMany` depends on its user.
pub mod Laws
mod Tests
use ai_planner.Prelude.{
  ℕ, Bool, true, false, Option, none, some, List, [], ◌∷◌, map, any, length, pure, gets, modify,
  throw_if, ◌>>=◌, ◌>>◌, if◌then◌else◌, ◌==◌, ◌&&◌, not,
}
use ai_planner.Prisma.{create_all}
use ai_planner.Schema.{
  User, Notification, NotificationType, Payload, Store, Prisma, HttpError, not_found,
}
use ai_planner.Payment.Subscriptions.{Call}

abbrev pub notification : ℕ → ℕ → NotificationType → Payload → Notification
notification new_id user_id kind payload = record {
  id = new_id;
  user_id = user_id;
  kind = kind;
  payload = payload;
  read = false;
}

-- `!user?.inAppNotificationsEnabled`
abbrev pub is_enabled : Option User → Bool
is_enabled none = false
is_enabled (some u) = u.in_app_notifications_enabled

module _ (db : Prisma) where
  unfoldable pub create : ℕ → ℕ → NotificationType → Payload → Call (Unit {0})
  create new_id user_id kind payload = do
    user ← gets (λ st. db.user.find_first (λ u. u.id == user_id) st.users)
    if is_enabled user
        then modify (λ st. record st {
          notifications =
              db.notification.create (notification new_id user_id kind payload) st.notifications;
        })
        else pure tt

  -- The ids of the listed users who have notifications enabled; the answer is their number.
  unfoldable pub create_many : (ℕ → ℕ) → List ℕ → NotificationType → Payload → Call ℕ
  create_many new_id user_ids kind payload = do
    enabled ← gets (λ st.
        db.user.find_many (λ u. any (λ i. u.id == i) user_ids && u.in_app_notifications_enabled)
          st.users)
    modify (λ st. record st {
      notifications =
          create_all db.notification
            (map (λ (u : User). notification (new_id u.id) u.id kind payload) enabled)
            st.notifications;
    })
    pure (length enabled)

  unfoldable pub mark_read : ℕ → ℕ → Call (Unit {0})
  mark_read user_id id = do
    count ← gets (λ st.
        length
          (db.notification.find_many (λ n. n.id == id && n.user_id == user_id) st.notifications))
    modify (λ st. record st {
      notifications =
          db.notification.update_many (λ n. n.id == id && n.user_id == user_id)
            (λ n. record n { read = true }) st.notifications;
    })
    throw_if (count == 0) not_found

  unfoldable pub mark_all_read : ℕ → Call (Unit {0})
  mark_all_read user_id = modify (λ st. record st {
    notifications =
        db.notification.update_many (λ n. n.user_id == user_id && not n.read)
          (λ n. record n { read = true }) st.notifications;
  })
