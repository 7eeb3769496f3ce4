-- ===== src/Notification/Tests.antt =====
-- backend/src/modules/notification/notification.service.ts, on a small database.
use ai_planner.Prelude.{false, [], ◌∷◌, none, ◌≡◌, err, select, not, ◌==◌}
use ai_planner.Samples.{memory, store}
use ai_planner.Schema.{Store, plan_edited, about_plan, not_found}
use ai_planner.Notification.{mark_read, mark_all_read}
use ai_planner.Notification.Laws.{unread, mark_read_own}

abbrev notified : Store
notified = record store {
  notifications =
      record {
        id = 101;
        user_id = 1;
        kind = plan_edited;
        payload = about_plan 81 none none;
        read = false;
      }
      ∷ record {
        id = 102;
        user_id = 2;
        kind = plan_edited;
        payload = about_plan 81 none none;
        read = false;
      }
      ∷ [];
}

mark_read_own_example :
    let (r, st') = mark_read memory 1 102 notified in
    let (all, st'') = mark_all_read memory 1 notified in
    (select (λ n. not (n.user_id == 1)) st'.notifications
      ≡ select (λ n. not (n.user_id == 1)) notified.notifications)
    × (select (λ n. not (n.user_id == 1)) st''.notifications
        ≡ select (λ n. not (n.user_id == 1)) notified.notifications)
    × (r ≡ err not_found)
    × (unread 1 st''.notifications ≡ [])
mark_read_own_example = mark_read_own memory 1 102 notified
