-- ===== src/Admin/Tests.antt =====
-- backend/src/modules/admin/admin.service.ts, on a small database.
use mathlib.Core.List.{Permᴰ}
use ai_planner.Admin.Ordering.{IsNewestFirst}
use ai_planner.Admin.Sorting.{newest_first, newest_first-Perm, newest_first-IsNewestFirst}
use ai_planner.Prelude.{ℕ, ◌≤◌, true, false, some, none, ◌∷◌, ◌≡◌, refl, arith, err, length, select}
use ai_planner.Prisma.Keys.{IsUnique}
use ai_planner.Samples.{memory, store, ann}
use ai_planner.Schema.{User, UserRole, Store, bad_request}
use ai_planner.Admin.{
  Requester, UserListFilters, Queries, active_admins, update_user_role, suspend_user, list_users,
  is_listed,
}
use ai_planner.Admin.Keeping.{set_suspended, perform, perform-HasAdmin}
use ai_planner.Admin.Paging.{read_pages, list_users-pages}

abbrev chief : User
chief = record ann { id = 11; role = UserRole.admin }

abbrev deputy : User
deputy = record ann { id = 12; role = UserRole.admin }

abbrev staffed : Store
staffed = record store { users = chief ∷ deputy ∷ store.users }

abbrev by_chief : Requester
by_chief = record { user_id = 11; admin_read_only = false }

abbrev by_deputy : Requester
by_deputy = record { user_id = 12; admin_read_only = false }

-- The second one goes, and the one that is left stays.
abbrev alone : Store
alone = perform memory by_chief (set_suspended 12 true) staffed

last_one : (update_user_role memory 11 UserRole.user by_deputy alone).0 ≡ err bad_request
unfolding update_user_role suspend_user
last_one = refl

not_self : (suspend_user memory 11 true by_chief staffed).0 ≡ err bad_request
unfolding suspend_user
not_self = refl

unique_ids : IsUnique (λ u. u.id) staffed.users
unique_ids = ground arith

perform-HasAdmin_example :
    1 ≤ active_admins (perform memory by_chief (set_suspended 12 true) staffed).users
perform-HasAdmin_example =
    perform-HasAdmin memory by_chief (set_suspended 12 true) staffed unique_ids (ground arith)

abbrev queries : Queries
queries = record {
  email_contains = λ email part. true;
  id_contains = λ i part. false;
  newest_users = λ k t. newest_first (λ u. u.id) t;
  newest_plans = λ k t. t;
  newest_workspaces = λ k t. t;
}

abbrev all_users : UserListFilters
all_users = record {
  search = none;
  provider = none;
  email_verified = none;
  subscription_status = none;
  page = none;
  limit = some 3;
}

unique_listed :
    IsUnique (λ u. u.id) (select (is_listed memory queries all_users staffed) staffed.users)
unique_listed = ground arith

list_users-pages_example :
    let page =
      λ (k : ℕ). (list_users memory queries (record all_users { page = some k }) staffed).items in
    let all = read_pages page 0 (list_users memory queries all_users staffed).total_pages in
    Permᴰ all (select (is_listed memory queries all_users staffed) staffed.users)
    × IsNewestFirst (λ u. u.id) all
    × ((k : ℕ) → length (page k) ≤ 100)
list_users-pages_example =
    list_users-pages memory queries all_users staffed (λ u. u.id)
      (λ k t. newest_first-Perm (λ u. u.id) t) (λ k t. newest_first-IsNewestFirst (λ u. u.id) t)
      unique_listed
