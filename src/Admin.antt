-- ===== src/Admin.antt =====
-- backend/src/modules/admin/admin.service.ts: what an administrator changes of users, and the lists of
-- users, plans and workspaces. A transaction is one change of the state. The columns that an answer
-- takes along are those of the row; what `orderBy` and `contains` do enters as parameters.
pub mod Keeping
pub mod Ordering
pub mod Sorting
pub mod Paging
mod Tests
use ai_planner.Prelude.{
  ℕ, suc, ◌+◌, ◌-◌, ◌*◌, ◌/◌, Bool, true, false, not, String, Option, none, some, List, [], ◌∷◌,
  select, length, take, drop, pure, gets, modify, throw_if, or_throw, ◌>>=◌, ◌>>◌, if◌then◌else◌,
  ◌==◌, leb, ltb, ◌&&◌, ◌||◌, is_some, is_empty, trim,
}
use ai_planner.Schema.{
  User, UserRole, Subscription, SubscriptionState, Plan, Workspace, Store, Prisma, HttpError,
  bad_request, forbidden, not_found,
}
use ai_planner.Payment.Subscriptions.{Call, same_state}

-- Of `AuthenticatedUser`, what the service reads.
pub record Requester : Type 0 where
  pub user_id : ℕ
  pub admin_read_only : Bool

abbrev pub is_admin : UserRole → Bool
is_admin UserRole.admin = true
is_admin UserRole.user = false

-- `{ role: 'ADMIN', isSuspended: false, deletedAt: null }`
abbrev pub is_active_admin : User → Bool
is_active_admin u = is_admin u.role && not u.is_suspended && not (is_some u.deleted_at)

abbrev pub active_admins : List User → ℕ
active_admins t = length (select is_active_admin t)

module _ (db : Prisma) where
  abbrev pub update_user : ℕ → (User → User) → Store → Store
  update_user user_id f st = record st {
    users = db.user.update_many (λ u. u.id == user_id) f st.users;
  }

  abbrev pub count_admins : Store → ℕ
  count_admins st = length (db.user.find_many is_active_admin st.users)

  unfoldable pub update_user_role : ℕ → UserRole → Requester → Call User
  update_user_role user_id role requester = do
    throw_if requester.admin_read_only forbidden
    throw_if (requester.user_id == user_id) bad_request
    found ← gets (λ st. db.user.find_first (λ u. u.id == user_id) st.users)
    target ← or_throw found not_found
    active ← gets count_admins
    throw_if
        (if is_admin target.role && target.is_suspended
          then false
          else is_admin target.role && not (is_admin role) && leb active 1)
        bad_request
    modify (update_user user_id (λ u. record u { role = role }))
    pure (record target { role = role })

  unfoldable pub suspend_user : ℕ → Bool → Requester → Call User
  suspend_user user_id suspended requester = do
    throw_if requester.admin_read_only forbidden
    throw_if (requester.user_id == user_id) bad_request
    found ← gets (λ st. db.user.find_first (λ u. u.id == user_id) st.users)
    target ← or_throw found not_found
    active ← gets count_admins
    throw_if (is_admin target.role && not target.is_suspended && suspended && leb active 1)
        bad_request
    modify (update_user user_id (λ u. record u { is_suspended = suspended }))
    pure (record target { is_suspended = suspended })

pub data Provider : Type 0 where
  google kakao naver local : Provider

pub record UserListFilters : Type 0 where
  pub search : Option String
  pub provider : Option Provider
  pub email_verified : Option Bool
  pub subscription_status : Option SubscriptionState
  pub page : Option ℕ
  pub limit : Option ℕ

abbrev pub default_limit : ℕ
default_limit = 20

abbrev pub max_limit : ℕ
max_limit = 100

-- What `where` asks of a row, of the database: `contains` on an address and on an id, in either case,
-- and `orderBy: { createdAt: 'desc' }` in the query of each page: rows made at the same time may come
-- in another order at each.
pub record Queries : Type 0 where
  pub email_contains : Option String → String → Bool
  pub id_contains : ℕ → String → Bool
  pub newest_users : ℕ → List User → List User
  pub newest_plans : ℕ → List Plan → List Plan
  pub newest_workspaces : ℕ → List Workspace → List Workspace

abbrev pub max : ℕ → ℕ → ℕ
max a b = if leb a b then b else a

abbrev pub min : ℕ → ℕ → ℕ
min a b = if leb a b then a else b

abbrev pub or_else : Option ℕ → ℕ → ℕ
or_else none d = d
or_else (some n) d = n

abbrev pub has_provider : Option Provider → User → Bool
has_provider none u = true
has_provider (some local) u =
    not (is_some u.google_id) && not (is_some u.kakao_id) && not (is_some u.naver_id)
has_provider (some google) u = is_some u.google_id
has_provider (some kakao) u = is_some u.kakao_id
has_provider (some naver) u = is_some u.naver_id

abbrev pub same_flag : Option Bool → Bool → Bool
same_flag none b = true
same_flag (some true) b = b
same_flag (some false) b = not b

abbrev pub has_subscription : Option SubscriptionState → List Subscription → User → Bool
has_subscription none t u = true
has_subscription (some status) t u =
    ltb 0 (length (select (λ s. s.user_id == u.id && same_state s.status status) t))

abbrev pub is_found : Queries → Option String → User → Bool
is_found q none u = true
is_found q (some text) u =
    is_empty (trim text) || q.email_contains u.email (trim text) || q.id_contains u.id (trim text)

pub record Page (Row : Type 0) : Type 0 where
  pub items : List Row
  pub total : ℕ
  pub page : ℕ
  pub limit : ℕ
  pub total_pages : ℕ

-- `skip` and `take` of the rows in their order, and `Math.max(1, Math.ceil(total / limit))`
abbrev pub page_of : {Row : Type 0} → List Row → ℕ → ℕ → ℕ → Page Row
page_of rows total page limit = record {
  items = take limit (drop ((page - 1) * limit) rows);
  total = total;
  page = page;
  limit = limit;
  total_pages = max 1 ((total + (limit - 1)) / limit);
}

module _ (db : Prisma) (q : Queries) where
  -- `where`
  abbrev pub is_listed : UserListFilters → Store → User → Bool
  is_listed f st u =
      is_found q f.search u
      && same_flag f.email_verified u.email_verified
      && has_provider f.provider u
      && has_subscription f.subscription_status st.subscriptions u

  unfoldable pub list_users : UserListFilters → Store → Page User
  list_users f st =
      let rows = db.user.find_many (is_listed f st) st.users in
      let page = max 1 (or_else f.page 1) in
      page_of (q.newest_users page rows) (length rows) page
        (min max_limit (max 1 (or_else f.limit default_limit)))

  unfoldable pub list_plans : ℕ → ℕ → Store → Page Plan
  list_plans page limit st =
      let rows = db.plan.find_many (λ _. true) st.plans in
      page_of (q.newest_plans page rows) (length rows) page limit

  unfoldable pub list_workspaces : ℕ → ℕ → Store → Page Workspace
  list_workspaces page limit st =
      let rows = db.workspace.find_many (λ _. true) st.workspaces in
      page_of (q.newest_workspaces page rows) (length rows) page limit
