-- ===== src/Plan/Access.antt =====
-- backend/src/modules/plan/plan.service.ts: who may read and change a plan, `get`, `update`,
-- `share`, `delete` and what they share.
use ai_planner.Prelude.{
  ℕ, Bool, false, String, Option, none, some, List, map, any, length, pure, gets, modify, or_throw,
  throw_if, ◌>>=◌, ◌>>◌, ◌==◌, ◌&&◌, ◌||◌, not, is_some,
}
use ai_planner.Schema.{
  Workspace, WorkspaceMember, Plan, PlanItem, PlanMemo, Prisma, NotificationType, Payload,
  bad_request, forbidden, not_found, conflict, internal, plan_edited, plan_shared, plan_deleted,
  about_plan,
}
use ai_planner.Payment.Subscriptions.{Call, Env, get_status}
use ai_planner.Notification

-- A plan with its workspace, items and memos (`planInclude`).
pub record FullPlan : Type 0 where
  pub plan : Plan
  pub workspace : Option Workspace
  pub items : List PlanItem
  pub memos : List PlanMemo

-- `categoryId` of the request: absent, `null` or an id. `summary` likewise.
pub data Field (A : Type 0) : Type 0 where
  absent : Field A
  given : Option A → Field A

abbrev pub or_current : {A : Type 0} → Field A → Option A → Option A
or_current absent current = current
or_current (given x) current = x

pub record UpdatePlanDto : Type 0 where
  pub updated_at : ℕ
  pub summary : Field String
  pub category_id : Field ℕ

abbrev pub name_of : Option Workspace → Option String
name_of none = none
name_of (some w) = some w.name

-- The ids of new rows: a subscription, and a notification to a user.
pub record Ids : Type 0 where
  pub subscription : ℕ
  pub notification : ℕ → ℕ

-- The parts of `buildAccessibleWhere`.
abbrev pub is_member : ℕ → List WorkspaceMember → Option ℕ → Bool
is_member user_id members none = false
is_member user_id members (some w) =
    any (λ (m : WorkspaceMember). m.user_id == user_id && m.workspace_id == w) members

abbrev pub is_accessible : ℕ → List WorkspaceMember → Plan → Bool
is_accessible user_id members p =
    (p.user_id == user_id && not (is_some p.workspace_id))
    || is_member user_id members p.workspace_id

-- `where: { id, updatedAt }`
abbrev pub is_version : ℕ → ℕ → Plan → Bool
is_version plan_id updated_at p = p.id == plan_id && p.updated_at == updated_at

module _ (db : Prisma) (env : Env) (ids : Ids) where
  -- The order in which items and memos come is left open: no code below reads it.
  unfoldable pub include : Plan → Call FullPlan
  include p = do
    w ← gets (λ st. elim p.workspace_id [
      | none ↦ none
      | some i ↦ db.workspace.find_first (λ w. w.id == i) st.workspaces
    ])
    items ← gets (λ st. db.plan_item.find_many (λ x. x.plan_id == p.id) st.items)
    memos ← gets (λ st. db.plan_memo.find_many (λ x. x.plan_id == p.id) st.memos)
    pure (record { plan = p; workspace = w; items = items; memos = memos })

  unfoldable pub get : ℕ → ℕ → Call FullPlan
  get user_id plan_id = do
    p ←
        or_throw
          (← gets (λ st.
            db.plan.find_first (λ p. p.id == plan_id && is_accessible user_id st.members p)
              st.plans))
          not_found
    include p

  -- The row of a member with the workspace, whose owner must have access.
  unfoldable pub assert_writable : ℕ → (WorkspaceMember → Bool) → Call Workspace
  assert_writable now p = do
    m ← or_throw (← gets (λ st. db.workspace_member.find_first p st.members)) not_found
    w ←
        or_throw
          (← gets (λ st. db.workspace.find_first (λ w. w.id == m.workspace_id) st.workspaces))
          internal
    status ← get_status db env ids.subscription now w.owner_id
    throw_if (not status.has_access) forbidden
    pure w

  unfoldable pub assert_workspace_writable : ℕ → ℕ → ℕ → Call Workspace
  assert_workspace_writable now user_id workspace_id =
      assert_writable now (λ m. m.user_id == user_id && m.workspace_id == workspace_id)

  unfoldable pub get_current_workspace : ℕ → ℕ → Call Workspace
  get_current_workspace now user_id = assert_writable now (λ m. m.user_id == user_id)

  -- `if (current.workspaceId) await this.assertWorkspaceWritable(...)`
  unfoldable pub assert_plan_writable : ℕ → ℕ → Plan → Call (Unit {0})
  assert_plan_writable now user_id p = elim p.workspace_id [
    | none ↦ pure tt
    | some w ↦ assert_workspace_writable now user_id w >> pure tt
  ]

  unfoldable pub notify_workspace_members :
      Option ℕ → ℕ → NotificationType → Payload → Call (Unit {0})
  notify_workspace_members none actor kind payload = pure tt
  notify_workspace_members (some w) actor kind payload = do
    members ← gets (λ st.
        db.workspace_member.find_many (λ m. m.workspace_id == w && not (m.user_id == actor))
          st.members)
    Notification.create_many db ids.notification (map (λ (m : WorkspaceMember). m.user_id) members)
        kind payload
    pure tt

  -- `updateMany`: the number of rows, and the rows changed, their `updatedAt` set by the client.
  unfoldable pub update_plans : ℕ → (Plan → Bool) → (Plan → Plan) → Call ℕ
  update_plans now p f = do
    count ← gets (λ st. length (db.plan.find_many p st.plans))
    modify (λ st. record st {
      plans = db.plan.update_many p (λ r. record (f r) { updated_at = now }) st.plans;
    })
    pure count

  unfoldable pub touch_plan : ℕ → ℕ → ℕ → ℕ → Call FullPlan
  touch_plan now user_id plan_id updated_at = do
    current ← get user_id plan_id
    count ← update_plans now (is_version plan_id updated_at) (λ r. r)
    throw_if (count == 0) conflict
    pure current

  unfoldable pub check_category : ℕ → Option ℕ → Call (Unit {0})
  check_category user_id none = pure tt
  check_category user_id (some c) = do
    found ←
        gets (λ st. db.category.find_first (λ x. x.id == c && x.user_id == user_id) st.categories)
    throw_if (not (is_some found)) not_found

  -- `update` from its write on.
  unfoldable pub write_update : ℕ → ℕ → ℕ → UpdatePlanDto → Plan → Call FullPlan
  write_update now user_id plan_id dto current = do
    count ← update_plans now (is_version plan_id dto.updated_at) (λ r. record r {
      summary = or_current dto.summary current.summary;
      category_id = or_current dto.category_id current.category_id;
    })
    throw_if (count == 0) conflict
    updated ← get user_id plan_id
    notify_workspace_members updated.plan.workspace_id user_id plan_edited
        (about_plan updated.plan.id updated.plan.summary (name_of updated.workspace))
    pure updated

  unfoldable pub update : ℕ → ℕ → ℕ → UpdatePlanDto → Call FullPlan
  update now user_id plan_id dto = do
    current ← get user_id plan_id
    assert_plan_writable now user_id current.plan
    check_category user_id (or_current dto.category_id current.plan.category_id)
    write_update now user_id plan_id dto current.plan

  unfoldable pub share : ℕ → ℕ → ℕ → ℕ → Call FullPlan
  share now user_id plan_id updated_at = do
    current ←
        or_throw
          (← gets
            (λ st. db.plan.find_first (λ p. p.id == plan_id && p.user_id == user_id) st.plans))
          not_found
    throw_if (is_some current.workspace_id) bad_request
    w ← get_current_workspace now user_id
    count ←
        update_plans now
          (λ p.
            is_version plan_id updated_at p && p.user_id == user_id && not (is_some p.workspace_id))
          (λ r. record r { workspace_id = some w.id; category_id = none })
    throw_if (count == 0) conflict
    updated ← get user_id plan_id
    notify_workspace_members (some w.id) user_id plan_shared
        (about_plan updated.plan.id updated.plan.summary (some w.name))
    pure updated

  -- `delete`; the items and memos of a plan go with it.
  unfoldable pub delete : ℕ → ℕ → ℕ → Call (Unit {0})
  delete now user_id plan_id = do
    current ← get user_id plan_id
    assert_plan_writable now user_id current.plan
    modify (λ st. record st {
      plans = db.plan.delete_many (λ p. p.id == plan_id) st.plans;
      items = db.plan_item.delete_many (λ x. x.plan_id == plan_id) st.items;
      memos = db.plan_memo.delete_many (λ x. x.plan_id == plan_id) st.memos;
    })
    notify_workspace_members current.plan.workspace_id user_id plan_deleted
        (about_plan plan_id current.plan.summary (name_of current.workspace))
