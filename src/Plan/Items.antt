-- ===== src/Plan/Items.antt =====
-- backend/src/modules/plan/plan.service.ts: the items and memos of a plan.
-- `tie` is the order that the database gives to rows which `ORDER BY "order"` leaves equal.
use ai_planner.Prelude.{
  JsString, ℕ, suc, ◌+◌, Bool, String, Option, none, some, List, [], ◌∷◌, find?, length, pure, gets,
  modify, or_throw, throw_if, ◌>>=◌, ◌>>◌, if◌then◌else◌, ltb, ◌==◌, ◌&&◌, ◌||◌, not, is_some,
}
use ai_planner.Schema.{
  PlanItem, PlanMemo, Prisma, bad_request, not_found, plan_item_added, plan_item_updated,
  plan_item_deleted, memo_added, about_plan, about_item,
}
use ai_planner.Payment.Subscriptions.{Call, Env}
use ai_planner.Plan.Access.{
  Ids, FullPlan, Field, or_current, name_of, get, touch_plan, assert_plan_writable,
  assert_workspace_writable, notify_workspace_members,
}

pub record CreatePlanItemDto : Type 0 where
  pub updated_at : ℕ
  pub name : String
  pub kind : String
  pub time : String
  pub address : String
  pub lat : ℕ
  pub lng : ℕ
  pub link : Option String
  pub source : Option String
  pub distance_from_prev : Option ℕ

pub record UpdatePlanItemDto : Type 0 where
  pub updated_at : ℕ
  pub name : Option String
  pub kind : Option String
  pub time : Option String
  pub address : Option String
  pub lat : Option ℕ
  pub lng : Option ℕ
  pub link : Field String
  pub source : Field String
  pub distance_from_prev : Field ℕ

-- `a ?? b`
abbrev pub or_else : {A : Type 0} → Option A → A → A
or_else none b = b
or_else (some a) b = a

abbrev pub new_item : ℕ → ℕ → ℕ → CreatePlanItemDto → PlanItem
new_item new_id plan_id order dto = record {
  id = new_id;
  plan_id = plan_id;
  order = order;
  name = dto.name;
  lat = dto.lat;
  lng = dto.lng;
  kind = dto.kind;
  time = dto.time;
  address = dto.address;
  link = dto.link;
  source = dto.source;
  distance_from_prev = dto.distance_from_prev;
}

abbrev pub edited_item : UpdatePlanItemDto → PlanItem → PlanItem → PlanItem
edited_item dto old x = record x {
  name = or_else dto.name old.name;
  kind = or_else dto.kind old.kind;
  time = or_else dto.time old.time;
  address = or_else dto.address old.address;
  lat = or_else dto.lat old.lat;
  lng = or_else dto.lng old.lng;
  link = or_current dto.link old.link;
  source = or_current dto.source old.source;
  distance_from_prev = or_current dto.distance_from_prev old.distance_from_prev;
}

abbrev pub count : {A : Type 0} → (A → Bool) → List A → ℕ
count p [] = 0
count p (x ∷ xs) = (if p x then 1 else 0) + count p xs

-- `ROW_NUMBER() OVER (ORDER BY "order" ASC)` of a row among the rows.
unfoldable pub row_number : (PlanItem → PlanItem → Bool) → List PlanItem → PlanItem → ℕ
row_number tie rows x =
    suc (count (λ y. ltb y.order x.order || (y.order == x.order && tie y x)) rows)

-- The transaction of `deleteItem`: the row goes, and the rows of its plan are numbered anew.
unfoldable pub remove_item :
    Prisma → (PlanItem → PlanItem → Bool) → ℕ → ℕ → List PlanItem → List PlanItem
remove_item db tie plan_id item_id items =
    let rest = db.plan_item.delete_many (λ x. x.id == item_id) items in
    let rows = db.plan_item.find_many (λ x. x.plan_id == plan_id && not (x.id == item_id)) rest in
    db.plan_item.update_many
      (λ x.
        (x.plan_id == plan_id && not (x.id == item_id)) && not (x.order == row_number tie rows x))
      (λ x. record x { order = row_number tie rows x }) rest

abbrev pub new_memo : JsString → ℕ → ℕ → ℕ → String → PlanMemo
new_memo js new_id user_id plan_id content = record {
  id = new_id;
  plan_id = plan_id;
  author_id = user_id;
  content = js.trim content;
}

abbrev pub is_own_memo : ℕ → ℕ → ℕ → PlanMemo → Bool
is_own_memo user_id plan_id memo_id x =
    x.id == memo_id && x.author_id == user_id && x.plan_id == plan_id

module _ (db : Prisma) (env : Env) (ids : Ids) where
  unfoldable pub add_item : ℕ → ℕ → ℕ → ℕ → CreatePlanItemDto → Call FullPlan
  add_item now new_id user_id plan_id dto = do
    current ← touch_plan db env ids now user_id plan_id dto.updated_at
    assert_plan_writable db env ids now user_id current.plan
    modify (λ st. record st {
      items = db.plan_item.create (new_item new_id plan_id (length current.items + 1) dto) st.items;
    })
    updated ← get db env ids user_id plan_id
    notify_workspace_members db env ids updated.plan.workspace_id user_id plan_item_added
        (about_item updated.plan.id dto.name (name_of updated.workspace))
    pure updated

  unfoldable pub update_item : ℕ → ℕ → ℕ → ℕ → UpdatePlanItemDto → Call FullPlan
  update_item now user_id plan_id item_id dto = do
    current ← touch_plan db env ids now user_id plan_id dto.updated_at
    assert_plan_writable db env ids now user_id current.plan
    old ← or_throw (find? (λ x. x.id == item_id) current.items) not_found
    modify (λ st. record st {
      items = db.plan_item.update_many (λ x. x.id == item_id) (edited_item dto old) st.items;
    })
    updated ← get db env ids user_id plan_id
    notify_workspace_members db env ids updated.plan.workspace_id user_id plan_item_updated
        (about_item updated.plan.id (or_else dto.name old.name) (name_of updated.workspace))
    pure updated

  unfoldable pub delete_item : (PlanItem → PlanItem → Bool) → ℕ → ℕ → ℕ → ℕ → ℕ → Call FullPlan
  delete_item tie now user_id plan_id item_id updated_at = do
    current ← touch_plan db env ids now user_id plan_id updated_at
    assert_plan_writable db env ids now user_id current.plan
    old ← or_throw (find? (λ x. x.id == item_id) current.items) not_found
    modify (λ st. record st { items = remove_item db tie plan_id item_id st.items })
    updated ← get db env ids user_id plan_id
    notify_workspace_members db env ids updated.plan.workspace_id user_id plan_item_deleted
        (about_item updated.plan.id old.name (name_of updated.workspace))
    pure updated

  unfoldable pub list_memos : ℕ → ℕ → Call (List PlanMemo)
  list_memos user_id plan_id = do
    p ← get db env ids user_id plan_id
    throw_if (not (is_some p.plan.workspace_id)) bad_request
    pure p.memos

  unfoldable pub create_memo : JsString → ℕ → ℕ → ℕ → ℕ → String → Call PlanMemo
  create_memo js now new_id user_id plan_id content = do
    p ← get db env ids user_id plan_id
    w ← or_throw p.plan.workspace_id bad_request
    assert_workspace_writable db env ids now user_id w
    let memo = new_memo js new_id user_id plan_id content
    modify (λ st. record st { memos = db.plan_memo.create memo st.memos })
    notify_workspace_members db env ids (some w) user_id memo_added
        (about_plan p.plan.id p.plan.summary (name_of p.workspace))
    pure memo

  unfoldable pub delete_memo : ℕ → ℕ → ℕ → ℕ → Call (Unit {0})
  delete_memo now user_id plan_id memo_id = do
    p ← get db env ids user_id plan_id
    w ← or_throw p.plan.workspace_id bad_request
    assert_workspace_writable db env ids now user_id w
    n ← gets (λ st. length (db.plan_memo.find_many (is_own_memo user_id plan_id memo_id) st.memos))
    modify (λ st. record st {
      memos = db.plan_memo.delete_many (is_own_memo user_id plan_id memo_id) st.memos;
    })
    throw_if (n == 0) not_found
