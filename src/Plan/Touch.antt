-- ===== src/Plan/Touch.antt =====
-- backend/src/modules/plan/plan.service.ts, `touchPlan`: `addItem` writes the version of its plan
-- before it asks whether the user may write.
use ai_planner.Prelude.{
  ℕ, ◌+◌, ◌<◌, [], Result, ok, err, ◌≡◌, ◌≢◌, ap, ◌∙◌, arith, select, length, ◌>>=◌, ◌>>◌, >>=-both,
  modify, pure,
}
use ai_planner.Schema.{Prisma, Store, Plan, HttpError, forbidden, plan_item_added, about_item}
use ai_planner.Notification
use ai_planner.Workspace.Frames.{get_status-frame}
use ai_planner.Payment.Subscriptions.{Call, Env, get_status}
use ai_planner.Plan.Access.{
  Ids, FullPlan, UpdatePlanDto, update, is_version, name_of, get, include, touch_plan,
  assert_plan_writable, assert_workspace_writable, assert_writable, notify_workspace_members,
}
use ai_planner.Plan.Items.{CreatePlanItemDto, new_item, add_item}
use ai_planner.Plan.Versions.{
  select-changed, get-frame, update_plans_lem, assert_plan_writable-plans, notify-plans,
  update_stale,
}

get_status-items :
    (db : Prisma) (env : Env) (new_id now user_id : ℕ) (st : Store)
    → (get_status db env new_id now user_id st).1.items ≡ st.items
get_status-items db env new_id now user_id st =
    ap (λ (s : Store). s.items) (get_status-frame db env new_id now user_id st)

module _ (db : Prisma) (env : Env) (ids : Ids) where
  -- What `addItem` does after `touchPlan`.
  abbrev add_rest : ℕ → ℕ → ℕ → ℕ → CreatePlanItemDto → FullPlan → Call FullPlan
  add_rest now new_id user_id plan_id dto current = do
    assert_plan_writable db env ids now user_id current.plan
    modify (λ st. record st {
      items = db.plan_item.create (new_item new_id plan_id (length current.items + 1) dto) st.items;
    })
    updated ← get db env ids user_id plan_id
    notify_workspace_members db env ids updated.plan.workspace_id user_id plan_item_added
        (about_item updated.plan.id dto.name (name_of updated.workspace))
    pure updated

  add_rest-plans :
      (now new_id user_id plan_id : ℕ) (dto : CreatePlanItemDto) (current : FullPlan) (st : Store)
      → (add_rest now new_id user_id plan_id dto current st).1.plans ≡ st.plans
  add_rest-plans now new_id user_id plan_id dto current st =
      grind (arith, assert_plan_writable-plans, get-frame, notify-plans)

  touch_plan-thrown :
      (now user_id plan_id version : ℕ) (st : Store)
      → (touch_plan db env ids now user_id plan_id version st).0 ≢ err forbidden
  unfolding touch_plan get include
  touch_plan-thrown now user_id plan_id version st h = ground (
    arith,
    update_plans_lem db env ids now (is_version plan_id version) (λ r. r)
        (get db env ids user_id plan_id st).1,
  )

  touch_plan-plans :
      (now user_id plan_id version : ℕ) (st : Store) (f : FullPlan)
      → now ≢ version
      → let (r, st') = touch_plan db env ids now user_id plan_id version st in
        r ≡ ok f
        → (0 < length (select (is_version plan_id version) st.plans))
          × (select (is_version plan_id version) st'.plans ≡ [])
  unfolding touch_plan
  touch_plan-plans now user_id plan_id version st f ne h =
      let touched = λ (r : Plan). record r { updated_at = now } in
      ground (
        arith,
        get-frame db env ids user_id plan_id st,
        update_plans_lem db env ids now (is_version plan_id version) (λ r. r) st,
        select-changed (is_version plan_id version) touched st.plans (λ x. ground arith),
      )

  -- After an `addItem` that was refused for want of access, at another time than that of the version.
  touched :
      (now new_id user_id plan_id : ℕ) (dto : CreatePlanItemDto) (st : Store)
      → now ≢ dto.updated_at
      → let (r, st') = add_item db env ids now new_id user_id plan_id dto st in
        r ≡ err forbidden
        → (0 < length (select (is_version plan_id dto.updated_at) st.plans))
          × (select (is_version plan_id dto.updated_at) st'.plans ≡ [])
  unfolding add_item
  touched now new_id user_id plan_id dto st ne =
      let Touched = λ (x : Result HttpError FullPlan × Store).
        x.0 ≡ err forbidden
        → (0 < length (select (is_version plan_id dto.updated_at) st.plans))
          × (select (is_version plan_id dto.updated_at) x.1.plans ≡ []) in
      let s1 = (touch_plan db env ids now user_id plan_id dto.updated_at st).1 in
      >>=-both Touched (touch_plan db env ids now user_id plan_id dto.updated_at)
        (add_rest now new_id user_id plan_id dto) st
        (λ e t h. absurd (touch_plan-thrown now user_id plan_id dto.updated_at st (t ∙ h)))
        (λ current t h.
          let (some_row, gone) =
            touch_plan-plans now user_id plan_id dto.updated_at st current ne t in
          (
            some_row,
            ap (select (is_version plan_id dto.updated_at))
                  (add_rest-plans now new_id user_id plan_id dto current s1)
                ∙ gone,
          ))

  -- Where no plan has the version, `touchPlan` is refused.
  touch_plan_stale :
      (now user_id plan_id version : ℕ) (st : Store) (f : FullPlan)
      → length (select (is_version plan_id version) st.plans) ≡ 0
      → (touch_plan db env ids now user_id plan_id version st).0 ≢ ok f
  unfolding touch_plan
  touch_plan_stale now user_id plan_id version st f none_left h = ground (
    arith,
    get-frame db env ids user_id plan_id st,
    update_plans_lem db env ids now (is_version plan_id version) (λ r. r) st,
    none_left,
  )

  add_item_stale :
      (now new_id user_id plan_id : ℕ) (dto : CreatePlanItemDto) (st : Store)
      → length (select (is_version plan_id dto.updated_at) st.plans) ≡ 0
      → (f : FullPlan) → (add_item db env ids now new_id user_id plan_id dto st).0 ≢ ok f
  unfolding add_item
  add_item_stale now new_id user_id plan_id dto st none_left =
      let Refused = λ (x : Result HttpError FullPlan × Store). (f : FullPlan) → x.0 ≢ ok f in
      >>=-both Refused (touch_plan db env ids now user_id plan_id dto.updated_at)
        (add_rest now new_id user_id plan_id dto) st (λ e t f h. ground arith)
        (λ current t f h.
          touch_plan_stale now user_id plan_id dto.updated_at st current none_left t)

  assert_plan_writable-items :
      (now user_id : ℕ) (p : Plan) (st : Store)
      → (assert_plan_writable db env ids now user_id p st).1.items ≡ st.items
  unfolding assert_plan_writable assert_workspace_writable assert_writable
  assert_plan_writable-items now user_id p st =
      grind (arith, get_status-items db env ids.subscription)

  -- What follows the test of the right to write does not answer 403.
  add_allowed : ℕ → ℕ → ℕ → CreatePlanItemDto → FullPlan → Call FullPlan
  add_allowed new_id user_id plan_id dto current = do
    modify (λ st. record st {
      items = db.plan_item.create (new_item new_id plan_id (length current.items + 1) dto) st.items;
    })
    updated ← get db env ids user_id plan_id
    notify_workspace_members db env ids updated.plan.workspace_id user_id plan_item_added
        (about_item updated.plan.id dto.name (name_of updated.workspace))
    pure updated

  add_allowed-thrown :
      (new_id user_id plan_id : ℕ) (dto : CreatePlanItemDto) (current : FullPlan) (st : Store)
      → (add_allowed new_id user_id plan_id dto current st).0 ≢ err forbidden
  unfolding add_allowed get include notify_workspace_members Notification.create_many
  add_allowed-thrown new_id user_id plan_id dto current st h = ground arith

  add_rest-items :
      (now new_id user_id plan_id : ℕ) (dto : CreatePlanItemDto) (current : FullPlan) (st : Store)
      → let (r, st') = add_rest now new_id user_id plan_id dto current st in
        r ≡ err forbidden → st'.items ≡ st.items
  unfolding add_allowed
  add_rest-items now new_id user_id plan_id dto current st =
      let Same =
        λ (x : Result HttpError FullPlan × Store). x.0 ≡ err forbidden → x.1.items ≡ st.items in
      >>=-both Same (assert_plan_writable db env ids now user_id current.plan)
        (λ _. add_allowed new_id user_id plan_id dto current) st
        (λ e t h. assert_plan_writable-items now user_id current.plan st)
        (λ u t h. absurd (
          add_allowed-thrown new_id user_id plan_id dto current
            (assert_plan_writable db env ids now user_id current.plan st).1 h))

  touch_plan-items :
      (now user_id plan_id version : ℕ) (st : Store)
      → (touch_plan db env ids now user_id plan_id version st).1.items ≡ st.items
  unfolding touch_plan
  touch_plan-items now user_id plan_id version st = ground (
    arith,
    get-frame db env ids user_id plan_id st,
    update_plans_lem db env ids now (is_version plan_id version) (λ r. r) st,
  )

  unadded :
      (now new_id user_id plan_id : ℕ) (dto : CreatePlanItemDto) (st : Store)
      → let (r, st') = add_item db env ids now new_id user_id plan_id dto st in
        r ≡ err forbidden → st'.items ≡ st.items
  unfolding add_item
  unadded now new_id user_id plan_id dto st =
      let Same =
        λ (x : Result HttpError FullPlan × Store). x.0 ≡ err forbidden → x.1.items ≡ st.items in
      >>=-both Same (touch_plan db env ids now user_id plan_id dto.updated_at)
        (add_rest now new_id user_id plan_id dto) st
        (λ e t h. absurd (touch_plan-thrown now user_id plan_id dto.updated_at st (t ∙ h)))
        (λ current t h.
          add_rest-items now new_id user_id plan_id dto current
            (touch_plan db env ids now user_id plan_id dto.updated_at st).1 h
          ∙ touch_plan-items now user_id plan_id dto.updated_at st)

  -- An `addItem` that is refused with 403, because the owner of the workspace has no access, at another
  -- time than that of the version it names, has added nothing, and yet the version, which the plan had
  -- before, is gone: the next call against that version, by any user and whether there is access by
  -- then or not, does not succeed, be it `update`, which then changes no plan, or another `addItem`.
  pub add_item_touched :
      (now later new_id other_id user_id editor_id plan_id : ℕ) (dto dto' : CreatePlanItemDto)
      (edit : UpdatePlanDto) (st : Store)
      → now ≢ dto.updated_at
      → edit.updated_at ≡ dto.updated_at
      → dto'.updated_at ≡ dto.updated_at
      → (add_item db env ids now new_id user_id plan_id dto st).0 ≡ err forbidden
      → let st' = (add_item db env ids now new_id user_id plan_id dto st).1 in
        let (r', st'') = update db env ids later editor_id plan_id edit st' in
        (0 < length (select (is_version plan_id dto.updated_at) st.plans))
        × (st'.items ≡ st.items)
        × ((f : FullPlan) → r' ≢ ok f)
        × (st''.plans ≡ st'.plans)
        × ((f : FullPlan)
            → (add_item db env ids later other_id editor_id plan_id dto' st').0 ≢ ok f)
  add_item_touched now later new_id other_id user_id editor_id plan_id dto dto' edit st ne same
        same' h =
      let st' = (add_item db env ids now new_id user_id plan_id dto st).1 in
      let (some_row, gone) = touched now new_id user_id plan_id dto st ne h in
      let stale =
        update_stale db env ids later editor_id plan_id edit st' (rw same (ap length gone)) in
      (
        some_row,
        unadded now new_id user_id plan_id dto st h,
        stale.0,
        stale.1,
        add_item_stale later other_id editor_id plan_id dto' st' (rw same' (ap length gone)),
      )
