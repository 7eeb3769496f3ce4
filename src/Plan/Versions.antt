-- ===== src/Plan/Versions.antt =====
-- backend/src/modules/plan/plan.service.ts: edits are made against a version of the plan, its
-- `updatedAt`.
use ai_planner.Prelude.{
  >>=-both, ◌>>◌, ℕ, Bool, false, Option, none, some, List, [], ◌∷◌, map, Result, ok, err, ◌≡◌, ◌≢◌,
  refl, ap, ◌∙◌, arith, select, change, length, inl, inr, Bool-cases,
}
use ai_planner.Schema.{Prisma, Store, Plan, NotificationType, Payload, HttpError, conflict}
use ai_planner.Notification
use ai_planner.Payment.Subscriptions.{Call, Env, get_status}
use ai_planner.Workspace.Frames.{get_status-frame}
use ai_planner.Plan.Access.{
  Ids, FullPlan, UpdatePlanDto, is_version, or_current, get, include, update, write_update,
  update_plans, assert_plan_writable, assert_workspace_writable, assert_writable, check_category,
  notify_workspace_members,
}

pub select-changed :
    {A : Type 0} (p : A → Bool) (g : A → A) (t : List A)
    → ((x : A) → p (g x) ≡ false)
    → select p (map (change p g) t) ≡ []
select-changed p g [] h = refl
select-changed p g (x ∷ t) h = elim (Bool-cases (p x)) [
  | inl y ↦ rw (y, h x) (select-changed p g t h)
  | inr n ↦ rw (n, n) (select-changed p g t h)
]

change-none :
    {A : Type 0} (p : A → Bool) (g : A → A) (t : List A)
    → length (select p t) ≡ 0
    → map (change p g) t ≡ t
change-none p g [] h = refl
change-none p g (x ∷ t) h = ground (arith, change-none p g t)

err≢ok : (e : HttpError) (f : FullPlan) → err e ≢ ok f
err≢ok e f h = ground arith

module _ (db : Prisma) (env : Env) (ids : Ids) where
  pub get-frame : (user_id plan_id : ℕ) (st : Store) → (get db env ids user_id plan_id st).1 ≡ st
  unfolding get include
  get-frame user_id plan_id st = ground arith

  get_status-plans :
      (new_id now user_id : ℕ) (st : Store)
      → (get_status db env new_id now user_id st).1.plans ≡ st.plans
  get_status-plans new_id now user_id st =
      ap (λ (s : Store). s.plans) (get_status-frame db env new_id now user_id st)

  pub assert_plan_writable-plans :
      (now user_id : ℕ) (p : Plan) (st : Store)
      → (assert_plan_writable db env ids now user_id p st).1.plans ≡ st.plans
  unfolding assert_plan_writable assert_workspace_writable assert_writable
  assert_plan_writable-plans now user_id p st = grind (arith, get_status-plans)

  check_category-frame :
      (user_id : ℕ) (c : Option ℕ) (st : Store) → (check_category db env ids user_id c st).1 ≡ st
  unfolding check_category
  check_category-frame user_id none st = refl
  check_category-frame user_id (some c) st = ground arith

  pub notify-plans :
      (w : Option ℕ) (user_id : ℕ) (kind : NotificationType) (payload : Payload) (st : Store)
      → (notify_workspace_members db env ids w user_id kind payload st).1.plans ≡ st.plans
  unfolding notify_workspace_members Notification.create_many
  notify-plans none user_id kind payload st = refl
  notify-plans (some w) user_id kind payload st = ground arith

  pub update_plans_lem :
      (now : ℕ) (p : Plan → Bool) (f : Plan → Plan) (st : Store)
      → update_plans db env ids now p f st ≡ (
        ok (length (select p st.plans)),
        record st { plans = map (change p (λ r. record (f r) { updated_at = now })) st.plans },
      )
  unfolding update_plans
  update_plans_lem now p f st =
      rw (db.plan.find_many-eq p st.plans)
        (rw (db.plan.update_many-eq p (λ r. record (f r) { updated_at = now }) st.plans) refl)

  -- After the write of an update at another time no row has the version that it replaced.
  write_update-plans :
      (now user_id plan_id : ℕ) (dto : UpdatePlanDto) (p : Plan) (st : Store)
      → now ≢ dto.updated_at
      → select
          (is_version plan_id dto.updated_at)
          (write_update db env ids now user_id plan_id dto p st).1.plans
        ≡ []
  unfolding write_update
  write_update-plans now user_id plan_id dto p st ne =
      let p' = is_version plan_id dto.updated_at in
      let g = λ (r : Plan). record r {
        summary = or_current dto.summary p.summary;
        category_id = or_current dto.category_id p.category_id;
        updated_at = now;
      } in
      let f = λ (r : Plan). record r {
        summary = or_current dto.summary p.summary;
        category_id = or_current dto.category_id p.category_id;
      } in
      grind (
        arith,
        update_plans_lem now p' f st,
        get-frame,
        notify-plans,
        select-changed p' g st.plans (λ x. ground arith),
      )

  write_update-stale :
      (now user_id plan_id : ℕ) (dto : UpdatePlanDto) (p : Plan) (st : Store)
      → length (select (is_version plan_id dto.updated_at) st.plans) ≡ 0
      → let (r, st') = write_update db env ids now user_id plan_id dto p st in
        (r ≡ err conflict) × (st'.plans ≡ st.plans)
  unfolding write_update
  write_update-stale now user_id plan_id dto p st none_left =
      let p' = is_version plan_id dto.updated_at in
      let g = λ (r : Plan). record r {
        summary = or_current dto.summary p.summary;
        category_id = or_current dto.category_id p.category_id;
        updated_at = now;
      } in
      let f = λ (r : Plan). record r {
        summary = or_current dto.summary p.summary;
        category_id = or_current dto.category_id p.category_id;
      } in
      ground (arith, update_plans_lem now p' f st, change-none p' g st.plans none_left)

  -- The steps of `update` after its tests of the category, of the access, and of the plan.
  abbrev write_checked : ℕ → ℕ → ℕ → UpdatePlanDto → Plan → Call FullPlan
  write_checked now user_id plan_id dto p =
      check_category db env ids user_id (or_current dto.category_id p.category_id)
      >> write_update db env ids now user_id plan_id dto p

  abbrev write_allowed : ℕ → ℕ → ℕ → UpdatePlanDto → FullPlan → Call FullPlan
  write_allowed now user_id plan_id dto current =
      assert_plan_writable db env ids now user_id current.plan
      >> write_checked now user_id plan_id dto current.plan

  update_replaced :
      (now user_id plan_id : ℕ) (dto : UpdatePlanDto) (st : Store) (f : FullPlan)
      → now ≢ dto.updated_at
      → (update db env ids now user_id plan_id dto st).0 ≡ ok f
      → select
          (is_version plan_id dto.updated_at)
          (update db env ids now user_id plan_id dto st).1.plans
        ≡ []
  unfolding update
  update_replaced now user_id plan_id dto st f ne =
      let Replaced = λ (x : Result HttpError FullPlan × Store).
        x.0 ≡ ok f → select (is_version plan_id dto.updated_at) x.1.plans ≡ [] in
      let s1 = (get db env ids user_id plan_id st).1 in
      >>=-both Replaced (get db env ids user_id plan_id) (write_allowed now user_id plan_id dto) st
        (λ e t h. absurd (err≢ok e f h))
        (λ current t.
          let c = or_current dto.category_id current.plan.category_id in
          let write =
            λ (u : Unit {0}). write_update db env ids now user_id plan_id dto current.plan in
          let checked = λ (u : Unit {0}). write_checked now user_id plan_id dto current.plan in
          let s2 = (assert_plan_writable db env ids now user_id current.plan s1).1 in
          let s3 = (check_category db env ids user_id c s2).1 in
          >>=-both Replaced (assert_plan_writable db env ids now user_id current.plan) checked s1
            (λ e t h. absurd (err≢ok e f h))
            (λ u t.
              >>=-both Replaced (check_category db env ids user_id c) write s2
                (λ e t h. absurd (err≢ok e f h))
                (λ u t h. write_update-plans now user_id plan_id dto current.plan s3 ne)))

  -- An update of a version that no row has any more never succeeds, and changes no plan.
  pub update_stale :
      (now user_id plan_id : ℕ) (dto : UpdatePlanDto) (st : Store)
      → length (select (is_version plan_id dto.updated_at) st.plans) ≡ 0
      → let (r, st') = update db env ids now user_id plan_id dto st in
        ((f : FullPlan) → r ≢ ok f) × (st'.plans ≡ st.plans)
  unfolding update
  update_stale now user_id plan_id dto st none_left =
      let Refused = λ (x : Result HttpError FullPlan × Store).
        ((f : FullPlan) → x.0 ≢ ok f) × (x.1.plans ≡ st.plans) in
      let s1 = (get db env ids user_id plan_id st).1 in
      let e1 : s1.plans ≡ st.plans = ap (λ (s : Store). s.plans) (get-frame user_id plan_id st) in
      >>=-both Refused (get db env ids user_id plan_id) (write_allowed now user_id plan_id dto) st
        (λ e t. (λ f. err≢ok e f, e1))
        (λ current t.
          let e2 = assert_plan_writable-plans now user_id current.plan s1 ∙ e1 in
          >>=-both Refused (assert_plan_writable db env ids now user_id current.plan)
            (λ _. write_checked now user_id plan_id dto current.plan) s1
            (λ e t. (λ f. err≢ok e f, e2))
            (λ u t.
              let s2 = (assert_plan_writable db env ids now user_id current.plan s1).1 in
              let c = or_current dto.category_id current.plan.category_id in
              let e3 = ap (λ (s : Store). s.plans) (check_category-frame user_id c s2) ∙ e2 in
              >>=-both Refused (check_category db env ids user_id c)
                (λ _. write_update db env ids now user_id plan_id dto current.plan) s2
                (λ e t. (λ f. err≢ok e f, e3))
                (λ u t.
                  let s3 = (check_category db env ids user_id c s2).1 in
                  let (refused, same) = write_update-stale now user_id plan_id dto current.plan s3 (
                    ap (λ t. length (select (is_version plan_id dto.updated_at) t)) e3
                    ∙ none_left) in
                  rw refused (λ f. err≢ok conflict f, same ∙ e3))))

  -- Of two updates against one version of a plan, by whoever and with whatever changes, the second
  -- is refused once the first has succeeded, at a time other than that of the version, and it
  -- changes no plan: no update is overwritten unseen.
  pub update_no_lost :
      (now later user_id other_id plan_id : ℕ) (dto dto' : UpdatePlanDto) (st : Store)
      (f : FullPlan)
      → now ≢ dto.updated_at
      → dto'.updated_at ≡ dto.updated_at
      → let (r, st') = update db env ids now user_id plan_id dto st in
        r ≡ ok f
        → let (r', st'') = update db env ids later other_id plan_id dto' st' in
          ((f' : FullPlan) → r' ≢ ok f') × (st''.plans ≡ st'.plans)
  update_no_lost now later user_id other_id plan_id dto dto' st f ne same h =
      let st' = (update db env ids now user_id plan_id dto st).1 in
      update_stale later other_id plan_id dto' st'
        (rw same (ap length (update_replaced now user_id plan_id dto st f ne h)))
