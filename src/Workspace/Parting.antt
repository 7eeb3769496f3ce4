-- ===== src/Workspace/Parting.antt =====
-- backend/src/modules/workspace/workspace.service.ts: what the members keep after `dissolve`.
use mathlib.Core.Path.{subst}
use ai_planner.Prelude.{
  JsString, ℕ, true, All-In, List, [], ◌∷◌, ◌++◌, map, ok, none, some, ◌≡◌, refl, sym, ap, ◌∙◌, inl,
  inr, arith, select, not, some_is, All, All-select_In, All_of_In, In, In-append_left,
  In-append_right, In-map, In-select, ◌==◌, ◌&&◌, if◌then◌else◌, Bool-cases, Option-cases, find?,
}
use ai_planner.Prisma.Reads.{create_all-eq, find?-holds}
use ai_planner.Schema.{Store, Prisma, Plan, PlanItem, WorkspaceMember}
use ai_planner.Payment.Subscriptions.{Env}
use ai_planner.Workspace.{Ids, of_user_in, find_membership}
use ai_planner.Workspace.Frames.{create_many-frame}
use ai_planner.Workspace.Dissolving.{
  dissolve, dissolve_all, receivers, copy_plan, copy_item, item_copies, all_item_copies,
}
use ai_planner.Workspace.Dissolve.{released, dissolve_all-keeps}

-- The rows of the other members, who get a copy of a plan of the workspace.
abbrev pub others : ℕ → Plan → List WorkspaceMember → List WorkspaceMember
others workspace_id p t =
    select (λ m. m.workspace_id == workspace_id && not (m.user_id == p.user_id)) t

-- The member has a personal plan like this one, with an item like each of its items.
abbrev pub HasCopy : Plan → List PlanItem → Store → WorkspaceMember → Type 0
HasCopy p items st m =
    (q : Plan) × In q st.plans
    × (q.user_id ≡ m.user_id)
    × (q.workspace_id ≡ none)
    × (q.raw_input ≡ p.raw_input)
    × (q.mode ≡ p.mode)
    × (q.summary ≡ p.summary)
    × All
        (λ (x : PlanItem).
          (y : PlanItem) × In y st.items × (y ≡ record x { id = y.id; plan_id = q.id }))
        (select (λ x. x.plan_id == p.id) items)

HasCopy-same :
    (p : Plan) (items : List PlanItem) (st st' : Store) (m : WorkspaceMember)
    → st.plans ≡ st'.plans
    → st.items ≡ st'.items
    → HasCopy p items st' m
    → HasCopy p items st m
HasCopy-same p items st st' m plans same (q, at_q, a, b, c, d, e, all) = (
  q,
  subst (In q) (sym plans) at_q,
  a,
  b,
  c,
  d,
  e,
  subst
      (λ t.
        All
          (λ (x : PlanItem). (y : PlanItem) × In y t × (y ≡ record x { id = y.id; plan_id = q.id }))
          (select (λ x. x.plan_id == p.id) items))
      (sym same) all,
)

module _ (db : Prisma) (js : JsString) (env : Env) (ids : Ids) where
  item_copies-In :
      (items : List PlanItem) (plan_id m : ℕ) (ms : List ℕ) (x : PlanItem)
      → In x items
      → In m ms
      → In
          (copy_item db js env ids (ids.plan plan_id m) x)
          (item_copies db js env ids items plan_id ms)
  unfolding item_copies
  item_copies-In items plan_id m [] x h k = absurd k
  item_copies-In items plan_id m (n ∷ ms) x h (inl same) = rw same (
      In-append_left _ (map (copy_item db js env ids (ids.plan plan_id m)) items) _
        (In-map (copy_item db js env ids (ids.plan plan_id m)) x items h))
  item_copies-In items plan_id m (n ∷ ms) x h (inr later) =
      In-append_right _ (map (copy_item db js env ids (ids.plan plan_id n)) items) _
        (item_copies-In items plan_id m ms x h later)

  all_item_copies-In :
      (items : List PlanItem) (member_ids : List ℕ) (p : Plan) (m : ℕ) (ps : List Plan)
      (x : PlanItem)
      → In p ps
      → In x items
      → (x.plan_id == p.id) ≡ true
      → In m (receivers member_ids p)
      → In
          (copy_item db js env ids (ids.plan p.id m) x)
          (all_item_copies db js env ids items member_ids ps)
  unfolding all_item_copies
  all_item_copies-In items member_ids p m [] x here at_x mine k = absurd here
  all_item_copies-In items member_ids p m (q ∷ ps) x (inl same) at_x mine k = rw same (
      In-append_left _
        (item_copies db js env ids (db.plan_item.find_many (λ z. z.plan_id == p.id) items) p.id
          (receivers member_ids p))
        _
        (rw (db.plan_item.find_many-eq (λ z. z.plan_id == p.id) items) (
          item_copies-In (select (λ z. z.plan_id == p.id) items) p.id m (receivers member_ids p) x
            (In-select (λ z. z.plan_id == p.id) x items at_x mine) k)))
  all_item_copies-In items member_ids p m (q ∷ ps) x (inr later) at_x mine k =
      In-append_right _
        (item_copies db js env ids (db.plan_item.find_many (λ z. z.plan_id == q.id) items) q.id
          (receivers member_ids q))
        _ (all_item_copies-In items member_ids p m ps x later at_x mine k)

  module _ (now user_id workspace_id : ℕ) (st : Store) where
    abbrev ids_in : ℕ → List ℕ
    ids_in w =
        map (λ (m : WorkspaceMember). m.user_id) (select (λ m. m.workspace_id == w) st.members)

    abbrev member_ids : List ℕ
    member_ids = ids_in workspace_id

    abbrev shared : List Plan
    shared = select (λ p. some_is p.workspace_id workspace_id) st.plans

    abbrev IsDone : ℕ → Type 0
    IsDone w =
        let st' = (dissolve db js env ids now user_id workspace_id st).1 in
        let all = dissolve_all db js env ids now workspace_id (ids_in w) st in
        (st'.plans ≡ all.plans) × (st'.items ≡ all.items)

    found-IsDone :
        (m : WorkspaceMember)
        → find? (of_user_in user_id workspace_id) st.members ≡ some m
        → (dissolve db js env ids now user_id workspace_id st).0 ≡ ok tt
        → IsDone m.workspace_id
    unfolding dissolve find_membership
    found-IsDone m e h = grind (
      arith,
      db.workspace_member.find_first-eq (of_user_in user_id workspace_id) st.members,
      db.workspace_member.find_many-eq (λ x. x.workspace_id == m.workspace_id) st.members,
      create_many-frame db,
    )

    -- A call that succeeds has run its transaction, for the members of the workspace.
    dissolve-IsDone :
        (dissolve db js env ids now user_id workspace_id st).0 ≡ ok tt → IsDone workspace_id
    unfolding dissolve find_membership
    dissolve-IsDone h = elim (Option-cases (find? (of_user_in user_id workspace_id) st.members)) [
      | inl e ↦ absurd (
          ground
            (arith, db.workspace_member.find_first-eq (of_user_in user_id workspace_id) st.members))
      | inr (m, e) ↦
          let holds : of_user_in user_id workspace_id m ≡ true =
            find?-holds (of_user_in user_id workspace_id) st.members e in
          let at_w : m.workspace_id ≡ workspace_id = ground arith in
          subst IsDone at_w (found-IsDone m e h)
    ]

    after-items :
        (dissolve_all db js env ids now workspace_id member_ids st).items
        ≡ all_item_copies db js env ids st.items member_ids shared ++ st.items
    unfolding dissolve_all
    after-items =
        create_all-eq db.plan_item _ st.items
        ∙ ap (λ s. all_item_copies db js env ids st.items member_ids s ++ st.items)
            (db.plan.find_many-eq (λ p. some_is p.workspace_id workspace_id) st.plans)

    HasCopy-all :
        (p : Plan) (m : WorkspaceMember)
        → In p st.plans
        → some_is p.workspace_id workspace_id ≡ true
        → In m st.members
        → (m.workspace_id == workspace_id && not (m.user_id == p.user_id)) ≡ true
        → HasCopy p st.items (dissolve_all db js env ids now workspace_id member_ids st) m
    HasCopy-all p m at_p inside at_m other =
        let receives : In m.user_id (receivers member_ids p) =
          In-select (λ k. not (k == p.user_id)) m.user_id member_ids
            (In-map (λ (x : WorkspaceMember). x.user_id) m _
              (In-select (λ x. x.workspace_id == workspace_id) m st.members at_m
                (ground (arith, other))))
            (ground (arith, other)) in
        let plans = (dissolve_all db js env ids now workspace_id member_ids st).plans in
        let copies_in : All (λ k. In (copy_plan db js env ids now k p) plans)
            (receivers member_ids p) =
          rw inside at (dissolve_all-keeps db js env ids now workspace_id member_ids st p at_p).1 in
        let copied =
          All-In (λ k. In (copy_plan db js env ids now k p) plans) m.user_id
            (receivers member_ids p) copies_in receives in
        (
          copy_plan db js env ids now m.user_id p,
          copied,
          refl,
          refl,
          refl,
          refl,
          refl,
          All-select_In _ (λ x. x.plan_id == p.id) st.items
              (λ x at_x mine. (
                copy_item db js env ids (ids.plan p.id m.user_id) x,
                rw after-items (
                    In-append_left _ (all_item_copies db js env ids st.items member_ids shared)
                      st.items
                      (all_item_copies-In st.items member_ids p m.user_id shared x
                        (In-select (λ z. some_is z.workspace_id workspace_id) p st.plans at_p
                          inside)
                        at_x mine receives)),
                refl,
              )),
        )

    -- Nobody loses a plan by a `dissolve` that succeeds: its author keeps a plan of the workspace as a
    -- personal one, any other plan stays as it is, and so does every item. Every other member of the
    -- workspace, whoever calls, gets a personal copy of each of its plans, with a copy of each item.
    pub dissolve_keeps :
        (p : Plan)
        → (dissolve db js env ids now user_id workspace_id st).0 ≡ ok tt
        → In p st.plans
        → let st' = (dissolve db js env ids now user_id workspace_id st).1 in
          let inside = some_is p.workspace_id workspace_id in
          In (if inside then released now p else p) st'.plans
          × All (λ x. In x st'.items) st.items
          × All (HasCopy p st.items st') (if inside then others workspace_id p st.members else [])
    dissolve_keeps p h at_p =
        let st' = (dissolve db js env ids now user_id workspace_id st).1 in
        let all = dissolve_all db js env ids now workspace_id member_ids st in
        let (same_plans, same_items) = dissolve-IsDone h in
        let same_copies : (m : WorkspaceMember)
            → HasCopy p st.items all m
            → HasCopy p st.items st' m =
          λ m c. HasCopy-same p st.items st' all m same_plans same_items c in
        (
          subst (In (if some_is p.workspace_id workspace_id then released now p else p))
              (sym same_plans)
              (dissolve_all-keeps db js env ids now workspace_id member_ids st p at_p).0,
          All_of_In (λ x. In x st'.items) st.items
              (λ x at_x. subst (In x) (sym (same_items ∙ after-items)) (
                In-append_right x (all_item_copies db js env ids st.items member_ids shared)
                  st.items at_x)),
          elim (Bool-cases (some_is p.workspace_id workspace_id)) [
            | inr outside ↦ rw outside tt
            | inl inside ↦ rw inside (
                All-select_In (HasCopy p st.items st')
                  (λ m. m.workspace_id == workspace_id && not (m.user_id == p.user_id)) st.members
                  (λ m at_m other. same_copies m (HasCopy-all p m at_p inside at_m other)))
          ],
        )
