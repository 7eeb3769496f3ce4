-- ===== src/Workspace/Dissolving.antt =====
-- backend/src/modules/workspace/workspace.service.ts: `dissolve`, and the copies that it makes.
use ai_planner.Prelude.{
  JsString, ℕ, none, List, [], ◌∷◌, ◌++◌, map, select, pure, modify, or_throw, throw_if, ◌>>=◌,
  ◌>>◌, ◌==◌, not, some_is,
}
use ai_planner.Prisma.{create_all}
use ai_planner.Schema.{
  WorkspaceMember, Plan, PlanItem, Store, Prisma, forbidden, not_found, workspace_dissolved,
  about_workspace,
}
use ai_planner.Payment.Subscriptions.{Call, Env}
use ai_planner.Notification
use ai_planner.Workspace.{Ids, is_owner, of_user_in, find_membership}

-- The members who get a copy of a plan: all but its author.
abbrev pub receivers : List ℕ → Plan → List ℕ
receivers member_ids p = select (λ m. not (m == p.user_id)) member_ids

module _ (db : Prisma) (js : JsString) (env : Env) (ids : Ids) where
  abbrev pub copy_plan : ℕ → ℕ → Plan → Plan
  copy_plan now member_id p = record {
    id = ids.plan p.id member_id;
    user_id = member_id;
    workspace_id = none;
    category_id = none;
    raw_input = p.raw_input;
    mode = p.mode;
    summary = p.summary;
    updated_at = now;
  }

  abbrev pub copy_item : ℕ → PlanItem → PlanItem
  copy_item plan_id x = record x { id = ids.item plan_id x.id; plan_id = plan_id }

  unfoldable pub copies : ℕ → List ℕ → List Plan → List Plan
  copies now member_ids [] = []
  copies now member_ids (p ∷ ps) =
      map (λ m. copy_plan now m p) (receivers member_ids p) ++ copies now member_ids ps

  -- The items of the copies of one plan.
  unfoldable pub item_copies : List PlanItem → ℕ → List ℕ → List PlanItem
  item_copies items plan_id [] = []
  item_copies items plan_id (m ∷ ms) =
      map (copy_item (ids.plan plan_id m)) items ++ item_copies items plan_id ms

  unfoldable pub all_item_copies : List PlanItem → List ℕ → List Plan → List PlanItem
  unfolding item_copies
  all_item_copies items member_ids [] = []
  all_item_copies items member_ids (p ∷ ps) =
      item_copies (db.plan_item.find_many (λ x. x.plan_id == p.id) items) p.id
        (receivers member_ids p)
      ++ all_item_copies items member_ids ps

  -- The transaction of `dissolve`. Deleting a workspace deletes its members and invites.
  unfoldable pub dissolve_all : ℕ → ℕ → List ℕ → Store → Store
  unfolding copies all_item_copies
  dissolve_all now workspace_id member_ids st =
      let shared = db.plan.find_many (λ p. some_is p.workspace_id workspace_id) st.plans in
      record st {
        plans =
            db.plan.update_many (λ p. some_is p.workspace_id workspace_id)
              (λ p. record p { workspace_id = none; updated_at = now })
              (create_all db.plan (copies now member_ids shared) st.plans);
        items = create_all db.plan_item (all_item_copies st.items member_ids shared) st.items;
        workspaces = db.workspace.delete_many (λ w. w.id == workspace_id) st.workspaces;
        members = db.workspace_member.delete_many (λ m. m.workspace_id == workspace_id) st.members;
        invites = db.workspace_invite.delete_many (λ i. i.workspace_id == workspace_id) st.invites;
      }

  unfoldable pub dissolve : ℕ → ℕ → ℕ → Call (Unit {0})
  dissolve now user_id workspace_id = do
    m ← or_throw (← find_membership db js env ids now (of_user_in user_id workspace_id)) not_found
    throw_if (not (is_owner m.row.role)) forbidden
    let member_ids = map (λ (x : WorkspaceMember). x.user_id) m.members
    modify (dissolve_all now workspace_id member_ids)
    Notification.create_many db ids.notification (select (λ i. not (i == user_id)) member_ids)
        workspace_dissolved (about_workspace m.workspace.name)
    pure tt
