-- ===== src/Workspace/Founding.antt =====
-- backend/src/modules/workspace/workspace.service.ts: `create` and the members of a workspace.
use ai_planner.Prelude.{
  JsString, ℕ, ◌⊎◌, inl, inr, String, [], ◌∷◌, Option, none, ◌≡◌, arith, find?,
}
use ai_planner.Schema.{Store, Prisma, owner}
use ai_planner.Payment.Subscriptions.{Env}
use ai_planner.Workspace.{Ids, assert_paid_access, of_user, create}
use ai_planner.Workspace.Frames.{
  find_membership-frame, find_membership-none, assert_paid_access-frame,
}
use ai_planner.Workspace.Members.{IsFair, members_of, Admits-IsFair}

module _ (db : Prisma) (js : JsString) (env : Env) (ids : Ids) where
  create-ways :
      (now user_id : ℕ) (name : Option String) (st : Store)
      → let after = (create db js env ids now user_id name st).1.members in
        (after ≡ st.members)
        ⊎ ((after
              ≡ record { workspace_id = ids.workspace; user_id = user_id; role = owner }
                ∷ st.members)
            × (find? (of_user user_id) st.members ≡ none))
  unfolding create
  create-ways now user_id name st =
      let paid = (assert_paid_access db js env ids now user_id st).1 in
      ground (
        arith,
        assert_paid_access-frame db js env ids now user_id st,
        find_membership-frame db js env ids now (of_user user_id) paid,
        find_membership-none db js env ids now (of_user user_id) paid,
        db.workspace_member.find_first-eq (of_user user_id) paid.members,
        db.workspace_member.create-eq
            (record { workspace_id = ids.workspace; user_id = user_id; role = owner }) paid.members,
      )

  -- A call of `create`, with whatever outcome, keeps at most two members in each workspace and every
  -- user in at most one, if the id that is drawn for the workspace is new.
  pub create-IsFair :
      (now user_id : ℕ) (name : Option String) (st : Store)
      → members_of ids.workspace st.members ≡ []
      → IsFair st.members
      → IsFair (create db js env ids now user_id name st).1.members
  create-IsFair now user_id name st new fair =
      Admits-IsFair st.members _
        (elim (create-ways now user_id name st) [
          | inl same ↦ inl same
          | inr (more, missing) ↦ inr (
            record { workspace_id = ids.workspace; user_id = user_id; role = owner },
            more,
            missing,
            rw new (omega arith),
          )
        ])
        fair
