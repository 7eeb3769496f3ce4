-- ===== src/Workspace/Runs.antt =====
-- backend/src/modules/workspace/workspace.service.ts: the members of workspaces over every sequence
-- of the calls that change them.
use ai_planner.Prelude.{
  JsString, ℕ, ◌≤◌, Bool, String, List, [], ◌∷◌, Option, ◌≡◌, ◌⊎◌, inl, inr, arith, length, select,
  not, ◌==◌,
}
use ai_planner.Prisma.Selects.{IsUnique-select}
use ai_planner.Schema.{Store, Prisma, WorkspaceMember}
use ai_planner.Payment.Subscriptions.{Env}
use ai_planner.Workspace.{Ids, of_user_in, create, join}
use ai_planner.Workspace.Dissolving.{dissolve_all, dissolve}
use ai_planner.Workspace.Frames.{find_membership-frame, create_many-frame}
use ai_planner.Workspace.Members.{IsFair, members_of, join-IsFair}
use ai_planner.Workspace.Founding.{create-IsFair}

length-select_le :
    {A : Type 0} (p q : A → Bool) (t : List A)
    → length (select p (select q t)) ≤ length (select p t)
length-select_le p q [] = omega arith
length-select_le p q (x ∷ t) = ground (arith, length-select_le p q t)

select-IsFair :
    (q : WorkspaceMember → Bool) (t : List WorkspaceMember) → IsFair t → IsFair (select q t)
select-IsFair q t fair = record {
  room = λ w. omega (arith, length-select_le (λ x. x.workspace_id == w) q t, fair.room w);
  single = IsUnique-select (λ (m : WorkspaceMember). m.user_id) q t fair.single;
}

-- A call, with the ids that it draws, its time and its user.
pub data Op : Type 0 where
  create_op : Ids → ℕ → ℕ → Option String → Op
  join_op : Ids → ℕ → ℕ → ℕ → Op
  dissolve_op : Ids → ℕ → ℕ → ℕ → Op

module _ (db : Prisma) (js : JsString) (env : Env) where
  dissolve-ways :
      (ids : Ids) (now user_id workspace_id : ℕ) (st : Store)
      → let after = (dissolve db js env ids now user_id workspace_id st).1.members in
        (after ≡ st.members)
        ⊎ (after ≡ select (λ m. not (m.workspace_id == workspace_id)) st.members)
  unfolding dissolve dissolve_all
  dissolve-ways ids now user_id workspace_id st = grind (
    arith,
    find_membership-frame db js env ids now (of_user_in user_id workspace_id) st,
    db.workspace_member.delete_many-eq (λ m. m.workspace_id == workspace_id) st.members,
    create_many-frame,
  )

  -- The state after a call.
  unfoldable pub step : Op → Store → Store
  step (create_op ids now user_id name) st = (create db js env ids now user_id name st).1
  step (join_op ids now user_id token) st = (join db js env ids now user_id token st).1
  step (dissolve_op ids now user_id workspace_id) st =
      (dissolve db js env ids now user_id workspace_id st).1

  -- The state after the calls, in their order.
  unfoldable pub run : List Op → Store → Store
  unfolding step
  run [] st = st
  run (o ∷ os) st = run os (step o st)

  -- The id that a `create` draws for its workspace is not that of another.
  abbrev pub IsNew : Op → Store → Type 0
  IsNew (create_op ids now user_id name) st = members_of ids.workspace st.members ≡ []
  IsNew _ st = Unit

  abbrev pub AreNew : List Op → Store → Type 0
  AreNew [] st = Unit
  AreNew (o ∷ os) st = IsNew o st × AreNew os (step o st)

  step-IsFair : (o : Op) (st : Store) → IsNew o st → IsFair st.members → IsFair (step o st).members
  unfolding step
  step-IsFair (create_op ids now user_id name) st new fair =
      create-IsFair db js env ids now user_id name st new fair
  step-IsFair (join_op ids now user_id token) st new fair =
      join-IsFair db js env ids now user_id token st fair
  step-IsFair (dissolve_op ids now user_id workspace_id) st new fair =
      elim (dissolve-ways ids now user_id workspace_id st) [
        | inl same ↦ rw same fair
        | inr fewer ↦ rw fewer (select-IsFair _ st.members fair)
      ]

  -- After any sequence of calls of `create`, `join` and `dissolve`, by whoever and with whatever
  -- outcomes, no workspace has more than two members and nobody is in two, if that was so before and
  -- each workspace is created with a new id.
  pub run-IsFair :
      (os : List Op) (st : Store) → AreNew os st → IsFair st.members → IsFair (run os st).members
  unfolding run
  run-IsFair [] st new fair = fair
  run-IsFair (o ∷ os) st new fair = run-IsFair os (step o st) new.1 (step-IsFair o st new.0 fair)
