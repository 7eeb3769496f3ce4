-- ===== src/Workspace/Dissolve.antt =====
-- backend/src/modules/workspace/workspace.service.ts: what is left after `dissolve`.
use ai_planner.Prelude.{
  Bool-cases, JsString, ℕ, Bool, false, List, [], ◌∷◌, ◌++◌, map, none, ◌≡◌, refl, ap, ◌∙◌, inl,
  inr, arith, select, change, not, some_is, All, In, In-append_left, In-append_right, In-map,
  In-select, ◌==◌, if◌then◌else◌,
}
use ai_planner.Prisma.Reads.{create_all-eq}
use ai_planner.Schema.{Store, Prisma, Plan}
use ai_planner.Payment.Subscriptions.{Env}
use ai_planner.Workspace.{Ids}
use ai_planner.Workspace.Dissolving.{copies, copy_plan, receivers, dissolve_all}

All-map-change :
    {A : Type 0} (P : A → Type 0) (q : A → Bool) (f : A → A) (t : List A)
    → ((x : A) → P (change q f x))
    → All P (map (change q f) t)
All-map-change P q f [] h = tt
All-map-change P q f (x ∷ t) h = (h x, All-map-change P q f t h)

All-select-not :
    {A : Type 0} (q : A → Bool) (t : List A) → All (λ x. q x ≡ false) (select (λ x. not (q x)) t)
All-select-not q [] = tt
All-select-not q (x ∷ t) = ground (arith, All-select-not q t)

All-In : {A : Type 0} (P : A → Type 0) (t : List A) → ((x : A) → In x t → P x) → All P t
All-In P [] h = tt
All-In P (x ∷ t) h = (h x (inl refl), All-In P t (λ y k. h y (inr k)))

abbrev is_in : ℕ → Plan → Bool
is_in workspace_id p = some_is p.workspace_id workspace_id

-- A plan that its workspace has let go.
abbrev pub released : ℕ → Plan → Plan
released now p = record p { workspace_id = none; updated_at = now }

module _ (db : Prisma) (js : JsString) (env : Env) (ids : Ids) (now workspace_id : ℕ)
    (member_ids : List ℕ) (st : Store) where
  after : Store
  after = dissolve_all db js env ids now workspace_id member_ids st

  after-plans :
      after.plans
      ≡ map
          (change (is_in workspace_id) (released now))
          (copies db js env ids now member_ids (select (is_in workspace_id) st.plans) ++ st.plans)
  unfolding after dissolve_all
  after-plans =
      db.plan.update_many-eq (is_in workspace_id) (released now) _
      ∙ ap (map (change (is_in workspace_id) (released now))) (
          create_all-eq db.plan _ st.plans
          ∙ ap (λ s. copies db js env ids now member_ids s ++ st.plans)
              (db.plan.find_many-eq (is_in workspace_id) st.plans))

  -- Nothing of a dissolved workspace is left: no plan, member, invite or row of it.
  pub dissolve_clears :
      let st' = dissolve_all db js env ids now workspace_id member_ids st in
      All (λ p. some_is p.workspace_id workspace_id ≡ false) st'.plans
      × All (λ m. (m.workspace_id == workspace_id) ≡ false) st'.members
      × All (λ i. (i.workspace_id == workspace_id) ≡ false) st'.invites
      × All (λ w. (w.id == workspace_id) ≡ false) st'.workspaces
  unfolding dissolve_all after
  dissolve_clears = (
    rw after-plans (All-map-change _ (is_in workspace_id) (released now) _ (λ p. ground arith)),
    rw (db.workspace_member.delete_many-eq (λ m. m.workspace_id == workspace_id) st.members)
        (All-select-not _ st.members),
    rw (db.workspace_invite.delete_many-eq (λ i. i.workspace_id == workspace_id) st.invites)
        (All-select-not _ st.invites),
    rw (db.workspace.delete_many-eq (λ w. w.id == workspace_id) st.workspaces)
        (All-select-not _ st.workspaces),
  )

  copies-In :
      (p : Plan) (m : ℕ) (ps : List Plan)
      → In p ps
      → In m (receivers member_ids p)
      → In (copy_plan db js env ids now m p) (copies db js env ids now member_ids ps)
  unfolding copies
  copies-In p m [] h k = absurd h
  copies-In p m (q ∷ ps) (inl same) k = rw same (
      In-append_left _ (map (λ x. copy_plan db js env ids now x p) (receivers member_ids p)) _
        (In-map (λ x. copy_plan db js env ids now x p) m _ k))
  copies-In p m (q ∷ ps) (inr later) k =
      In-append_right _ (map (λ x. copy_plan db js env ids now x q) (receivers member_ids q)) _
        (copies-In p m ps later k)

  -- The transaction keeps a plan, released if it is of the workspace, and copies it for each receiver.
  pub dissolve_all-keeps :
      (p : Plan)
      → In p st.plans
      → let st' = dissolve_all db js env ids now workspace_id member_ids st in
        In (if some_is p.workspace_id workspace_id then released now p else p) st'.plans
        × All
            (λ m. In (copy_plan db js env ids now m p) st'.plans)
            (if some_is p.workspace_id workspace_id then receivers member_ids p else [])
  unfolding after
  dissolve_all-keeps p here =
      let copied = copies db js env ids now member_ids (select (is_in workspace_id) st.plans) in
      let changed = change (is_in workspace_id) (released now) in
      let kept : In (changed p) (map changed (copied ++ st.plans)) =
        In-map changed p (copied ++ st.plans) (In-append_right p copied st.plans here) in
      rw after-plans (
        kept,
        elim (Bool-cases (some_is p.workspace_id workspace_id)) [
          | inl e ↦ rw e (
              All-In _ (receivers member_ids p) (λ m h.
                In-map changed (copy_plan db js env ids now m p) (copied ++ st.plans) (
                  In-append_left _ copied st.plans (
                    copies-In p m (select (is_in workspace_id) st.plans)
                      (In-select (is_in workspace_id) p st.plans here e) h))))
          | inr e ↦ rw e tt
        ],
      )
