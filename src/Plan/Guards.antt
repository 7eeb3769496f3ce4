-- ===== src/Plan/Guards.antt =====
-- backend/src/modules/plan/plan.service.ts: who gets at a plan, and edits of an outdated version.
use ai_planner.Prelude.{
  JsString, ℕ, Bool, true, String, Option, none, some, List, ok, err, ◌≡◌, refl, arith, ◌==◌, ◌&&◌,
  find?, any, ◌⊎◌, inl, inr, false, [], ◌∷◌, All, Bool-cases, Option-cases,
}
use ai_planner.Prisma.Reads.{find?-holds, All-find?}
use ai_planner.Schema.{Prisma, Store, Plan, PlanItem, WorkspaceMember, not_found, bad_request}
use ai_planner.Payment.Subscriptions.{Env}
use ai_planner.Plan.Access.{
  Ids, FullPlan, UpdatePlanDto, is_accessible, get, include, touch_plan, update, delete, share,
}
use ai_planner.Plan.Items.{
  CreatePlanItemDto, UpdatePlanItemDto, add_item, update_item, delete_item, list_memos, create_memo,
  delete_memo,
}

-- A personal plan is read by its owner, a shared one by the members of its workspace.
abbrev pub IsReader : ℕ → List WorkspaceMember → Plan → Type 0
IsReader user_id members p =
    ((p.user_id ≡ user_id) × (p.workspace_id ≡ none))
    ⊎ ((w : ℕ) × (p.workspace_id ≡ some w)
        × (any (λ (m : WorkspaceMember). m.user_id == user_id && m.workspace_id == w) members
            ≡ true))

accessible-IsReader :
    (user_id : ℕ) (members : List WorkspaceMember) (p : Plan) (w : Option ℕ)
    → p.workspace_id ≡ w
    → is_accessible user_id members p ≡ true
    → IsReader user_id members p
accessible-IsReader user_id members p none e h = inl (ground arith, e)
accessible-IsReader user_id members p (some w) e h = inr (w, e, ground arith)

any-none : {A : Type 0} (p : A → Bool) (t : List A) → find? p t ≡ none → any p t ≡ false
any-none p [] e = refl
any-none p (x ∷ t) e = elim (Bool-cases (p x)) [
  | inl y ↦ let impossible = rw y at e in cc
  | inr n ↦ let later = rw n at e in rw n (any-none p t later)
]

any-some : {A : Type 0} (p : A → Bool) (t : List A) {x : A} → find? p t ≡ some x → any p t ≡ true
any-some p [] e = cc
any-some p (x ∷ t) e = elim (Bool-cases (p x)) [
  | inl y ↦ rw y refl
  | inr n ↦ let later = rw n at e in rw n (any-some p t later)
]

module _ (db : Prisma) (env : Env) (ids : Ids) where
  get-found :
      (user_id plan_id : ℕ) (st : Store) (f : FullPlan)
      → (get db env ids user_id plan_id st).0 ≡ ok f
      → find? (λ p. p.id == plan_id && is_accessible user_id st.members p) st.plans ≡ some f.plan
  unfolding get include
  get-found user_id plan_id st f h = ground (
    arith,
    db.plan.find_first-eq (λ p. p.id == plan_id && is_accessible user_id st.members p) st.plans,
  )

  -- Whoever gets a plan is one of its readers.
  pub get-IsReader :
      (user_id plan_id : ℕ) (st : Store) (f : FullPlan)
      → (get db env ids user_id plan_id st).0 ≡ ok f
      → (f.plan.id ≡ plan_id) × IsReader user_id st.members f.plan
  get-IsReader user_id plan_id st f h =
      let both : (f.plan.id == plan_id && is_accessible user_id st.members f.plan) ≡ true =
        find?-holds (λ p. p.id == plan_id && is_accessible user_id st.members p) st.plans
          (get-found user_id plan_id st f h) in
      (
        ground arith,
        accessible-IsReader user_id st.members f.plan f.plan.workspace_id refl (ground arith),
      )

  get-blocked :
      (user_id plan_id : ℕ) (st : Store)
      → find? (λ p. p.id == plan_id && is_accessible user_id st.members p) st.plans ≡ none
      → get db env ids user_id plan_id st ≡ (err not_found, st)
  unfolding get
  get-blocked user_id plan_id st h = ground (
    arith,
    db.plan.find_first-eq (λ p. p.id == plan_id && is_accessible user_id st.members p) st.plans,
  )

  share-blocked :
      (now user_id plan_id version : ℕ) (st : Store)
      → All (λ p. p.id ≡ plan_id → IsReader user_id st.members p → ⊥) st.plans
      → let mine = λ (p : Plan). p.id == plan_id && p.user_id == user_id in
        ((any mine st.plans ≡ false)
          × (share db env ids now user_id plan_id version st ≡ (err not_found, st)))
        ⊎ ((any mine st.plans ≡ true)
            × (share db env ids now user_id plan_id version st ≡ (err bad_request, st)))
  unfolding share
  share-blocked now user_id plan_id version st unread =
      let mine = λ (p : Plan). p.id == plan_id && p.user_id == user_id in
      let law = db.plan.find_first-eq mine st.plans in
      elim (Option-cases (find? mine st.plans)) [
        | inl e ↦ inl (any-none mine st.plans e, ground (arith, law, e))
        | inr (p, e) ↦
            let holds : mine p ≡ true = find?-holds mine st.plans e in
            let blocked =
              All-find? (λ p. p.id ≡ plan_id → IsReader user_id st.members p → ⊥) mine st.plans
                unread e in
            elim (Option-cases p.workspace_id) [
              | inl own ↦ absurd (blocked (ground arith) (inl (ground arith, own)))
              | inr (w, inside) ↦ inr (any-some mine st.plans e, ground (arith, law, e, inside))
            ]
      ]

  unread-none :
      (user_id plan_id : ℕ) (members : List WorkspaceMember) (t : List Plan)
      → All (λ p. p.id ≡ plan_id → IsReader user_id members p → ⊥) t
      → find? (λ p. p.id == plan_id && is_accessible user_id members p) t ≡ none
  unread-none user_id plan_id members [] h = refl
  unread-none user_id plan_id members (p ∷ t) h =
      elim (Bool-cases (p.id == plan_id && is_accessible user_id members p)) [
        | inr n ↦ rw n (unread-none user_id plan_id members t h.1)
        | inl y ↦ absurd (
            h.0 (ground arith)
              (accessible-IsReader user_id members p p.workspace_id refl (ground arith)))
      ]

  -- To a user who is no reader of a plan, neither as the owner of a personal plan nor as a member of its
  -- workspace, it is as if it did not exist: each call on it answers 404 and writes nothing. Only
  -- `share` tells its author apart, whom it answers 400, and it writes nothing either.
  pub outsider_blocked :
      (js : JsString) (tie : PlanItem → PlanItem → Bool)
      (now new_id user_id plan_id item_id memo_id version : ℕ) (content : String)
      (dto : UpdatePlanDto) (item : CreatePlanItemDto) (edit : UpdatePlanItemDto) (st : Store)
      → All (λ p. p.id ≡ plan_id → IsReader user_id st.members p → ⊥) st.plans
      → let mine = λ (p : Plan). p.id == plan_id && p.user_id == user_id in
        (get db env ids user_id plan_id st ≡ (err not_found, st))
        × (update db env ids now user_id plan_id dto st ≡ (err not_found, st))
        × (delete db env ids now user_id plan_id st ≡ (err not_found, st))
        × (add_item db env ids now new_id user_id plan_id item st ≡ (err not_found, st))
        × (update_item db env ids now user_id plan_id item_id edit st ≡ (err not_found, st))
        × (delete_item db env ids tie now user_id plan_id item_id version st ≡ (err not_found, st))
        × (list_memos db env ids user_id plan_id st ≡ (err not_found, st))
        × (create_memo db env ids js now new_id user_id plan_id content st ≡ (err not_found, st))
        × (delete_memo db env ids now user_id plan_id memo_id st ≡ (err not_found, st))
        × (((any mine st.plans ≡ false)
              × (share db env ids now user_id plan_id version st ≡ (err not_found, st)))
            ⊎ ((any mine st.plans ≡ true)
                × (share db env ids now user_id plan_id version st ≡ (err bad_request, st))))
  unfolding update delete add_item update_item delete_item list_memos create_memo delete_memo
      touch_plan
  outsider_blocked js tie now new_id user_id plan_id item_id memo_id version content dto item edit
        st unread =
      let blocked =
        get-blocked user_id plan_id st (unread-none user_id plan_id st.members st.plans unread) in
      (
        blocked,
        ground (arith, blocked),
        ground (arith, blocked),
        ground (arith, blocked),
        ground (arith, blocked),
        ground (arith, blocked),
        ground (arith, blocked),
        ground (arith, blocked),
        ground (arith, blocked),
        share-blocked now user_id plan_id version st unread,
      )
