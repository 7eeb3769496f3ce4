-- ===== src/Plan/Saving.antt =====
-- backend/src/modules/plan/plan.service.ts: what `saveDraft` makes of a draft.
use ai_planner.Prelude.{
  ◌↔◌, ℕ, ◌+◌, ◌<◌, String, none, some, ◌++◌, ◌∷◌, map, ok, err, ◌≡◌, refl, arith, leb, ◌==◌,
  Option-cases, Bool-cases, inl, inr,
}
use ai_planner.Prisma.Reads.{create_all-eq}
use ai_planner.Schema.{Prisma, not_found, Mode}
use ai_planner.Payment.Subscriptions.{Env}
use ai_planner.Plan.Access.{Ids, notify_workspace_members}
use ai_planner.Plan.Drafts.{
  Service, PlanDraft, SavePlanDraftDto, PipelineResult, plan_draft_ttl_ms, prune_expired_drafts,
  preview, save_draft, target_workspace, create_plan_from_result, personal, plan_of, item_of,
}

-- The user may save the draft: it is hers, and it has not expired.
pub record IsSavable (now user_id : ℕ) (s : Service) (id : ℕ) (d : PlanDraft) : Type 0 where
  pub kept : s.drafts id ≡ some d
  pub own : d.user_id ≡ user_id
  pub fresh : now < d.expires_at

module _ (db : Prisma) (env : Env) (ids : Ids) (item_id : ℕ → ℕ) where
  -- A draft that is missing, expired or another user's is refused, and the database is not touched.
  pub save_draft_refused :
      (now new_id user_id : ℕ) (dto : SavePlanDraftDto) (s : Service)
      → ((d : PlanDraft) → ¬ IsSavable now user_id s dto.draft_id d)
      → let (r, s') = save_draft db env ids item_id now new_id user_id dto s in
        (r ≡ err not_found) × (s'.store ≡ s.store)
  unfolding save_draft prune_expired_drafts
  save_draft_refused now new_id user_id dto s bad = elim (Option-cases (s.drafts dto.draft_id)) [
    | inl missing ↦ ground arith
    | inr (d, found) ↦ elim (Bool-cases (d.user_id == user_id)) [
      | inr other ↦ ground arith
      | inl own ↦ elim (Bool-cases (leb d.expires_at now)) [
        | inl late ↦ ground arith
        | inr fresh ↦
            absurd (bad d (record { kept = found; own = ground arith; fresh = ground arith }))
      ]
    ]
  ]

  -- A draft that has been saved is gone: saving it again next, by anyone and at any time, is refused.
  pub save_draft_once :
      (now new_id user_id later other_id other : ℕ) (dto dto' : SavePlanDraftDto) (s : Service)
      {saved : ℕ}
      → dto'.draft_id ≡ dto.draft_id
      → let (r, s') = save_draft db env ids item_id now new_id user_id dto s in
        r ≡ ok saved
        → (save_draft db env ids item_id later other_id other dto' s').0 ≡ err not_found
  unfolding save_draft prune_expired_drafts
  save_draft_once now new_id user_id later other_id other dto dto' s same h = ground arith

  -- A draft is kept for its user for twenty minutes after the preview, and not longer.
  pub preview-IsSavable :
      (now later draft_id user_id : ℕ) (raw_input : String) (mode : Mode) (result : PipelineResult)
      (s : Service)
      → let s' = (preview db env ids item_id now draft_id user_id raw_input mode (ok result) s).1 in
        ((d : PlanDraft) × IsSavable later user_id s' draft_id d × (d.result ≡ result))
        ↔ (later < now + plan_draft_ttl_ms)
  unfolding preview prune_expired_drafts
  preview-IsSavable now later draft_id user_id raw_input mode result s = (
    (λ (d, k, same). let kept = k.kept in let fresh = k.fresh in ground arith),
    λ h. (
      record {
        user_id = user_id;
        raw_input = raw_input;
        mode = mode;
        expires_at = now + plan_draft_ttl_ms;
        result = result;
      },
      record { kept = ground arith; own = refl; fresh = h },
      refl,
    ),
  )

  -- Saving a draft that may be saved, as a personal plan, adds that plan and its items to the
  -- database, and nothing else.
  save_draft_personal :
      (now new_id user_id : ℕ) (dto : SavePlanDraftDto) (s : Service) {d : PlanDraft}
      → dto.scope ≡ personal
      → IsSavable now user_id s dto.draft_id d
      → let (r, s') = save_draft db env ids item_id now new_id user_id dto s in
        (r ≡ ok new_id)
        × (s'.store ≡ record s.store {
          plans = plan_of now new_id user_id none d.raw_input d.mode d.result ∷ s.store.plans;
          items = map (item_of item_id new_id) d.result.items ++ s.store.items;
        })
        × (s'.drafts dto.draft_id ≡ none)
  unfolding save_draft prune_expired_drafts target_workspace create_plan_from_result
      notify_workspace_members
  save_draft_personal now new_id user_id dto s {d} scope k =
      let plan = plan_of now new_id user_id none d.raw_input d.mode d.result in
      let items = map (item_of item_id new_id) d.result.items in
      ground (
        arith,
        db.plan.create-eq plan s.store.plans,
        create_all-eq db.plan_item items s.store.items,
      )
