-- ===== src/Plan/Drafts.antt =====
-- backend/src/modules/plan/plan.service.ts: drafts (`preview`, `saveDraft`) and `generate`.
-- The AI pipeline's result, or its failure, is an argument of the calls that run it.
use ai_planner.Prelude.{
  ℕ, ◌+◌, String, Option, none, some, List, map, Result, Action, pure, gets, modify, or_throw,
  ◌>>=◌, ◌>>◌, if◌then◌else◌, leb, ◌==◌,
}
use ai_planner.Prisma.{create_all}
use ai_planner.Schema.{
  Plan, PlanItem, Mode, Workspace, Store, Prisma, HttpError, not_found, plan_created, about_plan,
}
use ai_planner.Payment.Subscriptions.{Call, Env}
use ai_planner.Plan.Access.{
  Ids, name_of, assert_workspace_writable, get_current_workspace, notify_workspace_members,
}

-- 20 minutes
abbrev pub plan_draft_ttl_ms : ℕ
plan_draft_ttl_ms = 1200000

-- An item of a pipeline result.
pub record ScheduleItem : Type 0 where
  pub order : ℕ
  pub name : String
  pub lat : ℕ
  pub lng : ℕ
  pub kind : String
  pub time : String
  pub address : String
  pub link : Option String
  pub source : Option String
  pub distance_from_prev : Option ℕ

pub record PipelineResult : Type 0 where
  pub summary : String
  pub items : List ScheduleItem

pub record PlanDraft : Type 0 where
  pub user_id : ℕ
  pub raw_input : String
  pub mode : Mode
  pub expires_at : ℕ
  pub result : PipelineResult

-- The `Map` of drafts, and the database.
pub record Service : Type 0 where
  pub drafts : ℕ → Option PlanDraft
  pub store : Store

pub data Scope : Type 0 where
  personal shared : Scope

pub record SavePlanDraftDto : Type 0 where
  pub draft_id : ℕ
  pub scope : Scope
  pub workspace_id : Option ℕ

abbrev pub ServiceCall : Type 0 → Type 0
ServiceCall A = Action HttpError Service A

abbrev pub on_store : {A : Type 0} → Call A → ServiceCall A
on_store m s = let (r, st) = m s.store in (r, record s { store = st })

abbrev pub keep_fresh : ℕ → Option PlanDraft → Option PlanDraft
keep_fresh now none = none
keep_fresh now (some d) = if leb d.expires_at now then none else some d

-- `pruneExpiredDrafts`
unfoldable pub prune_expired_drafts : ℕ → ServiceCall (Unit {0})
prune_expired_drafts now = modify (λ s. record s { drafts = λ k. keep_fresh now (s.drafts k) })

abbrev pub set_draft : ℕ → Option PlanDraft → Service → Service
set_draft id d s = record s { drafts = λ k. if k == id then d else s.drafts k }

abbrev pub plan_of : ℕ → ℕ → ℕ → Option ℕ → String → Mode → PipelineResult → Plan
plan_of now new_id user_id workspace_id raw_input mode result = record {
  id = new_id;
  user_id = user_id;
  workspace_id = workspace_id;
  category_id = none;
  raw_input = raw_input;
  mode = mode;
  summary = some result.summary;
  updated_at = now;
}

-- The rows of the items, whose ids the database draws.
abbrev pub item_of : (ℕ → ℕ) → ℕ → ScheduleItem → PlanItem
item_of item_id plan_id x = record {
  id = item_id x.order;
  plan_id = plan_id;
  order = x.order;
  name = x.name;
  lat = x.lat;
  lng = x.lng;
  kind = x.kind;
  time = x.time;
  address = x.address;
  link = x.link;
  source = x.source;
  distance_from_prev = x.distance_from_prev;
}

abbrev pub id_of : Option Workspace → Option ℕ
id_of none = none
id_of (some w) = some w.id

-- `!draft || draft.userId !== userId`
abbrev pub own_draft : ℕ → Option PlanDraft → Option PlanDraft
own_draft user_id none = none
own_draft user_id (some d) = if d.user_id == user_id then some d else none

module _ (db : Prisma) (env : Env) (ids : Ids) (item_id : ℕ → ℕ) where
  unfoldable pub create_plan_from_result :
      ℕ → ℕ → ℕ → String → Mode → Option Workspace → PipelineResult → Call ℕ
  create_plan_from_result now new_id user_id raw_input mode w result = do
    modify (λ st. record st {
      plans = db.plan.create (plan_of now new_id user_id (id_of w) raw_input mode result) st.plans;
      items = create_all db.plan_item (map (item_of item_id new_id) result.items) st.items;
    })
    notify_workspace_members db env ids (id_of w) user_id plan_created
        (about_plan new_id (some result.summary) (name_of w))
    pure new_id

  -- `preview`; the answer is the id of the draft.
  unfoldable pub preview :
      ℕ → ℕ → ℕ → String → Mode → Result HttpError PipelineResult → ServiceCall ℕ
  preview now draft_id user_id raw_input mode pipeline = do
    result ← (λ s. (pipeline, s))
    prune_expired_drafts now
    modify (
        set_draft draft_id (
          some (record {
            user_id = user_id;
            raw_input = raw_input;
            mode = mode;
            expires_at = now + plan_draft_ttl_ms;
            result = result;
          })))
    pure draft_id

  -- The workspace that the scope of `saveDraft` asks for.
  unfoldable pub target_workspace : ℕ → ℕ → SavePlanDraftDto → Call (Option Workspace)
  target_workspace now user_id dto = elim dto.scope [
    | personal ↦ pure none
    | shared ↦ do
      w ← elim dto.workspace_id [
        | none ↦ get_current_workspace db env ids now user_id
        | some i ↦ assert_workspace_writable db env ids now user_id i
      ]
      pure (some w)
  ]

  unfoldable pub save_draft : ℕ → ℕ → ℕ → SavePlanDraftDto → ServiceCall ℕ
  save_draft now new_id user_id dto = do
    prune_expired_drafts now
    d ← or_throw (← gets (λ s. own_draft user_id (s.drafts dto.draft_id))) not_found
    w ← on_store (target_workspace now user_id dto)
    saved ← on_store (create_plan_from_result now new_id user_id d.raw_input d.mode w d.result)
    modify (set_draft dto.draft_id none)
    pure saved

  unfoldable pub generate :
      ℕ → ℕ → ℕ → Option ℕ → String → Mode → Result HttpError PipelineResult → Call ℕ
  generate now new_id user_id workspace_id raw_input mode pipeline = do
    w ← elim workspace_id [
      | none ↦ pure none
      | some i ↦ do w ← assert_workspace_writable db env ids now user_id i; pure (some w)
    ]
    result ← (λ st. (pipeline, st))
    create_plan_from_result now new_id user_id raw_input mode w result
