-- ===== src/Plan/Tests.antt =====
-- backend/src/modules/plan/plan.service.ts, on a small database.
use ai_planner.Prelude.{
  any, ◌==◌, ◌&&◌, inl, inr, ◌⊎◌, All, String, ◌≤◌, ℕ, ◌+◌, ◌<◌, Bool, true, false, [], ◌∷◌, some,
  none, ok, err, ◌≡◌, ◌≢◌, refl, arith, length, select,
}
use ai_planner.Samples.{memory, plain, env, store, subscription, own_plan, first_item, second_item}
use ai_planner.Schema.{Plan, Store, PlanItem, Mode, bad_request, not_found, forbidden, expired}
use ai_planner.Payment.Subscriptions.{
  get_status, ensure_subscription, sync_lifecycle, lifecycle, update_subscription,
  to_status_response,
}
use ai_planner.Plan.Access.{
  Ids, FullPlan, UpdatePlanDto, absent, given, is_version, get, include, update, write_update,
  update_plans, delete, assert_plan_writable, assert_workspace_writable, assert_writable,
  check_category, notify_workspace_members, touch_plan, share,
}
use ai_planner.Plan.Items.{
  CreatePlanItemDto, UpdatePlanItemDto, add_item, update_item, delete_item, list_memos, create_memo,
  delete_memo, remove_item,
}
use ai_planner.Plan.Drafts.{
  Service, PlanDraft, PipelineResult, SavePlanDraftDto, personal, save_draft, prune_expired_drafts,
  target_workspace, create_plan_from_result,
}
use ai_planner.Plan.Numbering.{IsNumbered, items_of, remove_item-IsNumbered}
use ai_planner.Plan.Guards.{IsReader, outsider_blocked}
use ai_planner.Pipeline.Diversity.{count_of_key}
use ai_planner.Plan.Diversity.{
  IsMatch, matched_plans, items_of_plans, build_diversity_history, count_with_key,
  build_diversity_history-counts,
}
use ai_planner.Plan.Versions.{update_no_lost}
use ai_planner.Plan.Touch.{add_item_touched}
use ai_planner.Plan.Saving.{IsSavable, save_draft_once}

abbrev ids : Ids
ids = record { subscription = 12; notification = λ u. 100 + u }

abbrev full : FullPlan
full = record { plan = own_plan; workspace = none; items = []; memos = [] }

got : (get memory env ids 1 82 store).0 ≡ ok full
unfolding get include
got = refl

abbrev change_dto : UpdatePlanDto
change_dto = record { updated_at = 100; summary = given (some "a day out"); category_id = absent }

abbrev item_dto : CreatePlanItemDto
item_dto = record {
  updated_at = 100;
  name = "park";
  kind = "place";
  time = "15:00";
  address = "";
  lat = 0;
  lng = 0;
  link = none;
  source = none;
  distance_from_prev = none;
}

abbrev edit_dto : UpdatePlanItemDto
edit_dto = record {
  updated_at = 100;
  name = some "gallery";
  kind = none;
  time = none;
  address = none;
  lat = none;
  lng = none;
  link = absent;
  source = absent;
  distance_from_prev = absent;
}

-- No two items tie.
abbrev tie : PlanItem → PlanItem → Bool
tie _ _ = false

unread : All (λ p. p.id ≡ 82 → IsReader 2 store.members p → ⊥) store.plans
unread = (
  λ other reader. ground (arith, other),
  (
    λ same reader. elim reader [
      | inl owner ↦ let other = owner.0 in ground (arith, other)
      | inr shared ↦ let inside = shared.1 in cc
    ],
    tt,
  ),
)

outsider_blocked_example :
    (get memory env ids 2 82 store ≡ (err not_found, store))
    × (update memory env ids 1000 2 82 change_dto store ≡ (err not_found, store))
    × (delete memory env ids 1000 2 82 store ≡ (err not_found, store))
    × (add_item memory env ids 1000 93 2 82 item_dto store ≡ (err not_found, store))
    × (update_item memory env ids 1000 2 82 91 edit_dto store ≡ (err not_found, store))
    × (delete_item memory env ids tie 1000 2 82 91 100 store ≡ (err not_found, store))
    × (list_memos memory env ids 2 82 store ≡ (err not_found, store))
    × (create_memo memory env ids plain 1000 93 2 82 "hello" store ≡ (err not_found, store))
    × (delete_memo memory env ids 1000 2 82 95 store ≡ (err not_found, store))
    × (((any (λ (p : Plan). p.id == 82 && p.user_id == 2) store.plans ≡ false)
          × (share memory env ids 1000 2 82 100 store ≡ (err not_found, store)))
        ⊎ ((any (λ (p : Plan). p.id == 82 && p.user_id == 2) store.plans ≡ true)
            × (share memory env ids 1000 2 82 100 store ≡ (err bad_request, store))))
outsider_blocked_example =
    outsider_blocked memory env ids plain tie 1000 93 2 82 91 95 100 "hello" change_dto item_dto
      edit_dto store unread

outdated : length (select (is_version 82 99) store.plans) ≡ 0
outdated = refl

abbrev updated : FullPlan
updated = record full { plan = record own_plan { summary = some "a day out"; updated_at = 1000 } }

updated_first : (update memory env ids 1000 1 82 change_dto store).0 ≡ ok updated
unfolding update get include assert_plan_writable check_category write_update update_plans
    notify_workspace_members
updated_first = refl

update_no_lost_example :
    let st' = (update memory env ids 1000 1 82 change_dto store).1 in
    let (r', st'') =
      update memory env ids 2000 1 82 (record change_dto { summary = given none }) st' in
    ((f : FullPlan) → r' ≢ ok f) × (st''.plans ≡ st'.plans)
update_no_lost_example =
    update_no_lost memory env ids 1000 2000 1 1 82 change_dto
      (record change_dto { summary = given none }) store updated (ground arith) refl updated_first

-- The owner's period and grace time are over.
abbrev late : ℕ
late = 1000000000

abbrev lapsed : Store
lapsed = record store { subscriptions = record subscription { status = expired } ∷ [] }

refused : (add_item memory env ids late 93 1 81 item_dto lapsed).0 ≡ err forbidden
unfolding add_item touch_plan get include update_plans assert_plan_writable
    assert_workspace_writable assert_writable get_status ensure_subscription sync_lifecycle
    lifecycle update_subscription to_status_response
refused = refl

add_item_touched_example :
    let st' = (add_item memory env ids late 93 1 81 item_dto lapsed).1 in
    let (r', st'') = update memory env ids 2000000000 2 81 change_dto st' in
    (0 < length (select (is_version 81 100) lapsed.plans))
    × (st'.items ≡ lapsed.items)
    × ((f : FullPlan) → r' ≢ ok f)
    × (st''.plans ≡ st'.plans)
    × ((f : FullPlan) → (add_item memory env ids 2000000000 94 2 81 item_dto st').0 ≢ ok f)
add_item_touched_example =
    add_item_touched memory env ids late 2000000000 93 94 1 2 81 item_dto item_dto change_dto lapsed
      (ground arith) refl refl refused

distinct_orders : (x : PlanItem) → tie x x ≡ false
distinct_orders x = refl

remove_item-IsNumbered_example : IsNumbered (items_of 81 (remove_item memory tie 81 91 store.items))
remove_item-IsNumbered_example =
    remove_item-IsNumbered memory tie 81 91 store.items distinct_orders (ground arith)

numbered : IsNumbered (items_of 81 (second_item ∷ first_item ∷ []))
numbered = record { range = ground arith; distinct = ground arith }

abbrev result : PipelineResult
result = record {
  summary = "two days";
  items =
      record {
        order = 1;
        name = "beach";
        lat = 0;
        lng = 0;
        kind = "place";
        time = "11:00";
        address = "";
        link = none;
        source = none;
        distance_from_prev = none;
      }
      ∷ [];
}

abbrev draft : PlanDraft
draft = record {
  user_id = 1;
  raw_input = "Busan";
  mode = Mode.trip;
  expires_at = 2000;
  result = result;
}

abbrev service : Service
service = record { drafts = λ _. some draft; store = store }

abbrev save_dto : SavePlanDraftDto
save_dto = record { draft_id = 96; scope = personal; workspace_id = none }

not-IsSavable : (d : PlanDraft) → ¬ IsSavable 2000 1 service 96 d
not-IsSavable d k = let kept : some draft ≡ some d = k.kept in let fresh = k.fresh in ground arith

abbrev item_ids_of : ℕ → ℕ
item_ids_of i = 400 + i

saved : (save_draft memory env ids item_ids_of 1000 83 1 save_dto service).0 ≡ ok 83
unfolding save_draft prune_expired_drafts target_workspace create_plan_from_result
    notify_workspace_members
saved = refl

save_draft_once_example :
    let s' = (save_draft memory env ids item_ids_of 1000 83 1 save_dto service).1 in
    (save_draft memory env ids item_ids_of 1500 84 1 save_dto s').0 ≡ err not_found
save_draft_once_example =
    save_draft_once memory env ids item_ids_of 1000 83 1 1500 84 1 save_dto save_dto service refl
      saved

savable : IsSavable 1000 1 service 96 draft
savable = record { kept = refl; own = refl; fresh = omega arith }

abbrev as_typed : String → String
as_typed s = s

build_diversity_history-counts_example :
    let plans = matched_plans as_typed memory (λ t. t) 1 "Seoul" Mode.date store in
    (count_of_key "museum"
        (build_diversity_history as_typed memory (λ t. t) 1 "Seoul" Mode.date store).place_counts
      ≡ count_with_key as_typed "museum" (items_of_plans as_typed memory (λ t. t) plans store))
    × (length plans ≤ 10)
    × All (IsMatch as_typed 1 "Seoul" Mode.date store) plans
build_diversity_history-counts_example =
    build_diversity_history-counts as_typed memory (λ t. t) (λ t p at_p. at_p) 1 "Seoul" Mode.date
      store "museum" refl refl
