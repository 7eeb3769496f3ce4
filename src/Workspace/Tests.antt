-- ===== src/Workspace/Tests.antt =====
-- backend/src/modules/workspace/workspace.service.ts, on a small database.
use ai_planner.Prelude.{none, List, ◌+◌, [], ◌∷◌, ok, ◌≡◌, refl, arith, All, In, inl}
use ai_planner.Samples.{memory, plain, env, store, invite, workspace, membership, shared_plan}
use ai_planner.Payment.Subscriptions.{
  get_status, lifecycle, ensure_subscription, sync_lifecycle, to_status_response,
}
use ai_planner.Workspace.{Ids, Ticket, check_invite, find_membership}
use ai_planner.Workspace.Dissolving.{dissolve}
use ai_planner.Workspace.Members.{IsFair}
use ai_planner.Workspace.Runs.{Op, create_op, join_op, dissolve_op, run, run-IsFair}
use ai_planner.Workspace.Invites.{IsInvited, check_invite-IsInvited}
use ai_planner.Workspace.Dissolve.{released}
use ai_planner.Workspace.Parting.{HasCopy, dissolve_keeps}
use ai_planner.Schema.{WorkspaceMember, Store, member}
use ai_planner.Notification

abbrev ids : Ids
ids = record {
  subscription = 12;
  workspace = 52;
  invite = 62;
  token = 72;
  notification = λ u. 100 + u;
  plan = λ p m. 200 + p + m;
  item = λ p i. 300 + p + i;
}

fair : IsFair store.members
fair = record { room = λ w. ground arith; single = ground arith }

-- The first user has a workspace already; the second joins it, and the first dissolves it.
abbrev calls : List Op
calls = create_op ids 1000 1 none ∷ join_op ids 1000 2 71 ∷ dissolve_op ids 1000 1 51 ∷ []

run-IsFair_example : IsFair (run memory plain env calls store).members
run-IsFair_example = run-IsFair memory plain env calls store (refl, (tt, (tt, tt))) fair

abbrev ticket : Ticket
ticket = record {
  invite = invite;
  workspace = workspace;
  members = membership ∷ [];
  email = "bob@example.com";
}

passed : (check_invite memory plain env ids 1000 2 71 store).0 ≡ ok ticket
unfolding check_invite get_status ensure_subscription sync_lifecycle lifecycle to_status_response
passed = refl

check_invite-IsInvited_example : IsInvited plain 1000 2 71 store ticket
check_invite-IsInvited_example =
    check_invite-IsInvited memory plain env ids 1000 2 71 store ticket passed

abbrev partner : WorkspaceMember
partner = record membership { user_id = 2; role = member }

abbrev pair : Store
pair = record store { members = partner ∷ membership ∷ [] }

dissolved : (dissolve memory plain env ids 1000 1 51 pair).0 ≡ ok tt
unfolding dissolve find_membership Notification.create_many
dissolved = refl

dissolve_keeps_example :
    let st' = (dissolve memory plain env ids 1000 1 51 pair).1 in
    In (released 1000 shared_plan) st'.plans
    × All (λ x. In x st'.items) pair.items
    × All (HasCopy shared_plan pair.items st') (partner ∷ [])
dissolve_keeps_example =
    dissolve_keeps memory plain env ids 1000 1 51 pair shared_plan dissolved (inl refl)
