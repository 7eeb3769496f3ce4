-- ===== src/Workspace.antt =====
-- backend/src/modules/workspace/workspace.service.ts: `WorkspaceService`, the workspaces that two
-- users share. Ids, the invite token and the clock enter as arguments; a mail that cannot be sent is
-- ignored by the code, so the outbox holds the mails handed over.
pub mod Frames
pub mod Members
pub mod Founding
pub mod Runs
pub mod Invites
pub mod Dissolving
pub mod Dissolve
pub mod Parting
mod Tests
use ai_planner.Prelude.{
  JsString, ℕ, ◌+◌, Bool, true, false, String, Option, none, some, List, [], ◌∷◌, ◌++◌, map, any,
  select, length, pure, throw, gets, modify, or_throw, throw_if, ◌>>=◌, ◌>>◌, if◌then◌else◌, ltb,
  leb, ◌==◌, str_eq, ◌&&◌, ◌||◌, not, is_some, some_is,
}
use ai_planner.Prisma.{create_all}
use ai_planner.Schema.{
  User, Workspace, WorkspaceMember, Role, owner, member, WorkspaceInvite, InviteStatus, pending,
  accepted, Plan, PlanItem, Store, Prisma, HttpError, bad_request, forbidden, not_found, conflict,
  internal, workspace_invite, invite_received, workspace_joined, workspace_dissolved, about_invite,
  about_member, about_workspace,
}
use ai_planner.Payment.Subscriptions.{Call, Env, get_status}
use ai_planner.Notification

abbrev pub workspace_member_limit : ℕ
workspace_member_limit = 2

-- 7 days
abbrev pub invite_ttl_ms : ℕ
invite_ttl_ms = 604800000

abbrev pub is_owner : Role → Bool
is_owner owner = true
is_owner member = false

abbrev pub is_pending : InviteStatus → Bool
is_pending pending = true
is_pending accepted = false

-- `dto.name?.trim() || '우리 일정'`
abbrev pub workspace_name : JsString → Option String → String
workspace_name js none = "우리 일정"
workspace_name js (some name) = if str_eq (js.trim name) "" then "우리 일정" else js.trim name

-- A membership with its workspace, the members of that, and the invites that are still open.
pub record Membership : Type 0 where
  pub row : WorkspaceMember
  pub workspace : Workspace
  pub members : List WorkspaceMember
  pub invites : List WorkspaceInvite

-- `email?.toLowerCase() === other`
abbrev pub email_is : JsString → Option User → String → Bool
email_is js none other = false
email_is js (some u) other = elim u.email [
  | none ↦ false
  | some e ↦ str_eq (js.to_lower_case e) other
]

-- `where: { email }`
abbrev pub email_matches : User → String → Bool
email_matches u email = elim u.email [ none ↦ false | some e ↦ str_eq e email ]

-- `!invitedUser || invitedUser.emailNotificationsEnabled`
abbrev pub should_send : Option User → Bool
should_send none = true
should_send (some u) = u.email_notifications_enabled

abbrev pub of_user : ℕ → WorkspaceMember → Bool
of_user user_id m = m.user_id == user_id

abbrev pub of_user_in : ℕ → ℕ → WorkspaceMember → Bool
of_user_in user_id workspace_id m = m.user_id == user_id && m.workspace_id == workspace_id

-- What the tests of `join` have read: the invite, its workspace, the members of that, and the e-mail
-- address of the user.
pub record Ticket : Type 0 where
  pub invite : WorkspaceInvite
  pub workspace : Workspace
  pub members : List WorkspaceMember
  pub email : String

-- What the ids of new rows are, and the environment of the payments.
pub record Ids : Type 0 where
  pub subscription : ℕ
  pub workspace : ℕ
  pub invite : ℕ
  pub token : ℕ
  -- of a notification to a user
  pub notification : ℕ → ℕ
  -- of the copy of a plan for a member, and of an item of a copied plan
  pub plan : ℕ → ℕ → ℕ
  pub item : ℕ → ℕ → ℕ

module _ (db : Prisma) (js : JsString) (env : Env) (ids : Ids) where
  unfoldable pub assert_paid_access : ℕ → ℕ → Call (Unit {0})
  assert_paid_access now user_id = do
    status ← get_status db env ids.subscription now user_id
    throw_if (not status.has_access) forbidden

  -- `findMembership` and `getWorkspaceForUser`, which differ in the condition.
  unfoldable pub find_membership : ℕ → (WorkspaceMember → Bool) → Call (Option Membership)
  find_membership now p = do
    row ← gets (λ st. db.workspace_member.find_first p st.members)
    elim row [
      | none ↦ pure none
      | some m ↦ do
        w ←
            or_throw
              (← gets (λ st. db.workspace.find_first (λ w. w.id == m.workspace_id) st.workspaces))
              internal
        members ←
            gets (λ st.
              db.workspace_member.find_many (λ x. x.workspace_id == m.workspace_id) st.members)
        invites ← gets (λ st.
            db.workspace_invite.find_many
              (λ i. i.workspace_id == m.workspace_id && is_pending i.status && ltb now i.expires_at)
              st.invites)
        pure (some (record { row = m; workspace = w; members = members; invites = invites }))
    ]

  unfoldable pub get_mine : ℕ → ℕ → Call (Option Membership)
  get_mine now user_id = find_membership now (of_user user_id)

  unfoldable pub create : ℕ → ℕ → Option String → Call (Unit {0})
  create now user_id name = do
    assert_paid_access now user_id
    existing ← find_membership now (of_user user_id)
    throw_if (is_some existing) conflict
    modify (λ st. record st {
      workspaces =
          db.workspace.create
            (record { id = ids.workspace; name = workspace_name js name; owner_id = user_id })
            st.workspaces;
      members =
          db.workspace_member.create
            (record { workspace_id = ids.workspace; user_id = user_id; role = owner }) st.members;
    })

  abbrev pub new_invite : ℕ → ℕ → ℕ → String → WorkspaceInvite
  new_invite now user_id workspace_id email = record {
    id = ids.invite;
    workspace_id = workspace_id;
    inviter_id = user_id;
    email = email;
    token = ids.token;
    status = pending;
    expires_at = now + invite_ttl_ms;
    accepted_at = none;
  }

  -- The mail and the notification of an invite.
  unfoldable pub announce : Membership → ℕ → String → Call (Unit {0})
  announce m workspace_id email = do
    invited ← gets (λ st. db.user.find_first (λ u. email_matches u email) st.users)
    if should_send invited
        then modify (λ st. record st {
          outbox = workspace_invite email m.workspace.name ids.token ∷ st.outbox;
        })
        else pure tt
    elim invited [
      | none ↦ pure tt
      | some u ↦
          Notification.create db (ids.notification u.id) u.id invite_received
            (about_invite workspace_id m.workspace.name ids.token)
    ]

  unfoldable pub invite : ℕ → ℕ → ℕ → String → Call WorkspaceInvite
  invite now user_id workspace_id raw_email = do
    assert_paid_access now user_id
    m ← or_throw (← find_membership now (of_user_in user_id workspace_id)) not_found
    throw_if (not (is_owner m.row.role)) forbidden
    throw_if (leb workspace_member_limit (length m.members)) bad_request
    let email = js.to_lower_case (js.trim raw_email)
    users ← gets (λ st.
        map (λ (x : WorkspaceMember). db.user.find_first (λ u. u.id == x.user_id) st.users)
          m.members)
    throw_if (any (λ u. email_is js u email) users) bad_request
    modify (λ st. record st {
      invites = db.workspace_invite.create (new_invite now user_id workspace_id email) st.invites;
    })
    announce m workspace_id email
    pure (new_invite now user_id workspace_id email)

  -- The transaction of `join`.
  unfoldable pub admit : ℕ → ℕ → WorkspaceInvite → Call (Unit {0})
  admit now user_id i = modify (λ st. record st {
    members =
        db.workspace_member.create
          (record { workspace_id = i.workspace_id; user_id = user_id; role = member }) st.members;
    invites =
        db.workspace_invite.update_many (λ x. x.id == i.id)
          (λ x. record x { status = accepted; accepted_at = some now }) st.invites;
  })

  -- `join` from the test of an existing membership on.
  unfoldable pub join_as : ℕ → ℕ → Ticket → Call (Option Membership)
  join_as now user_id t = do
    existing ← find_membership now (of_user user_id)
    elim existing [
      | some m ↦ if m.workspace.id == t.invite.workspace_id then pure (some m) else throw conflict
      | none ↦ do
        throw_if (leb workspace_member_limit (length t.members)) bad_request
        admit now user_id t.invite
        Notification.create db (ids.notification t.workspace.owner_id) t.workspace.owner_id
            workspace_joined (about_member t.invite.workspace_id t.workspace.name t.email)
        get_mine now user_id
    ]

  -- `join` up to there: the invite with its workspace and members, and its tests.
  unfoldable pub check_invite : ℕ → ℕ → ℕ → Call Ticket
  check_invite now user_id token = do
    i ←
        or_throw (← gets (λ st. db.workspace_invite.find_first (λ i. i.token == token) st.invites))
          not_found
    throw_if (not (is_pending i.status)) not_found
    w ←
        or_throw
          (← gets (λ st. db.workspace.find_first (λ w. w.id == i.workspace_id) st.workspaces))
          internal
    members ←
        gets
          (λ st. db.workspace_member.find_many (λ x. x.workspace_id == i.workspace_id) st.members)
    status ← get_status db env ids.subscription now w.owner_id
    throw_if (not status.has_access) forbidden
    throw_if (leb i.expires_at now) bad_request
    user ← or_throw (← gets (λ st. db.user.find_first (λ u. u.id == user_id) st.users)) not_found
    email ← or_throw user.email forbidden
    throw_if (str_eq email "") forbidden
    throw_if (not (str_eq (js.to_lower_case email) (js.to_lower_case i.email))) forbidden
    pure (record { invite = i; workspace = w; members = members; email = email })

  unfoldable pub join : ℕ → ℕ → ℕ → Call (Option Membership)
  join now user_id token = do t ← check_invite now user_id token; join_as now user_id t
