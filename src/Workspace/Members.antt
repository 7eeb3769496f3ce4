-- ===== src/Workspace/Members.antt =====
-- backend/src/modules/workspace/workspace.service.ts: who is a member of a workspace.
use ai_planner.Prelude.{
  JsString, ℕ, ◌≤◌, ◌<◌, ◌⊎◌, inl, inr, Bool-cases, List, [], ◌∷◌, none, ◌≡◌, ◌≢◌, refl, arith, ok,
  select, length, ◌==◌, find?, All, >>=-post, ap,
}
use ai_planner.Prisma.Keys.{IsUnique}
use ai_planner.Schema.{
  Store, Prisma, WorkspaceMember, member, workspace_joined, about_member, WorkspaceInvite,
}
use ai_planner.Payment.Subscriptions.{Env, get_status}
use ai_planner.Notification
use ai_planner.Workspace.{
  Ids, Ticket, workspace_member_limit, of_user, admit, join_as, join, check_invite, get_mine,
}
use ai_planner.Workspace.Frames.{
  get_status-frame, create-frame, find_membership-frame, find_membership-none,
}

abbrev pub members_of : ℕ → List WorkspaceMember → List WorkspaceMember
members_of w t = select (λ x. x.workspace_id == w) t

-- No workspace has more than two members, and nobody is in two workspaces.
pub record IsFair (t : List WorkspaceMember) : Type 0 where
  pub room : (w : ℕ) → length (members_of w t) ≤ workspace_member_limit
  pub single : IsUnique (λ (m : WorkspaceMember). m.user_id) t

pub missing-All :
    (u : ℕ) (t : List WorkspaceMember)
    → find? (of_user u) t ≡ none
    → All (λ (x : WorkspaceMember). x.user_id ≢ u) t
missing-All u [] h = tt
missing-All u (x ∷ t) h = elim (Bool-cases (x.user_id == u)) [
  | inl y ↦ absurd (ground arith)
  | inr n ↦ (λ e. ground arith, missing-All u t (rw n at h))
]

-- A member who is in no workspace joins one that has room.
pub admitted-IsFair :
    (m : WorkspaceMember) (t : List WorkspaceMember)
    → IsFair t
    → find? (of_user m.user_id) t ≡ none
    → length (members_of m.workspace_id t) < workspace_member_limit
    → IsFair (m ∷ t)
admitted-IsFair m t fair new room = record {
  room = λ w. ground (arith, fair.room w);
  single = (missing-All m.user_id t new, fair.single);
}

-- What a call that admits at most one member has done to the table.
abbrev pub Admits : List WorkspaceMember → List WorkspaceMember → Type 0
Admits t t' =
    (t' ≡ t)
    ⊎ ((m : WorkspaceMember) × (t' ≡ m ∷ t)
        × (find? (of_user m.user_id) t ≡ none)
        × (length (members_of m.workspace_id t) < workspace_member_limit))

pub Admits-IsFair : (t t' : List WorkspaceMember) → Admits t t' → IsFair t → IsFair t'
Admits-IsFair t t' (inl same) fair = rw same fair
Admits-IsFair t t' (inr (m, more, new, room)) fair = rw more (admitted-IsFair m t fair new room)

module _ (db : Prisma) (js : JsString) (env : Env) (ids : Ids) where
  admit-members :
      (now user_id : ℕ) (i : WorkspaceInvite) (st : Store)
      → (admit db js env ids now user_id i st).1.members
        ≡ record { workspace_id = i.workspace_id; user_id = user_id; role = member } ∷ st.members
  unfolding admit
  admit-members now user_id i st = db.workspace_member.create-eq _ _

  admit-ok :
      (now user_id : ℕ) (i : WorkspaceInvite) (st : Store)
      → (admit db js env ids now user_id i st).0 ≡ ok tt
  unfolding admit
  admit-ok now user_id i st = refl

  join_as-ways :
      (now user_id : ℕ) (t : Ticket) (st : Store)
      → t.members ≡ members_of t.invite.workspace_id st.members
      → let after = (join_as db js env ids now user_id t st).1.members in
        (after ≡ st.members)
        ⊎ ((after
              ≡ record { workspace_id = t.invite.workspace_id; user_id = user_id; role = member }
                ∷ st.members)
            × (find? (of_user user_id) st.members ≡ none)
            × (length (members_of t.invite.workspace_id st.members) < workspace_member_limit))
  unfolding join_as get_mine
  join_as-ways now user_id t st same =
      let admitted = (admit db js env ids now user_id t.invite st).1 in
      let noted =
        Notification.create db (ids.notification t.workspace.owner_id) t.workspace.owner_id
          workspace_joined (about_member t.invite.workspace_id t.workspace.name t.email) in
      ground (
        arith,
        find_membership-frame db js env ids now (of_user user_id) st,
        find_membership-none db js env ids now (of_user user_id) st,
        db.workspace_member.find_first-eq (of_user user_id) st.members,
        admit-members now user_id t.invite st,
        admit-ok now user_id t.invite st,
        create-frame db (ids.notification t.workspace.owner_id) t.workspace.owner_id
            workspace_joined (about_member t.invite.workspace_id t.workspace.name t.email) admitted,
        find_membership-frame db js env ids now (of_user user_id) (noted admitted).1,
      )

  join_as-members :
      (now user_id : ℕ) (t : Ticket) (st : Store)
      → t.members ≡ members_of t.invite.workspace_id st.members
      → Admits st.members (join_as db js env ids now user_id t st).1.members
  unfolding join_as get_mine
  join_as-members now user_id t st same = elim (join_as-ways now user_id t st same) [
    | inl unchanged ↦ inl unchanged
    | inr admitted ↦ inr (
      record { workspace_id = t.invite.workspace_id; user_id = user_id; role = member },
      admitted.0,
      admitted.1,
      admitted.2,
    )
  ]

  pub get_status-members :
      (new_id now user_id : ℕ) (st : Store)
      → (get_status db env new_id now user_id st).1.members ≡ st.members
  get_status-members new_id now user_id st =
      ap (λ (s : Store). s.members) (get_status-frame db env new_id now user_id st)

  check_invite-members :
      (now user_id token : ℕ) (st : Store)
      → let (r, st') = check_invite db js env ids now user_id token st in
        (st'.members ≡ st.members)
        × ((t : Ticket) → r ≡ ok t → t.members ≡ members_of t.invite.workspace_id st.members)
  unfolding check_invite
  check_invite-members now user_id token st = (
    grind (arith, get_status-members),
    λ t h. ground (
      arith,
      db.workspace_member.find_many-eq (λ x. x.workspace_id == t.invite.workspace_id) st.members,
    ),
  )

  -- A call of `join`, with whatever token and outcome, keeps at most two members in each workspace
  -- and every user in at most one.
  pub join-IsFair :
      (now user_id token : ℕ) (st : Store)
      → IsFair st.members
      → IsFair (join db js env ids now user_id token st).1.members
  unfolding join
  join-IsFair now user_id token st fair =
      let (same, ticket) = check_invite-members now user_id token st in
      >>=-post (λ s. IsFair s.members) (check_invite db js env ids now user_id token)
        (λ t. join_as db js env ids now user_id t) st (λ e h. rw same fair)
        (λ t h.
          let st' = (check_invite db js env ids now user_id token st).1 in
          Admits-IsFair st'.members _ (join_as-members now user_id t st' (rw same (ticket t h)))
            (rw same fair))
