-- ===== src/Workspace/Invites.antt =====
-- backend/src/modules/workspace/workspace.service.ts: who may invite, and what an invite is good for.
use ai_planner.Prelude.{
  inl, inr, Option-cases, JsString, ℕ, ◌<◌, List, some, ◌≡◌, ap, arith, ok, find?, ◌==◌, str_eq_iff,
}
use ai_planner.Schema.{Store, Prisma, User, pending}
use ai_planner.Payment.Subscriptions.{Env, get_status}
use ai_planner.Workspace.Frames.{get_status-frame}
use ai_planner.Workspace.{Ids, Ticket, check_invite}

-- What the tests of `join` establish.
pub record IsInvited (js : JsString) (now user_id token : ℕ) (st : Store) (t : Ticket)
    : Type 0 where
  pub found : find? (λ i. i.token == token) st.invites ≡ some t.invite
  pub is_open : t.invite.status ≡ pending
  pub in_time : now < t.invite.expires_at
  pub address :
      (u : User) × (find? (λ x. x.id == user_id) st.users ≡ some u) × (u.email ≡ some t.email)
  pub same_address : js.to_lower_case t.email ≡ js.to_lower_case t.invite.email

module _ (db : Prisma) (js : JsString) (env : Env) (ids : Ids) where
  get_status-users :
      (new_id now user_id : ℕ) (st : Store)
      → (get_status db env new_id now user_id st).1.users ≡ st.users
  get_status-users new_id now user_id st =
      ap (λ (s : Store). s.users) (get_status-frame db env new_id now user_id st)

  find_first-users :
      (u : ℕ) (t : List User) → db.user.find_first (λ x. x.id == u) t ≡ find? (λ x. x.id == u) t
  find_first-users u t = db.user.find_first-eq (λ x. x.id == u) t

  -- `join` goes on only with an invite of that token which is open and not expired, and which was
  -- sent to the e-mail address of the user.
  pub check_invite-IsInvited :
      (now user_id token : ℕ) (st : Store) (t : Ticket)
      → (check_invite db js env ids now user_id token st).0 ≡ ok t
      → IsInvited js now user_id token st t
  unfolding check_invite
  check_invite-IsInvited now user_id token st t h = record {
    found = ground (arith, db.workspace_invite.find_first-eq (λ i. i.token == token) st.invites);
    is_open = ground arith;
    in_time = ground arith;
    address = elim (Option-cases (find? (λ x. x.id == user_id) st.users)) [
      | inl missing ↦ absurd (grind (arith, get_status-users, find_first-users))
      | inr (u, found) ↦ (u, found, grind (arith, get_status-users, find_first-users))
    ];
    same_address =
        ground (arith, str_eq_iff (js.to_lower_case t.email) (js.to_lower_case t.invite.email));
  }
