-- ===== src/Cleanup.antt =====
-- backend/src/modules/user/user-cleanup.service.ts: `UserCleanupService`, which removes accounts thirty
-- days after they were deleted, and with them what backend/prisma/schema.prisma lets go (`onDelete`).
-- A transaction that the database refuses is caught and has changed nothing.
pub mod Removal
mod Tests
use ai_planner.Prelude.{
  take, ℕ, zero, suc, ◌+◌, ◌<◌, ◌≡◌, Bool, true, false, Option, none, some, List, [], ◌∷◌, map, any,
  select, change, if◌then◌else◌, ltb, ◌==◌, not, ◌&&◌, ◌||◌,
}
use ai_planner.Prisma.{Model}
use ai_planner.Schema.{
  User, Plan, PlanItem, Workspace, WorkspaceMember, WorkspaceInvite, Payment, Subscription, Store,
  Prisma,
}

-- 30 days, in milliseconds
abbrev pub retention_ms : ℕ
retention_ms = 2592000000

abbrev pub max_users : ℕ
max_users = 200

-- `deletedAt: { lt: cutoff }`
abbrev pub is_expired : ℕ → User → Bool
is_expired now u = elim u.deleted_at [ none ↦ false | some t ↦ ltb (t + retention_ms) now ]

-- The id is that of one of the rows which are found.
abbrev pub is_among : {A : Type 0} → (A → ℕ) → (A → Bool) → List A → ℕ → Bool
is_among id p rows n = any (λ r. p r && (id r == n)) rows

abbrev pub is_among_opt : {A : Type 0} → (A → ℕ) → (A → Bool) → List A → Option ℕ → Bool
is_among_opt id p rows none = false
is_among_opt id p rows (some n) = is_among id p rows n

-- What goes with the row of a user: rows that refer to it with `Cascade`, what refers to those, and
-- the references with `SetNull`.
unfoldable pub cascade : ℕ → Store → Store
cascade user_id st =
    let mine = λ (w : Workspace). w.owner_id == user_id in
    let gone = is_among (λ w. w.id) mine st.workspaces in
    record st {
      subscriptions = select (λ s. not (s.user_id == user_id)) st.subscriptions;
      payments =
          select
            (λ p. not (
              p.user_id == user_id
              || is_among (λ s. s.id) (λ s. s.user_id == user_id) st.subscriptions
                  p.subscription_id))
            st.payments;
      workspaces = select (λ w. not (mine w)) st.workspaces;
      members = select (λ m. not (m.user_id == user_id || gone m.workspace_id)) st.members;
      invites = select (λ i. not (i.inviter_id == user_id || gone i.workspace_id)) st.invites;
      memos = select (λ m. not (m.author_id == user_id)) st.memos;
      notifications = select (λ n. not (n.user_id == user_id)) st.notifications;
      categories = select (λ c. not (c.user_id == user_id)) st.categories;
      plans =
          map
            (change (λ p. is_among_opt (λ w. w.id) mine st.workspaces p.workspace_id)
              (λ p. record p { workspace_id = none }))
            (map
              (change
                (λ p.
                  is_among_opt (λ c. c.id) (λ c. c.user_id == user_id) st.categories p.category_id)
                (λ p. record p { category_id = none }))
              st.plans);
    }

module _ (db : Prisma) where
  -- The transaction for one user; the items and memos of a plan go with it.
  unfoldable pub hard_delete : ℕ → Store → Store
  unfolding cascade
  hard_delete user_id st =
      let planned = is_among (λ p. p.id) (λ p. p.user_id == user_id) st.plans in
      cascade user_id (record st {
        reset_tokens =
            db.password_reset_token.delete_many (λ t. t.user_id == user_id) st.reset_tokens;
        refresh_tokens = db.refresh_token.delete_many (λ t. t.user_id == user_id) st.refresh_tokens;
        plans = db.plan.delete_many (λ p. p.user_id == user_id) st.plans;
        items = select (λ i. not (planned i.plan_id)) st.items;
        memos = select (λ m. not (planned m.plan_id)) st.memos;
        users = db.user.delete_many (λ u. u.id == user_id) st.users;
      })

  -- The loop; `refused` tells for which ids the database refuses the transaction.
  unfoldable pub hard_delete_each : (ℕ → Bool) → List User → Store → Store
  unfolding hard_delete
  hard_delete_each refused [] st = st
  hard_delete_each refused (u ∷ us) st =
      hard_delete_each refused us (if refused u.id then st else hard_delete u.id st)

  unfoldable pub hard_delete_expired_users : Bool → (ℕ → Bool) → ℕ → Store → Store
  unfolding hard_delete_each
  hard_delete_expired_users scheduler_enabled refused now st =
      if not scheduler_enabled
      then st
      else hard_delete_each refused (take max_users (db.user.find_many (is_expired now) st.users))
          st
