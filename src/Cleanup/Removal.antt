-- ===== src/Cleanup/Removal.antt =====
-- backend/src/modules/user/user-cleanup.service.ts: what the clean-up removes and what it keeps.
use mathlib.Core.Path.{subst}
use ai_planner.Prelude.{
  take, All-take, All-In, All-select_In, In, ℕ, ◌≡◌, ◌≢◌, refl, ap, ◌∙◌, arith, Bool, true, false,
  none, List, [], ◌∷◌, map, select, change, All, if◌then◌else◌, ◌==◌, not, ◌&&◌, ◌||◌, Bool-cases,
  inl, inr,
}
use ai_planner.Prisma.Keys.{IsUnique}
use ai_planner.Prisma.Selects.{All-select, select-not}
use ai_planner.Schema.{User, Store, Prisma}
use ai_planner.Account.Linking.{All-not}
use ai_planner.Cleanup.{
  is_expired, max_users, hard_delete, hard_delete_each, hard_delete_expired_users,
}

-- No row of the user is left in any table that refers to users.
pub record IsErased (user_id : ℕ) (st : Store) : Type 0 where
  pub users : All (λ r. (r.id == user_id) ≡ false) st.users
  pub refresh_tokens : All (λ r. (r.user_id == user_id) ≡ false) st.refresh_tokens
  pub reset_tokens : All (λ r. (r.user_id == user_id) ≡ false) st.reset_tokens
  pub subscriptions : All (λ r. (r.user_id == user_id) ≡ false) st.subscriptions
  pub payments : All (λ r. (r.user_id == user_id) ≡ false) st.payments
  pub workspaces : All (λ r. (r.owner_id == user_id) ≡ false) st.workspaces
  pub members : All (λ r. (r.user_id == user_id) ≡ false) st.members
  pub invites : All (λ r. (r.inviter_id == user_id) ≡ false) st.invites
  pub plans : All (λ r. (r.user_id == user_id) ≡ false) st.plans
  pub memos : All (λ r. (r.author_id == user_id) ≡ false) st.memos
  pub notifications : All (λ r. (r.user_id == user_id) ≡ false) st.notifications
  pub categories : All (λ r. (r.user_id == user_id) ≡ false) st.categories

module _ {A : Type 0} where
  -- A select by a wider test.
  select-or :
      (p q : A → Bool) (t : List A) → All (λ x. p x ≡ false) (select (λ x. not (p x || q x)) t)
  select-or p q [] = tt
  select-or p q (x ∷ t) = ground (arith, select-or p q t)

  All-change :
      (p q : A → Bool) (f : A → A) (t : List A)
      → ((x : A) → p (f x) ≡ p x)
      → All (λ x. p x ≡ false) t
      → All (λ x. p x ≡ false) (map (change q f) t)
  All-change p q f [] keep h = tt
  All-change p q f (x ∷ t) keep h = (ground (arith, keep x), All-change p q f t keep h.1)

  All-under :
      (P : A → A → Type 0) (f : A → Bool) (t us : List A)
      → All (λ v. All (P v) t) us
      → All (λ v. All (P v) (select f t)) us
  All-under P f t [] h = tt
  All-under P f t (u ∷ us) h = (All-select (P u) f t h.0, All-under P f t us h.1)

  -- Rows that a test does not want may go.
  select-away :
      (p q : A → Bool) (t : List A)
      → All (λ x. (p x && q x) ≡ false) t
      → select q (select (λ x. not (p x)) t) ≡ select q t
  select-away p q [] h = refl
  select-away p q (x ∷ t) h = ground (arith, select-away p q t h.1)

-- Among rows with unique ids, each other row than `u` has another id.
lone :
    (p : User → Bool) (t : List User) (u : User)
    → IsUnique (λ x. x.id) t
    → In u t
    → p u ≡ true
    → All (λ x. (x.id == u.id && not (p x)) ≡ false) t
lone p [] u uniq i h = tt
lone p (y ∷ t) u uniq (inl same) h =
    subst (λ v. All (λ x. (x.id == v.id && not (p x)) ≡ false) (y ∷ t)) same
      (ground (arith, ap p same), All-not (λ x. x.id) y.id (λ x. not (p x)) t uniq.0)
lone p (y ∷ t) u uniq (inr later) h =
    let other : u.id ≢ y.id = All-In (λ x. x.id ≢ y.id) u t uniq.0 later in
    (ground (arith, other), lone p t u uniq.1 later h)

select-lone :
    (p : User → Bool) (t : List User)
    → IsUnique (λ x. x.id) t
    → All (λ u. All (λ x. (x.id == u.id && not (p x)) ≡ false) t) (select p t)
select-lone p t uniq = All-select_In _ p t (λ u i h. lone p t u uniq i h)

module _ (db : Prisma) where
  -- The transaction leaves no row of the user.
  hard_delete-IsErased : (user_id : ℕ) (st : Store) → IsErased user_id (hard_delete db user_id st)
  unfolding hard_delete
  hard_delete-IsErased user_id st = record {
    users =
        rw (db.user.delete_many-eq (λ r. r.id == user_id) st.users)
          (select-not (λ r. r.id == user_id) st.users);
    refresh_tokens =
        rw (db.refresh_token.delete_many-eq (λ r. r.user_id == user_id) st.refresh_tokens)
          (select-not (λ r. r.user_id == user_id) st.refresh_tokens);
    reset_tokens =
        rw (db.password_reset_token.delete_many-eq (λ r. r.user_id == user_id) st.reset_tokens)
          (select-not (λ r. r.user_id == user_id) st.reset_tokens);
    subscriptions = select-not (λ r. r.user_id == user_id) st.subscriptions;
    payments = select-or (λ r. r.user_id == user_id) _ st.payments;
    workspaces = select-not (λ r. r.owner_id == user_id) st.workspaces;
    members = select-or (λ r. r.user_id == user_id) _ st.members;
    invites = select-or (λ r. r.inviter_id == user_id) _ st.invites;
    plans = rw (db.plan.delete_many-eq (λ r. r.user_id == user_id) st.plans) (
        All-change (λ r. r.user_id == user_id) _ (λ p. record p { workspace_id = none }) _
          (λ p. refl)
          (All-change (λ r. r.user_id == user_id) _ (λ p. record p { category_id = none }) _
            (λ p. refl) (select-not (λ r. r.user_id == user_id) st.plans)));
    memos = select-not (λ r. r.author_id == user_id) _;
    notifications = select-not (λ r. r.user_id == user_id) st.notifications;
    categories = select-not (λ r. r.user_id == user_id) st.categories;
  }

  hard_delete-users :
      (user_id : ℕ) (st : Store)
      → (hard_delete db user_id st).users ≡ select (λ u. not (u.id == user_id)) st.users
  unfolding hard_delete
  hard_delete-users user_id st = db.user.delete_many-eq (λ u. u.id == user_id) st.users

  each-eq :
      (refused : ℕ → Bool) (u : User) (us : List User) (st : Store) (b : Bool)
      → refused u.id ≡ b
      → (hard_delete_each db refused (u ∷ us) st).users
        ≡ (hard_delete_each db refused us (if b then st else hard_delete db u.id st)).users
  unfolding hard_delete_each
  each-eq refused u us st b h =
      ap (λ c. (hard_delete_each db refused us (if c then st else hard_delete db u.id st)).users) h

  each-keeps :
      (refused : ℕ → Bool) (q : User → Bool) (us : List User) (st : Store)
      → All (λ u. All (λ x. (x.id == u.id && q x) ≡ false) st.users) us
      → select q (hard_delete_each db refused us st).users ≡ select q st.users
  each-keeps refused q [] st h = unfold hard_delete_each in refl
  each-keeps refused q (u ∷ us) st h = elim (Bool-cases (refused u.id)) [
    | inl kept ↦ rw (each-eq refused u us st true kept) (each-keeps refused q us st h.1)
    | inr done ↦
        let users : (hard_delete db u.id st).users ≡ select (λ x. not (x.id == u.id)) st.users =
          hard_delete-users u.id st in
        let later : All
            (λ v. All (λ x. (x.id == v.id && q x) ≡ false) (hard_delete db u.id st).users) us =
          rw users (
            All-under (λ v x. (x.id == v.id && q x) ≡ false) (λ x. not (x.id == u.id)) st.users us
              h.1) in
        rw (each-eq refused u us st false done) (
          each-keeps refused q us (hard_delete db u.id st) later
          ∙ ap (select q) users
          ∙ select-away (λ x. x.id == u.id) q st.users h.0)
  ]

  -- Where ids are unique, the clean-up keeps each account that is not deleted or was deleted at most
  -- thirty days ago, whichever transactions the database refuses.
  pub hard_delete_expired_users-keeps :
      (scheduler_enabled : Bool) (refused : ℕ → Bool) (now : ℕ) (st : Store)
      → IsUnique (λ u. u.id) st.users
      → select
          (λ u. not (is_expired now u))
          (hard_delete_expired_users db scheduler_enabled refused now st).users
        ≡ select (λ u. not (is_expired now u)) st.users
  unfolding hard_delete_expired_users
  hard_delete_expired_users-keeps false refused now st uniq = refl
  hard_delete_expired_users-keeps true refused now st uniq =
      let found : List User = db.user.find_many (is_expired now) st.users in
      let lonely : All (λ u. All (λ x. (x.id == u.id && not (is_expired now x)) ≡ false) st.users)
          found =
        rw (db.user.find_many-eq (is_expired now) st.users)
          (select-lone (is_expired now) st.users uniq) in
      each-keeps refused (λ u. not (is_expired now u)) (take max_users found) st
        (All-take (λ u. All (λ x. (x.id == u.id && not (is_expired now x)) ≡ false) st.users)
          max_users found lonely)
