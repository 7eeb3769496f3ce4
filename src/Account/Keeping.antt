-- ===== src/Account/Keeping.antt =====
-- backend/src/modules/auth/auth.service.ts: the calls that write accounts, but for those of providers,
-- leave every account a way to sign in.

use ai_planner.Prelude.{
  ℕ, arith, Bool, true, String, Option, some, List, [], ◌∷◌, ◌==◌, map, change, All, Option-cases,
  inl, inr, Result-cases,
}
use ai_planner.Schema.{User, Store, Prisma}
use ai_planner.Account.Nickname.{assert_nickname}
use ai_planner.Account.Tokens.{Bcrypt, Drawn, update_user}
use ai_planner.Account.Password.{SetupToken, reset_password, change_password, active_reset}
use ai_planner.Account.Oauth.{new_user}
use ai_planner.Account.Profile.{
  create_account, take_email, update_nickname, update_settings, SettingsDto, with_settings,
  delete_me,
}
use ai_planner.Account.Sessions.{cancel-users}
use ai_planner.Account.Linking.{HasLogin, AllHaveLogin}

module _ (p : User → Bool) (f : User → User) where
  pub All-update :
      (t : List User)
      → ((u : User) → HasLogin u → HasLogin (f u))
      → All HasLogin t
      → All HasLogin (map (change p f) t)
  All-update [] keep h = tt
  All-update (u ∷ t) keep h = (ground (arith, keep u h.0), All-update t keep h.1)

module _ (db : Prisma) where
  update_user-HasLogin :
      (p : User → Bool) (f : User → User) (st : Store)
      → ((u : User) → HasLogin u → HasLogin (f u))
      → AllHaveLogin st
      → AllHaveLogin (update_user db p f st).1
  unfolding update_user
  update_user-HasLogin p f st keep h =
      ground (arith, db.user.update_many-eq p f st.users, All-update p f st.users keep h)

  pub settings-HasLogin :
      (dto : SettingsDto) (user_id : ℕ) (st : Store)
      → AllHaveLogin st
      → AllHaveLogin (update_settings db dto user_id st).1
  unfolding update_settings
  settings-HasLogin dto user_id st h =
      let p : User → Bool = λ u. u.id == user_id in
      ground (
        arith,
        db.user.update_many-eq p (with_settings dto) st.users,
        All-update p (with_settings dto) st.users (λ u k. k) h,
      )

  module _ (bc : Bcrypt) where
    pub reset-HasLogin :
        (salt now : ℕ) (raw password : String) (st : Store)
        → AllHaveLogin st
        → AllHaveLogin (reset_password db bc salt now raw password st).1
    unfolding reset_password
    reset-HasLogin salt now raw password st h =
        elim (Option-cases (active_reset db bc now raw st)) [
          | inl missing ↦ ground arith
          | inr (t, found) ↦
              let p : User → Bool = λ u. u.id == t.user_id in
              let f : User → User = λ u. record u { password = some (bc.hash salt password) } in
              ground (
                arith,
                db.user.update_many-eq p f st.users,
                All-update p f st.users (λ u k. ground (arith, bc.hash-nonempty salt password)) h,
              )
        ]

    pub change_password-HasLogin :
        (d : Drawn) (salt now : ℕ) (current : Option String) (password : String)
        (token : Option SetupToken) (user_id : ℕ) (st : Store)
        → AllHaveLogin st
        → AllHaveLogin (change_password db bc d salt now current password token user_id st).1
    unfolding change_password
    change_password-HasLogin d salt now current password token user_id st h =
        let p : User → Bool = λ u. u.id == user_id in
        let f : User → User = λ u. record u { password = some (bc.hash salt password) } in
        ground (
          arith,
          db.user.update_many-eq p f st.users,
          All-update p f st.users (λ u k. ground (arith, bc.hash-nonempty salt password)) h,
        )

    pub take_email-HasLogin :
        (d : Drawn) (now user_id : ℕ) (email : String) (st : Store)
        → AllHaveLogin st
        → AllHaveLogin (take_email db bc d now user_id email st).1
    unfolding take_email
    take_email-HasLogin d now user_id email st h =
        let p : User → Bool = λ u. u.id == user_id in
        let f : User → User = λ u. record u { email = some email; email_verified = true } in
        ground (arith, db.user.update_many-eq p f st.users, All-update p f st.users (λ u k. k) h)

    pub nickname-HasLogin :
        (d : Drawn) (now user_id : ℕ) (raw : String) (st : Store)
        → AllHaveLogin st
        → AllHaveLogin (update_nickname db bc d now user_id raw st).1
    unfolding update_nickname
    nickname-HasLogin d now user_id raw st h = elim (Result-cases (assert_nickname raw)) [
      | inr (e, refused) ↦ ground arith
      | inl (name, accepted) ↦
          let p : User → Bool = λ u. u.id == user_id in
          let f : User → User = λ u. record u { nickname = name } in
          ground (arith, db.user.update_many-eq p f st.users, All-update p f st.users (λ u k. k) h)
    ]

    pub create_account-HasLogin :
        (d : Drawn) (id salt now : ℕ) (email name password : String) (st : Store)
        → AllHaveLogin st
        → AllHaveLogin (create_account db bc d id salt now email name password st).1
    unfolding create_account
    create_account-HasLogin d id salt now email name password st h =
        let u : User = record (new_user id now (some email) name) {
          password = some (bc.hash salt password);
        } in
        let p : User → Bool = λ x. x.id == id in
        let f : User → User = λ x. record x { last_login_at = some now } in
        ground (
          arith,
          db.user.create-eq u st.users,
          db.user.update_many-eq p f (u ∷ st.users),
          All-update p f (u ∷ st.users) (λ x k. k)
              (ground (arith, bc.hash-nonempty salt password), h),
        )

    pub delete_me-HasLogin :
        (now : ℕ) (password : Option String) (token : Option SetupToken) (user_id : ℕ) (st : Store)
        → AllHaveLogin st
        → AllHaveLogin (delete_me db bc now password token user_id st).1
    unfolding delete_me
    delete_me-HasLogin now password token user_id st h =
        let p : User → Bool = λ u. u.id == user_id in
        let f : User → User = λ u. record u { deleted_at = some now } in
        ground (
          arith,
          cancel-users db bc now user_id st,
          db.user.update_many-eq p f st.users,
          All-update p f st.users (λ u k. k) h,
        )
