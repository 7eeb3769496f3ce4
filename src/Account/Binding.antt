-- ===== src/Account/Binding.antt =====
-- backend/src/modules/auth/oauth-account.service.ts and `unlinkOAuth` of auth.service.ts: the calls that
-- link and unlink providers leave every account a way to sign in.
use mathlib.Core.Path.{subst}
use ai_planner.Prelude.{
  JsString, ℕ, ◌≡◌, arith, Bool, false, String, Option, none, some, List, [], ◌∷◌, ◌==◌, ◌&&◌, not,
  find?, any, map, change, All, Bool-cases, Option-cases, inl, inr, some_is,
}
use ai_planner.Prisma.Keys.{IsUnique, find?-at}
use ai_planner.Schema.{User, Store, Prisma}
use ai_planner.Account.Password.{given}
use ai_planner.Account.Oauth.{
  OauthProvider, google, kakao, naver, provider_id, set_provider, signed_in, new_user,
  find_by_provider_id, link_by_email, create_user, by_address, normalized, sign_up, link_or_ask,
  link_provider_to_user, unlink_oauth, is_other,
}
use ai_planner.Account.Linking.{has_password, HasLogin, AllHaveLogin, found-lone}
use ai_planner.Account.Keeping.{All-update}

set_provider-HasLogin :
    (provider : OauthProvider) (id : ℕ) (u : User) → HasLogin (set_provider provider (some id) u)
set_provider-HasLogin OauthProvider.google id u = ground arith
set_provider-HasLogin OauthProvider.kakao id u = ground arith
set_provider-HasLogin OauthProvider.naver id u = ground arith

-- `LAST_LOGIN_METHOD`: the user would have no way to sign in without the provider.
abbrev is_last : OauthProvider → User → Bool
is_last provider u =
    not (has_password u) && not (any (is_other u provider) (google ∷ kakao ∷ naver ∷ []))

unset-HasLogin :
    (provider : OauthProvider) (u : User)
    → is_last provider u ≡ false
    → HasLogin (set_provider provider none u)
unset-HasLogin OauthProvider.google u h = ground arith
unset-HasLogin OauthProvider.kakao u h = ground arith
unset-HasLogin OauthProvider.naver u h = ground arith

All-unset :
    (provider : OauthProvider) (user_id : ℕ) (t : List User)
    → All (λ x. (x.id == user_id && is_last provider x) ≡ false) t
    → All HasLogin t
    → All HasLogin (map (change (λ x. x.id == user_id) (set_provider provider none)) t)
All-unset provider user_id [] other h = tt
All-unset provider user_id (x ∷ t) other h = elim (Bool-cases (x.id == user_id)) [
  | inl here ↦
      let more : is_last provider x ≡ false = ground (arith, other.0) in
      (rw here (unset-HasLogin provider x more), All-unset provider user_id t other.1 h.1)
  | inr away ↦ (rw away h.0, All-unset provider user_id t other.1 h.1)
]

module _ (db : Prisma) where
  pub link-HasLogin :
      (user_id : ℕ) (provider : OauthProvider) (id : ℕ) (st : Store)
      → AllHaveLogin st
      → AllHaveLogin (link_provider_to_user db user_id provider id st).1
  unfolding link_provider_to_user
  link-HasLogin user_id provider id st h =
      let p : User → Bool = λ u. u.id == user_id in
      let f : User → User = set_provider provider (some id) in
      ground (
        arith,
        db.user.update_many-eq p f st.users,
        All-update p f st.users (λ u _. set_provider-HasLogin provider id u) h,
      )

  link_by_email-HasLogin :
      (now : ℕ) (provider : OauthProvider) (id : ℕ) (v : User) (st : Store)
      → AllHaveLogin st
      → AllHaveLogin (link_by_email db now provider id v st).1
  unfolding link_by_email
  link_by_email-HasLogin now provider id v st h =
      let p : User → Bool = λ u. u.id == v.id in
      let f : User → User = λ u. signed_in now (set_provider provider (some id) u) in
      ground (
        arith,
        db.user.update_many-eq p f st.users,
        All-update p f st.users (λ u _. set_provider-HasLogin provider id u) h,
      )

  pub find_by-HasLogin :
      (now : ℕ) (provider : OauthProvider) (id : ℕ) (st : Store)
      → AllHaveLogin st
      → AllHaveLogin (find_by_provider_id db now provider id st).1
  unfolding find_by_provider_id
  find_by-HasLogin now provider id st h =
      elim (Option-cases (db.user.find_first (λ u. some_is (provider_id provider u) id) st.users)) [
        | inl missing ↦ ground arith
        | inr (v, found) ↦
            let p : User → Bool = λ u. u.id == v.id in
            ground (
              arith,
              db.user.update_many-eq p (signed_in now) st.users,
              All-update p (signed_in now) st.users (λ u k. k) h,
            )
      ]

  pub link_or_ask-HasLogin :
      (now : ℕ) (provider : OauthProvider) (id : ℕ) (email : Option String) (o : Option User)
      (st : Store)
      → AllHaveLogin st
      → AllHaveLogin (link_or_ask db now provider id email o st).1
  unfolding link_or_ask
  link_or_ask-HasLogin now provider id email (some u) st h = h
  link_or_ask-HasLogin now provider id email none st h =
      elim (Option-cases (by_address db (given email) st)) [
        | inl missing ↦ ground arith
        | inr (v, found) ↦ ground (arith, link_by_email-HasLogin now provider id v st h)
      ]

  pub sign_up-HasLogin :
      (js : JsString) (new_id now : ℕ) (provider : OauthProvider) (id : ℕ) (email : Option String)
      (name : String) (o : Option User) (st : Store)
      → AllHaveLogin st
      → AllHaveLogin (sign_up db js new_id now provider id email name o st).1
  unfolding sign_up create_user
  sign_up-HasLogin js new_id now provider id email name (some u) st h = h
  sign_up-HasLogin js new_id now provider id email name none st h =
      elim (Option-cases (by_address db (normalized js email) st)) [
        | inl missing ↦
            let u : User = new_user new_id now (normalized js email) name in
            ground (
              arith,
              db.user.create-eq (set_provider provider (some id) u) st.users,
              set_provider-HasLogin provider id u,
            )
        | inr (v, found) ↦ ground (arith, link_by_email-HasLogin now provider id v st h)
      ]

  pub unlink-HasLogin :
      (user_id : ℕ) (provider : OauthProvider) (st : Store)
      → IsUnique (λ u. u.id) st.users
      → AllHaveLogin st
      → AllHaveLogin (unlink_oauth db user_id provider st).1
  unfolding unlink_oauth
  unlink-HasLogin user_id provider st uniq h =
      let p : User → Bool = λ x. x.id == user_id in
      elim (Option-cases (find? p st.users)) [
        | inl missing ↦ ground (arith, db.user.find_first-eq p st.users)
        | inr (u, found) ↦ elim (Bool-cases (is_last provider u)) [
          | inl last ↦ ground (arith, db.user.find_first-eq p st.users)
          | inr more ↦
              let same : u.id ≡ user_id = find?-at (λ x. x.id) user_id st.users found in
              let rows : All (λ x. (x.id == user_id && is_last provider x) ≡ false) st.users =
                subst (λ i. All (λ x. (x.id == i && is_last provider x) ≡ false) st.users) same
                  (found-lone p (is_last provider) st.users uniq found more) in
              ground (
                arith,
                db.user.find_first-eq p st.users,
                db.user.update_many-eq p (set_provider provider none) st.users,
                All-unset provider user_id st.users rows h,
              )
        ]
      ]
