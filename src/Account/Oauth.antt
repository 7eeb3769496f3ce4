-- ===== src/Account/Oauth.antt =====
-- backend/src/modules/auth/oauth-account.service.ts: `OAuthAccountService`, and of auth.service.ts the
-- signing up by a provider, the tokens for it, and `unlinkOAuth`. Ids that a provider gives are
-- numbers. A signed token is its payload; that it was not forged is what the signature tells.
use ai_planner.Prelude.{
  JsString, ℕ, ◌+◌, Bool, true, false, String, Option, none, some, [], ◌∷◌, pure, throw, gets,
  modify, throw_if, or_throw, ◌>>=◌, ◌>>◌, if◌then◌else◌, ltb, ◌==◌, is_some, ◌&&◌, ◌||◌, not,
  some_is, any,
}
use ai_planner.Schema.{
  User, UserRole, Store, Prisma, bad_request, unauthorized, forbidden, not_found, conflict,
}
use ai_planner.EmailVerification.{normalize_email}
use ai_planner.Workspace.{email_matches}
use ai_planner.Payment.Subscriptions.{Call}
use ai_planner.Account.Nickname.{assert_nickname}
use ai_planner.Account.Tokens.{
  Bcrypt, Drawn, TokenPair, token_user, is_account_accessible, find_user, update_user,
  tokens_for_user,
}
use ai_planner.Account.Login.{hash_of}
use ai_planner.Account.Password.{given, answer}

pub data OauthProvider : Type 0 where
  google kakao naver : OauthProvider

abbrev pub same_provider : OauthProvider → OauthProvider → Bool
same_provider google google = true
same_provider kakao kakao = true
same_provider naver naver = true
same_provider _ _ = false

-- The column of `providerField`.
abbrev pub provider_id : OauthProvider → User → Option ℕ
provider_id google u = u.google_id
provider_id kakao u = u.kakao_id
provider_id naver u = u.naver_id

abbrev pub set_provider : OauthProvider → Option ℕ → User → User
set_provider google id u = record u { google_id = id }
set_provider kakao id u = record u { kakao_id = id }
set_provider naver id u = record u { naver_id = id }

abbrev pub signed_in : ℕ → User → User
signed_in now u = record u { last_login_at = some now }

-- A row of `user.create`, with the defaults of the schema.
abbrev pub new_user : ℕ → ℕ → Option String → String → User
new_user new_id now email nickname = record {
  id = new_id;
  email = email;
  nickname = nickname;
  password = none;
  role = UserRole.user;
  admin_read_only = false;
  is_suspended = false;
  last_login_at = some now;
  google_id = none;
  kakao_id = none;
  naver_id = none;
  email_verified = is_some email;
  deleted_at = none;
  in_app_notifications_enabled = true;
  email_notifications_enabled = true;
}

-- What a token for linking holds, and what one for signing up holds. Times are in seconds.
pub record LinkToken : Type 0 where
  pub sub : ℕ
  pub provider : OauthProvider
  pub exp : ℕ

pub record SignupToken : Type 0 where
  pub provider : OauthProvider
  pub provider_id : ℕ
  pub provider_email : Option String
  pub exp : ℕ

abbrev pub create_oauth_link_token : ℕ → ℕ → OauthProvider → LinkToken
create_oauth_link_token now_s user_id provider = record {
  sub = user_id;
  provider = provider;
  exp = now_s + 300;
}

-- The user whom a token for linking names, where `genuine` tells whether it parses, is signed, and has
-- the right `intent`.
unfoldable pub verify_oauth_link_token : Bool → ℕ → LinkToken → OauthProvider → Option ℕ
verify_oauth_link_token genuine now_s t provider =
    if not genuine
    then none
    else if not (same_provider t.provider provider) || ltb t.exp now_s
    then none
    else some t.sub

abbrev pub create_oauth_signup_token : ℕ → OauthProvider → ℕ → Option String → SignupToken
create_oauth_signup_token now_s provider id email = record {
  provider = provider;
  provider_id = id;
  provider_email = email;
  exp = now_s + 600;
}

abbrev pub verify_oauth_signup_token : Bool → ℕ → SignupToken → Option SignupToken
verify_oauth_signup_token genuine now_s t = if not genuine || ltb t.exp now_s then none else some t

abbrev pub normalized : JsString → Option String → Option String
normalized js none = none
normalized js (some e) = given (some (normalize_email js e))

-- Another provider that the user can sign in by.
abbrev pub is_other : User → OauthProvider → OauthProvider → Bool
is_other u provider p = not (same_provider p provider) && is_some (provider_id p u)

module _ (db : Prisma) where
  unfoldable pub find_by_provider_id : ℕ → OauthProvider → ℕ → Call (Option User)
  unfolding find_user update_user
  find_by_provider_id now provider id = do
    found ← find_user db (λ u. some_is (provider_id provider u) id)
    elim found [
      | none ↦ pure none
      | some u ↦ update_user db (λ x. x.id == u.id) (signed_in now) >>= λ v. pure (some v)
    ]

  -- A user without a password, found by address, gets the id of the provider.
  unfoldable pub link_by_email : ℕ → OauthProvider → ℕ → User → Call User
  unfolding update_user
  link_by_email now provider id u =
      if is_some (hash_of (some u))
      then throw unauthorized
      else update_user db (λ x. x.id == u.id)
          (λ x. signed_in now (set_provider provider (some id) x))

  unfoldable pub create_user : User → Call User
  create_user u = do modify (λ st. record st { users = db.user.create u st.users }); pure u

  abbrev pub by_address : Option String → Store → Option User
  by_address none st = none
  by_address (some e) st = db.user.find_first (λ u. email_matches u e) st.users

  -- `completeSignup`, after the search by the id of the provider.
  unfoldable pub sign_up :
      JsString → ℕ → ℕ → OauthProvider → ℕ → Option String → String → Option User → Call User
  sign_up js new_id now provider id provider_email nickname (some u) = pure u
  sign_up js new_id now provider id provider_email nickname none = do
    taken ← gets (by_address (normalized js provider_email))
    elim taken [
      | some u ↦ link_by_email now provider id u
      | none ↦ create_user (
          set_provider provider (some id)
            (new_user new_id now (normalized js provider_email) nickname))
    ]

  unfoldable pub complete_signup :
      JsString → ℕ → ℕ → OauthProvider → ℕ → Option String → String → Call User
  complete_signup js new_id now provider id provider_email nickname =
      find_by_provider_id now provider id
      >>= sign_up js new_id now provider id provider_email nickname

  -- `findOrLinkOrCreate`, after the search by the id of the provider.
  unfoldable pub link_or_ask :
      ℕ → OauthProvider → ℕ → Option String → Option User → Call (Option User)
  link_or_ask now provider id email (some u) = pure (some u)
  link_or_ask now provider id email none = do
    taken ← gets (by_address (given email))
    elim taken [
      | none ↦ pure none
      | some u ↦ link_by_email now provider id u >>= λ v. pure (some v)
    ]

  unfoldable pub find_or_link_or_create : ℕ → OauthProvider → ℕ → Option String → Call (Option User)
  find_or_link_or_create now provider id email =
      find_by_provider_id now provider id >>= link_or_ask now provider id email

  unfoldable pub link_provider_to_user : ℕ → OauthProvider → ℕ → Call (Unit {0})
  unfolding find_user update_user
  link_provider_to_user user_id provider id = do
    existing ← find_user db (λ u. some_is (provider_id provider u) id && not (u.id == user_id))
    throw_if (is_some existing) conflict
    update_user db (λ u. u.id == user_id) (set_provider provider (some id)) >> pure tt

  unfoldable pub unlink_oauth : ℕ → OauthProvider → Call (Unit {0})
  unfolding find_user update_user
  unlink_oauth user_id provider = do
    u ← or_throw (← find_user db (λ x. x.id == user_id)) not_found
    throw_if
        (not (is_some (hash_of (some u)))
          && not (any (is_other u provider) (google ∷ kakao ∷ naver ∷ [])))
        conflict
    update_user db (λ x. x.id == user_id) (set_provider provider none) >> pure tt

  unfoldable pub complete_oauth_signup :
      Bcrypt → JsString → Drawn → ℕ → ℕ → Option SignupToken → String → Call TokenPair
  unfolding complete_signup is_account_accessible tokens_for_user
  complete_oauth_signup bc js d new_id now token nickname = do
    payload ← or_throw token bad_request
    name ← answer (assert_nickname nickname)
    u ←
        complete_signup js new_id now payload.provider payload.provider_id payload.provider_email
          name
    throw_if (not (is_account_accessible u)) forbidden
    tokens_for_user db bc d now (token_user u)
