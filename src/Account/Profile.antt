-- ===== src/Account/Profile.antt =====
-- backend/src/modules/auth/auth.service.ts: registering, and what users change about their account.
use ai_planner.Prelude.{
  JsString, ℕ, Bool, true, false, String, Option, none, some, ok, err, Action, pure, gets, throw_if,
  or_throw, ◌>>=◌, ◌>>◌, ◌==◌, str_eq, is_some, ◌&&◌, ◌||◌, not,
}
use ai_planner.Schema.{User, UserRole, Store, Prisma, HttpError, bad_request, not_found, conflict}
use ai_planner.EmailVerification.{normalize_email, FallbackStore, assert_verified}
use ai_planner.Workspace.{email_matches}
use ai_planner.Payment.Subscriptions.{Call, cancel_by_user}
use ai_planner.Account.Nickname.{assert_nickname}
use ai_planner.Account.Tokens.{
  Bcrypt, Drawn, TokenPair, token_user, find_user, update_user, tokens_for_user, logout_all,
}
use ai_planner.Account.Login.{Server, in_store}
use ai_planner.Account.Password.{SetupToken, check_owner, answer}
use ai_planner.Account.Oauth.{new_user, create_user}

-- `EmailVerificationService.assertVerified`, whose refusal is a bad request here.
unfoldable pub assert_email :
    JsString → ℕ → String → Action HttpError (Server FallbackStore) (Unit {0})
unfolding assert_verified
assert_email js now email (st, codes) =
    let (r, codes') = assert_verified js now email codes in
    (elim r [ ok a ↦ ok a | err e ↦ err bad_request ], (st, codes'))

pub record Me : Type 0 where
  pub id : ℕ
  pub email : Option String
  pub nickname : String
  pub role : UserRole
  pub last_login_at : Option ℕ
  pub has_password : Bool
  pub email_verified : Bool
  pub google : Bool
  pub kakao : Bool
  pub naver : Bool
  pub in_app_notifications_enabled : Bool
  pub email_notifications_enabled : Bool

abbrev pub me_of : User → Me
me_of u = record {
  id = u.id;
  email = u.email;
  nickname = u.nickname;
  role = u.role;
  last_login_at = u.last_login_at;
  has_password = is_some u.password;
  email_verified = u.email_verified;
  google = is_some u.google_id;
  kakao = is_some u.kakao_id;
  naver = is_some u.naver_id;
  in_app_notifications_enabled = u.in_app_notifications_enabled;
  email_notifications_enabled = u.email_notifications_enabled;
}

pub record SettingsDto : Type 0 where
  pub in_app_notifications_enabled : Option Bool
  pub email_notifications_enabled : Option Bool

abbrev pub or_kept : Option Bool → Bool → Bool
or_kept none b = b
or_kept (some b) _ = b

abbrev pub has_setting : SettingsDto → Bool
has_setting dto =
    is_some dto.in_app_notifications_enabled || is_some dto.email_notifications_enabled

abbrev pub with_settings : SettingsDto → User → User
with_settings dto u = record u {
  in_app_notifications_enabled =
      or_kept dto.in_app_notifications_enabled u.in_app_notifications_enabled;
  email_notifications_enabled =
      or_kept dto.email_notifications_enabled u.email_notifications_enabled;
}

-- `current?.nickname === nickname`
abbrev pub has_nickname : String → Option User → Bool
has_nickname name none = false
has_nickname name (some u) = str_eq u.nickname name

pub record RegisterDto : Type 0 where
  pub email : String
  pub nickname : String
  pub password : String

-- A call whose exception is caught: what it wrote stays.
abbrev pub best_effort : {A : Type 0} → Call A → Call (Unit {0})
best_effort m st = (ok tt, (m st).1)

module _ (db : Prisma) where
  unfoldable pub check_email_availability : JsString → String → Store → Bool
  check_email_availability js email st =
      not (is_some (db.user.find_first (λ u. email_matches u (normalize_email js email)) st.users))

  unfoldable pub assert_email_available : JsString → String → Call (Unit {0})
  unfolding check_email_availability
  assert_email_available js email = do
    available ← gets (check_email_availability js email)
    throw_if (not available) conflict

  unfoldable pub get_me : ℕ → Call Me
  unfolding find_user
  get_me user_id = do u ← or_throw (← find_user db (λ x. x.id == user_id)) not_found; pure (me_of u)

  unfoldable pub update_settings : SettingsDto → ℕ → Call (Unit {0})
  unfolding update_user
  update_settings dto user_id = do
    throw_if (not (has_setting dto)) bad_request
    update_user db (λ u. u.id == user_id) (with_settings dto) >> pure tt

module _ (db : Prisma) (bc : Bcrypt) where
  -- `register`, after the address and the nickname.
  unfoldable pub create_account : Drawn → ℕ → ℕ → ℕ → String → String → String → Call TokenPair
  unfolding find_user create_user update_user tokens_for_user
  create_account d new_id salt now email nickname password = do
    existing ← find_user db (λ u. email_matches u email)
    throw_if (is_some existing) conflict
    u ← create_user db (record (new_user new_id now (some email) nickname) {
      password = some (bc.hash salt password);
    })
    update_user db (λ x. x.id == u.id) (λ x. record x { last_login_at = some now })
    tokens_for_user db bc d now (token_user u)

  unfoldable pub register :
      JsString → Drawn → ℕ → ℕ → ℕ → RegisterDto → Action HttpError (Server FallbackStore) TokenPair
  unfolding create_account assert_email
  register js d new_id salt now dto = do
    nickname ← in_store (answer (assert_nickname dto.nickname))
    assert_email js now (normalize_email js dto.email)
    in_store (create_account d new_id salt now (normalize_email js dto.email) nickname dto.password)

  unfoldable pub update_nickname : Drawn → ℕ → ℕ → String → Call TokenPair
  unfolding find_user update_user tokens_for_user
  update_nickname d now user_id raw = do
    nickname ← answer (assert_nickname raw)
    current ← find_user db (λ u. u.id == user_id)
    throw_if (has_nickname nickname current) bad_request
    u ← update_user db (λ x. x.id == user_id) (λ x. record x { nickname = nickname })
    tokens_for_user db bc d now (token_user u)

  -- `updateEmail`, after the address has been proved.
  unfoldable pub take_email : Drawn → ℕ → ℕ → String → Call TokenPair
  unfolding find_user update_user tokens_for_user
  take_email d now user_id email = do
    existing ← find_user db (λ u. email_matches u email && not (u.id == user_id))
    throw_if (is_some existing) conflict
    u ←
        update_user db (λ x. x.id == user_id)
          (λ x. record x { email = some email; email_verified = true })
    tokens_for_user db bc d now (token_user u)

  unfoldable pub update_email :
      JsString → Drawn → ℕ → ℕ → String → Action HttpError (Server FallbackStore) TokenPair
  unfolding take_email assert_email
  update_email js d now user_id email = do
    assert_email js now (normalize_email js email)
    in_store (take_email d now user_id (normalize_email js email))

  unfoldable pub delete_me : ℕ → Option String → Option SetupToken → ℕ → Call (Unit {0})
  unfolding find_user check_owner update_user logout_all
  delete_me now password verify_token user_id = do
    u ← or_throw (← find_user db (λ x. x.id == user_id)) not_found
    answer (check_owner bc password verify_token u)
    best_effort (cancel_by_user db now user_id)
    logout_all db user_id
    update_user db (λ x. x.id == user_id) (λ x. record x { deleted_at = some now }) >> pure tt
