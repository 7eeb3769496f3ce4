-- ===== src/Account/Access.antt =====
-- backend/src/modules/auth: every account keeps a way to sign in, through all calls of `AuthService`
-- and `OAuthAccountService` that write accounts.

use ai_planner.Prelude.{JsString, ℕ, String, Option, >>=-post}
use ai_planner.Prisma.Keys.{IsUnique}
use ai_planner.Schema.{Store, Prisma}
use ai_planner.Account.Tokens.{Bcrypt, Drawn}
use ai_planner.Account.Password.{SetupToken, reset_password, change_password}
use ai_planner.Account.Oauth.{
  OauthProvider, find_by_provider_id, sign_up, link_or_ask, complete_signup, find_or_link_or_create,
  link_provider_to_user, unlink_oauth,
}
use ai_planner.Account.Profile.{
  create_account, take_email, update_nickname, update_settings, SettingsDto, delete_me,
}
use ai_planner.Account.Linking.{AllHaveLogin}
use ai_planner.Account.Keeping.{
  settings-HasLogin, reset-HasLogin, change_password-HasLogin, take_email-HasLogin,
  nickname-HasLogin, create_account-HasLogin, delete_me-HasLogin,
}
use ai_planner.Account.Binding.{
  link-HasLogin, find_by-HasLogin, link_or_ask-HasLogin, sign_up-HasLogin, unlink-HasLogin,
}

-- The calls that write accounts, except for the time of a login, with what they draw and are given.
pub data Op : Type 0 where
  create_account_op : Drawn → ℕ → ℕ → ℕ → String → String → String → Op
  complete_signup_op : JsString → ℕ → ℕ → OauthProvider → ℕ → Option String → String → Op
  find_or_link_op : ℕ → OauthProvider → ℕ → Option String → Op
  link_op : ℕ → OauthProvider → ℕ → Op
  unlink_op : ℕ → OauthProvider → Op
  reset_password_op : ℕ → ℕ → String → String → Op
  change_password_op : Drawn → ℕ → ℕ → Option String → String → Option SetupToken → ℕ → Op
  take_email_op : Drawn → ℕ → ℕ → String → Op
  update_nickname_op : Drawn → ℕ → ℕ → String → Op
  update_settings_op : SettingsDto → ℕ → Op
  delete_me_op : ℕ → Option String → Option SetupToken → ℕ → Op

module _ (db : Prisma) (bc : Bcrypt) where
  abbrev pub perform : Op → Store → Store
  perform (create_account_op d id salt now email name password) st =
      (create_account db bc d id salt now email name password st).1
  perform (complete_signup_op js new_id now provider id email name) st =
      (complete_signup db js new_id now provider id email name st).1
  perform (find_or_link_op now provider id email) st =
      (find_or_link_or_create db now provider id email st).1
  perform (link_op user_id provider id) st = (link_provider_to_user db user_id provider id st).1
  perform (unlink_op user_id provider) st = (unlink_oauth db user_id provider st).1
  perform (reset_password_op salt now raw password) st =
      (reset_password db bc salt now raw password st).1
  perform (change_password_op d salt now current password token user_id) st =
      (change_password db bc d salt now current password token user_id st).1
  perform (take_email_op d now user_id email) st = (take_email db bc d now user_id email st).1
  perform (update_nickname_op d now user_id raw) st = (update_nickname db bc d now user_id raw st).1
  perform (update_settings_op dto user_id) st = (update_settings db dto user_id st).1
  perform (delete_me_op now password token user_id) st =
      (delete_me db bc now password token user_id st).1

module _ (db : Prisma) (bc : Bcrypt) where
  -- Where ids are unique and every account has a password or a provider to sign in by, it is so
  -- after any call that registers, signs up or in by a provider, links or unlinks one, sets a password,
  -- an address, a nickname or settings, or deletes an account, whatever it is given and whether it
  -- succeeds or throws.
  pub perform-HasLogin :
      (op : Op) (st : Store)
      → IsUnique (λ u. u.id) st.users
      → AllHaveLogin st
      → AllHaveLogin (perform db bc op st)
  perform-HasLogin (create_account_op d id salt now email name password) st uniq h =
      create_account-HasLogin db bc d id salt now email name password st h
  perform-HasLogin (complete_signup_op js new_id now provider id email name) st uniq h =
      unfold complete_signup in
      >>=-post AllHaveLogin (find_by_provider_id db now provider id)
        (sign_up db js new_id now provider id email name) st
        (λ e _. find_by-HasLogin db now provider id st h)
        (λ o _.
          sign_up-HasLogin db js new_id now provider id email name o _
            (find_by-HasLogin db now provider id st h))
  perform-HasLogin (find_or_link_op now provider id email) st uniq h =
      unfold find_or_link_or_create in
      >>=-post AllHaveLogin (find_by_provider_id db now provider id)
        (link_or_ask db now provider id email) st (λ e _. find_by-HasLogin db now provider id st h)
        (λ o _.
          link_or_ask-HasLogin db now provider id email o _
            (find_by-HasLogin db now provider id st h))
  perform-HasLogin (link_op user_id provider id) st uniq h =
      link-HasLogin db user_id provider id st h
  perform-HasLogin (unlink_op user_id provider) st uniq h =
      unlink-HasLogin db user_id provider st uniq h
  perform-HasLogin (reset_password_op salt now raw password) st uniq h =
      reset-HasLogin db bc salt now raw password st h
  perform-HasLogin (change_password_op d salt now current password token user_id) st uniq h =
      change_password-HasLogin db bc d salt now current password token user_id st h
  perform-HasLogin (take_email_op d now user_id email) st uniq h =
      take_email-HasLogin db bc d now user_id email st h
  perform-HasLogin (update_nickname_op d now user_id raw) st uniq h =
      nickname-HasLogin db bc d now user_id raw st h
  perform-HasLogin (update_settings_op dto user_id) st uniq h =
      settings-HasLogin db dto user_id st h
  perform-HasLogin (delete_me_op now password token user_id) st uniq h =
      delete_me-HasLogin db bc now password token user_id st h
