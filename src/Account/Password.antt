-- ===== src/Account/Password.antt =====
-- backend/src/modules/auth/auth.service.ts: a forgotten password, a new one, and the first one of an
-- account that signs in by a provider, which a code sent by mail and kept in Redis allows.
use ai_planner.Prelude.{
  JsString, ℕ, ◌+◌, Bool, true, false, String, Option, none, some, List, [], ◌∷◌, ◌++◌, Result, ok,
  err, Action, pure, throw, gets, modify, or_throw, ◌>>=◌, ◌>>◌, if◌then◌else◌, leb, ltb, ◌==◌,
  str_eq, is_some, ◌&&◌, ◌||◌, not, find?,
}
use ai_planner.Schema.{
  User, PasswordResetToken, Store, Prisma, HttpError, bad_request, unauthorized, not_found,
  too_many_requests, internal, Mail, password_reset, oauth_account_reminder, verification_code,
}
use ai_planner.EmailVerification.{normalize_email}
use ai_planner.Workspace.{email_matches}
use ai_planner.Payment.Subscriptions.{Call}
use ai_planner.Redis.{
  Key, setup_resend, setup_code, setup_attempts, text, count_of, Client, redis_get, redis_set,
  redis_del, redis_incr,
}
use ai_planner.Account.Tokens.{
  Bcrypt, Drawn, TokenPair, token_user, find_user, update_user, tokens_for_user, logout_all,
}
use ai_planner.Account.Login.{Server, in_store, hash_of}

-- 1 hour, in milliseconds
abbrev pub reset_ms : ℕ
reset_ms = 3600000

abbrev pub setup_code_ttl : ℕ
setup_code_ttl = 300

abbrev pub setup_cooldown : ℕ
setup_cooldown = 60

abbrev pub setup_max_attempts : ℕ
setup_max_attempts = 5

abbrev pub attempt_ttl : ℕ
attempt_ttl = 600

-- `['Google']` where the id is set, and so on.
abbrev pub name_if : Option ℕ → String → List String
name_if none name = []
name_if (some id) name = name ∷ []

abbrev pub provider_names : User → List String
provider_names u =
    name_if u.google_id "Google" ++ (name_if u.kakao_id "Kakao" ++ name_if u.naver_id "Naver")

-- `if (!text)`
abbrev pub given : Option String → Option String
given none = none
given (some s) = if str_eq s "" then none else some s

-- The JWT that `verifyPasswordSetup` signs, and what the verification of another one gives: whose it
-- is, if it is signed, not expired, and made for setting up a password.
pub data SetupToken : Type 0 where
  -- not valid, expired, or for another purpose
  unusable : SetupToken
  issued_to : ℕ → SetupToken

-- `verifyPasswordSetupToken`
unfoldable pub verify_password_setup_token : SetupToken → ℕ → Result HttpError (Unit {0})
verify_password_setup_token unusable user_id = err bad_request
verify_password_setup_token (issued_to sub) user_id =
    if sub == user_id then ok tt else err unauthorized

-- The proof of who asks that `changePassword` and `deleteMe` want: the password of an account that
-- has one, and else a token.
unfoldable pub check_owner :
    Bcrypt → Option String → Option SetupToken → User → Result HttpError (Unit {0})
unfolding verify_password_setup_token
check_owner bc password token u = elim (hash_of (some u)) [
  | some hash ↦ elim (given password) [
    | none ↦ err bad_request
    | some p ↦ if bc.compare p hash then ok tt else err unauthorized
  ]
  | none ↦ elim token [ none ↦ err bad_request | some t ↦ verify_password_setup_token t u.id ]
]

abbrev pub answer : {A : Type 0} → Result HttpError A → Call A
answer r st = (r, st)

abbrev pub with_resets : (List PasswordResetToken → List PasswordResetToken) → Store → Store
with_resets f st = record st { reset_tokens = f st.reset_tokens }

abbrev pub send : Mail → Store → Store
send m st = record st { outbox = m ∷ st.outbox }

abbrev pub reset_row : Bcrypt → Drawn → ℕ → ℕ → PasswordResetToken
reset_row bc d now user_id = record {
  id = d.id;
  token = bc.hash d.salt d.raw;
  user_id = user_id;
  expires_at = now + reset_ms;
  used = false;
}

module _ (db : Prisma) (bc : Bcrypt) where
  -- `forgotPassword`, for a user with the address `email`; `mail_sent` is what the mail service does.
  unfoldable pub offer_reset : Bool → Drawn → ℕ → String → User → Call (Unit {0})
  offer_reset mail_sent d now email u =
      if not (is_some (hash_of (some u)))
        && (is_some u.google_id || is_some u.kakao_id || is_some u.naver_id)
      then (if mail_sent
          then modify (send (oauth_account_reminder email (provider_names u)))
          else throw internal)
      else do
        modify (with_resets (db.password_reset_token.create (reset_row bc d now u.id)))
        if mail_sent
            then modify (send (password_reset email d.raw))
            else (modify (with_resets (db.password_reset_token.delete_many (λ t. t.id == d.id)))
                >> throw internal)

  unfoldable pub forgot_password : Bool → Drawn → ℕ → String → Call (Unit {0})
  unfolding offer_reset find_user
  forgot_password mail_sent d now email = do
    found ← find_user db (λ u. email_matches u email)
    elim found [
      | none ↦ pure tt
      | some u ↦ elim (given u.email) [ none ↦ pure tt | some e ↦ offer_reset mail_sent d now e u ]
    ]

  -- The first token that is not used, not expired and matches.
  abbrev pub active_reset : ℕ → String → Store → Option PasswordResetToken
  active_reset now raw st =
      find? (λ t. bc.compare raw t.token)
        (db.password_reset_token.find_many (λ t. not t.used && ltb now t.expires_at)
          st.reset_tokens)

  unfoldable pub reset_password : ℕ → ℕ → String → String → Call (Unit {0})
  unfolding update_user
  reset_password salt now raw password = do
    matched ← or_throw (← gets (active_reset now raw)) bad_request
    update_user db (λ u. u.id == matched.user_id)
        (λ u. record u { password = some (bc.hash salt password) })
    modify (
        with_resets (
          db.password_reset_token.update_many (λ t. t.id == matched.id)
            (λ t. record t { used = true })))

  unfoldable pub change_password :
      Drawn → ℕ → ℕ → Option String → String → Option SetupToken → ℕ → Call TokenPair
  unfolding find_user check_owner update_user logout_all tokens_for_user
  change_password d salt now current_password new_password verify_token user_id = do
    u ← or_throw (← find_user db (λ x. x.id == user_id)) not_found
    answer (check_owner bc current_password verify_token u)
    update_user db (λ x. x.id == user_id)
        (λ x. record x { password = some (bc.hash salt new_password) })
    logout_all db user_id
    tokens_for_user db bc d now (token_user u)

-- The first two tests of both calls below: the address of a user who has no password.
unfoldable pub address_to_set_up : Option User → Result HttpError String
address_to_set_up none = err not_found
address_to_set_up (some u) =
    if is_some (hash_of (some u))
    then err bad_request
    else elim (given u.email) [ none ↦ err bad_request | some e ↦ ok e ]

abbrev pub resend_key : String → Key
resend_key email = record { template = setup_resend; part = email }

abbrev pub code_key : String → Key
code_key email = record { template = setup_code; part = email }

abbrev pub attempts_key : String → Key
attempts_key email = record { template = setup_attempts; part = email }

module _ {R : Type 0} (client : Client R) (up : Bool) where
  abbrev pub clear_setup : String → R → R
  clear_setup email r =
      redis_del client up (attempts_key email) (redis_del client up (code_key email) r)

  -- `requestPasswordSetup`, from the address on.
  unfoldable pub send_setup_code :
      JsString → Bool → ℕ → String → String → Action HttpError (Server R) (Unit {0})
  send_setup_code js mail_sent now code address (st, r) =
      let email = normalize_email js address in
      if not up
      then (err bad_request, (st, r))
      else if is_some (redis_get client up now (resend_key email) r)
      then (err too_many_requests, (st, r))
      else let kept = redis_set client up now (resend_key email) (text "1") setup_cooldown (
          redis_del client up (attempts_key email)
            (redis_set client up now (code_key email) (text code) setup_code_ttl r)) in
        if mail_sent
        then (ok tt, (send (verification_code address code) st, kept))
        else (err internal, (st, redis_del client up (resend_key email) (clear_setup email kept)))

  -- `verifyPasswordSetup`, from the address on; the answer is whose the token is.
  unfoldable pub check_setup_code :
      JsString → ℕ → String → ℕ → String → Action HttpError (Server R) SetupToken
  unfolding redis_incr
  check_setup_code js now code user_id address (st, r) =
      let email = normalize_email js address in
      let attempts = count_of (redis_get client up now (attempts_key email) r) in
      if not up
      then (err bad_request, (st, r))
      else if leb setup_max_attempts attempts
      then (err bad_request, (st, r))
      else elim (redis_get client up now (code_key email) r) [
        | some (text stored) ↦
            if str_eq stored ""
            then (err bad_request, (st, r))
            else let (_, counted) = redis_incr client up now (attempts_key email) attempt_ttl r in
              if str_eq stored code
              then (ok (issued_to user_id), (st, clear_setup email counted))
              else (err bad_request, (st, counted))
        | _ ↦ (err bad_request, (st, r))
      ]

  module _ (db : Prisma) where
    unfoldable pub request_password_setup :
        JsString → Bool → ℕ → String → ℕ → Action HttpError (Server R) (Unit {0})
    unfolding address_to_set_up send_setup_code find_user
    request_password_setup js mail_sent now code user_id = do
      address ←
          in_store (answer (address_to_set_up (← in_store (find_user db (λ u. u.id == user_id)))))
      send_setup_code js mail_sent now code address

    unfoldable pub verify_password_setup :
        JsString → ℕ → String → ℕ → Action HttpError (Server R) SetupToken
    unfolding address_to_set_up check_setup_code find_user
    verify_password_setup js now code user_id = do
      address ←
          in_store (answer (address_to_set_up (← in_store (find_user db (λ u. u.id == user_id)))))
      check_setup_code js now code user_id address
