-- ===== src/Account/Sessions.antt =====
-- backend/src/modules/auth/auth.service.ts: which refresh tokens are good after the calls on them.
use ai_planner.Prelude.{
  ℕ, ◌≡◌, refl, arith, Bool, true, false, String, Option, none, some, List, [], ◌∷◌, ok, err, ltb,
  ◌==◌, ◌&&◌, not, find?, select, map, change, All,
}
use ai_planner.Prisma.Selects.{All-select}
use ai_planner.Schema.{
  User, RefreshToken, PasswordResetToken, Store, Prisma, unauthorized, bad_request,
}
use ai_planner.Account.Tokens.{
  Bcrypt, Drawn, TokenPair, is_account_accessible, matches, has_id, refresh_row, current_token,
  refresh_tokens, rotate,
}
use ai_planner.Payment.Subscriptions.{cancel_by_user, update_subscription}
use ai_planner.Account.Password.{SetupToken, change_password, active_reset, reset_password}
use ai_planner.Account.Profile.{delete_me}

module _ {A : Type 0} where
  pub find?-none : (p : A → Bool) (t : List A) → All (λ x. p x ≡ false) t → find? p t ≡ none
  find?-none p [] h = refl
  find?-none p (x ∷ t) h = ground (arith, find?-none p t h.1)

  -- Where no row but those of `q` satisfies `p`, no row does once those of `q` are deleted.
  pub All-delete :
      (p q : A → Bool) (t : List A)
      → All (λ x. (p x && not (q x)) ≡ false) t
      → All (λ x. p x ≡ false) (select (λ x. not (q x)) t)
  All-delete p q [] h = tt
  All-delete p q (x ∷ t) h = ground (arith, All-delete p q t h.1)

  find?-select-none :
      (p q : A → Bool) (t : List A)
      → All (λ x. (p x && q x) ≡ false) t
      → find? p (select q t) ≡ none
  find?-select-none p q [] h = refl
  find?-select-none p q (x ∷ t) h = ground (arith, find?-select-none p q t h.1)

-- Only the token with this id matches.
abbrev pub IsOnlyMatch : Bcrypt → String → ℕ → List RefreshToken → Type 0
IsOnlyMatch bc raw id ts = All (λ t. (matches bc raw t && not (has_id id t)) ≡ false) ts

module _ (db : Prisma) (bc : Bcrypt) where
  rotate-ok :
      (d : Drawn) (now : ℕ) (t : RefreshToken) (st : Store) {pair : TokenPair}
      → (rotate db bc d now t st).0 ≡ ok pair
      → (rotate db bc d now t st).1.refresh_tokens ≡ (
          refresh_row bc d now pair.access_token.id
          ∷ select (λ x. not (has_id t.id x)) st.refresh_tokens)
  unfolding rotate
  rotate-ok d now t st {pair} h =
      let row : RefreshToken = refresh_row bc d now pair.access_token.id in
      let kept : List RefreshToken = select (λ x. not (has_id t.id x)) st.refresh_tokens in
      ground (
        arith,
        db.refresh_token.delete_many-eq (has_id t.id) st.refresh_tokens,
        db.refresh_token.create-eq row kept,
      )

  current_token-none :
      (now : ℕ) (raw : String) (st : Store)
      → All (λ x. matches bc raw x ≡ false) st.refresh_tokens
      → current_token db bc now raw st ≡ none
  unfolding current_token
  current_token-none now raw st h =
      rw (db.refresh_token.find_many-eq (λ t. ltb now t.expires_at) st.refresh_tokens) (
        find?-none (matches bc raw) _ (
          All-select (λ x. matches bc raw x ≡ false) (λ t. ltb now t.expires_at) st.refresh_tokens
            h))

  refresh_tokens-found :
      (d : Drawn) (now : ℕ) (raw : String) (st : Store) {t : RefreshToken}
      → current_token db bc now raw st ≡ some t
      → refresh_tokens db bc d now raw st ≡ rotate db bc d now t st
  unfolding refresh_tokens
  refresh_tokens-found d now raw st found = ground arith

  refresh_tokens-none :
      (d : Drawn) (now : ℕ) (raw : String) (st : Store)
      → current_token db bc now raw st ≡ none
      → (refresh_tokens db bc d now raw st).0 ≡ err unauthorized
  unfolding refresh_tokens
  refresh_tokens-none d now raw st missing = ground arith

  -- A refresh token that has been traded for a new pair does not serve again, at any time, where no
  -- other token matches it, and the new one does not.
  pub refresh_once :
      (d d' : Drawn) (now now' : ℕ) (raw : String) (st : Store) {t : RefreshToken}
      {pair : TokenPair}
      → current_token db bc now raw st ≡ some t
      → IsOnlyMatch bc raw t.id st.refresh_tokens
      → bc.compare raw (bc.hash d.salt d.raw) ≡ false
      → (refresh_tokens db bc d now raw st).0 ≡ ok pair
      → (refresh_tokens db bc d' now' raw (refresh_tokens db bc d now raw st).1).0
        ≡ err unauthorized
  refresh_once d d' now now' raw st {t} {pair} found only other h =
      let traded : (rotate db bc d now t st).0 ≡ ok pair =
        rw (refresh_tokens-found d now raw st found) at h in
      let st' : Store = (rotate db bc d now t st).1 in
      let spent : All (λ x. matches bc raw x ≡ false) st'.refresh_tokens =
        rw (rotate-ok d now t st traded)
          (other, All-delete (matches bc raw) (has_id t.id) st.refresh_tokens only) in
      rw (refresh_tokens-found d now raw st found)
        (refresh_tokens-none d' now' raw st' (current_token-none now' raw st' spent))

  -- After a password has been changed, the user's only refresh token is the one in the answer; those
  -- of others are as before.
  pub change_password-sessions :
      (d : Drawn) (salt now : ℕ) (current : Option String) (password : String)
      (token : Option SetupToken) (user_id : ℕ) (st : Store) {pair : TokenPair}
      → (change_password db bc d salt now current password token user_id st).0 ≡ ok pair
      → (change_password db bc d salt now current password token user_id st).1.refresh_tokens ≡ (
          refresh_row bc d now pair.access_token.id
          ∷ select (λ t. not (t.user_id == user_id)) st.refresh_tokens)
  unfolding change_password
  change_password-sessions d salt now current password token user_id st {pair} h = ground (
    arith,
    db.refresh_token.delete_many-eq (λ t. t.user_id == user_id) st.refresh_tokens,
    db.refresh_token.create-eq (refresh_row bc d now pair.access_token.id)
        (select (λ t. not (t.user_id == user_id)) st.refresh_tokens),
  )

  pub cancel-users :
      (now user_id : ℕ) (st : Store)
      → ((cancel_by_user db now user_id st).1.users ≡ st.users)
        × ((cancel_by_user db now user_id st).1.refresh_tokens ≡ st.refresh_tokens)
  unfolding cancel_by_user update_subscription
  cancel-users now user_id st = ground arith

  All-deleted :
      (now user_id : ℕ) (us : List User)
      → All
          (λ u. (u.id == user_id && is_account_accessible u) ≡ false)
          (map (change (λ u. u.id == user_id) (λ u. record u { deleted_at = some now })) us)
  unfolding is_account_accessible
  All-deleted now user_id [] = tt
  All-deleted now user_id (u ∷ us) = (ground arith, All-deleted now user_id us)

  delete_me-ok :
      (now : ℕ) (password : Option String) (token : Option SetupToken) (user_id : ℕ) (st : Store)
      → (delete_me db bc now password token user_id st).0 ≡ ok tt
      → let st' = (delete_me db bc now password token user_id st).1 in
        (st'.refresh_tokens ≡ select (λ t. not (t.user_id == user_id)) st.refresh_tokens)
        × (st'.users
            ≡ map
                (change (λ u. u.id == user_id) (λ u. record u { deleted_at = some now }))
                st.users)
  unfolding delete_me
  delete_me-ok now password token user_id st h = ground (
    arith,
    cancel-users now user_id st,
    db.refresh_token.delete_many-eq (λ t. t.user_id == user_id) st.refresh_tokens,
    db.user.update_many-eq (λ u. u.id == user_id) (λ u. record u { deleted_at = some now })
        st.users,
  )

  -- After an account has been deleted, the user has no refresh token, those of others are as before,
  -- and no account of that id gives access.
  delete_me_ends :
      (now : ℕ) (password : Option String) (token : Option SetupToken) (user_id : ℕ) (st : Store)
      → (delete_me db bc now password token user_id st).0 ≡ ok tt
      → let st' = (delete_me db bc now password token user_id st).1 in
        (st'.refresh_tokens ≡ select (λ t. not (t.user_id == user_id)) st.refresh_tokens)
        × All (λ u. (u.id == user_id && is_account_accessible u) ≡ false) st'.users
  delete_me_ends now password token user_id st h =
      let (sessions, users) = delete_me-ok now password token user_id st h in
      (sessions, rw users (All-deleted now user_id st.users))

  -- The token has been marked as used.
  reset_password-ok :
      (salt now : ℕ) (raw password : String) (st : Store) {t : PasswordResetToken}
      → active_reset db bc now raw st ≡ some t
      → (reset_password db bc salt now raw password st).0 ≡ ok tt
      → (reset_password db bc salt now raw password st).1.reset_tokens
        ≡ map (change (λ x. x.id == t.id) (λ x. record x { used = true })) st.reset_tokens
  unfolding reset_password
  reset_password-ok salt now raw password st {t} found h = ground (
    arith,
    db.password_reset_token.update_many-eq (λ x. x.id == t.id) (λ x. record x { used = true })
        st.reset_tokens,
  )

  All-used :
      (now : ℕ) (raw : String) (id : ℕ) (ts : List PasswordResetToken)
      → All (λ x. (bc.compare raw x.token && not (x.id == id)) ≡ false) ts
      → All
          (λ x. (bc.compare raw x.token && (not x.used && ltb now x.expires_at)) ≡ false)
          (map (change (λ x. x.id == id) (λ x. record x { used = true })) ts)
  All-used now raw id [] h = tt
  All-used now raw id (x ∷ ts) h = (ground arith, All-used now raw id ts h.1)

  active_reset-none :
      (now : ℕ) (raw : String) (st : Store)
      → All
          (λ x. (bc.compare raw x.token && (not x.used && ltb now x.expires_at)) ≡ false)
          st.reset_tokens
      → active_reset db bc now raw st ≡ none
  active_reset-none now raw st h =
      rw
        (db.password_reset_token.find_many-eq (λ t. not t.used && ltb now t.expires_at)
          st.reset_tokens)
        (find?-select-none (λ t. bc.compare raw t.token) (λ t. not t.used && ltb now t.expires_at)
          st.reset_tokens h)

  reset_password-none :
      (salt now : ℕ) (raw password : String) (st : Store)
      → active_reset db bc now raw st ≡ none
      → (reset_password db bc salt now raw password st).0 ≡ err bad_request
  unfolding reset_password
  reset_password-none salt now raw password st h = ground arith

  -- A password is reset at most once by a token, at any time, where no other token that can be used matches it.
  reset_once :
      (salt salt' now now' : ℕ) (raw password password' : String) (st : Store)
      {t : PasswordResetToken}
      → active_reset db bc now raw st ≡ some t
      → All (λ x. (bc.compare raw x.token && not (x.id == t.id)) ≡ false) st.reset_tokens
      → (reset_password db bc salt now raw password st).0 ≡ ok tt
      → (reset_password db bc salt' now' raw password'
          (reset_password db bc salt now raw password st).1).0
        ≡ err bad_request
  reset_once salt salt' now now' raw password password' st {t} found only h =
      let st' : Store = (reset_password db bc salt now raw password st).1 in
      reset_password-none salt' now' raw password' st' (
        active_reset-none now' raw st' (
          rw (reset_password-ok salt now raw password st found h)
            (All-used now' raw t.id st.reset_tokens only)))
