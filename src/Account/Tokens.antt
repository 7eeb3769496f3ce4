-- ===== src/Account/Tokens.antt =====
-- backend/src/modules/auth/auth.service.ts: the tokens of a session. `oauthLogin`, `refreshTokens`,
-- `logout`, `logoutAll` and what they share. The access token is the payload that is signed; the
-- ids and tokens that are drawn enter as arguments.
use ai_planner.Prelude.{
  ℕ, ◌+◌, ◌≡◌, Bool, true, false, String, Option, none, some, List, pure, throw, gets, modify,
  throw_if, or_throw, ◌>>=◌, ◌>>◌, ltb, ◌==◌, str_eq, is_some, ◌&&◌, not, find?,
}
use ai_planner.Schema.{
  User, UserRole, RefreshToken, Store, Prisma, unauthorized, forbidden, internal,
}
use ai_planner.Payment.Subscriptions.{Call}

-- bcrypt: `hash` takes the salt that it draws.
pub record Bcrypt : Type 0 where
  pub hash : ℕ → String → String
  pub compare : String → String → Bool
  pub hash-nonempty : (salt : ℕ) (plain : String) → str_eq (hash salt plain) "" ≡ false
  pub compare-hash : (salt : ℕ) (plain : String) → compare plain (hash salt plain) ≡ true

-- The id of the new row, the 40 random bytes, and the salt of their hash.
pub record Drawn : Type 0 where
  pub id : ℕ
  pub raw : String
  pub salt : ℕ

pub record TokenUser : Type 0 where
  pub id : ℕ
  pub email : Option String
  pub nickname : String
  pub role : UserRole
  pub admin_read_only : Bool

pub record TokenPair : Type 0 where
  -- the payload of `access_token`
  pub access_token : TokenUser
  pub refresh_token : String

-- `isAccountAccessible`
unfoldable pub is_account_accessible : User → Bool
is_account_accessible u = not u.is_suspended && not (is_some u.deleted_at)

abbrev pub token_user : User → TokenUser
token_user u = record {
  id = u.id;
  email = u.email;
  nickname = u.nickname;
  role = u.role;
  admin_read_only = u.admin_read_only;
}

-- 30 days, in milliseconds
abbrev pub refresh_ms : ℕ
refresh_ms = 2592000000

abbrev pub refresh_row : Bcrypt → Drawn → ℕ → ℕ → RefreshToken
refresh_row bc d now user_id = record {
  id = d.id;
  token = bc.hash d.salt d.raw;
  user_id = user_id;
  expires_at = now + refresh_ms;
}

abbrev pub with_refresh : (List RefreshToken → List RefreshToken) → Store → Store
with_refresh f st = record st { refresh_tokens = f st.refresh_tokens }

abbrev pub matches : Bcrypt → String → RefreshToken → Bool
matches bc raw t = bc.compare raw t.token

abbrev pub has_id : ℕ → RefreshToken → Bool
has_id id t = t.id == id

module _ (db : Prisma) where
  unfoldable pub find_user : (User → Bool) → Call (Option User)
  find_user p = gets (λ st. db.user.find_first p st.users)

  -- `user.update` on a unique key: it throws when no row has it.
  unfoldable pub update_user : (User → Bool) → (User → User) → Call User
  unfolding find_user
  update_user p f = do
    row ← or_throw (← find_user p) internal
    modify (λ st. record st { users = db.user.update_many p f st.users })
    pure (f row)

  unfoldable pub logout_all : ℕ → Call (Unit {0})
  logout_all user_id =
      modify (with_refresh (db.refresh_token.delete_many (λ t. t.user_id == user_id)))

module _ (db : Prisma) (bc : Bcrypt) where
  -- `generateTokenPair` and `tokensForUser`
  unfoldable pub tokens_for_user : Drawn → ℕ → TokenUser → Call TokenPair
  tokens_for_user d now u = do
    modify (with_refresh (db.refresh_token.create (refresh_row bc d now u.id)))
    pure (record { access_token = u; refresh_token = d.raw })

  unfoldable pub oauth_login : Drawn → ℕ → User → Call TokenPair
  unfolding is_account_accessible tokens_for_user
  oauth_login d now u = do
    throw_if (not (is_account_accessible u)) forbidden
    tokens_for_user d now (token_user u)

  -- The loop of `refreshTokens` after its match.
  unfoldable pub rotate : Drawn → ℕ → RefreshToken → Call TokenPair
  unfolding find_user is_account_accessible tokens_for_user
  rotate d now stored = do
    u ← or_throw (← find_user db (λ x. x.id == stored.user_id)) internal
    throw_if (not (is_account_accessible u)) forbidden
    modify (with_refresh (db.refresh_token.delete_many (has_id stored.id)))
    tokens_for_user d now (token_user u)

  -- The first token that is not expired and matches.
  unfoldable pub current_token : ℕ → String → Store → Option RefreshToken
  current_token now raw st =
      find? (matches bc raw)
        (db.refresh_token.find_many (λ t. ltb now t.expires_at) st.refresh_tokens)

  unfoldable pub refresh_tokens : Drawn → ℕ → String → Call TokenPair
  refresh_tokens d now raw = do
    stored ← gets (current_token now raw)
    elim stored [ none ↦ throw unauthorized | some t ↦ rotate d now t ]

  unfoldable pub logout : String → Call (Unit {0})
  logout raw = do
    stored ←
        gets
          (λ st. find? (matches bc raw) (db.refresh_token.find_many (λ t. true) st.refresh_tokens))
    elim stored [
      | none ↦ pure tt
      | some t ↦ modify (with_refresh (db.refresh_token.delete_many (has_id t.id)))
    ]
