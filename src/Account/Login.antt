-- ===== src/Account/Login.antt =====
-- backend/src/modules/auth/auth.service.ts: `loginInternal`, with the lock on an address after
-- too many wrong passwords, which stands in Redis.
use ai_planner.Prelude.{
  JsString, ℕ, Bool, true, false, String, Option, none, some, ok, err, Action, throw, ◌>>◌,
  if◌then◌else◌, leb, ◌==◌, str_eq, is_some, ◌&&◌, not,
}
use ai_planner.Schema.{User, UserRole, Store, Prisma, HttpError, unauthorized, forbidden}
use ai_planner.EmailVerification.{normalize_email}
use ai_planner.Workspace.{email_matches}
use ai_planner.Payment.Subscriptions.{Call}
use ai_planner.Redis.{
  Key, login_lock, login_fail, text, Client, redis_get, redis_set, redis_del, redis_incr,
}
use ai_planner.Account.Tokens.{
  Bcrypt, Drawn, TokenPair, token_user, is_account_accessible, update_user, tokens_for_user,
}

-- In seconds.
abbrev pub login_fail_ttl : ℕ
login_fail_ttl = 600

abbrev pub max_login_fails : ℕ
max_login_fails = 5

pub record LoginDto : Type 0 where
  pub email : String
  pub password : String

-- The database and Redis.
abbrev pub Server : Type 0 → Type 0
Server R = Store × R

-- A call that does not use Redis.
abbrev pub in_store : {R A : Type 0} → Call A → Action HttpError (Server R) A
in_store m (st, r) = let (a, st') = m st in (a, (st', r))

abbrev pub in_redis : {R : Type 0} → (R → R) → Action HttpError (Server R) (Unit {0})
in_redis f (st, r) = (ok tt, (st, f r))

abbrev pub lock_key : String → Key
lock_key email = record { template = login_lock; part = email }

abbrev pub fail_key : String → Key
fail_key email = record { template = login_fail; part = email }

abbrev pub is_admin : UserRole → Bool
is_admin UserRole.admin = true
is_admin UserRole.user = false

-- `!user || !user.password`: the hash of a user who has one
abbrev pub hash_of : Option User → Option String
hash_of none = none
hash_of (some u) = elim u.password [ none ↦ none | some h ↦ if str_eq h "" then none else some h ]

-- The user of the address, if there is one with a password, and its hash.
abbrev pub account_of : Prisma → String → Store → Option (User × String)
account_of db email st = elim (db.user.find_first (λ u. email_matches u email) st.users) [
  | none ↦ none
  | some u ↦ elim (hash_of (some u)) [ none ↦ none | some h ↦ some (u, h) ]
]

module _ {R : Type 0} (client : Client R) (up : Bool) where
  abbrev pub is_locked : ℕ → String → R → Bool
  is_locked now email r = is_some (redis_get client up now (lock_key email) r)

  -- `incr` of the failures, and the lock when there are too many; the answer is their number.
  unfoldable pub count_failure : ℕ → String → R → ℕ × R
  unfolding redis_incr
  count_failure now email r =
      let (fails, counted) = redis_incr client up now (fail_key email) login_fail_ttl r in
      (
        fails,
        if leb max_login_fails fails
            then redis_set client up now (lock_key email) (text "1") login_fail_ttl counted
            else counted,
      )

  -- A failure that is counted and thrown; `too_many` is what is thrown from the fifth on.
  unfoldable pub refuse : ℕ → String → HttpError → Action HttpError (Server R) TokenPair
  unfolding count_failure
  refuse now email too_many (st, r) =
      let (fails, r') = count_failure now email r in
      (err (if leb max_login_fails fails then too_many else unauthorized), (st, r'))

module _ {R : Type 0} (client : Client R) (up : Bool) (db : Prisma) (bc : Bcrypt) where
  -- After the password has been found right.
  unfoldable pub enter : Drawn → ℕ → Bool → String → User → Action HttpError (Server R) TokenPair
  unfolding refuse is_account_accessible update_user tokens_for_user
  enter d now require_admin email u =
      if not (is_account_accessible u)
      then throw forbidden
      else if require_admin && not (is_admin u.role)
      then refuse client up now email unauthorized
      else (in_redis (redis_del client up (fail_key email))
          >> in_redis (redis_del client up (lock_key email))
          >> in_store
              (update_user db (λ x. x.id == u.id) (λ x. record x { last_login_at = some now }))
          >> in_store (tokens_for_user db bc d now (token_user u)))

  -- `loginInternal`; `require_admin` is set by `adminLogin` and not by `login`.
  unfoldable pub login_internal :
      JsString → Drawn → ℕ → Bool → LoginDto → Action HttpError (Server R) TokenPair
  unfolding enter refuse
  login_internal js d now require_admin dto (st, r) =
      let email = normalize_email js dto.email in
      if is_locked client up now email r
      then (err forbidden, (st, r))
      else elim (account_of db email st) [
        | none ↦ (err unauthorized, (st, r))
        | some (u, hash) ↦
            if bc.compare dto.password hash
            then enter d now require_admin email u (st, r)
            else refuse client up now email forbidden (st, r)
      ]
