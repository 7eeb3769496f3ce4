-- ===== src/Account/Tests.antt =====
-- backend/src/modules/auth: calls on the small database of Samples, and the theorems at concrete
-- inputs.
use ai_planner.Prelude.{
  ℕ, ◌≡◌, refl, arith, true, false, String, none, some, List, [], ◌∷◌, ok, err, if◌then◌else◌,
  str_eq, str_eq_iff, not, Bool-cases, inl, inr, ◌||◌,
}
use ai_planner.Prisma.Keys.{IsUnique}
use ai_planner.Schema.{User, PasswordResetToken, Store, unauthorized, forbidden}
use ai_planner.Samples.{memory, plain, store, ann, session}
use ai_planner.EmailVerification.{normalize_email}
use ai_planner.Payment.Subscriptions.{cancel_by_user, update_subscription}
use ai_planner.Redis.Memory.{Memory, in_memory}
use ai_planner.Account.Nickname.{assert_nickname, normalize_nickname, squeeze}
use ai_planner.Account.Tokens.{
  Bcrypt, Drawn, TokenPair, token_user, is_account_accessible, refresh_tokens, rotate,
  current_token,
}
use ai_planner.Account.Login.{LoginDto, login_internal, is_locked, account_of, is_admin}
use ai_planner.Account.Password.{reset_password}
use ai_planner.Account.Oauth.{find_or_link_or_create, kakao}
use ai_planner.Account.Profile.{delete_me}
use ai_planner.Account.Sessions.{refresh_once}
use ai_planner.Account.Lockout.{Try, run_tries, login-IsAllowed, five_fails_lock}
use ai_planner.Account.Linking.{guarded, find_or_link-guarded, AllHaveLogin}
use ai_planner.Account.Access.{unlink_op, perform, perform-HasLogin}

abbrev kept : String → String
kept s = if str_eq s "" then "empty" else s

kept-nonempty : (s : String) → str_eq (kept s) "" ≡ false
kept-nonempty s = elim (Bool-cases (str_eq s "")) [
  | inl empty ↦ rw empty refl
  | inr other ↦ rw other other
]

-- Hashes that hide nothing.
abbrev open_hashes : Bcrypt
open_hashes = record {
  hash = λ salt s. kept s;
  compare = λ s h. str_eq h (kept s);
  hash-nonempty = λ salt s. kept-nonempty s;
  compare-hash = λ salt s. (str_eq_iff (kept s) (kept s)).1 refl;
}

abbrev drawn : Drawn
drawn = record { id = 102; raw = "s2"; salt = 0 }

abbrev next : Drawn
next = record { id = 103; raw = "s3"; salt = 0 }

abbrev right : LoginDto
right = record { email = "ann@example.com"; password = "secret" }

abbrev wrong : LoginDto
wrong = record { email = "ann@example.com"; password = "guess" }

abbrev try_at : ℕ → Try
try_at time = record { time = time; drawn = drawn; dto = wrong }

abbrev nothing : Memory
nothing = []

abbrev link_of_reset : PasswordResetToken
link_of_reset = record { id = 111; token = "r1"; user_id = 1; expires_at = 5000; used = false }

abbrev with_link : Store
with_link = record store { reset_tokens = link_of_reset ∷ [] }

nickname_of_spaces : assert_nickname "  a   b " ≡ ok "a b"
unfolding assert_nickname normalize_nickname squeeze
nickname_of_spaces = refl

entered : TokenPair
entered = record { access_token = token_user ann; refresh_token = "s2" }

logged_in :
    (login_internal in_memory true memory open_hashes plain drawn 100 false right
      (store, nothing)).0
    ≡ ok entered
unfolding login_internal normalize_email entered
logged_in = refl

login-IsAllowed_example :
    (is_locked in_memory true 100 (normalize_email plain "ann@example.com") nothing ≡ false)
    × ((u : User) × (hash : String) × (account_of memory
            (normalize_email plain "ann@example.com")
            store
          ≡ some (u, hash))
        × (str_eq hash (kept "secret") ≡ true)
        × (is_account_accessible u ≡ true)
        × ((not false || is_admin u.role) ≡ true)
        × (entered.access_token ≡ token_user u))
login-IsAllowed_example =
    login-IsAllowed in_memory true memory open_hashes plain drawn 100 false right (store, nothing)
      logged_in

same_email : normalize_email plain "ann@example.com" ≡ "ann@example.com"
unfolding normalize_email
same_email = refl

mismatch :
    (normalize_email plain wrong.email ≡ "ann@example.com")
    × (open_hashes.compare wrong.password "secret" ≡ false)
mismatch = (same_email, refl)

abbrev four : List Try
four = try_at 1000 ∷ try_at 2000 ∷ try_at 3000 ∷ try_at 4000 ∷ []

five_fails_lock_example :
    let s = run_tries in_memory memory open_hashes plain (try_at 0 ∷ four) (store, nothing) in
    login_internal in_memory true memory open_hashes plain next 300000 false right s
    ≡ (err forbidden, s)
five_fails_lock_example =
    five_fails_lock in_memory memory open_hashes plain (try_at 0) four 300000 next right
      "ann@example.com" "secret" ann store nothing refl (λ x. refl) refl
      (mismatch, (mismatch, (mismatch, (mismatch, (mismatch, tt)))))
      (
        omega arith,
        omega arith,
        (omega arith, omega arith, (omega arith, omega arith, (omega arith, omega arith, tt))),
      )
      refl same_email (omega arith)

refreshed : (refresh_tokens memory open_hashes drawn 100 "s1" store).0 ≡ ok entered
unfolding refresh_tokens rotate current_token entered
refreshed = refl

found_session : current_token memory open_hashes 100 "s1" store ≡ some session
unfolding current_token
found_session = refl

refresh_once_example :
    (refresh_tokens memory open_hashes next 200 "s1"
      (refresh_tokens memory open_hashes drawn 100 "s1" store).1).0
    ≡ err unauthorized
refresh_once_example =
    refresh_once memory open_hashes drawn next 100 200 "s1" store found_session (refl, tt) refl
      refreshed

reset : (reset_password memory open_hashes 0 100 "r1" "better" with_link).0 ≡ ok tt
unfolding reset_password
reset = refl

deleted : (delete_me memory open_hashes 100 (some "secret") none 1 store).0 ≡ ok tt
unfolding delete_me cancel_by_user update_subscription
deleted = refl

unique_ids : IsUnique (λ (u : User). u.id) store.users
unique_ids = ((omega arith, tt), (tt, tt))

find_or_link-guarded_example :
    guarded (find_or_link_or_create memory 100 kakao 9 (some "ann@example.com") store).1
    ≡ guarded store
find_or_link-guarded_example =
    find_or_link-guarded memory 100 kakao 9 (some "ann@example.com") store unique_ids

perform-HasLogin_example : AllHaveLogin (perform memory open_hashes (unlink_op 2 kakao) store)
perform-HasLogin_example =
    perform-HasLogin memory open_hashes (unlink_op 2 kakao) store unique_ids (refl, (refl, tt))
