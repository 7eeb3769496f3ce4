-- ===== src/Account/Lockout.antt =====
-- backend/src/modules/auth/auth.service.ts: who gets in by `loginInternal`, and when it is locked.
use ai_planner.Prelude.{
  JsString, ℕ, suc, ◌+◌, ◌≤◌, ◌<◌, ◌≡◌, refl, ap, ◌∙◌, arith, Bool, true, false, String, none, some,
  List, [], ◌∷◌, ok, err, ◌||◌, not, All, length, Bool-cases, Option-cases, inl, inr,
}
use ai_planner.Schema.{User, Store, Prisma, forbidden}
use ai_planner.EmailVerification.{normalize_email}
use ai_planner.Redis.{same_key_self, Client, text, number, count_of, redis_incr}
use ai_planner.Account.Tokens.{Bcrypt, Drawn, TokenPair, token_user, is_account_accessible}
use ai_planner.Account.Login.{
  Server, LoginDto, login_internal, is_locked, account_of, is_admin, count_failure, refuse, enter,
  lock_key, fail_key,
}

module _ {R : Type 0} (client : Client R) (up : Bool) (db : Prisma) (bc : Bcrypt)
    (js : JsString) where
  enter-ok :
      (d : Drawn) (now : ℕ) (require_admin : Bool) (email : String) (u : User) (s : Server R)
      {pair : TokenPair}
      → (enter client up db bc d now require_admin email u s).0 ≡ ok pair
      → (is_account_accessible u ≡ true)
        × ((not require_admin || is_admin u.role) ≡ true)
        × (pair.access_token ≡ token_user u)
  unfolding enter
  enter-ok d now require_admin email u s {pair} h = ground arith

  -- Whoever logs in, does so with the password of an account that has the address, is neither
  -- suspended nor deleted, is not locked, and is an administrator's where one is asked for; the access
  -- token names that account.
  pub login-IsAllowed :
      (d : Drawn) (now : ℕ) (require_admin : Bool) (dto : LoginDto) (s : Server R)
      {pair : TokenPair}
      → (login_internal client up db bc js d now require_admin dto s).0 ≡ ok pair
      → (is_locked client up now (normalize_email js dto.email) s.1 ≡ false)
        × ((u : User) × (hash : String) × (account_of db (normalize_email js dto.email) s.0
              ≡ some (u, hash))
            × (bc.compare dto.password hash ≡ true)
            × (is_account_accessible u ≡ true)
            × ((not require_admin || is_admin u.role) ≡ true)
            × (pair.access_token ≡ token_user u))
  unfolding login_internal
  login-IsAllowed d now require_admin dto s {pair} h =
      elim (Bool-cases (is_locked client up now (normalize_email js dto.email) s.1)) [
        | inl locked ↦ absurd (ground arith)
        | inr free ↦ elim (Option-cases (account_of db (normalize_email js dto.email) s.0)) [
          | inl missing ↦ absurd (ground arith)
          | inr (a, found) ↦ elim (Bool-cases (bc.compare dto.password a.1)) [
            | inl right ↦
                let entered : (enter client up db bc d now require_admin
                      (normalize_email js dto.email) a.0 s).0
                    ≡ ok pair =
                  ground arith in
                let (usable, admin, names) =
                  enter-ok d now require_admin (normalize_email js dto.email) a.0 s entered in
                (free, (a.0, a.1, found, right, usable, admin, names))
            | inr wrong ↦ absurd (ground arith)
          ]
        ]
      ]

-- A call of `login`: when, what is drawn for it, and the input.
pub record Try : Type 0 where
  pub time : ℕ
  pub drawn : Drawn
  pub dto : LoginDto

-- The calls are for the address, with passwords that do not match the hash.
abbrev pub AreWrong : JsString → Bcrypt → String → String → List Try → Type 0
AreWrong js bc email hash tries =
    All (λ a. (normalize_email js a.dto.email ≡ email) × (bc.compare a.dto.password hash ≡ false))
      tries

-- One after the other, from `first` on and before `limit`.
abbrev pub InOrder : ℕ → ℕ → List Try → Type 0
InOrder first limit [] = Unit
InOrder first limit (a ∷ rest) = (first ≤ a.time) × (a.time < limit) × InOrder a.time limit rest

abbrev pub last_time : ℕ → List Try → ℕ
last_time time [] = time
last_time time (a ∷ rest) = last_time a.time rest

module _ {R : Type 0} (client : Client R) where
  count_failure-first :
      (now t : ℕ) (email : String) (r : R)
      → client.get now (fail_key email) r ≡ none
      → now ≤ t
      → t < now + 600000
      → client.get t (fail_key email) (count_failure client true now email r).1 ≡ some (number 1)
  unfolding count_failure redis_incr
  count_failure-first now t email r missing later soon = ground (
    arith,
    same_key_self (fail_key email),
    client.get-incr now now (fail_key email) (fail_key email) r,
    client.get-expire t now 600 (fail_key email) (fail_key email)
        (client.incr now (fail_key email) r),
  )

  count_failure-more :
      (n now t : ℕ) (email : String) (r : R)
      → client.get now (fail_key email) r ≡ some (number (suc n))
      → client.get t (fail_key email) r ≡ some (number (suc n))
      → now ≤ t
      → client.get t (fail_key email) (count_failure client true now email r).1
        ≡ some (number (suc (suc n)))
  unfolding count_failure redis_incr
  count_failure-more n now t email r here there later = ground (
    arith,
    same_key_self (fail_key email),
    client.get-incr t now (fail_key email) (fail_key email) r,
    client.get-set_ex t now 600 (lock_key email) (fail_key email) (text "1")
        (client.incr now (fail_key email) r),
  )

  count_failure-open :
      (now t : ℕ) (email : String) (r : R)
      → now ≤ t
      → count_of (client.get now (fail_key email) r) < 4
      → client.get t (lock_key email) (count_failure client true now email r).1
        ≡ client.get t (lock_key email) r
  unfolding count_failure redis_incr
  count_failure-open now t email r later few = ground (
    arith,
    client.get-incr t now (fail_key email) (lock_key email) r,
    client.get-expire t now 600 (fail_key email) (lock_key email)
        (client.incr now (fail_key email) r),
  )

  count_failure-locks :
      (now t : ℕ) (email : String) (r : R)
      → t < now + 600000
      → 4 ≤ count_of (client.get now (fail_key email) r)
      → client.get t (lock_key email) (count_failure client true now email r).1 ≡ some (text "1")
  unfolding count_failure redis_incr
  count_failure-locks now t email r soon many = ground (
    arith,
    same_key_self (lock_key email),
    client.get-set_ex t now 600 (lock_key email) (lock_key email) (text "1")
        (client.incr now (fail_key email) r),
  )

  module _ (db : Prisma) (bc : Bcrypt) (js : JsString) where
    -- One `login` after the other.
    abbrev pub run_tries : List Try → Server R → Server R
    run_tries [] s = s
    run_tries (a ∷ rest) s =
        run_tries rest (login_internal client true db bc js a.drawn a.time false a.dto s).1

    wrong_try :
        (a : Try) (email hash : String) (u : User) (st : Store) (r : R)
        → account_of db email st ≡ some (u, hash)
        → normalize_email js a.dto.email ≡ email
        → bc.compare a.dto.password hash ≡ false
        → client.get a.time (lock_key email) r ≡ none
        → (login_internal client true db bc js a.drawn a.time false a.dto (st, r)).1
          ≡ (st, (count_failure client true a.time email r).1)
    unfolding login_internal refuse
    wrong_try a email hash u st r found same wrong free = rw (same, free, found, wrong, same) refl

    locked_try :
        (d : Drawn) (t : ℕ) (dto : LoginDto) (email : String) (s : Server R)
        → normalize_email js dto.email ≡ email
        → client.get t (lock_key email) s.1 ≡ some (text "1")
        → login_internal client true db bc js d t false dto s ≡ (err forbidden, s)
    unfolding login_internal
    locked_try d t dto email s same locked = rw (same, locked) refl

    -- The tries that are left up to the fifth.
    later_tries :
        (n before limit t : ℕ) (tries : List Try) (email hash : String) (u : User) (st : Store)
        (r : R)
        → account_of db email st ≡ some (u, hash)
        → AreWrong js bc email hash tries
        → InOrder before limit tries
        → suc n + length tries ≡ 5
        → ((x : ℕ)
            → before ≤ x
            → x < limit
            → client.get x (fail_key email) r ≡ some (number (suc n)))
        → ((x : ℕ) → before ≤ x → n < 4 → client.get x (lock_key email) r ≡ none)
        → ((x : ℕ)
            → x < before + 600000
            → 4 ≤ n
            → client.get x (lock_key email) r ≡ some (text "1"))
        → t < last_time before tries + 600000
        → client.get t (lock_key email) (run_tries tries (st, r)).1 ≡ some (text "1")
    later_tries n before limit t [] email hash u st r found wrong ordered five counted free locked
          soon =
        locked t soon (omega arith)
    later_tries n before limit t (a ∷ rest) email hash u st r found wrong ordered five counted free
          locked soon =
        let now_counted = counted a.time (ordered.0) (ordered.1) in
        let r' : R = (count_failure client true a.time email r).1 in
        let next : client.get t (lock_key email) (run_tries rest (st, r')).1 ≡ some (text "1") =
          later_tries (suc n) a.time limit t rest email hash u st r' found wrong.1 ordered.2
            (omega arith)
            (λ x later early.
              count_failure-more n a.time x email r now_counted (counted x (omega arith) early)
                later)
            (λ x later few.
              count_failure-open a.time x email r later (rw now_counted (omega arith))
              ∙ free x (omega arith) (omega arith))
            (λ x early many.
              count_failure-locks a.time x email r early (rw now_counted (omega arith)))
            soon in
        ap (λ s. client.get t (lock_key email) (run_tries rest s).1)
          (wrong_try a email hash u st r found wrong.0.0 wrong.0.1
            (free a.time ordered.0 (omega arith)))
        ∙ next

    -- Where an address has an account with a password, and is neither locked nor has a failure on
    -- record, and Redis is up: after five tries of `login` with passwords that do not match, the last
    -- four within ten minutes after the first, each login of that address is refused for ten minutes
    -- after the last, the right password or not, and changes nothing.
    pub five_fails_lock :
        (first : Try) (tries : List Try) (t : ℕ) (d : Drawn) (dto : LoginDto) (email hash : String)
        (u : User) (st : Store) (r : R)
        → account_of db email st ≡ some (u, hash)
        → ((x : ℕ) → client.get x (lock_key email) r ≡ none)
        → client.get first.time (fail_key email) r ≡ none
        → AreWrong js bc email hash (first ∷ tries)
        → InOrder first.time (first.time + 600000) tries
        → length tries ≡ 4
        → normalize_email js dto.email ≡ email
        → t < last_time first.time tries + 600000
        → let s = run_tries (first ∷ tries) (st, r) in
          login_internal client true db bc js d t false dto s ≡ (err forbidden, s)
    five_fails_lock first tries t d dto email hash u st r found free fresh wrong ordered four same
          soon =
        let r' : R = (count_failure client true first.time email r).1 in
        let locked : client.get t (lock_key email) (run_tries tries (st, r')).1 ≡ some (text "1") =
          later_tries 0 first.time (first.time + 600000) t tries email hash u st r' found wrong.1
            ordered (omega arith)
            (λ x later early. count_failure-first first.time x email r fresh later early)
            (λ x later few.
              count_failure-open first.time x email r later (rw fresh (omega arith)) ∙ free x)
            (λ x early many. absurd (omega arith)) soon in
        locked_try d t dto email (run_tries (first ∷ tries) (st, r)) same (
          ap (λ s. client.get t (lock_key email) (run_tries tries s).1)
            (wrong_try first email hash u st r found wrong.0.0 wrong.0.1 (free first.time))
          ∙ locked)
