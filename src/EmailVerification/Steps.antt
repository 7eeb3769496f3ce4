-- ===== src/EmailVerification/Steps.antt =====
-- backend/src/modules/auth/email-verification.service.ts: one call of `verifyCode` on each of the two
-- stores of the codes, and what a code that has been sent leaves in Redis.
use ai_planner.Prelude.{
  JsString, ℕ, zero, suc, ◌+◌, ◌-◌, ◌≤◌, ◌<◌, ◌≡◌, refl, arith, Bool, true, false, String, Option,
  none, some, Result, ok, err, if◌then◌else◌, leb, ltb, str_eq, str_eq_iff, not,
}
use ai_planner.EmailVerification.{
  VerificationEntry, FallbackStore, normalize_email, set, verify_code, code_expired,
  attempts_exceeded, wrong_code,
}
use ai_planner.EmailVerification.OnRedis.{
  verify_on_redis, check_on_redis, code_key, attempts_key, resend_key, passed_key,
}
use ai_planner.Redis.{same_key_self, Key, Client, Value, text, number, same_key, redis_incr}

abbrev pub is_ok : {E A : Type 0} → Result E A → Bool
is_ok (ok _) = true
is_ok (err _) = false

-- The counter after `n` wrong guesses.
abbrev pub counter : ℕ → Option Value
counter zero = none
counter (suc n) = some (number (suc n))

pub set_self : (k : String) (e : VerificationEntry) (m : FallbackStore) → set k e m k ≡ some e
set_self k e m = ground (arith, (str_eq_iff k k).1 refl)

module _ {R : Type 0} (client : Client R) (js : JsString) (email : String) where
  pub refused :
      (now : ℕ) (guess : String) (m : FallbackStore) (e : VerificationEntry)
      → m (normalize_email js email) ≡ some e
      → e.code ≡ none
      → verify_code js now email guess m ≡ (err code_expired, m)
  unfolding verify_code
  refused now guess m e found empty = rw (found, empty) (ground arith)

  pub refused_on_redis :
      (now : ℕ) (guess : String) (r : R)
      → client.get now (code_key (normalize_email js email)) r ≡ none
      → (is_ok (verify_on_redis client js now email guess r).0 ≡ false)
        × ((verify_on_redis client js now email guess r).1 ≡ r)
  unfolding verify_on_redis
  refused_on_redis now guess r gone = ground arith

  -- What a code that has been sent leaves in Redis.
  abbrev pub sent : ℕ → String → R → R
  sent now code r = client.set_ex now (resend_key (normalize_email js email)) (text "1") 60 (
      client.del (attempts_key (normalize_email js email))
        (client.set_ex now (code_key (normalize_email js email)) (text code) 180 r))

  pub sent-code :
      (now t : ℕ) (code : String) (r : R)
      → client.get t (code_key (normalize_email js email)) (sent now code r)
        ≡ (if ltb t (now + 180000) then some (text code) else none)
  sent-code now t code r =
      let address : String = normalize_email js email in
      let coded : R = client.set_ex now (code_key address) (text code) 180 r in
      ground (
        arith,
        same_key_self (code_key address),
        client.get-set_ex t now 60 (resend_key address) (code_key address) (text "1")
            (client.del (attempts_key address) coded),
        client.get-del t (attempts_key address) (code_key address) coded,
        client.get-set_ex t now 180 (code_key address) (code_key address) (text code) r,
      )

  pub sent-attempts :
      (now t : ℕ) (code : String) (r : R)
      → client.get t (attempts_key (normalize_email js email)) (sent now code r) ≡ none
  sent-attempts now t code r =
      let address : String = normalize_email js email in
      let coded : R = client.set_ex now (code_key address) (text code) 180 r in
      ground (
        arith,
        same_key_self (attempts_key address),
        client.get-set_ex t now 60 (resend_key address) (attempts_key address) (text "1")
            (client.del (attempts_key address) coded),
        client.get-del t (attempts_key address) (attempts_key address) coded,
      )

  module _ (code : String) (until : ℕ) where
    pub incr-counter :
        (n now t : ℕ) (r : R)
        → now ≤ t
        → t < until
        → until ≤ now + 180000
        → client.get now (attempts_key (normalize_email js email)) r ≡ counter n
        → client.get t (attempts_key (normalize_email js email)) r ≡ counter n
        → client.get t
            (attempts_key (normalize_email js email))
            (redis_incr client true now (attempts_key (normalize_email js email)) 600 r).1
          ≡ counter (suc n)
    unfolding redis_incr
    incr-counter n now t r later soon close here there = ground (
      arith,
      same_key_self (attempts_key (normalize_email js email)),
      client.get-incr t now (attempts_key (normalize_email js email))
          (attempts_key (normalize_email js email)) r,
      client.get-incr now now (attempts_key (normalize_email js email))
          (attempts_key (normalize_email js email)) r,
      client.get-expire t now 600 (attempts_key (normalize_email js email))
          (attempts_key (normalize_email js email))
          (client.incr now (attempts_key (normalize_email js email)) r),
    )

    pub incr-other :
        (now t : ℕ) (k : Key) (r : R)
        → now ≤ t
        → same_key k (attempts_key (normalize_email js email)) ≡ false
        → client.get t k
            (redis_incr client true now (attempts_key (normalize_email js email)) 600 r).1
          ≡ client.get t k r
    unfolding redis_incr
    incr-other now t k r later other = ground (
      arith,
      client.get-incr t now (attempts_key (normalize_email js email)) k r,
      client.get-expire t now 600 (attempts_key (normalize_email js email)) k
          (client.incr now (attempts_key (normalize_email js email)) r),
    )

    -- The state of the address in the fallback store, and in Redis, after `n` wrong guesses.
    abbrev pub Holds : ℕ → VerificationEntry → FallbackStore → Type 0
    Holds n e m =
        (m (normalize_email js email) ≡ some e)
        × (e.code ≡ some code)
        × (e.expires_at ≡ some until)
        × (e.attempts ≡ n)

    pub step :
        (n now : ℕ) (guess : String) (e : VerificationEntry) (m : FallbackStore)
        → Holds n e m
        → str_eq code "" ≡ false
        → (verify_code js now email guess m) ≡ (
            if not (ltb now until)
            then (err code_expired, m)
            else if leb 5 n
            then (err attempts_exceeded, m)
            else if str_eq code guess
            then (
              ok tt,
              set
                  (normalize_email js email)
                  (record e {
                    code = none;
                    expires_at = none;
                    attempts = 0;
                    passed_until = some (now + 600000);
                  })
                  m,
            )
            else (
              err (wrong_code (5 - (n + 1))),
              set (normalize_email js email) (record e { attempts = n + 1 }) m,
            ))
    unfolding verify_code
    step n now guess e m (found, has, ends, count) real =
        rw (found, has, ends, count) (ground arith)

    pub step_on_redis :
        (n now : ℕ) (guess : String) (r : R)
        → client.get now (code_key (normalize_email js email)) r ≡ some (text code)
        → client.get now (attempts_key (normalize_email js email)) r ≡ counter n
        → str_eq code "" ≡ false
        → (verify_on_redis client js now email guess r) ≡ (
            if leb 5 n
            then (err attempts_exceeded, r)
            else check_on_redis client now (normalize_email js email) guess code n r)
    unfolding verify_on_redis
    step_on_redis n now guess r kept counted real = ground arith

    pub accepted_on_redis :
        (n now t : ℕ) (guess : String) (r : R)
        → str_eq code guess ≡ true
        → client.get t
            (code_key (normalize_email js email))
            (check_on_redis client now (normalize_email js email) guess code n r).1
          ≡ none
    unfolding check_on_redis
    accepted_on_redis n now t guess r right =
        let address : String = normalize_email js email in
        let counted : R = (redis_incr client true now (attempts_key address) 600 r).1 in
        rw right (
          ground (
            arith,
            same_key_self (code_key address),
            client.get-set_ex t now 600 (passed_key address) (code_key address) (text "1")
                (client.del (attempts_key address) (client.del (code_key address) counted)),
            client.get-del t (attempts_key address) (code_key address)
                (client.del (code_key address) counted),
            client.get-del t (code_key address) (code_key address) counted,
          ))

    pub accepted_answer :
        (n now : ℕ) (guess : String) (r : R)
        → str_eq code guess ≡ true
        → is_ok (check_on_redis client now (normalize_email js email) guess code n r).0 ≡ true
    unfolding check_on_redis
    accepted_answer n now guess r right = rw right refl

    pub wrong_on_redis :
        (n now : ℕ) (guess : String) (r : R)
        → str_eq code guess ≡ false
        → check_on_redis client now (normalize_email js email) guess code n r ≡ (
          err (wrong_code (5 - (n + 1))),
          (redis_incr client true now (attempts_key (normalize_email js email)) 600 r).1,
        )
    unfolding check_on_redis
    wrong_on_redis n now guess r wrong = rw wrong refl
