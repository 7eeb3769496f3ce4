-- ===== src/EmailVerification/OnRedis.antt =====
-- backend/src/modules/auth/email-verification.service.ts: requestCode, verifyCode and assertVerified
-- where Redis is there.
use ai_planner.Prelude.{
  JsString, ℕ, ◌+◌, ◌-◌, Bool, true, String, some, Result, ok, err, if◌then◌else◌, leb, str_eq,
  is_some, not,
}
use ai_planner.EmailVerification.{
  normalize_email, VerifyError, captcha_failed, mail_failed, code_expired, attempts_exceeded,
  not_verified, too_soon, wrong_code, max_attempts, code_ttl, resend_cooldown, passed_ttl,
}
use ai_planner.Redis.{
  Key, email_resend, email_code, email_attempts, email_passed, text, count_of, Client, redis_get,
  redis_set, redis_del, redis_incr,
}

-- In seconds.
abbrev pub attempt_ttl : ℕ
attempt_ttl = 600

abbrev pub resend_key : String → Key
resend_key email = record { template = email_resend; part = email }

abbrev pub code_key : String → Key
code_key email = record { template = email_code; part = email }

abbrev pub attempts_key : String → Key
attempts_key email = record { template = email_attempts; part = email }

abbrev pub passed_key : String → Key
passed_key email = record { template = email_passed; part = email }

module _ {R : Type 0} (client : Client R) where
  -- The seconds in the refusal are those of TTL, left out here.
  unfoldable pub request_on_redis :
      JsString → Bool → Bool → ℕ → String → String → R → Result VerifyError (Unit {0}) × R
  request_on_redis js captcha_passes mail_sent now code email r =
      let address = normalize_email js email in
      if not captcha_passes
      then (err captcha_failed, r)
      else if is_some (redis_get client true now (resend_key address) r)
      then (err (too_soon 0), r)
      else let kept = redis_set client true now (resend_key address) (text "1") resend_cooldown (
          redis_del client true (attempts_key address)
            (redis_set client true now (code_key address) (text code) code_ttl r)) in
        if mail_sent then (ok tt, kept) else (
          err mail_failed,
          redis_del client true (resend_key address) (
              redis_del client true (attempts_key address)
                (redis_del client true (code_key address) kept)),
        )

  -- `verifyCode`, once the code has been found.
  unfoldable pub check_on_redis :
      ℕ → String → String → String → ℕ → R → Result VerifyError (Unit {0}) × R
  unfolding redis_incr
  check_on_redis now address guess stored attempts r =
      let counted = (redis_incr client true now (attempts_key address) attempt_ttl r).1 in
      if str_eq stored guess
      then (
        ok tt,
        redis_set client true now (passed_key address) (text "1") passed_ttl (
            redis_del client true (attempts_key address)
              (redis_del client true (code_key address) counted)),
      )
      else (err (wrong_code (max_attempts - (attempts + 1))), counted)

  unfoldable pub verify_on_redis :
      JsString → ℕ → String → String → R → Result VerifyError (Unit {0}) × R
  verify_on_redis js now email guess r =
      let address = normalize_email js email in
      let attempts = count_of (redis_get client true now (attempts_key address) r) in
      if leb max_attempts attempts
      then (err attempts_exceeded, r)
      else elim (redis_get client true now (code_key address) r) [
        | some (text stored) ↦
            if str_eq stored ""
            then (err code_expired, r)
            else check_on_redis now address guess stored attempts r
        | _ ↦ (err code_expired, r)
      ]

  unfoldable pub assert_on_redis : JsString → ℕ → String → R → Result VerifyError (Unit {0}) × R
  assert_on_redis js now email r =
      let address = normalize_email js email in
      if is_some (redis_get client true now (passed_key address) r)
      then (ok tt, redis_del client true (passed_key address) r)
      else (err not_verified, r)
