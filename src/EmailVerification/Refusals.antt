-- ===== src/EmailVerification/Refusals.antt =====
-- backend/src/modules/auth/email-verification.service.ts: a verification that has been used, and a
-- code that has just been sent.
use ai_planner.Prelude.{
  JsString, ℕ, ◌+◌, ◌*◌, ◌<◌, Bool, true, String, some, ok, err, ◌≡◌, arith, str_eq_iff,
}
use ai_planner.EmailVerification.{
  FallbackStore, normalize_email, request_code, assert_verified, not_verified, too_soon,
  seconds_left, resend_cooldown,
}

module _ (js : JsString) where
  -- A verification serves once: after it has been used, the address is refused until it is verified
  -- anew.
  pub assert_once :
      (now later : ℕ) (email : String) (m : FallbackStore)
      → let (r, m') = assert_verified js now email m in
        r ≡ ok tt → (assert_verified js later email m').0 ≡ err not_verified
  unfolding assert_verified
  assert_once now later email m h =
      ground (arith, str_eq_iff (normalize_email js email) (normalize_email js email))

  -- A code that was sent is followed by a minute in which a request for that address that passes the
  -- captcha is refused, with the seconds that are left.
  pub request_cooldown :
      (now later : ℕ) (code code' email : String) (mail_sent : Bool) (m : FallbackStore)
      → let (r, m') = request_code js true true now code email m in
        r ≡ ok tt
        → later < now + resend_cooldown * 1000
        → (request_code js true mail_sent later code' email m').0
          ≡ err (too_soon (seconds_left later (some (now + resend_cooldown * 1000))))
  unfolding request_code
  request_cooldown now later code code' email mail_sent m h k =
      ground (arith, str_eq_iff (normalize_email js email) (normalize_email js email))
