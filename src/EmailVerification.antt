-- ===== src/EmailVerification.antt =====
-- backend/src/modules/auth/email-verification.service.ts: the codes that prove an e-mail address,
-- kept in `fallbackStore`, the store that serves when Redis is not there.
-- A call reads the clock once, as `now`. The code that is drawn, the verdict of the captcha and that
-- of the mail service enter as arguments. `trim` and `toLowerCase` are any functions on texts.
pub mod Guesses
pub mod Calls
pub mod Trace
pub mod Refusals
pub mod OnRedis
pub mod Steps
pub mod Equivalence
mod Tests
use ai_planner.Prelude.{
  JsString, ℕ, suc, ◌+◌, ◌-◌, ◌*◌, ◌/◌, Bool, true, false, String, Option, none, some, Result, ok,
  err, Action, pure, throw, gets, modify, throw_if, ◌>>=◌, ◌>>◌, if◌then◌else◌, ltb, leb, str_eq,
  ◌||◌, not, is_some,
}

-- In seconds.
abbrev pub code_ttl : ℕ
code_ttl = 180

abbrev pub resend_cooldown : ℕ
resend_cooldown = 60

abbrev pub passed_ttl : ℕ
passed_ttl = 600

abbrev pub max_attempts : ℕ
max_attempts = 5

pub record VerificationEntry : Type 0 where
  pub code : Option String
  pub expires_at : Option ℕ
  pub attempts : ℕ
  pub resend_available_at : Option ℕ
  pub passed_until : Option ℕ

-- A JavaScript `Map`.
abbrev pub FallbackStore : Type 0
FallbackStore = String → Option VerificationEntry

abbrev pub empty : FallbackStore
empty _ = none

abbrev pub set : String → VerificationEntry → FallbackStore → FallbackStore
set k e m j = if str_eq j k then some e else m j

abbrev pub delete : String → FallbackStore → FallbackStore
delete k m j = if str_eq j k then none else m j

-- `wrong_code n` is the refusal of a wrong code with `n` attempts left.
pub data VerifyError : Type 0 where
  captcha_failed mail_failed code_expired attempts_exceeded not_verified : VerifyError
  too_soon wrong_code : ℕ → VerifyError

-- `normalizeEmail`
unfoldable pub normalize_email : JsString → String → String
normalize_email js raw = js.to_lower_case (js.trim raw)

-- `t && t > now`
abbrev pub ahead : ℕ → Option ℕ → Bool
ahead now none = false
ahead now (some t) = ltb now t

abbrev pub new_entry : ℕ → String → VerificationEntry
new_entry now code = record {
  code = some code;
  expires_at = some (now + code_ttl * 1000);
  attempts = 0;
  resend_available_at = some (now + resend_cooldown * 1000);
  passed_until = none;
}

abbrev pub resend_of : Option VerificationEntry → Option ℕ
resend_of none = none
resend_of (some e) = e.resend_available_at

-- `Math.ceil((t - now) / 1000)`
abbrev pub seconds_left : ℕ → Option ℕ → ℕ
seconds_left now none = 0
seconds_left now (some t) = (t - now + 999) / 1000

abbrev pub Call : Type 0
Call = Action VerifyError FallbackStore (Unit {0})

unfoldable pub request_code : JsString → Bool → Bool → ℕ → String → String → Call
request_code js captcha_passes mail_sent now code email = do
  throw_if (not captcha_passes) captcha_failed
  entry ← gets (λ m. m (normalize_email js email))
  throw_if (ahead now (resend_of entry)) (too_soon (seconds_left now (resend_of entry)))
  modify (set (normalize_email js email) (new_entry now code))
  if mail_sent then pure tt else (modify (delete (normalize_email js email)) >> throw mail_failed)

-- The three tests of an entry that has a code which is not expired.
unfoldable pub check_guess : String → ℕ → String → String → VerificationEntry → Call
check_guess key now code guess e =
    if leb max_attempts e.attempts
    then throw attempts_exceeded
    else if not (str_eq code guess)
    then (modify (set key (record e { attempts = e.attempts + 1 }))
        >> throw (wrong_code (max_attempts - (e.attempts + 1))))
    else modify (
        set key (record e {
          code = none;
          expires_at = none;
          attempts = 0;
          passed_until = some (now + passed_ttl * 1000);
        }))

unfoldable pub check_entry : String → ℕ → String → Option VerificationEntry → Call
unfolding check_guess
check_entry key now guess none = throw code_expired
check_entry key now guess (some e) =
    if not (ahead now e.expires_at) then throw code_expired else elim e.code [
      | none ↦ throw code_expired
      | some code ↦ if str_eq code "" then throw code_expired else check_guess key now code guess e
    ]

unfoldable pub verify_code : JsString → ℕ → String → String → Call
unfolding check_entry
verify_code js now email guess m =
    check_entry (normalize_email js email) now guess (m (normalize_email js email)) m

abbrev pub passed_of : Option VerificationEntry → Option ℕ
passed_of none = none
passed_of (some e) = e.passed_until

unfoldable pub assert_verified : JsString → ℕ → String → Call
assert_verified js now email = do
  entry ← gets (λ m. m (normalize_email js email))
  throw_if (not (ahead now (passed_of entry))) not_verified
  modify (delete (normalize_email js email))
