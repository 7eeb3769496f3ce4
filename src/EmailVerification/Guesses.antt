-- ===== src/EmailVerification/Guesses.antt =====
-- backend/src/modules/auth/email-verification.service.ts: how often a code can be guessed.
use ai_planner.Prelude.{
  JsString, ℕ, ◌+◌, ◌-◌, ◌≤◌, String, List, [], ◌∷◌, Option, none, some, Result, ok, err, arith,
  str_eq, str_eq_iff, if◌then◌else◌,
}
use ai_planner.EmailVerification.{
  VerifyError, VerificationEntry, FallbackStore, wrong_code, max_attempts, normalize_email,
  verify_code,
}

-- A call of `verifyCode`: its time, e-mail address and code.
pub record Guess : Type 0 where
  pub now : ℕ
  pub email : String
  pub code : String

-- The call compared its code with the one that was sent.
abbrev pub tested : Result VerifyError (Unit {0}) → ℕ
tested (ok _) = 1
tested (err (wrong_code _)) = 1
tested (err _) = 0

-- How many of the calls compared their code with that of the address with key `key`.
unfoldable pub count_tested : JsString → String → List Guess → FallbackStore → ℕ
count_tested js key [] m = 0
count_tested js key (g ∷ gs) m =
    let (r, m') = verify_code js g.now g.email g.code m in
    (if str_eq key (normalize_email js g.email) then tested r else 0) + count_tested js key gs m'

-- The comparisons that an entry still allows.
abbrev pub left : Option VerificationEntry → ℕ
left none = 0
left (some e) = elim e.code [ none ↦ 0 | some _ ↦ max_attempts - e.attempts ]

-- One call uses up what it compares, and leaves other addresses alone.
verify_code-left :
    (js : JsString) (key : String) (now : ℕ) (email code : String) (m : FallbackStore)
    → let (r, m') = verify_code js now email code m in
      (if str_eq key (normalize_email js email) then tested r else 0) + left (m' key) ≤ left (m key)
unfolding verify_code
verify_code-left js key now email code m = ground (arith, str_eq_iff key (normalize_email js email))

-- Over any calls of `verifyCode`, for whatever addresses and at whatever times, the code that was
-- sent to an address is compared at most as often as its entry allows, which is at most five times.
pub count_tested-le :
    (js : JsString) (key : String) (gs : List Guess) (m : FallbackStore)
    → (count_tested js key gs m ≤ left (m key)) × (left (m key) ≤ max_attempts)
unfolding count_tested
count_tested-le js key [] m = (omega arith, ground arith)
count_tested-le js key (g ∷ gs) m =
    let (_, m') = verify_code js g.now g.email g.code m in
    (
      omega
          (arith, verify_code-left js key g.now g.email g.code m, (count_tested-le js key gs m').0),
      ground arith,
    )
