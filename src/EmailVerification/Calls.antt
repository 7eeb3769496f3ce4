-- ===== src/EmailVerification/Calls.antt =====
-- backend/src/modules/auth/email-verification.service.ts: sequences of calls, and what they have
-- sent and verified.
use ai_planner.Prelude.{JsString, ℕ, ◌+◌, ◌*◌, ◌<◌, Bool, true, ok, String, List, [], ◌∷◌, ◌≡◌, ◌⊎◌}
use ai_planner.EmailVerification.{
  FallbackStore, Call, empty, code_ttl, passed_ttl, normalize_email, request_code, verify_code,
  assert_verified,
}

-- A call of the service: `request` has the verdicts of the captcha and the mail service, the time,
-- the code that is drawn and the address.
pub data Event : Type 0 where
  request : Bool → Bool → ℕ → String → String → Event
  verify : ℕ → String → String → Event
  assert : ℕ → String → Event

module _ (js : JsString) where
  unfoldable pub step : Event → Call
  step (request captcha_passes mail_sent now code email) =
      request_code js captcha_passes mail_sent now code email
  step (verify now email guess) = verify_code js now email guess
  step (assert now email) = assert_verified js now email

  -- The store after the calls, the last of which comes first in the list.
  unfoldable pub after : List Event → FallbackStore
  unfolding step
  after [] = empty
  after (e ∷ es) = (step e (after es)).1

  -- The call, after the calls `es`, sent `code` to the address, to expire at `expires`: the captcha was
  -- passed, the mail was sent, and the call was not refused.
  abbrev pub IsRequest : String → String → ℕ → Event → List Event → Type 0
  IsRequest key code expires (request captcha_passes mail_sent now c email) es =
      (captcha_passes ≡ true)
      × (mail_sent ≡ true)
      × ((request_code js captcha_passes mail_sent now c email (after es)).0 ≡ ok tt)
      × (normalize_email js email ≡ key)
      × (c ≡ code)
      × (expires ≡ now + code_ttl * 1000)
  IsRequest key code expires _ es = ⊥

  -- One of the calls sent `code` to the address, to expire at `expires`.
  abbrev pub Issued : String → String → ℕ → List Event → Type 0
  Issued key code expires [] = ⊥
  Issued key code expires (e ∷ es) = IsRequest key code expires e es ⊎ Issued key code expires es

  -- The call verified the address until `until`, after the calls `es`.
  abbrev pub IsProof : String → ℕ → Event → List Event → Type 0
  IsProof key until (verify now email guess) es =
      (normalize_email js email ≡ key)
      × (until ≡ now + passed_ttl * 1000)
      × ((x : ℕ) × (now < x) × Issued key guess x es)
  IsProof key until _ es = ⊥

  -- One of the calls verified the address, until `until`: it gave a code which a call before it had
  -- sent there and which had not expired.
  abbrev pub Proven : String → ℕ → List Event → Type 0
  Proven key until [] = ⊥
  Proven key until (e ∷ es) = IsProof key until e es ⊎ Proven key until es
