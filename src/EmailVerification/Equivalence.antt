-- ===== src/EmailVerification/Equivalence.antt =====
-- backend/src/modules/auth/email-verification.service.ts: the two stores of the codes give the same
-- verdicts.
use ai_planner.Prelude.{
  JsString, ℕ, suc, ◌+◌, ◌≤◌, ◌<◌, ◌≡◌, refl, ◌∙◌, arith, Bool, true, false, String, none, some,
  List, [], ◌∷◌, leb, ltb, str_eq, Bool-cases, inl, inr,
}
use ai_planner.EmailVerification.{
  new_entry, VerificationEntry, FallbackStore, normalize_email, set, request_code, verify_code,
  resend_of, ahead,
}
use ai_planner.EmailVerification.OnRedis.{
  request_on_redis, verify_on_redis, check_on_redis, code_key, attempts_key, resend_key,
}
use ai_planner.Redis.{Client, text, redis_incr}
use ai_planner.EmailVerification.Steps.{
  is_ok, counter, set_self, refused, refused_on_redis, incr-counter, incr-other, Holds, step,
  step_on_redis, accepted_on_redis, accepted_answer, wrong_on_redis, sent, sent-code, sent-attempts,
}

-- A call of `verifyCode`: when, and with which code.
pub record Guess : Type 0 where
  pub time : ℕ
  pub code : String

abbrev pub InOrder : ℕ → List Guess → Type 0
InOrder first [] = Unit
InOrder first (g ∷ gs) = (first ≤ g.time) × InOrder g.time gs

-- Which of the guesses for an address are accepted, one after the other.
abbrev pub verdicts : JsString → String → List Guess → FallbackStore → List Bool
verdicts js email [] m = []
verdicts js email (g ∷ gs) m =
    let (answer, m') = verify_code js g.time email g.code m in
    is_ok answer ∷ verdicts js email gs m'

abbrev pub verdicts_on_redis :
    {R : Type 0} → Client R → JsString → String → List Guess → R → List Bool
verdicts_on_redis client js email [] r = []
verdicts_on_redis client js email (g ∷ gs) r =
    let (answer, r') = verify_on_redis client js g.time email g.code r in
    is_ok answer ∷ verdicts_on_redis client js email gs r'

module _ {R : Type 0} (client : Client R) (js : JsString) (email : String) where
  -- Where no code is there, no guess is accepted.
  no_code :
      (gs : List Guess) (m : FallbackStore) (r : R) (e : VerificationEntry)
      → m (normalize_email js email) ≡ some e
      → e.code ≡ none
      → ((t : ℕ) → client.get t (code_key (normalize_email js email)) r ≡ none)
      → verdicts js email gs m ≡ verdicts_on_redis client js email gs r
  no_code [] m r e found empty gone = refl
  no_code (g ∷ gs) m r e found empty gone = ground (
    arith,
    refused client js email g.time g.code m e found empty,
    refused_on_redis client js email g.time g.code r (gone g.time),
    no_code gs m r e found empty gone,
  )

  module _ (code : String) (until : ℕ) where
    same_from :
        (gs : List Guess) (n last : ℕ) (e : VerificationEntry) (m : FallbackStore) (r : R)
        → Holds client js email code until n e m
        → str_eq code "" ≡ false
        → InOrder last gs
        → until ≤ last + 180000
        → ((t : ℕ)
            → last ≤ t
            → t < until
            → client.get t (code_key (normalize_email js email)) r ≡ some (text code))
        → ((t : ℕ)
            → last ≤ t
            → until ≤ t
            → client.get t (code_key (normalize_email js email)) r ≡ none)
        → ((t : ℕ)
            → last ≤ t
            → t < until
            → client.get t (attempts_key (normalize_email js email)) r ≡ counter n)
        → verdicts js email gs m ≡ verdicts_on_redis client js email gs r
    same_from [] n last e m r held real ordered close kept gone counted = refl
    same_from (g ∷ gs) n last e m r held real ordered close kept gone counted =
        elim (Bool-cases (ltb g.time until)) [
          | inr late ↦
              let expired : client.get g.time (code_key (normalize_email js email)) r ≡ none =
                gone g.time ordered.0 (ground arith) in
              ground (
                arith,
                step client js email code until n g.time g.code e m held real,
                refused_on_redis client js email g.time g.code r expired,
                same_from gs n g.time e m r held real ordered.1 (omega arith)
                    (λ t later. kept t (omega arith)) (λ t later. gone t (omega arith))
                    (λ t later. counted t (omega arith)),
              )
          | inl early ↦
              let soon : g.time < until = ground arith in
              let there = kept g.time ordered.0 soon in
              let counts = counted g.time ordered.0 soon in
              elim (Bool-cases (leb 5 n)) [
                | inl full ↦ ground (
                  arith,
                  step client js email code until n g.time g.code e m held real,
                  step_on_redis client js email code until n g.time g.code r there counts real,
                  same_from gs n g.time e m r held real ordered.1 (omega arith)
                      (λ t later. kept t (omega arith)) (λ t later. gone t (omega arith))
                      (λ t later. counted t (omega arith)),
                )
                | inr left ↦ elim (Bool-cases (str_eq code g.code)) [
                  | inl right ↦
                      let address : String = normalize_email js email in
                      let r' : R = (check_on_redis client g.time address g.code code n r).1 in
                      let e' : VerificationEntry = record e {
                        code = none;
                        expires_at = none;
                        attempts = 0;
                        passed_until = some (g.time + 600000);
                      } in
                      ground (
                        arith,
                        step client js email code until n g.time g.code e m held real,
                        step_on_redis client js email code until n g.time g.code r there counts
                            real,
                        accepted_answer client js email code until n g.time g.code r right,
                        no_code gs (set address e' m) r' e' (set_self address e' m) refl (λ t.
                            accepted_on_redis client js email code until n g.time t g.code r right),
                      )
                  | inr wrong ↦
                      let address : String = normalize_email js email in
                      let r' : R = (redis_incr client true g.time (attempts_key address) 600 r).1 in
                      let e' : VerificationEntry = record e { attempts = n + 1 } in
                      ground (
                        arith,
                        step client js email code until n g.time g.code e m held real,
                        step_on_redis client js email code until n g.time g.code r there counts
                            real,
                        wrong_on_redis client js email code until n g.time g.code r wrong,
                        same_from gs (suc n) g.time e' (set address e' m) r'
                            (set_self address e' m, held.1, held.2, omega arith) real ordered.1
                            (omega arith)
                            (λ t later early'.
                              incr-other client js email code until g.time t (code_key address) r
                                later refl
                              ∙ kept t (omega (arith, ordered.0)) early')
                            (λ t later over.
                              incr-other client js email code until g.time t (code_key address) r
                                later refl
                              ∙ gone t (omega (arith, ordered.0)) over)
                            (λ t later early'.
                              incr-counter client js email code until n g.time t r later early'
                                (omega (arith, ordered.0)) counts
                                (counted t (omega (arith, ordered.0)) early')),
                      )
                ]
              ]
        ]

  -- Where neither store is waiting before another code for the address, both captcha and mail are
  -- passed, and the code is not the empty text: after it has been sent, any guesses, one after the
  -- other, get the same verdicts whether the codes are kept in Redis or in the fallback store.
  pub same_verdicts :
      (now : ℕ) (code : String) (gs : List Guess) (m : FallbackStore) (r : R)
      → str_eq code "" ≡ false
      → ahead now (resend_of (m (normalize_email js email))) ≡ false
      → client.get now (resend_key (normalize_email js email)) r ≡ none
      → InOrder now gs
      → verdicts js email gs (request_code js true true now code email m).1
        ≡ verdicts_on_redis client js email gs
            (request_on_redis client js true true now code email r).1
  unfolding request_code request_on_redis
  same_verdicts now code gs m r real ready ready_on_redis ordered =
      let address : String = normalize_email js email in
      let e : VerificationEntry = new_entry now code in
      let r' : R = sent client js email now code r in
      let same : verdicts js email gs (set address e m) ≡ verdicts_on_redis client js email gs r' =
        same_from code (now + 180000) gs 0 now e (set address e m) r'
          (set_self address e m, refl, refl, refl) real ordered (omega arith)
          (λ t later early. sent-code client js email now t code r ∙ ground arith)
          (λ t later over. sent-code client js email now t code r ∙ ground arith)
          (λ t later early. sent-attempts client js email now t code r) in
      ground (arith, same)
