-- ===== src/EmailVerification/Trace.antt =====
-- backend/src/modules/auth/email-verification.service.ts: what a verified address has behind it,
-- over every sequence of calls.
use mathlib.Core.Path.{subst, sym}
use mathlib.Core.Option.{some-injective}
use ai_planner.Prelude.{
  JsString, ℕ, ◌+◌, ◌*◌, ◌<◌, Bool, true, false, String, List, [], ◌∷◌, Option, none, some, ok, ◌≡◌,
  refl, ◌⊎◌, inl, inr, arith, str_eq, str_eq_iff, Bool-cases, Option-cases,
}
use ai_planner.EmailVerification.{
  VerificationEntry, FallbackStore, passed_ttl, normalize_email, request_code, verify_code,
  assert_verified, passed_of, new_entry, ahead,
}
use ai_planner.EmailVerification.Calls.{Event, request, verify, assert, after, Issued, Proven}

abbrev or_zero : Option ℕ → ℕ
or_zero none = 0
or_zero (some n) = n

abbrev or_empty : Option String → String
or_empty none = ""
or_empty (some c) = c

module _ (js : JsString) where
  record IsGood (key : String) (es : List Event) (e : VerificationEntry) : Type 0 where
    issued : (c : String) (x : ℕ) → e.code ≡ some c → e.expires_at ≡ some x → Issued js key c x es
    proven : (u : ℕ) → e.passed_until ≡ some u → Proven js key u es

  abbrev Good : String → List Event → Option VerificationEntry → Type 0
  Good key es none = Unit
  Good key es (some e) = IsGood key es e

  Good-later :
      (key : String) (es : List Event) (e : Event) (o : Option VerificationEntry)
      → Good key es o
      → Good key (e ∷ es) o
  Good-later key es e none h = tt
  Good-later key es e (some o) h = record {
    issued = λ c x p q. inr (h.issued c x p q);
    proven = λ u p. inr (h.proven u p);
  }

  abbrev failed_entry : VerificationEntry → VerificationEntry
  failed_entry e = record e { attempts = e.attempts + 1 }

  abbrev passed_entry : ℕ → VerificationEntry → VerificationEntry
  passed_entry now e = record e {
    code = none;
    expires_at = none;
    attempts = 0;
    passed_until = some (now + passed_ttl * 1000);
  }

  -- What `verifyCode` makes of the entry of its address.
  abbrev Guessed : ℕ → String → VerificationEntry → Option VerificationEntry → Type 0
  Guessed now guess e o =
      (o ≡ some e)
      ⊎ (o ≡ some (failed_entry e))
      ⊎ ((o ≡ some (passed_entry now e))
          × (e.code ≡ some guess)
          × (e.expires_at ≡ some (or_zero e.expires_at))
          × (now < or_zero e.expires_at))

  verify-other :
      (key : String) (now : ℕ) (email guess : String) (m : FallbackStore)
      → str_eq key (normalize_email js email) ≡ false
      → (verify_code js now email guess m).1 key ≡ m key
  unfolding verify_code
  verify-other key now email guess m ne = ground arith

  verify-none :
      (now : ℕ) (email guess : String) (m : FallbackStore)
      → m (normalize_email js email) ≡ none
      → (verify_code js now email guess m).1 (normalize_email js email) ≡ none
  unfolding verify_code
  verify-none now email guess m h = ground arith

  verify-same :
      (now : ℕ) (email guess : String) (m : FallbackStore) (e : VerificationEntry)
      → m (normalize_email js email) ≡ some e
      → Guessed now guess e ((verify_code js now email guess m).1 (normalize_email js email))
  unfolding verify_code
  verify-same now email guess m e h = ground (
    arith,
    str_eq_iff (normalize_email js email) (normalize_email js email),
    str_eq_iff (or_empty e.code) guess,
  )

  guess-Good :
      (now : ℕ) (email guess : String) (es : List Event) (e : VerificationEntry)
      (o : Option VerificationEntry)
      → let key = normalize_email js email in
        IsGood key es e → Guessed now guess e o → Good key (verify now email guess ∷ es) o
  guess-Good now email guess es e o h (inl same) =
      rw same (Good-later _ es (verify now email guess) (some e) h)
  guess-Good now email guess es e o h (inr (inl more)) =
      rw more
        (record { issued = λ c x p q. inr (h.issued c x p q); proven = λ u p. inr (h.proven u p) })
  guess-Good now email guess es e o h (inr (inr (passed, code, expires, ahead))) =
      rw passed (record {
        issued = λ c x p q. cc;
        proven = λ u p.
            inl (refl, ground arith, (or_zero e.expires_at, ahead, h.issued guess _ code expires));
      })

  verify-Good_self :
      (now : ℕ) (email guess : String) (es : List Event)
      → let key = normalize_email js email in
        Good key es (after js es key)
        → Good key (verify now email guess ∷ es) (after js (verify now email guess ∷ es) key)
  unfolding after
  verify-Good_self now email guess es h =
      let key = normalize_email js email in
      elim (Option-cases (after js es key)) [
        | inl missing ↦ rw (verify-none now email guess (after js es) missing) tt
        | inr (e, found) ↦
            guess-Good now email guess es e ((verify_code js now email guess (after js es)).1 key)
              (rw found at h) (verify-same now email guess (after js es) e found)
      ]

  verify-Good :
      (key : String) (now : ℕ) (email guess : String) (es : List Event)
      → Good key es (after js es key)
      → Good key (verify now email guess ∷ es) (after js (verify now email guess ∷ es) key)
  unfolding after
  verify-Good key now email guess es h = elim (Bool-cases (str_eq key (normalize_email js email))) [
    | inr ne ↦
        rw (verify-other key now email guess (after js es) ne)
          (Good-later key es (verify now email guess) (after js es key) h)
    | inl eq ↦
        subst
          (λ k.
            Good k es (after js es k)
            → Good k (verify now email guess ∷ es)
                ((verify_code js now email guess (after js es)).1 k))
          (sym ((str_eq_iff _ _).0 eq)) (verify-Good_self now email guess es) h
  ]

  -- What `requestCode` makes of the entry of an address.
  request_effect :
      (key : String) (captcha_passes mail_sent : Bool) (now : ℕ) (code email : String)
      (m : FallbackStore)
      → let o = (request_code js captcha_passes mail_sent now code email m).1 key in
        (o ≡ m key)
        ⊎ (o ≡ none)
        ⊎ ((o ≡ some (new_entry now code))
            × (normalize_email js email ≡ key)
            × (captcha_passes ≡ true)
            × (mail_sent ≡ true)
            × ((request_code js captcha_passes mail_sent now code email m).0 ≡ ok tt))
  unfolding request_code
  request_effect key captcha_passes mail_sent now code email m =
      ground (arith, str_eq_iff key (normalize_email js email))

  assert_effect :
      (key : String) (now : ℕ) (email : String) (m : FallbackStore)
      → let o = (assert_verified js now email m).1 key in (o ≡ m key) ⊎ (o ≡ none)
  unfolding assert_verified
  assert_effect key now email m = ground (arith, str_eq_iff key (normalize_email js email))

  new_entry-Good :
      (key : String) (p q : Bool) (now : ℕ) (code email : String) (es : List Event)
      → normalize_email js email ≡ key
      → p ≡ true
      → q ≡ true
      → (request_code js p q now code email (after js es)).0 ≡ ok tt
      → IsGood key (request p q now code email ∷ es) (new_entry now code)
  new_entry-Good key p q now code email es same passes sent answered = record {
    issued = λ c x e f.
        inl (passes, sent, answered, same, some-injective code c e, sym (some-injective _ x f));
    proven = λ u e. cc;
  }

  after-Good : (key : String) (es : List Event) → Good key es (after js es key)
  unfolding after
  after-Good key [] = tt
  after-Good key (verify now email guess ∷ es) =
      verify-Good key now email guess es (after-Good key es)
  after-Good key (request p q now code email ∷ es) =
      elim (request_effect key p q now code email (after js es)) [
        | inl same ↦
            rw same
              (Good-later key es (request p q now code email) (after js es key) (after-Good key es))
        | inr (inl gone) ↦ rw gone tt
        | inr (inr (fresh, mine, passes, sent, answered)) ↦
            rw fresh (new_entry-Good key p q now code email es mine passes sent answered)
      ]
  after-Good key (assert now email ∷ es) = elim (assert_effect key now email (after js es)) [
    | inl same ↦
        rw same (Good-later key es (assert now email) (after js es key) (after-Good key es))
    | inr gone ↦ rw gone tt
  ]

  passed-Proven :
      (key : String) (now : ℕ) (es : List Event) (e : VerificationEntry) (p : Option ℕ)
      → e.passed_until ≡ p
      → IsGood key es e
      → ahead now p ≡ true
      → (u : ℕ) × (now < u) × Proven js key u es
  passed-Proven key now es e none same g h = cc
  passed-Proven key now es e (some u) same g h = (u, ground arith, g.proven u same)

  entry-Proven :
      (key : String) (now : ℕ) (es : List Event) (o : Option VerificationEntry)
      → Good key es o
      → ahead now (passed_of o) ≡ true
      → (u : ℕ) × (now < u) × Proven js key u es
  entry-Proven key now es none g h = cc
  entry-Proven key now es (some e) g h = passed-Proven key now es e e.passed_until refl g h

  assert-ahead :
      (now : ℕ) (email : String) (m : FallbackStore)
      → (assert_verified js now email m).0 ≡ ok tt
      → ahead now (passed_of (m (normalize_email js email))) ≡ true
  unfolding assert_verified
  assert-ahead now email m h = ground arith

  -- On the in-process store: after any calls, an address passes as verified only if within the last ten
  -- minutes a call gave a code for it which had not expired then, and which an earlier call had sent
  -- there, that passed the captcha, sent its mail and was not refused.
  pub assert-Proven :
      (es : List Event) (now : ℕ) (email : String)
      → (assert_verified js now email (after js es)).0 ≡ ok tt
      → (u : ℕ) × (now < u) × Proven js (normalize_email js email) u es
  assert-Proven es now email h =
      let key = normalize_email js email in
      entry-Proven key now es (after js es key) (after-Good key es)
        (assert-ahead now email (after js es) h)
