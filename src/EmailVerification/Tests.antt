-- ===== src/EmailVerification/Tests.antt =====
-- backend/src/modules/auth/email-verification.service.ts, on sample calls.
use ai_planner.Prelude.{ℕ, ◌≤◌, ◌<◌, true, false, String, List, [], ◌∷◌, some, ok, ◌≡◌, refl, arith}
use ai_planner.Samples.{plain}
use ai_planner.EmailVerification.{
  FallbackStore, empty, normalize_email, request_code, verify_code, assert_verified, check_entry,
  max_attempts, new_entry,
}
use ai_planner.EmailVerification.Guesses.{Guess, count_tested, left, count_tested-le}
use ai_planner.EmailVerification.Calls.{Event, request, verify, after, step, Proven}
use ai_planner.EmailVerification.Trace.{assert-Proven}
use ai_planner.EmailVerification.OnRedis.{request_on_redis}
use ai_planner.EmailVerification.Equivalence.{
  Guess as Attempt, verdicts, verdicts_on_redis, same_verdicts,
}
use ai_planner.Redis.Memory.{Memory, in_memory}

abbrev bob : String
bob = "bob@example.com"

-- The last call comes first.
abbrev calls : List Event
calls =
    verify 60000 bob "123456" ∷ verify 50000 bob "111111" ∷ request true true 1000 "123456" bob ∷ []

verified : (assert_verified plain 70000 bob (after plain calls)).0 ≡ ok tt
unfolding after step request_code verify_code check_entry assert_verified normalize_email
verified = refl

assert-Proven_example : (u : ℕ) × (70000 < u) × Proven plain (normalize_email plain bob) u calls
assert-Proven_example = assert-Proven plain calls 70000 bob verified

sent : (request_code plain true true 1000 "123456" bob empty).0 ≡ ok tt
unfolding request_code
sent = refl

abbrev guesses : List Guess
guesses =
    record { now = 2000; email = bob; code = "000000" }
    ∷ record { now = 3000; email = bob; code = "000001" }
    ∷ record { now = 4000; email = "ann@example.com"; code = "000002" }
    ∷ []

abbrev fresh : FallbackStore
fresh _ = some (new_entry 1000 "123456")

two_tested : count_tested plain bob guesses fresh ≡ 2
unfolding count_tested verify_code check_entry normalize_email
two_tested = refl

count_tested-le_example :
    (count_tested plain bob guesses fresh ≤ left (fresh bob)) × (left (fresh bob) ≤ max_attempts)
count_tested-le_example = count_tested-le plain bob guesses fresh

abbrev nothing : Memory
nothing = []

-- The right code after a wrong one, and again too late.
abbrev attempts : List Attempt
attempts =
    record { time = 2000; code = "000000" }
    ∷ record { time = 3000; code = "123456" }
    ∷ record { time = 190000; code = "123456" }
    ∷ []

one_passes :
    verdicts plain bob attempts (request_code plain true true 1000 "123456" bob empty).1
    ≡ (false ∷ true ∷ false ∷ [])
unfolding request_code verify_code check_entry normalize_email
one_passes = refl

same_verdicts_example :
    verdicts plain bob attempts (request_code plain true true 1000 "123456" bob empty).1
    ≡ verdicts_on_redis in_memory plain bob attempts
        (request_on_redis in_memory plain true true 1000 "123456" bob nothing).1
same_verdicts_example =
    same_verdicts in_memory plain bob 1000 "123456" attempts empty nothing refl refl refl
      (omega arith, (omega arith, (omega arith, tt)))
