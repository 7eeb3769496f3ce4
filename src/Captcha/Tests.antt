-- ===== src/Captcha/Tests.antt =====
-- backend/src/shared/captcha/turnstile.service.ts, with a Redis in memory.
use ai_planner.Prelude.{◌≡◌, refl, true, false, String, some, [], ok, err, arith}
use ai_planner.Schema.{bad_request}
use ai_planner.Redis.Memory.{in_memory}
use ai_planner.Captcha.{verify, verify_once}

abbrev plain_hash : String → String
plain_hash s = s

accepted : (verify in_memory true true plain_hash 1000 "token" (some true) []).0 ≡ ok tt
unfolding verify
accepted = refl

-- Without Redis, a token passes as often as Cloudflare accepts it.
unprotected : (verify in_memory false true plain_hash 1000 "token" (some true) []).0 ≡ ok tt
unfolding verify
unprotected = refl

verify_once_example :
    let r = (verify in_memory true true plain_hash 1000 "token" (some true) []).1 in
    verify in_memory true true plain_hash 60000 "token" (some true) r ≡ (err bad_request, r)
verify_once_example =
    verify_once in_memory plain_hash 1000 60000 "token" (some true) (some true) [] accepted
      (ground arith)
