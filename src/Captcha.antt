-- ===== src/Captcha.antt =====
-- backend/src/shared/captcha/turnstile.service.ts: `TurnstileService`. What Cloudflare answers is an
-- argument, none if the request fails; the hash of a token is any function.
mod Tests
use ai_planner.Prelude.{
  ℕ, ◌+◌, ◌*◌, ◌≤◌, ◌<◌, ◌≡◌, refl, sym, ap, ◌∙◌, inl, inr, arith, Bool, true, false, not, String,
  Option, none, some, Result, ok, err, is_empty, is_some, if◌then◌else◌, Bool-cases,
}
use ai_planner.Schema.{HttpError, bad_request}
use ai_planner.Redis.{Client, Key, captcha_used, text, redis_get, redis_set, same_key_self}

abbrev pub used_key : String → Key
used_key token_hash = record { template = captcha_used; part = token_hash }

abbrev pub is_success : Option Bool → Bool
is_success none = false
is_success (some success) = success

-- `up` is whether Redis is there, `secret` whether the secret key is set.
module _ {R : Type 0} (client : Client R) (up secret : Bool) (sha256 : String → String) where
  unfoldable pub verify : ℕ → String → Option Bool → R → Result HttpError (Unit {0}) × R
  verify now token verdict r =
      let key = used_key (sha256 token) in
      if not secret
      then (ok tt, r)
      else if is_empty token
      then (err bad_request, r)
      else if is_some (redis_get client up now key r)
      then (err bad_request, r)
      else if not (is_success verdict)
      then (err bad_request, r)
      else (ok tt, redis_set client up now key (text "1") 300 r)

-- Where the secret is set and Redis is there: a token that was accepted is refused for the five minutes
-- that follow, whatever Cloudflare says, and that changes nothing.
pub verify_once :
    {R : Type 0} (client : Client R) (sha256 : String → String) (now later : ℕ) (token : String)
    (verdict again : Option Bool) (r : R)
    → (verify client true true sha256 now token verdict r).0 ≡ ok tt
    → later < now + 300 * 1000
    → let r' = (verify client true true sha256 now token verdict r).1 in
      verify client true true sha256 later token again r' ≡ (err bad_request, r')
unfolding verify
verify_once client sha256 now later token verdict again r accepted soon =
    let key = used_key (sha256 token) in
    elim (Bool-cases (is_empty token)) [
      | inl y ↦ let refused = rw (y, verify) at accepted in cc
      | inr n ↦ elim (Bool-cases (is_some (client.get now key r))) [
        | inl used ↦ let refused = rw (n, used, verify) at accepted in cc
        | inr fresh ↦ elim (Bool-cases (is_success verdict)) [
          | inr unsure ↦ let refused = rw (n, fresh, unsure, verify) at accepted in cc
          | inl success ↦
              let kept = client.get-set_ex later now 300 key key (text "1") r in
              let self = same_key_self key in
              rw (n, fresh, success, verify) (ground (arith, kept, self))
        ]
      ]
    ]
