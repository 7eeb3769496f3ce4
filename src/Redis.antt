-- ===== src/Redis.antt =====
-- backend/src/shared/redis/redis.service.ts: `RedisService`. The client behind it (ioredis and its
-- server) is not code of the repository: an interface of the commands that the service sends, with
-- their documented meaning. A key is its template with the text put into it; INCR keeps the decimal
-- text of a number, which is that number here.
pub mod Memory
use ai_planner.Prelude.{
  ℕ, zero, suc, ◌+◌, ◌*◌, ◌≤◌, ◌≡◌, Bool, true, false, String, Option, none, some, ◌&&◌, not, ◌==◌,
  str_eq, str_eq_iff, refl, arith, ltb, if◌then◌else◌, is_some,
}

pub data Template : Type 0 where
  login_lock login_fail : Template
  setup_resend setup_code setup_attempts : Template
  email_resend email_code email_attempts email_passed : Template
  alias_log alias captcha_used : Template

pub record Key : Type 0 where
  pub template : Template
  pub part : String

abbrev pub index : Template → ℕ
index login_lock = 0
index login_fail = 1
index setup_resend = 2
index setup_code = 3
index setup_attempts = 4
index email_resend = 5
index email_code = 6
index email_attempts = 7
index email_passed = 8
index alias_log = 9
index alias = 10
index captcha_used = 11

abbrev pub same_key : Key → Key → Bool
same_key a b = index a.template == index b.template && str_eq a.part b.part

pub same_key_self : (k : Key) → same_key k k ≡ true
same_key_self k = ground (arith, (str_eq_iff k.part k.part).1 refl)

pub data Value : Type 0 where
  text : String → Value
  number : ℕ → Value

-- `raw ? parseInt(raw, 10) : 0` of a counter
abbrev pub count_of : Option Value → ℕ
count_of (some (number n)) = n
count_of _ = 0

-- Times are in milliseconds, times to live in seconds.
pub record Client (R : Type 0) : Type 0 where
  -- GET, SET with EX, DEL, INCR, EXPIRE
  pub get : ℕ → Key → R → Option Value
  pub set_ex : ℕ → Key → Value → ℕ → R → R
  pub del : Key → R → R
  pub incr : ℕ → Key → R → R
  pub expire : ℕ → Key → ℕ → R → R
  pub get-set_ex :
      (t now ttl_s : ℕ) (k j : Key) (v : Value) (r : R)
      → get t j (set_ex now k v ttl_s r) ≡ (
          if same_key j k then (if ltb t (now + ttl_s * 1000) then some v else none) else get t j r)
  pub get-del :
      (t : ℕ) (k j : Key) (r : R) → get t j (del k r) ≡ (if same_key j k then none else get t j r)
  -- A counter keeps the time that its key has to live; a new one has no such time.
  pub get-incr :
      (t now : ℕ) (k j : Key) (r : R)
      → now ≤ t
      → get t j (incr now k r) ≡ (
          if same_key j k
          then (if is_some (get now k r) && not (is_some (get t k r))
              then none
              else some (number (suc (count_of (get now k r)))))
          else get t j r)
  pub get-expire :
      (t now ttl_s : ℕ) (k j : Key) (r : R)
      → now ≤ t
      → get t j (expire now k ttl_s r) ≡ (
          if same_key j k
          then (if ltb t (now + ttl_s * 1000) then get now k r else none)
          else get t j r)

-- The methods of the service; `up` tells whether there is a client.
module _ {R : Type 0} (client : Client R) (up : Bool) where
  abbrev pub redis_get : ℕ → Key → R → Option Value
  redis_get now k r = if up then client.get now k r else none

  abbrev pub redis_set : ℕ → Key → Value → ℕ → R → R
  redis_set now k v ttl_s r = if up then client.set_ex now k v ttl_s r else r

  abbrev pub redis_del : Key → R → R
  redis_del k r = if up then client.del k r else r

  -- The new value, 0 without a client, and what is stored then.
  unfoldable pub redis_incr : ℕ → Key → ℕ → R → ℕ × R
  redis_incr now k ttl_s r =
      if not up
      then (0, r)
      else let counted = client.incr now k r in
        let val = suc (count_of (client.get now k r)) in
        (val, if val == 1 then client.expire now k ttl_s counted else counted)
