-- ===== src/Region/Learning.antt =====
-- backend/src/shared/region/alias-learning.service.ts: `AliasLearningService`, which counts the names of
-- places that RegionService does not know, in Redis, and makes aliases of them. Redis keeps its values
-- here as long as it says it does; a command that fails, which only skips a name, is left out.
use ai_planner.Prelude.{
  ℕ, suc, ◌*◌, Bool, true, not, String, Option, some, List, [], ◌∷◌, ◌≡◌, if◌then◌else◌, ltb, leb,
  size, is_empty, is_some, any, str_eq,
}
use ai_planner.Redis.{Client, Key, Template, Value, text, same_key, alias_log, alias, count_of}
use ai_planner.Region.{Regions, add_dynamic_alias}

-- `getNativeClient`: also SET without a time to live, and KEYS with the prefix of a template.
pub record NativeClient (R : Type 0) : Type 0 where
  pub client : Client R
  pub set : Key → Value → R → R
  pub keys : ℕ → Template → R → List String
  pub get-set :
      (t : ℕ) (k j : Key) (v : Value) (r : R)
      → client.get t j (set k v r) ≡ (if same_key j k then some v else client.get t j r)
  -- KEYS lists each key that there is.
  pub keys-found :
      (t : ℕ) (template : Template) (token : String) (r : R)
      → is_some (client.get t (record { template = template; part = token }) r) ≡ true
      → any (λ k. str_eq k token) (keys t template r) ≡ true

abbrev pub promote_threshold : ℕ
promote_threshold = 5

abbrev pub log_ttl_seconds : ℕ
log_ttl_seconds = 30 * 24 * 60 * 60

abbrev pub log_key : String → Key
log_key token = record { template = alias_log; part = token }

abbrev pub alias_key : String → Key
alias_key token = record { template = alias; part = token }

-- A value that is a text that is not empty; an alias is stored as a text.
abbrev pub text_of : Option Value → String
text_of (some (text s)) = s
text_of _ = ""

module _ {R : Type 0} (native : NativeClient R) where
  -- The loop of `loadPersistedAliases`
  abbrev pub load_keys : ℕ → List String → R → Regions → Regions
  load_keys now [] r s = s
  load_keys now (token ∷ tokens) r s =
      let canonical = text_of (native.client.get now (alias_key token) r) in
      load_keys now tokens r (if is_empty canonical then s else add_dynamic_alias token canonical s)

  unfoldable pub load_persisted_aliases : ℕ → Bool → R → Regions → Regions
  load_persisted_aliases now up r s = if up then load_keys now (native.keys now alias r) r s else s

  unfoldable pub promote_alias : ℕ → String → String → Regions × R → Regions × R
  promote_alias now token canonical (s, r) =
      if not (is_empty (text_of (native.client.get now (alias_key token) r)))
      then (s, r)
      else (add_dynamic_alias token canonical s, native.set (alias_key token) (text canonical) r)

  -- One round of the loop of `logUnrecognized`
  unfoldable pub log_token : ℕ → String → String → Regions × R → Regions × R
  log_token now canonical token (s, r) =
      let counted = native.client.incr now (log_key token) r in
      let count = suc (count_of (native.client.get now (log_key token) r)) in
      let kept = native.client.expire now (log_key token) log_ttl_seconds counted in
      if ltb (size token) 2
      then (s, r)
      else if leb promote_threshold count
      then promote_alias now token canonical (s, kept)
      else (s, kept)

  abbrev pub log_tokens : ℕ → String → List String → Regions × R → Regions × R
  log_tokens now canonical [] st = st
  log_tokens now canonical (token ∷ tokens) st =
      log_tokens now canonical tokens (log_token now canonical token st)

  abbrev pub log_unrecognized : ℕ → Bool → List String → String → Regions × R → Regions × R
  log_unrecognized now up tokens canonical st =
      if up then log_tokens now canonical tokens st else st
