-- ===== src/Region/Restart.antt =====
-- backend/src/shared/region/alias-learning.service.ts: what a restart of the server keeps of the names
-- that were learned.
use mathlib.Core.Path.{subst, fun_ext}
use ai_planner.Prelude.{
  ℕ, suc, ◌+◌, ◌≤◌, true, false, String, Option, none, some, List, [], ◌∷◌, ◌≡◌, refl, sym, ap, ◌∙◌,
  inl, inr, arith, Bool-cases, str_eq, str_eq_comm, str_eq_iff, size, ltb, leb, if◌then◌else◌,
  is_empty, is_some,
}
use ai_planner.Redis.{Value, text, alias, count_of}
use ai_planner.Region.{
  RegionRecord, Regions, map_get, on_module_init, started, add_dynamic_alias, get_region,
}
use ai_planner.Region.Scan.{resolve_best}
use ai_planner.Region.Loading.{learned, learned_as, learned-as, add_known, stored, load_keys-lem}
use ai_planner.Region.Learning.{
  NativeClient, text_of, alias_key, log_key, load_persisted_aliases, promote_alias, log_token,
  log_tokens, log_unrecognized, log_ttl_seconds, promote_threshold,
}
use ai_planner.Region.Reading.{resolve_best-same, get_region-same}

module _ (base : Regions) {R : Type 0} (native : NativeClient R) where
  -- Every name is known as the file and the stored names say, from now on.
  abbrev pub IsSynced : ℕ → Regions × R → Type 0
  IsSynced now (s, r) =
      (s.canonical_map ≡ base.canonical_map)
      × ((t : ℕ)
          → now ≤ t
          → (v : String) → map_get v s.alias_map ≡ learned base (stored native t r) v)

  -- A start of the service knows what is stored.
  restored :
      (now : ℕ) (r : R) (v : String)
      → map_get v (load_persisted_aliases native now true r base).alias_map
        ≡ learned base (stored native now r) v
  unfolding load_persisted_aliases
  restored now r v =
      let (p, each) =
        load_keys-lem base native now r (native.keys now alias r) base (refl, λ u. inr refl) in
      elim (Bool-cases (is_empty (stored native now r v))) [
        | inl y ↦ elim (p.1 v) [ inl e ↦ e | inr e ↦ e ∙ ground arith ]
        | inr n ↦
            (each v).1
              (native.keys-found now alias v r (there (native.client.get now (alias_key v) r) n)) n
      ]
    where
      there : (o : Option Value) → is_empty (text_of o) ≡ false → is_some o ≡ true
      there none e = cc
      there (some x) e = refl

  -- Counting a name leaves what is stored for names.
  pub counted :
      (now t : ℕ) (token : String) (r : R)
      → now ≤ t
      → stored native t (
          native.client.expire now
            (log_key token)
            log_ttl_seconds
            (native.client.incr now (log_key token) r))
        ≡ stored native t r
  counted now t token r later =
      let same : (v : String)
          → native.client.get t (alias_key v) (
              native.client.expire now (log_key token) log_ttl_seconds
                (native.client.incr now (log_key token) r))
            ≡ native.client.get t (alias_key v) r =
        λ v.
          native.client.get-expire t now log_ttl_seconds (log_key token) (alias_key v)
            (native.client.incr now (log_key token) r) later
          ∙ native.client.get-incr t now (log_key token) (alias_key v) r later in
      fun_ext (λ v. ap text_of (same v))

  stored-set :
      (t : ℕ) (token canonical v : String) (r : R)
      → stored native t (native.set (alias_key token) (text canonical) r) v
        ≡ (if str_eq v token then canonical else stored native t r v)
  stored-set t token canonical v r =
      ap text_of (native.get-set t (alias_key token) (alias_key v) (text canonical) r)
      ∙ elim (Bool-cases (str_eq v token)) [ inl y ↦ rw y refl | inr n ↦ rw n refl ]

  promote_alias-IsSynced :
      (now : ℕ) (token canonical : String) (st : Regions × R)
      → map_get "" base.canonical_map ≡ none
      → IsSynced now st
      → IsSynced now (promote_alias native now token canonical st)
  unfolding promote_alias add_dynamic_alias
  promote_alias-IsSynced now token canonical (s, r) named (c, h) =
      elim (Bool-cases (is_empty (stored native now r token))) [
        | inr n ↦ rw (n, promote_alias) (c, h)
        | inl y ↦
            rw (y, promote_alias)
              (
                keeps,
                λ t later v. elim (Bool-cases (str_eq v token)) [
                  | inl same ↦
                      let it : v ≡ token = (str_eq_iff v token).0 same in
                      let flip : str_eq token v ≡ true = (str_eq_iff token v).1 (sym it) in
                      let set : stored native t (native.set (alias_key token) (text canonical) r) v
                          ≡ canonical =
                        stored-set t token canonical v r ∙ (rw same refl) in
                      let none_yet : is_empty (stored native now r v) ≡ true =
                        subst (λ w. is_empty (stored native now r w) ≡ true) (sym it) y in
                      let old : map_get v s.alias_map ≡ map_get v base.alias_map =
                        h now (omega arith) v ∙ ground (arith, none_yet) in
                      add_known base s token canonical v named c flip old
                      ∙ sym (
                          learned-as base
                            (stored native t (native.set (alias_key token) (text canonical) r)) v
                          ∙ ap (learned_as base (map_get v base.alias_map)) set)
                  | inr other ↦
                      let set : stored native t (native.set (alias_key token) (text canonical) r) v
                          ≡ stored native t r v =
                        stored-set t token canonical v r ∙ (rw other refl) in
                      let differ : str_eq token v ≡ false = str_eq_comm token v ∙ other in
                      let untouched : map_get v (add_dynamic_alias token canonical s).alias_map
                          ≡ map_get v s.alias_map =
                        ground (arith, differ) in
                      untouched
                      ∙ h t later v
                      ∙ learned-as base (stored native t r) v
                      ∙ sym (
                          learned-as base
                            (stored native t (native.set (alias_key token) (text canonical) r)) v
                          ∙ ap (learned_as base (map_get v base.alias_map)) set)
                ],
              )
      ]
    where
      keeps : (add_dynamic_alias token canonical s).canonical_map ≡ base.canonical_map
      keeps = ground (arith, c)

  log_token-IsSynced :
      (now : ℕ) (canonical token : String) (st : Regions × R)
      → map_get "" base.canonical_map ≡ none
      → IsSynced now st
      → IsSynced now (log_token native now canonical token st)
  unfolding log_token
  log_token-IsSynced now canonical token (s, r) named (c, h) =
      let kept =
        native.client.expire now (log_key token) log_ttl_seconds
          (native.client.incr now (log_key token) r) in
      let still : IsSynced now (s, kept) = (
        c,
        λ t later v. h t later v ∙ sym (ap (λ f. learned base f v) (counted now t token r later)),
      ) in
      elim (Bool-cases (ltb (size token) 2)) [
        | inl short ↦ rw (short, log_token) (c, h)
        | inr long ↦
            elim (Bool-cases
              (leb promote_threshold (suc (count_of (native.client.get now (log_key token) r))))) [
                | inl often ↦
                    rw (long, often, log_token)
                      (promote_alias-IsSynced now token canonical (s, kept) named still)
                | inr rare ↦ rw (long, rare, log_token) still
              ]
      ]

  log_tokens-IsSynced :
      (now : ℕ) (canonical : String) (tokens : List String) (st : Regions × R)
      → map_get "" base.canonical_map ≡ none
      → IsSynced now st
      → IsSynced now (log_tokens native now canonical tokens st)
  log_tokens-IsSynced now canonical [] st named h = h
  log_tokens-IsSynced now canonical (token ∷ tokens) st named h =
      log_tokens-IsSynced now canonical tokens (log_token native now canonical token st) named
        (log_token-IsSynced now canonical token st named h)

-- A call of `logUnrecognized`, so long after the one before it.
pub record Report : Type 0 where
  pub delay : ℕ
  pub tokens : List String
  pub canonical : String

-- The time of the last call, and what the calls leave.
abbrev pub last_time : ℕ → List Report → ℕ
last_time now [] = now
last_time now (report ∷ reports) = last_time (now + report.delay) reports

abbrev pub run_reports : {R : Type 0} → NativeClient R → ℕ → List Report → Regions × R → Regions × R
run_reports native now [] st = st
run_reports native now (report ∷ reports) st =
    run_reports native (now + report.delay) reports
      (log_unrecognized native (now + report.delay) true report.tokens report.canonical st)

run_reports-IsSynced :
    (base : Regions) {R : Type 0} (native : NativeClient R) (now : ℕ) (reports : List Report)
    (st : Regions × R)
    → map_get "" base.canonical_map ≡ none
    → IsSynced base native now st
    → IsSynced base native (last_time now reports) (run_reports native now reports st)
run_reports-IsSynced base native now [] st named h = h
run_reports-IsSynced base native now (report ∷ reports) (s, r) named (c, h) =
    let next = now + report.delay in
    run_reports-IsSynced base native next reports
      (log_unrecognized native next true report.tokens report.canonical (s, r)) named
      (log_tokens-IsSynced base native next report.canonical report.tokens (s, r) named
        (c, λ t later. h t (omega arith)))

-- A restart keeps what was learned. If no region has an empty name, and Redis has no aliases at first,
-- then after any calls of `logUnrecognized`, a service that starts anew, from the same file and what
-- Redis holds then, reads every text and every name as the service that made the calls.
pub restart_refines :
    {R : Type 0} (native : NativeClient R) (file : List RegionRecord) (r : R) (now later : ℕ)
    (reports : List Report)
    → map_get "" (on_module_init file started).canonical_map ≡ none
    → ((t : ℕ) (v : String) → native.client.get t (alias_key v) r ≡ none)
    → last_time now reports ≤ later
    → let base = on_module_init file started in
      let (s, r') = run_reports native now reports (base, r) in
      let anew = load_persisted_aliases native later true r' base in
      ((words : String) → resolve_best words anew ≡ resolve_best words s)
      × ((input : String) → get_region input anew ≡ get_region input s)
restart_refines native file r now later reports named fresh after =
    let base = on_module_init file started in
    let (s, r') = run_reports native now reports (base, r) in
    let anew = load_persisted_aliases native later true r' base in
    let (_, h) =
      run_reports-IsSynced base native now reports (base, r) named
        (refl, λ t _ v. ground (arith, fresh t v)) in
    let same : (v : String) → map_get v anew.alias_map ≡ map_get v s.alias_map =
      λ v. restored base native later r' v ∙ sym (h later after v) in
    (λ words. resolve_best-same words anew s same, λ input. get_region-same input anew s same)
