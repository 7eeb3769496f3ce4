-- ===== src/Region/Promotion.antt =====
-- backend/src/shared/region/alias-learning.service.ts: when a name is learned.
use mathlib.Core.Path.{subst}
use ai_planner.Prelude.{
  ℕ, suc, ◌+◌, ◌*◌, ◌≤◌, ◌<◌, true, false, String, none, some, List, [], ◌∷◌, ◌≡◌, refl, ap, ◌∙◌,
  ◌⊎◌, inl, inr, arith, All, Bool-cases, str_eq_iff, size, ltb, leb, is_empty, length, trim,
}
use ai_planner.Redis.{text, count_of}
use ai_planner.Region.{RegionRecord, Regions, map_get, add_dynamic_alias, get_region}
use ai_planner.Region.Learning.{
  NativeClient, text_of, alias_key, log_key, promote_alias, promote_threshold, log_token,
  log_ttl_seconds,
}
use ai_planner.Region.Loading.{stored}
use ai_planner.Region.Restart.{counted}

-- A name is logged again and again, each time so long after the time before.
abbrev pub log_again :
    {R : Type 0} → NativeClient R → String → String → ℕ → List ℕ → Regions × R → Regions × R
log_again native canonical token now [] st = st
log_again native canonical token now (delay ∷ delays) st =
    log_again native canonical token (now + delay) delays
      (log_token native (now + delay) canonical token st)

module _ (base : Regions) {R : Type 0} (native : NativeClient R) (token canonical : String)
    (region : RegionRecord) where
  abbrev count_at : ℕ → R → ℕ
  count_at t r = count_of (native.client.get t (log_key token) r)

  -- The name was logged `n` times: it is known, or there are less than 5.
  abbrev IsLogged : ℕ → ℕ → Regions × R → Type 0
  IsLogged n now (s, r) =
      ((t : ℕ) → now ≤ t → t < now + log_ttl_seconds * 1000 → count_at t r ≡ n)
      × (s.canonical_map ≡ base.canonical_map)
      × ((map_get token s.alias_map ≡ some region)
          ⊎ ((n < 5)
              × (map_get token s.alias_map ≡ none)
              × ((t : ℕ) → now ≤ t → is_empty (stored native t r token) ≡ true)))

  count-log :
      (now t : ℕ) (r : R)
      → now ≤ t
      → t < now + log_ttl_seconds * 1000
      → count_at t (
          native.client.expire now
            (log_key token)
            log_ttl_seconds
            (native.client.incr now (log_key token) r))
        ≡ suc (count_at now r)
  count-log now t r later soon =
      let here =
        native.client.get-expire t now log_ttl_seconds (log_key token) (log_key token)
          (native.client.incr now (log_key token) r) later in
      let one = native.client.get-incr now now (log_key token) (log_key token) r (omega arith) in
      let self = (str_eq_iff token token).1 refl in ground (arith, here, one, self)

  -- What promoting does to the name, and to the count of it.
  promote-known :
      (now : ℕ) (s : Regions) (r : R)
      → map_get canonical base.canonical_map ≡ some region
      → s.canonical_map ≡ base.canonical_map
      → (map_get token s.alias_map ≡ some region)
        ⊎ ((map_get token s.alias_map ≡ none) × (is_empty (stored native now r token) ≡ true))
      → let (s', r') = promote_alias native now token canonical (s, r) in
        (s'.canonical_map ≡ base.canonical_map)
        × (map_get token s'.alias_map ≡ some region)
        × ((t : ℕ) → count_at t r' ≡ count_at t r)
  unfolding promote_alias add_dynamic_alias
  promote-known now s r known c h = elim (Bool-cases (is_empty (stored native now r token))) [
    | inr n ↦ rw (n, promote_alias) (c, elim h [ inl k ↦ k | inr k ↦ absurd cc ], λ t. refl)
    | inl y ↦
        rw (y, promote_alias)
          (
            keeps,
            knows,
            λ t.
                ap count_of (native.get-set t (alias_key token) (log_key token) (text canonical) r),
          )
  ]
    where
      found : map_get canonical s.canonical_map ≡ some region
      found = ap (λ m. map_get canonical m) c ∙ known

      keeps : (add_dynamic_alias token canonical s).canonical_map ≡ base.canonical_map
      keeps = ground (arith, c)

      knows : map_get token (add_dynamic_alias token canonical s).alias_map ≡ some region
      knows = elim h [
        | inl k ↦ ground (arith, found, k)
        | inr k ↦ ground (arith, found, k.0, (str_eq_iff token token).1 refl)
      ]

  log_token-IsLogged :
      (n now next : ℕ) (s : Regions) (r : R)
      → ltb (size token) 2 ≡ false
      → map_get canonical base.canonical_map ≡ some region
      → now ≤ next
      → next < now + log_ttl_seconds * 1000
      → IsLogged n now (s, r)
      → IsLogged (suc n) next (log_token native next canonical token (s, r))
  unfolding log_token
  log_token-IsLogged n now next s r long known later soon (counts, c, h) =
      let kept =
        native.client.expire next (log_key token) log_ttl_seconds
          (native.client.incr next (log_key token) r) in
      let count : count_at next r ≡ n = counts next later soon in
      let counts' : (t : ℕ)
          → next ≤ t
          → t < next + log_ttl_seconds * 1000
          → count_at t kept ≡ suc n =
        λ t a b. count-log next t r a b ∙ ap suc count in
      let empty : (t : ℕ)
          → next ≤ t
          → ((u : ℕ) → now ≤ u → is_empty (stored native u r token) ≡ true)
          → is_empty (stored native t kept token) ≡ true =
        λ t a e.
          ap (λ f. is_empty (f token)) (counted base native next t token r a)
          ∙ e t (omega (arith, later)) in
      elim (Bool-cases (leb promote_threshold (suc (count_at next r)))) [
        | inl often ↦
            let (c', knows, same) =
              promote-known next s kept known c
                (elim h [ inl k ↦ inl k | inr k ↦ inr (k.1, empty next (omega arith) k.2) ]) in
            rw (long, often, log_token) ((λ t a b. same t ∙ counts' t a b), c', inl knows)
        | inr rare ↦
            rw (long, rare, log_token)
              (
                counts',
                c,
                elim h [
                  | inl k ↦ inl k
                  | inr k ↦ inr (ground (arith, count), k.1, λ t a. empty t a k.2)
                ],
              )
      ]

  log_again-IsLogged :
      (n now : ℕ) (delays : List ℕ) (st : Regions × R)
      → ltb (size token) 2 ≡ false
      → map_get canonical base.canonical_map ≡ some region
      → All (λ d. d < log_ttl_seconds * 1000) delays
      → IsLogged n now st
      → (end : ℕ) × IsLogged
          (length delays + n)
          end
          (log_again native canonical token now delays st)
  log_again-IsLogged n now [] st long known soon h =
      let same : n ≡ 0 + n = omega arith in (now, subst (λ k. IsLogged k now st) same h)
  log_again-IsLogged n now (d ∷ ds) (s, r) long known soon h =
      let (end, last) =
        log_again-IsLogged (suc n) (now + d) ds (log_token native (now + d) canonical token (s, r))
          long known soon.1
          (log_token-IsLogged n now (now + d) s r long known (omega arith) (omega (arith, soon.0))
            h) in
      let same : length ds + suc n ≡ suc (length ds) + n = omega arith in
      (
        end,
        subst (λ k. IsLogged k end (log_again native canonical token now (d ∷ ds) (s, r))) same
            last,
      )

-- A name that is logged five times or more, less than 30 days after the time before each, comes to
-- be known as an alias of the region that it was resolved to: if it has two characters at least and no
-- space before or after it, the region is known by the name it was resolved to, no region has the name
-- as an alias at first, and Redis holds neither a count nor an alias of it at first.
pub log_again-known :
    {R : Type 0} (native : NativeClient R) (base : Regions) (token canonical : String)
    {region : RegionRecord} (now : ℕ) (delays : List ℕ) (r : R)
    → ltb (size token) 2 ≡ false
    → trim token ≡ token
    → map_get canonical base.canonical_map ≡ some region
    → map_get token base.alias_map ≡ none
    → ((t : ℕ) → native.client.get t (log_key token) r ≡ none)
    → ((t : ℕ) → native.client.get t (alias_key token) r ≡ none)
    → All (λ d. d < log_ttl_seconds * 1000) delays
    → 5 ≤ length delays
    → get_region token (log_again native canonical token now delays (base, r)).0 ≡ some region
unfolding get_region
log_again-known native base token canonical {region} now delays r long trimmed known new uncounted
      unset soon often =
    let (_, logged) =
      log_again-IsLogged base native token canonical region 0 now delays (base, r) long known soon
        (
          λ t _ _. ap count_of (uncounted t),
          refl,
          inr (omega arith, new, λ t _. ap (λ o. is_empty (text_of o)) (unset t)),
        ) in
    let s = (log_again native canonical token now delays (base, r)).0 in
    let full : is_empty token ≡ false = full_text token long in
    elim logged.2 [ inl k ↦ rw (full, trimmed) k | inr few ↦ absurd (omega (arith, few.0, often)) ]
  where
    full_text : (t : String) → ltb (size t) 2 ≡ false → is_empty t ≡ false
    full_text String.[] e = cc
    full_text (String.◌∷◌ c t) e = refl
