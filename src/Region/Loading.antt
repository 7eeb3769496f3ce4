-- ===== src/Region/Loading.antt =====
-- backend/src/shared/region/alias-learning.service.ts: what loading makes of the names that are stored.
use mathlib.Core.Path.{subst}
use ai_planner.Prelude.{
  ℕ, true, false, String, Option, none, some, List, [], ◌∷◌, ◌≡◌, refl, ap, ◌∙◌, ◌⊎◌, inl, inr,
  arith, any, Bool-cases, str_eq, str_eq_iff, if◌then◌else◌, is_empty,
}
use ai_planner.Region.{RegionRecord, Regions, map_get, add_dynamic_alias}
use ai_planner.Region.Learning.{NativeClient, text_of, alias_key, load_keys}

-- Texts that are stored for names, on top of the map of the file: the file wins.
module _ (base : Regions) where
  abbrev pub learned : (String → String) → String → Option RegionRecord
  learned stored t = elim (map_get t base.alias_map) [
    | some region ↦ some region
    | none ↦ if is_empty (stored t) then none else map_get (stored t) base.canonical_map
  ]

  -- Adding a name as it is stored makes it what it is to be, and no other name anything else.
  add-learned :
      (stored : String → String) (t u : String) (s : Regions)
      → s.canonical_map ≡ base.canonical_map
      → ((v : String)
          → (map_get v s.alias_map ≡ learned stored v)
            ⊎ (map_get v s.alias_map ≡ map_get v base.alias_map))
      → is_empty (stored t) ≡ false
      → let s' = add_dynamic_alias t (stored t) s in
        (s'.canonical_map ≡ base.canonical_map)
        × (map_get t s'.alias_map ≡ learned stored t)
        × (str_eq t u ≡ false → map_get u s'.alias_map ≡ map_get u s.alias_map)
  unfolding add_dynamic_alias
  add-learned stored t u s c e full =
      let at_t = e t in
      let found = ap (λ m. map_get (stored t) m) c in ground (arith, (str_eq_iff t t).1 refl)

empty_text : (s : String) → is_empty s ≡ true → s ≡ ""
empty_text String.[] e = refl
empty_text (String.◌∷◌ c s) e = cc

module _ (base : Regions) where
  abbrev pub learned_as : Option RegionRecord → String → Option RegionRecord
  learned_as (some region) canonical = some region
  learned_as none canonical =
      if is_empty canonical then none else map_get canonical base.canonical_map

  pub learned-as :
      (stored : String → String) (v : String)
      → learned base stored v ≡ learned_as (map_get v base.alias_map) (stored v)
  learned-as stored v = ground arith

  -- A name that is only the file's so far becomes what is promoted.
  pub add_known :
      (s : Regions) (token canonical v : String)
      → map_get "" base.canonical_map ≡ none
      → s.canonical_map ≡ base.canonical_map
      → str_eq token v ≡ true
      → map_get v s.alias_map ≡ map_get v base.alias_map
      → map_get v (add_dynamic_alias token canonical s).alias_map
        ≡ learned_as (map_get v base.alias_map) canonical
  unfolding add_dynamic_alias
  add_known s token canonical v named c same old =
      let it : token ≡ v = (str_eq_iff token v).0 same in
      let old_token : map_get token s.alias_map ≡ map_get v s.alias_map =
        ap (λ w. map_get w s.alias_map) it in
      let found : map_get canonical s.canonical_map ≡ map_get canonical base.canonical_map =
        ap (λ m. map_get canonical m) c in
      let empty : is_empty canonical ≡ true → map_get canonical base.canonical_map ≡ none =
        λ e. ap (λ w. map_get w base.canonical_map) (empty_text canonical e) ∙ named in
      elim (Bool-cases (is_empty canonical)) [
        | inl y ↦ ground (arith, empty y)
        | inr n ↦ ground arith
      ]

-- The text that Redis holds for a name
abbrev pub stored : {R : Type 0} → NativeClient R → ℕ → R → String → String
stored native now r token = text_of (native.client.get now (alias_key token) r)

module _ (base : Regions) {R : Type 0} (native : NativeClient R) where
  -- Each name is what the file says, or what is stored.
  abbrev pub IsPart : ℕ → R → Regions → Type 0
  IsPart now r s =
      (s.canonical_map ≡ base.canonical_map)
      × ((v : String)
          → (map_get v s.alias_map ≡ learned base (stored native now r) v)
            ⊎ (map_get v s.alias_map ≡ map_get v base.alias_map))

  -- What one round of loading does to the name `u`.
  abbrev pub Loads : ℕ → R → String → List String → Regions → Regions → Type 0
  Loads now r u tokens s s' =
      (map_get u s.alias_map ≡ learned base (stored native now r) u
        → map_get u s'.alias_map ≡ learned base (stored native now r) u)
      × (any (λ k. str_eq k u) tokens ≡ true
          → is_empty (stored native now r u) ≡ false
          → map_get u s'.alias_map ≡ learned base (stored native now r) u)

  load_one :
      (now : ℕ) (r : R) (t : String) (s : Regions)
      → IsPart now r s
      → let s' =
          if is_empty (stored native now r t)
          then s
          else add_dynamic_alias t (stored native now r t) s in
        IsPart now r s' × ((u : String) → Loads now r u (t ∷ []) s s')
  load_one now r t s (c, e) = elim (Bool-cases (is_empty (stored native now r t))) [
    | inl y ↦ rw y (
      (c, e),
      λ u. (
        λ h. h,
        λ is full. elim (Bool-cases (str_eq t u)) [
          | inl same ↦
              let it : t ≡ u = (str_eq_iff t u).0 same in
              let empty : is_empty (stored native now r u) ≡ true =
                subst (λ w. is_empty (stored native now r w) ≡ true) it y in
              cc
          | inr other ↦ ground arith
        ],
      ),
    )
    | inr n ↦
        let s' = add_dynamic_alias t (stored native now r t) s in
        let at = λ (u : String). add-learned base (stored native now r) t u s c e n in
        let same : (u : String)
            → str_eq t u ≡ true
            → map_get u s'.alias_map ≡ learned base (stored native now r) u =
          λ u q.
            subst (λ w. map_get w s'.alias_map ≡ learned base (stored native now r) w)
              ((str_eq_iff t u).0 q) (at t).1 in
        rw n (
          (
            (at t).0,
            λ u. elim (Bool-cases (str_eq t u)) [
              | inl q ↦ inl (same u q)
              | inr m ↦ elim (e u) [ inl k ↦ inl ((at u).2 m ∙ k) | inr k ↦ inr ((at u).2 m ∙ k) ]
            ],
          ),
          λ u. (
            λ h. elim (Bool-cases (str_eq t u)) [ inl q ↦ same u q | inr m ↦ (at u).2 m ∙ h ],
            λ is full. same u (ground arith),
          ),
        )
  ]

  pub load_keys-lem :
      (now : ℕ) (r : R) (tokens : List String) (s : Regions)
      → IsPart now r s
      → IsPart now r (load_keys native now tokens r s)
        × ((u : String) → Loads now r u tokens s (load_keys native now tokens r s))
  load_keys-lem now r [] s p = (p, λ u. (λ h. h, λ is full. cc))
  load_keys-lem now r (t ∷ tokens) s p =
      let s' =
        if is_empty (stored native now r t)
        then s
        else add_dynamic_alias t (stored native now r t) s in
      let (p', one) = load_one now r t s p in
      let (q, rest) = load_keys-lem now r tokens s' p' in
      (
        q,
        λ u. (
          λ h. (rest u).0 ((one u).0 h),
          λ is full. elim (Bool-cases (str_eq t u)) [
            | inl y ↦ (rest u).0 ((one u).1 (ground arith) full)
            | inr n ↦ (rest u).1 (ground arith) full
          ],
        ),
      )
