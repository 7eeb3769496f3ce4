-- ===== src/Redis/Memory.antt =====
-- backend/src/shared/redis/redis.service.ts: a client that keeps its keys in memory, so that the
-- interface can be met.
use ai_planner.Prelude.{
  ℕ, suc, ◌+◌, ◌*◌, arith, Option, none, some, List, [], ◌∷◌, ltb, if◌then◌else◌, is_some, String,
  any, str_eq, str_eq_comm, true, false, ◌≡◌, ◌==◌, ◌∙◌, refl, inl, inr, Bool-cases,
}
use ai_planner.Redis.{Key, Template, index, Value, number, same_key, count_of, Client}

-- A value and when it expires.
pub record Entry : Type 0 where
  pub value : Value
  pub until : Option ℕ

-- What was written to each key, the newest first.
abbrev pub Memory : Type 0
Memory = List (Key × Option Entry)

abbrev pub lookup : Key → Memory → Option Entry
lookup j [] = none
lookup j (e ∷ m) = if same_key j e.0 then e.1 else lookup j m

abbrev pub live : ℕ → Option Entry → Option Value
live now none = none
live now (some e) = elim e.until [
  | none ↦ some e.value
  | some u ↦ if ltb now u then some e.value else none
]

abbrev pub put : Key → Option Entry → Memory → Memory
put k e m = (k, e) ∷ m

abbrev counted : ℕ → Option Entry → Option Entry
counted now e = some (record {
  value = number (suc (count_of (live now e)));
  until = if is_some (live now e) then elim e [ none ↦ none | some x ↦ x.until ] else none;
})

abbrev limited : ℕ → ℕ → Option Entry → Option Entry
limited now until e = elim (live now e) [
  | none ↦ none
  | some v ↦ some (record { value = v; until = some until })
]

abbrev pub in_memory : Client Memory
in_memory = record {
  get = λ now k m. live now (lookup k m);
  set_ex =
      λ now k v ttl_s m. put k (some (record { value = v; until = some (now + ttl_s * 1000) })) m;
  del = λ k m. put k none m;
  incr = λ now k m. put k (counted now (lookup k m)) m;
  expire = λ now k ttl_s m. put k (limited now (now + ttl_s * 1000) (lookup k m)) m;
  get-set_ex = λ t now ttl_s k j v m. ground arith;
  get-del = λ t k j m. ground arith;
  get-incr = λ t now k j m later. ground arith;
  get-expire = λ t now ttl_s k j m later. ground arith;
}

-- The keys with a template, for KEYS.
abbrev pub parts_of : Template → Memory → List String
parts_of template [] = []
parts_of template (e ∷ m) =
    let rest = parts_of template m in
    if index e.0.template == index template then e.0.part ∷ rest else rest

pub parts_of-found :
    (t : ℕ) (template : Template) (token : String) (m : Memory)
    → is_some (live t (lookup (record { template = template; part = token }) m)) ≡ true
    → any (λ k. str_eq k token) (parts_of template m) ≡ true
parts_of-found t template token [] h = cc
parts_of-found t template token (e ∷ m) h =
    elim (Bool-cases (index e.0.template == index template)) [
      | inr n ↦
          let differ : (index template == index e.0.template) ≡ false = ground arith in
          rw n (parts_of-found t template token m (rw (differ, lookup) at h))
      | inl y ↦ elim (Bool-cases (str_eq token e.0.part)) [
        | inl here ↦
            let same : str_eq e.0.part token ≡ true = str_eq_comm e.0.part token ∙ here in
            rw (y, same) refl
        | inr away ↦
            let differ : str_eq e.0.part token ≡ false = str_eq_comm e.0.part token ∙ away in
            let alike : (index template == index e.0.template) ≡ true = ground arith in
            rw (y, differ) (parts_of-found t template token m (rw (alike, away, lookup) at h))
      ]
    ]
