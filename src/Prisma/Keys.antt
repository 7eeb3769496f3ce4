-- ===== src/Prisma/Keys.antt =====
-- Unique keys (`@id`, `@unique`): what a row that was found says of the table, and what an update
-- of the row with a given id does to a search on another unique key.
use mathlib.Core.Option.{some-injective}
use mathlib.Core.Path.{subst}
use ai_planner.Prelude.{
  ℕ, Bool, true, false, List, [], ◌∷◌, some, map, ◌≡◌, ◌≢◌, refl, sym, ap, ◌∙◌, inl, inr, arith,
  find?, change, Bool-cases, Option-cases, All, ◌==◌, if◌then◌else◌,
}
use ai_planner.Prisma.Reads.{find?-change, find?-holds, All-find?}

module _ {Row : Type 0} where
  abbrev pub IsUnique : (Row → ℕ) → List Row → Type 0
  IsUnique k [] = Unit
  IsUnique k (r ∷ t) = All (λ x. k x ≢ k r) t × IsUnique k t

  -- Of two rows with one key, each is the other.
  pub find?-unique :
      (k : Row → ℕ) (p q : Row → Bool) (t : List Row) {r s : Row}
      → IsUnique k t
      → find? p t ≡ some r
      → find? q t ≡ some s
      → k r ≡ k s
      → r ≡ s
  find?-unique k p q [] u e h same = cc
  find?-unique k p q (x ∷ t) {r} {s} u e h same = elim (Bool-cases (p x)) [
    | inl px ↦ elim (Bool-cases (q x)) [
      | inl qx ↦ sym (some-injective x r (rw px at e)) ∙ some-injective x s (rw qx at h)
      | inr nq ↦
          let here : x ≡ r = some-injective x r (rw px at e) in
          let other : k s ≢ k x = All-find? (λ y. k y ≢ k x) q t u.0 (rw nq at h) in
          absurd (other (sym same ∙ ap k (sym here)))
    ]
    | inr np ↦ elim (Bool-cases (q x)) [
      | inl qx ↦
          let here : x ≡ s = some-injective x s (rw qx at h) in
          let other : k r ≢ k x = All-find? (λ y. k y ≢ k x) p t u.0 (rw np at e) in
          absurd (other (same ∙ ap k (sym here)))
      | inr nq ↦ find?-unique k p q t u.1 (rw np at e) (rw nq at h) same
    ]
  ]

  -- A row that some search finds is found by its key.
  pub find?-key :
      (k : Row → ℕ) (p : Row → Bool) (t : List Row) {r : Row}
      → IsUnique k t
      → find? p t ≡ some r
      → find? (λ x. k x == k r) t ≡ some r
  find?-key k p [] u e = cc
  find?-key k p (x ∷ t) {r} u e = elim (Bool-cases (p x)) [
    | inl px ↦ let here : x ≡ r = some-injective x r (rw px at e) in rw here (ground arith)
    | inr np ↦
        let other : k r ≢ k x = All-find? (λ y. k y ≢ k x) p t u.0 (rw np at e) in
        let later : find? (λ y. k y == k r) t ≡ some r = find?-key k p t u.1 (rw np at e) in
        ground arith
  ]

  pub find?-at :
      (key : Row → ℕ) (u : ℕ) (t : List Row) {r : Row}
      → find? (λ x. key x == u) t ≡ some r
      → key r ≡ u
  find?-at key u t {r} e =
      let same : (key r == u) ≡ true = find?-holds (λ x. key x == u) t e in ground arith

  -- Only the row found by the key `u` is changed, seen through that key.
  pub find?-update :
      (key k : Row → ℕ) (f : Row → Row) (u v : ℕ) (t : List Row) {s : Row}
      → IsUnique k t
      → ((r : Row) → key (f r) ≡ key r)
      → find? (λ r. key r == u) t ≡ some s
      → find? (λ r. key r == v) (map (change (λ r. k r == k s) f) t)
        ≡ (if v == u then some (f s) else find? (λ r. key r == v) t)
  find?-update key k f u v t {s} uniq keep found =
      rw (find?-change (λ r. key r == v) (λ r. k r == k s) f t (λ r. ground (arith, keep r)))
        (elim (Option-cases (find? (λ r. key r == v) t)) [
          | inl missing ↦ elim (Bool-cases (v == u)) [
            | inl y ↦
                let e : u ≡ v = ground arith in
                let there = subst (λ w. find? (λ r. key r == w) t ≡ some s) e found in cc
            | inr n ↦ rw (missing, n) refl
          ]
          | inr (r, there) ↦
              let at_v : key r ≡ v = find?-at key v t there in
              let at_u : key s ≡ u = find?-at key u t found in
              rw there (elim (Bool-cases (k r == k s)) [
                | inl y ↦
                    let same : k r ≡ k s = ground arith in
                    let e : r ≡ s =
                      find?-unique k (λ x. key x == v) (λ x. key x == u) t uniq there found same in
                    rw e (let eq : v ≡ u = sym at_v ∙ ap key e ∙ at_u in ground arith)
                | inr n ↦ elim (Bool-cases (v == u)) [
                  | inl y ↦
                      let eq : v ≡ u = ground arith in
                      let two = subst (λ w. find? (λ x. key x == w) t ≡ some r) eq there in
                      let same : r ≡ s = some-injective r s (sym two ∙ found) in
                      let keys : k r ≡ k s = ap k same in ground arith
                  | inr m ↦ rw (n, m) refl
                ]
              ])
        ])

  All-change :
      (k : Row → ℕ) (q : Row → Bool) (f : Row → Row) (a : ℕ) (t : List Row)
      → ((r : Row) → k (f r) ≡ k r)
      → All (λ x. k x ≢ a) t
      → All (λ x. k x ≢ a) (map (change q f) t)
  All-change k q f a [] keep h = tt
  All-change k q f a (x ∷ t) keep h =
      (λ e. h.0 (sym (change-key (q x)) ∙ e), All-change k q f a t keep h.1)
    where
      change-key : (b : Bool) → k (if b then f x else x) ≡ k x
      change-key true = keep x
      change-key false = refl

  -- A change that keeps the key keeps its uniqueness.
  pub IsUnique-change :
      (k : Row → ℕ) (q : Row → Bool) (f : Row → Row) (t : List Row)
      → ((r : Row) → k (f r) ≡ k r)
      → IsUnique k t
      → IsUnique k (map (change q f) t)
  IsUnique-change k q f [] keep u = tt
  IsUnique-change k q f (x ∷ t) keep u = (
    subst (λ a. All (λ y. k y ≢ a) (map (change q f) t)) (sym (change-key (q x)))
        (All-change k q f (k x) t keep u.0),
    IsUnique-change k q f t keep u.1,
  )
    where
      change-key : (b : Bool) → k (if b then f x else x) ≡ k x
      change-key true = keep x
      change-key false = refl
