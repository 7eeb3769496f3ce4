-- ===== src/Admin/Keeping.antt =====
-- backend/src/modules/admin/admin.service.ts: some administrator stays active.
use mathlib.Core.Path.{subst}
use mathlib.Core.Option.{some-injective}
use ai_planner.Prelude.{
  ℕ, suc, ◌+◌, ◌≤◌, ◌<◌, Bool, true, false, not, some, List, [], ◌∷◌, ◌≡◌, ◌≢◌, refl, sym, ap, ◌∙◌,
  ◌⊎◌, inl, inr, arith, All, find?, change, map, Bool-cases, Option-cases, ◌==◌, ◌&&◌, leb,
  if◌then◌else◌,
}
use ai_planner.Prisma.Keys.{IsUnique}
use ai_planner.Schema.{User, UserRole, Store, Prisma}
use ai_planner.Admin.{
  Requester, is_admin, is_active_admin, active_admins, update_user, update_user_role, suspend_user,
}

bit : Bool → ℕ
bit true = 1
bit false = 0

count-cons :
    (u : User) (t : List User) → active_admins (u ∷ t) ≡ bit (is_active_admin u) + active_admins t
unfolding bit
count-cons u t = elim (Bool-cases (is_active_admin u)) [
  | inl y ↦ rw y (omega arith)
  | inr n ↦ rw n (omega arith)
]

bit-le : (b : Bool) → bit b ≤ 1
unfolding bit
bit-le true = omega arith
bit-le false = omega arith

bit_mono : (b c : Bool) → (b ≡ true → c ≡ true) → bit b ≤ bit c
unfolding bit
bit_mono true true h = omega arith
bit_mono true false h = absurd (let e = h refl in cc)
bit_mono false c h = omega arith

-- The rows other than those with the id `i`.
apart-count :
    (i : ℕ) (f : User → User) (t : List User)
    → All (λ u. u.id ≢ i) t
    → active_admins (map (change (λ u. u.id == i) f) t) ≡ active_admins t
apart-count i f [] h = refl
apart-count i f (u ∷ t) h =
    let other = h.0 in
    let differ : (u.id == i) ≡ false = ground arith in
    rw differ (
      count-cons u (map (change (λ u. u.id == i) f) t)
      ∙ ap (λ n. bit (is_active_admin u) + n) (apart-count i f t h.1)
      ∙ sym (count-cons u t))

-- One row made another, where the others count as before.
head-count :
    (x y : User) (s t : List User)
    → active_admins s ≡ active_admins t
    → (active_admins (x ∷ t) ≤ suc (active_admins (y ∷ s)))
      × ((is_active_admin x ≡ true → is_active_admin y ≡ true)
          → active_admins (x ∷ t) ≤ active_admins (y ∷ s))
head-count x y s t e = (
  omega (arith, count-cons x t, count-cons y s, e, bit-le (is_active_admin x)),
  λ keeps. omega (
    arith,
    count-cons x t,
    count-cons y s,
    e,
    bit_mono (is_active_admin x) (is_active_admin y) keeps,
  ),
)

tail-count :
    (x : User) (s t : List User) {P : Type 0}
    → (active_admins t ≤ suc (active_admins s)) × (P → active_admins t ≤ active_admins s)
    → (active_admins (x ∷ t) ≤ suc (active_admins (x ∷ s)))
      × (P → active_admins (x ∷ t) ≤ active_admins (x ∷ s))
tail-count x s t h = (
  omega (arith, count-cons x t, count-cons x s, h.0),
  λ p. omega (arith, count-cons x t, count-cons x s, h.1 p),
)

-- Where ids are unique, a change of one row makes one administrator less at most, and none if the row
-- is not of an active one, or stays one.
change-count :
    (i : ℕ) (f : User → User) (t : List User) {u : User}
    → IsUnique (λ x. x.id) t
    → find? (λ x. x.id == i) t ≡ some u
    → (active_admins t ≤ suc (active_admins (map (change (λ x. x.id == i) f) t)))
      × ((is_active_admin u ≡ true → is_active_admin (f u) ≡ true)
          → active_admins t ≤ active_admins (map (change (λ x. x.id == i) f) t))
change-count i f [] uniq e = cc
change-count i f (x ∷ t) {u} uniq e = elim (Bool-cases (x.id == i)) [
  | inl y ↦
      let it : x ≡ u = some-injective x u (rw (y, find?) at e) in
      let at_i : x.id ≡ i = ground arith in
      let others = subst (λ k. All (λ z. z.id ≢ k) t) at_i uniq.0 in
      let h = head-count x (f x) (map (change (λ x. x.id == i) f) t) t (apart-count i f t others) in
      rw y (
        h.0,
        λ keeps.
            h.1
              (subst (λ w. is_active_admin w ≡ true → is_active_admin (f w) ≡ true) (sym it) keeps),
      )
  | inr n ↦
      let ih = change-count i f t uniq.1 (rw (n, find?) at e) in
      rw n (tail-count x (map (change (λ x. x.id == i) f) t) t ih)
]

-- What an administrator asks for.
pub data Operation : Type 0 where
  set_role : ℕ → UserRole → Operation
  set_suspended : ℕ → Bool → Operation

abbrev pub perform : Prisma → Requester → Operation → Store → Store
perform db requester (set_role user_id role) st = (update_user_role db user_id role requester st).1
perform db requester (set_suspended user_id suspended) st =
    (suspend_user db user_id suspended requester st).1

module _ (db : Prisma) (requester : Requester) where
  -- A request that is not refused: only with another active administrator does it take one away.
  update-HasAdmin :
      (i : ℕ) (f : User → User) (st : Store) {u : User}
      → IsUnique (λ x. x.id) st.users
      → find? (λ x. x.id == i) st.users ≡ some u
      → ((is_active_admin u ≡ true → is_active_admin (f u) ≡ true) ⊎ (1 < active_admins st.users))
      → 1 ≤ active_admins st.users
      → 1 ≤ active_admins (update_user db i f st).users
  update-HasAdmin i f st uniq found safe one =
      let (less, kept) = change-count i f st.users uniq found in
      rw (db.user.update_many-eq (λ x. x.id == i) f st.users) (elim safe [
        | inl keeps ↦ omega (arith, kept keeps, one)
        | inr more ↦ omega (arith, less, more)
      ])

  update_user_role-HasAdmin :
      (i : ℕ) (role : UserRole) (st : Store)
      → IsUnique (λ x. x.id) st.users
      → 1 ≤ active_admins st.users
      → 1 ≤ active_admins (update_user_role db i role requester st).1.users
  unfolding update_user_role
  update_user_role-HasAdmin i role st uniq one = elim (Bool-cases requester.admin_read_only) [
    | inl y ↦ rw y one
    | inr n ↦ rw n (elim (Bool-cases (requester.user_id == i)) [
      | inl self ↦ rw self one
      | inr other ↦
          rw (other, db.user.find_first-eq (λ u. u.id == i) st.users)
            (elim (Option-cases (find? (λ u. u.id == i) st.users)) [
              | inl missing ↦ rw missing one
              | inr (u, found) ↦
                  rw (found, db.user.find_many-eq is_active_admin st.users)
                    (elim (Bool-cases (
                      if is_admin u.role && u.is_suspended
                      then false
                      else is_admin u.role
                        && not (is_admin role)
                        && leb (active_admins st.users) 1)) [
                          | inl refused ↦ rw refused one
                          | inr allowed ↦ rw allowed (
                              update-HasAdmin i (λ x. record x { role = role }) st uniq found
                                (safe u allowed) one)
                        ])
            ])
    ])
  ]
    where
      safe :
          (u : User)
          → (if is_admin u.role && u.is_suspended
              then false
              else is_admin u.role && not (is_admin role) && leb (active_admins st.users) 1)
            ≡ false
          → (is_active_admin u ≡ true → is_active_admin (record u { role = role }) ≡ true)
            ⊎ (1 < active_admins st.users)
      safe u allowed = elim (Bool-cases (leb (active_admins st.users) 1)) [
        | inl few ↦ inl (λ is. ground arith)
        | inr many ↦ inr (ground arith)
      ]

  suspend_user-HasAdmin :
      (i : ℕ) (suspended : Bool) (st : Store)
      → IsUnique (λ x. x.id) st.users
      → 1 ≤ active_admins st.users
      → 1 ≤ active_admins (suspend_user db i suspended requester st).1.users
  unfolding suspend_user
  suspend_user-HasAdmin i suspended st uniq one = elim (Bool-cases requester.admin_read_only) [
    | inl y ↦ rw y one
    | inr n ↦ rw n (elim (Bool-cases (requester.user_id == i)) [
      | inl self ↦ rw self one
      | inr other ↦
          rw (other, db.user.find_first-eq (λ u. u.id == i) st.users)
            (elim (Option-cases (find? (λ u. u.id == i) st.users)) [
              | inl missing ↦ rw missing one
              | inr (u, found) ↦
                  rw (found, db.user.find_many-eq is_active_admin st.users)
                    (elim (Bool-cases (
                      is_admin u.role
                      && not u.is_suspended
                      && suspended
                      && leb (active_admins st.users) 1)) [
                        | inl refused ↦ rw refused one
                        | inr allowed ↦ rw allowed (
                            update-HasAdmin i (λ x. record x { is_suspended = suspended }) st uniq
                              found (safe u allowed) one)
                      ])
            ])
    ])
  ]
    where
      safe :
          (u : User)
          → (is_admin u.role && not u.is_suspended && suspended && leb (active_admins st.users) 1)
            ≡ false
          → (is_active_admin u ≡ true
              → is_active_admin (record u { is_suspended = suspended }) ≡ true)
            ⊎ (1 < active_admins st.users)
      safe u allowed = elim (Bool-cases (leb (active_admins st.users) 1)) [
        | inl few ↦ inl (λ is. ground arith)
        | inr many ↦ inr (ground arith)
      ]

-- Whoever asks, to change a role or to suspend a user or let one back in: where ids are unique and an
-- administrator is active, one is active afterwards.
pub perform-HasAdmin :
    (db : Prisma) (requester : Requester) (op : Operation) (st : Store)
    → IsUnique (λ u. u.id) st.users
    → 1 ≤ active_admins st.users
    → 1 ≤ active_admins (perform db requester op st).users
perform-HasAdmin db requester (set_role i role) st uniq one =
    update_user_role-HasAdmin db requester i role st uniq one
perform-HasAdmin db requester (set_suspended i suspended) st uniq one =
    suspend_user-HasAdmin db requester i suspended st uniq one
