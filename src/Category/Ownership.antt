-- ===== src/Category/Ownership.antt =====
-- backend/src/modules/category/category.service.ts: what the calls of a user leave alone.

use ai_planner.Prelude.{
  JsString, ℕ, Bool, true, Option, none, some, String, find?, List, [], ◌∷◌, map, ◌≡◌, refl, ap,
  ◌∙◌, inl, inr, ◌⊎◌, arith, ◌==◌, ◌&&◌, not, some_is, select, change, Bool-cases, Option-cases,
  All, All_of_In, In, In-map,
}
use ai_planner.Prisma.Keys.{IsUnique}
use ai_planner.Prisma.Reads.{find?-holds}
use ai_planner.Schema.{Store, Prisma, Category, Plan}
use ai_planner.Category.{
  CreateCategoryDto, UpdateCategoryDto, create, update, delete, is_taken, or_existing, or_default,
}
use ai_planner.Category.Requests.{
  Operation, create_one, update_one, delete_one, perform, IsOwned, found-IsOwned, named,
}

abbrev pub user_of : Operation → ℕ
user_of (create_one new_id user_id dto) = user_id
user_of (update_one user_id category_id dto) = user_id
user_of (delete_one user_id category_id) = user_id

-- A plan is as it was, or it has only lost a category of the user that is gone.
abbrev pub IsLeft : ℕ → Store → Store → Plan → Type 0
IsLeft user_id st st' p =
    In p st'.plans
    ⊎ ((c : Category) × In c st.categories
        × (c.user_id ≡ user_id)
        × (p.category_id ≡ some c.id)
        × In (record p { category_id = none }) st'.plans)

filed_in : (o : Option ℕ) (n : ℕ) → some_is o n ≡ true → o ≡ some n
filed_in none n h = cc
filed_in (some m) n h = ap some (ground arith)

find?-In : {A : Type 0} (p : A → Bool) (t : List A) {x : A} → find? p t ≡ some x → In x t
find?-In p [] e = cc
find?-In p (y ∷ t) e = elim (Bool-cases (p y)) [
  | inl h ↦ let here = rw h at e in inl (ground arith)
  | inr n ↦ let later = rw n at e in inr (find?-In p t later)
]

module _ (i u : ℕ) (n color : String) where
  others-change :
      (t : List Category)
      → IsOwned i u n color t
      → select (λ c. not (c.user_id == u)) (map (change (λ c. c.id == i) (named i u n color)) t)
        ≡ select (λ c. not (c.user_id == u)) t
  unfolding IsOwned
  others-change [] own = refl
  others-change (c ∷ t) own = elim (Bool-cases (c.id == i)) [
    | inl y ↦
        let mine : (c.user_id == u) ≡ true = let at_u = own.0 (ground arith) in ground arith in
        rw (y, mine) (others-change t own.1)
    | inr d ↦ rw d (elim (Bool-cases (c.user_id == u)) [
      | inl mine ↦ rw mine (others-change t own.1)
      | inr other ↦ rw other (ap (λ s. c ∷ s) (others-change t own.1))
    ])
  ]

  others-delete :
      (t : List Category)
      → IsOwned i u n color t
      → select (λ c. not (c.user_id == u)) (select (λ c. not (c.id == i)) t)
        ≡ select (λ c. not (c.user_id == u)) t
  unfolding IsOwned
  others-delete [] own = refl
  others-delete (c ∷ t) own = elim (Bool-cases (c.id == i)) [
    | inl y ↦
        let mine : (c.user_id == u) ≡ true = let at_u = own.0 (ground arith) in ground arith in
        rw (y, mine) (others-delete t own.1)
    | inr d ↦ rw d (elim (Bool-cases (c.user_id == u)) [
      | inl mine ↦ rw mine (others-delete t own.1)
      | inr other ↦ rw other (ap (λ s. c ∷ s) (others-delete t own.1))
    ])
  ]

-- What a call of the user has done to the categories and the plans.
abbrev Respects : ℕ → Store → Store → Type 0
Respects user_id st st' =
    (select (λ c. not (c.user_id == user_id)) st'.categories
      ≡ select (λ c. not (c.user_id == user_id)) st.categories)
    × All (IsLeft user_id st st') st.plans

kept : (user_id : ℕ) (st st' : Store) → st'.plans ≡ st.plans → All (IsLeft user_id st st') st.plans
kept user_id st st' same = All_of_In (IsLeft user_id st st') st.plans (λ p at_p. inl (rw same at_p))

module _ (db : Prisma) (js : JsString) where
  create-Respects :
      (new_id user_id : ℕ) (dto : CreateCategoryDto) (st : Store)
      → Respects user_id st (create db js new_id user_id dto st).1
  unfolding create
  create-Respects new_id user_id dto st =
      let c : Category = record {
        id = new_id;
        user_id = user_id;
        name = js.trim dto.name;
        color = or_default js dto.color;
      } in
      elim (Bool-cases (is_taken (λ _. Bool.false) user_id c.name st.categories)) [
        | inl y ↦ rw y (refl, kept user_id st st refl)
        | inr free ↦
            rw (free, db.category.create-eq c st.categories)
              (ground arith, kept user_id st (record st { categories = c ∷ st.categories }) refl)
      ]

  update-Respects :
      (user_id category_id : ℕ) (dto : UpdateCategoryDto) (st : Store)
      → IsUnique (λ c. c.id) st.categories
      → Respects user_id st (update db js user_id category_id dto st).1
  unfolding update
  update-Respects user_id category_id dto st uniq =
      let t = st.categories in
      let mine = λ (c : Category). c.id == category_id && c.user_id == user_id in
      let it = λ (c : Category). c.id == category_id in
      rw (db.category.find_first-eq mine t) (elim (Option-cases (find? mine t)) [
        | inl e ↦ rw e (refl, kept user_id st st refl)
        | inr (c, e) ↦
            let n = or_existing js dto.name c.name in
            let color = or_existing js dto.color c.color in
            rw e (elim (Bool-cases (is_taken it c.user_id n t)) [
              | inl y ↦ rw y (refl, kept user_id st st refl)
              | inr free ↦
                  rw (free, db.category.update_many-eq it (named category_id user_id n color) t)
                    (
                      others-change category_id user_id n color t
                          (found-IsOwned category_id user_id n color t uniq e),
                      kept user_id st
                          (record st {
                            categories = map (change it (named category_id user_id n color)) t;
                          })
                          refl,
                    )
            ])
      ])

  delete-Respects :
      (user_id category_id : ℕ) (st : Store)
      → IsUnique (λ c. c.id) st.categories
      → Respects user_id st (delete db js user_id category_id st).1
  unfolding delete
  delete-Respects user_id category_id st uniq =
      let t = st.categories in
      let mine = λ (c : Category). c.id == category_id && c.user_id == user_id in
      let it = λ (c : Category). c.id == category_id in
      let filed = λ (p : Plan). some_is p.category_id category_id in
      let free = λ (p : Plan). record p { category_id = none } in
      rw (db.category.find_first-eq mine t) (elim (Option-cases (find? mine t)) [
        | inl e ↦ rw e (refl, kept user_id st st refl)
        | inr (c, e) ↦
            let holds : mine c ≡ true = find?-holds mine t e in
            rw (e, db.category.delete_many-eq it t, db.plan.update_many-eq filed free st.plans)
              (
                others-delete category_id user_id c.name c.color t
                    (found-IsOwned category_id user_id c.name c.color t uniq e),
                All_of_In _ st.plans (λ p at_p.
                    let moved = In-map (change filed free) p st.plans at_p in
                    elim (Bool-cases (filed p)) [
                      | inl y ↦ inr (
                        c,
                        find?-In mine t e,
                        ground arith,
                        filed_in p.category_id category_id y ∙ ap some (ground arith),
                        rw y at moved,
                      )
                      | inr n ↦ inl (rw n at moved)
                    ]),
              )
      ])

-- If ids are unique, a request of a user to create, update or delete a category, whether it succeeds or
-- is refused, leaves the categories of all others as they are, and each plan too: but for the plans
-- in a category of the user, which may only lose it.
pub perform_own :
    (db : Prisma) (js : JsString) (op : Operation) (st : Store)
    → IsUnique (λ c. c.id) st.categories
    → let st' = perform db js op st in
      let user_id = user_of op in
      (select (λ c. not (c.user_id == user_id)) st'.categories
        ≡ select (λ c. not (c.user_id == user_id)) st.categories)
      × All (IsLeft user_id st st') st.plans
perform_own db js (create_one new_id user_id dto) st uniq =
    create-Respects db js new_id user_id dto st
perform_own db js (update_one user_id category_id dto) st uniq =
    update-Respects db js user_id category_id dto st uniq
perform_own db js (delete_one user_id category_id) st uniq =
    delete-Respects db js user_id category_id st uniq
