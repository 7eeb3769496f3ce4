-- ===== src/Category/Requests.antt =====
-- backend/src/modules/category/category.service.ts: the requests on categories, and the row that a request
-- finds for its user.
use mathlib.Core.Path.{subst}
use ai_planner.Prelude.{
  JsString, ℕ, some, find?, String, List, [], ◌∷◌, ◌≡◌, ◌≢◌, sym, ◌∙◌, inl, inr, arith, ◌==◌, ◌&&◌,
  Bool-cases, All, true,
}
use ai_planner.Prisma.Keys.{IsUnique}
use ai_planner.Prisma.Reads.{find?-holds, All-find?}
use ai_planner.Schema.{Store, Prisma, Category}
use ai_planner.Category.{CreateCategoryDto, UpdateCategoryDto, create, update, delete}

-- The requests on categories: each with the user who makes it.
pub data Operation : Type 0 where
  create_one : (new_id user_id : ℕ) → CreateCategoryDto → Operation
  update_one : (user_id category_id : ℕ) → UpdateCategoryDto → Operation
  delete_one : (user_id category_id : ℕ) → Operation

abbrev pub perform : Prisma → JsString → Operation → Store → Store
perform db js (create_one new_id user_id dto) st = (create db js new_id user_id dto st).1
perform db js (update_one user_id category_id dto) st = (update db js user_id category_id dto st).1
perform db js (delete_one user_id category_id) st = (delete db js user_id category_id st).1

module _ (i u : ℕ) (n color : String) where
  abbrev pub named : Category → Category
  named c = record c { name = n; color = color }

  -- Of the rows, the one with the id, if any, is of the user.
  unfoldable pub IsOwned : List Category → Type 0
  IsOwned t = All (λ c. c.id ≡ i → c.user_id ≡ u) t

  elsewhere-IsOwned : (t : List Category) → All (λ c. c.id ≢ i) t → IsOwned t
  unfolding IsOwned
  elsewhere-IsOwned [] h = tt
  elsewhere-IsOwned (c ∷ t) h = (λ e. absurd (h.0 e), elsewhere-IsOwned t h.1)

  pub found-IsOwned :
      (t : List Category) {c : Category}
      → IsUnique (λ x. x.id) t
      → find? (λ x. x.id == i && x.user_id == u) t ≡ some c
      → IsOwned t
  unfolding IsOwned
  found-IsOwned [] uniq e = tt
  found-IsOwned (x ∷ t) {c} uniq e = elim (Bool-cases (x.id == i && x.user_id == u)) [
    | inl y ↦
        let at_i : x.id ≡ i = ground arith in
        let at_u : x.user_id ≡ u = ground arith in
        (λ _. at_u, elsewhere-IsOwned t (subst (λ k. All (λ z. z.id ≢ k) t) at_i uniq.0))
    | inr m ↦
        let later : find? (λ z. z.id == i && z.user_id == u) t ≡ some c = rw m at e in
        let other : c.id ≢ x.id =
          All-find? (λ z. z.id ≢ x.id) (λ z. z.id == i && z.user_id == u) t uniq.0 later in
        let holds : (c.id == i && c.user_id == u) ≡ true =
          find?-holds (λ z. z.id == i && z.user_id == u) t later in
        let at_i : c.id ≡ i = ground arith in
        (λ same. absurd (other (at_i ∙ sym same)), found-IsOwned t uniq.1 later)
  ]
