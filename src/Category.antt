-- ===== src/Category.antt =====
-- backend/src/modules/category/category.service.ts: `CategoryService`. The id of a new row is an
-- argument.
pub mod Requests
pub mod Ownership
mod Tests
use ai_planner.Prelude.{
  JsString, ℕ, Bool, true, false, String, Option, none, some, List, any, pure, gets, modify,
  throw_if, or_throw, str_eq, some_is, ◌>>=◌, ◌>>◌, if◌then◌else◌, ◌==◌, ◌&&◌, not,
}
use ai_planner.Schema.{Category, Plan, Store, Prisma, not_found, conflict}
use ai_planner.Payment.Subscriptions.{Call}

pub record CreateCategoryDto : Type 0 where
  pub name : String
  pub color : Option String

pub record UpdateCategoryDto : Type 0 where
  pub name : Option String
  pub color : Option String

-- `dto.color?.trim() || '#6366f1'`: an empty text counts as none
abbrev pub or_default : JsString → Option String → String
or_default js none = "#6366f1"
or_default js (some color) = if str_eq (js.trim color) "" then "#6366f1" else js.trim color

-- `text?.trim() ?? current`
abbrev pub or_existing : JsString → Option String → String → String
or_existing js none current = current
or_existing js (some text) current = js.trim text

-- The key of `@@unique([userId, name])`
abbrev pub is_named : ℕ → String → Category → Bool
is_named user_id name c = c.user_id == user_id && str_eq c.name name

-- The database refuses a write after which another row would have the key (P2002).
abbrev pub is_taken : (Category → Bool) → ℕ → String → List Category → Bool
is_taken itself user_id name t = any (λ c. is_named user_id name c && not (itself c)) t

module _ (db : Prisma) (js : JsString) where
  unfoldable pub create : ℕ → ℕ → CreateCategoryDto → Call Category
  create new_id user_id dto = do
    let c : Category = record {
      id = new_id;
      user_id = user_id;
      name = js.trim dto.name;
      color = or_default js dto.color;
    }
    taken ← gets (λ st. is_taken (λ _. false) user_id c.name st.categories)
    throw_if taken conflict
    modify (λ st. record st { categories = db.category.create c st.categories })
    pure c

  unfoldable pub update : ℕ → ℕ → UpdateCategoryDto → Call Category
  update user_id category_id dto = do
    found ← gets (λ st.
        db.category.find_first (λ c. c.id == category_id && c.user_id == user_id) st.categories)
    existing ← or_throw found not_found
    let name = or_existing js dto.name existing.name
    let color = or_existing js dto.color existing.color
    taken ← gets (λ st. is_taken (λ c. c.id == category_id) existing.user_id name st.categories)
    throw_if taken conflict
    modify (λ st. record st {
      categories =
          db.category.update_many (λ c. c.id == category_id)
            (λ c. record c { name = name; color = color }) st.categories;
    })
    pure (record existing { name = name; color = color })

  -- The foreign key of the plans has `onDelete: SetNull`.
  unfoldable pub delete : ℕ → ℕ → Call (Unit {0})
  delete user_id category_id = do
    found ← gets (λ st.
        db.category.find_first (λ c. c.id == category_id && c.user_id == user_id) st.categories)
    existing ← or_throw found not_found
    modify (λ st. record st {
      categories = db.category.delete_many (λ c. c.id == category_id) st.categories;
      plans =
          db.plan.update_many (λ p. some_is p.category_id category_id)
            (λ p. record p { category_id = none }) st.plans;
    })
