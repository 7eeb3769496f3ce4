-- ===== src/Category/Tests.antt =====
-- backend/src/modules/category/category.service.ts, on a small database.
use ai_planner.Prelude.{some, none, [], ◌∷◌, ◌≡◌, refl, ok, err, map, arith, select, not, ◌==◌, All}
use ai_planner.Prisma.Keys.{IsUnique}
use ai_planner.Samples.{memory, plain, store, shared_plan, own_plan}
use ai_planner.Schema.{Category, Store, conflict, not_found}
use ai_planner.Category.{UpdateCategoryDto, create, update, delete}
use ai_planner.Category.Requests.{delete_one, perform}
use ai_planner.Category.Ownership.{IsLeft, perform_own}

abbrev dates : Category
dates = record { id = 1; user_id = 1; name = "dates"; color = "#6366f1" }

abbrev trips : Category
trips = record { id = 2; user_id = 1; name = "trips"; color = "#6366f1" }

abbrev work : Category
work = record { id = 3; user_id = 2; name = "dates"; color = "#6366f1" }

abbrev sorted : Store
sorted = record store { categories = dates ∷ trips ∷ work ∷ [] }

abbrev rename : UpdateCategoryDto
rename = record { name = some "walks"; color = none }

name_taken :
    (create memory plain 4 2 (record { name = "dates"; color = none }) sorted).0 ≡ err conflict
unfolding create
name_taken = refl

color_default :
    (create memory plain 4 2 (record { name = "trips"; color = some "" }) sorted).0
    ≡ ok (record { id = 4; user_id = 2; name = "trips"; color = "#6366f1" })
unfolding create
color_default = refl

not_own : (update memory plain 2 1 rename sorted).0 ≡ err not_found
unfolding update
not_own = refl

renamed :
    map (λ (c : Category). c.name) (update memory plain 1 1 rename sorted).1.categories
    ≡ "walks" ∷ "trips" ∷ "dates" ∷ []
unfolding update
renamed = refl

deleted : (delete memory plain 1 1 sorted).1.categories ≡ trips ∷ work ∷ []
unfolding delete
deleted = refl

abbrev filed : Store
filed = record sorted {
  plans =
      record shared_plan { category_id = some 1 } ∷ record own_plan { category_id = some 3 } ∷ [];
}

unique_ids : IsUnique (λ c. c.id) sorted.categories
unique_ids = ground arith

perform_own_example :
    let st' = perform memory plain (delete_one 1 1) filed in
    (select (λ c. not (c.user_id == 1)) st'.categories ≡ work ∷ [])
    × All (IsLeft 1 filed st') filed.plans
perform_own_example = perform_own memory plain (delete_one 1 1) filed unique_ids
