-- ===== src/Pipeline/Diversity.antt =====
-- backend/src/modules/ai/utils/place-diversity.util.ts: the places that earlier plans had. A table of
-- counts is the list of its entries, the newest first; `lower` is `toLowerCase`.
use ai_planner.Prelude.{
  ℕ, suc, Bool, any, String, Option, List, [], ◌∷◌, find?, if◌then◌else◌, str_eq, includes_text,
}
use ai_planner.Pipeline.Registry.{squash}

abbrev pub Counts : Type 0
Counts = List (String × ℕ)

-- The names that a table `{}` has from `Object.prototype`.
abbrev pub inherited : List String
inherited =
    "constructor" ∷ "hasOwnProperty" ∷ "isPrototypeOf" ∷ "propertyIsEnumerable" ∷ "toLocaleString"
    ∷ "toString" ∷ "valueOf" ∷ "__defineGetter__" ∷ "__defineSetter__" ∷ "__lookupGetter__"
    ∷ "__lookupSetter__" ∷ "__proto__" ∷ []

abbrev pub is_inherited : String → Bool
is_inherited key = any (λ name. str_eq name key) inherited

abbrev pub own_count : String → Counts → ℕ
own_count key [] = 0
own_count key (e ∷ t) = if str_eq e.0 key then e.1 else own_count key t

-- `counts[key] ?? 0`. What an inherited name reads is never a number: a function or an object, or the
-- text that adding 1 to it has made. The code only asks whether it is above 0, which it is not, so
-- that 0 stands for it.
abbrev pub count_of_key : String → Counts → ℕ
count_of_key key t = if is_inherited key then 0 else own_count key t

-- `counts[key] = (counts[key] ?? 0) + 1`; under an inherited name this stores no number.
abbrev pub count_once_more : String → Counts → Counts
count_once_more key t = if is_inherited key then t else (key, suc (own_count key t)) ∷ t

pub record DiversityHistory : Type 0 where
  pub place_counts : Counts
  pub chain_counts : Counts

abbrev pub create_empty_diversity_history : DiversityHistory
create_empty_diversity_history = record { place_counts = []; chain_counts = [] }

abbrev pub chain_brands : List String
chain_brands = "스타벅스" ∷ "이디야" ∷ "투썸" ∷ "빽다방" ∷ "커피빈" ∷ "메가커피" ∷ "탐앤탐스" ∷ "할리스" ∷ []

module _ (lower : String → String) where
  -- `normalizePlaceKey`
  abbrev pub normalize_place_key : String → String
  normalize_place_key name = squash lower name

  abbrev pub get_chain_brand : String → Option String
  get_chain_brand name =
      find? (λ brand. includes_text (normalize_place_key name) (normalize_place_key brand))
        chain_brands
