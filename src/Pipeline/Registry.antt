-- ===== src/Pipeline/Registry.antt =====
-- backend/src/modules/ai/utils/activity-registry.ts: what is searched for an activity, and which places
-- are of its kind. `lower` is `toLowerCase`.
use ai_planner.Prelude.{
  Bool, true, false, String, Option, none, some, List, [], ◌∷◌, map, any, if◌then◌else◌, is_empty,
  trim, without_spaces, includes_text, append_text, unique_texts,
}
use ai_planner.Pipeline.Places.{PlaceResult, ActivitySubtype}
use ai_planner.Pipeline.Definitions.{ActivityDefinition, definition_of, all_definitions}

abbrev pub get_activity_definition : Option ActivitySubtype → Option ActivityDefinition
get_activity_definition none = none
get_activity_definition (some s) = some (definition_of s)

-- `[...new Set(queries)]` of the queries of a place
abbrev pub build_activity_queries : String → ActivitySubtype → Option String → List String
build_activity_queries location subtype fallback_base =
    let queries =
      map (λ query. trim (append_text location (append_text " " query)))
        (definition_of subtype).search_queries in
    elim fallback_base [
      | none ↦ unique_texts queries
      | some base ↦ unique_texts (if is_empty (trim base) then queries else trim base ∷ queries)
    ]

abbrev pub is_strict_activity_subtype : Option ActivitySubtype → Bool
is_strict_activity_subtype none = false
is_strict_activity_subtype (some s) = (definition_of s).strict_matching

module _ (lower : String → String) where
  -- `normalize`, the same as `normalizePlaceKey` and `normalizeText` of other files
  abbrev pub squash : String → String
  squash text = lower (without_spaces text)

  abbrev pub first_subtype : String → List ActivityDefinition → Option ActivitySubtype
  first_subtype text [] = none
  first_subtype text (d ∷ ds) =
      if any (λ keyword. includes_text text (squash keyword)) d.synonyms
      then some d.subtype
      else first_subtype text ds

  unfoldable pub resolve_activity_subtype : String → Option ActivitySubtype
  resolve_activity_subtype raw = first_subtype (squash raw) all_definitions

  -- `${place.name} ${place.category} ${place.address}`, normalized
  abbrev pub text_of_place : PlaceResult → String
  text_of_place p =
      squash
        (append_text p.name (append_text " " (append_text p.category (append_text " " p.address))))

  abbrev pub has_keyword : List String → String → Bool
  has_keyword keywords text = any (λ keyword. includes_text text (squash keyword)) keywords

  unfoldable pub matches_activity_place : PlaceResult → Option ActivitySubtype → Bool
  matches_activity_place p subtype = elim (get_activity_definition subtype) [
    | none ↦ true
    | some d ↦
        if has_keyword d.reject_keywords (text_of_place p)
        then false
        else has_keyword d.allow_keywords (text_of_place p)
  ]

  -- Whether the bonus for a preferred brand is given.
  unfoldable pub has_preferred_brand : PlaceResult → Option ActivitySubtype → Bool
  has_preferred_brand p subtype = elim (get_activity_definition subtype) [
    | none ↦ false
    | some d ↦
        has_keyword d.preferred_brands (squash (append_text p.name (append_text " " p.category)))
  ]
