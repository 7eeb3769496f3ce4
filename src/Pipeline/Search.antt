-- ===== src/Pipeline/Search.antt =====
-- backend/src/modules/ai/steps/search-places.step.ts: the search for places. What the services of Naver
-- and Kakao find enters as `Searches`; that queries run three at a time does not change what is found.
use ai_planner.Prelude.{
  ℕ, Bool, true, false, not, String, Option, none, some, List, [], ◌∷◌, ◌++◌, map, any, length,
  take, if◌then◌else◌, ltb, str_eq, ◌&&◌, is_empty, without_spaces, includes_text, append_text,
  unique_texts, Result, ok, err,
}
use ai_planner.Schema.{HttpError, bad_request}
use ai_planner.Pipeline.Places.{
  PlaceType, food, cafe, activity, attraction, rest, PlaceResult, ActivitySubtype, ActivityIntent,
}
use ai_planner.Pipeline.Registry.{squash, build_activity_queries}

-- `searchNearby` and `searchNearbyKakao` of PlacesService: a query, the type for the former, and the
-- number of results asked for.
pub record Searches : Type 0 where
  pub search_nearby : String → PlaceType → ℕ → List PlaceResult
  pub search_nearby_kakao : String → ℕ → List PlaceResult

abbrev pub fallback_queries : PlaceType → String
fallback_queries attraction = "관광지 명소 볼거리"
fallback_queries rest = "공원 산책"
fallback_queries activity = "체험 놀거리"
fallback_queries cafe = "카페"
fallback_queries food = "맛집"

abbrev pub max_results_per_source : ℕ
max_results_per_source = 10

abbrev pub max_merged_results : ℕ
max_merged_results = 20

abbrev pub generic_food_slot_queries : List String
generic_food_slot_queries =
    "맛집" ∷ "한식" ∷ "일식" ∷ "중식" ∷ "양식" ∷ "고기" ∷ "해산물" ∷ "치킨" ∷ "저녁 맛집" ∷ "점심 맛집" ∷ "브런치 카페" ∷ []

abbrev pub or_empty : Option String → String
or_empty none = ""
or_empty (some s) = s

abbrev pub is_movie_slot : ActivityIntent → Bool
is_movie_slot a =
    includes_text
      (without_spaces (append_text (or_empty a.slot_query) (append_text " " a.naver_query))) "영화"

abbrev pub is_food : PlaceType → Bool
is_food food = true
is_food _ = false

abbrev pub with_location : String → String → String
with_location location query = append_text location (append_text " " query)

abbrev pub menu_queries : String → List String → List String
menu_queries location [] = []
menu_queries location (keyword ∷ keywords) =
    with_location location keyword
    ∷ with_location location (append_text keyword " 맛집")
    ∷ menu_queries location keywords

-- A slot that asks for a certain food
abbrev pub is_specific : Option String → Bool
is_specific none = false
is_specific (some q) = not (is_empty q) && not (any (λ g. str_eq g q) generic_food_slot_queries)

unfoldable pub build_queries : ActivityIntent → String → List String → List String
build_queries a location preferences = elim a.subtype [
  | some subtype ↦ build_activity_queries location subtype (some a.naver_query)
  | none ↦
      if is_movie_slot a
      then a.naver_query ∷ map (with_location location) ("영화관" ∷ "CGV" ∷ "메가박스" ∷ "롯데시네마" ∷ [])
      else if not (is_food a.kind && ltb 0 (length preferences))
      then a.naver_query ∷ []
      else if a.order_locked
      then a.naver_query ∷ []
      else if is_specific a.slot_query
      then a.naver_query ∷ []
      else unique_texts (menu_queries location preferences ++ (a.naver_query ∷ []))
]

abbrev pub has_subtype : Option ActivitySubtype → Bool
has_subtype none = false
has_subtype (some _) = true

abbrev pub display_of : ActivityIntent → ℕ
display_of a =
    if has_subtype a.subtype then 8 else if is_movie_slot a then 8 else max_results_per_source

-- The places merged so far, and the keys of them.
pub record Merged : Type 0 where
  pub places : List PlaceResult
  pub seen : List String

module _ (lower : String → String) where
  abbrev pub place_key : PlaceResult → String
  place_key p = squash lower p.name

  -- `pushIfNew` of `mergeSources`
  abbrev pub push_if_new : PlaceResult → Merged → Merged
  push_if_new p m =
      if any (λ k. str_eq k (place_key p)) m.seen
      then m
      else record { places = m.places ++ (p ∷ []); seen = place_key p ∷ m.seen }

  -- The loop over the two lists at once, until there are 20 places.
  unfoldable pub merge_from : List PlaceResult → List PlaceResult → Merged → Merged
  merge_from [] [] m = m
  merge_from (n ∷ ns) [] m =
      let next = merge_from ns [] (push_if_new n m) in
      if ltb (length m.places) max_merged_results then next else m
  merge_from [] (a ∷ as_) m =
      let next = merge_from [] as_ (push_if_new a m) in
      if ltb (length m.places) max_merged_results then next else m
  merge_from (n ∷ ns) (a ∷ as_) m =
      let next = merge_from ns as_ (push_if_new a (push_if_new n m)) in
      if ltb (length m.places) max_merged_results then next else m

  unfoldable pub merge_sources : List PlaceResult → List PlaceResult → List PlaceResult
  unfolding merge_from
  merge_sources naver_places ai_places =
      take max_merged_results
        (merge_from naver_places ai_places (record { places = []; seen = [] })).places

  module _ (searches : Searches) where
    abbrev pub search_naver_places : String → String → PlaceType → ℕ → List PlaceResult
    search_naver_places location query kind display =
        let results = searches.search_nearby query kind display in
        let retry =
          searches.search_nearby (with_location location (fallback_queries kind)) kind display in
        if ltb 0 (length results) then results else retry

    abbrev pub search_naver_all : String → PlaceType → ℕ → List String → List PlaceResult
    search_naver_all location kind display [] = []
    search_naver_all location kind display (query ∷ queries) =
        search_naver_places location query kind display
        ++ search_naver_all location kind display queries

    abbrev pub search_kakao_all : ℕ → List String → List PlaceResult
    search_kakao_all display [] = []
    search_kakao_all display (query ∷ queries) =
        searches.search_nearby_kakao query display ++ search_kakao_all display queries

    -- The body of the loop over the activities: the places of a slot
    abbrev pub places_of : String → List String → ActivityIntent → List PlaceResult
    places_of location preferences a =
        let queries = build_queries a location preferences in
        merge_sources (merge_sources (search_naver_all location a.kind (display_of a) queries) [])
          (merge_sources [] (search_kakao_all (display_of a) queries))

    -- `ctx.rawPlaces`: the places by slot. The ids of slots are distinct.
    abbrev pub raw_places : String → List String → List ActivityIntent → List (ℕ × List PlaceResult)
    raw_places location preferences [] = []
    raw_places location preferences (a ∷ rest_of) =
        (a.slot_id, places_of location preferences a) ∷ raw_places location preferences rest_of

    abbrev pub is_bare : List (ℕ × List PlaceResult) → Bool
    is_bare [] = true
    is_bare (e ∷ t) = not (ltb 0 (length e.1)) && is_bare t

    unfoldable pub search_places :
        String → List String → List ActivityIntent → Result HttpError (List (ℕ × List PlaceResult))
    search_places location preferences activities =
        let found = raw_places location preferences activities in
        if is_bare found then err bad_request else ok found
