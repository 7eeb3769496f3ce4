-- ===== src/Pipeline/Scoring.antt =====
-- backend/src/modules/ai/steps/select-candidates.step.ts: the score of a place, and its type. Floats are
-- bit patterns, and what is computed of them is a parameter; `lit m d` is the float next to m / d.
use ai_planner.Prelude.{
  ℕ, ◌-◌, Bool, true, false, not, String, Option, none, some, List, [], ◌∷◌, any, if◌then◌else◌,
  ltb, is_some, is_empty, includes_text, ◌&&◌, ◌||◌,
}
use ai_planner.Schema.{Mode}
use ai_planner.Pipeline.Places.{
  food, cafe, activity, attraction, rest, PlaceResult, naver, kakao, ai, ActivitySubtype,
  ActivityIntent,
}
use ai_planner.Pipeline.Registry.{
  squash, text_of_place, matches_activity_place, has_preferred_brand,
}
use ai_planner.Pipeline.Diversity.{
  DiversityHistory, normalize_place_key, get_chain_brand, count_of_key,
}

pub record Floats : Type 0 where
  pub lit : ℕ → ℕ → ℕ
  pub add : ℕ → ℕ → ℕ
  pub sub : ℕ → ℕ → ℕ
  pub mul : ℕ → ℕ → ℕ
  pub div : ℕ → ℕ → ℕ
  pub max : ℕ → ℕ → ℕ
  pub min : ℕ → ℕ → ℕ
  pub lt : ℕ → ℕ → Bool
  pub le : ℕ → ℕ → Bool
  -- haversine.ts: lat1, lng1, lat2, lng2
  pub haversine : ℕ → ℕ → ℕ → ℕ → ℕ

abbrev pub is_date : Mode → Bool
is_date Mode.date = true
is_date Mode.trip = false

pub record Wishes : Type 0 where
  pub mode : Mode
  pub preferences : List String
  pub chain_penalty : Bool
  pub compact_route : Bool
  pub history : DiversityHistory

abbrev pub cafe_keywords : List String
cafe_keywords =
    "카페" ∷ "커피" ∷ "디저트" ∷ "베이커리" ∷ "빵집" ∷ "케이크" ∷ "아이스크림" ∷ "주스" ∷ "스무디" ∷ "티" ∷ "라떼" ∷ "에이드" ∷ []

abbrev pub food_keywords : List String
food_keywords =
    "식당" ∷ "맛집" ∷ "한식" ∷ "중식" ∷ "일식" ∷ "양식" ∷ "고기" ∷ "해장국" ∷ "국밥" ∷ "감자탕" ∷ "설렁탕" ∷ "탕" ∷ "찌개"
    ∷ "전골" ∷ "파스타" ∷ "피자" ∷ "치킨" ∷ "버거" ∷ "스테이크" ∷ "초밥" ∷ "회" ∷ "스시" ∷ "라멘" ∷ "분식" ∷ "곱창" ∷ "막창"
    ∷ "갈비" ∷ "삼겹살" ∷ "백반" ∷ "한정식" ∷ "국수" ∷ "이자카야" ∷ "술집" ∷ "와인바" ∷ "펍" ∷ []

module _ (fl : Floats) (lower : String → String) where
  abbrev pub whole : ℕ → ℕ
  whole n = fl.lit n 1

  abbrev pub base_score : PlaceResult → ℕ
  base_score p = elim p.source [
    | none ↦ fl.lit 85 100
    | some s ↦ elim s [ naver ↦ whole 1 | kakao ↦ whole 1 | ai ↦ fl.lit 85 100 ]
  ]

  abbrev pub divisor_of : Wishes → ℕ
  divisor_of w =
      if w.compact_route
      then (if is_date w.mode then whole 2 else whole 3)
      else if is_date w.mode
      then whole 4
      else whole 6

  abbrev pub preference_bonus : PlaceResult → List String → ℕ → ℕ
  preference_bonus p [] bonus = bonus
  preference_bonus p (keyword ∷ keywords) bonus =
      let normalized = squash lower keyword in
      preference_bonus p keywords (
        if is_empty normalized
        then bonus
        else if includes_text (squash lower p.name) normalized
        then fl.add bonus (fl.lit 8 10)
        else if includes_text (squash lower p.category) normalized
        then fl.add bonus (fl.lit 45 100)
        else if includes_text (squash lower p.address) normalized
        then fl.add bonus (fl.lit 2 10)
        else bonus)

  abbrev pub repeat_penalty : Wishes → PlaceResult → ℕ
  repeat_penalty w p =
      let count = count_of_key (normalize_place_key lower p.name) w.history.place_counts in
      if ltb 0 count
      then fl.min (fl.lit 25 10)
          (fl.add (fl.lit 15 10) (fl.mul (whole (count - 1)) (fl.lit 25 100)))
      else whole 0

  abbrev pub chain_repeat_penalty : Wishes → PlaceResult → ℕ
  chain_repeat_penalty w p = elim (get_chain_brand lower p.name) [
    | none ↦ whole 0
    | some brand ↦
        if ltb 0 (count_of_key brand w.history.chain_counts) then fl.lit 6 10 else whole 0
  ]

  -- `place.link`, as a condition
  abbrev pub has_link : Option String → Bool
  has_link none = false
  has_link (some url) = not (is_empty url)

  unfoldable pub score_candidate : Wishes → PlaceResult → ℕ → ℕ
  score_candidate w p distance =
      let link_bonus = if has_link p.link then fl.lit 2 100 else whole 0 in
      let chain =
        if w.chain_penalty && is_some (get_chain_brand lower p.name)
        then fl.lit 5 10
        else whole 0 in
      fl.sub
        (fl.sub
          (fl.sub
            (fl.sub
              (fl.add (fl.add (base_score p) link_bonus)
                (preference_bonus p w.preferences (whole 0)))
              (fl.div distance (divisor_of w)))
            chain)
          (repeat_penalty w p))
        (chain_repeat_penalty w p)

  abbrev pub is_cafe_like : PlaceResult → Bool
  is_cafe_like p = any (λ keyword. includes_text (text_of_place lower p) keyword) cafe_keywords

  abbrev pub is_food_like : PlaceResult → Bool
  is_food_like p = any (λ keyword. includes_text (text_of_place lower p) keyword) food_keywords

  -- The test of `typeSpecific`
  abbrev pub is_typical : ActivityIntent → PlaceResult → Bool
  is_typical a p = elim a.kind [
    | food ↦ not (is_cafe_like p) || is_food_like p
    | cafe ↦ not (is_food_like p) || is_cafe_like p
    | activity ↦ matches_activity_place lower p a.subtype
    | attraction ↦ matches_activity_place lower p a.subtype
    | rest ↦ matches_activity_place lower p a.subtype
  ]

  -- `getActivitySubtypeMatchBonus` and `getActivityBrandBonus`
  abbrev pub subtype_match_bonus : PlaceResult → Option ActivitySubtype → ℕ
  subtype_match_bonus p none = whole 0
  subtype_match_bonus p (some s) =
      if matches_activity_place lower p (some s)
      then fl.lit 5 10
      else fl.sub (whole 0) (fl.lit 4 10)

  abbrev pub brand_bonus : PlaceResult → Option ActivitySubtype → ℕ
  brand_bonus p subtype = if has_preferred_brand lower p subtype then fl.lit 35 100 else whole 0

  abbrev pub full_score : Wishes → ActivityIntent → PlaceResult → ℕ → ℕ
  full_score w a p distance =
      fl.add (fl.add (score_candidate w p distance) (subtype_match_bonus p a.subtype))
        (brand_bonus p a.subtype)
