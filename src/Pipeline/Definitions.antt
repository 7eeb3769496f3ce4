-- ===== src/Pipeline/Definitions.antt =====
-- backend/src/modules/ai/utils/activity-registry.ts: the table of the kinds of activity.
use ai_planner.Prelude.{Bool, true, String, List, [], ◌∷◌}
use ai_planner.Pipeline.Places.{
  PlaceType, activity, attraction, rest, ActivitySubtype, movie, bowling, karaoke, escape_room,
  climbing, shopping, exhibition, museum, musical, walk, park, riverfront, seaside, night_view,
}

-- `fallbackQuery` is read nowhere; a list of brands that is not given is empty.
pub record ActivityDefinition : Type 0 where
  pub subtype : ActivitySubtype
  pub kind : PlaceType
  pub label : String
  pub synonyms : List String
  pub search_queries : List String
  pub allow_keywords : List String
  pub reject_keywords : List String
  pub preferred_brands : List String
  pub strict_matching : Bool

abbrev pub movie_definition : ActivityDefinition
movie_definition = record {
  subtype = movie;
  kind = activity;
  label = "영화";
  synonyms = "영화" ∷ "영화관" ∷ "시네마" ∷ "cgv" ∷ "메가박스" ∷ "롯데시네마" ∷ [];
  search_queries = "영화관" ∷ "CGV" ∷ "메가박스" ∷ "롯데시네마" ∷ "시네마" ∷ "독립영화관" ∷ [];
  allow_keywords = "영화관" ∷ "영화" ∷ "시네마" ∷ "cgv" ∷ "메가박스" ∷ "롯데시네마" ∷ [];
  reject_keywords = "복싱" ∷ "헬스" ∷ "스튜디오" ∷ "오락실" ∷ "당구" ∷ "볼링" ∷ "카페" ∷ "노래방" ∷ "클라이밍" ∷ "방탈출" ∷ [];
  preferred_brands = "cgv" ∷ "메가박스" ∷ "롯데시네마" ∷ [];
  strict_matching = true;
}

abbrev pub bowling_definition : ActivityDefinition
bowling_definition = record {
  subtype = bowling;
  kind = activity;
  label = "볼링";
  synonyms = "볼링" ∷ "볼링장" ∷ [];
  search_queries = "볼링장" ∷ "락볼링장" ∷ "볼링센터" ∷ [];
  allow_keywords = "볼링" ∷ "볼링장" ∷ "락볼링" ∷ "볼링센터" ∷ [];
  reject_keywords = "당구" ∷ "스크린골프" ∷ "오락실" ∷ "카페" ∷ "노래방" ∷ [];
  preferred_brands = [];
  strict_matching = true;
}

abbrev pub karaoke_definition : ActivityDefinition
karaoke_definition = record {
  subtype = karaoke;
  kind = activity;
  label = "노래방";
  synonyms = "노래방" ∷ "코인노래방" ∷ "가라오케" ∷ [];
  search_queries = "노래방" ∷ "코인노래방" ∷ "가라오케" ∷ [];
  allow_keywords = "노래방" ∷ "코인노래방" ∷ "가라오케" ∷ [];
  reject_keywords = "볼링" ∷ "오락실" ∷ "카페" ∷ "클럽" ∷ [];
  preferred_brands = [];
  strict_matching = true;
}

abbrev pub escape_room_definition : ActivityDefinition
escape_room_definition = record {
  subtype = escape_room;
  kind = activity;
  label = "방탈출";
  synonyms = "방탈출" ∷ "방탈출카페" ∷ [];
  search_queries = "방탈출" ∷ "방탈출카페" ∷ "escape room" ∷ [];
  allow_keywords = "방탈출" ∷ "탈출카페" ∷ "escape" ∷ [];
  reject_keywords = "보드게임" ∷ "오락실" ∷ "카페" ∷ [];
  preferred_brands = [];
  strict_matching = true;
}

abbrev pub climbing_definition : ActivityDefinition
climbing_definition = record {
  subtype = climbing;
  kind = activity;
  label = "클라이밍";
  synonyms = "클라이밍" ∷ "볼더링" ∷ "클라이밍센터" ∷ "클라이밍짐" ∷ [];
  search_queries = "클라이밍센터" ∷ "볼더링" ∷ "클라이밍짐" ∷ [];
  allow_keywords = "클라이밍" ∷ "볼더링" ∷ "클라이밍센터" ∷ "클라이밍짐" ∷ [];
  reject_keywords = "헬스" ∷ "필라테스" ∷ "복싱" ∷ "요가" ∷ [];
  preferred_brands = [];
  strict_matching = true;
}

abbrev pub shopping_definition : ActivityDefinition
shopping_definition = record {
  subtype = shopping;
  kind = activity;
  label = "쇼핑";
  synonyms = "쇼핑" ∷ "쇼핑몰" ∷ "백화점" ∷ "아울렛" ∷ [];
  search_queries = "쇼핑몰" ∷ "백화점" ∷ "아울렛" ∷ "복합쇼핑몰" ∷ [];
  allow_keywords = "쇼핑몰" ∷ "백화점" ∷ "아울렛" ∷ "복합쇼핑몰" ∷ "mall" ∷ [];
  reject_keywords = "마트" ∷ "편의점" ∷ "카페" ∷ "볼링" ∷ [];
  preferred_brands = [];
  strict_matching = true;
}

abbrev pub exhibition_definition : ActivityDefinition
exhibition_definition = record {
  subtype = exhibition;
  kind = attraction;
  label = "전시";
  synonyms = "전시" ∷ "전시회" ∷ "갤러리" ∷ "미술관" ∷ [];
  search_queries = "전시관" ∷ "갤러리" ∷ "미술관" ∷ "전시회" ∷ [];
  allow_keywords = "전시" ∷ "전시관" ∷ "갤러리" ∷ "미술관" ∷ [];
  reject_keywords = "카페" ∷ "스튜디오" ∷ "공방" ∷ "사진관" ∷ [];
  preferred_brands = [];
  strict_matching = true;
}

abbrev pub museum_definition : ActivityDefinition
museum_definition = record {
  subtype = museum;
  kind = attraction;
  label = "박물관";
  synonyms = "박물관" ∷ "뮤지엄" ∷ [];
  search_queries = "박물관" ∷ "뮤지엄" ∷ [];
  allow_keywords = "박물관" ∷ "뮤지엄" ∷ [];
  reject_keywords = "미술관" ∷ "카페" ∷ "기념품" ∷ [];
  preferred_brands = [];
  strict_matching = true;
}

abbrev pub musical_definition : ActivityDefinition
musical_definition = record {
  subtype = musical;
  kind = attraction;
  label = "뮤지컬";
  synonyms = "뮤지컬" ∷ "공연" ∷ "연극" ∷ [];
  search_queries = "뮤지컬 공연장" ∷ "공연장" ∷ "연극" ∷ [];
  allow_keywords = "뮤지컬" ∷ "공연장" ∷ "공연" ∷ "연극" ∷ [];
  reject_keywords = "노래방" ∷ "영화관" ∷ "클럽" ∷ [];
  preferred_brands = [];
  strict_matching = true;
}

abbrev pub walk_definition : ActivityDefinition
walk_definition = record {
  subtype = walk;
  kind = rest;
  label = "산책";
  synonyms = "산책" ∷ "산책로" ∷ [];
  search_queries = "산책로" ∷ "공원 산책" ∷ "걷기 좋은 길" ∷ [];
  allow_keywords = "산책" ∷ "산책로" ∷ "공원" ∷ "둘레길" ∷ "걷기" ∷ "길" ∷ [];
  reject_keywords = "카페" ∷ "식당" ∷ "헬스" ∷ [];
  preferred_brands = [];
  strict_matching = true;
}

abbrev pub park_definition : ActivityDefinition
park_definition = record {
  subtype = park;
  kind = rest;
  label = "공원";
  synonyms = "공원" ∷ [];
  search_queries = "공원" ∷ "도시공원" ∷ [];
  allow_keywords = "공원" ∷ "생태공원" ∷ "도시공원" ∷ [];
  reject_keywords = "카페" ∷ "식당" ∷ "주차장" ∷ [];
  preferred_brands = [];
  strict_matching = true;
}

abbrev pub riverfront_definition : ActivityDefinition
riverfront_definition = record {
  subtype = riverfront;
  kind = rest;
  label = "한강";
  synonyms = "한강" ∷ "강변" ∷ [];
  search_queries = "한강공원" ∷ "강변 산책" ∷ "강변 공원" ∷ [];
  allow_keywords = "한강" ∷ "강변" ∷ "한강공원" ∷ "시민공원" ∷ [];
  reject_keywords = "카페" ∷ "식당" ∷ [];
  preferred_brands = [];
  strict_matching = true;
}

abbrev pub seaside_definition : ActivityDefinition
seaside_definition = record {
  subtype = seaside;
  kind = rest;
  label = "바다";
  synonyms = "바다" ∷ "해변" ∷ "오션뷰" ∷ [];
  search_queries = "해변" ∷ "바다" ∷ "해수욕장" ∷ "오션뷰" ∷ [];
  allow_keywords = "바다" ∷ "해변" ∷ "해수욕장" ∷ "오션뷰" ∷ "해안" ∷ [];
  reject_keywords = "카페" ∷ "식당" ∷ [];
  preferred_brands = [];
  strict_matching = true;
}

abbrev pub night_view_definition : ActivityDefinition
night_view_definition = record {
  subtype = night_view;
  kind = rest;
  label = "야경";
  synonyms = "야경" ∷ "전망대" ∷ [];
  search_queries = "야경" ∷ "전망대" ∷ "야경 명소" ∷ [];
  allow_keywords = "야경" ∷ "전망대" ∷ "스카이" ∷ "타워" ∷ "루프탑" ∷ [];
  reject_keywords = "카페" ∷ "식당" ∷ [];
  preferred_brands = [];
  strict_matching = true;
}

-- `ACTIVITY_DEFINITIONS`
abbrev pub definition_of : ActivitySubtype → ActivityDefinition
definition_of movie = movie_definition
definition_of bowling = bowling_definition
definition_of karaoke = karaoke_definition
definition_of escape_room = escape_room_definition
definition_of climbing = climbing_definition
definition_of shopping = shopping_definition
definition_of exhibition = exhibition_definition
definition_of museum = museum_definition
definition_of musical = musical_definition
definition_of walk = walk_definition
definition_of park = park_definition
definition_of riverfront = riverfront_definition
definition_of seaside = seaside_definition
definition_of night_view = night_view_definition

-- `Object.values(ACTIVITY_DEFINITIONS)`
abbrev pub all_definitions : List ActivityDefinition
all_definitions =
    movie_definition ∷ bowling_definition ∷ karaoke_definition ∷ escape_room_definition
    ∷ climbing_definition ∷ shopping_definition ∷ exhibition_definition ∷ museum_definition
    ∷ musical_definition ∷ walk_definition ∷ park_definition ∷ riverfront_definition
    ∷ seaside_definition ∷ night_view_definition ∷ []
