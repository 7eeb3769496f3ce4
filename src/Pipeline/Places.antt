-- ===== src/Pipeline/Places.antt =====
-- backend/src/modules/ai/interfaces: the places that the steps pass on. A float is its bit pattern.
use ai_planner.Prelude.{ℕ, Bool, String, Option}

-- The five types of an activity.
pub data PlaceType : Type 0 where
  food cafe activity attraction rest : PlaceType

-- Where a place was found
pub data Source : Type 0 where
  naver kakao ai : Source

-- `RoutePlace` of optimize-route.step.ts
pub record RoutePlace : Type 0 where
  pub slot_id : ℕ
  pub name : String
  pub lat : ℕ
  pub lng : ℕ
  pub kind : PlaceType
  pub address : String
  pub link : Option String
  pub source : Option Source
  pub score : Option ℕ
  pub anchor_minutes : Option ℕ
  pub required : Bool

pub record OrderedPlace : Type 0 where
  pub place : RoutePlace
  pub order : ℕ
  pub distance_from_prev : ℕ
  pub travel_minutes : ℕ

-- `ActivitySubtype` of activity-registry.ts
pub data ActivitySubtype : Type 0 where
  movie bowling karaoke escape_room climbing shopping exhibition : ActivitySubtype
  museum musical walk park riverfront seaside night_view : ActivitySubtype

pub record PlaceResult : Type 0 where
  pub name : String
  pub lat : ℕ
  pub lng : ℕ
  pub category : String
  pub address : String
  pub link : Option String
  pub source : Option Source
  pub score : Option ℕ

pub record ActivityIntent : Type 0 where
  pub slot_id : ℕ
  pub kind : PlaceType
  pub naver_query : String
  pub slot_query : Option String
  pub subtype : Option ActivitySubtype
  pub anchor_minutes : Option ℕ
  pub order_locked : Bool
  pub required : Bool
