-- ===== src/Region/Scan.antt =====
-- backend/src/shared/region/region.service.ts: `scanAll` and `resolveBest`.
use ai_planner.Prelude.{
  ℕ, Bool, true, false, String, Option, none, some, List, [], ◌∷◌, any, if◌then◌else◌, ltb, ◌==◌,
  is_empty, size, str_eq, sort_by, first_of,
}
use ai_planner.Region.{RegionRecord, RegionType, sido, sigungu, dong, landmark, Regions, map_get}
use ai_planner.Region.Chunks.{chunks, parts, strip_particles}

pub record ScanMatch : Type 0 where
  pub token : String
  pub region : RegionRecord

-- `TYPE_PRIORITY`
abbrev pub type_priority : RegionType → ℕ
type_priority landmark = 4
type_priority dong = 3
type_priority sigungu = 2
type_priority sido = 1

abbrev pub first_match : (String → Option ScanMatch) → List String → Option ScanMatch
first_match try [] = none
first_match try (t ∷ ts) = elim (try t) [ none ↦ first_match try ts | some m ↦ some m ]

-- `stripped === chunk ? [chunk] : [stripped, chunk]`
abbrev pub versions : String → List String
versions chunk =
    if str_eq (strip_particles chunk) chunk then chunk ∷ [] else strip_particles chunk ∷ chunk ∷ []

-- Here and below, `find` is `aliasMap.get`, and `seen` has the codes of the regions found so far.
module _ (find : String → Option RegionRecord) where
  abbrev pub new_match : List String → String → Option ScanMatch
  new_match seen token = elim (find token) [
    | none ↦ none
    | some region ↦
        if any (λ code. str_eq code region.code) seen
        then none
        else some (record { token = token; region = region })
  ]

  abbrev pub long_match : List String → String → Option ScanMatch
  long_match seen token = if ltb (size token) 2 then none else new_match seen token

  -- The whole chunk, without and with its particles, and then its parts.
  unfoldable pub match_chunk : List String → String → Option ScanMatch
  match_chunk seen chunk = elim (first_match (long_match seen) (versions chunk)) [
    | none ↦ first_match (new_match seen) (parts chunk)
    | some m ↦ some m
  ]

  unfoldable pub scan_from : List String → List String → List ScanMatch
  scan_from seen [] = []
  scan_from seen (chunk ∷ rest) = elim (match_chunk seen chunk) [
    | none ↦ scan_from seen rest
    | some m ↦ m ∷ scan_from (m.region.code ∷ seen) rest
  ]

abbrev pub scan_all : String → Regions → List ScanMatch
scan_all text s =
    if is_empty text then [] else scan_from (λ t. map_get t s.alias_map) [] (chunks text)

-- The comparison of `matches.sort` is positive.
abbrev pub goes_after : ScanMatch → ScanMatch → Bool
goes_after a b =
    let pa = type_priority a.region.kind in
    let pb = type_priority b.region.kind in
    if pa == pb then ltb (size a.token) (size b.token) else ltb pa pb

abbrev pub is_dong : RegionType → Bool
is_dong dong = true
is_dong _ = false

abbrev pub label : ScanMatch → String
label m = if is_dong m.region.kind then m.token else m.region.short_name

unfoldable pub resolve_best : String → Regions → Option String
resolve_best text s = elim (first_of (sort_by goes_after (scan_all text s))) [
  | none ↦ none
  | some m ↦ some (label m)
]
