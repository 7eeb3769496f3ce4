-- ===== src/Region/Reading.antt =====
-- backend/src/shared/region/region.service.ts: a text is read as the map of aliases says.
use mathlib.Core.Path.{fun_ext}
use ai_planner.Prelude.{
  String, Option, none, some, [], ◌≡◌, ap, if◌then◌else◌, is_empty, sort_by, first_of, trim,
}
use ai_planner.Region.{RegionRecord, Regions, map_get, get_region}
use ai_planner.Region.Chunks.{chunks}
use ai_planner.Region.Scan.{resolve_best, scan_from, goes_after, label}

-- Texts are read alike by services that know the same names.
pub resolve_best-same :
    (words : String) (s s' : Regions)
    → ((v : String) → map_get v s.alias_map ≡ map_get v s'.alias_map)
    → resolve_best words s ≡ resolve_best words s'
unfolding resolve_best
resolve_best-same words s s' h = ap read (fun_ext h)
  where
    read : (String → Option RegionRecord) → Option String
    read find =
        elim (first_of
          (sort_by goes_after (if is_empty words then [] else scan_from find [] (chunks words)))) [
            | none ↦ none
            | some m ↦ some (label m)
          ]

pub get_region-same :
    (input : String) (s s' : Regions)
    → ((v : String) → map_get v s.alias_map ≡ map_get v s'.alias_map)
    → get_region input s ≡ get_region input s'
unfolding get_region
get_region-same input s s' h = ap (λ o. if is_empty input then none else o) (h (trim input))
