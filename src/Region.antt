-- ===== src/Region.antt =====
-- backend/src/shared/region/region.service.ts: `RegionService`, which knows the regions by their names
-- and aliases. A `Map` is the list of its entries, the newest first. The columns of a region that only
-- other steps read are left out, as is the search for the file that the regions are read from.
pub mod Chunks
pub mod Stripping
pub mod Scan
pub mod Specific
pub mod Learning
pub mod Loading
pub mod Reading
pub mod Restart
pub mod Promotion
mod Tests
use ai_planner.Prelude.{
  ℕ, Bool, true, false, String, Option, none, some, List, [], ◌∷◌, if◌then◌else◌, str_eq, is_some,
  is_empty, trim,
}

pub data RegionType : Type 0 where
  sido sigungu dong landmark : RegionType

pub record RegionRecord : Type 0 where
  pub code : String
  pub name : String
  pub short_name : String
  pub kind : RegionType
  pub aliases : List String

abbrev pub RegionMap : Type 0
RegionMap = List (String × RegionRecord)

-- `map.get(key)`, `map.set(key, region)`
abbrev pub map_get : String → RegionMap → Option RegionRecord
map_get key [] = none
map_get key (e ∷ m) = if str_eq e.0 key then some e.1 else map_get key m

abbrev pub map_set : String → RegionRecord → RegionMap → RegionMap
map_set key region m = (key, region) ∷ m

pub record Regions : Type 0 where
  pub canonical_map : RegionMap
  pub alias_map : RegionMap
  pub ready : Bool

abbrev pub started : Regions
started = record { canonical_map = []; alias_map = []; ready = false }

abbrev pub set_aliases : List String → RegionRecord → RegionMap → RegionMap
set_aliases [] region m = m
set_aliases (alias ∷ rest) region m = set_aliases rest region (map_set alias region m)

-- The body of the `forEach`
abbrev pub load_region : RegionRecord → Regions → Regions
load_region region s = record s {
  canonical_map = map_set region.short_name region s.canonical_map;
  alias_map =
      set_aliases region.aliases region
        (map_set region.name region (map_set region.short_name region s.alias_map));
}

abbrev pub load_regions : List RegionRecord → Regions → Regions
load_regions [] s = s
load_regions (region ∷ rest) s = load_regions rest (load_region region s)

-- `onModuleInit`, with the regions of the file
unfoldable pub on_module_init : List RegionRecord → Regions → Regions
on_module_init data_regions s =
    if s.ready then s else record (load_regions data_regions s) { ready = true }

unfoldable pub get_region : String → Regions → Option RegionRecord
get_region input s = if is_empty input then none else map_get (trim input) s.alias_map

unfoldable pub normalize : String → Regions → Option String
normalize input s = elim (get_region input s) [ none ↦ none | some region ↦ some region.short_name ]

abbrev pub is_valid : String → Regions → Bool
is_valid input s = is_some (normalize input s)

unfoldable pub add_dynamic_alias : String → String → Regions → Regions
add_dynamic_alias token canonical s = elim (map_get canonical s.canonical_map) [
  | none ↦ s
  | some region ↦
      if is_some (map_get token s.alias_map)
      then s
      else record s { alias_map = map_set token region s.alias_map }
]
