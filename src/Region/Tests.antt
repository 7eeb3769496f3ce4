-- ===== src/Region/Tests.antt =====
-- backend/src/shared/region, on a small file of regions and a Redis in memory.
use ai_planner.Prelude.{ℕ, String, none, some, List, [], ◌∷◌, ◌≡◌, ◌⊎◌, refl, arith, In, All, true}
use ai_planner.Redis.Memory.{Memory, in_memory, put, parts_of, parts_of-found}
use ai_planner.Region.{
  RegionRecord, sigungu, landmark, started, on_module_init, get_region, map_get,
}
use ai_planner.Region.Chunks.{strip_particles, strip_loop, cut_particles, only_particles}
use ai_planner.Region.Scan.{ScanMatch, resolve_best, scan_all, scan_from, match_chunk, label}
use ai_planner.Region.Specific.{AreDistinct, IsWithin, resolve_best-lem}
use ai_planner.Region.Learning.{NativeClient, load_persisted_aliases}
use ai_planner.Region.Restart.{Report, run_reports, restart_refines}
use ai_planner.Region.Promotion.{log_again, log_again-known}

abbrev seongdong : RegionRecord
seongdong = record {
  code = "11200";
  name = "서울 성동구";
  short_name = "성동";
  kind = sigungu;
  aliases = "성동구" ∷ [];
}

abbrev hongdae : RegionRecord
hongdae = record {
  code = "L1";
  name = "홍대입구역";
  short_name = "홍대";
  kind = landmark;
  aliases = "홍대입구" ∷ [];
}

abbrev file : List RegionRecord
file = seongdong ∷ hongdae ∷ []

-- The landmark wins, whose name stands before its particles.
landmark_first : resolve_best "성동구 말고 홍대입구에서" (on_module_init file started) ≡ some "홍대"
unfolding resolve_best scan_from match_chunk on_module_init strip_particles strip_loop cut_particles
    only_particles
landmark_first = refl

part_of_chunk : resolve_best "홍대먹자골목" (on_module_init file started) ≡ some "홍대"
unfolding resolve_best scan_from match_chunk on_module_init strip_particles strip_loop cut_particles
    only_particles
part_of_chunk = refl

resolve_best-lem_example :
    let s = on_module_init file started in
    let words : String = "성동구 말고 홍대입구에서" in
    AreDistinct (scan_all words s)
    × (((resolve_best words s ≡ none) × (scan_all words s ≡ []))
        ⊎ ((m : ScanMatch) × (resolve_best words s ≡ some (label m))
            × In m (scan_all words s)
            × (map_get m.token s.alias_map ≡ some m.region)
            × All (IsWithin m) (scan_all words s)))
resolve_best-lem_example = resolve_best-lem "성동구 말고 홍대입구에서" (on_module_init file started)

abbrev native : NativeClient Memory
native = record {
  client = in_memory;
  set = λ k v m. put k (some (record { value = v; until = none })) m;
  keys = λ t template m. parts_of template m;
  get-set = λ t k j v m. ground arith;
  keys-found = parts_of-found;
}

abbrev report : Report
report = record { delay = 1000; tokens = "홍익대" ∷ "가" ∷ []; canonical = "홍대" }

abbrev reports : List Report
reports = report ∷ report ∷ report ∷ report ∷ report ∷ []

no_empty_name : map_get "" (on_module_init file started).canonical_map ≡ none
unfolding on_module_init
no_empty_name = refl

restart_refines_example :
    let base = on_module_init file started in
    let (s, r) = run_reports native 0 reports (base, []) in
    let anew = load_persisted_aliases native 6000 true r base in
    ((words : String) → resolve_best words anew ≡ resolve_best words s)
    × ((input : String) → get_region input anew ≡ get_region input s)
restart_refines_example =
    restart_refines native file [] 0 6000 reports no_empty_name (λ t v. refl) (ground arith)

abbrev gaps : List ℕ
gaps = 1000 ∷ 1000 ∷ 1000 ∷ 1000 ∷ 1000 ∷ []

hongdae_known : map_get "홍대" (on_module_init file started).canonical_map ≡ some hongdae
unfolding on_module_init
hongdae_known = refl

hongik_unknown : map_get "홍익대" (on_module_init file started).alias_map ≡ none
unfolding on_module_init
hongik_unknown = refl

log_again-known_example :
    get_region "홍익대" (log_again native "홍대" "홍익대" 0 gaps (on_module_init file started, [])).0
    ≡ some hongdae
log_again-known_example =
    log_again-known native (on_module_init file started) "홍익대" "홍대" 0 gaps [] refl refl
      hongdae_known hongik_unknown (λ t. refl) (λ t. refl) (ground arith) (ground arith)
