-- ===== src/Region/Specific.antt =====
-- backend/src/shared/region/region.service.ts: what `scanAll` finds, and what `resolveBest` takes of it.
use mathlib.Core.Path.{subst}
use mathlib.Core.Option.{some-injective}
use ai_planner.Prelude.{
  ◌≤◌, ◌<◌, true, false, String, Option, none, some, List, [], ◌∷◌, ◌≡◌, ◌≢◌, refl, ◌∙◌, ◌⊎◌, inl,
  inr, arith, any, All, In, All-In, All_of_In, Bool-cases, Option-cases, str_eq, size, ltb, sort_by,
  insert_by, first_of, first-sort_by, is_empty,
}
use ai_planner.Region.{RegionRecord, Regions, map_get}
use ai_planner.Region.Chunks.{chunks, parts}
use ai_planner.Region.Scan.{
  ScanMatch, first_match, new_match, long_match, match_chunk, versions, scan_from, scan_all,
  resolve_best, goes_after, label, type_priority,
}

-- No two matches are of one region.
abbrev pub AreDistinct : List ScanMatch → Type 0
AreDistinct [] = Unit
AreDistinct (m ∷ t) = All (λ z. str_eq m.region.code z.region.code ≡ false) t × AreDistinct t

first_match-In :
    (try : String → Option ScanMatch) (ts : List String) {m : ScanMatch}
    → first_match try ts ≡ some m
    → (t : String) × (try t ≡ some m)
first_match-In try [] e = cc
first_match-In try (t ∷ ts) e = elim (Option-cases (try t)) [
  | inl absent ↦ first_match-In try ts (rw (absent, first_match) at e)
  | inr (k, there) ↦ (t, there ∙ (rw (there, first_match) at e))
]

module _ (find : String → Option RegionRecord) where
  -- A match is of a region that is not yet seen, by a name that the map has.
  abbrev IsNew : List String → ScanMatch → Type 0
  IsNew seen m =
      (find m.token ≡ some m.region) × (any (λ code. str_eq code m.region.code) seen ≡ false)

  new_match-IsNew :
      (seen : List String) (t : String) {m : ScanMatch}
      → new_match find seen t ≡ some m
      → IsNew seen m
  new_match-IsNew seen t {m} e = elim (Option-cases (find t)) [
    | inl absent ↦ let none_left = rw (absent, new_match) at e in cc
    | inr (region, there) ↦ elim (Bool-cases (any (λ code. str_eq code region.code) seen)) [
      | inl old ↦ let none_left = rw (there, old, new_match) at e in cc
      | inr new ↦
          subst (IsNew seen)
            (some-injective (record { token = t; region = region }) m
              (rw (there, new, new_match) at e))
            (there, new)
    ]
  ]

  match_chunk-IsNew :
      (seen : List String) (chunk : String) {m : ScanMatch}
      → match_chunk find seen chunk ≡ some m
      → IsNew seen m
  unfolding match_chunk
  match_chunk-IsNew seen chunk {m} e =
      elim (Option-cases (first_match (long_match find seen) (versions chunk))) [
        | inl absent ↦
            let (t, found) =
              first_match-In (new_match find seen) (parts chunk) (rw (absent, match_chunk) at e) in
            new_match-IsNew seen t found
        | inr (k, there) ↦
            let (t, found) =
              first_match-In (long_match find seen) (versions chunk)
                (there ∙ (rw (there, match_chunk) at e)) in
            elim (Bool-cases (ltb (size t) 2)) [
              | inl short ↦ let none_left = rw (short, long_match) at found in cc
              | inr long ↦ new_match-IsNew seen t (rw (long, long_match) at found)
            ]
      ]

  scan_from-lem :
      (seen : List String) (cs : List String)
      → All (IsNew seen) (scan_from find seen cs) × AreDistinct (scan_from find seen cs)
  unfolding scan_from
  scan_from-lem seen [] = (tt, tt)
  scan_from-lem seen (c ∷ cs) = elim (Option-cases (match_chunk find seen c)) [
    | inl absent ↦ rw (absent, scan_from) (scan_from-lem seen cs)
    | inr (m, there) ↦
        let (news, apart) = scan_from-lem (m.region.code ∷ seen) cs in
        let rest = scan_from find (m.region.code ∷ seen) cs in
        rw (there, scan_from)
          (
            (
              match_chunk-IsNew seen c there,
              All_of_In (IsNew seen) rest (λ z i.
                  let new = All-In (IsNew (m.region.code ∷ seen)) z rest news i in
                  (new.0, ground (arith, new.1))),
            ),
            (
              All_of_In (λ z. str_eq m.region.code z.region.code ≡ false) rest
                  (λ z i.
                    let new = All-In (IsNew (m.region.code ∷ seen)) z rest news i in
                    ground (arith, new.1)),
              apart,
            ),
          )
  ]

-- A match that is at most as specific as another.
abbrev pub IsWithin : ScanMatch → ScanMatch → Type 0
IsWithin m z =
    (type_priority z.region.kind < type_priority m.region.kind)
    ⊎ ((type_priority z.region.kind ≡ type_priority m.region.kind) × (size z.token ≤ size m.token))

within : (m z : ScanMatch) → goes_after m z ≡ false → IsWithin m z
within m z h = ground arith

once : (x y : ScanMatch) → goes_after x y ≡ true → goes_after y x ≡ false
once x y h = ground arith

chain :
    (x y z : ScanMatch) → goes_after x y ≡ false → goes_after y z ≡ false → goes_after x z ≡ false
chain x y z h k = ground arith

abbrev pub lookup : Regions → String → Option RegionRecord
lookup s t = map_get t s.alias_map

scan_all-lem :
    (text : String) (s : Regions)
    → All (IsNew (lookup s) []) (scan_all text s) × AreDistinct (scan_all text s)
scan_all-lem text s = elim (Bool-cases (is_empty text)) [
  | inl y ↦ rw y (tt, tt)
  | inr n ↦ rw n (scan_from-lem (lookup s) [] (chunks text))
]

none-insert_by : (x : ScanMatch) (t : List ScanMatch) → first_of (insert_by goes_after x t) ≢ none
none-insert_by x [] e = cc
none-insert_by x (y ∷ t) e = elim (Bool-cases (goes_after x y)) [
  | inl h ↦ let some_left = rw h at e in cc
  | inr h ↦ let some_left = rw h at e in cc
]

none-sort_by : (t : List ScanMatch) → first_of (sort_by goes_after t) ≡ none → t ≡ []
none-sort_by [] e = refl
none-sort_by (x ∷ t) e = absurd (none-insert_by x (sort_by goes_after t) e)

-- `resolveBest` finds nothing only if the scan does. Otherwise it names a match of the scan, whose token
-- the map has as an alias of its region, and no match of the scan has a type of higher priority, nor
-- one of the same priority and a longer token. No region is found twice.
pub resolve_best-lem :
    (text : String) (s : Regions)
    → AreDistinct (scan_all text s)
      × (((resolve_best text s ≡ none) × (scan_all text s ≡ []))
          ⊎ ((m : ScanMatch) × (resolve_best text s ≡ some (label m))
              × In m (scan_all text s)
              × (map_get m.token s.alias_map ≡ some m.region)
              × All (IsWithin m) (scan_all text s)))
unfolding resolve_best
resolve_best-lem text s =
    let ms = scan_all text s in
    let (news, apart) = scan_all-lem text s in
    (
      apart,
      elim (Option-cases (first_of (sort_by goes_after ms))) [
        | inl absent ↦ inl ((rw (absent, resolve_best) refl), none-sort_by ms absent)
        | inr (m, there) ↦
            let (at_m, firsts) = first-sort_by goes_after once chain ms there in
            inr (
              m,
              rw (there, resolve_best) refl,
              at_m,
              (All-In (IsNew (lookup s) []) m ms news at_m).0,
              All_of_In (IsWithin m) ms
                  (λ z i. within m z (All-In (λ z. goes_after m z ≡ false) z ms firsts i)),
            )
      ],
    )
