-- ===== src/Pipeline/Fitting.antt =====
-- backend/src/modules/ai/steps/generate-schedule.step.ts: the loop that drops places until the day
-- ends in time.
use ai_planner.Prelude.{
  ℕ, zero, suc, ◌≤◌, ◌<◌, ◌≡◌, inl, inr, refl, ap, sym, ◌∙◌, arith, Bool, true, Option, none, some,
  List, [], ◌∷◌, select, length, All, leb, map, Bool-cases, Option-cases,
}
use ai_planner.Pipeline.Places.{OrderedPlace}
use ai_planner.Pipeline.Schedule.{
  SoftConstraints, Progress, visits_from, visit, advance, started, build_schedule, end_of,
  drop_last_optional, fit, kept_places, duration_limit, earlier, execute,
}

abbrev pub is_required : OrderedPlace → Bool
is_required p = p.place.required

-- The last place that is not required has been dropped.
drop_last_optional_lem :
    (ps qs : List OrderedPlace)
    → drop_last_optional ps ≡ some qs
    → (select is_required qs ≡ select is_required ps) × (length ps ≡ suc (length qs))
unfolding drop_last_optional
drop_last_optional_lem [] qs h = absurd (ground arith)
drop_last_optional_lem (p ∷ ps) qs h = elim (Option-cases (drop_last_optional ps)) [
  | inl stuck ↦ elim (Bool-cases (is_required p)) [
    | inl kept ↦ absurd (ground arith)
    | inr free ↦
        let same : ps ≡ qs = ground arith in
        rw free (ap (select is_required) (sym same), ap (λ n. suc (length n)) same)
  ]
  | inr (rs, fewer) ↦
      let grown : qs ≡ p ∷ rs = ground arith in
      rw grown (ground (arith, drop_last_optional_lem ps rs fewer))
]

drop_last_optional-none :
    (ps : List OrderedPlace) → drop_last_optional ps ≡ none → All (λ p. p.place.required ≡ true) ps
unfolding drop_last_optional
drop_last_optional-none [] h = tt
drop_last_optional-none (p ∷ ps) h = elim (Option-cases (drop_last_optional ps)) [
  | inl stuck ↦ (ground arith, drop_last_optional-none ps stuck)
  | inr (rs, fewer) ↦ absurd (ground arith)
]

-- What the loop of the code, which has no bound, makes of places: it goes on while the day ends too
-- late and there is a place to drop.
pub data Fits (limit start_min : ℕ) : List OrderedPlace → List OrderedPlace → Type 0 where
  in_time :
      (ps : List OrderedPlace)
      → end_of start_min (build_schedule start_min ps) ≤ limit
      → Fits limit start_min ps ps
  stuck :
      (ps : List OrderedPlace)
      → limit < end_of start_min (build_schedule start_min ps)
      → drop_last_optional ps ≡ none
      → Fits limit start_min ps ps
  dropped :
      (ps qs rs : List OrderedPlace)
      → limit < end_of start_min (build_schedule start_min ps)
      → drop_last_optional ps ≡ some qs
      → Fits limit start_min qs rs
      → Fits limit start_min ps rs

-- The fuel of the number of places is enough: the loop ends by its own tests.
pub fit-Fits :
    (fuel limit start_min : ℕ) (ps : List OrderedPlace)
    → length ps ≤ fuel
    → Fits limit start_min ps (fit fuel limit start_min ps)
unfolding fit
fit-Fits zero limit start_min [] enough = elim (Bool-cases (leb start_min limit)) [
  | inl early ↦ in_time [] (ground arith)
  | inr late ↦ stuck [] (ground arith) refl
]
fit-Fits zero limit start_min (p ∷ ps) enough = absurd (ground arith)
fit-Fits (suc fuel) limit start_min ps enough =
    elim (Bool-cases (leb (end_of start_min (build_schedule start_min ps)) limit)) [
      | inl early ↦ rw early (in_time ps (ground arith))
      | inr late ↦ rw late (elim (Option-cases (drop_last_optional ps)) [
        | inl none_left ↦ rw none_left (stuck ps (ground arith) none_left)
        | inr (qs, fewer) ↦ rw fewer (
            dropped ps qs _ (ground arith) fewer (
              fit-Fits fuel limit start_min qs
                (omega (arith, (drop_last_optional_lem ps qs fewer).1))))
      ])
    ]

-- The places that are required are never dropped, and their order is kept.
Fits-required :
    (limit start_min : ℕ) (ps qs : List OrderedPlace)
    → Fits limit start_min ps qs
    → select is_required qs ≡ select is_required ps
Fits-required limit start_min _ _ (in_time ps early) = refl
Fits-required limit start_min _ _ (stuck ps late none_left) = refl
Fits-required limit start_min _ _ (dropped ps qs rs late fewer more) =
    Fits-required limit start_min qs rs more ∙ (drop_last_optional_lem ps qs fewer).0

-- If the day still ends too late, only required places are left.
Fits-late :
    (limit start_min : ℕ) (ps qs : List OrderedPlace)
    → Fits limit start_min ps qs
    → limit < end_of start_min (build_schedule start_min qs)
    → All (λ p. p.place.required ≡ true) qs
Fits-late limit start_min _ _ (in_time ps early) h = absurd (ground arith)
Fits-late limit start_min _ _ (stuck ps late none_left) h = drop_last_optional-none ps none_left
Fits-late limit start_min _ _ (dropped ps qs rs late fewer more) h =
    Fits-late limit start_min qs rs more h

-- The time that the loop of `execute` keeps to.
abbrev pub target_of : ℕ → SoftConstraints → List OrderedPlace → Option ℕ
target_of start_min c places = earlier c.end_by_minutes (duration_limit start_min c places)

kept_places-required :
    (start_min : ℕ) (target : Option ℕ) (ps : List OrderedPlace)
    → select is_required (kept_places start_min target ps) ≡ select is_required ps
unfolding kept_places
kept_places-required start_min none ps = refl
kept_places-required start_min (some t) ps =
    Fits-required t start_min ps _ (fit-Fits (length ps) t start_min ps (omega arith))

kept_places-late :
    (start_min limit : ℕ) (target : Option ℕ) (ps : List OrderedPlace)
    → target ≡ some limit
    → limit < end_of start_min (build_schedule start_min (kept_places start_min target ps))
    → All (λ p. p.place.required ≡ true) (kept_places start_min target ps)
unfolding kept_places
kept_places-late start_min limit none ps h late = absurd (ground arith)
kept_places-late start_min limit (some t) ps h late =
    Fits-late t start_min ps _ (fit-Fits (length ps) t start_min ps (omega arith)) (ground arith)

visits_from-places :
    (s : Progress) (ps : List OrderedPlace) → map (λ v. v.at) (visits_from s ps) ≡ ps
unfolding visits_from visit
visits_from-places s [] = refl
visits_from-places s (p ∷ ps) = ap (λ t. p ∷ t) (visits_from-places (advance s (visit s p)) ps)

-- Every schedule visits, whatever is dropped, the places that must be visited, in their order, and it
-- visits the places of its route, no more and no fewer.
pub execute-required :
    (start_min : ℕ) (c : SoftConstraints) (ps : List OrderedPlace)
    → let schedule = execute start_min c ps in
      let visited = map (λ v. v.at) schedule.visits in
      (select is_required visited ≡ select is_required ps) × (visited ≡ schedule.places)
unfolding execute build_schedule
execute-required start_min c [] = (refl, refl)
execute-required start_min c (p ∷ ps) =
    let kept = kept_places start_min (target_of start_min c (p ∷ ps)) (p ∷ ps) in
    let same = visits_from-places (started start_min) kept in
    (
      ap (select is_required) same
          ∙ kept_places-required start_min (target_of start_min c (p ∷ ps)) (p ∷ ps),
      same,
    )

-- A schedule that ends after the time it has to keep to has no place left that could be dropped.
execute-late :
    (start_min target : ℕ) (c : SoftConstraints) (ps : List OrderedPlace)
    → target_of start_min c ps ≡ some target
    → target < end_of start_min (execute start_min c ps).visits
    → All (λ p. p.place.required ≡ true) (execute start_min c ps).places
unfolding execute
execute-late start_min target c [] h late = tt
execute-late start_min target c (p ∷ ps) h late =
    kept_places-late start_min target (target_of start_min c (p ∷ ps)) (p ∷ ps) h late
