-- ===== src/Pipeline/Winning.antt =====
-- backend/src/modules/ai/steps/optimize-route.step.ts: what the route that is drawn visits.

use mathlib.Core.List.{Permᴰ}
use mathlib.Core.Path.{subst}
use ai_planner.Prelude.{
  In, All-select_In, List-cases, ◌⊎◌, ℕ, zero, suc, ◌<◌, Bool, true, false, String, List, [], ◌∷◌,
  map, ◌≡◌, refl, ap, ◌∙◌, inl, inr, arith, All, All-map, All-take, All-append, All-sort_by,
  Bool-cases, length, take, drop, select, ltb, length-sort_by,
}
use ai_planner.Prisma.Selects.{All-select, length-map}
use ai_planner.Schema.{Mode}
use ai_planner.Pipeline.Places.{RoutePlace, OrderedPlace, PlaceResult, ActivityIntent}
use ai_planner.Pipeline.Scoring.{Floats}
use ai_planner.Pipeline.Select.{places_at}
use ai_planner.Pipeline.Route.{
  Geometry, ordered_from, optimize_sequence, two_opt, nearest_neighbor, improve, started,
  total_distance,
}
use ai_planner.Pipeline.Visiting.{nearest_neighbor-lem}
use ai_planner.Pipeline.Improving.{improve-settles}
use ai_planner.Pipeline.Beam.{CandidateGroup, Scoring, build_candidate_combinations}
use ai_planner.Pipeline.Choosing.{Picks, combinations-Picks}
use ai_planner.Pipeline.Ranking.{
  EvaluatedRoute, route_of, evaluate, is_worse, draw_route, top_routes, pick_weighted_top_route,
  ranked_routes, route_place, group_of, groups_of, optimize_route, route_weight, zero_score,
}

abbrev pub places_of : List OrderedPlace → List RoutePlace
places_of route = map (λ o. o.place) route

module _ (fl : Floats) (lower : String → String) (geo : Geometry) (center : ℕ × ℕ) where
  ordered_from-places :
      (count lat lng : ℕ) (ps : List RoutePlace)
      → places_of (ordered_from geo count lat lng ps) ≡ ps
  unfolding ordered_from
  ordered_from-places count lat lng [] = refl
  ordered_from-places count lat lng (p ∷ ps) =
      ap (λ t. p ∷ t) (ordered_from-places (suc count) p.lat p.lng ps)

  map-Perm : {s t : List OrderedPlace} → Permᴰ s t → Permᴰ (places_of s) (places_of t)
  map-Perm Permᴰ.nil = Permᴰ.nil
  map-Perm (Permᴰ.cons e d) = Permᴰ.cons (ap (λ o. o.place) e) (map-Perm d)
  map-Perm (Permᴰ.swap e e') = Permᴰ.swap (ap (λ o. o.place) e) (ap (λ o. o.place) e')
  map-Perm (Permᴰ.trans d d') = Permᴰ.trans (map-Perm d) (map-Perm d')

  optimize_sequence-Perm :
      (sequence : List RoutePlace)
      → Permᴰ (places_of (optimize_sequence geo center.0 center.1 sequence)) sequence
  unfolding optimize_sequence two_opt
  optimize_sequence-Perm sequence =
      let first = nearest_neighbor geo sequence center.0 center.1 in
      let visits = (nearest_neighbor-lem geo sequence center.0 center.1).0 in
      elim (Bool-cases (ltb (length first) 3)) [
        | inl y ↦ rw y visits
        | inr n ↦
            let after =
              improve geo center.0 center.1 (suc (total_distance geo center.0 center.1 first))
                (started geo center.0 center.1 first) in
            let same = (improve-settles geo center.0 center.1 first).1 in
            rw (n, ordered_from-places 0 center.0 center.1 (places_of after.best))
              (Permᴰ.trans (map-Perm same) visits)
      ]

  -- A route visits the places of a sequence, in its order if the order is locked.
  abbrev pub Visits : Bool → List RoutePlace → List OrderedPlace → Type 0
  Visits true sequence route = places_of route ≡ sequence
  Visits false sequence route = Permᴰ (places_of route) sequence

  route_of-Visits :
      (locked : Bool) (sequence : List RoutePlace)
      → Visits locked sequence (route_of fl lower geo center locked sequence)
  route_of-Visits true sequence = ordered_from-places 0 center.0 center.1 sequence
  route_of-Visits false sequence = optimize_sequence-Perm sequence

  draw_route-holds :
      (P : EvaluatedRoute → Type 0) (best cursor : ℕ) (last : EvaluatedRoute)
      (t : List EvaluatedRoute)
      → P last
      → All P t
      → P (draw_route fl lower geo center best cursor last t)
  draw_route-holds P best cursor last [] h all = h
  draw_route-holds P best cursor last (e ∷ t) h all =
      let left = fl.sub cursor (route_weight fl lower geo center best e) in
      elim (Bool-cases (fl.le left (zero_score fl lower geo center))) [
        | inl y ↦ rw y all.0
        | inr n ↦ rw n (draw_route-holds P best left e t all.0 all.1)
      ]

  All-drop :
      (P : EvaluatedRoute → Type 0) (n : ℕ) (t : List EvaluatedRoute) → All P t → All P (drop n t)
  All-drop P zero t h = h
  All-drop P (suc n) [] h = tt
  All-drop P (suc n) (x ∷ t) h = All-drop P n t h.1

  pick-holds :
      (P : EvaluatedRoute → Type 0) (ranked : List EvaluatedRoute) (roll : ℕ)
      → 0 < length ranked
      → All P ranked
      → P (pick_weighted_top_route fl lower geo center ranked roll)
  unfolding pick_weighted_top_route
  pick-holds P [] roll some_routes all = absurd (omega arith)
  pick-holds P (head ∷ []) roll some_routes all = all.0
  pick-holds P (head ∷ e ∷ t) roll some_routes all =
      let ranked = head ∷ e ∷ t in
      let best = head.final_score in
      draw_route-holds P best _ head (top_routes fl lower geo center best ranked) all.0 (
        All-append P (take 5 ranked)
          (select (λ x. fl.le (fl.sub best x.final_score) (fl.lit 75 100)) (drop 5 ranked))
          (All-take P 5 ranked all)
          (All-select P (λ x. fl.le (fl.sub best x.final_score) (fl.lit 75 100)) (drop 5 ranked)
            (All-drop P 5 ranked all)))

  -- Of groups that all have places, the route visits one place of each.
  groups-Visits :
      {S : Type 0} (scoring : Scoring S) (mode : Mode) (locked : Bool) (roll : ℕ)
      (g : CandidateGroup) (gs : List CandidateGroup)
      → All (λ k. 0 < length k.places) (g ∷ gs)
      → (sequence : List RoutePlace) × Picks (g ∷ gs) sequence
        × Visits locked sequence
            (optimize_route fl lower geo center scoring mode locked roll (g ∷ gs))
  unfolding optimize_route
  groups-Visits scoring mode locked roll g gs full =
      let combinations = build_candidate_combinations scoring (g ∷ gs) in
      let (picks, some_found, _) = combinations-Picks scoring g gs full in
      let P = λ (e : EvaluatedRoute).
        (sequence : List RoutePlace) × Picks (g ∷ gs) sequence × Visits locked sequence e.route in
      let evaluated = map (evaluate fl lower geo center mode locked) combinations in
      let many : length (ranked_routes fl lower geo center mode locked combinations)
          ≡ length combinations =
        length-sort_by (is_worse fl lower geo center) evaluated
        ∙ length-map (evaluate fl lower geo center mode locked) combinations in
      pick-holds P (ranked_routes fl lower geo center mode locked combinations) roll
        (omega (arith, many, some_found))
        (All-sort_by P (is_worse fl lower geo center) evaluated (
          All-map P (evaluate fl lower geo center mode locked) combinations
            (each combinations picks)))
    where
      each :
          (t : List (List RoutePlace))
          → All (Picks (g ∷ gs)) t
          → All
              (λ sequence.
                (s : List RoutePlace) × Picks (g ∷ gs) s
                × Visits locked s (evaluate fl lower geo center mode locked sequence).route)
              t
      each [] h = tt
      each (sequence ∷ t) h = ((sequence, h.0, route_of-Visits locked sequence), each t h.1)

  -- A candidate of an activity, as a place of the route.
  abbrev pub IsFor : List (ℕ × List PlaceResult) → ActivityIntent → RoutePlace → Type 0
  IsFor candidates a p =
      (q : PlaceResult) × In q (places_at a.slot_id candidates)
      × (p.slot_id ≡ a.slot_id)
      × (p.name ≡ q.name)
      × (p.lat ≡ q.lat)
      × (p.lng ≡ q.lng)
      × (p.kind ≡ a.kind)
      × (p.anchor_minutes ≡ a.anchor_minutes)
      × (p.required ≡ a.required)

  -- One candidate for each activity that has any, in the order of the activities.
  abbrev pub Chooses : List (ℕ × List PlaceResult) → List ActivityIntent → List RoutePlace → Type 0
  Chooses candidates [] [] = Unit
  Chooses candidates [] (p ∷ ps) = ⊥
  Chooses candidates (a ∷ as_) [] =
      (length (places_at a.slot_id candidates) ≡ 0) × Chooses candidates as_ []
  Chooses candidates (a ∷ as_) (p ∷ ps) =
      ((length (places_at a.slot_id candidates) ≡ 0) × Chooses candidates as_ (p ∷ ps))
      ⊎ (IsFor candidates a p × Chooses candidates as_ ps)

  skipped-Chooses :
      (candidates : List (ℕ × List PlaceResult)) (a : ActivityIntent) (as_ : List ActivityIntent)
      (ps : List RoutePlace)
      → length (places_at a.slot_id candidates) ≡ 0
      → Chooses candidates as_ ps
      → Chooses candidates (a ∷ as_) ps
  skipped-Chooses candidates a as_ [] bare h = (bare, h)
  skipped-Chooses candidates a as_ (p ∷ ps) bare h = inl (bare, h)

  route_place-IsFor :
      (candidates : List (ℕ × List PlaceResult)) (a : ActivityIntent) (p : RoutePlace)
      (t : List PlaceResult)
      → ((q : PlaceResult) → In q t → In q (places_at a.slot_id candidates))
      → In p (map (route_place a) t)
      → IsFor candidates a p
  route_place-IsFor candidates a p [] among h = absurd h
  route_place-IsFor candidates a p (q ∷ t) among (inl same) =
      subst (IsFor candidates a) same
        (q, among q (inl refl), refl, refl, refl, refl, refl, refl, refl)
  route_place-IsFor candidates a p (q ∷ t) among (inr later) =
      route_place-IsFor candidates a p t (λ r i. among r (inr i)) later

  taken-Chooses :
      (candidates : List (ℕ × List PlaceResult)) (a : ActivityIntent) (as_ : List ActivityIntent)
      (ps : List RoutePlace)
      → ((qs : List RoutePlace) → Picks (groups_of candidates as_) qs → Chooses candidates as_ qs)
      → Picks (group_of candidates a ∷ groups_of candidates as_) ps
      → Chooses candidates (a ∷ as_) ps
  taken-Chooses candidates a as_ [] later k = absurd k
  taken-Chooses candidates a as_ (p ∷ qs) later k = inr (
    route_place-IsFor candidates a p (places_at a.slot_id candidates) (λ q i. i) k.0,
    later qs k.1,
  )

  Picks-Chooses :
      (candidates : List (ℕ × List PlaceResult)) (activities : List ActivityIntent)
      (ps : List RoutePlace)
      → Picks (groups_of candidates activities) ps
      → Chooses candidates activities ps
  Picks-Chooses candidates [] [] h = tt
  Picks-Chooses candidates [] (p ∷ ps) h = absurd h
  Picks-Chooses candidates (a ∷ as_) ps h =
      let t = places_at a.slot_id candidates in
      let many = length-map (route_place a) t in
      elim (Bool-cases (ltb 0 (length (map (route_place a) t)))) [
        | inr bare ↦
            skipped-Chooses candidates a as_ ps (ground (arith, bare, many))
              (Picks-Chooses candidates as_ ps (rw bare at h))
        | inl filled ↦
            taken-Chooses candidates a as_ ps (λ qs k. Picks-Chooses candidates as_ qs k)
              (rw filled at h)
      ]

  nowhere :
      {S : Type 0} (scoring : Scoring S) (mode : Mode) (locked : Bool) (roll : ℕ) (b : Bool)
      → Visits b [] (optimize_route fl lower geo center scoring mode locked roll [])
  unfolding optimize_route build_candidate_combinations pick_weighted_top_route
  nowhere scoring mode locked roll true = refl
  nowhere scoring mode locked roll false = Permᴰ.nil

  -- The route, whatever is drawn, visits one candidate for each activity that has candidates, and no
  -- other place, in the order of the activities if it is locked. Each place has the slot, the type, the
  -- anchor and the necessity of its activity.
  pub optimize_route-Visits :
      {S : Type 0} (scoring : Scoring S) (mode : Mode) (locked : Bool) (roll : ℕ)
      (candidates : List (ℕ × List PlaceResult)) (activities : List ActivityIntent)
      → (sequence : List RoutePlace) × Chooses candidates activities sequence
        × Visits locked sequence (
            optimize_route fl lower geo center scoring mode locked roll
              (groups_of candidates activities))
  optimize_route-Visits scoring mode locked roll candidates activities =
      let groups = groups_of candidates activities in
      let full : All (λ k. 0 < length k.places) groups =
        All-select_In (λ k. 0 < length k.places) (λ k. ltb 0 (length k.places))
          (map (group_of candidates) activities) (λ k i y. ground (arith, y)) in
      elim (List-cases groups) [
        | inl none_left ↦ (
          [],
          Picks-Chooses candidates activities [] (rw none_left tt),
          rw none_left (nowhere scoring mode locked roll locked),
        )
        | inr (g, gs, some_left) ↦
            let (sequence, picks, visits) =
              groups-Visits scoring mode locked roll g gs
                (subst (All (λ k. 0 < length k.places)) some_left full) in
            (
              sequence,
              Picks-Chooses candidates activities sequence (rw some_left picks),
              rw some_left visits,
            )
      ]
