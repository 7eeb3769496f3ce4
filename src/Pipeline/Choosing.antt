-- ===== src/Pipeline/Choosing.antt =====
-- backend/src/modules/ai/steps/optimize-route.step.ts: the beam search finds a place for each activity.
use mathlib.Core.List.{Permᴰ}
use mathlib.Core.List.Permᴰ
use mathlib.Core.Path.{subst}
use ai_planner.Prelude.{
  take, length-take, take_some, append_nil, append_assoc, length-append, All-take, All-append,
  All_empty, All-select_In, All_of_In, All-map, suc, ◌+◌, ◌≤◌, ◌<◌, ◌≡◌, refl, ap, sym, ◌∙◌, arith,
  Bool, true, false, List, [], ◌∷◌, ◌++◌, map, any, select, length, ltb, All, In, not, str_eq,
  String, inl, inr, Bool-cases,
}
use ai_planner.Prisma.Selects.{length-map}
use ai_planner.Pipeline.Places.{RoutePlace}
use ai_planner.Pipeline.Visiting.{All-Perm}
use ai_planner.Pipeline.Beam.{
  CandidateGroup, BeamState, Scoring, beam_width, push_candidate, is_fresh, candidates,
  all_candidates, search, no_places, build_candidate_combinations,
}

-- One place of each group, in the order of the groups.
abbrev pub Picks : List CandidateGroup → List RoutePlace → Type 0
Picks [] [] = Unit
Picks [] (p ∷ ps) = ⊥
Picks (g ∷ gs) [] = ⊥
Picks (g ∷ gs) (p ∷ ps) = In p g.places × Picks gs ps

Picks-append :
    (gs : List CandidateGroup) (ps : List RoutePlace) (g : CandidateGroup) (p : RoutePlace)
    → Picks gs ps
    → In p g.places
    → Picks (gs ++ (g ∷ [])) (ps ++ (p ∷ []))
Picks-append [] [] g p h i = (i, tt)
Picks-append [] (q ∷ ps) g p h i = absurd h
Picks-append (k ∷ gs) [] g p h i = absurd h
Picks-append (k ∷ gs) (q ∷ ps) g p h i = (h.0, Picks-append gs ps g p h.1 i)

Picks-filled :
    (g : CandidateGroup) (gs : List CandidateGroup) (ps : List RoutePlace)
    → Picks (g ∷ gs) ps
    → ltb 0 (length ps) ≡ true
Picks-filled g gs [] h = absurd h
Picks-filled g gs (p ∷ ps) h = ground arith

module _ {A : Type 0} where
  pub length-Perm : {s t : List A} → Permᴰ s t → length s ≡ length t
  length-Perm Permᴰ.nil = refl
  length-Perm (Permᴰ.cons e d) = ap suc (length-Perm d)
  length-Perm (Permᴰ.swap e e') = refl
  length-Perm (Permᴰ.trans d d') = length-Perm d ∙ length-Perm d'

length-append_one : {A : Type 0} (x : A) (t : List A) → length (t ++ (x ∷ [])) ≡ suc (length t)
length-append_one x [] = refl
length-append_one x (y ∷ t) = ap suc (length-append_one x t)

module _ {S : Type 0} (scoring : Scoring S) where
  abbrev kept_of : CandidateGroup → List (BeamState S) → List (BeamState S)
  kept_of g beams = take beam_width (scoring.sort (all_candidates scoring g beams))

  -- A beam has one place for each group so far, and as many keys.
  abbrev IsGrown : List CandidateGroup → BeamState S → Type 0
  IsGrown gs b = Picks gs b.places × (length b.keys ≡ length b.places)

  push-IsGrown :
      (gs : List CandidateGroup) (g : CandidateGroup) (beam : BeamState S) (duplicate : Bool)
      (p : RoutePlace)
      → IsGrown gs beam
      → In p g.places
      → IsGrown (gs ++ (g ∷ [])) (push_candidate scoring beam duplicate p)
  unfolding push_candidate
  push-IsGrown gs g beam duplicate p h i =
      (Picks-append gs beam.places g p h.0 i, ap suc h.1 ∙ sym (length-append_one p beam.places))

  candidates-IsGrown :
      (gs : List CandidateGroup) (g : CandidateGroup) (beam : BeamState S)
      → IsGrown gs beam
      → All (IsGrown (gs ++ (g ∷ []))) (candidates scoring g beam)
  unfolding candidates
  candidates-IsGrown gs g beam h =
      elim (Bool-cases (ltb 0 (length (select (is_fresh scoring beam) g.places)))) [
        | inl fresh ↦ rw fresh (
            All-map _ (push_candidate scoring beam false) _ (
              All-select_In _ (is_fresh scoring beam) g.places
                (λ p i fresh_one. push-IsGrown gs g beam false p h i)))
        | inr stale ↦ rw stale (elim (Bool-cases (ltb 0 (length beam.places))) [
          | inl some_places ↦ rw some_places (
              All-map _ (push_candidate scoring beam true) _
                (All_of_In _ g.places (λ p i. push-IsGrown gs g beam true p h i)))
          | inr none_yet ↦ rw none_yet tt
        ])
      ]

  all_candidates-IsGrown :
      (gs : List CandidateGroup) (g : CandidateGroup) (beams : List (BeamState S))
      → All (IsGrown gs) beams
      → All (IsGrown (gs ++ (g ∷ []))) (all_candidates scoring g beams)
  unfolding all_candidates
  all_candidates-IsGrown gs g [] h = tt
  all_candidates-IsGrown gs g (b ∷ bs) h =
      All-append _ (candidates scoring g b) (all_candidates scoring g bs)
        (candidates-IsGrown gs g b h.0) (all_candidates-IsGrown gs g bs h.1)

  kept-IsGrown :
      (done : List CandidateGroup) (g : CandidateGroup) (beams : List (BeamState S))
      → All (IsGrown done) beams
      → All (IsGrown (done ++ (g ∷ []))) (kept_of g beams)
  kept-IsGrown done g beams h =
      All-take _ beam_width (scoring.sort (all_candidates scoring g beams)) (
        All-Perm _ (Permᴰ.symm (scoring.sort-Perm (all_candidates scoring g beams)))
          (all_candidates-IsGrown done g beams h))

  search-IsGrown :
      (done groups : List CandidateGroup) (beams : List (BeamState S))
      → All (IsGrown done) beams
      → All (IsGrown (done ++ groups)) (search scoring groups beams)
  unfolding search
  search-IsGrown done [] beams h = subst (λ gs. All (IsGrown gs) beams) (sym (append_nil done)) h
  search-IsGrown done (g ∷ gs) beams h =
      let kept : List (BeamState S) = kept_of g beams in
      let grown : All (IsGrown (done ++ (g ∷ []))) kept = kept-IsGrown done g beams h in
      elim (Bool-cases (ltb 0 (length kept))) [
        | inl more ↦ rw more (
            subst (λ k. All (IsGrown k) (search scoring gs kept)) (append_assoc done (g ∷ []) gs)
              (search-IsGrown (done ++ (g ∷ [])) gs kept grown))
        | inr over ↦ rw over (All_empty _ kept (ground arith))
      ]

  -- A beam finds a place in each group that has one.
  select-fresh :
      (beam : BeamState S) (t : List RoutePlace)
      → length beam.keys ≡ 0
      → length (select (is_fresh scoring beam) t) ≡ length t
  select-fresh beam [] h = refl
  select-fresh beam (p ∷ t) h = elim (Bool-cases (is_fresh scoring beam p)) [
    | inl fresh ↦ rw fresh (ap suc (select-fresh beam t h))
    | inr stale ↦ absurd (used beam.keys h stale)
  ]
    where
      used :
          (keys : List String)
          → length keys ≡ 0
          → not (any (λ k. str_eq k (scoring.place_key p.name)) keys) ≡ false
          → ⊥
      used [] e h' = ground arith
      used (k ∷ ks) e h' = absurd (omega arith)

  candidates-some :
      (gs : List CandidateGroup) (g : CandidateGroup) (beam : BeamState S)
      → IsGrown gs beam
      → 0 < length g.places
      → 0 < length (candidates scoring g beam)
  unfolding candidates
  candidates-some gs g beam h full = ground (
    arith,
    select-fresh beam g.places,
    length-map (push_candidate scoring beam false) (select (is_fresh scoring beam) g.places),
    length-map (push_candidate scoring beam true) g.places,
  )

  kept-some :
      (gs : List CandidateGroup) (g : CandidateGroup) (beams : List (BeamState S))
      → All (IsGrown gs) beams
      → 0 < length g.places
      → 0 < length beams
      → 0 < length (kept_of g beams)
  unfolding all_candidates
  kept-some gs g [] h full some_beam = absurd (omega arith)
  kept-some gs g (b ∷ bs) h full some_beam =
      let one = candidates-some gs g b h.0 full in
      let all : List (BeamState S) = all_candidates scoring g (b ∷ bs) in
      let sorted : length (scoring.sort all) ≡ length all = length-Perm (scoring.sort-Perm all) in
      let whole : length all
          ≡ length (candidates scoring g b) + length (all_candidates scoring g bs) =
        length-append (candidates scoring g b) (all_candidates scoring g bs) in
      take_some 63 (scoring.sort all) (omega (arith, sorted, whole, one))

  search-some :
      (done groups : List CandidateGroup) (beams : List (BeamState S))
      → All (IsGrown done) beams
      → All (λ g. 0 < length g.places) groups
      → 0 < length beams
      → length beams ≤ 64
      → (0 < length (search scoring groups beams)) × (length (search scoring groups beams) ≤ 64)
  unfolding search
  search-some done [] beams h full some_beam few = (some_beam, few)
  search-some done (g ∷ gs) beams h full some_beam few =
      let kept : List (BeamState S) = kept_of g beams in
      let filled : 0 < length kept = kept-some done g beams h full.0 some_beam in
      let more : ltb 0 (length kept) ≡ true = ground (arith, filled) in
      let grown : All (IsGrown (done ++ (g ∷ []))) kept = kept-IsGrown done g beams h in
      rw more (
        search-some (done ++ (g ∷ [])) gs kept grown full.1 filled
          (length-take beam_width (scoring.sort (all_candidates scoring g beams))))

  -- With a group at all, no combination is empty.
  filled-places :
      (g : CandidateGroup) (gs : List CandidateGroup) (beams : List (BeamState S))
      → All (IsGrown (g ∷ gs)) beams
      → All (Picks (g ∷ gs)) (select (λ ps. ltb 0 (length ps)) (map (λ b. b.places) beams))
        × (length (select (λ ps. ltb 0 (length ps)) (map (λ b. b.places) beams)) ≡ length beams)
  filled-places g gs [] h = (tt, refl)
  filled-places g gs (b ∷ bs) h =
      let filled : ltb 0 (length b.places) ≡ true = Picks-filled g gs b.places h.0.0 in
      let (each, many) = filled-places g gs bs h.1 in rw filled ((h.0.0, each), ap suc many)

  -- Where there is an activity, and each has candidates: the beam search finds a combination, at most
  -- 64 of them, and each combination has one candidate for each activity, in their order.
  pub combinations-Picks :
      (g : CandidateGroup) (gs : List CandidateGroup)
      → All (λ k. 0 < length k.places) (g ∷ gs)
      → All (Picks (g ∷ gs)) (build_candidate_combinations scoring (g ∷ gs))
        × (0 < length (build_candidate_combinations scoring (g ∷ gs)))
        × (length (build_candidate_combinations scoring (g ∷ gs)) ≤ 64)
  unfolding build_candidate_combinations
  combinations-Picks g gs full =
      let grown : All (IsGrown (g ∷ gs)) (search scoring (g ∷ gs) (no_places scoring)) =
        search-IsGrown [] (g ∷ gs) (no_places scoring) ((tt, refl), tt) in
      let (found, few) =
        search-some [] (g ∷ gs) (no_places scoring) ((tt, refl), tt) full (omega arith)
          (omega arith) in
      let (each, many) = filled-places g gs (search scoring (g ∷ gs) (no_places scoring)) grown in
      (each, omega (arith, many, found), omega (arith, many, few))
