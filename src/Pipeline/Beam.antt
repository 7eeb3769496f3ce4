-- ===== src/Pipeline/Beam.antt =====
-- backend/src/modules/ai/steps/optimize-route.step.ts: `buildCandidateCombinations`, the beam search for
-- a place for each activity. Scores are floats, which enter as a parameter of any type with how they
-- are made; so does the order that `sort` gives equal scores, and `normalizePlaceKey` as any function.
use mathlib.Core.List.{Permᴰ}
use ai_planner.Prelude.{
  take, ℕ, Bool, true, false, String, Option, none, some, List, [], ◌∷◌, ◌++◌, map, any, select,
  length, if◌then◌else◌, not, str_eq, ltb,
}
use ai_planner.Pipeline.Places.{RoutePlace}

pub record CandidateGroup : Type 0 where
  pub slot_id : ℕ
  pub places : List RoutePlace

pub record BeamState (S : Type 0) : Type 0 where
  pub places : List RoutePlace
  pub keys : List String
  pub score : S

abbrev pub beam_width : ℕ
beam_width = 64

pub record Scoring (S : Type 0) : Type 0 where
  pub no_score : S
  -- the score with one more place, after the last one if there is one; whether it is a duplicate
  pub extend : S → Option RoutePlace → RoutePlace → Bool → S
  -- `normalizePlaceKey`
  pub place_key : String → String
  -- `next.sort((a, b) => b.score - a.score)`
  pub sort : List (BeamState S) → List (BeamState S)
  pub sort-Perm : (beams : List (BeamState S)) → Permᴰ (sort beams) beams

abbrev pub last : List RoutePlace → Option RoutePlace
last [] = none
last (p ∷ []) = some p
last (p ∷ q ∷ ps) = last (q ∷ ps)

module _ {S : Type 0} (scoring : Scoring S) where
  abbrev pub key_of : RoutePlace → String
  key_of p = scoring.place_key p.name

  -- `pushCandidate`
  unfoldable pub push_candidate : BeamState S → Bool → RoutePlace → BeamState S
  push_candidate beam duplicate p = record {
    places = beam.places ++ (p ∷ []);
    keys = key_of p ∷ beam.keys;
    score = scoring.extend beam.score (last beam.places) p duplicate;
  }

  abbrev pub is_fresh : BeamState S → RoutePlace → Bool
  is_fresh beam p = not (any (λ k. str_eq k (key_of p)) beam.keys)

  -- What one beam becomes: with each place that it does not have yet, and if there is none, with each
  -- place.
  unfoldable pub candidates : CandidateGroup → BeamState S → List (BeamState S)
  candidates group beam =
      if ltb 0 (length (select (is_fresh beam) group.places))
      then map (push_candidate beam false) (select (is_fresh beam) group.places)
      else if ltb 0 (length beam.places)
      then map (push_candidate beam true) group.places
      else []

  unfoldable pub all_candidates : CandidateGroup → List (BeamState S) → List (BeamState S)
  all_candidates group [] = []
  all_candidates group (beam ∷ beams) = candidates group beam ++ all_candidates group beams

  -- The loop over the groups, which stops when no beam is left.
  unfoldable pub search : List CandidateGroup → List (BeamState S) → List (BeamState S)
  search [] beams = beams
  search (group ∷ groups) beams =
      let kept = take beam_width (scoring.sort (all_candidates group beams)) in
      let rest = search groups kept in if ltb 0 (length kept) then rest else kept

  abbrev pub no_places : List (BeamState S)
  no_places = record { places = []; keys = []; score = scoring.no_score } ∷ []

  unfoldable pub build_candidate_combinations : List CandidateGroup → List (List RoutePlace)
  unfolding search
  build_candidate_combinations groups =
      select (λ ps. ltb 0 (length ps)) (map (λ b. b.places) (search groups no_places))
