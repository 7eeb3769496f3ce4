-- ===== src/Pipeline/Picking.antt =====
-- backend/src/modules/ai/steps/select-candidates.step.ts: what is drawn is one of the entries.
use mathlib.Core.Path.{subst}
use mathlib.Core.Option.{some-injective}
use ai_planner.Prelude.{
  ℕ, String, some, List, [], ◌∷◌, ◌≡◌, inl, inr, All, All-take, All-sort_by, Bool-cases, List-cases,
  Option-cases, length, take, sort_by, first_of, ltb,
}
use ai_planner.Prisma.Selects.{All-select}
use ai_planner.Pipeline.Scoring.{Floats, whole}
use ai_planner.Pipeline.Select.{
  ScoredEntry, ranks_after, draw, total_weight, top_band, pick_from_top_band, weight_of, first_pick,
}

module _ (fl : Floats) (lower : String → String) where
  draw-holds :
      (P : ScoredEntry → Type 0) (top cursor : ℕ) (last : ScoredEntry) (t : List ScoredEntry)
      → P last
      → All P t
      → P (draw fl lower top cursor last t)
  draw-holds P top cursor last [] h all = h
  draw-holds P top cursor last (e ∷ t) h all =
      let left = fl.sub cursor (weight_of fl lower top e) in
      elim (Bool-cases (fl.le left (whole fl lower 0))) [
        | inl y ↦ rw y all.0
        | inr n ↦ rw n (draw-holds P top left e t all.0 all.1)
      ]

  first-holds :
      (P : ScoredEntry → Type 0) (t : List ScoredEntry) {e : ScoredEntry}
      → All P t
      → first_of t ≡ some e
      → P e
  first-holds P [] all found = cc
  first-holds P (x ∷ t) {e} all found = subst P (some-injective x e found) all.0

  pick-holds :
      (P : ScoredEntry → Type 0) (roll : ℕ) (t : List ScoredEntry) {e : ScoredEntry}
      → All P t
      → pick_from_top_band fl lower roll t ≡ some e
      → P e
  unfolding pick_from_top_band
  pick-holds P roll t {e} all found =
      let all' = All-sort_by P (ranks_after fl lower) t all in
      elim (List-cases (sort_by (ranks_after fl lower) t)) [
        | inl empty ↦ let none_left = rw (empty, pick_from_top_band) at found in cc
        | inr (head, r, same) ↦
            let (h, rest) : P head × All P r = subst (All P) same all' in
            let band = top_band fl lower head r in
            let near : All P band =
              All-select P (λ x. fl.le (fl.sub head.score x.score) (fl.lit 35 100)) (take 3 r)
                (All-take P 3 r rest) in
            let cursor =
              fl.mul roll (total_weight fl lower head.score (head ∷ band) (whole fl lower 0)) in
            elim (Bool-cases (ltb 0 (length band))) [
              | inl many ↦
                  subst P
                    (some-injective (draw fl lower head.score cursor head (head ∷ band)) e
                      (rw (same, many, pick_from_top_band) at found))
                    (draw-holds P head.score cursor head (head ∷ band) h (h, near))
              | inr one ↦
                  subst P (some-injective head e (rw (same, one, pick_from_top_band) at found)) h
            ]
      ]

  pub first_pick-holds :
      (P : ScoredEntry → Type 0) (roll : ℕ) (t : List ScoredEntry) {e : ScoredEntry}
      → All P t
      → first_pick fl lower roll t ≡ some e
      → P e
  first_pick-holds P roll t {e} all found =
      elim (Option-cases (pick_from_top_band fl lower roll t)) [
        | inl absent ↦ first-holds P t all (rw (absent, first_pick) at found)
        | inr (x, there) ↦
            subst P (some-injective x e (rw (there, first_pick) at found))
              (pick-holds P roll t all there)
      ]
