-- ===== src/Region/Stripping.antt =====
-- backend/src/shared/region/region.service.ts: the loop of `stripParticles` ends.
use mathlib.Core.Path.{subst}
use Prim.Native.Char.{Char}
use ai_planner.Prelude.{
  ℕ, zero, suc, ◌+◌, ◌<◌, ◌≡◌, refl, ap, sym, ◌∙◌, inl, inr, ◌⊎◌, arith, true, String, ◌&&◌,
  Bool-cases, is_empty, is_space, size, trim, trim_start, trim_end, str_eq, str_eq_iff,
}
use ai_planner.Region.Chunks.{only_particles, cut_particles, strip_loop, strip_particles}

-- A text that is as it was, or shorter.
abbrev IsShorter : String → String → Type 0
IsShorter s t = (s ≡ t) ⊎ (size s < size t)

IsShorter-trans : {s t u : String} → IsShorter s t → IsShorter t u → IsShorter s u
IsShorter-trans {s} {t} {u} (inl p) (inl q) = inl (p ∙ q)
IsShorter-trans {s} {t} {u} (inl p) (inr q) = inr (subst (λ x. size x < size u) (sym p) q)
IsShorter-trans {s} {t} {u} (inr p) (inl q) = inr (subst (λ x. size s < size x) q p)
IsShorter-trans {s} {t} {u} (inr p) (inr q) = inr (omega (arith, p, q))

longer-IsShorter :
    (c : Char) {s t : String} → IsShorter s t → IsShorter (String.◌∷◌ c s) (String.◌∷◌ c t)
longer-IsShorter c (inl p) = inl (ap (String.◌∷◌ c) p)
longer-IsShorter c (inr p) = inr (omega (arith, p))

cut_particles-IsShorter : (s : String) → IsShorter (cut_particles s) s
unfolding cut_particles
cut_particles-IsShorter String.[] = inl refl
cut_particles-IsShorter (String.◌∷◌ c s) =
    elim (Bool-cases (only_particles (suc (size s)) (String.◌∷◌ c s))) [
      | inl y ↦ rw (y, cut_particles) (inr (omega arith))
      | inr n ↦ rw (n, cut_particles) (longer-IsShorter c (cut_particles-IsShorter s))
    ]

trim_end-IsShorter : (s : String) → IsShorter (trim_end s) s
trim_end-IsShorter String.[] = inl refl
trim_end-IsShorter (String.◌∷◌ c s) = elim (Bool-cases (is_space c && is_empty (trim_end s))) [
  | inl y ↦ rw y (inr (omega arith))
  | inr n ↦ rw n (longer-IsShorter c (trim_end-IsShorter s))
]

size_le : {s t : String} → IsShorter s t → size s < suc (size t)
size_le (inl p) = omega (arith, ap size p)
size_le (inr p) = omega (arith, p)

trim_start-IsShorter : (s : String) → IsShorter (trim_start s) s
trim_start-IsShorter String.[] = inl refl
trim_start-IsShorter (String.◌∷◌ c s) = elim (Bool-cases (is_space c)) [
  | inl y ↦ rw y (inr (size_le (trim_start-IsShorter s)))
  | inr n ↦ rw n (inl refl)
]

-- One round of the loop
abbrev next_text : String → String
next_text s = trim (cut_particles s)

next_text-IsShorter : (s : String) → IsShorter (next_text s) s
next_text-IsShorter s =
    IsShorter-trans (trim_start-IsShorter (trim_end (cut_particles s)))
      (IsShorter-trans (trim_end-IsShorter (cut_particles s)) (cut_particles-IsShorter s))

-- There is nothing left to take off.
abbrev IsBare : String → Type 0
IsBare s = (is_empty s ≡ true) ⊎ (next_text s ≡ s)

stops : (fuel : ℕ) (s t : String) → t ≡ s → strip_loop fuel s t ≡ s
unfolding strip_loop
stops zero s t same = same
stops (suc fuel) s t same = rw ((str_eq_iff s t).1 (sym same), strip_loop) same

strip_loop-IsBare :
    (fuel : ℕ) (prev s : String)
    → (is_empty prev ≡ true) ⊎ (next_text prev ≡ s)
    → size s + 1 < fuel
    → IsBare (strip_loop fuel prev s)
unfolding strip_loop
strip_loop-IsBare zero prev s h enough = absurd (omega (arith, enough))
strip_loop-IsBare (suc fuel) prev s h enough = elim (Bool-cases (str_eq prev s)) [
  | inl same ↦
      let p = (str_eq_iff prev s).0 same in
      rw (same, strip_loop)
        (elim h [
          | inl empty ↦ inl (subst (λ x. is_empty x ≡ true) p empty)
          | inr e ↦ inr (subst (λ x. next_text x ≡ s) p e)
        ])
  | inr differ ↦ elim (Bool-cases (is_empty s)) [
    | inl empty ↦ rw (differ, empty, strip_loop) (inl empty)
    | inr full ↦
        rw (differ, full, strip_loop)
          (elim (next_text-IsShorter s) [
            | inl same ↦ subst IsBare (sym (stops fuel s (next_text s) same)) (inr same)
            | inr shorter ↦
                strip_loop-IsBare fuel s (next_text s) (inr refl) (omega (arith, shorter, enough))
          ])
  ]
]

-- The loop of `stripParticles` ends with a text that is empty, or that it does not change any more.
strip_particles-IsBare : (s : String) → IsBare (strip_particles s)
unfolding strip_particles
strip_particles-IsBare s = strip_loop-IsBare (suc (suc (size s))) "" s (inl refl) (omega arith)
