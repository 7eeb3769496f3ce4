-- ===== src/Region/Chunks.antt =====
-- backend/src/shared/region/region.service.ts: the chunks of Hangul of a text, their parts, and
-- `stripParticles`.
use Prim.Native.Char.{Char, code}
use ai_planner.Prelude.{
  ℕ, zero, suc, ◌-◌, ◌≡◌, refl, Bool, true, false, String, none, some, List, [], ◌∷◌, ◌++◌, any,
  if◌then◌else◌, between, is_empty, size, trim, str_eq, rest_after, take_text, drop_text, ltb,
}

-- The alternatives of `TRAILING_PARTICLE_RE`
abbrev pub particles : List String
particles =
    "에서" ∷ "에" ∷ "으로" ∷ "로" ∷ "부터" ∷ "까지" ∷ "은" ∷ "는" ∷ "이" ∷ "가" ∷ "도" ∷ "만" ∷ "씩" ∷ "마저" ∷ "조차"
    ∷ "이라도" ∷ "라도" ∷ "이나" ∷ "나" ∷ "뿐" ∷ "밖에" ∷ "께서" ∷ "께" ∷ "와" ∷ "과" ∷ "랑" ∷ "하고" ∷ "쯤" ∷ "정도"
    ∷ "근처" ∷ "주변" ∷ "부근" ∷ "일대" ∷ "쪽" ∷ "요" ∷ []

-- Whether a text is one or more of the particles, `(?:...)+` to the end. Each particle takes a
-- character at least, so that the length of the text is enough fuel.
unfoldable pub only_particles : ℕ → String → Bool
only_particles zero s = false
only_particles (suc fuel) s =
    any
      (λ p. elim (rest_after p s) [
        | none ↦ false
        | some rest ↦ if is_empty rest then true else only_particles fuel rest
      ])
      particles

-- `s.replace(TRAILING_PARTICLE_RE, '')`: the first place from which there are only particles
unfoldable pub cut_particles : String → String
unfolding only_particles
cut_particles String.[] = ""
cut_particles (String.◌∷◌ c s) =
    let rest = cut_particles s in
    if only_particles (suc (size s)) (String.◌∷◌ c s) then "" else String.◌∷◌ c rest

-- The loop of `stripParticles`, with fuel
unfoldable pub strip_loop : ℕ → String → String → String
unfolding cut_particles
strip_loop zero prev s = s
strip_loop (suc fuel) prev s =
    let next = strip_loop fuel s (trim (cut_particles s)) in
    if str_eq prev s then s else if is_empty s then s else next

unfoldable pub strip_particles : String → String
unfolding strip_loop
strip_particles s = strip_loop (suc (suc (size s))) "" s

-- `[가-힣]`
abbrev pub is_syllable : Char → Bool
is_syllable c = between 44032 55203 (code c)

-- The chunk that a text starts with, and the chunks after it.
abbrev pub add_chunk : String × List String → List String
add_chunk t = if is_empty t.0 then t.1 else t.0 ∷ t.1

abbrev pub chunks_from : String → String × List String
chunks_from String.[] = ("", [])
chunks_from (String.◌∷◌ c s) =
    let rest = chunks_from s in
    if is_syllable c then (String.◌∷◌ c rest.0, rest.1) else ("", add_chunk rest)

-- `text.match(/[가-힣]+/g) ?? []`
abbrev pub chunks : String → List String
chunks text = add_chunk (chunks_from text)

-- `chunk.slice(start, start + len)` for `n` values of `start` from the given one on
abbrev pub slices : ℕ → ℕ → ℕ → String → List String
slices len start zero chunk = []
slices len start (suc n) chunk =
    take_text len (drop_text start chunk) ∷ slices len (suc start) n chunk

-- Those of the two loops, for the lengths `len` down to 2
abbrev pub parts_from : ℕ → String → List String
parts_from zero chunk = []
parts_from (suc len) chunk =
    let shorter = parts_from len chunk in
    if ltb len 1 then [] else slices (suc len) 0 (suc (size chunk) - suc len) chunk ++ shorter

abbrev pub parts : String → List String
parts chunk = parts_from (if ltb (size chunk - 1) 8 then size chunk - 1 else 8) chunk

parts_example : parts "가나다라" ≡ "가나다" ∷ "나다라" ∷ "가나" ∷ "나다" ∷ "다라" ∷ []
parts_example = refl

chunks_example : chunks "ab 홍대 성수동!" ≡ "홍대" ∷ "성수동" ∷ []
chunks_example = refl

strip_example : strip_particles "홍대에서부터" ≡ "홍대"
unfolding strip_particles strip_loop cut_particles only_particles
strip_example = refl
