-- ===== src/Account/Nickname.antt =====
-- backend/src/modules/auth/auth.service.ts: `normalizeNickname` and `assertNickname`.
use Prim.Native.Char.{Char, code}
use mathlib.Core.Path.{subst}
use ai_planner.Prelude.{
  between, is_space, size, ◌≤◌, ◌≡◌, refl, ap, arith, Bool, true, false, String, Result, ok, err,
  if◌then◌else◌, ltb, not, ◌==◌, ◌&&◌, ◌||◌, Bool-cases, inl, inr,
}
use ai_planner.Schema.{HttpError, bad_request}

-- `[가-힣ㄱ-ㅎㅏ-ㅣa-zA-Z]`
abbrev is_letter : Char → Bool
is_letter c =
    let n = code c in
    between 44032 55203 n
    || between 12593 12622 n
    || between 12623 12643 n
    || between 97 122 n
    || between 65 90 n

-- The first and the last character of a nickname.
abbrev is_outer : Char → Bool
is_outer c = is_letter c || between 48 57 (code c)

-- A character within it: also a space, `_` or `-`.
abbrev is_inner : Char → Bool
is_inner c = is_outer c || code c == 32 || code c == 95 || code c == 45

-- The first character of a text, and `c` if there is none.
abbrev pub first : Char → String → Char
first c String.[] = c
first c (String.◌∷◌ d s) = d

-- The rest of `raw.replace(/\s+/g, ' ').trim()` after a character; `gap` tells whether white space
-- has come since.
unfoldable pub squeeze : Bool → String → String
squeeze gap String.[] = ""
squeeze gap (String.◌∷◌ c s) =
    let spaced = squeeze true s in
    let next = squeeze false s in
    if is_space c
    then spaced
    else if gap
    then String.◌∷◌ (first c " ") (String.◌∷◌ c next)
    else String.◌∷◌ c next

unfoldable pub normalize_nickname : String → String
unfolding squeeze
normalize_nickname String.[] = ""
normalize_nickname (String.◌∷◌ c s) =
    let rest = normalize_nickname s in if is_space c then rest else String.◌∷◌ c (squeeze false s)

-- `ALLOWED`, after the first character: what comes is inner, and the last is outer.
abbrev pub ends_well : Bool → String → Bool
ends_well last_outer String.[] = last_outer
ends_well last_outer (String.◌∷◌ c s) = is_inner c && ends_well (is_outer c) s

abbrev pub is_allowed : String → Bool
is_allowed String.[] = false
is_allowed (String.◌∷◌ c s) = is_outer c && ends_well true s

-- `HAS_LETTER`
abbrev pub has_letter : String → Bool
has_letter String.[] = false
has_letter (String.◌∷◌ c s) = is_letter c || has_letter s

-- `assertNickname`. The length of JavaScript counts a character above 65535 twice; `ALLOWED` admits
-- none of those.
unfoldable pub assert_nickname : String → Result HttpError String
assert_nickname raw =
    let nickname = normalize_nickname raw in
    if ltb (size nickname) 2 || ltb 20 (size nickname)
    then err bad_request
    else if not (is_allowed nickname)
    then err bad_request
    else if not (has_letter nickname)
    then err bad_request
    else ok nickname

squeeze-squeeze : (gap : Bool) (s : String) → squeeze false (squeeze gap s) ≡ squeeze gap s
unfolding squeeze
squeeze-squeeze gap String.[] = refl
squeeze-squeeze true (String.◌∷◌ c s) = elim (Bool-cases (is_space c)) [
  | inl space ↦ rw space (squeeze-squeeze true s)
  | inr other ↦
      rw other
        (rw other (ap (λ t. String.◌∷◌ (first c " ") (String.◌∷◌ c t)) (squeeze-squeeze false s)))
]
squeeze-squeeze false (String.◌∷◌ c s) = elim (Bool-cases (is_space c)) [
  | inl space ↦ rw space (squeeze-squeeze true s)
  | inr other ↦ rw other (rw other (ap (λ t. String.◌∷◌ c t) (squeeze-squeeze false s)))
]

normalize-normalize :
    (s : String) → normalize_nickname (normalize_nickname s) ≡ normalize_nickname s
unfolding normalize_nickname
normalize-normalize String.[] = refl
normalize-normalize (String.◌∷◌ c s) = elim (Bool-cases (is_space c)) [
  | inl space ↦ rw space (normalize-normalize s)
  | inr other ↦ rw other (rw other (ap (λ t. String.◌∷◌ c t) (squeeze-squeeze false s)))
]

-- A nickname that is accepted is accepted again as it is, its length is from 2 to 20, and it holds a
-- letter.
pub assert_nickname_fixed :
    (raw nickname : String)
    → assert_nickname raw ≡ ok nickname
    → (assert_nickname nickname ≡ ok nickname)
      × (2 ≤ size nickname)
      × (size nickname ≤ 20)
      × (has_letter nickname ≡ true)
unfolding assert_nickname
assert_nickname_fixed raw nickname h =
    let same : normalize_nickname raw ≡ nickname = ground arith in
    let fixed : normalize_nickname nickname ≡ nickname =
      subst (λ n. normalize_nickname n ≡ n) same (normalize-normalize raw) in
    ground arith
