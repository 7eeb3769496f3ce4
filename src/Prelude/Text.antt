-- ===== src/Prelude/Text.antt =====
-- The methods of JavaScript's strings that the services call: as any functions of their types in
-- `JsString`, and by clauses where the code looks at characters. A character is a code point, where
-- JavaScript counts UTF-16 units; they are the same for what is looked at here.
use Prim.Native.Char.{Char, code}
use Prim.Native.Nat.{ℕ, zero, suc}
use Prim.Native.String.{String}
use mathlib.Core.Bool.{Bool, true, false, ◌&&◌, ◌||◌}
use mathlib.Core.Option.{Option, none, some}
use mathlib.Core.List.{List, [], ◌∷◌}
use ai_planner.Prelude.Tests.{◌==◌, leb, if◌then◌else◌, str_eq}
use ai_planner.Prelude.Lists.{any}

pub record JsString : Type 0 where
  pub trim : String → String
  pub to_lower_case : String → String
  -- `text.includes(part)` is `includes text part`
  pub includes : String → String → Bool

-- A character class from one code to another.
abbrev pub between : ℕ → ℕ → ℕ → Bool
between low high n = leb low n && leb n high

-- `\s`
abbrev pub is_space : Char → Bool
is_space c =
    let n = code c in
    between 9 13 n
    || n == 32
    || n == 160
    || n == 5760
    || between 8192 8202 n
    || between 8232 8233 n
    || n == 8239
    || n == 8287
    || n == 12288
    || n == 65279

-- `text.length`
abbrev pub size : String → ℕ
size String.[] = 0
size (String.◌∷◌ c s) = suc (size s)

abbrev pub is_empty : String → Bool
is_empty String.[] = true
is_empty (String.◌∷◌ c s) = false

-- `text.trim()`
abbrev pub trim_start : String → String
trim_start String.[] = ""
trim_start (String.◌∷◌ c s) = let rest = trim_start s in if is_space c then rest else String.◌∷◌ c s

abbrev pub trim_end : String → String
trim_end String.[] = ""
trim_end (String.◌∷◌ c s) =
    let rest = trim_end s in if is_space c && is_empty rest then "" else String.◌∷◌ c rest

abbrev pub trim : String → String
trim s = trim_start (trim_end s)

-- `text.replace(/\s+/g, '')`
abbrev pub without_spaces : String → String
without_spaces String.[] = ""
without_spaces (String.◌∷◌ c s) =
    let rest = without_spaces s in if is_space c then rest else String.◌∷◌ c rest

-- The rest of a text after another one that it starts with.
abbrev pub rest_after : String → String → Option String
rest_after String.[] s = some s
rest_after (String.◌∷◌ c p) String.[] = none
rest_after (String.◌∷◌ c p) (String.◌∷◌ d s) =
    let rest = rest_after p s in if code c == code d then rest else none

-- `text.slice(0, n)` and `text.slice(n)`
abbrev pub take_text : ℕ → String → String
take_text zero s = ""
take_text (suc n) String.[] = ""
take_text (suc n) (String.◌∷◌ c s) = String.◌∷◌ c (take_text n s)

abbrev pub drop_text : ℕ → String → String
drop_text zero s = s
drop_text (suc n) String.[] = ""
drop_text (suc n) (String.◌∷◌ c s) = drop_text n s

-- `text.includes(part)`
abbrev pub includes_text : String → String → Bool
includes_text String.[] part = is_empty part
includes_text (String.◌∷◌ c s) part =
    let later = includes_text s part in
    elim (rest_after part (String.◌∷◌ c s)) [ none ↦ later | some _ ↦ true ]

-- `a + b`
abbrev pub append_text : String → String → String
append_text String.[] t = t
append_text (String.◌∷◌ c s) t = String.◌∷◌ c (append_text s t)

-- `[...new Set(texts)]`: each text once, in the order of the first of them.
abbrev pub new_texts : List String → List String → List String
new_texts seen [] = []
new_texts seen (t ∷ ts) =
    let fresh = new_texts (t ∷ seen) ts in
    let old = new_texts seen ts in if any (λ k. str_eq k t) seen then old else t ∷ fresh

abbrev pub unique_texts : List String → List String
unique_texts texts = new_texts [] texts
