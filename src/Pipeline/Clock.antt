-- ===== src/Pipeline/Clock.antt =====
-- backend/src/modules/ai/steps/generate-schedule.step.ts: times of the day and their texts. A time is
-- its number of minutes.
use Prim.Native.Nat.{◌%◌}
use Prim.Native.String.{◌++◌}
use Prim.Native.Char.{code}
use ai_planner.Prelude.{
  ℕ, zero, suc, ◌+◌, ◌-◌, ◌*◌, ◌/◌, ◌<◌, ◌≤◌, ◌≡◌, refl, ap, ◌∙◌, arith, Bool, true, false, String,
  Option, none, some, List, [], ◌∷◌, if◌then◌else◌, leb, ◌==◌, ◌&&◌,
}

abbrev pub codes : String → List ℕ
codes String.[] = []
codes (String.◌∷◌ c s) = code c ∷ codes s

-- The text of a number below 10.
abbrev digit : ℕ → String
digit n =
    if n == 0
    then "0"
    else if n == 1
    then "1"
    else if n == 2
    then "2"
    else if n == 3
    then "3"
    else if n == 4
    then "4"
    else if n == 5
    then "5"
    else if n == 6
    then "6"
    else if n == 7
    then "7"
    else if n == 8
    then "8"
    else "9"

-- `String(n).padStart(2, '0')` of a number below 100
abbrev pad : ℕ → String
pad n = digit (n / 10) ++ digit (n % 10)

unfoldable pub format_time : ℕ → String
format_time total_min = pad (total_min / 60 % 24) ++ ":" ++ pad (total_min % 60)

-- The part of a text before its first `:`, and the part after it, if there is one.
abbrev pub before_colon : List ℕ → List ℕ
before_colon [] = []
before_colon (c ∷ cs) = let rest = before_colon cs in if c == b':' then [] else c ∷ rest

abbrev pub after_colon : List ℕ → Option (List ℕ)
after_colon [] = none
after_colon (c ∷ cs) = let rest = after_colon cs in if c == b':' then some cs else rest

-- `Number` of a text of digits; any other text is taken to be no number.
abbrev pub number : ℕ → List ℕ → Option ℕ
number acc [] = some acc
number acc (c ∷ cs) =
    let rest = number (acc * 10 + (c - b'0')) cs in if leb b'0' c && leb c b'9' then rest else none

-- `none` stands for NaN.
unfoldable pub parse_time : String → Option ℕ
parse_time text = elim (after_colon (codes text)) [
  | none ↦ none
  | some rest ↦ elim (number 0 (before_colon (codes text))) [
    | none ↦ none
    | some h ↦ elim (number 0 (before_colon rest)) [ none ↦ none | some m ↦ some (h * 60 + m) ]
  ]
]

unfoldable pub round_up_to_ten : ℕ → ℕ
round_up_to_ten minutes = (minutes + 9) / 10 * 10

pub round_up_to_ten_bounds :
    (m : ℕ) → (m ≤ round_up_to_ten m) × (round_up_to_ten m < m + 10) × (round_up_to_ten m % 10 ≡ 0)
unfolding round_up_to_ten
round_up_to_ten_bounds m = (omega arith, omega arith, omega arith)

abbrev is_time : ℕ → Option ℕ → Bool
is_time m none = false
is_time m (some n) = n == m

-- The times of a day below `n`, each read back from its text.
all_read : ℕ → Bool
all_read zero = true
all_read (suc n) = is_time n (parse_time (format_time n)) && all_read n

is_time_iff : (m : ℕ) (o : Option ℕ) → is_time m o ≡ true → o ≡ some m
is_time_iff m none h = ground arith
is_time_iff m (some n) h = ap some (ground arith)

all_read_sound : (n m : ℕ) → all_read n ≡ true → m < n → parse_time (format_time m) ≡ some m
unfolding all_read
all_read_sound zero m h lt = absurd (omega arith)
all_read_sound (suc n) m h lt =
    ground (arith, all_read_sound n m, is_time_iff m (parse_time (format_time m)))

day_read : all_read 1440 ≡ true
unfolding all_read parse_time format_time
day_read = refl

format_time-mod : (m : ℕ) → format_time m ≡ format_time (m % 1440)
unfolding format_time
format_time-mod m =
    let h : m / 60 % 24 ≡ m % 1440 / 60 % 24 = omega arith in
    let s : m % 60 ≡ m % 1440 % 60 = omega arith in
    ap (λ k. pad k ++ ":" ++ pad (m % 60)) h ∙ ap (λ k. pad (m % 1440 / 60 % 24) ++ ":" ++ pad k) s

-- The text of a time, read back, is that time of the day.
pub parse_time-format_time : (m : ℕ) → parse_time (format_time m) ≡ some (m % 1440)
parse_time-format_time m =
    ap parse_time (format_time-mod m) ∙ all_read_sound 1440 (m % 1440) day_read (omega arith)
