-- ===== src/Onboarding/Answers.antt =====
-- How the onboarding reads an answer (src/kachu_plus/onboarding/flow.py, lines 63 to 125).
use kachu_v.Prelude.{
  All, Bool-cases, List, Option, Option-cases, String, [], arith, contains, contains_any,
  if◌then◌else◌, inl, inr, leb, none, some, strip, subst, ℕ, ◌&&◌, ◌*◌, ◌+◌, ◌-◌, ◌==◌, ◌∷◌, ◌≡◌,
  ◌≤◌,
}
use Prim.Native.Char.{Char, code}

-- `_detect_redo_step`: the step that the answer asks to go back to.
unfoldable pub prev_step : String → Option String
prev_step step =
    if step == "interview_q2"
    then some "interview_q1"
    else if step == "interview_q3"
    then some "interview_q2"
    else none

unfoldable pub detect_redo_step : String → String → Option String
unfolding prev_step
detect_redo_step content current =
    let c = strip content in
    if contains "第一題" c
    then some "interview_q1"
    else if contains "第二題" c && current == "interview_q3"
    then some "interview_q2"
    else if contains_any c ("重新回答" ∷ "重來" ∷ "上一題" ∷ "回到上一" ∷ [])
    then prev_step current
    else none

-- `_SLEEP_THRESHOLD_MAP`, in the order of its items.
unfoldable pub sleep_threshold_map : List (String × ℕ)
sleep_threshold_map =
    ("每天", 1)
    ∷ ("每日", 1)
    ∷ ("每週", 7)
    ∷ ("每周", 7)
    ∷ ("一週", 7)
    ∷ ("一周", 7)
    ∷ ("每兩週", 14)
    ∷ ("每两週", 14)
    ∷ ("兩週", 14)
    ∷ ("两週", 14)
    ∷ ("半個月", 15)
    ∷ ("每月", 30)
    ∷ ("一個月", 30)
    ∷ ("一个月", 30)
    ∷ ("每兩個月", 60)
    ∷ ("每两個月", 60)
    ∷ ("兩個月", 60)
    ∷ ("两個月", 60)
    ∷ []

unfoldable pub find_keyword : String → List (String × ℕ) → Option ℕ
find_keyword t [] = none
find_keyword t ((keyword, days) ∷ items) =
    if contains keyword t then some days else find_keyword t items

-- The code points of the zeros of Unicode; the nine other digits follow each.
zeros : List ℕ
zeros =
    0x30 ∷ 0x660 ∷ 0x6F0 ∷ 0x7C0 ∷ 0x966 ∷ 0x9E6 ∷ 0xA66 ∷ 0xAE6 ∷ 0xB66 ∷ 0xBE6 ∷ 0xC66 ∷ 0xCE6
    ∷ 0xD66 ∷ 0xDE6 ∷ 0xE50 ∷ 0xED0 ∷ 0xF20 ∷ 0x1040 ∷ 0x1090 ∷ 0x17E0 ∷ 0x1810 ∷ 0x1946 ∷ 0x19D0
    ∷ 0x1A80 ∷ 0x1A90 ∷ 0x1B50 ∷ 0x1BB0 ∷ 0x1C40 ∷ 0x1C50 ∷ 0xA620 ∷ 0xA8D0 ∷ 0xA900 ∷ 0xA9D0
    ∷ 0xA9F0 ∷ 0xAA50 ∷ 0xABF0 ∷ 0xFF10 ∷ 0x104A0 ∷ 0x10D30 ∷ 0x11066 ∷ 0x110F0 ∷ 0x11136 ∷ 0x111D0
    ∷ 0x112F0 ∷ 0x11450 ∷ 0x114D0 ∷ 0x11650 ∷ 0x116C0 ∷ 0x11730 ∷ 0x118E0 ∷ 0x11950 ∷ 0x11C50
    ∷ 0x11D50 ∷ 0x11DA0 ∷ 0x16A60 ∷ 0x16AC0 ∷ 0x16B50 ∷ 0x1D7CE ∷ 0x1D7D8 ∷ 0x1D7E2 ∷ 0x1D7EC
    ∷ 0x1D7F6 ∷ 0x1E140 ∷ 0x1E2F0 ∷ 0x1E950 ∷ 0x1FBF0 ∷ []

digit_from : List ℕ → ℕ → Option ℕ
digit_from [] n = none
digit_from (z ∷ zs) n = if leb z n && leb n (z + 9) then some (n - z) else digit_from zs n

unfoldable pub digit : Char → Option ℕ
unfolding digit_from zeros
digit c = digit_from zeros (code c)

-- `int` of the digits that a text begins with, after those that were read.
unfoldable pub number_from : ℕ → String → ℕ
unfolding digit
number_from n String.[] = n
number_from n (String.◌∷◌ c s) = elim (digit c) [ none ↦ n | some d ↦ number_from (n * 10 + d) s ]

-- `re.search(r"\d+", text)` and `int(match.group())`, without Python's limit on the length of
-- the text of a number.
unfoldable pub find_number : String → Option ℕ
unfolding number_from
find_number String.[] = none
find_number (String.◌∷◌ c s) = elim (digit c) [
  | none ↦ find_number s
  | some d ↦ some (number_from d s)
]

abbrev pub in_range : Option ℕ → ℕ
in_range none = 30
in_range (some n) = if leb 1 n && leb n 365 then n else 30

-- `_parse_sleep_threshold`
unfoldable pub parse_sleep_threshold : String → ℕ
unfolding find_keyword find_number sleep_threshold_map
parse_sleep_threshold answer =
    let t = strip answer in
    elim (find_keyword t sleep_threshold_map) [ some days ↦ days | none ↦ in_range (find_number t) ]

abbrev pub Days : ℕ → Type 0
Days n = (1 ≤ n) × (n ≤ 365)

find_keyword-All :
    (t : String) (n : ℕ) (items : List (String × ℕ))
    → All (λ i. Days i.1) items
    → find_keyword t items ≡ some n
    → Days n
unfolding find_keyword
find_keyword-All t n [] h e = cc
find_keyword-All t n ((keyword, days) ∷ items) h e = elim (Bool-cases (contains keyword t)) [
  | inl found ↦ subst Days (cc (rw (found, find_keyword) at e)) h.0
  | inr missing ↦ find_keyword-All t n items h.1 (rw (missing, find_keyword) at e)
]

-- Whatever the answer is, the days that are read lie between 1 and 365.
pub parse_sleep_threshold-Days : (answer : String) → Days (parse_sleep_threshold answer)
unfolding parse_sleep_threshold sleep_threshold_map
parse_sleep_threshold-Days answer =
    elim (Option-cases (find_keyword (strip answer) sleep_threshold_map)) [
      | inr (days, found) ↦
          rw (found, parse_sleep_threshold)
            (find_keyword-All (strip answer) days sleep_threshold_map (ground arith) found)
      | inl missing ↦
          rw (missing, parse_sleep_threshold) (in_range_lem (find_number (strip answer)))
    ]
  where
    in_range_lem : (o : Option ℕ) → Days (in_range o)
    in_range_lem none = ground arith
    in_range_lem (some n) = ground arith
