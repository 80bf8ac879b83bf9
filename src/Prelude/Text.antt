-- ===== src/Prelude/Text.antt =====
-- Python's functions on texts, as far as the program uses them, over code points.
use Prim.Native.Nat.{ℕ, zero, suc, ◌%◌, ◌/◌}
use Prim.Native.Char.{Char, code}
use Prim.Native.String.{String, ◌++◌ as append}
use mathlib.Core.Bool.{Bool, true, false, ◌&&◌, ◌||◌}
use mathlib.Core.List.{List, [], ◌∷◌}
use text.Mathlib.Text.{◌==◌}
use kachu_v.Prelude.Tests.{eqb, if◌then◌else◌, leb, ltb}

-- `str.isspace` of one character: all the white space of Unicode.
unfoldable pub is_space : Char → Bool
is_space c =
    let n = code c in
    leb 9 n && leb n 13
    || leb 28 n && leb n 32
    || eqb n 0x85
    || eqb n 0xA0
    || eqb n 0x1680
    || leb 0x2000 n && leb n 0x200A
    || eqb n 0x2028
    || eqb n 0x2029
    || eqb n 0x202F
    || eqb n 0x205F
    || eqb n 0x3000

unfoldable pub lstrip : String → String
lstrip String.[] = ""
lstrip (String.◌∷◌ c s) = let rest = lstrip s in if is_space c then rest else String.◌∷◌ c s

unfoldable pub drop_space : Char → String → String
drop_space c String.[] = if is_space c then "" else String.◌∷◌ c ""
drop_space c (String.◌∷◌ d s) = String.◌∷◌ c (String.◌∷◌ d s)

unfoldable pub rstrip : String → String
unfolding drop_space
rstrip String.[] = ""
rstrip (String.◌∷◌ c s) = drop_space c (rstrip s)

-- `s.strip()`
unfoldable pub strip : String → String
unfolding lstrip rstrip is_space
strip s = rstrip (lstrip s)

-- `s or d`: a text is false if it is empty.
abbrev pub or_text : String → String → String
or_text s d = if s == "" then d else s

same_char : Char → Char → Bool
same_char c d = eqb (code c) (code d)

-- `s.startswith(t)`, with the arguments in the order of `t in s`
unfoldable pub is_prefix : String → String → Bool
unfolding same_char
is_prefix String.[] s = true
is_prefix (String.◌∷◌ c t) String.[] = false
is_prefix (String.◌∷◌ c t) (String.◌∷◌ d s) = same_char c d && is_prefix t s

-- `t in s`
unfoldable pub contains : String → String → Bool
unfolding is_prefix
contains t String.[] = is_prefix t ""
contains t (String.◌∷◌ d s) = is_prefix t (String.◌∷◌ d s) || contains t s

-- `any(t in s for t in ts)`
unfoldable pub contains_any : String → List String → Bool
unfolding contains
contains_any s [] = false
contains_any s (t ∷ ts) = contains t s || contains_any s ts

lower_table : List (ℕ × Char)
lower_table =
    (65, "a")
    ∷ (66, "b")
    ∷ (67, "c")
    ∷ (68, "d")
    ∷ (69, "e")
    ∷ (70, "f")
    ∷ (71, "g")
    ∷ (72, "h")
    ∷ (73, "i")
    ∷ (74, "j")
    ∷ (75, "k")
    ∷ (76, "l")
    ∷ (77, "m")
    ∷ (78, "n")
    ∷ (79, "o")
    ∷ (80, "p")
    ∷ (81, "q")
    ∷ (82, "r")
    ∷ (83, "s")
    ∷ (84, "t")
    ∷ (85, "u")
    ∷ (86, "v")
    ∷ (87, "w")
    ∷ (88, "x")
    ∷ (89, "y")
    ∷ (90, "z")
    ∷ (0x212A, "k")
    ∷ []

lower_char : List (ℕ × Char) → Char → Char
lower_char [] c = c
lower_char ((n, d) ∷ rest) c = if eqb (code c) n then d else lower_char rest c

-- `s.lower()`, where the result is only compared with texts whose letters are ASCII: of the other
-- characters only the Kelvin sign and the dotted capital I become ASCII letters, and the latter is
-- followed by a combining dot.
unfoldable pub lower : String → String
unfolding lower_table lower_char
lower String.[] = ""
lower (String.◌∷◌ c s) =
    let rest = lower s in
    if eqb (code c) 0x130 then append "i̇" rest else String.◌∷◌ (lower_char lower_table c) rest

-- The decimal digits of a number; the fuel is more than the number of its digits.
digit_char : ℕ → List Char → Char
digit_char n [] = "0"
digit_char zero (c ∷ cs) = c
digit_char (suc n) (c ∷ cs) = digit_char n cs

digit_chars : List Char
digit_chars = "0" ∷ "1" ∷ "2" ∷ "3" ∷ "4" ∷ "5" ∷ "6" ∷ "7" ∷ "8" ∷ "9" ∷ []

decimal_from : ℕ → ℕ → String → String
decimal_from zero n digits = digits
decimal_from (suc fuel) n digits =
    let digits' = String.◌∷◌ (digit_char (n % 10) digit_chars) digits in
    if ltb n 10 then digits' else decimal_from fuel (n / 10) digits'

-- `str(n)`
unfoldable pub decimal : ℕ → String
unfolding decimal_from digit_char digit_chars
decimal n = decimal_from (suc n) n ""
