-- ===== src/Routing/Urls.antt =====
-- `contains_url` of src/kachu_plus/website_knowledge.py: the pattern
-- `https?://[^\s<>'")]+`, whose letters stand for both cases.
use Prim.Native.Char.{Char, code}
use kachu_v.Prelude.{
  Bool, Option, String, eqb, false, if◌then◌else◌, is_space, leb, none, not, some, ℕ, ◌&&◌, ◌+◌,
  ◌||◌,
}

-- The code of a character without its case, as far as the letters of the pattern go: the long s
-- is a case of s.
unfoldable pub fold_case : Char → ℕ
fold_case c =
    let n = code c in if leb 65 n && leb n 90 then n + 32 else if eqb n 0x17F then 115 else n

-- What follows the prefix, which is in lower case.
unfoldable pub after_prefix : String → String → Option String
unfolding fold_case
after_prefix String.[] s = some s
after_prefix (String.◌∷◌ c t) String.[] = none
after_prefix (String.◌∷◌ c t) (String.◌∷◌ d s) =
    let rest = after_prefix t s in if eqb (code c) (fold_case d) then rest else none

unfoldable pub starts_url_rest : Option String → Bool
unfolding is_space
starts_url_rest none = false
starts_url_rest (some String.[]) = false
starts_url_rest (some (String.◌∷◌ c s)) =
    let n = code c in not (is_space c || eqb n 60 || eqb n 62 || eqb n 39 || eqb n 34 || eqb n 41)

unfoldable pub contains_url : String → Bool
unfolding after_prefix starts_url_rest
contains_url String.[] = false
contains_url (String.◌∷◌ c s) =
    starts_url_rest (after_prefix "http://" (String.◌∷◌ c s))
    || starts_url_rest (after_prefix "https://" (String.◌∷◌ c s))
    || contains_url s
