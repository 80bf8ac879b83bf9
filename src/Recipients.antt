-- ===== src/Recipients.antt =====
-- The loop that gathers identifiers: each is stripped, and kept if it is not empty and not yet in
-- the list. It stands in `get_notification_line_user_ids` and `get_profile_line_user_ids` of
-- src/kachu_plus/persistence/repository.py, and in the merge of customer profiles.
use kachu_v.Prelude.{
  Bool, List, String, [], ap, arith, elem, eq_iff, false, if◌then◌else◌, not, refl, strip, ◌&&◌,
  ◌++◌, ◌==◌, ◌||◌, ◌∷◌, ◌≡◌,
}

-- The body of the loop, on the list gathered so far.
unfoldable pub add_new : List String → String → List String
add_new gathered value =
    let normalized = strip value in
    if normalized == "" || elem normalized gathered then gathered else gathered ++ normalized ∷ []

unfoldable pub gather_from : List String → List String → List String
gather_from gathered [] = gathered
gather_from gathered (v ∷ vs) = gather_from (add_new gathered v) vs

unfoldable pub gather : List String → List String
unfolding gather_from
gather values = gather_from [] values

-- No text stands in the list twice.
abbrev pub IsNodup : List String → Type 0
IsNodup [] = Unit
IsNodup (x ∷ xs) = (elem x xs ≡ false) × IsNodup xs

elem-append : (s : String) (xs ys : List String) → elem s (xs ++ ys) ≡ (elem s xs || elem s ys)
elem-append s [] ys = refl
elem-append s (x ∷ xs) ys = ground (arith, elem-append s xs ys)

append_new-IsNodup :
    (s : String) (xs : List String) → IsNodup xs → elem s xs ≡ false → IsNodup (xs ++ s ∷ [])
append_new-IsNodup s [] h e = ground arith
append_new-IsNodup s (x ∷ xs) h e =
    ground (arith, append_new-IsNodup s xs h.1, elem-append x xs (s ∷ []), eq_iff x s, eq_iff s x)

add_new-IsNodup : (xs : List String) (v : String) → IsNodup xs → IsNodup (add_new xs v)
unfolding add_new
add_new-IsNodup xs v h = ground (arith, append_new-IsNodup (strip v) xs h)

gather_from-IsNodup : (xs vs : List String) → IsNodup xs → IsNodup (gather_from xs vs)
unfolding gather_from
gather_from-IsNodup xs [] h = h
gather_from-IsNodup xs (v ∷ vs) h = gather_from-IsNodup (add_new xs v) vs (add_new-IsNodup xs v h)

-- The gathered list has no duplicates.
pub gather-IsNodup : (vs : List String) → IsNodup (gather vs)
unfolding gather
gather-IsNodup vs = gather_from-IsNodup [] vs tt

elem-add_new :
    (s : String) (xs : List String) (v : String)
    → elem s (add_new xs v) ≡ (elem s xs || (not (strip v == "") && strip v == s))
unfolding add_new
elem-add_new s xs v =
    ground (arith, elem-append s xs (strip v ∷ []), eq_iff (strip v) s, elem-same (strip v) s xs)
  where
    elem-same : (a b : String) (xs : List String) → a ≡ b → elem a xs ≡ elem b xs
    elem-same a b xs e = ap (λ t. elem t xs) e

-- Some value is, stripped, the text `s`, and `s` is not empty.
abbrev pub is_value : String → List String → Bool
is_value s [] = false
is_value s (v ∷ vs) = (not (strip v == "") && strip v == s) || is_value s vs

elem-gather_from :
    (s : String) (xs vs : List String) → elem s (gather_from xs vs) ≡ (elem s xs || is_value s vs)
unfolding gather_from
elem-gather_from s xs [] = ground arith
elem-gather_from s xs (v ∷ vs) =
    ground (arith, elem-gather_from s (add_new xs v) vs, elem-add_new s xs v)

-- A text is gathered exactly when it is a value, stripped and not empty.
pub elem-gather : (s : String) (vs : List String) → elem s (gather vs) ≡ is_value s vs
unfolding gather
elem-gather s vs = elem-gather_from s [] vs
