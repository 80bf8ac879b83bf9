-- ===== src/Prelude/Lists.antt =====
-- Lists of rows: what a query keeps, the first row that it returns, counts and bounds.
use Prim.Native.Nat.{ℕ, zero, suc, ◌+◌}
use mathlib.Core.Bool.{Bool, false, ◌||◌}
use mathlib.Core.List.{List, [], ◌∷◌}
use mathlib.Core.Option.{Option, none, some}
use text.Mathlib.Text.{◌==◌}
use Prim.Native.String.{String}
use kachu_v.Prelude.Tests.{if◌then◌else◌, ltb}

abbrev pub All {ℓ κ} : {A : Type ℓ} → (A → Type κ) → List A → Type κ
All P [] = Unit
All P (x ∷ xs) = P x × All P xs

module _ {ℓ} {A : Type ℓ} where
  abbrev pub length : List A → ℕ
  length [] = 0
  length (x ∷ xs) = suc (length xs)

  abbrev pub take : ℕ → List A → List A
  take zero xs = []
  take (suc n) [] = []
  take (suc n) (x ∷ xs) = x ∷ take n xs

  -- `where(p)`
  abbrev pub filter : (A → Bool) → List A → List A
  filter p [] = []
  filter p (x ∷ xs) = let rest = filter p xs in if p x then x ∷ rest else rest

  -- `where(p)` and `first()`
  abbrev pub first : (A → Bool) → List A → Option A
  first p [] = none
  first p (x ∷ xs) = if p x then some x else first p xs

  abbrev pub any : (A → Bool) → List A → Bool
  any p [] = false
  any p (x ∷ xs) = p x || any p xs

  abbrev pub count : (A → Bool) → List A → ℕ
  count p [] = 0
  count p (x ∷ xs) = (if p x then 1 else 0) + count p xs

  -- `order_by(key.asc())`: a stable sort, rows with equal keys keep their order.
  abbrev pub insert_by : (A → ℕ) → A → List A → List A
  insert_by key x [] = x ∷ []
  insert_by key x (y ∷ ys) = if ltb (key y) (key x) then y ∷ insert_by key x ys else x ∷ y ∷ ys

  abbrev pub order_by : (A → ℕ) → List A → List A
  order_by key [] = []
  order_by key (x ∷ xs) = insert_by key x (order_by key xs)

  -- `order_by(key.desc())`
  abbrev pub insert_by_desc : (A → ℕ) → A → List A → List A
  insert_by_desc key x [] = x ∷ []
  insert_by_desc key x (y ∷ ys) =
      if ltb (key x) (key y) then y ∷ insert_by_desc key x ys else x ∷ y ∷ ys

  abbrev pub order_by_desc : (A → ℕ) → List A → List A
  order_by_desc key [] = []
  order_by_desc key (x ∷ xs) = insert_by_desc key x (order_by_desc key xs)

-- `s in xs`, on a list of texts
abbrev pub elem : String → List String → Bool
elem s [] = false
elem s (x ∷ xs) = x == s || elem s xs
