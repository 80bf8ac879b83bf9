-- ===== src/Table.antt =====
-- A database table as the list of its rows in insertion order, with the ORM's access to rows by
-- primary key (`Session.get`, `Session.add`, `Session.merge` in src/kachu_plus/persistence).
pub mod Laws
pub mod Pairs
pub mod Counts
pub mod Rows
use kachu_v.Prelude.{Bool, List, Option, String, [], if◌then◌else◌, none, some, ◌==◌, ◌∷◌, ◌≡◌}

-- What a table class declares: its primary key, a text.
pub record Row {ℓ} (A : Type ℓ) : Type ℓ where
  pub id_of : A → String

module _ {ℓ} {A : Type ℓ} ⦃t : Row A⦄ where
  -- `session.get(Table, id)`
  abbrev pub get_row : String → List A → Option A
  get_row k [] = none
  get_row k (x ∷ xs) = if t.id_of x == k then some x else get_row k xs

  -- `session.add(row)` or `session.merge(row)`, then `session.commit()`: the row with this primary
  -- key is written, and a new row goes to the end.
  abbrev pub put_row : A → List A → List A
  put_row r [] = r ∷ []
  put_row r (x ∷ xs) = if t.id_of x == t.id_of r then r ∷ xs else x ∷ put_row r xs

  -- No two rows have one primary key.
  abbrev pub IsKeyed : List A → Type ℓ
  IsKeyed [] = Unit
  IsKeyed (x ∷ xs) = (get_row (t.id_of x) xs ≡ none) × IsKeyed xs

-- A write to each row that a query returned: `for row in rows: ...; session.add(row)`.
abbrev pub update_where {ℓ} : {A : Type ℓ} → (A → Bool) → (A → A) → List A → List A
update_where p f [] = []
update_where p f (x ∷ xs) = (if p x then f x else x) ∷ update_where p f xs

-- `session.delete(row)` for each row that a query returned.
abbrev pub delete_where {ℓ} : {A : Type ℓ} → (A → Bool) → List A → List A
delete_where p [] = []
delete_where p (x ∷ xs) = let rest = delete_where p xs in if p x then rest else x ∷ rest
