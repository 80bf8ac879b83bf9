-- ===== src/Table/Pairs.antt =====
-- Relations between any two rows of a table, and their preservation by writes.
use kachu_v.Prelude.{
  All, Bool, Bool-cases, List, String, [], ap, arith, eq_iff, eq_refl, filter, first, inl, inr,
  insert_by, none, order_by, refl, some, subst, true, ℕ, ◌&&◌, ◌==◌, ◌∷◌, ◌≡◌,
}
use kachu_v.Table.{IsKeyed, Row, get_row, put_row}

-- Any two rows of the list are in the relation.
abbrev pub Pairs {ℓ κ} : {A : Type ℓ} → (A → A → Type κ) → List A → Type κ
Pairs R [] = Unit
Pairs R (x ∷ xs) = All (R x) xs × Pairs R xs

module _ {ℓ} {A : Type ℓ} ⦃t : Row A⦄ where
  -- What holds of all rows and of the new one, under any key but the new one's.
  pub All-put_row {κ} :
      (P : A → Type κ) (r : A) (xs : List A) → P r → All P xs → All P (put_row r xs)
  All-put_row P r [] p h = (p, tt)
  All-put_row P r (x ∷ xs) p h = ground (arith, All-put_row P r xs p)

  pub put_row-Pairs {κ} :
      (R : A → A → Type κ) (r : A) (xs : List A)
      → ((x y : A) → R x y → R y x)
      → All (R r) xs
      → Pairs R xs
      → Pairs R (put_row r xs)
  put_row-Pairs R r [] sym_R h hs = (tt, tt)
  put_row-Pairs R r (x ∷ xs) sym_R h hs = elim (Bool-cases (t.id_of x == t.id_of r)) [
    | inl same ↦ rw same (h.1, hs.1)
    | inr other ↦
        rw other (All-put_row (R x) r xs (sym_R r x h.0) hs.0, put_row-Pairs R r xs sym_R h.1 hs.1)
  ]

module _ {ℓ κ} {A : Type ℓ} (P : A → Type κ) where
  pub All-insert_by :
      (key : A → ℕ) (x : A) (xs : List A) → P x → All P xs → All P (insert_by key x xs)
  All-insert_by key x [] p h = (p, tt)
  All-insert_by key x (y ∷ ys) p h = ground (arith, All-insert_by key x ys p h.1)

  pub All-order_by : (key : A → ℕ) (xs : List A) → All P xs → All P (order_by key xs)
  All-order_by key [] h = tt
  All-order_by key (x ∷ xs) h = All-insert_by key x (order_by key xs) h.0 (All-order_by key xs h.1)

  -- The rows that a query keeps pass its test, and have what all rows have.
  pub All-filter :
      (p : A → Bool) (xs : List A) → All P xs → All (λ x. P x × (p x ≡ true)) (filter p xs)
  All-filter p [] h = tt
  All-filter p (x ∷ xs) h = ground (arith, All-filter p xs h.1)

module _ {ℓ} {A : Type ℓ} where
  pub All-map {κ κ'} :
      {P : A → Type κ} {Q : A → Type κ'} (xs : List A) → ((x : A) → P x → Q x) → All P xs → All Q xs
  All-map [] f h = tt
  All-map (x ∷ xs) f h = (f x h.0, All-map xs f h.1)

  pub first-All {κ} :
      (P : A → Type κ) (p : A → Bool) (x : A) (xs : List A) → All P xs → first p xs ≡ some x → P x
  first-All P p x [] h e = absurd (cc)
  first-All P p x (y ∷ ys) h e = elim (Bool-cases (p y)) [
    | inl pass ↦ subst P (cc (rw pass at e)) h.0
    | inr fails ↦ first-All P p x ys h.1 (rw fails at e)
  ]

  pub filter-of_first-none : (p : A → Bool) (xs : List A) → first p xs ≡ none → filter p xs ≡ []
  filter-of_first-none p [] e = refl
  filter-of_first-none p (x ∷ xs) e = ground (arith, filter-of_first-none p xs)

  pub filter-filter :
      (p q : A → Bool) (xs : List A) → filter (λ x. p x && q x) xs ≡ filter q (filter p xs)
  filter-filter p q [] = refl
  filter-filter p q (x ∷ xs) = ground (arith, filter-filter p q xs)

module _ {ℓ} {A : Type ℓ} ⦃t : Row A⦄ where
  pub get_row-All {κ} :
      (P : A → Type κ) (k : String) (x : A) (xs : List A) → All P xs → get_row k xs ≡ some x → P x
  get_row-All P k x [] h e = absurd (cc)
  get_row-All P k x (y ∷ ys) h e = elim (Bool-cases (t.id_of y == k)) [
    | inl pass ↦ subst P (cc (rw pass at e)) h.0
    | inr fails ↦ get_row-All P k x ys h.1 (rw fails at e)
  ]

  -- The row that a query found is the row under its key, if keys are unique.
  pub get_row-of_first :
      (p : A → Bool) (x : A) (xs : List A)
      → IsKeyed xs
      → first p xs ≡ some x
      → get_row (t.id_of x) xs ≡ some x
  get_row-of_first p x [] h e = absurd (cc)
  get_row-of_first p x (y ∷ ys) h e = ground (
    arith,
    get_row-of_first p x ys h.1,
    eq_iff (t.id_of y) (t.id_of x),
    eq_refl (t.id_of x),
    ap (λ k. get_row k ys) {x = t.id_of y} {y = t.id_of x},
  )

  -- A write in place of a row keeps a relation in which the new row stands as the old one did.
  pub put_row-Pairs_found {κ} :
      (R : A → A → Type κ) (r x : A) (xs : List A)
      → ((y : A) → R x y → R r y)
      → ((y : A) → R y x → R y r)
      → get_row (t.id_of r) xs ≡ some x
      → Pairs R xs
      → Pairs R (put_row r xs)
  put_row-Pairs_found R r x [] left right e h = absurd (cc)
  put_row-Pairs_found R r x (y ∷ ys) left right e h = elim (Bool-cases (t.id_of y == t.id_of r)) [
    | inl same ↦
        let here : y ≡ x = cc (rw same at e) in
        rw same (All-weaken ys (λ z. λ q. left z (subst (λ w. R w z) here q)) h.0, h.1)
    | inr other ↦
        let later : get_row (t.id_of r) ys ≡ some x = (rw other at e) in
        rw other (
          All-put_row (R y) r ys (right y (get_row-All (R y) (t.id_of r) x ys h.0 later)) h.0,
          put_row-Pairs_found R r x ys left right later h.1,
        )
  ]
    where
      All-weaken : (zs : List A) → ((z : A) → R y z → R r z) → All (R y) zs → All (R r) zs
      All-weaken [] f h = tt
      All-weaken (z ∷ zs) f h = (f z h.0, All-weaken zs f h.1)
