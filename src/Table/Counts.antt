-- ===== src/Table/Counts.antt =====
-- Counts of rows, and what sorting, filtering and limiting a list of rows keep.
use kachu_v.Prelude.{
  All, Bool, Bool-cases, List, [], any, ap, arith, count, false, filter, first, inl, inr, insert_by,
  insert_by_desc, length, none, order_by, order_by_desc, refl, some, subst, suc, sym, take, true,
  zero, ℕ, ◌&&◌, ◌+◌, ◌==◌, ◌||◌, ◌∙◌, ◌∷◌, ◌≡◌, ◌≤◌, ◌⊎◌,
}
use kachu_v.Table.{Row, get_row, put_row, update_where}
use kachu_v.Table.Pairs.{All-insert_by, All-order_by, Pairs}

module _ {ℓ} {A : Type ℓ} where
  count-insert_by :
      (p : A → Bool) (key : A → ℕ) (x : A) (xs : List A)
      → count p (insert_by key x xs) ≡ count p (x ∷ xs)
  count-insert_by p key x [] = refl
  count-insert_by p key x (y ∷ ys) = ground (arith, count-insert_by p key x ys)

  pub count-order_by :
      (p : A → Bool) (key : A → ℕ) (xs : List A) → count p (order_by key xs) ≡ count p xs
  count-order_by p key [] = refl
  count-order_by p key (x ∷ xs) =
      ground (arith, count-insert_by p key x (order_by key xs), count-order_by p key xs)

  pub count-filter :
      (p q : A → Bool) (xs : List A) → count p (filter q xs) ≡ count (λ x. q x && p x) xs
  count-filter p q [] = refl
  count-filter p q (x ∷ xs) = ground (arith, count-filter p q xs)

  pub length-take-filter :
      (p : A → Bool) (n : ℕ) (xs : List A)
      → (length (take n (filter p xs)) ≡ n) × (n ≤ count p xs)
        ⊎ (length (take n (filter p xs)) ≡ count p xs) × (count p xs ≤ n)
  length-take-filter p n xs = elim (length_take n (filter p xs)) [
    | inl (e, h) ↦ inl (e, ground (arith, length-filter xs))
    | inr (e, h) ↦ inr (ground (arith, length-filter xs), ground (arith, length-filter xs))
  ]
    where
      length-filter : (ys : List A) → length (filter p ys) ≡ count p ys
      length-filter [] = refl
      length-filter (y ∷ ys) = ground (arith, length-filter ys)

      length_take :
          (k : ℕ) (ys : List A)
          → (length (take k ys) ≡ k) × (k ≤ length ys)
            ⊎ (length (take k ys) ≡ length ys) × (length ys ≤ k)
      length_take zero ys = inl (refl, ground arith)
      length_take (suc k) [] = inr (refl, ground arith)
      length_take (suc k) (y ∷ ys) = ground (arith, length_take k ys)

  pub All-take {κ} : (P : A → Type κ) (n : ℕ) (xs : List A) → All P xs → All P (take n xs)
  All-take P zero xs h = tt
  All-take P (suc n) [] h = tt
  All-take P (suc n) (x ∷ xs) h = (h.0, All-take P n xs h.1)

  module _ {κ} (R : A → A → Type κ) where
    pub Pairs-take : (n : ℕ) (xs : List A) → Pairs R xs → Pairs R (take n xs)
    Pairs-take zero xs h = tt
    Pairs-take (suc n) [] h = tt
    Pairs-take (suc n) (x ∷ xs) h = (All-take (R x) n xs h.0, Pairs-take n xs h.1)

    keep-All : (P : A → Type κ) (p : A → Bool) (xs : List A) → All P xs → All P (filter p xs)
    keep-All P p [] h = tt
    keep-All P p (x ∷ xs) h = ground (arith, keep-All P p xs h.1)

    pub Pairs-filter : (p : A → Bool) (xs : List A) → Pairs R xs → Pairs R (filter p xs)
    Pairs-filter p [] h = tt
    Pairs-filter p (x ∷ xs) h = ground (arith, keep-All (R x) p xs h.0, Pairs-filter p xs h.1)

    pub Pairs-order_by :
        (key : A → ℕ) (xs : List A)
        → ((x y : A) → R x y → R y x)
        → Pairs R xs
        → Pairs R (order_by key xs)
    Pairs-order_by key [] symm h = tt
    Pairs-order_by key (x ∷ xs) symm h =
        insert (order_by key xs) (All-order_by (R x) key xs h.0) (Pairs-order_by key xs symm h.1)
      where
        insert : (ys : List A) → All (R x) ys → Pairs R ys → Pairs R (insert_by key x ys)
        insert [] a b = (tt, tt)
        insert (y ∷ ys) a b =
            ground (arith, insert ys a.1 b.1, All-insert_by (R y) key x ys (symm x y a.0) b.0)

-- A write of a row that fails the test in the place of one that passes it.
pub count-put_row {ℓ} :
    {A : Type ℓ} ⦃t : Row A⦄ (p : A → Bool) (r old : A) (xs : List A)
    → get_row (t.id_of r) xs ≡ some old
    → p old ≡ true
    → p r ≡ false
    → count p (put_row r xs) + 1 ≡ count p xs
count-put_row ⦃t = t⦄ p r old [] here pass fails = absurd (cc)
count-put_row ⦃t = t⦄ p r old (x ∷ xs) here pass fails =
    elim (Bool-cases (t.id_of x == t.id_of r)) [
      | inl same ↦
          let this : x ≡ old = cc (rw same at here) in
          rw (same, fails, subst (λ y. p y ≡ true) (sym this) pass) (ground arith)
      | inr other ↦
          rw other (ground (arith, count-put_row p r old xs (rw other at here) pass fails))
    ]

-- A write of a row that fails the test never adds to their number.
pub count-put_row_le {ℓ} :
    {A : Type ℓ} ⦃t : Row A⦄ (p : A → Bool) (r : A) (xs : List A)
    → p r ≡ false
    → count p (put_row r xs) ≤ count p xs
count-put_row_le p r [] fails = rw fails (ground arith)
count-put_row_le p r (x ∷ xs) fails = ground (arith, count-put_row_le p r xs)

module _ {ℓ} {A : Type ℓ} where
  pub All-order_by_desc {κ} :
      (P : A → Type κ) (key : A → ℕ) (xs : List A) → All P xs → All P (order_by_desc key xs)
  All-order_by_desc P key [] h = tt
  All-order_by_desc P key (x ∷ xs) h =
      insert (order_by_desc key xs) (All-order_by_desc P key xs h.1)
    where
      insert : (ys : List A) → All P ys → All P (insert_by_desc key x ys)
      insert [] a = (h.0, tt)
      insert (y ∷ ys) a = ground (arith, insert ys a.1)

  pub any-order_by_desc :
      (p : A → Bool) (key : A → ℕ) (xs : List A) → any p (order_by_desc key xs) ≡ any p xs
  any-order_by_desc p key [] = refl
  any-order_by_desc p key (x ∷ xs) =
      insert (order_by_desc key xs) ∙ ap (λ b. p x || b) (any-order_by_desc p key xs)
    where
      insert : (ys : List A) → any p (insert_by_desc key x ys) ≡ (p x || any p ys)
      insert [] = refl
      insert (y ∷ ys) = ground (arith, insert ys)

  pub any-filter : (q p : A → Bool) (xs : List A) → any p (filter q xs) ≡ any (λ x. q x && p x) xs
  any-filter q p [] = refl
  any-filter q p (x ∷ xs) = ground (arith, any-filter q p xs)

  pub first-none-any : (p : A → Bool) (xs : List A) → first p xs ≡ none → any p xs ≡ false
  first-none-any p [] e = refl
  first-none-any p (x ∷ xs) e = ground (arith, first-none-any p xs)

  -- A row that a write passes over still passes its test.
  pub any-update_where :
      (q p : A → Bool) (f : A → A) (xs : List A)
      → ((x : A) → q x ≡ true → p x ≡ false)
      → any q xs ≡ true
      → any q (update_where p f xs) ≡ true
  any-update_where q p f [] spared there = there
  any-update_where q p f (x ∷ xs) spared there = elim (Bool-cases (q x)) [
    | inl here ↦ rw (spared x here, here) refl
    | inr away ↦ ground (arith, any-update_where q p f xs spared (rw away at there))
  ]

  -- The row that a write stores.
  pub put_row-any :
      ⦃t : Row A⦄ → (q : A → Bool) (r : A) (xs : List A) → q r ≡ true → any q (put_row r xs) ≡ true
  put_row-any q r [] h = rw h refl
  put_row-any q r (x ∷ xs) h = ground (arith, put_row-any q r xs h)

  pub any_mono :
      (p q : A → Bool) (xs : List A)
      → ((x : A) → p x ≡ true → q x ≡ true)
      → any p xs ≡ true
      → any q xs ≡ true
  any_mono p q [] h there = there
  any_mono p q (x ∷ xs) h there = elim (Bool-cases (p x)) [
    | inl here ↦ rw (h x here) refl
    | inr away ↦ ground (arith, any_mono p q xs h (rw away at there))
  ]
