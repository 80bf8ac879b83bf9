-- ===== src/Table/Rows.antt =====
-- Which rows stand in a list of rows, and what the queries of the repository keep of them: `where`,
-- `order_by` and `limit`.
use kachu_v.Prelude.{
  All, Bool, Bool-cases, List, [], any, ap, arith, count, filter, inl, inr, insert_by,
  insert_by_desc, length, ltb, order_by, order_by_desc, refl, subst, suc, sym, take, true, zero, ℕ,
  ◌∙◌, ◌∷◌, ◌≡◌, ◌↔◌, ◌≤◌, ◌⊎◌,
}
use kachu_v.Table.Pairs.{Pairs}

-- The second of three cases put first, and a step in the second of two.
swap : (P Q R : Type 0) → P ⊎ (Q ⊎ R) → Q ⊎ (P ⊎ R)
swap P Q R (inl p) = inr (inl p)
swap P Q R (inr (inl q)) = inl q
swap P Q R (inr (inr r)) = inr (inr r)

under : (P Q R : Type 0) → (Q → R) → P ⊎ Q → P ⊎ R
under P Q R f (inl p) = inl p
under P Q R f (inr q) = inr (f q)

module _ {A : Type 0} where
  -- The row is one of the list.
  abbrev pub Stands : A → List A → Type 0
  Stands x [] = ⊥
  Stands x (y ∷ ys) = (y ≡ x) ⊎ Stands x ys

  pub Stands-All : (P : A → Type 0) (x : A) (xs : List A) → All P xs → Stands x xs → P x
  Stands-All P x [] h there = absurd there
  Stands-All P x (y ∷ ys) h (inl same) = subst P same h.0
  Stands-All P x (y ∷ ys) h (inr later) = Stands-All P x ys h.1 later

  pub All-Stands : (P : A → Type 0) (xs : List A) → ((x : A) → Stands x xs → P x) → All P xs
  All-Stands P [] h = tt
  All-Stands P (x ∷ xs) h = (h x (inl refl), All-Stands P xs (λ y there. h y (inr there)))

  pub any-Stands :
      (p : A → Bool) (xs : List A) → any p xs ≡ true → (x : A) × Stands x xs × (p x ≡ true)
  any-Stands p [] h = absurd (cc)
  any-Stands p (x ∷ xs) h = elim (Bool-cases (p x)) [
    | inl here ↦ (x, inl refl, here)
    | inr away ↦ let (y, there, pass) = any-Stands p xs (rw away at h) in (y, inr there, pass)
  ]

  pub Stands-any : (p : A → Bool) (x : A) (xs : List A) → Stands x xs → p x ≡ true → any p xs ≡ true
  Stands-any p x [] there pass = absurd there
  Stands-any p x (y ∷ ys) (inl same) pass = ground (arith, ap p same)
  Stands-any p x (y ∷ ys) (inr later) pass = ground (arith, Stands-any p x ys later pass)

  pub any-count : (p : A → Bool) (xs : List A) → any p xs ≡ true → 1 ≤ count p xs
  any-count p [] h = absurd (cc)
  any-count p (x ∷ xs) h = ground (arith, any-count p xs)

  pub count-any : (p : A → Bool) (xs : List A) → 1 ≤ count p xs → any p xs ≡ true
  count-any p [] h = absurd (omega arith)
  count-any p (x ∷ xs) h = ground (arith, count-any p xs)

  pub Stands-filter :
      (p : A → Bool) (x : A) (xs : List A) → Stands x (filter p xs) ↔ (Stands x xs × (p x ≡ true))
  Stands-filter p x [] = (λ h. absurd h, λ h. absurd h.0)
  Stands-filter p x (y ∷ ys) =
      let rest = Stands-filter p x ys in
      elim (Bool-cases (p y)) [
        | inl kept ↦ rw kept (
          λ h. elim h [
            | inl same ↦ (inl same, ap p (sym same) ∙ kept)
            | inr later ↦ (inr (rest.0 later).0, (rest.0 later).1)
          ],
          λ h. elim (h.0) [ inl same ↦ inl same | inr later ↦ inr (rest.1 (later, h.1)) ],
        )
        | inr dropped ↦ rw dropped (
          λ h. (inr (rest.0 h).0, (rest.0 h).1),
          λ h. elim (h.0) [
            | inl same ↦ absurd (cc (dropped, ap p same, h.1))
            | inr later ↦ rest.1 (later, h.1)
          ],
        )
      ]

  Stands-insert_by :
      (x : A) (key : A → ℕ) (y : A) (ys : List A)
      → Stands x (insert_by key y ys) ↔ ((y ≡ x) ⊎ Stands x ys)
  Stands-insert_by x key y [] = (λ h. h, λ h. h)
  Stands-insert_by x key y (z ∷ zs) =
      let rest = Stands-insert_by x key y zs in
      elim (Bool-cases (ltb (key z) (key y))) [
        | inl behind ↦
            rw behind
              (λ h. swap _ _ _ (under _ _ _ rest.0 h), λ h. under _ _ _ rest.1 (swap _ _ _ h))
        | inr here ↦ rw here (λ h. h, λ h. h)
      ]

  pub Stands-order_by :
      (x : A) (key : A → ℕ) (xs : List A) → Stands x (order_by key xs) ↔ Stands x xs
  Stands-order_by x key [] = (λ h. h, λ h. h)
  Stands-order_by x key (y ∷ ys) =
      let rest = Stands-order_by x key ys in
      let put = Stands-insert_by x key y (order_by key ys) in
      (λ h. under _ _ _ rest.0 (put.0 h), λ h. put.1 (under _ _ _ rest.1 h))

  Stands-insert_by_desc :
      (x : A) (key : A → ℕ) (y : A) (ys : List A)
      → Stands x (insert_by_desc key y ys) ↔ ((y ≡ x) ⊎ Stands x ys)
  Stands-insert_by_desc x key y [] = (λ h. h, λ h. h)
  Stands-insert_by_desc x key y (z ∷ zs) =
      let rest = Stands-insert_by_desc x key y zs in
      elim (Bool-cases (ltb (key y) (key z))) [
        | inl behind ↦
            rw behind
              (λ h. swap _ _ _ (under _ _ _ rest.0 h), λ h. under _ _ _ rest.1 (swap _ _ _ h))
        | inr here ↦ rw here (λ h. h, λ h. h)
      ]

  pub Stands-order_by_desc :
      (x : A) (key : A → ℕ) (xs : List A) → Stands x (order_by_desc key xs) ↔ Stands x xs
  Stands-order_by_desc x key [] = (λ h. h, λ h. h)
  Stands-order_by_desc x key (y ∷ ys) =
      let rest = Stands-order_by_desc x key ys in
      let put = Stands-insert_by_desc x key y (order_by_desc key ys) in
      (λ h. under _ _ _ rest.0 (put.0 h), λ h. put.1 (under _ _ _ rest.1 h))

  -- The keys fall from row to row.
  abbrev pub Falls : (A → ℕ) → A → A → Type 0
  Falls key x y = key y ≤ key x

  All-Falls :
      (key : A → ℕ) (x y : A) (ys : List A)
      → key y ≤ key x
      → All (Falls key y) ys
      → All (Falls key x) ys
  All-Falls key x y [] le h = tt
  All-Falls key x y (z ∷ zs) le h = (omega arith, All-Falls key x y zs le h.1)

  All-insert_by_desc :
      (P : A → Type 0) (key : A → ℕ) (x : A) (xs : List A)
      → P x
      → All P xs
      → All P (insert_by_desc key x xs)
  All-insert_by_desc P key x [] p h = (p, tt)
  All-insert_by_desc P key x (y ∷ ys) p h = ground (arith, All-insert_by_desc P key x ys p h.1)

  insert_by_desc-Pairs :
      (key : A → ℕ) (x : A) (xs : List A)
      → Pairs (Falls key) xs
      → Pairs (Falls key) (insert_by_desc key x xs)
  insert_by_desc-Pairs key x [] h = (tt, tt)
  insert_by_desc-Pairs key x (y ∷ ys) h = elim (Bool-cases (ltb (key x) (key y))) [
    | inl behind ↦ rw behind (
      All-insert_by_desc (Falls key y) key x ys (ground arith) h.0,
      insert_by_desc-Pairs key x ys h.1,
    )
    | inr here ↦
        let le : key y ≤ key x = ground arith in rw here ((le, All-Falls key x y ys le h.0), h)
  ]

  pub order_by_desc-Pairs : (key : A → ℕ) (xs : List A) → Pairs (Falls key) (order_by_desc key xs)
  order_by_desc-Pairs key [] = tt
  order_by_desc-Pairs key (x ∷ xs) =
      insert_by_desc-Pairs key x (order_by_desc key xs) (order_by_desc-Pairs key xs)

  pub Stands-take : (n : ℕ) (x : A) (xs : List A) → Stands x (take n xs) → Stands x xs
  Stands-take zero x xs h = absurd h
  Stands-take (suc n) x [] h = h
  Stands-take (suc n) x (y ∷ ys) (inl same) = inl same
  Stands-take (suc n) x (y ∷ ys) (inr later) = inr (Stands-take n x ys later)

  pub length-take : (n : ℕ) (xs : List A) → length (take n xs) ≤ n
  length-take zero xs = ground arith
  length-take (suc n) [] = ground arith
  length-take (suc n) (x ∷ xs) = ground (arith, length-take n xs)

  -- Of rows whose keys fall, a limit drops only rows whose keys are not above those that it keeps.
  pub take-Falls :
      (key : A → ℕ) (n : ℕ) (x : A) (xs : List A)
      → Pairs (Falls key) xs
      → Stands x xs
      → Stands x (take n xs) ⊎ (length (take n xs) ≡ n) × All (λ y. key x ≤ key y) (take n xs)
  take-Falls key zero x xs falls there = inr (refl, tt)
  take-Falls key (suc n) x [] falls there = absurd there
  take-Falls key (suc n) x (y ∷ ys) falls (inl same) = inl (inl same)
  take-Falls key (suc n) x (y ∷ ys) falls (inr later) = elim (take-Falls key n x ys falls.1 later) [
    | inl kept ↦ inl (inr kept)
    | inr (full, above) ↦ inr (ap suc full, (Stands-All (Falls key y) x ys falls.0 later, above))
  ]
