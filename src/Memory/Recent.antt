-- ===== src/Memory/Recent.antt =====
-- The newest row of a table is the first that a query by descending time returns.
use kachu_v.Prelude.{
  All, Bool, Bool-cases, List, [], any, arith, false, filter, inl, inr, ltb, not, order_by_desc,
  refl, suc, take, true, ℕ, ◌&&◌, ◌++◌, ◌∷◌, ◌≡◌,
}
use kachu_v.Memory.{add_unless}

module _ {ℓ} {A : Type ℓ} (time_of : A → ℕ) (row : A) where
  -- The rows are older than the given one.
  abbrev AreOlder : List A → Type 0
  AreOlder xs = All (λ x. ltb (time_of x) (time_of row) ≡ true) xs

  order_by_desc-newest :
      (xs : List A)
      → AreOlder xs
      → order_by_desc time_of (xs ++ row ∷ []) ≡ row ∷ order_by_desc time_of xs
  order_by_desc-newest [] h = refl
  order_by_desc-newest (x ∷ xs) h = rw (order_by_desc-newest xs h.1, h.0) refl

  filter-newest :
      (p : A → Bool) (xs : List A)
      → p row ≡ true
      → filter p (xs ++ row ∷ []) ≡ filter p xs ++ row ∷ []
  filter-newest p [] kept = rw (kept) refl
  filter-newest p (x ∷ xs) kept = elim (Bool-cases (p x)) [
    | inl holds ↦ rw (holds, filter-newest p xs kept) refl
    | inr fails ↦ rw (fails, filter-newest p xs kept) refl
  ]

  AreOlder-filter : (p : A → Bool) (xs : List A) → AreOlder xs → AreOlder (filter p xs)
  AreOlder-filter p [] h = tt
  AreOlder-filter p (x ∷ xs) h = elim (Bool-cases (p x)) [
    | inl holds ↦ rw (holds) (h.0, AreOlder-filter p xs h.1)
    | inr fails ↦ rw (fails) (AreOlder-filter p xs h.1)
  ]

  -- A query of some rows finds the newest one.
  pub any-newest :
      (p q : A → Bool) (n : ℕ) (xs : List A)
      → AreOlder xs
      → p row ≡ true
      → q row ≡ true
      → any q (take (suc n) (order_by_desc time_of (filter p (xs ++ row ∷ [])))) ≡ true
  any-newest p q n xs older kept found =
      rw
        (
          filter-newest p xs kept,
          order_by_desc-newest (filter p xs) (AreOlder-filter p xs older),
          found,
        )
        refl

-- What is added once is not added again.
pub add_unless_again {ℓ} :
    {A : Type ℓ} (wanted : Bool) (matches : List A → Bool) (row later : A) (table : List A)
    → matches (table ++ row ∷ []) ≡ true
    → let table' = (add_unless wanted matches row table).1 in
      add_unless wanted matches later table' ≡ (false, table')
add_unless_again wanted matches row later table found =
    elim (Bool-cases (wanted && not (matches table))) [
      | inl adds ↦ rw (adds, found) (ground arith)
      | inr keeps ↦ rw (keeps, keeps) refl
    ]
