-- ===== src/Table/Laws.antt =====
-- Reading back what a write to a table stored.
use kachu_v.Prelude.{
  All, Bool, Bool-cases, List, String, [], any, arith, eq_iff, false, first, if◌then◌else◌, inl,
  inr, none, refl, some, subst, sym, true, ◌==◌, ◌||◌, ◌∷◌, ◌≡◌, ◌≢◌,
}
use kachu_v.Table.{IsKeyed, Row, get_row, put_row, update_where}

module _ {ℓ} {A : Type ℓ} ⦃t : Row A⦄ where
  -- A row is found under its key after a write, and the other keys are as before.
  pub get_row-put_row :
      (k : String) (r : A) (xs : List A)
      → get_row k (put_row r xs) ≡ (if t.id_of r == k then some r else get_row k xs)
  get_row-put_row k r [] = refl
  get_row-put_row k r (x ∷ xs) = ground (
    arith,
    get_row-put_row k r xs,
    eq_iff (t.id_of x) (t.id_of r),
    eq_iff (t.id_of r) k,
    eq_iff (t.id_of x) k,
  )

  pub put_row-IsKeyed : (r : A) (xs : List A) → IsKeyed xs → IsKeyed (put_row r xs)
  put_row-IsKeyed r [] h = (refl, tt)
  put_row-IsKeyed r (x ∷ xs) h = ground (
    arith,
    put_row-IsKeyed r xs h.1,
    get_row-put_row (t.id_of x) r xs,
    eq_iff (t.id_of x) (t.id_of r),
    eq_iff (t.id_of r) (t.id_of x),
  )

  pub get_row-of_first_found :
      (p : A → Bool) (k : String) (x : A) (xs : List A)
      → first p xs ≡ some x
      → t.id_of x ≡ k
      → get_row k xs ≢ none
  get_row-of_first_found p k x [] f e = cc
  get_row-of_first_found p k x (y ∷ xs) f e =
      ground (arith, get_row-of_first_found p k x xs, eq_iff (t.id_of y) k)

  -- Whether some row passes a test, after a write of a row that is new or whose old version did
  -- not pass it.
  pub any-put_row :
      (p : A → Bool) (r : A) (xs : List A)
      → ((old : A) → get_row (t.id_of r) xs ≡ some old → p old ≡ false)
      → any p (put_row r xs) ≡ (p r || any p xs)
  any-put_row p r [] h = refl
  any-put_row p r (x ∷ xs) h = elim (Bool-cases (t.id_of x == t.id_of r)) [
    | inl same ↦ rw (same, h x (rw same refl)) refl
    | inr other ↦
        rw (other, any-put_row p r xs (λ old e. h old (rw other e))) (swap (p x) (p r) (any p xs))
  ]
    where
      swap : (a b c : Bool) → (a || (b || c)) ≡ (b || (a || c))
      swap a b c = ground arith

  -- The query that found a row finds the row that was written in its place.
  pub first-put_row_found :
      (p : A → Bool) (r x : A) (xs : List A)
      → IsKeyed xs
      → first p xs ≡ some x
      → t.id_of r ≡ t.id_of x
      → p r ≡ true
      → first p (put_row r xs) ≡ some r
  first-put_row_found p r x [] h f e q = cc
  first-put_row_found p r x (y ∷ xs) h f e q = ground (
    arith,
    first-put_row_found p r x xs h.1,
    eq_iff (t.id_of y) (t.id_of r),
    get_row-of_first_found p (t.id_of y) x xs,
  )

  -- A query that found nothing finds the row that is new.
  pub first-put_row_new :
      (p : A → Bool) (r : A) (xs : List A)
      → first p xs ≡ none
      → p r ≡ true
      → first p (put_row r xs) ≡ some r
  first-put_row_new p r [] f q = ground arith
  first-put_row_new p r (x ∷ xs) f q = ground (arith, first-put_row_new p r xs)

  -- A query that finds neither the new row nor the one in whose place it stands finds what it did.
  pub first-put_row_other :
      (p : A → Bool) (r : A) (xs : List A)
      → p r ≡ false
      → ((old : A) → get_row (t.id_of r) xs ≡ some old → p old ≡ false)
      → first p (put_row r xs) ≡ first p xs
  first-put_row_other p r [] away h = rw away refl
  first-put_row_other p r (x ∷ xs) away h = elim (Bool-cases (t.id_of x == t.id_of r)) [
    | inl same ↦ rw (same, away, h x (rw same refl)) refl
    | inr other ↦ rw (other, first-put_row_other p r xs away (λ old e. h old (rw other e))) refl
  ]

  pub get_row-id : (k : String) (x : A) (xs : List A) → get_row k xs ≡ some x → t.id_of x ≡ k
  get_row-id k x [] h = cc
  get_row-id k x (y ∷ xs) h = ground (arith, get_row-id k x xs, eq_iff (t.id_of y) k)

module _ {ℓ} {A : Type ℓ} where
  pub first_sound : (p : A → Bool) (x : A) (xs : List A) → first p xs ≡ some x → p x ≡ true
  first_sound p x [] h = cc
  first_sound p x (y ∷ xs) h = ground (arith, first_sound p x xs)

  pub All-update_where {κ} :
      {P : A → Type κ} (p : A → Bool) (f : A → A) (xs : List A)
      → ((x : A) → P x → P (f x))
      → All P xs
      → All P (update_where p f xs)
  All-update_where p f [] keep h = tt
  All-update_where p f (x ∷ xs) keep h = ground (arith, keep x, All-update_where p f xs keep)

  pub any-of_first :
      (p q : A → Bool) (x : A) (xs : List A) → first q xs ≡ some x → p x ≡ true → any p xs ≡ true
  any-of_first p q x [] found h = absurd (cc)
  any-of_first p q x (y ∷ ys) found h = elim (Bool-cases (q y)) [
    | inl here ↦
        let same : y ≡ x = cc (rw here at found) in rw (subst (λ z. p z ≡ true) (sym same) h) refl
    | inr away ↦ rw (any-of_first p q x ys (rw away at found) h) (or_true (p y))
  ]
    where
      or_true : (b : Bool) → (b || true) ≡ true
      or_true b = ground arith
