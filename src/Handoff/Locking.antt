-- ===== src/Handoff/Locking.antt =====
-- One lock for each conversation, which is found from its locking to its release.
use kachu_v.Prelude.{
  All, Bool-cases, List, Option-cases, String, [], arith, eq_iff, filter, first, if◌then◌else◌, inl,
  inr, none, order_by_desc, refl, some, sym, true, ◌∙◌, ◌∷◌, ◌≡◌,
}
use kachu_v.Table.{IsKeyed, get_row, put_row}
use kachu_v.Table.Laws.{first-put_row_found, first-put_row_new, first_sound, put_row-IsKeyed}
use kachu_v.Table.Pairs.{
  Pairs, filter-filter, filter-of_first-none, get_row-of_first, put_row-Pairs, put_row-Pairs_found,
}
use kachu_v.Handoff.{HandoffLock, by_locked_at, is_active_lock, is_lock, lock_row}

-- Two rows are about different conversations.
abbrev pub Distinct : HandoffLock → HandoffLock → Type 0
Distinct x y =
    x.tenant_id ≡ y.tenant_id
    → x.channel_type ≡ y.channel_type
    → x.external_user_id ≡ y.external_user_id
    → ⊥

-- At most one row stands for a conversation, and primary keys are unique.
abbrev pub IsUnique : List HandoffLock → Type 0
IsUnique table = IsKeyed table × Pairs Distinct table

Distinct-symm : (x y : HandoffLock) → Distinct x y → Distinct y x
Distinct-symm x y h a b c = h (sym a) (sym b) (sym c)

module _ (tenant channel user : String) where
  abbrev pub IsFor : HandoffLock → Type 0
  IsFor l = (l.tenant_id ≡ tenant) × (l.channel_type ≡ channel) × (l.external_user_id ≡ user)

  pub is_lock_sound : (l : HandoffLock) → is_lock tenant channel user l ≡ true → IsFor l
  is_lock_sound l h = ground (
    arith,
    eq_iff l.tenant_id tenant,
    eq_iff l.channel_type channel,
    eq_iff l.external_user_id user,
  )

  is_lock_complete : (l : HandoffLock) → IsFor l → is_lock tenant channel user l ≡ true
  is_lock_complete l h = ground (
    arith,
    eq_iff l.tenant_id tenant,
    eq_iff l.channel_type channel,
    eq_iff l.external_user_id user,
  )

  others-none :
      (l : HandoffLock) (table : List HandoffLock)
      → IsFor l
      → All (Distinct l) table
      → filter (is_lock tenant channel user) table ≡ []
  others-none l [] f h = refl
  others-none l (x ∷ xs) f h = elim (Bool-cases (is_lock tenant channel user x)) [
    | inl same ↦
        let (a, b, c) = is_lock_sound x same in
        absurd (h.0 (f.0 ∙ sym a) (f.1 ∙ sym b) (f.2 ∙ sym c))
    | inr other ↦ rw other (others-none l xs f h.1)
  ]

  -- The rows of a conversation are the one that the query finds first, or none.
  pub one_row :
      (l : HandoffLock) (table : List HandoffLock)
      → Pairs Distinct table
      → first (is_lock tenant channel user) table ≡ some l
      → filter (is_lock tenant channel user) table ≡ l ∷ []
  one_row l [] h e = cc
  one_row l (x ∷ xs) h e = elim (Bool-cases (is_lock tenant channel user x)) [
    | inl same ↦
        let here : x ≡ l = cc (rw same at e) in
        rw same (cc (here, others-none x xs (is_lock_sound x same) h.0))
    | inr other ↦ rw other (one_row l xs h.1 (rw other at e))
  ]

  pub newest-eq-first :
      (table : List HandoffLock)
      → Pairs Distinct table
      → first (λ _. true) (order_by_desc by_locked_at (filter (is_lock tenant channel user) table))
        ≡ first (is_lock tenant channel user) table
  newest-eq-first table h = elim (Option-cases (first (is_lock tenant channel user) table)) [
    | inl missing ↦ rw (missing, filter-of_first-none (is_lock tenant channel user) table missing)
    | inr (l, found) ↦ rw (found, one_row l table h found)
  ]

  -- What the query for the active lock finds, if the conversation has the row `l`, or none.
  pub active-of_row :
      (l : HandoffLock) (table : List HandoffLock)
      → Pairs Distinct table
      → first (is_lock tenant channel user) table ≡ some l
      → first
          (λ _. true)
          (order_by_desc by_locked_at (filter (is_active_lock tenant channel user) table))
        ≡ (if l.is_active then some l else none)
  active-of_row l table h found =
      rw
        (
          filter-filter (is_lock tenant channel user) (λ x. x.is_active) table,
          one_row l table h found,
        )
        (ground arith)

  pub active-of_none :
      (table : List HandoffLock)
      → first (is_lock tenant channel user) table ≡ none
      → first
          (λ _. true)
          (order_by_desc by_locked_at (filter (is_active_lock tenant channel user) table))
        ≡ none
  active-of_none table missing = rw (
    filter-filter (is_lock tenant channel user) (λ x. x.is_active) table,
    filter-of_first-none (is_lock tenant channel user) table missing,
  )

  -- A write of a row for this conversation, under the key of its row or, if it has none, a new one.
  module _ (r : HandoffLock) (for : IsFor r) (table : List HandoffLock)
      (unique : IsUnique table) where
    pub write_found :
        (l : HandoffLock)
        → first (is_lock tenant channel user) table ≡ some l
        → r.id ≡ l.id
        → IsUnique (put_row r table)
          × (first (is_lock tenant channel user) (put_row r table) ≡ some r)
    write_found l found same =
        let (a, b, c) = is_lock_sound l (first_sound (is_lock tenant channel user) l table found) in
        let here : get_row r.id table ≡ some l =
          (rw same (get_row-of_first (is_lock tenant channel user) l table unique.0 found)) in
        (
          (
            put_row-IsKeyed r table unique.0,
            put_row-Pairs_found Distinct r l table
                (λ y d p q s. d (a ∙ sym for.0 ∙ p) (b ∙ sym for.1 ∙ q) (c ∙ sym for.2 ∙ s))
                (λ y d p q s. d (p ∙ for.0 ∙ sym a) (q ∙ for.1 ∙ sym b) (s ∙ for.2 ∙ sym c)) here
                unique.1,
          ),
          first-put_row_found (is_lock tenant channel user) r l table unique.0 found same
              (is_lock_complete r for),
        )

    pub write_new :
        first (is_lock tenant channel user) table ≡ none
        → IsUnique (put_row r table)
          × (first (is_lock tenant channel user) (put_row r table) ≡ some r)
    write_new missing = (
      (
        put_row-IsKeyed r table unique.0,
        put_row-Pairs Distinct r table Distinct-symm (no_row table missing) unique.1,
      ),
      first-put_row_new (is_lock tenant channel user) r table missing (is_lock_complete r for),
    )
      where
        no_row :
            (xs : List HandoffLock)
            → first (is_lock tenant channel user) xs ≡ none
            → All (Distinct r) xs
        no_row [] e = tt
        no_row (x ∷ xs) e = elim (Bool-cases (is_lock tenant channel user x)) [
          | inl same ↦ absurd (cc (rw same at e))
          | inr other ↦ (
            λ p q s.
                absurd
                  (cc (is_lock_complete x (sym p ∙ for.0, sym q ∙ for.1, sym s ∙ for.2), other)),
            no_row xs (rw other at e),
          )
        ]
