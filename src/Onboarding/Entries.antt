-- ===== src/Onboarding/Entries.antt =====
-- The answers that the onboarding keeps: how many entries of each category a tenant has.
use kachu_v.Prelude.{
  Bool, List, String, [], arith, count, eq_iff, eq_refl, if◌then◌else◌, refl, ℕ, ◌++◌, ◌+◌, ◌==◌,
  ◌∷◌, ◌≡◌,
}
use kachu_v.Table.{delete_where}
use kachu_v.Onboarding.{
  KnowledgeEntry, OnboardingDb, delete_knowledge_entries_by_category, entry_row, is_entry,
  save_knowledge_entry, state_row,
}

count-snoc :
    (p : KnowledgeEntry → Bool) (xs : List KnowledgeEntry) (e : KnowledgeEntry)
    → count p (xs ++ e ∷ []) ≡ count p xs + (if p e then 1 else 0)
count-snoc p [] e = ground arith
count-snoc p (x ∷ xs) e = ground (arith, count-snoc p xs e)

-- `SELECT` of the entries of a category, counted.
abbrev pub entries_of : String → String → OnboardingDb → ℕ
entries_of tenant category db = count (is_entry tenant category) db.entries

module _ (tenant category : String) where
  -- A saved entry counts under its category only.
  pub entries_of-save_knowledge_entry :
      (now : ℕ) (id other content conversation : String) (db : OnboardingDb)
      → entries_of tenant category
          (save_knowledge_entry now id tenant other content conversation db)
        ≡ entries_of tenant category db + (if other == category then 1 else 0)
  unfolding save_knowledge_entry
  entries_of-save_knowledge_entry now id other content conversation db =
      rw (count-snoc (is_entry tenant category) db.entries _, eq_refl tenant) refl

  count-delete_where :
      (other : String) (xs : List KnowledgeEntry)
      → count (is_entry tenant category) (delete_where (is_entry tenant other) xs)
        ≡ (if other == category then 0 else count (is_entry tenant category) xs)
  count-delete_where other [] = ground arith
  count-delete_where other (x ∷ xs) = ground (
    arith,
    count-delete_where other xs,
    eq_iff x.category other,
    eq_iff x.category category,
    eq_iff other category,
  )

  -- A deletion leaves no entry of its category, and the others.
  pub entries_of-delete :
      (other : String) (db : OnboardingDb)
      → entries_of tenant category (delete_knowledge_entries_by_category tenant other db)
        ≡ (if other == category then 0 else entries_of tenant category db)
  unfolding delete_knowledge_entries_by_category
  entries_of-delete other db = count-delete_where other db.entries
