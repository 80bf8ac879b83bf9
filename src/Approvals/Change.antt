-- ===== src/Approvals/Change.antt =====
-- What a change of a run's row and a save of a draft do to the map from runs to drafts.
use kachu_v.Prelude.{
  Bool-cases, List, Option, Option-cases, String, ap, arith, eq_iff, eq_refl, false, first,
  if◌then◌else◌, inl, inr, none, refl, some, subst, sym, true, ℕ, ◌==◌, ◌∙◌, ◌≡◌, ◌≢◌, ◌⊎◌,
}
use kachu_v.Prelude.Laws.{test_unequal}
use kachu_v.Table.{get_row, put_row}
use kachu_v.Table.Laws.{first-put_row_found, first-put_row_new, first_sound}
use kachu_v.Table.Pairs.{get_row-of_first}
use kachu_v.Approvals.{
  Approval, approval_row, change, get_pending_approval_by_run_id, is_run, new_approval,
  save_pending_approval, saved_approval,
}
use kachu_v.Approvals.Unique.{
  IsUnique, drafts, other_runs, write_found-IsUnique, write_new-IsUnique,
}
use mathlib.Core.Option.{map as map_option}

-- A change of a row, if it keeps the key and the run, is a change of the map at this run.
module _ (run : String) (f : Approval → Approval) (keep_id : (a : Approval) → (f a).id ≡ a.id)
    (keep_run : (a : Approval) → (f a).agentos_run_id ≡ a.agentos_run_id) (table : List Approval)
    (unique : IsUnique table) where
  run_of : (a : Approval) → first (is_run run) table ≡ some a → a.agentos_run_id ≡ run
  run_of a found =
      ground (arith, first_sound (is_run run) a table found, eq_iff a.agentos_run_id run)

  change_cases :
      (first (is_run run) table ≡ none) × (change run f table ≡ (none, table))
      ⊎ ((a : Approval) × (first (is_run run) table ≡ some a)
          × (change run f table ≡ (some (f a), put_row (f a) table)))
  unfolding change
  change_cases = elim (Option-cases (first (is_run run) table)) [
    | inl missing ↦ inl (missing, rw (missing, change) refl)
    | inr (a, found) ↦ inr (a, found, rw (found, change) refl)
  ]

  pub change-IsUnique : IsUnique (change run f table).1
  change-IsUnique = elim change_cases [
    | inl (missing, e) ↦ rw e unique
    | inr (a, found, e) ↦ rw e (
        write_found-IsUnique (f a) table unique a
          (subst (λ j. first (is_run j) table ≡ some a) (sym (keep_run a ∙ run_of a found)) found)
          (keep_id a) (keep_run a))
  ]

  same_run : drafts (change run f table).1 run ≡ map_option f (drafts table run)
  unfolding get_pending_approval_by_run_id
  same_run = elim change_cases [
    | inl (missing, e) ↦ rw (e, missing) refl
    | inr (a, found, e) ↦
        rw (e, found)
          (first-put_row_found (is_run run) (f a) a table unique.0 found (keep_id a)
            (rw (keep_run a) (first_sound (is_run run) a table found)))
  ]

  other_run : (k : String) → (run == k) ≡ false → drafts (change run f table).1 k ≡ drafts table k
  other_run k away = elim change_cases [
    | inl (missing, e) ↦ rw e refl
    | inr (a, found, e) ↦ rw e (
        other_runs (f a) table unique k (rw (keep_run a, run_of a found) away) (λ old here.
          let same : old ≡ a =
            cc (here, keep_id a, get_row-of_first (is_run run) a table unique.0 found) in
          subst (λ j. (j == k) ≡ false)
            (sym (run_of a found) ∙ ap (λ x. x.agentos_run_id) (sym same)) away))
  ]

  pub drafts-change :
      (k : String)
      → drafts (change run f table).1 k
        ≡ (if run == k then map_option f (drafts table k) else drafts table k)
  drafts-change k = elim (Bool-cases (run == k)) [
    | inl same ↦ rw same (
        subst (λ j. drafts (change run f table).1 j ≡ map_option f (drafts table j))
          (ground (arith, eq_iff run k)) same_run)
    | inr other ↦ rw other (other_run k other)
  ]

abbrev pub Rewritten : (Approval → Approval) → Approval → List Approval → List Approval → Type 0
Rewritten f a table table' =
    IsUnique table'
    × (table' ≡ put_row (f a) table)
    × ((k : String) → a.agentos_run_id ≢ k → drafts table' k ≡ drafts table k)
    × (drafts table' a.agentos_run_id ≡ some (f a))

-- The change of a run's row writes it, and leaves the other runs as they are.
pub change_row :
    (f : Approval → Approval) (a : Approval) (table : List Approval)
    → ((x : Approval) → (f x).id ≡ x.id)
    → ((x : Approval) → (f x).agentos_run_id ≡ x.agentos_run_id)
    → IsUnique table
    → drafts table a.agentos_run_id ≡ some a
    → Rewritten f a table (change a.agentos_run_id f table).1
unfolding change get_pending_approval_by_run_id
change_row f a table keep_id keep_run unique found =
    let after = drafts-change a.agentos_run_id f keep_id keep_run table unique in
    (
      change-IsUnique a.agentos_run_id f keep_id keep_run table unique,
      rw (found, change) refl,
      λ k away. after k ∙ rw (test_unequal a.agentos_run_id k away) refl,
      after a.agentos_run_id ∙ rw (eq_refl a.agentos_run_id, found) refl,
    )

module _ (table : List Approval) (unique : IsUnique table) where
  -- A save: its row is new, or stands in the place of the run's.
  module _ (now : ℕ) (new_id tenant task run workflow draft review : String) where
    abbrev saved : Approval
    saved =
        saved_approval now new_id tenant task run workflow draft review (first (is_run run) table)

    save_cases :
        (saved.agentos_run_id ≡ run)
        × ((first (is_run run) table ≡ none) × (saved.id ≡ new_id)
            ⊎ ((a : Approval) × (first (is_run run) table ≡ some a) × (saved.id ≡ a.id)))
    unfolding saved_approval new_approval
    save_cases = elim (Option-cases (first (is_run run) table)) [
      | inl missing ↦ rw missing (refl, inl (refl, refl))
      | inr (a, found) ↦ rw found (
        ground (arith, first_sound (is_run run) a table found, eq_iff a.agentos_run_id run),
        inr (a, refl, refl),
      )
    ]

    found_as :
        (o : Option Approval)
        → first (is_run run) table ≡ o
        → first (is_run saved.agentos_run_id) table ≡ o
    found_as o e = subst (λ j. first (is_run j) table ≡ o) (sym save_cases.0) e

    pub save-IsUnique :
        IsUnique (save_pending_approval now new_id tenant task run workflow draft review table).1
    unfolding save_pending_approval
    save-IsUnique = elim save_cases.1 [
      | inl (missing, _) ↦ write_new-IsUnique saved table unique (found_as none missing)
      | inr (a, found, same) ↦
          write_found-IsUnique saved table unique a (found_as (some a) found) same (
            save_cases.0
            ∙ ground (arith, first_sound (is_run run) a table found, eq_iff a.agentos_run_id run))
    ]

    pub drafts-save :
        get_row new_id table ≡ none
        → (k : String)
        → drafts (save_pending_approval now new_id tenant task run workflow draft review table).1 k
          ≡ (if run == k
              then some
                  (saved_approval now new_id tenant task run workflow draft review (drafts table k))
              else drafts table k)
    unfolding save_pending_approval get_pending_approval_by_run_id
    drafts-save fresh k = elim (Bool-cases (run == k)) [
      | inl same ↦ rw same (
          subst
            (λ j.
              first (is_run j) (put_row saved table)
              ≡ some (
                  saved_approval now new_id tenant task run workflow draft review
                    (first (is_run j) table)))
            (ground (arith, eq_iff run k)) written)
      | inr other ↦ rw other (
          other_runs saved table unique k (subst (λ j. (j == k) ≡ false) (sym save_cases.0) other)
            (replaced other))
    ]
      where
        run_saved : is_run run saved ≡ true
        run_saved = ground (arith, save_cases.0, eq_iff saved.agentos_run_id run)

        written : first (is_run run) (put_row saved table) ≡ some saved
        written = elim save_cases.1 [
          | inl (missing, _) ↦ first-put_row_new (is_run run) saved table missing run_saved
          | inr (a, found, same) ↦
              first-put_row_found (is_run run) saved a table unique.0 found same run_saved
        ]

        replaced :
            (run == k) ≡ false
            → (old : Approval) → get_row saved.id table ≡ some old
            → (old.agentos_run_id == k) ≡ false
        replaced other old here = elim save_cases.1 [
          | inl (missing, new) ↦ absurd (cc (here, new, fresh))
          | inr (a, found, same) ↦
              let same_row : old ≡ a =
                cc (here, same, get_row-of_first (is_run run) a table unique.0 found) in
              subst (λ x. (x.agentos_run_id == k) ≡ false) (sym same_row)
                (ground
                  (arith, first_sound (is_run run) a table found, eq_iff a.agentos_run_id run))
        ]
