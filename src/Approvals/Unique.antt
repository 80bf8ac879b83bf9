-- ===== src/Approvals/Unique.antt =====
-- One row for each run: what the writes to the table do to the map from runs to drafts.
use kachu_v.Prelude.{
  All, Bool-cases, List, Option, String, [], arith, eq_iff, eq_refl, false, first, inl, inr, none,
  refl, some, sym, ◌==◌, ◌∙◌, ◌∷◌, ◌≡◌, ◌≢◌,
}
use kachu_v.Table.{IsKeyed, get_row, put_row}
use kachu_v.Table.Laws.{first-put_row_other, put_row-IsKeyed}
use kachu_v.Table.Pairs.{Pairs, get_row-of_first, put_row-Pairs, put_row-Pairs_found}
use kachu_v.Prelude.Laws.{test_unequal}
use kachu_v.Approvals.{Approval, approval_row, get_pending_approval_by_run_id, is_run}

-- The draft of each run.
abbrev pub Drafts : Type 0
Drafts = String → Option Approval

abbrev pub drafts : List Approval → Drafts
drafts table k = get_pending_approval_by_run_id k table

-- Primary keys are unique, and at most one row stands for a run.
abbrev pub OtherRun : Approval → Approval → Type 0
OtherRun x y = x.agentos_run_id ≢ y.agentos_run_id

abbrev pub IsUnique : List Approval → Type 0
IsUnique table = IsKeyed table × Pairs OtherRun table

OtherRun-symm : (x y : Approval) → OtherRun x y → OtherRun y x
OtherRun-symm x y h e = h (sym e)

no_run :
    (r : Approval) (table : List Approval)
    → first (is_run r.agentos_run_id) table ≡ none
    → All (OtherRun r) table
no_run r [] e = tt
no_run r (x ∷ xs) e = elim (Bool-cases (x.agentos_run_id == r.agentos_run_id)) [
  | inl same ↦ absurd (cc (rw same at e))
  | inr other ↦ (
    λ p. absurd (ground (arith, eq_iff x.agentos_run_id r.agentos_run_id)),
    no_run r xs (rw other at e),
  )
]

-- A write of a row in the place of its run's, or of a new run's row.
module _ (r : Approval) (table : List Approval) (unique : IsUnique table) where
  pub write_new-IsUnique : first (is_run r.agentos_run_id) table ≡ none → IsUnique (put_row r table)
  write_new-IsUnique missing = (
    put_row-IsKeyed r table unique.0,
    put_row-Pairs OtherRun r table OtherRun-symm (no_run r table missing) unique.1,
  )

  pub write_found-IsUnique :
      (a : Approval)
      → first (is_run r.agentos_run_id) table ≡ some a
      → r.id ≡ a.id
      → r.agentos_run_id ≡ a.agentos_run_id
      → IsUnique (put_row r table)
  write_found-IsUnique a found same run = (
    put_row-IsKeyed r table unique.0,
    put_row-Pairs_found OtherRun r a table (λ y d e. d (sym run ∙ e)) (λ y d e. d (e ∙ run))
        (rw same (get_row-of_first (is_run r.agentos_run_id) a table unique.0 found)) unique.1,
  )

  -- The entries of the other runs are as they were.
  pub other_runs :
      (k : String)
      → (r.agentos_run_id == k) ≡ false
      → ((old : Approval) → get_row r.id table ≡ some old → (old.agentos_run_id == k) ≡ false)
      → drafts (put_row r table) k ≡ drafts table k
  unfolding get_pending_approval_by_run_id
  other_runs k away h = first-put_row_other (is_run k) r table away h

-- Each row is the draft of its run.
pub own_drafts :
    (table : List Approval)
    → Pairs OtherRun table
    → All (λ a. drafts table a.agentos_run_id ≡ some a) table
unfolding get_pending_approval_by_run_id
own_drafts [] h = tt
own_drafts (x ∷ xs) h = (rw (eq_refl x.agentos_run_id) refl, behind xs h.0 (own_drafts xs h.1))
  where
    behind :
        (ys : List Approval)
        → All (OtherRun x) ys
        → All (λ a. first (is_run a.agentos_run_id) xs ≡ some a) ys
        → All (λ a. first (is_run a.agentos_run_id) (x ∷ xs) ≡ some a) ys
    behind [] away f = tt
    behind (y ∷ ys) away f =
        (rw (test_unequal x.agentos_run_id y.agentos_run_id away.0) f.0, behind ys away.1 f.1)
