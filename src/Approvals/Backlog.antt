-- ===== src/Approvals/Backlog.antt =====
-- How many scheduled approvals a run of the service sees: the list of the due ones is the first of
-- those rows that are due, in the order of the query.
use kachu_v.Table.Pairs.{All-filter, All-map, All-order_by, Pairs}
use kachu_v.Approvals.Unique.{OtherRun}
use kachu_v.Table.Counts.{
  All-take, Pairs-filter, Pairs-order_by, Pairs-take, count-filter, count-order_by,
  length-take-filter,
}
use kachu_v.Prelude.{
  All, Bool, List, Result, Result-cases, [], ap, arith, count, false, filter, inl, inr, is_ok,
  length, max, ok, order_by, raise, refl, subst, suc, sym, take, true, zero, ℕ, ◌&&◌, ◌-◌, ◌∙◌, ◌∷◌,
  ◌≡◌, ◌≤◌, ◌⊎◌,
}
use kachu_v.Approvals.{Approval, approval_row}
use kachu_v.Approvals.Due.{
  Formats, by_decision, collect_due, is_due_payload, is_scheduled, list_due_scheduled_approvals,
  scheduled_rows,
}

abbrev pub is_true : Result Bool → Bool
is_true (raise e) = false
is_true (ok b) = b

module _ {J : Type 0} (formats : Formats J) (now : ℕ) where
  abbrev pub is_due_row : Approval → Bool
  is_due_row a = is_true (is_due_payload formats now a.decision_payload_json)

  -- The row is scheduled, for a time that has come.
  abbrev pub is_overdue : Approval → Bool
  is_overdue a = is_scheduled a && is_due_row a

  -- The payload of a scheduled row is read without an exception.
  abbrev pub Readable : Approval → Type 0
  Readable a =
      is_scheduled a ≡ true → is_ok (is_due_payload formats now a.decision_payload_json) ≡ true

  collect_due_lem :
      (room : ℕ) (rows : List Approval)
      → All (λ a. is_ok (is_due_payload formats now a.decision_payload_json) ≡ true) rows
      → collect_due formats now room rows ≡ ok (take (suc room) (filter is_due_row rows))
  unfolding collect_due
  collect_due_lem room [] h = refl
  collect_due_lem room (a ∷ rows) h =
      elim (Result-cases (is_due_payload formats now a.decision_payload_json)) [
        | inr (e, failed) ↦ absurd (cc (rw failed at h.0))
        | inl (true, e) ↦ more room (λ n. collect_due_lem n rows h.1) e
        | inl (false, e) ↦ rw (e, collect_due) (collect_due_lem room rows h.1)
      ]
    where
      more :
          (n : ℕ)
          → ((k : ℕ) → collect_due formats now k rows ≡ ok (take (suc k) (filter is_due_row rows)))
          → is_due_payload formats now a.decision_payload_json ≡ ok true
          → collect_due formats now n (a ∷ rows) ≡ ok (take (suc n) (filter is_due_row (a ∷ rows)))
      more zero later e = rw (e, collect_due) refl
      more (suc n) later e = rw (e, collect_due, later n) refl

  All-by_decision :
      (P : Approval → Type 0) (table : List Approval) → All P table → All P (by_decision table)
  All-by_decision P table h = All-order_by P _ _ (All-order_by P _ _ (All-order_by P _ table h))

  module _ (limit : ℕ) (table : List Approval) where
    abbrev pub due_rows : List Approval
    due_rows = take (max limit 1) (filter is_due_row (by_decision (filter is_scheduled table)))

    pub list_due_scheduled_approvals_lem :
        All Readable table → list_due_scheduled_approvals formats now limit table ≡ ok due_rows
    unfolding list_due_scheduled_approvals scheduled_rows
    list_due_scheduled_approvals_lem readable =
        collect_due_lem (max limit 1 - 1) (by_decision (filter is_scheduled table)) (
          All-by_decision _ (filter is_scheduled table) (
            All-map (filter is_scheduled table) (λ a h. h.0 h.1)
              (All-filter Readable is_scheduled table readable)))
        ∙ ap (λ n. ok (take n (filter is_due_row (by_decision (filter is_scheduled table)))))
            {x = suc (max limit 1 - 1)} {y = max limit 1} (ground arith)

    -- Each due row is an overdue row of the table.
    pub due_rows-All :
        (P : Approval → Type 0) → All P table → All (λ a. P a × (is_overdue a ≡ true)) due_rows
    due_rows-All P h = All-take _ (max limit 1) _ (
        All-map (filter is_due_row (by_decision (filter is_scheduled table)))
          (λ a h. (h.0.0, ground arith))
          (All-filter _ is_due_row (by_decision (filter is_scheduled table))
            (All-by_decision _ (filter is_scheduled table) (All-filter P is_scheduled table h))))

    pub due_rows-Pairs : Pairs OtherRun table → Pairs OtherRun due_rows
    due_rows-Pairs h = Pairs-take OtherRun (max limit 1) _ (
        Pairs-filter OtherRun is_due_row (by_decision (filter is_scheduled table))
          (sort _ _ (sort _ _ (sort _ _ (Pairs-filter OtherRun is_scheduled table h)))))
      where
        sort :
            (rows : List Approval) (key : Approval → ℕ)
            → Pairs OtherRun rows
            → Pairs OtherRun (order_by key rows)
        sort rows key h = Pairs-order_by OtherRun key rows (λ x y d e. d (sym e)) h

    -- Their number is that of the overdue rows, or the limit where there are more.
    pub length-due_rows :
        (length due_rows ≡ max limit 1) × (max limit 1 ≤ count is_overdue table)
        ⊎ (length due_rows ≡ count is_overdue table) × (count is_overdue table ≤ max limit 1)
    length-due_rows =
        elim (length-take-filter is_due_row (max limit 1)
          (by_decision (filter is_scheduled table))) [
            | inl (e, h) ↦ inl (e, subst (λ n. max limit 1 ≤ n) counted h)
            | inr (e, h) ↦ inr (e ∙ counted, subst (λ n. n ≤ max limit 1) counted h)
          ]
      where
        counted :
            count is_due_row (by_decision (filter is_scheduled table)) ≡ count is_overdue table
        counted =
            count-order_by is_due_row _ _
            ∙ (count-order_by is_due_row _ _
                ∙ (count-order_by is_due_row _ (filter is_scheduled table)
                    ∙ count-filter is_due_row is_scheduled table))
