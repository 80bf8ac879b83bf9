-- ===== src/Proactive/Prepared.antt =====
-- What the preparation of a post leaves in the table of suggestions.
use kachu_v.Prelude.{
  Bool-cases, List, Option-cases, Result, Result-cases, String, [], ap, arith, eq_iff, eq_refl, inl,
  inr, ok, refl, some, subst, sym, ℕ, ◌==◌, ◌∙◌, ◌∷◌, ◌≡◌, ◌⊎◌,
}
use kachu_v.Table.{get_row, put_row}
use kachu_v.Table.Laws.{get_row-id, get_row-put_row}
use kachu_v.Suggestions.{Suggestion, suggestion_row}
use kachu_v.Suggestions.Store.{
  get_suggestion, save_suggestion, update_suggestion_status, with_status,
}
use kachu_v.Decisions.Execute.{Task}
use kachu_v.Proactive.Prepare.{
  auto_prepare_content_gap_suggestion, prepared_snapshot, run_of_task, store_prepared,
}

-- The suggestion under the key is stored as sent, with the run.
abbrev pub IsPrepared : String → String → List Suggestion → Type 0
IsPrepared id run table =
    (s : Suggestion) × (get_row id table ≡ some s) × (s.status ≡ "sent") × (s.related_run_id ≡ run)

store_prepared_lem :
    (now : ℕ) (s : Suggestion) (task : Task) (table : List Suggestion)
    → s.status ≡ "pending"
    → (((store_prepared now s task table).0) ≡ ok tt)
      × IsPrepared s.id (run_of_task task) (store_prepared now s task table).1
unfolding store_prepared save_suggestion update_suggestion_status with_status
store_prepared_lem now s task table pending =
    let r : Suggestion = record s { related_run_id = run_of_task task; updated_at = now } in
    let sent = with_status now "sent" (some (prepared_snapshot now task r.result_snapshot)) r in
    let there : get_row r.id (put_row r table) ≡ some r =
      get_row-put_row r.id r table ∙ rw (eq_refl r.id) refl in
    let e : update_suggestion_status now r.id "sent"
          (some (prepared_snapshot now task r.result_snapshot)) (some ("pending" ∷ []))
          (put_row r table)
        ≡ (ok (some sent), put_row sent (put_row r table)) =
      rw (update_suggestion_status, there) (rw pending refl) in
    let done : store_prepared now s task table ≡ (ok tt, put_row sent (put_row r table)) =
      rw (store_prepared, save_suggestion, e, e) refl in
    (
      ap (λ q. q.0) done,
      subst (λ q. IsPrepared s.id (run_of_task task) q.1) (sym done)
          (sent, get_row-put_row s.id sent (put_row r table) ∙ rw (eq_refl s.id) refl, refl, refl),
    )

-- The preparation never raises; it leaves the table as it is, or the suggestion was pending, the
-- dispatcher took it, and it is stored as sent with the dispatcher's run.
pub auto_prepare_content_gap_suggestion-IsPrepared :
    (now : ℕ) (dispatch : String → String → String → Suggestion → Result Task) (id : String)
    (table : List Suggestion)
    → let after = auto_prepare_content_gap_suggestion now dispatch id table in
      (after.0 ≡ ok tt)
      × ((after.1 ≡ table)
          ⊎ ((s : Suggestion) × (task : Task) × (get_row id table ≡ some s)
              × (s.status ≡ "pending")
              × (dispatch s.tenant_id s.suggested_action "google_post" s ≡ ok task)
              × IsPrepared id (run_of_task task) after.1))
unfolding auto_prepare_content_gap_suggestion get_suggestion
auto_prepare_content_gap_suggestion-IsPrepared now dispatch id table =
    elim (Option-cases (get_row id table)) [
      | inl missing ↦ rw (auto_prepare_content_gap_suggestion, missing) (refl, inl refl)
      | inr (s, found) ↦ elim (Bool-cases (s.status == "pending")) [
        | inr over ↦ rw (auto_prepare_content_gap_suggestion, found, over) (refl, inl refl)
        | inl open_s ↦
            elim (Result-cases (dispatch s.tenant_id s.suggested_action "google_post" s)) [
              | inr (e, failed) ↦
                  rw (auto_prepare_content_gap_suggestion, found, open_s, failed) (refl, inl refl)
              | inl (task, taken) ↦
                  let pending : s.status ≡ "pending" = ground (arith, eq_iff s.status "pending") in
                  let call : auto_prepare_content_gap_suggestion now dispatch id table
                      ≡ store_prepared now s task table =
                    rw (auto_prepare_content_gap_suggestion, found, open_s, taken) refl in
                  let (fine, prepared) = store_prepared_lem now s task table pending in
                  (
                    ap (λ q. q.0) call ∙ fine,
                    inr (
                      s,
                      task,
                      found,
                      pending,
                      taken,
                      subst (λ q. IsPrepared id (run_of_task task) q.1) (sym call)
                          (subst
                            (λ k.
                              IsPrepared k (run_of_task task) (store_prepared now s task table).1)
                            (get_row-id id s table found) prepared),
                    ),
                  )
            ]
      ]
    ]
