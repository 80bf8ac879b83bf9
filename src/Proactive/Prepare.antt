-- ===== src/Proactive/Prepare.antt =====
-- The preparation of a post for a content gap (`_auto_prepare_content_gap_suggestion`): the draft is
-- sent to the agents without waiting for the owner.
use kachu_v.Prelude.{
  List, Result, String, [], if◌then◌else◌, none, not, ok, or_text, raise, some, ℕ, ◌==◌, ◌∷◌,
}
use kachu_v.Suggestions.{Snapshot, Suggestion, agentos, execution, suggestion_row}
use kachu_v.Suggestions.Store.{get_suggestion, save_suggestion, update_suggestion_status}
use kachu_v.Decisions.{set_field, stamped}
use kachu_v.Decisions.Execute.{Task}

abbrev pub prepared_snapshot : ℕ → Task → Snapshot → Snapshot
prepared_snapshot now task fields =
    set_field "execution"
      (execution (
        agentos "kachu_google_post" task.task_id task.current_run_id task.status
          task.waiting_approval))
      (stamped "sent_at" "sent_by" now "system:auto_proactive" (
        stamped "sending_at" "sending_by" now "system:auto_proactive"
          (stamped "accepted_at" "accepted_by" now "system:auto_proactive" fields)))

abbrev pub run_of_task : Task → String
run_of_task task = elim task.current_run_id [
  | none ↦ task.task_id
  | some r ↦ or_text r task.task_id
]

-- What follows an answer of the dispatcher: the run is stored, and the status set.
unfoldable pub store_prepared :
    ℕ → Suggestion → Task → List Suggestion → Result (Unit {0}) × List Suggestion
unfolding save_suggestion update_suggestion_status
store_prepared now s task table =
    let (s', saved) = save_suggestion now (record s { related_run_id = run_of_task task }) table in
    let (updated, written) =
      update_suggestion_status now s'.id "sent"
        (some (prepared_snapshot now task s'.result_snapshot)) (some ("pending" ∷ [])) saved in
    elim updated [ raise e ↦ (raise e, written) | ok _ ↦ (ok tt, written) ]

-- `dispatch` is the dispatcher's: of the tenant, the text, the intent and the suggestion.
unfoldable pub auto_prepare_content_gap_suggestion :
    (now : ℕ) (dispatch : String → String → String → Suggestion → Result Task) (id : String)
    → List Suggestion
    → Result (Unit {0}) × List Suggestion
unfolding store_prepared get_suggestion
auto_prepare_content_gap_suggestion now dispatch id table = elim (get_suggestion id table) [
  | none ↦ (ok tt, table)
  | some s ↦
      if not (s.status == "pending")
      then (ok tt, table)
      else (elim (dispatch s.tenant_id s.suggested_action "google_post" s) [
        | raise e ↦ (ok tt, table)
        | ok task ↦ store_prepared now s task table
      ])
]
