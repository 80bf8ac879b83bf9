-- ===== src/Decisions/Execute.antt =====
-- `_execute_suggestion` of src/kachu_plus/suggestions.py (lines 326 to 390).
use kachu_v.Prelude.{
  Bool, List, Option, Result, String, [], first, http_exception, if◌then◌else◌, is_some, length,
  none, not, ok, or_text, raise, some, true, value_error, ℕ, ◌&&◌, ◌==◌, ◌∷◌,
}
use kachu_v.Tenants.{tenant_row}
use kachu_v.Suggestions.{
  Execution, Suggestion, agentos, line_push_campaign, prepared_campaign, suggestion_row,
}
use kachu_v.Suggestions.Store.{save_suggestion}
use kachu_v.Customers.{CustomerDb, assignment_row, entity_row, link_row, profile_row, tag_row}
use kachu_v.Customers.Profiles.{get_profile_line_user_ids}
use kachu_v.Decisions.{with_suggestions}

-- `ExecutionTaskResult` of models.py, as far as it is read here.
pub record Task : Type 0 where
  pub task_id : String
  pub current_run_id : Option String
  pub status : String
  pub waiting_approval : Bool

-- What the handlers await: `dispatcher.dispatch` of a text under an intent for a suggestion,
-- `push_line_messages` of a text to a user, and the setting of the access token.
pub record Services : Type 0 where
  pub dispatch : String → String → String → Suggestion → Result Task
  pub push : String → String → Result (Unit {0})
  pub access_token : String

-- `_persist_agentos_execution`
unfoldable pub persist_agentos_execution :
    ℕ → Suggestion → Task → String → CustomerDb → Execution × Suggestion × CustomerDb
unfolding save_suggestion
persist_agentos_execution now s task workflow db =
    let run : String = elim task.current_run_id [
      | none ↦ task.task_id
      | some r ↦ or_text r task.task_id
    ] in
    let s' = record s { related_run_id = run } in
    (
      agentos workflow task.task_id task.current_run_id task.status task.waiting_approval,
      s',
      with_suggestions db (save_suggestion now s' db.suggestions).1,
    )

-- The loop over the recipients.
unfoldable pub push_all : Services → String → List String → Result (Unit {0})
push_all services message [] = ok tt
push_all services message (r ∷ rs) = elim (services.push r message) [
  | raise e ↦ raise e
  | ok _ ↦ push_all services message rs
]

unfoldable pub send_campaign : Services → Suggestion → CustomerDb → Result Execution
unfolding push_all
send_campaign services s db = elim s.affected_profile_ids [
  | none ↦ raise (value_error "invalid JSON")
  | some ids ↦
      let recipients = get_profile_line_user_ids s.tenant_id ids db in
      if not (services.access_token == "") && is_some (first (λ r. true) recipients)
      then elim (push_all services s.draft_message recipients) [
        | raise e ↦ raise e
        | ok _ ↦ ok (line_push_campaign ids s.profile_count (length recipients) s.draft_message)
      ]
      else ok (prepared_campaign ids s.profile_count s.draft_message)
]

unfoldable pub run_workflow :
    ℕ
    → Services
    → String
    → String
    → Suggestion
    → CustomerDb
    → Result (Execution × Suggestion) × CustomerDb
unfolding persist_agentos_execution
run_workflow now services intent workflow s db =
    elim (services.dispatch s.tenant_id s.suggested_action intent s) [
      | raise e ↦ (raise e, db)
      | ok task ↦
          let (done, s', db') = persist_agentos_execution now s task workflow db in
          (ok (done, s'), db')
    ]

-- `_execute_suggestion`, with the suggestion as the call leaves it.
unfoldable pub execute_suggestion :
    ℕ → Services → Suggestion → CustomerDb → Result (Execution × Suggestion) × CustomerDb
unfolding run_workflow send_campaign
execute_suggestion now services s db =
    if s.suggestion_type == "content_gap"
    then run_workflow now services "google_post" "kachu_google_post" s db
    else if s.suggestion_type == "unanswered_reviews"
    then run_workflow now services "review_reply" "kachu_review_reply" s db
    else if s.suggestion_type == "recover_sleeping"
    then (elim (send_campaign services s db) [
      | raise e ↦ (raise e, db)
      | ok done ↦ (ok (done, s), db)
    ])
    else (raise (http_exception 400 "unsupported suggestion type"), db)
