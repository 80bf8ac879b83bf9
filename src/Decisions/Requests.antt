-- ===== src/Decisions/Requests.antt =====
-- The requests on a suggestion (suggestions.py, lines 132 to 323).
use kachu_v.Prelude.{
  Bool, List, Option, Result, String, [], elem, http_exception, if◌then◌else◌, lower, none, not, ok,
  raise, some, strip, ℕ, ◌==◌, ◌∷◌,
}
use kachu_v.Tenants.{tenant_row}
use kachu_v.Suggestions.{
  Execution, Snapshot, Suggestion, execution, instant, metrics, suggestion_row, text,
}
use kachu_v.Suggestions.Store.{is_live, update_suggestion_status}
use kachu_v.Customers.{CustomerDb, assignment_row, entity_row, link_row, profile_row, tag_row}
use kachu_v.Decisions.{
  and_then, bad_transition, edit_draft, require_suggestion, set_default, set_field, set_status,
  stamped, uncaught,
}
use kachu_v.Decisions.Execute.{Services, execute_suggestion}

-- The step of `send_suggestion_execution` that accepts a pending suggestion; an accepted one keeps
-- the fields only in the snapshot that is written next.
unfoldable pub accept_pending :
    ℕ → String → Snapshot → Suggestion → CustomerDb → Result Suggestion × CustomerDb
unfolding set_status
accept_pending now id snapshot s db =
    if s.status == "pending"
    then set_status now "accepted" snapshot ("pending" ∷ []) id db
    else (ok (record s { result_snapshot = snapshot }), db)

abbrev pub mark_sending :
    ℕ → String → String → Suggestion → CustomerDb → Result Suggestion × CustomerDb
mark_sending now actor id accepted db =
    set_status now "sending" (stamped "sending_at" "sending_by" now actor accepted.result_snapshot)
      ("accepted" ∷ []) id db

abbrev pub accepted_fields : ℕ → String → Suggestion → Snapshot
accepted_fields now actor s =
    set_default "accepted_by" (text actor)
      (set_default "accepted_at" (instant now) s.result_snapshot)

-- `send_suggestion_execution` up to the call of `_execute_suggestion`.
unfoldable pub start_sending : ℕ → String → Suggestion × CustomerDb → Result Suggestion × CustomerDb
unfolding accept_pending set_status
start_sending now actor (s, db) =
    and_then (accept_pending now s.id (accepted_fields now actor s) s db)
      (mark_sending now actor s.id)

unfoldable pub begin_sending :
    (now : ℕ) (tenant_id suggestion_id actor_line_id : String)
    → Option String
    → CustomerDb
    → Result Suggestion × CustomerDb
unfolding require_suggestion edit_draft start_sending
begin_sending now tenant id actor draft db = elim (require_suggestion tenant id db) [
  | raise e ↦ (raise e, db)
  | ok s ↦
      if elem s.status ("dismissed" ∷ "expired" ∷ "reported" ∷ "sent" ∷ [])
      then (raise (http_exception 409 "suggestion is no longer actionable"), db)
      else if not (is_live s)
      then (raise bad_transition, db)
      else start_sending now actor (edit_draft now draft s db)
]

-- The rest of `send_suggestion_execution`, on the result of the execution.
unfoldable pub finish_sending :
    ℕ → String → Result (Execution × Suggestion) × CustomerDb → Result Suggestion × CustomerDb
unfolding set_status
finish_sending now actor (raise e, db) = (raise e, db)
finish_sending now actor (ok (done, s), db) =
    set_status now "sent"
      (stamped "sent_at" "sent_by" now actor
        (set_field "execution" (execution done) s.result_snapshot))
      ("sending" ∷ []) s.id db

unfoldable pub send_suggestion_execution :
    (now : ℕ) (services : Services) (tenant_id suggestion_id actor_line_id : String)
    → Option String
    → CustomerDb
    → Result Suggestion × CustomerDb
unfolding begin_sending execute_suggestion finish_sending
send_suggestion_execution now services tenant id actor draft db =
    and_then (begin_sending now tenant id actor draft db)
      (λ s db'. finish_sending now actor (execute_suggestion now services s db'))

-- The branch of `handle_suggestion_action` for any action but "dismiss".
unfoldable pub accept_suggestion :
    (now : ℕ) (services : Services) (tenant_id actor_line_id : String)
    → Option String
    → Bool
    → Suggestion
    → CustomerDb
    → Result Suggestion × CustomerDb
unfolding edit_draft set_status send_suggestion_execution
accept_suggestion now services tenant actor draft execute_now s db =
    and_then
      (set_status now "accepted" (stamped "accepted_at" "accepted_by" now actor s.result_snapshot)
        ("pending" ∷ "accepted" ∷ []) s.id (edit_draft now draft s db).1)
      (λ updated db'.
        if execute_now
        then send_suggestion_execution now services tenant s.id actor none db'
        else (ok updated, db'))

unfoldable pub handle_suggestion_action :
    (now : ℕ) (services : Services) (tenant_id suggestion_id action actor_line_id : String)
    → Option String
    → Bool
    → CustomerDb
    → Result Suggestion × CustomerDb
unfolding require_suggestion set_status accept_suggestion
handle_suggestion_action now services tenant id action actor draft execute_now db =
    elim (require_suggestion tenant id db) [
      | raise e ↦ (raise e, db)
      | ok s ↦
          if elem s.status ("dismissed" ∷ "expired" ∷ "reported" ∷ "sent" ∷ "sending" ∷ [])
          then (raise (http_exception 409 "suggestion is no longer actionable"), db)
          else if action == "dismiss"
          then set_status now "dismissed"
              (stamped "dismissed_at" "dismissed_by" now actor s.result_snapshot)
              ("pending" ∷ "accepted" ∷ []) s.id db
          else accept_suggestion now services tenant actor draft execute_now s db
    ]

-- `decide_suggestion`, the request with its check of the action
unfoldable pub decide_suggestion :
    (now : ℕ) (services : Services) (tenant_id suggestion_id action actor_line_id : String)
    → Option String
    → Bool
    → CustomerDb
    → Result Suggestion × CustomerDb
unfolding handle_suggestion_action
decide_suggestion now services tenant id action actor draft execute_now db =
    let normalized = lower (strip action) in
    if not (elem normalized ("accept" ∷ "dismiss" ∷ []))
    then (raise (http_exception 400 "action must be accept or dismiss"), db)
    else handle_suggestion_action now services tenant id normalized actor draft execute_now db

abbrev pub with_note : String → Snapshot → Snapshot
with_note note fs = if note == "" then fs else set_field "note" (text note) fs

unfoldable pub report_suggestion :
    (now : ℕ) (tenant_id suggestion_id actor_line_id : String)
    → List (String × String)
    → String
    → CustomerDb
    → Result Suggestion × CustomerDb
unfolding require_suggestion update_suggestion_status
report_suggestion now tenant id actor reported note db = elim (require_suggestion tenant id db) [
  | raise e ↦ (raise e, db)
  | ok s ↦
      if not (elem s.status ("sent" ∷ "reported" ∷ []))
      then (raise (http_exception 409 "suggestion must be sent before reporting"), db)
      else uncaught db (
          update_suggestion_status now id "reported"
            (some (
              with_note note (
                set_field "metrics" (metrics reported)
                  (stamped "reported_at" "reported_by" now actor s.result_snapshot))))
            (some ("sent" ∷ "reported" ∷ [])) db.suggestions)
]
