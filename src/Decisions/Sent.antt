-- ===== src/Decisions/Sent.antt =====
-- A request to send that succeeds (`send_suggestion_execution`).
use kachu_v.Prelude.{
  Bool-cases, List, Option, Result, Result-cases, String, [], ap, eq_refl, inl, inr, is_ok, ok,
  raise, refl, some, subst, sym, ℕ, ◌==◌, ◌∙◌, ◌∷◌, ◌≡◌,
}
use kachu_v.Table.{get_row}
use kachu_v.Table.Laws.{get_row-id, get_row-put_row}
use kachu_v.Suggestions.{Execution, Snapshot, Suggestion, execution, suggestion_row}
use kachu_v.Suggestions.Store.{with_status}
use kachu_v.Customers.{CustomerDb, assignment_row, entity_row, link_row, profile_row, tag_row}
use kachu_v.Decisions.{and_then, edit_draft, set_field, set_status, stamped}
use kachu_v.Decisions.Execute.{
  Services, execute_suggestion, persist_agentos_execution, run_workflow, send_campaign,
}
use kachu_v.Decisions.Requests.{
  accept_pending, accepted_fields, begin_sending, finish_sending, mark_sending,
  send_suggestion_execution, start_sending,
}
use kachu_v.Decisions.Status.{begin_sending_lem, edit_draft-id, set_status_lem}

-- The row that is stored under the identifier is the sent one, with the time of the sending.
abbrev pub IsSent : ℕ → String → Suggestion → CustomerDb → Type 0
IsSent now id r db =
    (r.status ≡ "sent") × (r.sent_at ≡ some now) × (get_row id db.suggestions ≡ some r)

set_status-IsSent :
    (now : ℕ) (snapshot : Snapshot) (allowed : List String) (id : String) (db : CustomerDb)
    (r : Suggestion)
    → (set_status now "sent" snapshot allowed id db).0 ≡ ok r
    → IsSent now id r (set_status now "sent" snapshot allowed id db).1
unfolding with_status
set_status-IsSent now snapshot allowed id db r done =
    elim (set_status_lem now "sent" snapshot allowed id db) [
      | inl (failed, same) ↦ absurd (cc (rw done at failed))
      | inr (s, found, good, e) ↦
          let s' = with_status now "sent" (some snapshot) s in
          let same : s' ≡ r = cc (rw e at done) in
          subst (λ q. IsSent now id q (set_status now "sent" snapshot allowed id db).1) same
            (rw e (
              refl,
              refl,
              rw
                  (
                    get_row-put_row id s' db.suggestions,
                    get_row-id id s db.suggestions found,
                    eq_refl id,
                  )
                  refl,
            ))
    ]

set_status-id :
    (now : ℕ) (status : String) (snapshot : Snapshot) (allowed : List String) (id : String)
    (db : CustomerDb) (r : Suggestion)
    → (set_status now status snapshot allowed id db).0 ≡ ok r
    → r.id ≡ id
unfolding with_status
set_status-id now status snapshot allowed id db r done =
    elim (set_status_lem now status snapshot allowed id db) [
      | inl (failed, same) ↦ absurd (cc (rw done at failed))
      | inr (s, found, good, e) ↦
          let same : with_status now status (some snapshot) s ≡ r = cc (rw e at done) in
          subst (λ q. q.id ≡ id) same (get_row-id id s db.suggestions found)
    ]

start_sending-id :
    (now : ℕ) (actor : String) (p : Suggestion × CustomerDb) (r : Suggestion)
    → (start_sending now actor p).0 ≡ ok r
    → r.id ≡ p.0.id
unfolding start_sending
start_sending-id now actor (s, db) r done =
    marked (accept_pending now s.id (accepted_fields now actor s) s db) done
  where
    marked :
        (x : Result Suggestion × CustomerDb)
        → (and_then x (mark_sending now actor s.id)).0 ≡ ok r
        → r.id ≡ s.id
    marked (raise e, db') failed = absurd (cc (failed))
    marked (ok a, db') good =
        set_status-id now "sending" (stamped "sending_at" "sending_by" now actor a.result_snapshot)
          ("accepted" ∷ []) s.id db' r good

begin_sending-id :
    (now : ℕ) (tenant id actor : String) (draft : Option String) (db : CustomerDb) (r : Suggestion)
    → (begin_sending now tenant id actor draft db).0 ≡ ok r
    → r.id ≡ id
begin_sending-id now tenant id actor draft db r done =
    let (s, same_id, e) = begin_sending_lem now tenant id actor draft db (ap is_ok done) in
    start_sending-id now actor (edit_draft now draft s db) r (sym (ap (λ q. q.0) e) ∙ done)
    ∙ (edit_draft-id now draft s db ∙ same_id)

-- What an execution returns is about the suggestion that it was called with.
abbrev Keeps : String → Result (Execution × Suggestion) × CustomerDb → Type 0
Keeps id x = (p : Execution × Suggestion) → x.0 ≡ ok p → p.1.id ≡ id

returned-Keeps :
    (what : Execution) (s : Suggestion) (db : CustomerDb) → Keeps s.id (ok (what, s), db)
returned-Keeps what s db p done =
    let same : (what, s) ≡ p = cc (done) in ap (λ (q : Execution × Suggestion). q.1.id) (sym same)

run_workflow-Keeps :
    (now : ℕ) (services : Services) (intent workflow : String) (s : Suggestion) (db : CustomerDb)
    → Keeps s.id (run_workflow now services intent workflow s db)
unfolding run_workflow persist_agentos_execution
run_workflow-Keeps now services intent workflow s db =
    elim (Result-cases (services.dispatch s.tenant_id s.suggested_action intent s)) [
      | inr (error, e) ↦ rw (e, run_workflow) (λ p done. absurd (cc (done)))
      | inl (task, e) ↦
          let (what, s', db') = persist_agentos_execution now s task workflow db in
          rw (e, run_workflow) (returned-Keeps what s' db')
    ]

execute_suggestion-Keeps :
    (now : ℕ) (services : Services) (s : Suggestion) (db : CustomerDb)
    → Keeps s.id (execute_suggestion now services s db)
unfolding execute_suggestion
execute_suggestion-Keeps now services s db =
    elim (Bool-cases (s.suggestion_type == "content_gap")) [
      | inl post ↦
          rw (post, execute_suggestion)
            (run_workflow-Keeps now services "google_post" "kachu_google_post" s db)
      | inr no_post ↦ elim (Bool-cases (s.suggestion_type == "unanswered_reviews")) [
        | inl review ↦
            rw (no_post, review, execute_suggestion)
              (run_workflow-Keeps now services "review_reply" "kachu_review_reply" s db)
        | inr no_review ↦ elim (Bool-cases (s.suggestion_type == "recover_sleeping")) [
          | inr other ↦
              rw (no_post, no_review, other, execute_suggestion) (λ p done. absurd (cc (done)))
          | inl sleeping ↦ elim (Result-cases (send_campaign services s db)) [
            | inl (what, e) ↦
                rw (no_post, no_review, sleeping, e, execute_suggestion) (returned-Keeps what s db)
            | inr (error, e) ↦
                rw (no_post, no_review, sleeping, e, execute_suggestion)
                  (λ p done. absurd (cc (done)))
          ]
        ]
      ]
    ]

finish_sending-IsSent :
    (now : ℕ) (id actor : String) (x : Result (Execution × Suggestion) × CustomerDb)
    (r : Suggestion)
    → Keeps id x
    → (finish_sending now actor x).0 ≡ ok r
    → IsSent now id r (finish_sending now actor x).1
unfolding finish_sending
finish_sending-IsSent now id actor (raise e, db) r keeps done = absurd (cc (done))
finish_sending-IsSent now id actor (ok (what, s), db) r keeps done =
    subst (λ k. IsSent now k r (finish_sending now actor (ok (what, s), db)).1)
      (keeps (what, s) refl)
      (set_status-IsSent now
        (stamped "sent_at" "sent_by" now actor
          (set_field "execution" (execution what) s.result_snapshot))
        ("sending" ∷ []) s.id db r done)

and_then-IsSent :
    (now : ℕ) (id : String) (x : Result Suggestion × CustomerDb)
    (next : Suggestion → CustomerDb → Result Suggestion × CustomerDb) (r : Suggestion)
    → ((s : Suggestion) (db : CustomerDb)
        → x.0 ≡ ok s
        → (next s db).0 ≡ ok r
        → IsSent now id r (next s db).1)
    → (and_then x next).0 ≡ ok r
    → IsSent now id r (and_then x next).1
and_then-IsSent now id (raise e, db) next r h done = absurd (cc (done))
and_then-IsSent now id (ok s, db) next r h done = h s db refl done

-- A request to send that returns a suggestion has stored it as sent at the time of the request: what
-- it returns is the row that is read back under the identifier of the request.
pub send_suggestion_execution-IsSent :
    (now : ℕ) (services : Services) (tenant id actor : String) (draft : Option String)
    (db : CustomerDb) (r : Suggestion)
    → (send_suggestion_execution now services tenant id actor draft db).0 ≡ ok r
    → IsSent now id r (send_suggestion_execution now services tenant id actor draft db).1
unfolding send_suggestion_execution
send_suggestion_execution-IsSent now services tenant id actor draft db r done =
    and_then-IsSent now id (begin_sending now tenant id actor draft db)
      (λ s db'. finish_sending now actor (execute_suggestion now services s db')) r
      (λ s db' begun. finish_sending-IsSent now id actor (execute_suggestion now services s db') r (
        subst (λ k. Keeps k (execute_suggestion now services s db'))
          (begin_sending-id now tenant id actor draft db s begun)
          (execute_suggestion-Keeps now services s db')))
      done
