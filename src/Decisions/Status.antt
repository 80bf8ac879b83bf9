-- ===== src/Decisions/Status.antt =====
-- What the requests on a suggestion do to its status.
use kachu_v.Decisions.Execute.{Services, execute_suggestion, run_workflow, send_campaign}
use kachu_v.Decisions.Requests.{
  accept_pending, accepted_fields, begin_sending, finish_sending, handle_suggestion_action,
  mark_sending, report_suggestion, send_suggestion_execution, start_sending,
}
use kachu_v.Prelude.{
  Bool, Bool-cases, Error, List, Option, Option-cases, Result, Result-cases, String, [], arith,
  elem, eq_refl, false, http_exception, inl, inr, is_ok, is_some, none, ok, raise, refl, some,
  subst, sym, true, ℕ, ◌==◌, ◌∙◌, ◌∷◌, ◌≡◌, ◌⊎◌,
}
use kachu_v.Table.{get_row, put_row}
use kachu_v.Table.Laws.{get_row-id, get_row-put_row}
use kachu_v.Tenants.{get_tenant, tenant_row}
use kachu_v.Suggestions.{Execution, Snapshot, Suggestion, suggestion_row}
use kachu_v.Suggestions.Store.{
  get_suggestion, is_live, save_suggestion, update_suggestion_status, with_status,
}
use kachu_v.Customers.{CustomerDb, assignment_row, entity_row, link_row, profile_row, tag_row}
use kachu_v.Decisions.{
  and_then, edit_draft, not_found, require_suggestion, set_status, stamped, with_suggestions,
}

-- The suggestion is stored under the identifier with the status.
abbrev pub HasStatus : String → String → CustomerDb → Type 0
HasStatus id status db =
    (s : Suggestion) × (get_row id db.suggestions ≡ some s) × (s.status ≡ status)

-- A status that was set is the one that is stored.
pub set_status_lem :
    (now : ℕ) (status : String) (snapshot : Snapshot) (allowed : List String) (id : String)
    (db : CustomerDb)
    → (is_ok (set_status now status snapshot allowed id db).0 ≡ false)
        × ((set_status now status snapshot allowed id db).1 ≡ db)
      ⊎ ((s : Suggestion) × (get_row id db.suggestions ≡ some s)
          × (elem s.status allowed ≡ true)
          × (set_status now status snapshot allowed id db ≡ (
            ok (with_status now status (some snapshot) s),
            with_suggestions db (put_row (with_status now status (some snapshot) s) db.suggestions),
          )))
unfolding set_status update_suggestion_status
set_status_lem now status snapshot allowed id db = elim (Option-cases (get_row id db.suggestions)) [
  | inl missing ↦ inl (rw (missing, update_suggestion_status, set_status) (refl, refl))
  | inr (s, found) ↦ elim (Bool-cases (elem s.status allowed)) [
    | inr refused ↦ inl (rw (found, refused, update_suggestion_status, set_status) (refl, refl))
    | inl good ↦ inr (s, found, good, rw (found, good, update_suggestion_status, set_status) refl)
  ]
]

set_status-HasStatus :
    (now : ℕ) (status : String) (snapshot : Snapshot) (allowed : List String) (id : String)
    (db : CustomerDb)
    → is_ok (set_status now status snapshot allowed id db).0 ≡ true
    → HasStatus id status (set_status now status snapshot allowed id db).1
unfolding with_status
set_status-HasStatus now status snapshot allowed id db done =
    elim (set_status_lem now status snapshot allowed id db) [
      | inl (failed, same) ↦ absurd (cc)
      | inr (s, found, good, e) ↦
          let s' = with_status now status (some snapshot) s in
          rw e (
            s',
            rw
                (
                  get_row-put_row id s' db.suggestions,
                  get_row-id id s db.suggestions found,
                  eq_refl id,
                )
                refl,
            refl,
          )
    ]

-- What is found for a request is the row of its identifier.
require_suggestion_lem :
    (tenant id : String) (db : CustomerDb)
    → ((e : Error) × (require_suggestion tenant id db ≡ raise e))
      ⊎ ((s : Suggestion) × (get_row id db.suggestions ≡ some s)
          × (require_suggestion tenant id db ≡ ok s))
unfolding require_suggestion get_suggestion
require_suggestion_lem tenant id db = elim (Bool-cases (is_some (get_tenant tenant db.tenants))) [
  | inr no_tenant ↦ inl (http_exception 404 "tenant not found", rw no_tenant refl)
  | inl there ↦ elim (Option-cases (get_row id db.suggestions)) [
    | inl missing ↦ inl (not_found, rw (there, missing) refl)
    | inr (s, found) ↦ elim (Bool-cases (s.tenant_id == tenant)) [
      | inl ours ↦ inr (s, found, rw (there, found, ours) refl)
      | inr foreign ↦ inl (not_found, rw (there, found, foreign) refl)
    ]
  ]
]

-- While the suggestion is being sent, every request on it is refused and changes nothing.
abbrev pub IsRefusing : String → CustomerDb → Type 0
IsRefusing id db =
    (now : ℕ) (services : Services) (tenant actor : String)
    → ((draft : Option String)
        → (is_ok (begin_sending now tenant id actor draft db).0 ≡ false)
          × ((begin_sending now tenant id actor draft db).1 ≡ db))
      × ((action : String) (draft : Option String) (execute_now : Bool)
          → (is_ok
                (handle_suggestion_action now services tenant id action actor draft execute_now
                  db).0
              ≡ false)
            × ((handle_suggestion_action now services tenant id action actor draft execute_now db).1
                ≡ db))
      × ((reported : List (String × String)) (note : String)
          → (is_ok (report_suggestion now tenant id actor reported note db).0 ≡ false)
            × ((report_suggestion now tenant id actor reported note db).1 ≡ db))

sending-refuses : (id : String) (db : CustomerDb) → HasStatus id "sending" db → IsRefusing id db
unfolding begin_sending handle_suggestion_action report_suggestion
sending-refuses id db (s, found, sending) now services tenant actor =
    elim (require_suggestion_lem tenant id db) [
      | inl (e, failed) ↦ (
        λ draft. rw (failed, begin_sending) (refl, refl),
        λ action draft execute_now. rw (failed, handle_suggestion_action) (refl, refl),
        λ reported note. rw (failed, report_suggestion) (refl, refl),
      )
      | inr (r, found_r, got) ↦
          let same : s ≡ r = ground arith in
          let at_sending : r.status ≡ "sending" = subst (λ q. q.status ≡ "sending") same sending in
          (
            λ draft. rw (got, begin_sending, at_sending) (refl, refl),
            λ action draft execute_now. rw (got, handle_suggestion_action, at_sending) (refl, refl),
            λ reported note. rw (got, report_suggestion, at_sending) (refl, refl),
          )
    ]

and_then-HasStatus :
    (id status : String) (r : Result Suggestion × CustomerDb)
    (next : Suggestion → CustomerDb → Result Suggestion × CustomerDb)
    → ((s : Suggestion) (db : CustomerDb)
        → is_ok (next s db).0 ≡ true
        → HasStatus id status (next s db).1)
    → is_ok (and_then r next).0 ≡ true
    → HasStatus id status (and_then r next).1
and_then-HasStatus id status (raise e, db) next h done = absurd (cc)
and_then-HasStatus id status (ok s, db) next h done = h s db done

start_sending-HasStatus :
    (now : ℕ) (actor : String) (p : Suggestion × CustomerDb)
    → is_ok (start_sending now actor p).0 ≡ true
    → HasStatus p.0.id "sending" (start_sending now actor p).1
unfolding start_sending
start_sending-HasStatus now actor (s, db) done =
    and_then-HasStatus s.id "sending" (accept_pending now s.id (accepted_fields now actor s) s db)
      (mark_sending now actor s.id)
      (λ a db'.
        set_status-HasStatus now "sending"
          (stamped "sending_at" "sending_by" now actor a.result_snapshot) ("accepted" ∷ []) s.id
          db')
      done

pub edit_draft-id :
    (now : ℕ) (draft : Option String) (s : Suggestion) (db : CustomerDb)
    → (edit_draft now draft s db).0.id ≡ s.id
unfolding edit_draft save_suggestion
edit_draft-id now none s db = refl
edit_draft-id now (some draft) s db = elim (Bool-cases (is_live s)) [
  | inl live ↦ rw (live, edit_draft) refl
  | inr idle ↦ rw (idle, edit_draft) refl
]

-- A request that begins to send ends in a refusal, or in the writes of `start_sending`.
pub begin_sending_lem :
    (now : ℕ) (tenant id actor : String) (draft : Option String) (db : CustomerDb)
    → is_ok (begin_sending now tenant id actor draft db).0 ≡ true
    → (s : Suggestion) × (s.id ≡ id)
      × (begin_sending now tenant id actor draft db
          ≡ start_sending now actor (edit_draft now draft s db))
unfolding begin_sending
begin_sending_lem now tenant id actor draft db done = elim (require_suggestion_lem tenant id db) [
  | inl (e, failed) ↦ absurd (cc (rw (failed, begin_sending) at done))
  | inr (s, found, got) ↦
      elim (Bool-cases (elem s.status ("dismissed" ∷ "expired" ∷ "reported" ∷ "sent" ∷ []))) [
        | inl over ↦ absurd (cc (rw (got, begin_sending, over) at done))
        | inr open_s ↦ elim (Bool-cases (is_live s)) [
          | inr idle ↦ absurd (cc (rw (got, begin_sending, open_s, idle) at done))
          | inl live ↦
              (s, get_row-id id s db.suggestions found, rw (got, begin_sending, open_s, live) refl)
        ]
      ]
]

begin_sending-HasStatus :
    (now : ℕ) (tenant id actor : String) (draft : Option String) (db : CustomerDb)
    → is_ok (begin_sending now tenant id actor draft db).0 ≡ true
    → HasStatus id "sending" (begin_sending now tenant id actor draft db).1
begin_sending-HasStatus now tenant id actor draft db done =
    let (s, same_id, e) = begin_sending_lem now tenant id actor draft db done in
    let edited = edit_draft now draft s db in
    let started : is_ok (start_sending now actor edited).0 ≡ true =
      subst (λ q. is_ok q.0 ≡ true) e done in
    subst (λ q. HasStatus id "sending" q.1) (sym e)
      (subst (λ k. HasStatus k "sending" (start_sending now actor edited).1)
        (edit_draft-id now draft s db ∙ same_id) (start_sending-HasStatus now actor edited started))

-- Once a request has begun to send a suggestion, every other request to send, decide on or report
-- it is refused and changes nothing, in the state that the beginning left, whatever the tenant, the
-- actor, the time and the services.
pub begin_sending_excludes :
    (now : ℕ) (tenant id actor : String) (draft : Option String) (db : CustomerDb)
    → is_ok (begin_sending now tenant id actor draft db).0 ≡ true
    → IsRefusing id (begin_sending now tenant id actor draft db).1
begin_sending_excludes now tenant id actor draft db done =
    sending-refuses id (begin_sending now tenant id actor draft db).1
      (begin_sending-HasStatus now tenant id actor draft db done)

run_workflow_raised :
    (now : ℕ) (services : Services) (intent workflow : String) (s : Suggestion) (db : CustomerDb)
    → is_ok (run_workflow now services intent workflow s db).0 ≡ false
    → (run_workflow now services intent workflow s db).1 ≡ db
unfolding run_workflow
run_workflow_raised now services intent workflow s db failed =
    elim (Result-cases (services.dispatch s.tenant_id s.suggested_action intent s)) [
      | inl (task, e) ↦ absurd (cc (rw (e, run_workflow) at failed))
      | inr (error, e) ↦ rw (e, run_workflow) refl
    ]

-- An execution that raised has written nothing.
execute_raised :
    (now : ℕ) (services : Services) (s : Suggestion) (db : CustomerDb)
    → is_ok (execute_suggestion now services s db).0 ≡ false
    → (execute_suggestion now services s db).1 ≡ db
unfolding execute_suggestion
execute_raised now services s db failed = elim (Bool-cases (s.suggestion_type == "content_gap")) [
  | inl post ↦
      rw (post, execute_suggestion)
        (run_workflow_raised now services "google_post" "kachu_google_post" s db
          (rw (post, execute_suggestion) at failed))
  | inr no_post ↦ elim (Bool-cases (s.suggestion_type == "unanswered_reviews")) [
    | inl review ↦
        rw (no_post, review, execute_suggestion)
          (run_workflow_raised now services "review_reply" "kachu_review_reply" s db
            (rw (no_post, review, execute_suggestion) at failed))
    | inr no_review ↦ elim (Bool-cases (s.suggestion_type == "recover_sleeping")) [
      | inr other ↦ rw (no_post, no_review, other, execute_suggestion) refl
      | inl sleeping ↦ elim (Result-cases (send_campaign services s db)) [
        | inl (done, e) ↦
            absurd (cc (rw (no_post, no_review, sleeping, e, execute_suggestion) at failed))
        | inr (error, e) ↦ rw (no_post, no_review, sleeping, e, execute_suggestion) refl
      ]
    ]
  ]
]

finish_sending_raised :
    (now : ℕ) (actor : String) (r : Result (Execution × Suggestion) × CustomerDb)
    → is_ok r.0 ≡ false
    → (is_ok (finish_sending now actor r).0 ≡ false) × ((finish_sending now actor r).1 ≡ r.1)
unfolding finish_sending
finish_sending_raised now actor (ok x, db) failed = absurd (cc)
finish_sending_raised now actor (raise e, db) failed = (refl, refl)

-- If the execution raises, because a service fails or because no execution is there for the
-- suggestion's type, then the request fails and leaves the suggestion in the status "sending", in
-- which every later request to send, decide on or report it is refused.
pub send_suggestion_execution_stuck :
    (now : ℕ) (services : Services) (tenant id actor : String) (draft : Option String)
    (db db' : CustomerDb) (s : Suggestion)
    → begin_sending now tenant id actor draft db ≡ (ok s, db')
    → is_ok (execute_suggestion now services s db').0 ≡ false
    → let after = send_suggestion_execution now services tenant id actor draft db in
      (is_ok after.0 ≡ false) × HasStatus id "sending" after.1 × IsRefusing id after.1
unfolding send_suggestion_execution
send_suggestion_execution_stuck now services tenant id actor draft db db' s begun failed =
    let held : HasStatus id "sending" db' =
      subst (λ q. HasStatus id "sending" q.1) begun
        (begin_sending-HasStatus now tenant id actor draft db (rw begun refl)) in
    let (refused, same) =
      finish_sending_raised now actor (execute_suggestion now services s db') failed in
    rw (begun, send_suggestion_execution, refused, same, execute_raised now services s db' failed)
      (refl, held, sending-refuses id db' held)
