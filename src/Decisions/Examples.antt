-- ===== src/Decisions/Examples.antt =====
-- The theorems on the requests at a concrete suggestion, with services that answer and services
-- that fail.
use kachu_v.Prelude.{
  Result, String, [], false, is_ok, none, ok, raise, refl, some, true, value_error, ◌∷◌, ◌≡◌,
}
use kachu_v.Tenants.{Tenant, tenant_row}
use kachu_v.Suggestions.{Suggestion, agentos, execution, instant, suggestion_row, text}
use kachu_v.Customers.{CustomerDb, assignment_row, entity_row, link_row, profile_row, tag_row}
use kachu_v.Decisions.Execute.{Services, execute_suggestion}
use kachu_v.Decisions.Requests.{begin_sending, send_suggestion_execution}
use kachu_v.Decisions.Status.{
  HasStatus, IsRefusing, begin_sending_excludes, send_suggestion_execution_stuck,
}
use kachu_v.Decisions.Sent.{IsSent, send_suggestion_execution-IsSent}

abbrev shop : Tenant
shop = record {
  id = "t1";
  name = "Shop";
  industry_type = "";
  address = "";
  timezone = "Asia/Taipei";
  plan = "trial";
  plan_expires_at = none;
  merchant_slug = "";
  is_active = true;
  sleep_threshold = 30;
  quiet_hours_start = none;
  quiet_hours_end = none;
  created_at = 1;
  updated_at = 1;
}

abbrev suggestion : String → Suggestion
suggestion kind = record {
  id = "s1";
  tenant_id = "t1";
  suggestion_type = kind;
  category = "content";
  title = "Post";
  reason = "No post";
  body = "";
  affected_profile_ids = some [];
  profile_count = 0;
  suggested_action = "Write a post";
  draft_message = "Hello";
  status = "pending";
  related_run_id = "";
  payload_json = "{}";
  expires_at = none;
  sent_at = none;
  result_snapshot = [];
  created_at = 1;
  updated_at = 1;
}

abbrev one_suggestion : String → CustomerDb
one_suggestion kind = record {
  tenants = shop ∷ [];
  profiles = [];
  entities = [];
  links = [];
  tags = [];
  assignments = [];
  timeline = [];
  audits = [];
  suggestions = suggestion kind ∷ [];
}

abbrev working : Services
working = record {
  dispatch = λ tenant message intent s. ok (record {
    task_id = "task1";
    current_run_id = some "run1";
    status = "running";
    waiting_approval = true;
  });
  push = λ user message. ok tt;
  access_token = "token";
}

abbrev failing : Services
failing = record {
  dispatch = λ tenant message intent s. raise (value_error "unavailable");
  push = λ user message. raise (value_error "unavailable");
  access_token = "token";
}

abbrev begun : String → Result Suggestion × CustomerDb
begun kind = begin_sending 5 "t1" "s1" "o1" none (one_suggestion kind)

begun-is_ok : is_ok (begun "content_gap").0 ≡ true
unfolding begin_sending
begun-is_ok = refl

begin_sending_excludes_example : IsRefusing "s1" (begun "content_gap").1
begin_sending_excludes_example =
    begin_sending_excludes 5 "t1" "s1" "o1" none (one_suggestion "content_gap") begun-is_ok

abbrev sending_row : Suggestion
sending_row = record (suggestion "content_gap") {
  status = "sending";
  result_snapshot =
      ("accepted_at", instant 5)
      ∷ ("accepted_by", text "o1")
      ∷ ("sending_at", instant 5)
      ∷ ("sending_by", text "o1")
      ∷ [];
  updated_at = 5;
}

abbrev sending_db : CustomerDb
sending_db = record (one_suggestion "content_gap") { suggestions = sending_row ∷ [] }

begun_lem : begun "content_gap" ≡ (ok sending_row, sending_db)
unfolding begin_sending
begun_lem = refl

failed-is_ok : is_ok (execute_suggestion 5 failing sending_row sending_db).0 ≡ false
unfolding execute_suggestion
failed-is_ok = refl

send_suggestion_execution_stuck_example :
    let after =
      send_suggestion_execution 5 failing "t1" "s1" "o1" none (one_suggestion "content_gap") in
    (is_ok after.0 ≡ false) × HasStatus "s1" "sending" after.1 × IsRefusing "s1" after.1
send_suggestion_execution_stuck_example =
    send_suggestion_execution_stuck 5 failing "t1" "s1" "o1" none (one_suggestion "content_gap")
      sending_db sending_row begun_lem failed-is_ok

abbrev sent_row : Suggestion
sent_row = record sending_row {
  status = "sent";
  related_run_id = "run1";
  sent_at = some 5;
  result_snapshot =
      ("accepted_at", instant 5)
      ∷ ("accepted_by", text "o1")
      ∷ ("sending_at", instant 5)
      ∷ ("sending_by", text "o1")
      ∷ ("execution", execution (agentos "kachu_google_post" "task1" (some "run1") "running" true))
      ∷ ("sent_at", instant 5)
      ∷ ("sent_by", text "o1")
      ∷ [];
}

sent_lem :
    (send_suggestion_execution 5 working "t1" "s1" "o1" none (one_suggestion "content_gap")).0
    ≡ ok sent_row
unfolding send_suggestion_execution
sent_lem = refl

send_suggestion_execution-IsSent_example :
    IsSent 5 "s1" sent_row
      (send_suggestion_execution 5 working "t1" "s1" "o1" none (one_suggestion "content_gap")).1
send_suggestion_execution-IsSent_example =
    send_suggestion_execution-IsSent 5 working "t1" "s1" "o1" none (one_suggestion "content_gap")
      sent_row sent_lem

-- There is no execution for a suggestion about stale knowledge: to send it fails.
stale_knowledge_test :
    is_ok
      (send_suggestion_execution 5 working "t1" "s1" "o1" none
        (one_suggestion "stale_knowledge_base")).0
    ≡ false
unfolding send_suggestion_execution
stale_knowledge_test = refl
