-- ===== src/Proactive/Examples.antt =====
-- The theorems on the engine at a concrete shop that has published nothing.
use kachu_v.Prelude.{
  List, Option, Result, String, [], false, none, ok, refl, some, strip, true, ℕ, ◌∷◌, ◌≡◌, ◌⊎◌,
}
use kachu_v.Table.{get_row}
use kachu_v.Tenants.{tenant_row}
use kachu_v.Suggestions.{Suggestion, suggestion_row}
use kachu_v.Suggestions.Store.{
  create_suggestion, expire_due_suggestions, get_latest_active_suggestion, is_past,
}
use kachu_v.Customers.{assignment_row, entity_row, link_row, profile_row, tag_row}
use kachu_v.Memberships.{
  get_notification_line_user_ids, get_owner_line_user_ids, membership_row, notified_rows,
}
use kachu_v.Recipients.{gather, gather_from}
use kachu_v.Approvals.Due.{Formats}
use kachu_v.Decisions.Execute.{Task}
use kachu_v.Proactive.{
  Settings, Shop, get_last_published_at, published_row, resolve_tenant_line_recipients,
}
use kachu_v.Proactive.Detect.{detect_nudge, no_post}
use kachu_v.Proactive.Scan.{
  FollowUp, follow_up, has_recipients, make_suggestion, no_follow_up, run_once_for_tenant, suggest,
}
use kachu_v.Proactive.Once.{expired, run_once_for_tenant_again}
use kachu_v.Proactive.Prepare.{auto_prepare_content_gap_suggestion, run_of_task}
use kachu_v.Proactive.Prepared.{IsPrepared, auto_prepare_content_gap_suggestion-IsPrepared}
use kachu_v.Proactive.Remind.{needs_reminder, send_due_reminders_for_tenant}
use kachu_v.Proactive.Reminded.{send_due_reminders_for_tenant_once}

abbrev waiting : Suggestion
waiting = record {
  id = "s1";
  tenant_id = "t1";
  suggestion_type = "content_gap";
  category = "brand_presence";
  title = "Post";
  reason = "No post";
  body = "";
  affected_profile_ids = some [];
  profile_count = 0;
  suggested_action = "Write a post";
  draft_message = "Hello";
  status = "pending";
  related_run_id = "";
  payload_json = "{}";
  expires_at = some 20;
  sent_at = none;
  result_snapshot = [];
  created_at = 1;
  updated_at = 1;
}

abbrev shop_with : List Suggestion → Shop
shop_with table = record {
  customers = record {
    tenants = [];
    profiles = [];
    entities = [];
    links = [];
    tags = [];
    assignments = [];
    timeline = [];
    audits = [];
    suggestions = table;
  };
  memberships = [];
  published = [];
  approvals = [];
  entries = [];
  jobs = [];
}

abbrev plain : Formats String
plain = record {
  loads = λ s. some s;
  dumps = λ s. s;
  get = λ key s. ok none;
  truthy = λ s. true;
  to_text = λ s. s;
  object = λ fields. "{}";
  parse_instant = λ s. none;
  format_instant = λ t. "now";
}

abbrev settings : Settings
settings = record { access_token = "token"; boss_user_id = "u9" }

abbrev first_scan : Result (Option Suggestion × FollowUp) × Shop
first_scan = run_once_for_tenant plain settings true 10 "s2" "t1" (shop_with [])

abbrev made : Suggestion
made = (make_suggestion plain settings true 10 "s2" "t1" no_post (shop_with []).customers).0

abbrev made_follow_up : FollowUp
made_follow_up = follow_up settings true no_post made.id "t1" (shop_with [])

first_scan_lem : first_scan.0 ≡ ok (some made, made_follow_up)
unfolding run_once_for_tenant suggest expire_due_suggestions detect_nudge get_last_published_at
    get_latest_active_suggestion
first_scan_lem = refl

first_detected : detect_nudge plain 10 "t1" (expired "t1" 10 (shop_with [])) ≡ ok (some no_post)
unfolding detect_nudge get_last_published_at
first_detected = refl

made_lasts : is_past 12 made.expires_at ≡ false
unfolding make_suggestion create_suggestion
made_lasts = refl

again_detected : detect_nudge plain 12 "t1" (expired "t1" 12 first_scan.1) ≡ ok (some no_post)
unfolding detect_nudge get_last_published_at run_once_for_tenant suggest expire_due_suggestions
    get_latest_active_suggestion
again_detected = refl

run_once_for_tenant_again_example :
    (s : Suggestion) × (run_once_for_tenant plain settings true 12 "s3" "t1" first_scan.1
      ≡ (ok (some s, no_follow_up), expired "t1" 12 first_scan.1))
    × (s.suggestion_type ≡ made.suggestion_type)
    × (s.tenant_id ≡ "t1")
    × ((s.status ≡ "pending") ⊎ (s.status ≡ "accepted"))
    × (is_past 12 s.expires_at ≡ false)
run_once_for_tenant_again_example =
    run_once_for_tenant_again plain settings true "t1" (shop_with []) 10 12 "s2" "s3" no_post made
      made_follow_up first_detected first_scan_lem made_lasts again_detected

waiting_found : get_row "s1" (expire_due_suggestions 10 (some "t1") (waiting ∷ [])).1 ≡ some waiting
unfolding expire_due_suggestions
waiting_found = refl

boss_there : has_recipients (resolve_tenant_line_recipients settings "t1" []) ≡ true
unfolding resolve_tenant_line_recipients strip gather gather_from get_notification_line_user_ids
    get_owner_line_user_ids notified_rows
boss_there = refl

waiting_due : needs_reminder 10 waiting ≡ true
unfolding needs_reminder
waiting_due = refl

send_due_reminders_for_tenant_once_example :
    (s : Suggestion) × (get_row "s1"
        (send_due_reminders_for_tenant settings 10 "t1"
          (shop_with (waiting ∷ []))).1.customers.suggestions
      ≡ some s)
    × ((t : ℕ) → needs_reminder t s ≡ false)
send_due_reminders_for_tenant_once_example =
    send_due_reminders_for_tenant_once settings 10 "t1" "s1" waiting (shop_with (waiting ∷ [])) refl
      boss_there waiting_found (refl, refl, waiting_due)

abbrev takes : String → String → String → Suggestion → Result Task
takes tenant message intent s = ok (record {
  task_id = "task1";
  current_run_id = some "run1";
  status = "running";
  waiting_approval = true;
})

auto_prepare_content_gap_suggestion-IsPrepared_example :
    let after = auto_prepare_content_gap_suggestion 10 takes "s1" (waiting ∷ []) in
    (after.0 ≡ ok tt)
    × ((after.1 ≡ waiting ∷ [])
        ⊎ ((s : Suggestion) × (task : Task) × (get_row "s1" (waiting ∷ []) ≡ some s)
            × (s.status ≡ "pending")
            × (takes s.tenant_id s.suggested_action "google_post" s ≡ ok task)
            × IsPrepared "s1" (run_of_task task) after.1))
auto_prepare_content_gap_suggestion-IsPrepared_example =
    auto_prepare_content_gap_suggestion-IsPrepared 10 takes "s1" (waiting ∷ [])
