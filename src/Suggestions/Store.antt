-- ===== src/Suggestions/Store.antt =====
-- The operations of the repository on suggestions (repository.py, lines 2128 to 2273).
use kachu_v.Prelude.{
  Bool, List, Option, Result, String, [], count, elem, false, filter, first, if◌then◌else◌, ltb,
  none, not, ok, order_by_desc, raise, some, take, true, value_error, ℕ, ◌&&◌, ◌==◌, ◌||◌, ◌∷◌,
}
use kachu_v.Table.{get_row, put_row, update_where}
use kachu_v.Suggestions.Rows.{Snapshot, Suggestion, suggestion_row}

unfoldable pub create_suggestion :
    (now : ℕ) (new_id tenant_id suggestion_type category title reason body : String)
    (affected : List String) (profile_count : ℕ)
    (suggested_action draft_message related_run_id payload_json : String) (expires_at : Option ℕ)
    → List Suggestion
    → Suggestion × List Suggestion
create_suggestion now new_id tenant kind category title reason body affected count action draft
      run_id payload expires table =
    let s : Suggestion = record {
      id = new_id;
      tenant_id = tenant;
      suggestion_type = kind;
      category = category;
      title = title;
      reason = reason;
      body = body;
      affected_profile_ids = some affected;
      profile_count = count;
      suggested_action = action;
      draft_message = draft;
      status = "pending";
      related_run_id = run_id;
      payload_json = payload;
      expires_at = expires;
      sent_at = none;
      result_snapshot = [];
      created_at = now;
      updated_at = now;
    } in
    (s, put_row s table)

unfoldable pub get_suggestion : String → List Suggestion → Option Suggestion
get_suggestion id table = get_row id table

unfoldable pub save_suggestion : ℕ → Suggestion → List Suggestion → Suggestion × List Suggestion
save_suggestion now s table = let s' = record s { updated_at = now } in (s', put_row s' table)

-- `status in ("pending", "accepted")`
abbrev pub is_live : Suggestion → Bool
is_live s = s.status == "pending" || s.status == "accepted"

-- `expires_at is not None and expires_at < now`
abbrev pub is_past : ℕ → Option ℕ → Bool
is_past now none = false
is_past now (some t) = ltb t now

unfoldable pub get_latest_active_suggestion :
    (now : ℕ) (tenant_id suggestion_type : String) → List Suggestion → Option Suggestion
get_latest_active_suggestion now tenant kind table =
    first (λ s. not (is_past now s.expires_at))
      (order_by_desc (λ s. s.created_at)
        (filter (λ s. s.tenant_id == tenant && s.suggestion_type == kind && is_live s) table))

abbrev pub of_tenant : Option String → Suggestion → Bool
of_tenant none s = true
of_tenant (some tenant) s = s.tenant_id == tenant

abbrev pub is_due : ℕ → Option String → Suggestion → Bool
is_due now tenant s = is_live s && is_past now s.expires_at && of_tenant tenant s

unfoldable pub expire_due_suggestions : ℕ → Option String → List Suggestion → ℕ × List Suggestion
expire_due_suggestions now tenant table = (
  count (is_due now tenant) table,
  update_where (is_due now tenant) (λ s. record s { status = "expired"; updated_at = now }) table,
)

abbrev pub is_allowed : String → Option (List String) → Bool
is_allowed status none = true
is_allowed status (some allowed) = elem status allowed

abbrev pub or_snapshot : Option Snapshot → Snapshot → Snapshot
or_snapshot none old = old
or_snapshot (some new) old = new

unfoldable pub with_status : ℕ → String → Option Snapshot → Suggestion → Suggestion
with_status now status snapshot s = record s {
  status = status;
  updated_at = now;
  sent_at = if status == "sent" then some now else s.sent_at;
  result_snapshot = or_snapshot snapshot s.result_snapshot;
}

-- A missing suggestion is none; a status that is not allowed raises.
unfoldable pub update_suggestion_status :
    (now : ℕ) (suggestion_id status : String)
    → Option Snapshot
    → Option (List String)
    → List Suggestion
    → Result (Option Suggestion) × List Suggestion
unfolding with_status
update_suggestion_status now id status snapshot allowed table = elim (get_row id table) [
  | none ↦ (ok none, table)
  | some s ↦
      if not (is_allowed s.status allowed)
      then (raise (value_error "invalid suggestion status transition"), table)
      else (
        ok (some (with_status now status snapshot s)),
        put_row (with_status now status snapshot s) table,
      )
]

unfoldable pub list_pending_suggestions : String → List Suggestion → List Suggestion
list_pending_suggestions tenant table =
    order_by_desc (λ s. s.created_at) (filter (λ s. s.tenant_id == tenant && is_live s) table)

abbrev pub in_statuses : Option (List String) → Suggestion → Bool
in_statuses none s = true
in_statuses (some []) s = true
in_statuses (some (x ∷ xs)) s = elem s.status (x ∷ xs)

unfoldable pub list_suggestions :
    String → Option (List String) → ℕ → List Suggestion → List Suggestion
list_suggestions tenant statuses limit table = take limit (
    order_by_desc (λ s. s.created_at)
      (filter (λ s. s.tenant_id == tenant && in_statuses statuses s) table))
