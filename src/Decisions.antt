-- ===== src/Decisions.antt =====
-- The owner's decisions on a suggestion (src/kachu_plus/suggestions.py): accept or dismiss, send,
-- report. The agents' dispatcher and the push to LINE are services that the handlers await: a
-- parameter says what they answer or raise. A handler reads the clock as one instant, and returns
-- the suggestion itself in place of its rendering.
pub mod Execute
pub mod Requests
pub mod Status
pub mod Sent
mod Examples
use kachu_v.Prelude.{
  Bool, Error, List, Option, Result, String, [], false, http_exception, if◌then◌else◌, is_some,
  none, not, ok, or_text, raise, some, strip, ℕ, ◌==◌, ◌||◌, ◌∷◌,
}
use kachu_v.Tenants.{get_tenant, tenant_row}
use kachu_v.Suggestions.{Snapshot, Suggestion, Value, instant, suggestion_row, text}
use kachu_v.Suggestions.Store.{get_suggestion, is_live, save_suggestion, update_suggestion_status}
use kachu_v.Customers.{CustomerDb, assignment_row, entity_row, link_row, profile_row, tag_row}

-- `snapshot[key] = value` and `snapshot.setdefault(key, value)`
abbrev pub set_field : String → Value → Snapshot → Snapshot
set_field k v [] = (k, v) ∷ []
set_field k v (f ∷ fs) = if f.0 == k then (k, v) ∷ fs else f ∷ set_field k v fs

abbrev pub has_field : String → Snapshot → Bool
has_field k [] = false
has_field k (f ∷ fs) = f.0 == k || has_field k fs

abbrev pub set_default : String → Value → Snapshot → Snapshot
set_default k v fs = if has_field k fs then fs else set_field k v fs

-- The two fields `<step>_at` and `<step>_by`.
abbrev pub stamped : String → String → ℕ → String → Snapshot → Snapshot
stamped at_key by_key now actor fs =
    set_field by_key (text actor) (set_field at_key (instant now) fs)

abbrev pub with_suggestions : CustomerDb → List Suggestion → CustomerDb
with_suggestions db table = record db { suggestions = table }

abbrev pub not_found : Error
not_found = http_exception 404 "suggestion not found"

abbrev pub bad_transition : Error
bad_transition = http_exception 409 "invalid suggestion status transition"

-- The statements after one that may raise.
abbrev pub and_then :
    Result Suggestion × CustomerDb
    → (Suggestion → CustomerDb → Result Suggestion × CustomerDb)
    → Result Suggestion × CustomerDb
and_then (raise e, db) next = (raise e, db)
and_then (ok s, db) next = next s db

unfoldable pub require_suggestion : String → String → CustomerDb → Result Suggestion
unfolding get_tenant get_suggestion
require_suggestion tenant id db =
    if not (is_some (get_tenant tenant db.tenants))
    then raise (http_exception 404 "tenant not found")
    else elim (get_suggestion id db.suggestions) [
      | none ↦ raise not_found
      | some s ↦ if s.tenant_id == tenant then ok s else raise not_found
    ]

-- A call of `update_suggestion_status` inside a handler, with its two failures turned into
-- HTTP errors.
abbrev pub http_updated :
    CustomerDb → Result (Option Suggestion) × List Suggestion → Result Suggestion × CustomerDb
http_updated db (raise e, table) = (raise bad_transition, with_suggestions db table)
http_updated db (ok none, table) = (raise not_found, with_suggestions db table)
http_updated db (ok (some s), table) = (ok s, with_suggestions db table)

unfoldable pub set_status :
    ℕ → String → Snapshot → List String → String → CustomerDb → Result Suggestion × CustomerDb
unfolding update_suggestion_status
set_status now status snapshot allowed id db =
    http_updated db
      (update_suggestion_status now id status (some snapshot) (some allowed) db.suggestions)

-- The same of a handler that catches nothing: what `update_suggestion_status` raises goes on.
abbrev pub uncaught :
    CustomerDb → Result (Option Suggestion) × List Suggestion → Result Suggestion × CustomerDb
uncaught db (raise e, table) = (raise e, with_suggestions db table)
uncaught db (ok none, table) = (raise not_found, with_suggestions db table)
uncaught db (ok (some s), table) = (ok s, with_suggestions db table)

-- The new draft, where the owner gave one.
unfoldable pub edit_draft : ℕ → Option String → Suggestion → CustomerDb → Suggestion × CustomerDb
unfolding save_suggestion
edit_draft now none s db = (s, db)
edit_draft now (some draft) s db =
    if is_live s
    then (let (s', table) =
          save_suggestion now (record s { draft_message = or_text (strip draft) s.draft_message })
            db.suggestions in
        (s', with_suggestions db table))
    else (s, db)
