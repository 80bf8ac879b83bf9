-- ===== src/Approvals/Due.antt =====
-- JSON and instants as texts, as far as approvals use them, and `list_due_scheduled_approvals` of
-- src/kachu_plus/persistence/repository.py (lines 1780 to 1818).
use kachu_v.Prelude.{
  Bool, List, Option, Result, String, [], false, filter, if◌then◌else◌, is_some, leb, max, none, ok,
  or_text, order_by, raise, some, strip, suc, true, zero, ℕ, ◌-◌, ◌==◌, ◌∷◌,
}
use kachu_v.Approvals.{Approval, approval_row}

-- Python's `json` and `datetime`: `loads` and `parse_instant` give none where they raise, `get` is
-- `value.get(key)` and raises where the value is no object, `truthy` is `bool(value)`, `to_text` is
-- `str(value)`, `object` a dict of texts, `parse_instant` is
-- `datetime.fromisoformat(text.replace("Z", "+00:00"))` with UTC as the default zone, `format_instant`
-- is `isoformat()` in UTC.
pub record Formats (J : Type 0) : Type 0 where
  pub loads : String → Option J
  pub dumps : J → String
  pub get : String → J → Result (Option J)
  pub truthy : J → Bool
  pub to_text : J → String
  pub object : List (String × String) → J
  pub parse_instant : String → Option ℕ
  pub format_instant : ℕ → String

-- `order_by(decided_at.asc(), created_at.asc())`, in which PostgreSQL puts missing values last.
abbrev pub by_decision : List Approval → List Approval
by_decision table =
    order_by (λ a. if is_some a.decided_at then 0 else 1)
      (order_by (λ a. elim a.decided_at [ none ↦ 0 | some t ↦ t ])
        (order_by (λ a. a.created_at) table))

abbrev pub is_scheduled : Approval → Bool
is_scheduled a = a.status == "scheduled"

unfoldable pub scheduled_rows : List Approval → List Approval
scheduled_rows table = by_decision (filter is_scheduled table)

abbrev pub with_row {ℓ} : {A : Type ℓ} → A → Result (List A) → Result (List A)
with_row a (raise e) = raise e
with_row a (ok rows) = ok (a ∷ rows)

module _ {J : Type 0} (formats : Formats J) where
  -- `str(payload.get(key, "") or "").strip()`
  unfoldable pub text_field : String → J → Result String
  text_field key payload = elim (formats.get key payload) [
    | raise e ↦ raise e
    | ok none ↦ ok ""
    | ok (some v) ↦ ok (if formats.truthy v then strip (formats.to_text v) else "")
  ]

  -- Whether the loop appends the row, by its payload.
  unfoldable pub is_due_payload : ℕ → String → Result Bool
  unfolding text_field
  is_due_payload now stored = elim (formats.loads (or_text stored "{}")) [
    | none ↦ ok false
    | some payload ↦ elim (text_field "scheduled_for" payload) [
      | raise e ↦ raise e
      | ok scheduled ↦
          if scheduled == "" then ok false else (elim (formats.parse_instant scheduled) [
            | none ↦ ok false
            | some t ↦ ok (leb t now)
          ])
    ]
  ]

  -- The loop over the rows, which may append `room` rows more and then the last.
  unfoldable pub collect_due : ℕ → ℕ → List Approval → Result (List Approval)
  unfolding is_due_payload
  collect_due now room [] = ok []
  collect_due now room (a ∷ rows) = elim (is_due_payload now a.decision_payload_json) [
    | raise e ↦ raise e
    | ok false ↦ collect_due now room rows
    | ok true ↦ elim room [ zero ↦ ok (a ∷ []) | suc n ↦ with_row a (collect_due now n rows) ]
  ]

  unfoldable pub list_due_scheduled_approvals : ℕ → ℕ → List Approval → Result (List Approval)
  unfolding collect_due scheduled_rows
  list_due_scheduled_approvals now limit table =
      collect_due now (max limit 1 - 1) (scheduled_rows table)
