-- ===== src/Proactive/Detect.antt =====
-- What the engine finds for a tenant (`detect_nudge`).
use kachu_v.Prelude.{
  Bool, List, Option, Result, String, [], false, filter, if◌then◌else◌, leb, lower, ltb, none, ok,
  or_text, raise, some, suc, true, ℕ, ◌&&◌, ◌*◌, ◌+◌, ◌==◌, ◌∷◌,
}
use kachu_v.Tenants.{Tenant, get_tenant, tenant_row}
use kachu_v.Customers.{assignment_row, entity_row, link_row, profile_row, tag_row}
use kachu_v.Customers.Profiles.{list_sleeping_customer_profiles}
use kachu_v.Approvals.{Approval, approval_row}
use kachu_v.Approvals.Due.{Formats}
use kachu_v.Proactive.{Shop, get_knowledge_last_updated_at, get_last_published_at, published_row}

-- `NUDGE_NO_POST`, `NUDGE_NEGATIVE_REVIEW`, `NUDGE_STALE_KNOWLEDGE` and `NUDGE_SLEEPING_CUSTOMERS`
pub data Nudge : Type 0 where
  no_post negative_review stale_knowledge sleeping_customers : Nudge

abbrev pub nudge_type : Nudge → String
nudge_type no_post = "content_gap"
nudge_type negative_review = "unanswered_reviews"
nudge_type stale_knowledge = "stale_knowledge_base"
nudge_type sleeping_customers = "recover_sleeping"

-- `timedelta(days=n)`
abbrev pub days : ℕ → ℕ
days n = n * 86400000000

abbrev pub is_pending_review : String → Approval → Bool
is_pending_review tenant a =
    a.tenant_id == tenant && a.workflow_type == "kachu_review_reply" && a.status == "pending"

abbrev pub sleep_threshold_of : Option Tenant → ℕ
sleep_threshold_of none = 60
sleep_threshold_of (some t) = t.sleep_threshold

module _ {J : Type 0} (formats : Formats J) where
  -- `str(payload.get("sentiment", {}).get("sentiment", "")).lower() == "negative"`
  unfoldable pub is_negative : J → Result Bool
  is_negative payload = elim (formats.get "sentiment" payload) [
    | raise e ↦ raise e
    | ok none ↦ ok false
    | ok (some v) ↦ elim (formats.get "sentiment" v) [
      | raise e ↦ raise e
      | ok none ↦ ok false
      | ok (some s) ↦ ok (lower (formats.to_text s) == "negative")
    ]
  ]

  -- The loop over the pending replies; a draft that is no JSON is passed over.
  unfoldable pub count_negative : List Approval → Result ℕ
  unfolding is_negative
  count_negative [] = ok 0
  count_negative (a ∷ rows) = elim (formats.loads (or_text a.draft_content "{}")) [
    | none ↦ count_negative rows
    | some payload ↦ elim (is_negative payload) [
      | raise e ↦ raise e
      | ok negative ↦ elim (count_negative rows) [
        | raise e ↦ raise e
        | ok n ↦ ok (if negative then suc n else n)
      ]
    ]
  ]

  unfoldable pub get_pending_negative_reviews : String → List Approval → Result ℕ
  unfolding count_negative
  get_pending_negative_reviews tenant table =
      count_negative (filter (is_pending_review tenant) table)

  -- `last_published is None or (now - last_published) > timedelta(days=7)`
  abbrev pub is_silent : ℕ → Option ℕ → Bool
  is_silent now none = true
  is_silent now (some t) = ltb (t + days 7) now

  -- `knowledge_updated_at is None or knowledge_updated_at <= now - timedelta(days=60)`
  abbrev pub is_stale : ℕ → Option ℕ → Bool
  is_stale now none = true
  is_stale now (some t) = leb (t + days 60) now

  unfoldable pub detect_nudge : ℕ → String → Shop → Result (Option Nudge)
  unfolding get_last_published_at get_pending_negative_reviews get_knowledge_last_updated_at
      get_tenant list_sleeping_customer_profiles
  detect_nudge now tenant shop =
      if is_silent now (get_last_published_at tenant shop.published)
      then ok (some no_post)
      else (elim (get_pending_negative_reviews tenant shop.approvals) [
        | raise e ↦ raise e
        | ok n ↦
            if ltb 0 n
            then ok (some negative_review)
            else if is_stale now (get_knowledge_last_updated_at tenant shop.entries)
            then ok (some stale_knowledge)
            else (elim (list_sleeping_customer_profiles tenant
                (sleep_threshold_of (get_tenant tenant shop.customers.tenants)) 5 shop.customers) [
                  | [] ↦ ok none
                  | p ∷ ps ↦ ok (some sleeping_customers)
                ])
      ])
