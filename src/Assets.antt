-- ===== src/Assets.antt =====
-- The photos that wait for a user's decision (`PendingAssetIntentTable` and its four operations in
-- src/kachu_plus/persistence/repository.py, lines 1555 to 1637). The payload is its JSON text.
pub mod Pending
mod Examples
use kachu_v.Prelude.{
  Bool, List, Option, String, [], filter, first, if◌then◌else◌, ltb, none, order_by_desc, some,
  true, ℕ, ◌&&◌, ◌++◌, ◌==◌, ◌∷◌,
}
use kachu_v.Table.{Row, get_row, put_row, update_where}

pub record AssetIntent : Type 0 where
  pub id : String
  pub tenant_id : String
  pub line_user_id : String
  pub line_message_id : String
  pub asset_type : String
  pub payload_json : String
  pub status : String
  pub selected_decision : String
  pub expires_at : Option ℕ
  pub created_at : ℕ
  pub updated_at : ℕ
  pub resolved_at : Option ℕ

instance abbrev pub asset_row : Row AssetIntent
asset_row = record { id_of = λ a. a.id }

-- The intents of a user that are pending.
abbrev pub is_pending : String → String → AssetIntent → Bool
is_pending tenant user a = a.tenant_id == tenant && a.line_user_id == user && a.status == "pending"

abbrev pub superseded : ℕ → AssetIntent → AssetIntent
superseded now a = record a { status = "superseded"; updated_at = now; resolved_at = some now }

unfoldable pub new_intent :
    (now : ℕ) (new_id tenant_id line_user_id line_message_id payload_json asset_type : String)
    → Option ℕ
    → AssetIntent
new_intent now new_id tenant user message payload asset_type expires = record {
  id = new_id;
  tenant_id = tenant;
  line_user_id = user;
  line_message_id = message;
  asset_type = asset_type;
  payload_json = payload;
  status = "pending";
  selected_decision = "";
  expires_at = expires;
  created_at = now;
  updated_at = now;
  resolved_at = none;
}

unfoldable pub save_pending_asset_intent :
    (now : ℕ) (new_id tenant_id line_user_id line_message_id payload_json asset_type : String)
    → Option ℕ
    → List AssetIntent
    → AssetIntent × List AssetIntent
unfolding new_intent
save_pending_asset_intent now new_id tenant user message payload asset_type expires table =
    let row = new_intent now new_id tenant user message payload asset_type expires in
    (row, update_where (is_pending tenant user) (superseded now) table ++ row ∷ [])

unfoldable pub get_pending_asset_intent : String → List AssetIntent → Option AssetIntent
get_pending_asset_intent id table = get_row id table

-- `expires_at IS NULL OR expires_at > now`
abbrev pub is_open : ℕ → Option ℕ → Bool
is_open now none = true
is_open now (some t) = ltb now t

unfoldable pub get_latest_pending_asset_intent :
    (now : ℕ) (tenant_id line_user_id : String) → List AssetIntent → Option AssetIntent
get_latest_pending_asset_intent now tenant user table =
    first (λ a. true)
      (order_by_desc (λ a. a.updated_at)
        (order_by_desc (λ a. a.created_at)
          (filter (λ a. is_pending tenant user a && is_open now a.expires_at) table)))

unfoldable pub resolved : ℕ → String → String → AssetIntent → AssetIntent
resolved now status decision a = record a {
  status = status;
  selected_decision = decision;
  updated_at = now;
  resolved_at = if status == "pending" then none else some now;
}

unfoldable pub resolve_pending_asset_intent :
    (now : ℕ) (intent_id status selected_decision : String)
    → List AssetIntent
    → Option AssetIntent × List AssetIntent
unfolding resolved
resolve_pending_asset_intent now id status decision table = elim (get_row id table) [
  | none ↦ (none, table)
  | some a ↦ (some (resolved now status decision a), put_row (resolved now status decision a) table)
]
