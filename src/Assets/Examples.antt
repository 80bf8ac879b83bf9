-- ===== src/Assets/Examples.antt =====
-- The theorems on pending photos at a concrete table: a photo waits when a second one comes.
use kachu_v.Prelude.{List, [], count, if◌then◌else◌, none, refl, some, ◌&&◌, ◌==◌, ◌∷◌, ◌≡◌}
use kachu_v.Assets.{
  AssetIntent, asset_row, get_latest_pending_asset_intent, is_pending, save_pending_asset_intent,
}
use kachu_v.Assets.Pending.{count-save_pending_asset_intent, get_latest-save_pending_asset_intent}

abbrev waiting : AssetIntent
waiting = record {
  id = "i1";
  tenant_id = "t1";
  line_user_id = "u1";
  line_message_id = "m1";
  asset_type = "image";
  payload_json = "{}";
  status = "pending";
  selected_decision = "";
  expires_at = none;
  created_at = 1;
  updated_at = 1;
  resolved_at = none;
}

abbrev second : AssetIntent × List AssetIntent
second = save_pending_asset_intent 2 "i2" "t1" "u1" "m2" "{}" "image" (some 9) (waiting ∷ [])

count-save_pending_asset_intent_example :
    count (is_pending "t1" "u1") second.1
    ≡ (if "t1" == "t1" && "u1" == "u1" then 1 else count (is_pending "t1" "u1") (waiting ∷ []))
count-save_pending_asset_intent_example =
    count-save_pending_asset_intent 2 "i2" "t1" "u1" "m2" "{}" "image" (some 9) (waiting ∷ []) "t1"
      "u1"

get_latest-save_pending_asset_intent_example :
    get_latest_pending_asset_intent 5 "t1" "u1" second.1 ≡ some second.0
get_latest-save_pending_asset_intent_example =
    get_latest-save_pending_asset_intent 2 5 "i2" "t1" "u1" "m2" "{}" "image" (some 9)
      (waiting ∷ []) refl
