-- ===== src/Webhooks/Examples.antt =====
-- The theorems on webhook events at concrete deliveries.
use kachu_v.Prelude.{
  List, String, [], count, first, if◌then◌else◌, is_some, none, refl, ℕ, ◌∷◌, ◌≡◌,
}
use kachu_v.Prelude.Laws.{unequal}
use kachu_v.Webhooks.{Delivery, is_event}
use kachu_v.Webhooks.Once.{accepted, accepted_once, delivered, same_event}

abbrev delivery : String → Delivery
delivery key = record {
  tenant_id = "t1";
  provider = "line";
  dedupe_key = key;
  event_type = "message";
  external_event_id = "e1";
  external_user_id = "u1";
  external_thread_id = "";
  occurred_at = none;
  received_at = none;
  raw_payload_json = "{}";
}

-- The same event twice, once with a blank, and an event without a key.
abbrev deliveries : List (ℕ × String × Delivery)
deliveries = (1, "w1", delivery "k") ∷ (2, "w2", delivery " k ") ∷ (3, "w3", delivery "") ∷ []

accepted_once_example : count (same_event "t1" "line" "k") (accepted deliveries []) ≡ (
    if is_some (first (is_event "t1" "line" "k") [])
    then 0
    else if delivered "t1" "line" "k" deliveries
    then 1
    else 0)
accepted_once_example = accepted_once "t1" "line" "k" deliveries [] (unequal "k" "" refl)
