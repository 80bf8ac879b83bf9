-- ===== src/Webhooks.antt =====
-- The record of webhook events (`record_webhook_event_if_new` of
-- src/kachu_plus/persistence/repository.py, lines 1078 to 1119), by which a delivery that a
-- platform repeats is handled once. A payload is its JSON text.
pub mod Once
mod Examples
use kachu_v.Prelude.{
  Bool, List, Option, Result, String, [], false, first, if◌then◌else◌, is_some, none, ok, raise,
  some, strip, true, value_error, ℕ, ◌&&◌, ◌++◌, ◌==◌, ◌∷◌,
}

pub record WebhookEvent : Type 0 where
  pub id : String
  pub tenant_id : String
  pub provider : String
  pub dedupe_key : String
  pub event_type : String
  pub external_event_id : String
  pub external_user_id : String
  pub external_thread_id : String
  pub occurred_at : Option ℕ
  pub received_at : ℕ
  pub raw_payload_json : String
  pub created_at : ℕ

-- The keyword arguments of a call.
pub record Delivery : Type 0 where
  pub tenant_id : String
  pub provider : String
  pub dedupe_key : String
  pub event_type : String
  pub external_event_id : String
  pub external_user_id : String
  pub external_thread_id : String
  pub occurred_at : Option ℕ
  pub received_at : Option ℕ
  pub raw_payload_json : String

-- The query by tenant, provider and key.
abbrev pub is_event : String → String → String → WebhookEvent → Bool
is_event tenant provider key e =
    e.tenant_id == tenant && e.provider == provider && e.dedupe_key == key

unfoldable pub new_event : ℕ → String → Delivery → WebhookEvent
new_event now new_id d = record {
  id = new_id;
  tenant_id = d.tenant_id;
  provider = d.provider;
  dedupe_key = strip d.dedupe_key;
  event_type = strip d.event_type;
  external_event_id = strip d.external_event_id;
  external_user_id = strip d.external_user_id;
  external_thread_id = strip d.external_thread_id;
  occurred_at = d.occurred_at;
  received_at = elim d.received_at [ none ↦ now | some t ↦ t ];
  raw_payload_json = d.raw_payload_json;
  created_at = now;
}

unfoldable pub record_webhook_event_if_new :
    ℕ → String → Delivery → List WebhookEvent → Result Bool × List WebhookEvent
unfolding new_event
record_webhook_event_if_new now new_id d table =
    if strip d.dedupe_key == ""
    then (raise (value_error "dedupe_key is required"), table)
    else if is_some (first (is_event d.tenant_id d.provider (strip d.dedupe_key)) table)
    then (ok false, table)
    else (ok true, table ++ new_event now new_id d ∷ [])
