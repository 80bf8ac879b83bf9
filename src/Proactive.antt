-- ===== src/Proactive.antt =====
-- The engine that looks for something to suggest to an owner (src/kachu_plus/proactive.py): its
-- state here, what it finds in `Detect`, what it does for a tenant in `Scan` and `Prepare`, its
-- reminders in `Remind`, and the passes over all tenants in `Passes`. The message cards are left out.
pub mod Detect
pub mod Scan
pub mod Once
pub mod Prepare
pub mod Prepared
pub mod Remind
pub mod Reminded
pub mod Passes
mod Examples
use kachu_v.Prelude.{
  List, Option, String, [], filter, first, if◌then◌else◌, none, order_by_desc, some, strip, true, ℕ,
  ◌==◌, ◌∷◌,
}
use kachu_v.Table.{Row, put_row}
use kachu_v.Jobs.{Job, job_row}
use kachu_v.Recipients.{gather}
use kachu_v.Memberships.{
  Membership, get_notification_line_user_ids, get_owner_line_user_ids, membership_row,
}
use kachu_v.Customers.{CustomerDb, assignment_row, entity_row, link_row, profile_row, tag_row}
use kachu_v.Approvals.{Approval, approval_row}
use kachu_v.Onboarding.{KnowledgeEntry, entry_row, state_row}

-- `PublishedContentRecordTable`
pub record PublishedContent : Type 0 where
  pub id : String
  pub tenant_id : String
  pub workflow_type : String
  pub channel : String
  pub source_id : String
  pub source_ref : String
  pub content_text : String
  pub payload_json : String
  pub created_at : ℕ

instance abbrev pub published_row : Row PublishedContent
published_row = record { id_of = λ p. p.id }

-- The tables that the engine reads and writes.
pub record Shop : Type 0 where
  pub customers : CustomerDb
  pub memberships : List Membership
  pub published : List PublishedContent
  pub approvals : List Approval
  pub entries : List KnowledgeEntry
  pub jobs : List Job

-- The settings; without any, both are empty.
pub record Settings : Type 0 where
  pub access_token : String
  pub boss_user_id : String

unfoldable pub record_published_content :
    (now : ℕ) (new_id tenant_id workflow_type channel source_id source_ref content_text : String)
    (payload : String)
    → List PublishedContent
    → PublishedContent × List PublishedContent
record_published_content now new_id tenant workflow channel source_id source_ref text_ payload
      table =
    let p : PublishedContent = record {
      id = new_id;
      tenant_id = tenant;
      workflow_type = workflow;
      channel = channel;
      source_id = source_id;
      source_ref = source_ref;
      content_text = text_;
      payload_json = payload;
      created_at = now;
    } in
    (p, put_row p table)

unfoldable pub get_last_published_at : String → List PublishedContent → Option ℕ
get_last_published_at tenant table =
    elim (first (λ _. true)
      (order_by_desc (λ p. p.created_at) (filter (λ p. p.tenant_id == tenant) table))) [
        | none ↦ none
        | some p ↦ some p.created_at
      ]

unfoldable pub get_knowledge_last_updated_at : String → List KnowledgeEntry → Option ℕ
get_knowledge_last_updated_at tenant table =
    elim (first (λ _. true)
      (order_by_desc (λ e. e.created_at) (filter (λ e. e.tenant_id == tenant) table))) [
        | none ↦ none
        | some e ↦ some e.created_at
      ]

-- `resolve_tenant_line_recipients` of src/kachu_plus/line/push.py, on this repository.
unfoldable pub resolve_tenant_line_recipients : Settings → String → List Membership → List String
unfolding get_notification_line_user_ids get_owner_line_user_ids
resolve_tenant_line_recipients settings tenant table =
    elim (gather (get_notification_line_user_ids tenant table)) [
      | r ∷ rs ↦ r ∷ rs
      | [] ↦ elim (gather (get_owner_line_user_ids tenant table)) [
        | o ∷ os ↦ o ∷ os
        | [] ↦ let legacy = strip settings.boss_user_id in if legacy == "" then [] else legacy ∷ []
      ]
    ]
