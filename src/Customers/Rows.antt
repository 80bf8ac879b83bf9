-- ===== src/Customers/Rows.antt =====
-- The tables about customers (src/kachu_plus/persistence/tables.py, lines 155 to 292). A
-- confidence is counted in ten-thousandths; the payload of an event is the list of its fields, in
-- the order of their names, in which `build_payload` writes them.
use kachu_v.Prelude.{Bool, List, Option, String, [], ℕ, ◌++◌, ◌∷◌}
use kachu_v.Table.{Row}
use kachu_v.Tenants.{Tenant, tenant_row}
use kachu_v.Suggestions.{Suggestion, suggestion_row}

pub record Profile : Type 0 where
  pub id : String
  pub tenant_id : String
  pub display_name : String
  pub custom_name : String
  pub status : String
  pub last_interaction_at : Option ℕ
  pub interaction_count : ℕ
  pub sleep_since_days : ℕ
  pub opt_out : Bool
  pub merged_into_profile_id : String
  pub created_at : ℕ
  pub updated_at : ℕ

pub record ChannelEntity : Type 0 where
  pub id : String
  pub tenant_id : String
  pub channel_type : String
  pub external_user_id : String
  pub reachability_status : String
  pub occurred_at : Option ℕ
  pub received_at : Option ℕ
  pub created_at : ℕ
  pub updated_at : ℕ

pub record ProfileLink : Type 0 where
  pub id : String
  pub tenant_id : String
  pub profile_id : String
  pub channel_entity_id : String
  pub confidence_score : ℕ
  pub resolution_source : String
  pub resolution_note : String
  pub created_at : ℕ
  pub updated_at : ℕ

pub record MergeAudit : Type 0 where
  pub id : String
  pub tenant_id : String
  pub source_profile_id : String
  pub target_profile_id : String
  pub actor_line_id : String
  pub reason : String
  pub summary : List (String × ℕ)
  pub created_at : ℕ

pub record Tag : Type 0 where
  pub id : String
  pub tenant_id : String
  pub name : String
  pub color : String
  pub source : String
  pub is_active : Bool
  pub deleted_at : Option ℕ
  pub created_at : ℕ
  pub updated_at : ℕ

pub record Assignment : Type 0 where
  pub id : String
  pub tenant_id : String
  pub profile_id : String
  pub tag_id : String
  pub applied_source : String
  pub applied_at : ℕ
  pub removed_at : Option ℕ
  pub created_at : ℕ
  pub updated_at : ℕ

pub record TimelineEvent : Type 0 where
  pub id : String
  pub tenant_id : String
  pub profile_id : String
  pub activity_type : String
  pub title : String
  pub payload : List (String × String)
  pub created_at : ℕ

instance abbrev pub profile_row : Row Profile
profile_row = record { id_of = λ p. p.id }

instance abbrev pub entity_row : Row ChannelEntity
entity_row = record { id_of = λ e. e.id }

instance abbrev pub link_row : Row ProfileLink
link_row = record { id_of = λ l. l.id }

instance abbrev pub tag_row : Row Tag
tag_row = record { id_of = λ t. t.id }

instance abbrev pub assignment_row : Row Assignment
assignment_row = record { id_of = λ a. a.id }

-- The tables that the operations on customers read and write.
pub record CustomerDb : Type 0 where
  pub tenants : List Tenant
  pub profiles : List Profile
  pub entities : List ChannelEntity
  pub links : List ProfileLink
  pub tags : List Tag
  pub assignments : List Assignment
  pub timeline : List TimelineEvent
  pub audits : List MergeAudit
  pub suggestions : List Suggestion

-- `_add_timeline_event`
unfoldable pub add_timeline_event :
    (now : ℕ) (new_id tenant_id profile_id activity_type title : String)
    (payload : List (String × String))
    → CustomerDb
    → CustomerDb
add_timeline_event now new_id tenant profile activity title payload db =
    let event : TimelineEvent = record {
      id = new_id;
      tenant_id = tenant;
      profile_id = profile;
      activity_type = activity;
      title = title;
      payload = payload;
      created_at = now;
    } in
    record db { timeline = db.timeline ++ event ∷ [] }
