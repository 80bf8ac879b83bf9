-- ===== src/Customers/Profiles.antt =====
-- Profiles and the channel identities linked to them: the first contact and the later ones, the
-- queries for sleeping customers and for reachable users (repository.py, lines 292 to 297, 478 to
-- 481 and 955 to 1063), and the nightly count of days without contact (services.py).
pub mod Contact
pub mod Sleeping
use kachu_v.Prelude.{
  Bool, List, Option, Result, String, [], elem, false, filter, first, if◌then◌else◌,
  integrity_error, is_some, leb, none, not, ok, order_by_desc, raise, some, suc, take, ℕ, ◌&&◌, ◌+◌,
  ◌-◌, ◌/◌, ◌==◌, ◌||◌, ◌∷◌,
}
use kachu_v.Table.{get_row, put_row}
use kachu_v.Tenants.{get_tenant, tenant_row}
use kachu_v.Recipients.{gather}
use kachu_v.Customers.{
  ChannelEntity, CustomerDb, Profile, ProfileLink, assignment_row, entity_row, link_row,
  profile_row, tag_row,
}

unfoldable pub save_customer_profile : ℕ → Profile → CustomerDb → CustomerDb
save_customer_profile now p db = record db {
  profiles = put_row (record p { updated_at = now }) db.profiles;
}

unfoldable pub list_customer_profiles_for_tenant : String → CustomerDb → List Profile
list_customer_profiles_for_tenant tenant db = filter (λ p. p.tenant_id == tenant) db.profiles

abbrev pub is_entity : String → String → String → ChannelEntity → Bool
is_entity tenant channel user e =
    e.tenant_id == tenant && e.channel_type == channel && e.external_user_id == user

abbrev pub is_link : String → String → ProfileLink → Bool
is_link tenant entity l = l.tenant_id == tenant && l.channel_entity_id == entity

-- The profile that a LINE user's identity is linked to, if identity, link and profile are there.
unfoldable pub linked_profile : String → Option ProfileLink → CustomerDb → Option Profile
linked_profile tenant none db = none
linked_profile tenant (some l) db = get_row l.profile_id db.profiles

abbrev pub touched : ℕ → Profile → Profile
touched now p = record p {
  last_interaction_at = some now;
  interaction_count = p.interaction_count + 1;
  updated_at = now;
}

-- A further contact of a known profile.
unfoldable pub touch : ℕ → ChannelEntity → Profile → CustomerDb → Profile × CustomerDb
touch now e p db = (
  touched now p,
  record db {
    profiles = put_row (touched now p) db.profiles;
    entities =
        put_row (record e { occurred_at = some now; received_at = some now; updated_at = now })
          db.entities;
  },
)

unfoldable pub new_profile : ℕ → String → String → Profile
new_profile now id tenant = record {
  id = id;
  tenant_id = tenant;
  display_name = "";
  custom_name = "";
  status = "active";
  last_interaction_at = some now;
  interaction_count = 1;
  sleep_since_days = 0;
  opt_out = false;
  merged_into_profile_id = "";
  created_at = now;
  updated_at = now;
}

abbrev pub new_entity : ℕ → String → String → String → ChannelEntity
new_entity now id tenant user = record {
  id = id;
  tenant_id = tenant;
  channel_type = "line";
  external_user_id = user;
  reachability_status = "reachable";
  occurred_at = some now;
  received_at = some now;
  created_at = now;
  updated_at = now;
}

abbrev pub new_link : ℕ → String → String → String → String → ProfileLink
new_link now id tenant profile entity = record {
  id = id;
  tenant_id = tenant;
  profile_id = profile;
  channel_entity_id = entity;
  confidence_score = 10000;
  resolution_source = "inferred";
  resolution_note = "Auto-created from inbound LINE event";
  created_at = now;
  updated_at = now;
}

-- `uq_channel_entities_tenant_channel_external_user` of alembic/versions/20260509_0003: a second
-- identity of the user is refused when the rows are flushed.
unfoldable pub create_profile :
    (now : ℕ) (profile_id entity_id link_id tenant_id line_user_id : String)
    → CustomerDb
    → Result Profile × CustomerDb
unfolding new_profile
create_profile now profile_id entity_id link_id tenant user db =
    if is_some (first (is_entity tenant "line" user) db.entities)
    then (raise integrity_error, db)
    else (
      ok (new_profile now profile_id tenant),
      record db {
        profiles = put_row (new_profile now profile_id tenant) db.profiles;
        entities = put_row (new_entity now entity_id tenant user) db.entities;
        links = put_row (new_link now link_id tenant profile_id entity_id) db.links;
      },
    )

unfoldable pub known_profile :
    String → Option ChannelEntity → CustomerDb → Option (ChannelEntity × Profile)
unfolding linked_profile
known_profile tenant none db = none
known_profile tenant (some e) db =
    elim (linked_profile tenant (first (is_link tenant e.id) db.links) db) [
      | none ↦ none
      | some p ↦ some (e, p)
    ]

unfoldable pub resolve_or_create_line_profile :
    (now : ℕ) (profile_id entity_id link_id tenant_id line_user_id : String)
    → CustomerDb
    → Result Profile × CustomerDb
unfolding known_profile touch create_profile
resolve_or_create_line_profile now profile_id entity_id link_id tenant user db =
    elim (known_profile tenant (first (is_entity tenant "line" user) db.entities) db) [
      | none ↦ create_profile now profile_id entity_id link_id tenant user db
      | some (e, p) ↦ let (p', db') = touch now e p db in (ok p', db')
    ]

abbrev pub is_sleeping : String → ℕ → Profile → Bool
is_sleeping tenant minimum_days p =
    p.tenant_id == tenant
    && leb minimum_days p.sleep_since_days
    && not p.opt_out
    && not (p.status == "blacklisted")

unfoldable pub list_sleeping_customer_profiles : String → ℕ → ℕ → CustomerDb → List Profile
list_sleeping_customer_profiles tenant minimum_days limit db =
    take limit (
      order_by_desc (λ p. p.sleep_since_days)
        (filter (is_sleeping tenant minimum_days) db.profiles))

-- The join of `get_profile_line_user_ids`: whom a link reaches, if its profile was asked for, its
-- identity is a reachable one of LINE, and its profile has neither opted out nor been blacklisted.
unfoldable pub reached : String → List String → CustomerDb → ProfileLink → Option String
reached tenant profile_ids db l = elim (get_row l.channel_entity_id db.entities) [
  | none ↦ none
  | some e ↦ elim (get_row l.profile_id db.profiles) [
    | none ↦ none
    | some p ↦
        if l.tenant_id == tenant
          && elem l.profile_id profile_ids
          && e.channel_type == "line"
          && e.reachability_status == "reachable"
          && not p.opt_out
          && not (p.status == "blacklisted")
        then some e.external_user_id
        else none
  ]
]

unfoldable pub reached_users : String → List String → CustomerDb → List ProfileLink → List String
reached_users tenant profile_ids db [] = []
reached_users tenant profile_ids db (l ∷ ls) =
    let rest = reached_users tenant profile_ids db ls in
    elim (reached tenant profile_ids db l) [ none ↦ rest | some u ↦ u ∷ rest ]

unfoldable pub get_profile_line_user_ids : String → List String → CustomerDb → List String
unfolding reached_users
get_profile_line_user_ids tenant profile_ids db = elim profile_ids [
  | [] ↦ []
  | i ∷ is ↦ gather (reached_users tenant (i ∷ is) db db.links)
]

-- `_days_since` of services.py, in whole days of 86,400,000,000 microseconds
unfoldable pub days_since : Option ℕ → ℕ → ℕ
days_since none now = 0
days_since (some t) now = (now - t) / 86400000000

-- One round of the loop in `SleepProfileSyncService.sync_tenant`.
unfoldable pub synced : ℕ → ℕ → Profile → Profile
unfolding days_since
synced now threshold p =
    let days = days_since p.last_interaction_at now in
    let status =
      if p.status == "blacklisted" || p.status == "churned"
      then p.status
      else if leb threshold days
      then "sleeping"
      else "active" in
    record p { sleep_since_days = days; status = status }

unfoldable pub sync_profiles : ℕ → ℕ → List Profile → CustomerDb → ℕ × CustomerDb
unfolding synced save_customer_profile
sync_profiles now threshold [] db = (0, db)
sync_profiles now threshold (p ∷ ps) db =
    let (updated, db') =
      sync_profiles now threshold ps (save_customer_profile now (synced now threshold p) db) in
    (suc updated, db')

unfoldable pub sync_tenant : ℕ → String → CustomerDb → ℕ × CustomerDb
unfolding get_tenant list_customer_profiles_for_tenant sync_profiles
sync_tenant now tenant db = elim (get_tenant tenant db.tenants) [
  | none ↦ (0, db)
  | some t ↦ sync_profiles now t.sleep_threshold (list_customer_profiles_for_tenant tenant db) db
]
