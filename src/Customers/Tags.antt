-- ===== src/Customers/Tags.antt =====
-- Tags and their assignment to profiles (repository.py, lines 303 to 324 and 743 to 953). The unique
-- constraints are those of alembic/versions/20260509_0004_module3_customer_tags.py.
pub mod Assigned
pub mod Names
use kachu_v.Prelude.{
  Bool, List, Option, Result, String, [], any, append, elem, false, filter, first, if◌then◌else◌,
  is_some, lookup_error, map, none, not, ok, order_by, raise, some, strip, true, value_error, ℕ,
  ◌&&◌, ◌==◌, ◌||◌, ◌∷◌,
}
use kachu_v.Table.{get_row, put_row}
use kachu_v.Tenants.{get_tenant, tenant_row}
use kachu_v.Customers.{
  Assignment, CustomerDb, Profile, Tag, add_timeline_event, assignment_row, entity_row, link_row,
  profile_row, tag_row,
}

-- `uq_customer_tag_definition_tenant_name`: another row has the tenant and the name.
abbrev pub is_name_taken : Tag → Tag → Bool
is_name_taken tag t = t.tenant_id == tag.tenant_id && t.name == tag.name && not (t.id == tag.id)

unfoldable pub commit_tag : Tag → CustomerDb → Result Tag × CustomerDb
commit_tag tag db =
    if any (is_name_taken tag) db.tags
    then (raise (value_error "tag name already exists"), db)
    else (ok tag, record db { tags = put_row tag db.tags })

unfoldable pub create_tag :
    (now : ℕ) (new_id tenant_id name : String) (color : Option String) (source : String)
    → CustomerDb
    → Result Tag × CustomerDb
unfolding commit_tag get_tenant
create_tag now new_id tenant name color source db =
    let tag : Tag = record {
      id = new_id;
      tenant_id = tenant;
      name = strip name;
      color = elim color [ none ↦ "" | some c ↦ strip c ];
      source = source;
      is_active = true;
      deleted_at = none;
      created_at = now;
      updated_at = now;
    } in
    if is_some (get_tenant tenant db.tenants)
    then commit_tag tag db
    else (raise (lookup_error "tenant not found"), db)

abbrev pub is_tag : String → String → Tag → Bool
is_tag tenant tag_id t = t.tenant_id == tenant && t.id == tag_id

unfoldable pub list_tags : String → Bool → CustomerDb → List Tag
list_tags tenant include_inactive db =
    order_by (λ t. t.created_at)
      (filter (λ t. t.tenant_id == tenant && (include_inactive || t.is_active)) db.tags)

unfoldable pub get_tag : String → String → CustomerDb → Option Tag
get_tag tenant tag_id db = first (is_tag tenant tag_id) db.tags

abbrev pub or_old : Option String → String → String
or_old none old = old
or_old (some s) _ = strip s

unfoldable pub update_tag :
    (now : ℕ) (tenant_id tag_id : String) (name color : Option String)
    → CustomerDb
    → Result Tag × CustomerDb
unfolding commit_tag
update_tag now tenant tag_id name color db = elim (first (is_tag tenant tag_id) db.tags) [
  | none ↦ (raise (lookup_error "tag not found"), db)
  | some t ↦
      commit_tag
        (record t { name = or_old name t.name; color = or_old color t.color; updated_at = now }) db
]

unfoldable pub deactivate_tag :
    (now : ℕ) (tenant_id tag_id : String) → CustomerDb → Result Tag × CustomerDb
deactivate_tag now tenant tag_id db = elim (first (is_tag tenant tag_id) db.tags) [
  | none ↦ (raise (lookup_error "tag not found"), db)
  | some t ↦
      let t' = record t { is_active = false; deleted_at = some now; updated_at = now } in
      if t.is_active then (ok t', record db { tags = put_row t' db.tags }) else (ok t, db)
]

abbrev pub is_assignment : String → String → String → Assignment → Bool
is_assignment tenant profile tag a =
    a.tenant_id == tenant && a.profile_id == profile && a.tag_id == tag

abbrev pub is_current : Assignment → Bool
is_current a = not (is_some a.removed_at)

-- `uq_customer_tag_assignment_tenant_profile_tag` of the migration 20260509_0004
abbrev pub is_same_assignment : Assignment → Assignment → Bool
is_same_assignment a b = is_assignment a.tenant_id a.profile_id a.tag_id b

unfoldable pub has_duplicate : List Assignment → Bool
has_duplicate [] = false
has_duplicate (a ∷ others) = any (is_same_assignment a) others || has_duplicate others

-- `profile is None or profile.tenant_id != tenant_id`, and the same of a tag
abbrev pub lacks_profile : String → Option Profile → Bool
lacks_profile tenant none = true
lacks_profile tenant (some p) = not (p.tenant_id == tenant)

abbrev pub tag_payload : Tag → List (String × String)
tag_payload t = ("tag_color", t.color) ∷ ("tag_id", t.id) ∷ ("tag_name", t.name) ∷ []

abbrev pub applied : ℕ → String → String → String → String → Option Assignment → Assignment
applied now new_id tenant profile tag none = record {
  id = new_id;
  tenant_id = tenant;
  profile_id = profile;
  tag_id = tag;
  applied_source = "manual";
  applied_at = now;
  removed_at = none;
  created_at = now;
  updated_at = now;
}
applied now new_id tenant profile tag (some a) = record a {
  removed_at = none;
  applied_at = now;
  updated_at = now;
}

abbrev pub is_applied : Option Assignment → Bool
is_applied none = false
is_applied (some a) = is_current a

-- The part of `assign_tag_to_profile` below its checks of the profile.
unfoldable pub assign_tag :
    (now : ℕ) (new_id event_id tenant_id profile_id tag_id : String)
    → Option Tag
    → CustomerDb
    → Result (Unit {0}) × CustomerDb
unfolding add_timeline_event
assign_tag now new_id event_id tenant profile tag_id none db =
    (raise (lookup_error "tag not found"), db)
assign_tag now new_id event_id tenant profile tag_id (some t) db =
    let assignment = first (is_assignment tenant profile tag_id) db.assignments in
    if not (t.tenant_id == tenant)
    then (raise (lookup_error "tag not found"), db)
    else if not t.is_active
    then (raise (value_error "tag is inactive"), db)
    else if is_applied assignment
    then (ok tt, db)
    else (
      ok tt,
      add_timeline_event now event_id tenant profile "tag_assigned" (append "加入標籤：" t.name)
          (tag_payload t)
          (record db {
            assignments =
                put_row (applied now new_id tenant profile tag_id assignment) db.assignments;
          }),
    )

unfoldable pub assign_tag_to_profile :
    (now : ℕ) (new_id event_id tenant_id profile_id tag_id : String)
    → CustomerDb
    → Result (Unit {0}) × CustomerDb
unfolding assign_tag
assign_tag_to_profile now new_id event_id tenant profile tag_id db =
    if lacks_profile tenant (get_row profile db.profiles)
    then (raise (lookup_error "profile not found"), db)
    else assign_tag now new_id event_id tenant profile tag_id (get_row tag_id db.tags) db

-- The write of `remove_tag_from_profile` on the current assignment, if there is one.
unfoldable pub remove_assignment :
    (now : ℕ) (event_id tenant_id profile_id : String)
    → Tag
    → Option Assignment
    → CustomerDb
    → CustomerDb
unfolding add_timeline_event
remove_assignment now event_id tenant profile t none db = db
remove_assignment now event_id tenant profile t (some a) db =
    add_timeline_event now event_id tenant profile "tag_removed" (append "移除標籤：" t.name)
      (tag_payload t)
      (record db {
        assignments = put_row (record a { removed_at = some now; updated_at = now }) db.assignments;
      })

unfoldable pub remove_tag :
    (now : ℕ) (event_id tenant_id profile_id tag_id : String)
    → Option Tag
    → CustomerDb
    → Result (Unit {0}) × CustomerDb
unfolding remove_assignment
remove_tag now event_id tenant profile tag_id none db = (raise (lookup_error "tag not found"), db)
remove_tag now event_id tenant profile tag_id (some t) db =
    if not (t.tenant_id == tenant) then (raise (lookup_error "tag not found"), db) else (
      ok tt,
      remove_assignment now event_id tenant profile t
          (first (λ a. is_assignment tenant profile tag_id a && is_current a) db.assignments) db,
    )

unfoldable pub remove_tag_from_profile :
    (now : ℕ) (event_id tenant_id profile_id tag_id : String)
    → CustomerDb
    → Result (Unit {0}) × CustomerDb
unfolding remove_tag
remove_tag_from_profile now event_id tenant profile tag_id db =
    if lacks_profile tenant (get_row profile db.profiles)
    then (raise (lookup_error "profile not found"), db)
    else remove_tag now event_id tenant profile tag_id (get_row tag_id db.tags) db

unfoldable pub list_profile_active_tags : String → String → CustomerDb → List Tag
list_profile_active_tags tenant profile db =
    let tag_ids =
      map (λ a. a.tag_id)
        (filter (λ a. a.tenant_id == tenant && a.profile_id == profile && is_current a)
          db.assignments) in
    order_by (λ t. t.created_at)
      (filter (λ t. t.tenant_id == tenant && elem t.id tag_ids && t.is_active) db.tags)
