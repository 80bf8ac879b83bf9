-- ===== src/Customers/Merge.antt =====
-- `merge_customer_profiles` of repository.py (lines 483 to 630): one profile takes over the links,
-- the timeline, the tags and the suggestions of another. `json.dumps` of the summary is the list
-- of its counts.
pub mod Assignments
pub mod Collisions
pub mod Effects
pub mod Consent
pub mod Blocked
use kachu_v.Prelude.{
  Bool, List, Option, Result, String, [], count, elem, false, filter, if◌then◌else◌,
  integrity_error, lookup_error, ltb, map, none, not, ok, raise, some, strip, value_error, ℕ, ◌&&◌,
  ◌++◌, ◌+◌, ◌==◌, ◌||◌, ◌∷◌,
}
use kachu_v.Table.{get_row, put_row, update_where}
use kachu_v.Suggestions.{Suggestion, suggestion_row}
use kachu_v.Customers.{
  Assignment, CustomerDb, MergeAudit, Profile, ProfileLink, TimelineEvent, add_timeline_event,
  assignment_row, entity_row, link_row, profile_row, tag_row,
}
use kachu_v.Customers.Tags.{has_duplicate, is_current}

-- The later of two contacts, as the code chooses it.
abbrev pub latest : Option ℕ → Option ℕ → Option ℕ
latest target source = elim target [
  | none ↦ source
  | some t ↦ elim source [ none ↦ some t | some s ↦ if ltb t s then some s else some t ]
]

abbrev pub kept_name : String → String → String
kept_name target source = if strip target == "" && not (strip source == "") then source else target

unfoldable pub merged_target : ℕ → Profile → Profile → Profile
merged_target now source target = record target {
  interaction_count = target.interaction_count + source.interaction_count;
  last_interaction_at = latest target.last_interaction_at source.last_interaction_at;
  opt_out = target.opt_out || source.opt_out;
  status = if source.status == "blacklisted" then "blacklisted" else target.status;
  display_name = kept_name target.display_name source.display_name;
  custom_name = kept_name target.custom_name source.custom_name;
  updated_at = now;
}

abbrev pub is_link_of : String → String → ProfileLink → Bool
is_link_of tenant profile l = l.tenant_id == tenant && l.profile_id == profile

abbrev pub is_event_of : String → String → TimelineEvent → Bool
is_event_of tenant profile e = e.tenant_id == tenant && e.profile_id == profile

abbrev pub is_assignment_of : String → String → Assignment → Bool
is_assignment_of tenant profile a = a.tenant_id == tenant && a.profile_id == profile

-- `active_target_tag_ids`
unfoldable pub active_tag_ids : String → String → List Assignment → List String
active_tag_ids tenant profile rows =
    map (λ a. a.tag_id) (filter (λ a. is_assignment_of tenant profile a && is_current a) rows)

-- What the loop over the source's assignments has so far: the rows, the tags that are active for
-- the target, and the two counts.
pub record Moved : Type 0 where
  pub rows : List Assignment
  pub attached : ℕ
  pub collapsed : ℕ

-- The record of the loop after one more row.
abbrev pub with_row : Assignment → ℕ → ℕ → Moved → Moved
with_row a attached collapsed rest = record {
  rows = a ∷ rest.rows;
  attached = attached + rest.attached;
  collapsed = collapsed + rest.collapsed;
}

-- A row of the source that goes over to the target.
abbrev pub moved_to : ℕ → String → Assignment → Assignment
moved_to now target a = record a { profile_id = target; updated_at = now }

abbrev pub closed : ℕ → Assignment → Assignment
closed now a = record a { removed_at = some now; updated_at = now }

-- `active_target_tag_ids.add(assignment.tag_id)` for a current row of the source
abbrev pub with_attached : String → String → Assignment → List String → List String
with_attached tenant source a active =
    if is_assignment_of tenant source a && is_current a && not (elem a.tag_id active)
    then a.tag_id ∷ active
    else active

-- What one turn of the loop does with the row: one of the source is closed, if the tag is active
-- for the target already, or goes over to the target.
unfoldable pub place :
    (now : ℕ) (tenant_id source target : String) → List String → Assignment → Moved → Moved
place now tenant source target active a rest =
    if not (is_assignment_of tenant source a)
    then with_row a 0 0 rest
    else if is_current a && elem a.tag_id active
    then with_row (closed now a) 0 1 rest
    else if is_current a
    then with_row (moved_to now target a) 1 0 rest
    else with_row (moved_to now target a) 0 0 rest

-- The loop over the assignments.
unfoldable pub move_assignments :
    (now : ℕ) (tenant_id source target : String) → List String → List Assignment → Moved
unfolding place
move_assignments now tenant source target active [] = record {
  rows = [];
  attached = 0;
  collapsed = 0;
}
move_assignments now tenant source target active (a ∷ others) =
    place now tenant source target active a
      (move_assignments now tenant source target (with_attached tenant source a active) others)

-- The rewriting of one suggestion's profile identifiers.
abbrev pub rewritten_id : String → String → String → String
rewritten_id source target id = if id == source then target else strip id

unfoldable pub add_rewritten : String → String → List String → List String → List String
add_rewritten source target out [] = out
add_rewritten source target out (i ∷ is) =
    let n = rewritten_id source target i in
    add_rewritten source target (if n == "" || elem n out then out else out ++ n ∷ []) is

abbrev pub mentions : String → Option (List String) → Bool
mentions source none = false
mentions source (some ids) = elem source ids

abbrev pub is_rewritten : String → String → Suggestion → Bool
is_rewritten tenant source s = s.tenant_id == tenant && mentions source s.affected_profile_ids

unfoldable pub rewrite_suggestion : ℕ → String → String → Suggestion → Suggestion
unfolding add_rewritten
rewrite_suggestion now source target s = record s {
  affected_profile_ids = elim s.affected_profile_ids [
    | none ↦ none
    | some ids ↦ some (add_rewritten source target [] ids)
  ];
  updated_at = now;
}

-- The writes of the merge, once its checks have passed, with the audit that it returns.
module _ (now : ℕ) (event_id audit_id tenant actor reason : String) (source target : Profile)
    (db : CustomerDb) where
  unfoldable pub moved_assignments : Moved
  unfolding move_assignments active_tag_ids
  moved_assignments =
      move_assignments now tenant source.id target.id
        (active_tag_ids tenant target.id db.assignments) db.assignments

  unfoldable pub merge_audit : MergeAudit
  unfolding moved_assignments
  merge_audit = record {
    id = audit_id;
    tenant_id = tenant;
    source_profile_id = source.id;
    target_profile_id = target.id;
    actor_line_id = strip actor;
    reason = strip reason;
    summary =
        ("moved_links", count (is_link_of tenant source.id) db.links)
        ∷ ("moved_timeline_events", count (is_event_of tenant source.id) db.timeline)
        ∷ ("attached_active_tags", moved_assignments.attached)
        ∷ ("collapsed_duplicate_tags", moved_assignments.collapsed)
        ∷ ("rewritten_suggestions", count (is_rewritten tenant source.id) db.suggestions)
        ∷ [];
    created_at = now;
  }

  unfoldable pub merged_db : CustomerDb
  unfolding moved_assignments merged_target rewrite_suggestion add_timeline_event merge_audit
  merged_db =
      let moved = record db {
        profiles =
            put_row
              (record source {
                status = "merged";
                merged_into_profile_id = target.id;
                updated_at = now;
              })
              (put_row (merged_target now source target) db.profiles);
        links =
            update_where (is_link_of tenant source.id)
              (λ l. record l { profile_id = target.id; updated_at = now }) db.links;
        timeline =
            update_where (is_event_of tenant source.id) (λ e. record e { profile_id = target.id })
              db.timeline;
        assignments = moved_assignments.rows;
        suggestions =
            update_where (is_rewritten tenant source.id)
              (rewrite_suggestion now source.id target.id) db.suggestions;
        audits = db.audits ++ merge_audit ∷ [];
      } in
      add_timeline_event now event_id tenant target.id "profile_merged" "合併顧客檔案"
        (("actor_line_id", strip actor)
          ∷ ("reason", strip reason)
          ∷ ("source_profile_id", source.id)
          ∷ ("target_profile_id", target.id)
          ∷ [])
        moved

  -- The transaction: nothing of it stays if a unique constraint breaks.
  unfoldable pub commit_merge : Result MergeAudit × CustomerDb
  unfolding merged_db has_duplicate
  commit_merge =
      if has_duplicate merged_db.assignments
      then (raise integrity_error, db)
      else (ok merge_audit, merged_db)

  -- The checks on the two profiles.
  unfoldable pub merge_checked : Result MergeAudit × CustomerDb
  unfolding commit_merge
  merge_checked =
      if not (source.tenant_id == tenant)
      then (raise (lookup_error "source profile not found"), db)
      else if not (target.tenant_id == tenant)
      then (raise (lookup_error "target profile not found"), db)
      else if not (strip source.merged_into_profile_id == "")
      then (raise (value_error "source profile already merged"), db)
      else commit_merge

unfoldable pub merge_customer_profiles :
    (now : ℕ)
    (event_id audit_id tenant_id source_profile_id target_profile_id actor reason : String)
    → CustomerDb
    → Result MergeAudit × CustomerDb
unfolding merge_checked
merge_customer_profiles now event_id audit_id tenant source_id target_id actor reason db =
    if source_id == target_id
    then (raise (value_error "source_profile_id and target_profile_id must be different"), db)
    else elim (get_row source_id db.profiles) [
      | none ↦ (raise (lookup_error "source profile not found"), db)
      | some source ↦ elim (get_row target_id db.profiles) [
        | none ↦ (
          if source.tenant_id == tenant
              then raise (lookup_error "target profile not found")
              else raise (lookup_error "source profile not found"),
          db,
        )
        | some target ↦ merge_checked now event_id audit_id tenant actor reason source target db
      ]
    ]
