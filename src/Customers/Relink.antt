-- ===== src/Customers/Relink.antt =====
-- `relink_profile_channel_entity` of src/kachu_plus/persistence/repository.py (lines 356 to 471): an
-- identity is bound to another customer by hand.
pub mod Resolved
mod Examples
use kachu_v.Prelude.{
  List, Option, Result, String, [], any, append, first, if◌then◌else◌, integrity_error,
  lookup_error, none, not, ok, or_text, raise, some, strip, value_error, ℕ, ◌==◌, ◌∷◌,
}
use kachu_v.Table.{get_row, put_row}
use kachu_v.Handoff.{lock_row, normal_channel}
use kachu_v.Customers.{
  ChannelEntity, CustomerDb, Profile, ProfileLink, add_timeline_event, assignment_row, entity_row,
  link_row, profile_row, tag_row,
}
use kachu_v.Customers.Profiles.{is_entity, is_link}

-- What is written about a relink: the channel, the user, the actor and the reason as given.
pub record Relink : Type 0 where
  pub channel : String
  pub user : String
  pub actor : String
  pub reason : String

abbrev pub relink_payload : Relink → String → String → List (String × String)
relink_payload r source target =
    ("channel_type", r.channel)
    ∷ ("external_user_id", r.user)
    ∷ ("source_profile_id", source)
    ∷ ("target_profile_id", target)
    ∷ ("actor_line_id", strip r.actor)
    ∷ ("reason", strip r.reason)
    ∷ []

abbrev pub relink_note : Relink → String
relink_note r = or_text (strip r.reason) (append "Relinked by " (or_text r.actor "system"))

unfoldable pub relinked_event :
    ℕ → String → String → Relink → String → String → CustomerDb → CustomerDb
unfolding add_timeline_event
relinked_event now event_id tenant r source target db =
    add_timeline_event now event_id tenant target "profile_link_relinked"
      (append "重新綁定 " (append r.channel (append " 身份：" r.user))) (relink_payload r source target) db

unfoldable pub moved_out_event :
    ℕ → String → String → Relink → Option Profile → String → CustomerDb → CustomerDb
unfolding add_timeline_event
moved_out_event now event_id tenant r none target db = db
moved_out_event now event_id tenant r (some source) target db =
    add_timeline_event now event_id tenant source.id "profile_link_moved_out"
      (append "移出 " (append r.channel (append " 身份：" r.user))) (relink_payload r source.id target)
      db

abbrev pub relinked_link : ℕ → Relink → String → ProfileLink → ProfileLink
relinked_link now r target l = record l {
  profile_id = target;
  resolution_source = "manual_relink";
  resolution_note = relink_note r;
  updated_at = now;
}

-- The identity has a link, which is moved to the target.
unfoldable pub move_link :
    (now : ℕ) (out_id event_id tenant_id : String)
    → Relink
    → String
    → ChannelEntity
    → ProfileLink
    → CustomerDb
    → (ProfileLink × ChannelEntity) × CustomerDb
unfolding relinked_event moved_out_event
move_link now out_id event_id tenant r target e l db =
    let source = strip l.profile_id in
    if source == target
    then ((l, e), db)
    else (let found : Option Profile = if source == "" then none else get_row source db.profiles in
        let l' = relinked_link now r target l in
        let e' = record e { updated_at = now } in
        let written = record db {
          links = put_row l' db.links;
          entities = put_row e' db.entities;
        } in
        (
          (l', e'),
          relinked_event now event_id tenant r source target
              (moved_out_event now out_id tenant r found target written),
        ))

abbrev pub manual_link : ℕ → String → String → Relink → String → ChannelEntity → ProfileLink
manual_link now link_id tenant r target e = record {
  id = link_id;
  tenant_id = tenant;
  profile_id = target;
  channel_entity_id = e.id;
  confidence_score = 10000;
  resolution_source = "manual_relink";
  resolution_note = relink_note r;
  created_at = now;
  updated_at = now;
}

-- The identity has no link, and gets one to the target.
unfoldable pub add_link :
    (now : ℕ) (link_id event_id tenant_id : String)
    → Relink
    → String
    → ChannelEntity
    → CustomerDb
    → (ProfileLink × ChannelEntity) × CustomerDb
unfolding relinked_event
add_link now link_id event_id tenant r target e db =
    let l = manual_link now link_id tenant r target e in
    (
      (l, e),
      relinked_event now event_id tenant r "" target (record db { links = put_row l db.links }),
    )

-- The column `channel_entity_id` of the links is unique (tables.py), so that a new link is refused
-- where a link of another tenant has the identity.
unfoldable pub relink_profile_channel_entity :
    (now : ℕ) (link_id out_id event_id tenant_id target_profile_id channel_type : String)
    (external_user_id actor_line_id reason : String)
    → CustomerDb
    → Result (ProfileLink × ChannelEntity) × CustomerDb
unfolding normal_channel move_link add_link
relink_profile_channel_entity now link_id out_id event_id tenant target channel_type user_id actor
      reason db =
    let r : Relink = record {
      channel = normal_channel channel_type;
      user = strip user_id;
      actor = actor;
      reason = reason;
    } in
    if r.user == ""
    then (raise (value_error "external_user_id is required"), db)
    else (elim (get_row target db.profiles) [
      | none ↦ (raise (lookup_error "target profile not found"), db)
      | some t ↦
          if not (t.tenant_id == tenant)
          then (raise (lookup_error "target profile not found"), db)
          else if not (strip t.merged_into_profile_id == "")
          then (raise (value_error "target profile is merged"), db)
          else (elim (first (is_entity tenant r.channel r.user) db.entities) [
            | none ↦ (raise (lookup_error "channel entity not found"), db)
            | some e ↦ elim (first (is_link tenant e.id) db.links) [
              | none ↦
                  let (done, db') = add_link now link_id event_id tenant r target e db in
                  if any (λ l. l.channel_entity_id == e.id) db.links
                  then (raise integrity_error, db)
                  else (ok done, db')
              | some l ↦
                  let (done, db') = move_link now out_id event_id tenant r target e l db in
                  (ok done, db')
            ]
          ])
    ])
