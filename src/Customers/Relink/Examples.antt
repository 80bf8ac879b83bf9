-- ===== src/Customers/Relink/Examples.antt =====
-- The theorem on relinks at a concrete customer with an identity that is not linked.
use kachu_v.Prelude.{Result, [], false, ok, refl, some, strip, ◌∷◌, ◌≡◌}
use kachu_v.Table.{get_row}
use kachu_v.Handoff.{lock_row, normal_channel}
use kachu_v.Customers.{
  ChannelEntity, CustomerDb, Profile, ProfileLink, assignment_row, entity_row, link_row,
  profile_row, tag_row,
}
use kachu_v.Customers.Profiles.{new_entity, new_link, resolve_or_create_line_profile, touched}
use kachu_v.Customers.Relink.{move_link, relink_profile_channel_entity}
use kachu_v.Customers.Relink.Resolved.{IsTidy, relink_profile_channel_entity_resolves}

abbrev identity : ChannelEntity
identity = new_entity 1 "e1" "t1" "u1"

abbrev linked : ProfileLink
linked = new_link 1 "l1" "t1" "p2" "e1"

abbrev ann : Profile
ann = record {
  id = "p1";
  tenant_id = "t1";
  display_name = "Ann";
  custom_name = "";
  status = "active";
  last_interaction_at = some 1;
  interaction_count = 1;
  sleep_since_days = 0;
  opt_out = false;
  merged_into_profile_id = "";
  created_at = 1;
  updated_at = 1;
}

abbrev known_db : CustomerDb
known_db = record {
  tenants = [];
  profiles = ann ∷ [];
  entities = identity ∷ [];
  links = linked ∷ [];
  tags = [];
  assignments = [];
  timeline = [];
  audits = [];
  suggestions = [];
}

known_db-IsTidy : IsTidy known_db
unfolding strip
known_db-IsTidy = ((refl, tt), (refl, tt), (refl, tt))

abbrev after : Result (ProfileLink × ChannelEntity) × CustomerDb
after = relink_profile_channel_entity 5 "l2" "o1" "o2" "t1" "p1" "line" "u1" "b1" "" known_db

abbrev relinked : ProfileLink × ChannelEntity
relinked =
    (move_link 5 "o1" "o2" "t1"
      (record { channel = "line"; user = "u1"; actor = "b1"; reason = "" }) "p1" identity linked
      known_db).0

after_lem : after.0 ≡ ok relinked
unfolding relink_profile_channel_entity normal_channel strip move_link
after_lem = refl

relink_profile_channel_entity_resolves_example :
    (p : Profile) × (get_row "p1" known_db.profiles ≡ some p)
    × (p.tenant_id ≡ "t1")
    × ((resolve_or_create_line_profile 9 "p9" "e9" "l9" "t1" (strip "u1") after.1).0
        ≡ ok (touched 9 p))
relink_profile_channel_entity_resolves_example =
    relink_profile_channel_entity_resolves 5 9 "l2" "o1" "o2" "t1" "p1" "u1" "b1" "" "p9" "e9" "l9"
      known_db relinked known_db-IsTidy after_lem
