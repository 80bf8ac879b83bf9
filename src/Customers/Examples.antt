-- ===== src/Customers/Examples.antt =====
-- A concrete database with two customers, one of whom has opted out, and the theorems on the merge
-- of the two and on their tags.
use kachu_v.Prelude.{
  All, Bool, Result, String, [], elem, false, inl, inr, integrity_error, is_ok, length, none, not,
  ok, raise, refl, some, strip, true, ℕ, ◌&&◌, ◌+◌, ◌==◌, ◌||◌, ◌∷◌, ◌≡◌, ◌≤◌, ◌⊎◌,
}
use kachu_v.Table.{IsKeyed, get_row}
use kachu_v.Table.Pairs.{Pairs}
use kachu_v.Table.Rows.{Falls, Stands}
use kachu_v.Tenants.{Tenant, tenant_row}
use kachu_v.Customers.{
  Assignment, ChannelEntity, CustomerDb, MergeAudit, Profile, ProfileLink, Tag, assignment_row,
  entity_row, link_row, profile_row, tag_row,
}
use kachu_v.Customers.Tags.{assign_tag_to_profile, has_duplicate, remove_tag_from_profile}
use kachu_v.Customers.Tags.Assigned.{
  shown, shown-assign_tag_to_profile, shown-remove_tag_from_profile,
}
use kachu_v.Customers.Tags.Names.{TagCall, TagKept, run_tag, run_tag-TagKept, update}
use kachu_v.Customers.Profiles.{
  get_profile_line_user_ids, list_sleeping_customer_profiles, resolve_or_create_line_profile,
}
use kachu_v.Customers.Profiles.Sleeping.{IsAddressable, list_sleeping_customer_profiles_lem}
use kachu_v.Customers.Profiles.Contact.{resolve_or_create_line_profile_again}
use kachu_v.Customers.Merge.{active_tag_ids, merge_customer_profiles}
use kachu_v.Customers.Merge.Effects.{
  IsMergeable, merge_customer_profiles_profiles, merge_customer_profiles_tags,
}
use kachu_v.Customers.Merge.Blocked.{Collides, merge_customer_profiles-Collides}
use kachu_v.Customers.Merge.Consent.{get_profile_line_user_ids-merge_customer_profiles}

abbrev shop : Tenant
shop = record {
  id = "t1";
  name = "Shop";
  industry_type = "";
  address = "";
  timezone = "Asia/Taipei";
  plan = "trial";
  plan_expires_at = none;
  merchant_slug = "";
  is_active = true;
  sleep_threshold = 30;
  quiet_hours_start = none;
  quiet_hours_end = none;
  created_at = 1;
  updated_at = 1;
}

abbrev customer : String → ℕ → Bool → Profile
customer id visits opted_out = record {
  id = id;
  tenant_id = "t1";
  display_name = "";
  custom_name = "";
  status = "active";
  last_interaction_at = some 3;
  interaction_count = visits;
  sleep_since_days = 0;
  opt_out = opted_out;
  merged_into_profile_id = "";
  created_at = 1;
  updated_at = 1;
}

abbrev identity : String → String → ChannelEntity
identity id user = record {
  id = id;
  tenant_id = "t1";
  channel_type = "line";
  external_user_id = user;
  reachability_status = "reachable";
  occurred_at = some 1;
  received_at = some 1;
  created_at = 1;
  updated_at = 1;
}

abbrev link : String → String → String → ProfileLink
link id profile entity = record {
  id = id;
  tenant_id = "t1";
  profile_id = profile;
  channel_entity_id = entity;
  confidence_score = 10000;
  resolution_source = "inferred";
  resolution_note = "";
  created_at = 1;
  updated_at = 1;
}

abbrev tag : String → String → Tag
tag id name = record {
  id = id;
  tenant_id = "t1";
  name = name;
  color = "";
  source = "manual";
  is_active = true;
  deleted_at = none;
  created_at = 1;
  updated_at = 1;
}

abbrev assignment : String → String → String → Assignment
assignment id profile tag_id = record {
  id = id;
  tenant_id = "t1";
  profile_id = profile;
  tag_id = tag_id;
  applied_source = "manual";
  applied_at = 1;
  removed_at = none;
  created_at = 1;
  updated_at = 1;
}

-- The first customer has opted out; both have the first tag, and the first has the second too.
abbrev two_customers : CustomerDb
two_customers = record {
  tenants = shop ∷ [];
  profiles = customer "p1" 3 true ∷ customer "p2" 4 false ∷ [];
  entities = identity "e1" "u1" ∷ identity "e2" "u2" ∷ [];
  links = link "k1" "p1" "e1" ∷ link "k2" "p2" "e2" ∷ [];
  tags = tag "g1" "vip" ∷ tag "g2" "new" ∷ [];
  assignments =
      assignment "a1" "p1" "g1" ∷ assignment "a2" "p2" "g1" ∷ assignment "a3" "p1" "g2" ∷ [];
  timeline = [];
  audits = [];
  suggestions = [];
}

abbrev merged : Result MergeAudit × CustomerDb
merged = merge_customer_profiles 9 "v1" "x1" "t1" "p1" "p2" "o1" "same" two_customers

merged-is_ok : is_ok merged.0 ≡ true
unfolding merge_customer_profiles strip
merged-is_ok = refl

get_profile_line_user_ids-merge_example :
    get_profile_line_user_ids "t1" ("p1" ∷ "p2" ∷ []) merged.1 ≡ []
get_profile_line_user_ids-merge_example =
    get_profile_line_user_ids-merge_customer_profiles 9 "v1" "x1" "t1" "o1" "same" "p1" "p2"
      two_customers (customer "p1" 3 true) (customer "p2" 4 false) refl refl refl merged-is_ok

merge_customer_profiles_tags_example :
    (elem "g2" (active_tag_ids "t1" "p2" merged.1.assignments) ≡ (
      elem "g2" (active_tag_ids "t1" "p2" two_customers.assignments)
      || elem "g2" (active_tag_ids "t1" "p1" two_customers.assignments)))
    × (elem "g2" (active_tag_ids "t1" "p1" merged.1.assignments) ≡ false)
merge_customer_profiles_tags_example =
    merge_customer_profiles_tags 9 "v1" "x1" "t1" "o1" "same" "p1" "p2" two_customers merged-is_ok
      "g2"

merge_customer_profiles_profiles_example :
    (kept gone : Profile) × (get_row "p2" merged.1.profiles ≡ some kept)
    × (get_row "p1" merged.1.profiles ≡ some gone)
    × (kept.interaction_count ≡ 4 + 3)
    × (kept.opt_out ≡ (false || true))
    × ((kept.status == "blacklisted") ≡ ("active" == "blacklisted" || "active" == "blacklisted"))
    × (gone.status ≡ "merged")
    × (gone.merged_into_profile_id ≡ "p2")
merge_customer_profiles_profiles_example =
    merge_customer_profiles_profiles 9 "v1" "x1" "t1" "o1" "same" "p1" "p2" two_customers
      merged-is_ok (customer "p1" 3 true) (customer "p2" 4 false) refl refl

assignments-IsKeyed : IsKeyed two_customers.assignments
assignments-IsKeyed = (refl, (refl, (refl, tt)))

assignments_unique : has_duplicate two_customers.assignments ≡ false
unfolding has_duplicate
assignments_unique = refl

assigned-is_ok : is_ok (assign_tag_to_profile 9 "a4" "v1" "t1" "p2" "g2" two_customers).0 ≡ true
unfolding assign_tag_to_profile
assigned-is_ok = refl

shown-assign_example :
    elem "g2" (shown "t1" "p2" (assign_tag_to_profile 9 "a4" "v1" "t1" "p2" "g2" two_customers).1)
    ≡ ("g2" == "g2" || elem "g2" (shown "t1" "p2" two_customers))
shown-assign_example =
    shown-assign_tag_to_profile 9 "a4" "v1" "t1" "p2" "g2" two_customers assignments-IsKeyed "g2"
      assigned-is_ok refl

removed-is_ok : is_ok (remove_tag_from_profile 9 "v1" "t1" "p1" "g1" two_customers).0 ≡ true
unfolding remove_tag_from_profile
removed-is_ok = refl

shown-remove_example :
    elem "g1" (shown "t1" "p1" (remove_tag_from_profile 9 "v1" "t1" "p1" "g1" two_customers).1)
    ≡ (not ("g1" == "g1") && elem "g1" (shown "t1" "p1" two_customers))
shown-remove_example =
    shown-remove_tag_from_profile 9 "v1" "t1" "p1" "g1" two_customers assignments-IsKeyed
      assignments_unique "g1" removed-is_ok

abbrev renaming : TagCall
renaming = update 9 "t1" "g2" (some " old ") none

run_tag-TagKept_example : TagKept renaming two_customers (run_tag renaming two_customers)
run_tag-TagKept_example =
    run_tag-TagKept renaming two_customers (refl, (refl, tt)) ((refl, tt), (tt, tt))

abbrev touched_customer : Profile
touched_customer = record (customer "p2" 4 false) {
  last_interaction_at = some 9;
  interaction_count = 5;
  updated_at = 9;
}

resolved-ok :
    (resolve_or_create_line_profile 9 "p3" "e3" "k3" "t1" "u2" two_customers).0
    ≡ ok touched_customer
unfolding resolve_or_create_line_profile
resolved-ok = refl

resolve_or_create_line_profile_again_example :
    let (_, after) = resolve_or_create_line_profile 9 "p3" "e3" "k3" "t1" "u2" two_customers in
    (resolve_or_create_line_profile 12 "p4" "e4" "k4" "t1" "u2" after).0
    ≡ ok (record touched_customer {
      last_interaction_at = some 12;
      interaction_count = 5 + 1;
      updated_at = 12;
    })
resolve_or_create_line_profile_again_example =
    resolve_or_create_line_profile_again 9 12 "p3" "e3" "k3" "p4" "e4" "k4" "t1" "u2" two_customers
      touched_customer (refl, (refl, tt)) refl resolved-ok

-- The second customer's row for the first tag was removed.
abbrev colliding : CustomerDb
colliding = record two_customers {
  assignments =
      assignment "a1" "p1" "g1" ∷ record (assignment "a2" "p2" "g1") { removed_at = some 2 } ∷ [];
}

colliding-IsMergeable :
    IsMergeable "t1" "p1" "p2" (customer "p1" 3 true) (customer "p2" 4 false) colliding
unfolding strip
colliding-IsMergeable = record {
  distinct = refl;
  found_source = refl;
  found_target = refl;
  in_tenant_source = refl;
  in_tenant_target = refl;
  unmerged = refl;
}

colliding_unique : has_duplicate colliding.assignments ≡ false
unfolding has_duplicate
colliding_unique = refl

merge_customer_profiles-Collides_example :
    let merge = merge_customer_profiles 9 "v1" "x1" "t1" "p1" "p2" "o1" "" colliding in
    (is_ok merge.0 ≡ false
      → (tag_id : String) × Collides "t1" "p1" "p2" tag_id colliding.assignments)
    × ((tag_id : String)
        → Collides "t1" "p1" "p2" tag_id colliding.assignments
        → merge.0 ≡ raise integrity_error)
merge_customer_profiles-Collides_example =
    merge_customer_profiles-Collides 9 "v1" "x1" "t1" "o1" "" "p1" "p2" (customer "p1" 3 true)
      (customer "p2" 4 false) colliding colliding-IsMergeable colliding_unique

colliding-Collides : Collides "t1" "p1" "p2" "g1" colliding.assignments
colliding-Collides = (
  assignment "a1" "p1" "g1",
  record (assignment "a2" "p2" "g1") { removed_at = some 2 },
  (inl refl, refl, refl, refl),
  (inr (inl refl), refl, refl, refl),
  inr refl,
)

colliding_fails :
    (merge_customer_profiles 9 "v1" "x1" "t1" "p1" "p2" "o1" "" colliding).0 ≡ raise integrity_error
colliding_fails =
    (merge_customer_profiles-Collides 9 "v1" "x1" "t1" "o1" "" "p1" "p2" (customer "p1" 3 true)
        (customer "p2" 4 false) colliding colliding-IsMergeable colliding_unique).1
      "g1" colliding-Collides

abbrev sleeper : CustomerDb
sleeper = record two_customers {
  profiles = record (customer "p2" 4 false) { sleep_since_days = 70 } ∷ [];
}

list_sleeping_customer_profiles_example :
    let rows = list_sleeping_customer_profiles "t1" 60 20 sleeper in
    (length rows ≤ 20)
    × Pairs (Falls (λ (p : Profile). p.sleep_since_days)) rows
    × ((p : Profile) → Stands p rows → Stands p sleeper.profiles × IsAddressable "t1" 60 p)
    × ((p : Profile)
        → Stands p sleeper.profiles
        → IsAddressable "t1" 60 p
        → Stands p rows
          ⊎ (length rows ≡ 20) × All (λ q. p.sleep_since_days ≤ q.sleep_since_days) rows)
list_sleeping_customer_profiles_example = list_sleeping_customer_profiles_lem "t1" 60 20 sleeper
