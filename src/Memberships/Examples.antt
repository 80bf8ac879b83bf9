-- ===== src/Memberships/Examples.antt =====
-- The theorems on memberships at concrete calls.
use kachu_v.Prelude.{List, String, [], elem, lower, ok, refl, some, strip, true, ◌∷◌, ◌≡◌, ◌≢◌, ◌↔◌}
use kachu_v.Memberships.{
  Membership, create_tenant_membership, get_active_membership_by_line_user_id,
  get_notification_line_user_ids, membership_row,
}
use kachu_v.Memberships.Exclusive.{
  Call, IsExclusive, create, deactivate, get_active_membership-create_tenant_membership, run,
  run-IsExclusive,
}
use kachu_v.Memberships.Notified.{IsNotified, elem-get_notification_line_user_ids}
use kachu_v.Recipients.{IsNodup, add_new, gather}

-- The second call is refused: the user is in the first tenant.
abbrev two_tenants : List Call
two_tenants =
    create 1 "m1" "t1" " u1 " "Owner" "Ann"
    ∷ create 2 "m2" "t2" "u1" "manager" "Ann"
    ∷ deactivate 3 "m1"
    ∷ create 4 "m3" "t2" "u1" "manager" "Ann"
    ∷ []

run-IsExclusive_example : IsExclusive (run two_tenants [])
run-IsExclusive_example = run-IsExclusive two_tenants [] tt

abbrev first_member : Membership
first_member = record {
  id = "m1";
  tenant_id = "t1";
  line_user_id = "u1";
  role = "owner";
  display_name = "Ann";
  is_active = true;
  created_at = 1;
  updated_at = 1;
}

first_member_created :
    (create_tenant_membership 1 "m1" "t1" "u1" "owner" "Ann" []).0 ≡ ok first_member
unfolding create_tenant_membership strip lower
first_member_created = refl

get_active_membership_example :
    let table = (create_tenant_membership 1 "m1" "t1" "u1" "owner" "Ann" []).1 in
    (found : Membership) × (get_active_membership_by_line_user_id "u1" table ≡ some found)
    × (found.tenant_id ≡ "t1")
    × (found.is_active ≡ true)
get_active_membership_example =
    get_active_membership-create_tenant_membership 1 "m1" "t1" "u1" "owner" "Ann" [] first_member
      first_member_created

elem-get_notification_line_user_ids_example :
    IsNodup (get_notification_line_user_ids "t1" (first_member ∷ []))
    × ((s : String)
        → (elem s (get_notification_line_user_ids "t1" (first_member ∷ [])) ≡ true)
          ↔ ((s ≢ "") × ((m : Membership) × IsNotified "t1" (first_member ∷ []) s m)))
elem-get_notification_line_user_ids_example =
    elem-get_notification_line_user_ids "t1" (first_member ∷ [])

get_notification_line_user_ids_test :
    get_notification_line_user_ids "t1" (first_member ∷ first_member ∷ []) ≡ "u1" ∷ []
unfolding get_notification_line_user_ids gather add_new strip
get_notification_line_user_ids_test = refl
