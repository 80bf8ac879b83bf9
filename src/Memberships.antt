-- ===== src/Memberships.antt =====
-- The tenant memberships of `KachuPlusRepository` (src/kachu_plus/persistence/repository.py,
-- lines 79 to 193; the table in tables.py). An instant is a number of microseconds, and one
-- operation reads the clock once; a new primary key is an argument.
pub mod Exclusive
pub mod Notified
mod Examples
use kachu_v.Prelude.{
  Bool, List, Option, Result, String, [], elem, false, filter, first, if◌then◌else◌, is_some, lower,
  map, none, not, ok, or_text, order_by, raise, some, strip, true, value_error, ℕ, ◌&&◌, ◌==◌, ◌||◌,
  ◌∷◌,
}
use kachu_v.Table.{Row, get_row, put_row}
use kachu_v.Recipients.{gather}

pub record Membership : Type 0 where
  pub id : String
  pub tenant_id : String
  pub line_user_id : String
  pub role : String
  pub display_name : String
  pub is_active : Bool
  pub created_at : ℕ
  pub updated_at : ℕ

instance abbrev pub membership_row : Row Membership
membership_row = record { id_of = λ m. m.id }

-- `str(role or "owner").strip().lower() or "owner"`
unfoldable pub normal_role : String → String
normal_role role = or_text (lower (strip (or_text role "owner"))) "owner"

unfoldable pub is_role : String → Bool
is_role role = elem role ("owner" ∷ "manager" ∷ "customer" ∷ [])

-- The query for a membership that binds the user to another active tenant.
abbrev pub is_conflict : String → String → Membership → Bool
is_conflict tenant user m = m.line_user_id == user && m.is_active && not (m.tenant_id == tenant)

abbrev pub is_member : String → String → Membership → Bool
is_member tenant user m = m.tenant_id == tenant && m.line_user_id == user

-- The row that is stored: a new one, or the old one with its role, name and activity renewed.
unfoldable pub renewed :
    ℕ → String → String → String → String → String → Option Membership → Membership
renewed now new_id tenant user role name none = record {
  id = new_id;
  tenant_id = tenant;
  line_user_id = user;
  role = role;
  display_name = strip name;
  is_active = true;
  created_at = now;
  updated_at = now;
}
renewed now new_id tenant user role name (some m) = record m {
  role = role;
  display_name = strip name;
  is_active = true;
  updated_at = now;
}

unfoldable pub create_tenant_membership :
    (now : ℕ) (new_id tenant_id line_user_id role display_name : String)
    → List Membership
    → Result Membership × List Membership
unfolding normal_role is_role renewed
create_tenant_membership now new_id tenant line_user_id role name table =
    let user = strip line_user_id in
    let role' = normal_role role in
    if user == ""
    then (raise (value_error "line_user_id is required"), table)
    else if not (is_role role')
    then (raise (value_error "role must be owner, manager, or customer"), table)
    else if is_some (first (is_conflict tenant user) table)
    then (raise (value_error "line_user_id is already bound to another active tenant"), table)
    else let row =
        renewed now new_id tenant user role' name (first (is_member tenant user) table) in
      (ok row, put_row row table)

unfoldable pub list_active_memberships : String → List Membership → List Membership
list_active_memberships tenant table =
    order_by (λ m. m.created_at) (filter (λ m. m.tenant_id == tenant && m.is_active) table)

abbrev pub is_active_user : String → Membership → Bool
is_active_user user m = m.line_user_id == user && m.is_active

unfoldable pub get_active_membership_by_line_user_id : String → List Membership → Option Membership
get_active_membership_by_line_user_id line_user_id table =
    let user = strip line_user_id in if user == "" then none else first (is_active_user user) table

unfoldable pub get_owner_line_user_ids : String → List Membership → List String
get_owner_line_user_ids tenant table =
    filter (λ u. not (u == ""))
      (map (λ m. m.line_user_id)
        (order_by (λ m. m.created_at)
          (filter (λ m. m.tenant_id == tenant && m.is_active && m.role == "owner") table)))

-- The memberships that `get_notification_line_user_ids` reads.
abbrev pub is_notified : String → Membership → Bool
is_notified tenant m =
    m.tenant_id == tenant && m.is_active && (m.role == "owner" || m.role == "manager")

unfoldable pub notified_rows : String → List Membership → List Membership
notified_rows tenant table = order_by (λ m. m.created_at) (filter (is_notified tenant) table)

unfoldable pub get_notification_line_user_ids : String → List Membership → List String
unfolding notified_rows
get_notification_line_user_ids tenant table =
    gather (map (λ m. m.line_user_id) (notified_rows tenant table))

-- The write of `deactivate_tenant_membership` on the row that was found.
unfoldable pub deactivated : ℕ → Option Membership → List Membership → List Membership
deactivated now none table = table
deactivated now (some m) table = put_row (record m { is_active = false; updated_at = now }) table

unfoldable pub deactivate_tenant_membership : ℕ → String → List Membership → List Membership
unfolding deactivated
deactivate_tenant_membership now id table = deactivated now (get_row id table) table
