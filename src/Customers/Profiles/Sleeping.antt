-- ===== src/Customers/Profiles/Sleeping.antt =====
-- The customers that a campaign may address (`list_sleeping_customer_profiles`).
use kachu_v.Table.Pairs.{Pairs}
use kachu_v.Table.Rows.{
  Falls, Stands, Stands-filter, Stands-order_by_desc, Stands-take, length-take, order_by_desc-Pairs,
  take-Falls,
}
use kachu_v.Table.Counts.{Pairs-take}
use kachu_v.Prelude.{
  All, String, arith, eq_iff, false, filter, length, order_by_desc, true, ℕ, ◌≡◌, ◌≢◌, ◌≤◌, ◌↔◌,
  ◌⊎◌,
}
use kachu_v.Customers.{
  CustomerDb, Profile, assignment_row, entity_row, link_row, profile_row, tag_row,
}
use kachu_v.Customers.Profiles.{is_sleeping, list_sleeping_customer_profiles}

-- The profile is one of the tenant that has slept long enough and may be addressed.
abbrev pub IsAddressable : String → ℕ → Profile → Type 0
IsAddressable tenant minimum_days p =
    (p.tenant_id ≡ tenant)
    × (minimum_days ≤ p.sleep_since_days)
    × (p.opt_out ≡ false)
    × (p.status ≢ "blacklisted")

is_sleeping-IsAddressable :
    (tenant : String) (minimum_days : ℕ) (p : Profile)
    → (is_sleeping tenant minimum_days p ≡ true) ↔ IsAddressable tenant minimum_days p
is_sleeping-IsAddressable tenant minimum_days p = (
  λ sleeps. (
    ground (arith, eq_iff p.tenant_id tenant),
    ground arith,
    ground arith,
    λ e. ground (arith, eq_iff p.status "blacklisted"),
  ),
  λ (here, long, willing, welcome).
      ground (arith, eq_iff p.tenant_id tenant, eq_iff p.status "blacklisted"),
)

-- The list of sleeping customers has at most as many as were asked for, the longest without contact
-- first. Each is in the table, is of the tenant, has at least the given number of days without
-- contact, has not opted out and is not blacklisted. Such a customer of the table is in the list,
-- or the list is as long as was asked for and each in it has at least as many days without contact.
pub list_sleeping_customer_profiles_lem :
    (tenant : String) (minimum_days limit : ℕ) (db : CustomerDb)
    → let rows = list_sleeping_customer_profiles tenant minimum_days limit db in
      (length rows ≤ limit)
      × Pairs (Falls (λ p. p.sleep_since_days)) rows
      × ((p : Profile) → Stands p rows → Stands p db.profiles × IsAddressable tenant minimum_days p)
      × ((p : Profile)
          → Stands p db.profiles
          → IsAddressable tenant minimum_days p
          → Stands p rows
            ⊎ (length rows ≡ limit) × All (λ q. p.sleep_since_days ≤ q.sleep_since_days) rows)
unfolding list_sleeping_customer_profiles
list_sleeping_customer_profiles_lem tenant minimum_days limit db =
    let days : Profile → ℕ = λ p. p.sleep_since_days in
    let asleep = filter (is_sleeping tenant minimum_days) db.profiles in
    let falls = order_by_desc-Pairs days asleep in
    (
      length-take limit (order_by_desc days asleep),
      Pairs-take (Falls days) limit (order_by_desc days asleep) falls,
      λ p there.
          let (stored, sleeps) = (Stands-filter (is_sleeping tenant minimum_days) p db.profiles).0 (
            (Stands-order_by_desc p days asleep).0
              (Stands-take limit p (order_by_desc days asleep) there)) in
          (stored, (is_sleeping-IsAddressable tenant minimum_days p).0 sleeps),
      λ p stored fits. take-Falls days limit p (order_by_desc days asleep) falls (
          (Stands-order_by_desc p days asleep).1 (
            (Stands-filter (is_sleeping tenant minimum_days) p db.profiles).1
              (stored, (is_sleeping-IsAddressable tenant minimum_days p).1 fits))),
    )
