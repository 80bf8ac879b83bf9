-- ===== src/Memberships/Notified.antt =====
-- Whom a tenant's notifications reach (`get_notification_line_user_ids`).
use kachu_v.Table.Rows.{Stands, Stands-filter, Stands-order_by}
use kachu_v.Prelude.{
  Bool-cases, List, String, [], ap, arith, elem, eq_iff, filter, inl, inr, map, not, refl, strip,
  sym, true, ◌&&◌, ◌==◌, ◌∙◌, ◌∷◌, ◌≡◌, ◌≢◌, ◌↔◌, ◌⊎◌,
}
use kachu_v.Recipients.{IsNodup, elem-gather, gather-IsNodup, is_value}
use kachu_v.Memberships.{
  Membership, get_notification_line_user_ids, is_notified, membership_row, notified_rows,
}

-- The membership is one of the tenant's table, is active, and gives the user the role of an owner or
-- of a manager.
abbrev pub IsNotified : String → List Membership → String → Membership → Type 0
IsNotified tenant table user m =
    Stands m table
    × (m.tenant_id ≡ tenant)
    × (m.is_active ≡ true)
    × ((m.role ≡ "owner") ⊎ (m.role ≡ "manager"))
    × (strip m.line_user_id ≡ user)

users : List Membership → List String
users rows = map (λ m. m.line_user_id) rows

-- A value of the mapped list comes from a row of the list.
value-row :
    (s : String) (rows : List Membership)
    → is_value s (users rows) ≡ true
    → (m : Membership) × Stands m rows × (strip m.line_user_id ≡ s) × (s ≢ "")
unfolding users
value-row s [] e = absurd (cc)
value-row s (x ∷ xs) e =
    elim (Bool-cases (not (strip x.line_user_id == "") && strip x.line_user_id == s)) [
      | inl found ↦ (
        x,
        inl refl,
        ground (arith, eq_iff (strip x.line_user_id) s),
        λ z. ground (arith, eq_iff (strip x.line_user_id) s, eq_iff (strip x.line_user_id) ""),
      )
      | inr away ↦
          let (m, stands, eq, ne) = value-row s xs (rw away at e) in (m, inr stands, eq, ne)
    ]

row-value :
    (s : String) (m : Membership) (rows : List Membership)
    → Stands m rows
    → strip m.line_user_id ≡ s
    → s ≢ ""
    → is_value s (users rows) ≡ true
unfolding users
row-value s m [] stands eq ne = absurd stands
row-value s m (x ∷ xs) (inl same) eq ne = ground (
  arith,
  ap (λ (y : Membership). strip y.line_user_id) same,
  eq_iff (strip x.line_user_id) s,
  eq_iff (strip x.line_user_id) "",
)
row-value s m (x ∷ xs) (inr later) eq ne = ground (arith, row-value s m xs later eq ne)

is_notified-role :
    (tenant : String) (m : Membership)
    → (is_notified tenant m ≡ true) ↔ (
        (m.tenant_id ≡ tenant) × (m.is_active ≡ true) × ((m.role ≡ "owner") ⊎ (m.role ≡ "manager")))
is_notified-role tenant m = (
  λ kept. (
    ground (arith, eq_iff m.tenant_id tenant),
    ground arith,
    elim (Bool-cases (m.role == "owner")) [
      | inl owns ↦ inl (ground (arith, eq_iff m.role "owner"))
      | inr other ↦ inr (ground (arith, eq_iff m.role "manager"))
    ],
  ),
  λ (here, active, role). elim role [
    | inl owns ↦ ground (arith, eq_iff m.tenant_id tenant, eq_iff m.role "owner")
    | inr manages ↦ ground (arith, eq_iff m.tenant_id tenant, eq_iff m.role "manager")
  ],
)

Stands-notified_rows :
    (tenant : String) (table : List Membership) (m : Membership)
    → Stands m (notified_rows tenant table) ↔ (Stands m table × (is_notified tenant m ≡ true))
unfolding notified_rows
Stands-notified_rows tenant table m =
    let rows = filter (is_notified tenant) table in
    let ordered = Stands-order_by m (λ x. x.created_at) rows in
    let kept = Stands-filter (is_notified tenant) m table in
    (λ h. kept.0 (ordered.0 h), λ h. ordered.1 (kept.1 h))

-- The identifiers that a tenant's notifications go to stand once each, and a text is one of them
-- exactly if it is not empty and is, stripped, the user of a membership in the table that is of the
-- tenant and active and whose role is owner or manager.
pub elem-get_notification_line_user_ids :
    (tenant : String) (table : List Membership)
    → IsNodup (get_notification_line_user_ids tenant table)
      × ((s : String)
          → (elem s (get_notification_line_user_ids tenant table) ≡ true)
            ↔ ((s ≢ "") × ((m : Membership) × IsNotified tenant table s m)))
unfolding get_notification_line_user_ids users
elem-get_notification_line_user_ids tenant table =
    let rows = notified_rows tenant table in
    (
      gather-IsNodup (users rows),
      λ s. (
        λ e.
            let (m, stands, eq, ne) = value-row s rows (sym (elem-gather s (users rows)) ∙ e) in
            let (there, kept) = (Stands-notified_rows tenant table m).0 stands in
            let (here, active, role) = (is_notified-role tenant m).0 kept in
            (ne, (m, (there, here, active, role, eq))),
        λ (ne, (m, (there, here, active, role, eq))).
            elem-gather s (users rows)
            ∙ row-value s m rows
                ((Stands-notified_rows tenant table m).1
                  (there, (is_notified-role tenant m).1 (here, active, role)))
                eq ne,
      ),
    )
