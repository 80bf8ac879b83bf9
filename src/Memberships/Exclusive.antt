-- ===== src/Memberships/Exclusive.antt =====
-- A LINE user is bound to one active tenant (`create_tenant_membership` and
-- `deactivate_tenant_membership`).
use kachu_v.Table.{get_row, put_row}
use kachu_v.Prelude.{
  All, Bool, Bool-cases, Error, List, Option-cases, String, [], any, ap, arith, eq_iff, eq_refl,
  false, first, inl, inr, none, ok, raise, refl, some, strip, sym, true, value_error, ℕ, ◌&&◌, ◌==◌,
  ◌∷◌, ◌≡◌, ◌⊎◌,
}
use kachu_v.Table.Laws.{first_sound}
use kachu_v.Table.Pairs.{All-put_row, Pairs, put_row-Pairs}
use kachu_v.Memberships.{
  Membership, create_tenant_membership, deactivate_tenant_membership,
  get_active_membership_by_line_user_id, is_active_user, is_conflict, is_member, is_role,
  membership_row, normal_role, renewed,
}

-- Two active memberships of one user are in one tenant.
abbrev pub Agrees : Membership → Membership → Type 0
Agrees x y =
    x.is_active ≡ true
    → y.is_active ≡ true
    → x.line_user_id ≡ y.line_user_id
    → x.tenant_id ≡ y.tenant_id

abbrev pub IsExclusive : List Membership → Type 0
IsExclusive = Pairs Agrees

Agrees-symm : (x y : Membership) → Agrees x y → Agrees y x
Agrees-symm x y h a b e = sym (h b a (sym e))

-- With no conflict, every row agrees with a row of this user and tenant.
no_conflict-Agrees :
    (tenant user : String) (r : Membership) (table : List Membership)
    → first (is_conflict tenant user) table ≡ none
    → r.tenant_id ≡ tenant
    → r.line_user_id ≡ user
    → All (Agrees r) table
no_conflict-Agrees tenant user r [] h t u = tt
no_conflict-Agrees tenant user r (x ∷ xs) h t u = (
  λ a b e. ground (arith, eq_iff x.line_user_id user, eq_iff x.tenant_id tenant),
  no_conflict-Agrees tenant user r xs (ground arith) t u,
)

module _ (now : ℕ) (new_id tenant user role name : String) where
  -- The stored row is active and belongs to the tenant and the user.
  renewed_lem :
      (table : List Membership)
      → let r = renewed now new_id tenant user role name (first (is_member tenant user) table) in
        (r.tenant_id ≡ tenant) × (r.line_user_id ≡ user) × (r.is_active ≡ true)
  unfolding renewed
  renewed_lem table = elim (Option-cases (first (is_member tenant user) table)) [
    | inl missing ↦ rw missing (refl, refl, refl)
    | inr (m, found) ↦ rw found (
        ground (
          arith,
          first_sound (is_member tenant user) m table found,
          eq_iff m.tenant_id tenant,
          eq_iff m.line_user_id user,
        ))
  ]

-- A creation raises and writes nothing, or it stores a row for a user with no conflict.
module _ (now : ℕ) (new_id tenant line_user role name : String) (table : List Membership) where
  abbrev stored : Membership
  stored =
      renewed now new_id tenant (strip line_user) (normal_role role) name
        (first (is_member tenant (strip line_user)) table)

  pub create_tenant_membership_cases :
      ((e : Error) × (create_tenant_membership now new_id tenant line_user role name table
          ≡ (raise e, table)))
      ⊎ ((strip line_user == "") ≡ false)
        × (is_role (normal_role role) ≡ true)
        × (first (is_conflict tenant (strip line_user)) table ≡ none)
        × (create_tenant_membership now new_id tenant line_user role name table
            ≡ (ok stored, put_row stored table))
  unfolding create_tenant_membership
  create_tenant_membership_cases = elim (Bool-cases (strip line_user == "")) [
    | inl e ↦ inl (value_error "line_user_id is required", rw e)
    | inr e ↦ elim (Bool-cases (is_role (normal_role role))) [
      | inr bad ↦ inl (value_error "role must be owner, manager, or customer", rw (e, bad))
      | inl good ↦ elim (Option-cases (first (is_conflict tenant (strip line_user)) table)) [
        | inr (m, found) ↦ inl (
          value_error "line_user_id is already bound to another active tenant",
          rw (e, good, found),
        )
        | inl free ↦ inr (e, good, free, rw (e, good, free))
      ]
    ]
  ]

  stored-Agrees :
      first (is_conflict tenant (strip line_user)) table ≡ none → All (Agrees stored) table
  stored-Agrees free =
      let r = renewed_lem now new_id tenant (strip line_user) (normal_role role) name table in
      no_conflict-Agrees tenant (strip line_user) stored table free r.0 r.1

  -- Creating a membership, on every path, leaves no user active in two tenants.
  pub create_tenant_membership-IsExclusive :
      IsExclusive table
      → IsExclusive (create_tenant_membership now new_id tenant line_user role name table).1
  create_tenant_membership-IsExclusive h = elim create_tenant_membership_cases [
    | inl (e, failed) ↦ rw failed h
    | inr (u, g, free, done) ↦
        rw done (put_row-Pairs Agrees stored table Agrees-symm (stored-Agrees free) h)
  ]

inactive-Agrees :
    (r : Membership) (table : List Membership) → r.is_active ≡ false → All (Agrees r) table
inactive-Agrees r [] h = tt
inactive-Agrees r (x ∷ xs) h = (λ a b e. cc, inactive-Agrees r xs h)

pub deactivate_tenant_membership-IsExclusive :
    (now : ℕ) (id : String) (table : List Membership)
    → IsExclusive table
    → IsExclusive (deactivate_tenant_membership now id table)
unfolding deactivate_tenant_membership
deactivate_tenant_membership-IsExclusive now id table h = elim (Option-cases (get_row id table)) [
  | inl missing ↦ rw missing h
  | inr (m, found) ↦ rw found (
      put_row-Pairs Agrees (record m { is_active = false; updated_at = now }) table Agrees-symm
        (inactive-Agrees (record m { is_active = false; updated_at = now }) table refl) h)
]

-- The calls that write to the table, in any order.
pub data Call : Type 0 where
  create : ℕ → String → String → String → String → String → Call
  deactivate : ℕ → String → Call

unfoldable pub run : List Call → List Membership → List Membership
run [] table = table
run (create now new_id tenant user role name ∷ calls) table =
    run calls (create_tenant_membership now new_id tenant user role name table).1
run (deactivate now id ∷ calls) table = run calls (deactivate_tenant_membership now id table)

-- After any sequence of creations and deactivations, failing ones included, from a table in which
-- no user is active in two tenants (such as the empty one), no user is active in two tenants.
pub run-IsExclusive :
    (calls : List Call) (table : List Membership)
    → IsExclusive table
    → IsExclusive (run calls table)
unfolding run
run-IsExclusive [] table h = h
run-IsExclusive (create now new_id tenant user role name ∷ calls) table h =
    run-IsExclusive calls _
      (create_tenant_membership-IsExclusive now new_id tenant user role name table h)
run-IsExclusive (deactivate now id ∷ calls) table h =
    run-IsExclusive calls _ (deactivate_tenant_membership-IsExclusive now id table h)

-- The rows that are found for a user lie in the tenant, if they agree with an active row of it.
first_active-tenant :
    (user tenant : String) (r : Membership) (table : List Membership)
    → All (Agrees r) table
    → r.is_active ≡ true
    → r.line_user_id ≡ user
    → r.tenant_id ≡ tenant
    → All (λ m. is_active_user user m ≡ true → m.tenant_id ≡ tenant) table
first_active-tenant user tenant r [] h a u t = tt
first_active-tenant user tenant r (x ∷ xs) h a u t = (
  λ found. ground (arith, h.0 a, eq_iff x.line_user_id user),
  first_active-tenant user tenant r xs h.1 a u t,
)

first_of_All :
    (P : Membership → Type 0) (p : Membership → Bool) (table : List Membership)
    → All P table
    → any p table ≡ true
    → (m : Membership) × (first p table ≡ some m) × P m × (p m ≡ true)
first_of_All P p [] h e = cc
first_of_All P p (x ∷ xs) h e = elim (Bool-cases (p x)) [
  | inl pass ↦ (x, rw pass, h.0, pass)
  | inr fails ↦ rw fails (first_of_All P p xs h.1 (rw fails at e))
]

any-put_row :
    (p : Membership → Bool) (r : Membership) (table : List Membership)
    → p r ≡ true
    → any p (put_row r table) ≡ true
any-put_row p r [] h = ground arith
any-put_row p r (x ∷ xs) h = ground (arith, any-put_row p r xs h)

-- A membership that was created is found again: the user's active membership is in that tenant,
-- also where the table holds further rows of the user.
pub get_active_membership-create_tenant_membership :
    (now : ℕ) (new_id tenant user role name : String) (table : List Membership) (m : Membership)
    → (create_tenant_membership now new_id tenant user role name table).0 ≡ ok m
    → let table' = (create_tenant_membership now new_id tenant user role name table).1 in
      (found : Membership) × (get_active_membership_by_line_user_id user table' ≡ some found)
      × (found.tenant_id ≡ tenant)
      × (found.is_active ≡ true)
unfolding get_active_membership_by_line_user_id
get_active_membership-create_tenant_membership now new_id tenant user role name table m h =
    elim (create_tenant_membership_cases now new_id tenant user role name table) [
      | inl (e, failed) ↦ absurd (cc (rw failed at h))
      | inr (u, g, free, done) ↦
          let r = stored now new_id tenant user role name table in
          let facts = renewed_lem now new_id tenant (strip user) (normal_role role) name table in
          let agree = stored-Agrees now new_id tenant user role name table free in
          let (found, eq, in_tenant, active) =
            first_of_All (λ x. is_active_user (strip user) x ≡ true → x.tenant_id ≡ tenant)
              (is_active_user (strip user)) (put_row r table)
              (All-put_row (λ x. is_active_user (strip user) x ≡ true → x.tenant_id ≡ tenant) r
                table (λ _. facts.0)
                (first_active-tenant (strip user) tenant r table agree facts.2 facts.1 facts.0))
              (any-put_row (is_active_user (strip user)) r table
                (rw (facts.1, facts.2) (ap (λ b. b && true) (eq_refl (strip user))))) in
          rw (done, u) (found, eq, in_tenant active, ground arith)
    ]
