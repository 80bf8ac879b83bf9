-- ===== src/Customers/Merge/Collisions.antt =====
-- When a merge breaks the unique constraint on assignments: what the loop over the assignments of
-- the source leaves under one profile and one tag.
use kachu_v.Table.Rows.{Stands, Stands-any, any-count, count-any}
use kachu_v.Prelude.{
  Bool, Bool-cases, List, String, [], any, ap, arith, count, elem, eq_iff, eq_refl, false,
  if◌then◌else◌, inl, inr, leb, not, refl, true, ℕ, ◌&&◌, ◌+◌, ◌==◌, ◌∷◌, ◌≡◌, ◌≤◌, ◌⊎◌,
}
use kachu_v.Customers.{Assignment, assignment_row, entity_row, link_row, profile_row, tag_row}
use kachu_v.Customers.Tags.{has_duplicate, is_assignment, is_current, is_same_assignment}
use kachu_v.Customers.Merge.{Moved, move_assignments, place, with_attached}
use kachu_v.Customers.Merge.Assignments.{elem-with_attached, is_tagged}

-- Two rows of one tenant, profile and tag are a duplicate.
pub has_duplicate-of_count :
    (tenant profile tag : String) (rows : List Assignment)
    → 2 ≤ count (is_assignment tenant profile tag) rows
    → has_duplicate rows ≡ true
unfolding has_duplicate
has_duplicate-of_count tenant profile tag [] h = absurd (omega arith)
has_duplicate-of_count tenant profile tag (a ∷ rows) h =
    elim (Bool-cases (is_assignment tenant profile tag a)) [
      | inr other ↦ ground (arith, has_duplicate-of_count tenant profile tag rows)
      | inl this ↦
          let t : a.tenant_id ≡ tenant = ground (arith, eq_iff a.tenant_id tenant) in
          let p : a.profile_id ≡ profile = ground (arith, eq_iff a.profile_id profile) in
          let g : a.tag_id ≡ tag = ground (arith, eq_iff a.tag_id tag) in
          rw (t, p, g, count-any (is_assignment tenant profile tag) rows (ground arith)) refl
    ]

pub count-of_has_duplicate :
    (rows : List Assignment)
    → has_duplicate rows ≡ true
    → (tenant profile tag : String) × (2 ≤ count (is_assignment tenant profile tag) rows)
unfolding has_duplicate
count-of_has_duplicate [] h = absurd (cc)
count-of_has_duplicate (a ∷ rows) h = elim (Bool-cases (any (is_same_assignment a) rows)) [
  | inl twice ↦ (
    a.tenant_id,
    a.profile_id,
    a.tag_id,
    ground (
      arith,
      eq_refl a.tenant_id,
      eq_refl a.profile_id,
      eq_refl a.tag_id,
      any-count (is_same_assignment a) rows twice,
    ),
  )
  | inr once ↦
      let (t, p, g, more) = count-of_has_duplicate rows (rw once at h) in (t, p, g, ground arith)
]

pub count_unique :
    (tenant profile tag : String) (rows : List Assignment)
    → has_duplicate rows ≡ false
    → count (is_assignment tenant profile tag) rows ≤ 1
count_unique tenant profile tag rows h =
    elim (Bool-cases (leb 2 (count (is_assignment tenant profile tag) rows))) [
      | inl more ↦ absurd (cc (h, has_duplicate-of_count tenant profile tag rows (ground arith)))
      | inr few ↦ ground arith
    ]

-- If a profile's only row for a tag was removed, the tag is not active for it.
pub any-is_tagged_removed :
    (tenant profile tag : String) (b : Assignment) (rows : List Assignment)
    → Stands b rows
    → is_assignment tenant profile tag b ≡ true
    → is_current b ≡ false
    → count (is_assignment tenant profile tag) rows ≤ 1
    → any (is_tagged tenant profile tag) rows ≡ false
any-is_tagged_removed tenant profile tag b [] there fits gone few = absurd there
any-is_tagged_removed tenant profile tag b (a ∷ rows) (inl same) fits gone few =
    ground (arith, ap (is_assignment tenant profile tag) same, ap is_current same, none_tagged rows)
  where
    none_tagged :
        (xs : List Assignment)
        → count (is_assignment tenant profile tag) xs ≤ 0
        → any (is_tagged tenant profile tag) xs ≡ false
    none_tagged [] h = refl
    none_tagged (x ∷ xs) h = ground (arith, none_tagged xs)
any-is_tagged_removed tenant profile tag b (a ∷ rows) (inr later) fits gone few = ground (
  arith,
  any-count (is_assignment tenant profile tag) rows
      (Stands-any (is_assignment tenant profile tag) b rows later fits),
  any-is_tagged_removed tenant profile tag b rows later fits gone,
)

module _ (now : ℕ) (tenant source target tag : String) (distinct : (source == target) ≡ false) where
  -- Whether the loop moves the row to the target as a row for the tag.
  abbrev is_moved : List String → Assignment → Bool
  is_moved active a = is_assignment tenant source tag a && not (is_current a && elem tag active)

  abbrev moved_count : List String → List Assignment → ℕ
  moved_count active [] = 0
  moved_count active (a ∷ rows) =
      (if is_moved active a then 1 else 0) + moved_count (with_attached tenant source a active) rows

  count-place :
      (active : List String) (a : Assignment) (rest : Moved)
      → count (is_assignment tenant target tag) (place now tenant source target active a rest).rows
        ≡ (if is_assignment tenant target tag a then 1 else 0)
          + ((if is_moved active a then 1 else 0)
              + count (is_assignment tenant target tag) rest.rows)
  unfolding place
  count-place active a rest = ground (
    arith,
    eq_iff a.profile_id source,
    eq_iff a.profile_id target,
    eq_iff source target,
    eq_refl target,
    eq_iff a.tag_id tag,
  )

  -- The target has the rows that it had, and those that are moved to it.
  pub count-move_assignments :
      (active : List String) (rows : List Assignment)
      → count
          (is_assignment tenant target tag)
          (move_assignments now tenant source target active rows).rows
        ≡ count (is_assignment tenant target tag) rows + moved_count active rows
  unfolding move_assignments
  count-move_assignments active [] = refl
  count-move_assignments active (a ∷ rows) =
      let active' = with_attached tenant source a active in
      omega (
        arith,
        count-place active a (move_assignments now tenant source target active' rows),
        count-move_assignments active' rows,
      )

  pub moved_count-of_removed :
      (active : List String) (rows : List Assignment) (a : Assignment)
      → Stands a rows
      → is_assignment tenant source tag a ≡ true
      → is_current a ≡ false
      → 1 ≤ moved_count active rows
  moved_count-of_removed active [] a there fits gone = absurd there
  moved_count-of_removed active (x ∷ rows) a (inl same) fits gone =
      ground (arith, ap (is_assignment tenant source tag) same, ap is_current same)
  moved_count-of_removed active (x ∷ rows) a (inr later) fits gone =
      ground (
        arith,
        moved_count-of_removed (with_attached tenant source x active) rows a later fits gone,
      )

  pub moved_count-of_inactive :
      (active : List String) (rows : List Assignment)
      → elem tag active ≡ false
      → any (is_assignment tenant source tag) rows ≡ true
      → 1 ≤ moved_count active rows
  moved_count-of_inactive active [] fresh there = absurd (cc)
  moved_count-of_inactive active (x ∷ rows) fresh there = ground (
    arith,
    elem-with_attached now tenant source target tag distinct active x,
    moved_count-of_inactive (with_attached tenant source x active) rows,
  )

  -- What is moved was removed, or its tag is not active for the target.
  pub moved_count-cases :
      (active : List String) (rows : List Assignment)
      → 1 ≤ moved_count active rows
      → (a : Assignment) × Stands a rows
        × (is_assignment tenant source tag a ≡ true)
        × ((is_current a ≡ false) ⊎ (elem tag active ≡ false))
  moved_count-cases active [] h = absurd (omega arith)
  moved_count-cases active (x ∷ rows) h = elim (Bool-cases (is_moved active x)) [
    | inl moves ↦ (
      x,
      inl refl,
      ground arith,
      elim (Bool-cases (is_current x)) [ inr gone ↦ inl gone | inl current ↦ inr (ground arith) ],
    )
    | inr stays ↦
        let active' = with_attached tenant source x active in
        let more : 1 ≤ moved_count active' rows = ground arith in
        let (a, there, fits, why) = moved_count-cases active' rows more in
        (
          a,
          inr there,
          fits,
          elim why [
            | inl gone ↦ inl gone
            | inr fresh ↦
                inr (
                  ground (arith, elem-with_attached now tenant source target tag distinct active x))
          ],
        )
  ]

  pub moved_count-le :
      (active : List String) (rows : List Assignment)
      → moved_count active rows ≤ count (is_assignment tenant source tag) rows
  moved_count-le active [] = ground arith
  moved_count-le active (x ∷ rows) =
      ground (arith, moved_count-le (with_attached tenant source x active) rows)

-- No other profile has more rows for a tag than before.
pub count-move_assignments_other :
    (now : ℕ) (tenant source target tenant' profile' tag : String)
    → (tenant == tenant' && target == profile') ≡ false
    → (active : List String) (rows : List Assignment)
    → count
        (is_assignment tenant' profile' tag)
        (move_assignments now tenant source target active rows).rows
      ≤ count (is_assignment tenant' profile' tag) rows
unfolding move_assignments place
count-move_assignments_other now tenant source target tenant' profile' tag other active [] =
    ground arith
count-move_assignments_other now tenant source target tenant' profile' tag other active (a ∷ rows) =
    ground (
      arith,
      eq_iff a.tenant_id tenant,
      eq_iff a.tenant_id tenant',
      eq_iff tenant tenant',
      count-move_assignments_other now tenant source target tenant' profile' tag other
          (with_attached tenant source a active) rows,
    )
