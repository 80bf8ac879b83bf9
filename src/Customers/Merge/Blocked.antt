-- ===== src/Customers/Merge/Blocked.antt =====
-- Which merges of two customers fail on the unique constraint `uq_customer_tag_assignment_...` of
-- alembic/versions/20260509_0004, after all checks of `merge_customer_profiles`.
use kachu_v.Table.Laws.{get_row-id}
use kachu_v.Table.Rows.{Stands, Stands-any, any-Stands, any-count, count-any}
use kachu_v.Prelude.{
  Bool-cases, List, String, arith, count, elem, eq_iff, eq_refl, false, inl, inr, integrity_error,
  is_ok, raise, refl, true, ℕ, ◌&&◌, ◌==◌, ◌∙◌, ◌≡◌, ◌≤◌, ◌⊎◌,
}
use kachu_v.Customers.{
  Assignment, CustomerDb, Profile, assignment_row, entity_row, link_row, profile_row, tag_row,
}
use kachu_v.Customers.Tags.{has_duplicate, is_assignment, is_current}
use kachu_v.Customers.Merge.{
  active_tag_ids, commit_merge, merge_checked, merge_customer_profiles, merged_db, move_assignments,
  moved_assignments,
}
use kachu_v.Customers.Merge.Assignments.{elem-active_tag_ids, is_tagged}
use kachu_v.Customers.Merge.Effects.{IsMergeable}
use kachu_v.Customers.Merge.Collisions.{
  any-is_tagged_removed, count-move_assignments, count-move_assignments_other,
  count-of_has_duplicate, count_unique, has_duplicate-of_count, moved_count-cases, moved_count-le,
  moved_count-of_inactive, moved_count-of_removed,
}

-- The row is one of the table, of the tenant, the profile and the tag.
abbrev pub IsAssigned : String → String → String → List Assignment → Assignment → Type 0
IsAssigned tenant profile tag rows a =
    Stands a rows × (a.tenant_id ≡ tenant) × (a.profile_id ≡ profile) × (a.tag_id ≡ tag)

-- Both customers have a row for the tag, and at least one of the two was removed from its customer.
abbrev pub Collides : String → String → String → String → List Assignment → Type 0
Collides tenant source target tag rows =
    (a b : Assignment) × IsAssigned tenant source tag rows a
    × IsAssigned tenant target tag rows b
    × ((is_current a ≡ false) ⊎ (is_current b ≡ false))

is_assignment-of :
    (tenant profile tag : String) (rows : List Assignment) (a : Assignment)
    → IsAssigned tenant profile tag rows a
    → is_assignment tenant profile tag a ≡ true
is_assignment-of tenant profile tag rows a (there, t, p, g) =
    ground (arith, eq_iff a.tenant_id tenant, eq_iff a.profile_id profile, eq_iff a.tag_id tag)

IsAssigned-of :
    (tenant profile tag : String) (rows : List Assignment) (a : Assignment)
    → Stands a rows
    → is_assignment tenant profile tag a ≡ true
    → IsAssigned tenant profile tag rows a
IsAssigned-of tenant profile tag rows a there fits = (
  there,
  ground (arith, eq_iff a.tenant_id tenant),
  ground (arith, eq_iff a.profile_id profile),
  ground (arith, eq_iff a.tag_id tag),
)

module _ (now : ℕ) (tenant source target : String) (distinct : (source == target) ≡ false)
    (rows : List Assignment) (unique : has_duplicate rows ≡ false) where
  abbrev active : List String
  active = active_tag_ids tenant target rows

  abbrev moved : List Assignment
  moved = (move_assignments now tenant source target active rows).rows

  Collides-breaks :
      (tag : String) → Collides tenant source target tag rows → has_duplicate moved ≡ true
  Collides-breaks tag (a, b, of_a, of_b, removed) =
      let fits_a = is_assignment-of tenant source tag rows a of_a in
      let fits_b = is_assignment-of tenant target tag rows b of_b in
      let had =
        any-count (is_assignment tenant target tag) rows
          (Stands-any (is_assignment tenant target tag) b rows of_b.0 fits_b) in
      let total = count-move_assignments now tenant source target tag distinct active rows in
      has_duplicate-of_count tenant target tag moved (elim removed [
        | inl gone ↦
            let more =
              moved_count-of_removed now tenant source target tag distinct active rows a of_a.0
                fits_a gone in
            omega (arith, total)
        | inr gone ↦
            let idle : elem tag active ≡ false =
              elem-active_tag_ids tenant target tag rows
              ∙ any-is_tagged_removed tenant target tag b rows of_b.0 fits_b gone
                  (count_unique tenant target tag rows unique) in
            let more =
              moved_count-of_inactive now tenant source target tag distinct active rows idle
                (Stands-any (is_assignment tenant source tag) a rows of_a.0 fits_a) in
            omega (arith, total)
      ])

  target_collision :
      (tag : String)
      → 2 ≤ count (is_assignment tenant target tag) moved
      → Collides tenant source target tag rows
  target_collision tag twice =
      let total = count-move_assignments now tenant source target tag distinct active rows in
      let few_t = count_unique tenant target tag rows unique in
      let few_s = count_unique tenant source tag rows unique in
      let le = moved_count-le now tenant source target tag distinct active rows in
      let (a, there_a, fits_a, why) =
        moved_count-cases now tenant source target tag distinct active rows (omega arith) in
      let (b, there_b, fits_b) =
        any-Stands (is_assignment tenant target tag) rows
          (count-any (is_assignment tenant target tag) rows (omega arith)) in
      (
        a,
        b,
        IsAssigned-of tenant source tag rows a there_a fits_a,
        IsAssigned-of tenant target tag rows b there_b fits_b,
        elim why [
          | inl gone ↦ inl gone
          | inr idle ↦ elim (Bool-cases (is_current b)) [
            | inr gone ↦ inr gone
            | inl current ↦ absurd (
                cc (
                  idle,
                  elem-active_tag_ids tenant target tag rows,
                  Stands-any (is_tagged tenant target tag) b rows there_b (ground arith),
                ))
          ]
        ],
      )

  break-Collides :
      has_duplicate moved ≡ true → (tag : String) × Collides tenant source target tag rows
  break-Collides broken =
      let (tenant', profile', tag, twice) = count-of_has_duplicate moved broken in
      elim (Bool-cases (tenant == tenant' && target == profile')) [
        | inr other ↦ absurd (
            omega (
              arith,
              twice,
              count-move_assignments_other now tenant source target tenant' profile' tag other
                  active rows,
              count_unique tenant' profile' tag rows unique,
            ))
        | inl this ↦
            let t : tenant' ≡ tenant = ground (arith, eq_iff tenant tenant') in
            let p : profile' ≡ target = ground (arith, eq_iff target profile') in
            (tag, target_collision tag (rw (t, p) at twice))
      ]

-- After the checks, the merge is its writes and their commit.
merge_of_checks :
    (now : ℕ) (event_id audit_id tenant actor reason source_id target_id : String)
    (source target : Profile) (db : CustomerDb)
    → IsMergeable tenant source_id target_id source target db
    → merge_customer_profiles now event_id audit_id tenant source_id target_id actor reason db
      ≡ commit_merge now event_id audit_id tenant actor reason source target db
unfolding merge_customer_profiles merge_checked
merge_of_checks now event_id audit_id tenant actor reason source_id target_id s t db checks =
    rw
      (
        checks.distinct,
        checks.found_source,
        checks.found_target,
        checks.in_tenant_source,
        checks.in_tenant_target,
        checks.unmerged,
        eq_refl tenant,
      )
      refl

merged_assignments :
    (now : ℕ) (event_id audit_id tenant actor reason source_id target_id : String)
    (source target : Profile) (db : CustomerDb)
    → IsMergeable tenant source_id target_id source target db
    → (merged_db now event_id audit_id tenant actor reason source target db).assignments
      ≡ (move_assignments now tenant source_id target_id
          (active_tag_ids tenant target_id db.assignments)
          db.assignments).rows
unfolding merged_db moved_assignments
merged_assignments now event_id audit_id tenant actor reason source_id target_id s t db checks =
    rw
      (
        get_row-id source_id s db.profiles checks.found_source,
        get_row-id target_id t db.profiles checks.found_target,
      )
      refl

-- Of two customers that may be merged, where the unique constraint on assignments holds: the merge
-- fails only if there is a tag for which both have a row and one of these rows was removed; and if
-- there is such a tag, it fails with an `IntegrityError`.
pub merge_customer_profiles-Collides :
    (now : ℕ) (event_id audit_id tenant actor reason source_id target_id : String)
    (source target : Profile) (db : CustomerDb)
    → IsMergeable tenant source_id target_id source target db
    → has_duplicate db.assignments ≡ false
    → let (r, after) =
        merge_customer_profiles now event_id audit_id tenant source_id target_id actor reason db in
      (is_ok r ≡ false → (tag : String) × Collides tenant source_id target_id tag db.assignments)
      × ((tag : String)
          → Collides tenant source_id target_id tag db.assignments
          → r ≡ raise integrity_error)
unfolding commit_merge
merge_customer_profiles-Collides now event_id audit_id tenant actor reason source_id target_id s t
      db checks unique =
    let rows =
      (move_assignments now tenant source_id target_id
        (active_tag_ids tenant target_id db.assignments) db.assignments).rows in
    let call =
      merge_of_checks now event_id audit_id tenant actor reason source_id target_id s t db checks in
    let stored =
      merged_assignments now event_id audit_id tenant actor reason source_id target_id s t db
        checks in
    elim (Bool-cases (has_duplicate rows)) [
      | inl broken ↦
          rw (call, commit_merge, stored, broken)
            (
              λ failed.
                  break-Collides now tenant source_id target_id checks.distinct db.assignments
                    unique broken,
              λ tag collides. refl,
            )
      | inr whole ↦
          rw (call, commit_merge, stored, whole)
            (
              λ failed. absurd (cc (failed)),
              λ tag collides. absurd (
                  cc (
                    whole,
                    Collides-breaks now tenant source_id target_id checks.distinct db.assignments
                        unique tag collides,
                  )),
            )
    ]
