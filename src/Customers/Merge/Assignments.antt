-- ===== src/Customers/Merge/Assignments.antt =====
-- The tags of the two profiles of a merge (`merge_customer_profiles`, the loop over assignments).
use kachu_v.Prelude.{
  Bool, List, String, [], any, arith, elem, eq_iff, eq_refl, false, not, refl, ℕ, ◌&&◌, ◌==◌, ◌||◌,
  ◌∷◌, ◌≡◌,
}
use kachu_v.Customers.{Assignment, assignment_row, entity_row, link_row, profile_row, tag_row}
use kachu_v.Customers.Tags.{is_current}
use kachu_v.Customers.Merge.{
  Moved, active_tag_ids, is_assignment_of, move_assignments, place, with_attached,
}

-- A current assignment of the tag to the profile.
abbrev pub is_tagged : String → String → String → Assignment → Bool
is_tagged tenant profile tag a =
    is_assignment_of tenant profile a && is_current a && a.tag_id == tag

pub elem-active_tag_ids :
    (tenant profile tag : String) (rows : List Assignment)
    → elem tag (active_tag_ids tenant profile rows) ≡ any (is_tagged tenant profile tag) rows
unfolding active_tag_ids
elem-active_tag_ids tenant profile tag [] = refl
elem-active_tag_ids tenant profile tag (a ∷ rows) =
    ground (arith, elem-active_tag_ids tenant profile tag rows)

module _ (now : ℕ) (tenant source target tag : String) (distinct : (source == target) ≡ false) where
  any-place_target :
      (active : List String) (a : Assignment) (rest : Moved)
      → any (is_tagged tenant target tag) (place now tenant source target active a rest).rows ≡ (
          is_tagged tenant target tag a
          || is_tagged tenant source tag a && not (elem tag active)
          || any (is_tagged tenant target tag) rest.rows)
  unfolding place
  any-place_target active a rest = ground (
    arith,
    eq_iff a.profile_id source,
    eq_iff a.profile_id target,
    eq_iff source target,
    eq_refl target,
    eq_iff a.tag_id tag,
  )

  pub elem-with_attached :
      (active : List String) (a : Assignment)
      → elem tag (with_attached tenant source a active)
        ≡ (is_tagged tenant source tag a || elem tag active)
  elem-with_attached active a = ground (arith, eq_iff a.tag_id tag)

  -- The target has its own tags afterwards, and those of the source that were not in the set.
  pub any-move_assignments_target :
      (active : List String) (rows : List Assignment)
      → any
          (is_tagged tenant target tag)
          (move_assignments now tenant source target active rows).rows
        ≡ (any (is_tagged tenant target tag) rows
            || any (is_tagged tenant source tag) rows && not (elem tag active))
  unfolding move_assignments
  any-move_assignments_target active [] = refl
  any-move_assignments_target active (a ∷ rows) =
      let active' = with_attached tenant source a active in
      either_of (is_tagged tenant target tag a) (is_tagged tenant source tag a) (elem tag active) _
        _ _ _ _ (any-place_target active a (move_assignments now tenant source target active' rows))
        (any-move_assignments_target active' rows) (elem-with_attached active a)
    where
      either_of :
          (t s e ts ss w r x : Bool)
          → x ≡ (t || s && not e || r)
          → r ≡ (ts || ss && not w)
          → w ≡ (s || e)
          → x ≡ ((t || ts) || (s || ss) && not e)
      either_of t s e ts ss w r x h1 h2 h3 = ground arith

  any-place_source :
      (active : List String) (a : Assignment) (rest : Moved)
      → any (is_tagged tenant source tag) (place now tenant source target active a rest).rows
        ≡ any (is_tagged tenant source tag) rest.rows
  unfolding place
  any-place_source active a rest =
      ground (arith, eq_iff source target, eq_iff target source, eq_iff a.tag_id tag)

  pub any-move_assignments_source :
      (active : List String) (rows : List Assignment)
      → any
          (is_tagged tenant source tag)
          (move_assignments now tenant source target active rows).rows
        ≡ false
  unfolding move_assignments
  any-move_assignments_source active [] = refl
  any-move_assignments_source active (a ∷ rows) =
      let active' = with_attached tenant source a active in
      rw
        (
          any-place_source active a (move_assignments now tenant source target active' rows),
          any-move_assignments_source active' rows,
        )
        refl
