-- ===== src/Customers/Merge/Effects.antt =====
-- What a merge does to the rows, on every path of `merge_customer_profiles`.
use kachu_v.Table.Laws.{get_row-id, get_row-put_row}
use kachu_v.Customers.Merge.Assignments.{
  any-move_assignments_source, any-move_assignments_target, elem-active_tag_ids,
}
use kachu_v.Prelude.{
  Bool, Bool-cases, List, Option-cases, Result, String, [], ap, arith, count, elem, eq_iff, eq_refl,
  false, if◌then◌else◌, inl, inr, is_ok, ok, refl, some, strip, true, ℕ, ◌+◌, ◌==◌, ◌||◌, ◌∷◌, ◌≡◌,
  ◌⊎◌,
}
use kachu_v.Table.{get_row, put_row, update_where}
use kachu_v.Customers.{
  CustomerDb, MergeAudit, Profile, ProfileLink, assignment_row, entity_row, link_row, profile_row,
  tag_row,
}
use kachu_v.Customers.Tags.{has_duplicate}
use kachu_v.Customers.Merge.{
  active_tag_ids, commit_merge, is_link_of, merge_audit, merge_checked, merge_customer_profiles,
  merged_db, merged_target, move_assignments, moved_assignments,
}

-- The checks that a merge passes.
pub record IsMergeable (tenant source_id target_id : String) (source target : Profile)
    (db : CustomerDb) : Type 0 where
  pub distinct : (source_id == target_id) ≡ false
  pub found_source : get_row source_id db.profiles ≡ some source
  pub found_target : get_row target_id db.profiles ≡ some target
  pub in_tenant_source : source.tenant_id ≡ tenant
  pub in_tenant_target : target.tenant_id ≡ tenant
  pub unmerged : strip source.merged_into_profile_id ≡ ""

module _ (now : ℕ) (tenant source target : String) (distinct : (source == target) ≡ false) where
  abbrev relinked : List ProfileLink → List ProfileLink
  relinked links =
      update_where (is_link_of tenant source)
        (λ l. record l { profile_id = target; updated_at = now }) links

  count-relinked :
      (links : List ProfileLink)
      → count (is_link_of tenant target) (relinked links)
        ≡ count (is_link_of tenant target) links + count (is_link_of tenant source) links
  count-relinked [] = refl
  count-relinked (l ∷ links) = ground (
    arith,
    count-relinked links,
    eq_iff source target,
    eq_iff l.profile_id source,
    eq_iff l.profile_id target,
    eq_refl target,
  )

  count-relinked_source :
      (links : List ProfileLink) → count (is_link_of tenant source) (relinked links) ≡ 0
  count-relinked_source [] = refl
  count-relinked_source (l ∷ links) = ground (
    arith,
    count-relinked_source links,
    eq_iff source target,
    eq_iff target source,
    eq_iff l.profile_id source,
  )

blacklisted_of :
    (source target : String)
    → ((if source == "blacklisted" then "blacklisted" else target) == "blacklisted")
      ≡ (target == "blacklisted" || source == "blacklisted")
blacklisted_of source target = elim (Bool-cases (source == "blacklisted")) [
  | inl e ↦ rw e (or_true (target == "blacklisted"))
  | inr e ↦ rw e (or_false (target == "blacklisted"))
]
  where
    or_true : (b : Bool) → true ≡ (b || true)
    or_true b = ground arith

    or_false : (b : Bool) → b ≡ (b || false)
    or_false b = ground arith

module _ (now : ℕ) (event_id audit_id tenant actor reason : String) where
  abbrev merge_of : String → String → CustomerDb → Result MergeAudit × CustomerDb
  merge_of source_id target_id db =
      merge_customer_profiles now event_id audit_id tenant source_id target_id actor reason db

  -- What the checks let through, if nothing was raised.
  pub merge_cases :
      (source_id target_id : String) (db : CustomerDb)
      → (is_ok (merge_of source_id target_id db).0 ≡ false)
          × ((merge_of source_id target_id db).1 ≡ db)
        ⊎ ((source target : Profile) × IsMergeable tenant source_id target_id source target db
            × (merge_of source_id target_id db ≡ (
              ok (merge_audit now event_id audit_id tenant actor reason source target db),
              merged_db now event_id audit_id tenant actor reason source target db,
            )))
  unfolding merge_customer_profiles merge_checked commit_merge
  merge_cases source_id target_id db = elim (Bool-cases (source_id == target_id)) [
    | inl e ↦ inl (rw e (refl, refl))
    | inr e ↦ elim (Option-cases (get_row source_id db.profiles)) [
      | inl no_s ↦ inl (rw (e, no_s) (refl, refl))
      | inr (s, f_s) ↦ elim (Option-cases (get_row target_id db.profiles)) [
        | inl no_t ↦ elim (Bool-cases (s.tenant_id == tenant)) [
          | inl b ↦ inl (rw (e, f_s, no_t, b) (refl, refl))
          | inr b ↦ inl (rw (e, f_s, no_t, b) (refl, refl))
        ]
        | inr (t, f_t) ↦ elim (Bool-cases (s.tenant_id == tenant)) [
          | inr foreign ↦ inl (rw (e, f_s, f_t, foreign) (refl, refl))
          | inl here ↦ elim (Bool-cases (t.tenant_id == tenant)) [
            | inr foreign ↦ inl (rw (e, f_s, f_t, here, foreign) (refl, refl))
            | inl there ↦ elim (Bool-cases (strip s.merged_into_profile_id == "")) [
              | inr merged ↦ inl (rw (e, f_s, f_t, here, there, merged) (refl, refl))
              | inl open_s ↦
                  elim (Bool-cases (
                    has_duplicate
                      (merged_db now event_id audit_id tenant actor reason s t db).assignments)) [
                        | inl twice ↦
                            inl (rw (e, f_s, f_t, here, there, open_s, twice) (refl, refl))
                        | inr once ↦ inr (
                          s,
                          t,
                          record {
                            distinct = e;
                            found_source = f_s;
                            found_target = f_t;
                            in_tenant_source = ground (arith, eq_iff s.tenant_id tenant);
                            in_tenant_target = ground (arith, eq_iff t.tenant_id tenant);
                            unmerged = ground (arith, eq_iff (strip s.merged_into_profile_id) "");
                          },
                          rw (e, f_s, f_t, here, there, open_s, once) refl,
                        )
                      ]
            ]
          ]
        ]
      ]
    ]
  ]

  module _ (source_id target_id : String) (db : CustomerDb)
      (done : is_ok (merge_of source_id target_id db).0 ≡ true) where
    -- What the checks let through, when the merge did not raise.
    pub merge_done :
        (source target : Profile) × IsMergeable tenant source_id target_id source target db
        × ((merge_of source_id target_id db).1
            ≡ merged_db now event_id audit_id tenant actor reason source target db)
    merge_done = elim (merge_cases source_id target_id db) [
      | inl (failed, same) ↦ absurd (cc)
      | inr (s, t, checks, e) ↦ (s, t, checks, ap (λ r. r.1) e)
    ]

    -- A merge that did not raise gives the target the current assignments of both profiles, each
    -- tag once over: a tag is active for the target exactly if it was for one of the two, and none
    -- is for the source.
    pub merge_customer_profiles_tags :
        (tag : String)
        → let after = (merge_of source_id target_id db).1.assignments in
          (elem tag (active_tag_ids tenant target_id after) ≡ (
            elem tag (active_tag_ids tenant target_id db.assignments)
            || elem tag (active_tag_ids tenant source_id db.assignments)))
          × (elem tag (active_tag_ids tenant source_id after) ≡ false)
    unfolding merged_db moved_assignments
    merge_customer_profiles_tags tag =
        let (s, t, checks, e) = merge_done in
        let s_id : s.id ≡ source_id = get_row-id source_id s db.profiles checks.found_source in
        let t_id : t.id ≡ target_id = get_row-id target_id t db.profiles checks.found_target in
        let active = active_tag_ids tenant target_id db.assignments in
        let rows = (move_assignments now tenant source_id target_id active db.assignments).rows in
        rw
          (
            e,
            s_id,
            t_id,
            elem-active_tag_ids tenant target_id tag rows,
            elem-active_tag_ids tenant source_id tag rows,
            any-move_assignments_target now tenant source_id target_id tag checks.distinct active
                db.assignments,
            any-move_assignments_source now tenant source_id target_id tag checks.distinct active
                db.assignments,
            elem-active_tag_ids tenant target_id tag db.assignments,
            elem-active_tag_ids tenant source_id tag db.assignments,
          )
          (ground arith, refl)

    -- After a merge that did not raise, the target is there with the interactions of both, it has
    -- opted out if one of them had, it is blacklisted if one of them was, and the source is marked
    -- as merged into it.
    pub merge_customer_profiles_profiles :
        (source target : Profile)
        → get_row source_id db.profiles ≡ some source
        → get_row target_id db.profiles ≡ some target
        → let after = (merge_of source_id target_id db).1.profiles in
          (kept merged : Profile) × (get_row target_id after ≡ some kept)
          × (get_row source_id after ≡ some merged)
          × (kept.interaction_count ≡ target.interaction_count + source.interaction_count)
          × (kept.opt_out ≡ (target.opt_out || source.opt_out))
          × ((kept.status == "blacklisted")
              ≡ (target.status == "blacklisted" || source.status == "blacklisted"))
          × (merged.status ≡ "merged")
          × (merged.merged_into_profile_id ≡ target_id)
    unfolding merged_db merged_target
    merge_customer_profiles_profiles source target found_s found_t =
        let (s, t, checks, e) = merge_done in
        let s_is : source ≡ s = ground (arith, checks.found_source) in
        let t_is : target ≡ t = ground (arith, checks.found_target) in
        let s_id : s.id ≡ source_id = get_row-id source_id s db.profiles checks.found_source in
        let t_id : t.id ≡ target_id = get_row-id target_id t db.profiles checks.found_target in
        rw (e, s_is, t_is)
          (
            merged_target now s t,
            record s { status = "merged"; merged_into_profile_id = t.id; updated_at = now },
            rw
                (
                  get_row-put_row target_id _ (put_row (merged_target now s t) db.profiles),
                  get_row-put_row target_id (merged_target now s t) db.profiles,
                  s_id,
                  t_id,
                  checks.distinct,
                  eq_refl target_id,
                )
                refl,
            rw
                (
                  get_row-put_row source_id _ (put_row (merged_target now s t) db.profiles),
                  s_id,
                  eq_refl source_id,
                )
                refl,
            refl,
            refl,
            blacklisted_of s.status t.status,
            refl,
            t_id,
          )

    -- A merge that did not raise moves all links: the target has as many as the two had together,
    -- and the source has none.
    pub merge_customer_profiles_links :
        let after = (merge_of source_id target_id db).1.links in
        (count (is_link_of tenant target_id) after
          ≡ count (is_link_of tenant target_id) db.links
            + count (is_link_of tenant source_id) db.links)
        × (count (is_link_of tenant source_id) after ≡ 0)
    unfolding merged_db
    merge_customer_profiles_links =
        let (s, t, checks, e) = merge_done in
        let s_id : s.id ≡ source_id = get_row-id source_id s db.profiles checks.found_source in
        let t_id : t.id ≡ target_id = get_row-id target_id t db.profiles checks.found_target in
        rw (e, s_id, t_id)
          (
            count-relinked now tenant source_id target_id checks.distinct db.links,
            count-relinked_source now tenant source_id target_id checks.distinct db.links,
          )
