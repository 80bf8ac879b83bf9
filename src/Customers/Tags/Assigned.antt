-- ===== src/Customers/Tags/Assigned.antt =====
-- Assigning and removing a tag, seen through `list_profile_active_tags`.
use kachu_v.Table.Pairs.{get_row-of_first}
use kachu_v.Table.{IsKeyed, get_row, put_row}
use kachu_v.Table.Laws.{any-of_first, any-put_row, first_sound, get_row-id, get_row-of_first_found}
use kachu_v.Prelude.{
  Bool, Bool-cases, List, Option, Option-cases, String, [], any, ap, arith, count, elem, eq_iff,
  eq_refl, false, filter, first, inl, inr, insert_by, is_ok, map, none, not, order_by, refl, some,
  subst, true, ℕ, ◌&&◌, ◌==◌, ◌||◌, ◌∷◌, ◌≡◌, ◌≤◌,
}
use kachu_v.Customers.{
  Assignment, CustomerDb, Tag, add_timeline_event, assignment_row, entity_row, link_row,
  profile_row, tag_row,
}
use kachu_v.Customers.Tags.{
  applied, assign_tag, assign_tag_to_profile, has_duplicate, is_applied, is_assignment, is_current,
  is_same_assignment, lacks_profile, list_profile_active_tags, remove_assignment, remove_tag,
  remove_tag_from_profile,
}

-- A current assignment of the tag to the profile.
abbrev pub is_tagged : String → String → String → Assignment → Bool
is_tagged tenant profile tag a = is_assignment tenant profile tag a && is_current a

-- The identifiers of the tags that are shown for the profile.
abbrev pub shown : String → String → CustomerDb → List String
shown tenant profile db = map (λ t. t.id) (list_profile_active_tags tenant profile db)

abbrev is_shown_tag : String → String → List String → Tag → Bool
is_shown_tag tenant tag ids t = t.tenant_id == tenant && elem t.id ids && t.is_active

elem-insert_by :
    (x : String) (key : Tag → ℕ) (t : Tag) (ts : List Tag)
    → elem x (map (λ u. u.id) (insert_by key t ts)) ≡ (t.id == x || elem x (map (λ u. u.id) ts))
elem-insert_by x key t [] = refl
elem-insert_by x key t (u ∷ ts) = ground (arith, elem-insert_by x key t ts)

elem-order_by :
    (x : String) (key : Tag → ℕ) (ts : List Tag)
    → elem x (map (λ u. u.id) (order_by key ts)) ≡ elem x (map (λ u. u.id) ts)
elem-order_by x key [] = refl
elem-order_by x key (t ∷ ts) =
    rw (elem-insert_by x key t (order_by key ts), elem-order_by x key ts) refl

-- An active tag of the tenant has this identifier.
abbrev pub is_active_tag : String → String → Tag → Bool
is_active_tag tenant x t = t.tenant_id == tenant && t.is_active && t.id == x

elem-filter :
    (tenant x : String) (ids : List String) (ts : List Tag)
    → elem x
        (map (λ u. u.id) (filter (λ t. t.tenant_id == tenant && elem t.id ids && t.is_active) ts))
      ≡ (any (is_active_tag tenant x) ts && elem x ids)
elem-filter tenant x ids [] = refl
elem-filter tenant x ids (t ∷ ts) = ground (arith, elem-filter tenant x ids ts, eq_iff t.id x)

elem-current :
    (tenant profile x : String) (rows : List Assignment)
    → elem x (
        map
          (λ a. a.tag_id)
          (filter (λ a. a.tenant_id == tenant && a.profile_id == profile && is_current a) rows))
      ≡ any (is_tagged tenant profile x) rows
elem-current tenant profile x [] = refl
elem-current tenant profile x (a ∷ rows) = ground (arith, elem-current tenant profile x rows)

pub elem-shown :
    (tenant profile x : String) (db : CustomerDb)
    → elem x (shown tenant profile db)
      ≡ (any (is_active_tag tenant x) db.tags && any (is_tagged tenant profile x) db.assignments)
unfolding list_profile_active_tags
elem-shown tenant profile x db =
    let ids =
      map (λ a. a.tag_id)
        (filter (λ a. a.tenant_id == tenant && a.profile_id == profile && is_current a)
          db.assignments) in
    rw
      (
        elem-order_by x (λ t. t.created_at)
            (filter (λ t. t.tenant_id == tenant && elem t.id ids && t.is_active) db.tags),
        elem-filter tenant x ids db.tags,
        elem-current tenant profile x db.assignments,
      )
      refl

-- At most one row stands for a tag of a profile, where the unique constraint holds.
count-has_duplicate :
    (tenant profile tag : String) (rows : List Assignment)
    → has_duplicate rows ≡ false
    → count (is_assignment tenant profile tag) rows ≤ 1
unfolding has_duplicate
count-has_duplicate tenant profile tag [] h = ground arith
count-has_duplicate tenant profile tag (a ∷ rows) h =
    elim (Bool-cases (is_assignment tenant profile tag a)) [
      | inl here ↦
          rw here
            (let none_left = no_other tenant profile tag a rows here (ground arith) in ground arith)
      | inr away ↦ rw away (ground (arith, count-has_duplicate tenant profile tag rows))
    ]
  where
    no_other :
        (tenant profile tag : String) (a : Assignment) (rows : List Assignment)
        → is_assignment tenant profile tag a ≡ true
        → any (is_same_assignment a) rows ≡ false
        → count (is_assignment tenant profile tag) rows ≡ 0
    no_other tenant profile tag a [] here h = refl
    no_other tenant profile tag a (b ∷ rows) here h = ground (
      arith,
      no_other tenant profile tag a rows here,
      eq_iff a.tenant_id tenant,
      eq_iff a.profile_id profile,
      eq_iff a.tag_id tag,
    )

is_tagged-closed :
    (now : ℕ) (tenant profile tag : String) (a : Assignment)
    → is_tagged tenant profile tag (record a { removed_at = some now; updated_at = now }) ≡ false
is_tagged-closed now tenant profile tag a = ground arith

-- Closing the first current assignment leaves none, if the constraint holds.
any-closed :
    (now : ℕ) (tenant profile tag : String) (a : Assignment) (rows : List Assignment)
    → IsKeyed rows
    → count (is_assignment tenant profile tag) rows ≤ 1
    → first (is_tagged tenant profile tag) rows ≡ some a
    → any
        (is_tagged tenant profile tag)
        (put_row (record a { removed_at = some now; updated_at = now }) rows)
      ≡ false
any-closed now tenant profile tag a [] keyed once found = absurd (cc)
any-closed now tenant profile tag a (b ∷ rows) keyed once found =
    elim (Bool-cases (is_tagged tenant profile tag b)) [
      | inl here ↦
          let same : b ≡ a = cc (rw here at found) in
          rw (ap (λ c. c.id) same, eq_refl a.id, is_tagged-closed now tenant profile tag a)
            (any-of_count tenant profile tag rows (ground arith))
      | inr away ↦ elim (Bool-cases (b.id == a.id)) [
        | inl same_id ↦ absurd (
            get_row-of_first_found (is_tagged tenant profile tag) b.id a rows (rw away at found)
              (ground (arith, eq_iff b.id a.id)) keyed.0)
        | inr other ↦
            rw (other, away)
              (any-closed now tenant profile tag a rows keyed.1 (ground arith) (rw away at found))
      ]
    ]
  where
    any-of_count :
        (tenant profile tag : String) (rows : List Assignment)
        → count (is_assignment tenant profile tag) rows ≡ 0
        → any (is_tagged tenant profile tag) rows ≡ false
    any-of_count tenant profile tag [] h = refl
    any-of_count tenant profile tag (b ∷ rows) h =
        ground (arith, any-of_count tenant profile tag rows)

module _ (now : ℕ) (new_id event_id tenant profile tag : String) (db : CustomerDb)
    (keyed : IsKeyed db.assignments) where
  is_tagged-applied :
      (x : String) (old : Option Assignment)
      → first (is_assignment tenant profile tag) db.assignments ≡ old
      → is_tagged tenant profile x (applied now new_id tenant profile tag old) ≡ (x == tag)
  is_tagged-applied x none found =
      ground (arith, eq_refl tenant, eq_refl profile, eq_iff tag x, eq_iff x tag)
  is_tagged-applied x (some a) found = ground (
    arith,
    first_sound (is_assignment tenant profile tag) a db.assignments found,
    eq_iff a.tag_id tag,
    eq_iff a.tag_id x,
    eq_iff x tag,
  )

  old-not_tagged :
      (x : String) (o : Option Assignment)
      → first (is_assignment tenant profile tag) db.assignments ≡ o
      → is_applied o ≡ false
      → get_row new_id db.assignments ≡ none
      → (old : Assignment)
      → get_row (applied now new_id tenant profile tag o).id db.assignments ≡ some old
      → is_tagged tenant profile x old ≡ false
  old-not_tagged x none found free fresh old e = absurd (cc)
  old-not_tagged x (some a) found free fresh old e =
      let same : a ≡ old =
        cc (get_row-of_first (is_assignment tenant profile tag) a db.assignments keyed found) in
      subst (λ o. is_tagged tenant profile x o ≡ false) same (ground arith)

  any-applied :
      (x : String) (o : Option Assignment)
      → first (is_assignment tenant profile tag) db.assignments ≡ o
      → is_applied o ≡ false
      → get_row new_id db.assignments ≡ none
      → any
          (is_tagged tenant profile x)
          (put_row (applied now new_id tenant profile tag o) db.assignments)
        ≡ (x == tag || any (is_tagged tenant profile x) db.assignments)
  any-applied x o found free fresh =
      rw
        (
          any-put_row (is_tagged tenant profile x) (applied now new_id tenant profile tag o)
              db.assignments (old-not_tagged x o found free fresh),
          is_tagged-applied x o found,
        )
        refl

  any-kept :
      (x : String) (o : Option Assignment)
      → first (is_assignment tenant profile tag) db.assignments ≡ o
      → is_applied o ≡ true
      → any (is_tagged tenant profile x) db.assignments
        ≡ (x == tag || any (is_tagged tenant profile x) db.assignments)
  any-kept x none found held = absurd (cc)
  any-kept x (some a) found held = ground (
    arith,
    first_sound (is_assignment tenant profile tag) a db.assignments found,
    any-of_first (is_tagged tenant profile x) (is_assignment tenant profile tag) a db.assignments
        found,
    eq_iff x tag,
    eq_iff a.tag_id tag,
    eq_iff a.tag_id x,
  )

  -- The tag of an assignment that did not raise is an active one, and the tags are as before.
  assign_lem :
      (x : String)
      → is_ok (assign_tag_to_profile now new_id event_id tenant profile tag db).0 ≡ true
      → get_row new_id db.assignments ≡ none
      → let after = (assign_tag_to_profile now new_id event_id tenant profile tag db).1 in
        (after.tags ≡ db.tags)
        × (any (is_active_tag tenant tag) db.tags ≡ true)
        × (any (is_tagged tenant profile x) after.assignments
            ≡ (x == tag || any (is_tagged tenant profile x) db.assignments))
  unfolding assign_tag_to_profile assign_tag add_timeline_event
  assign_lem x done fresh = elim (Bool-cases (lacks_profile tenant (get_row profile db.profiles))) [
    | inl lacking ↦ absurd (cc (rw lacking at done))
    | inr there ↦ elim (Option-cases (get_row tag db.tags)) [
      | inl missing ↦ absurd (cc (rw (there, missing) at done))
      | inr (t, found_t) ↦ elim (Bool-cases (t.tenant_id == tenant)) [
        | inr foreign ↦ absurd (cc (rw (there, found_t, foreign) at done))
        | inl ours ↦ elim (Bool-cases t.is_active) [
          | inr inactive ↦ absurd (cc (rw (there, found_t, ours, inactive) at done))
          | inl active ↦
              let shown_t : any (is_active_tag tenant tag) db.tags ≡ true =
                any-of_first (is_active_tag tenant tag) (λ u. u.id == tag) t db.tags found_t
                  (ground (arith, get_row-id tag t db.tags found_t, eq_refl tag)) in
              elim (Bool-cases
                (is_applied (first (is_assignment tenant profile tag) db.assignments))) [
                  | inl held ↦
                      rw (there, found_t, ours, active, held)
                        (refl, shown_t, any-kept x _ refl held)
                  | inr free ↦
                      rw (there, found_t, ours, active, free)
                        (refl, shown_t, any-applied x _ refl free fresh)
                ]
        ]
      ]
    ]
  ]

  -- An assignment of a tag that did not raise, at a new key, shows exactly the tags that were shown
  -- for the profile before and the assigned one, also where the tag had been assigned or removed
  -- before.
  pub shown-assign_tag_to_profile :
      (x : String)
      → is_ok (assign_tag_to_profile now new_id event_id tenant profile tag db).0 ≡ true
      → get_row new_id db.assignments ≡ none
      → elem x
          (shown tenant profile (assign_tag_to_profile now new_id event_id tenant profile tag db).1)
        ≡ (x == tag || elem x (shown tenant profile db))
  shown-assign_tag_to_profile x done fresh =
      let after = (assign_tag_to_profile now new_id event_id tenant profile tag db).1 in
      let (tags, active, rows) = assign_lem x done fresh in
      rw (elem-shown tenant profile x after, elem-shown tenant profile x db, tags, rows)
        (ground
          (arith, eq_iff x tag, ap (λ k. any (is_active_tag tenant k) db.tags) {x = x} {y = tag}))

any-of_first-none :
    (tenant profile tag : String) (rows : List Assignment)
    → first (is_tagged tenant profile tag) rows ≡ none
    → any (is_tagged tenant profile tag) rows ≡ false
any-of_first-none tenant profile tag [] h = refl
any-of_first-none tenant profile tag (a ∷ rows) h =
    ground (arith, any-of_first-none tenant profile tag rows)

module _ (now : ℕ) (event_id tenant profile tag : String) (db : CustomerDb)
    (keyed : IsKeyed db.assignments) (unique : has_duplicate db.assignments ≡ false) where
  remove-missing :
      (x : String)
      → first (is_tagged tenant profile tag) db.assignments ≡ none
      → any (is_tagged tenant profile x) db.assignments
        ≡ (not (x == tag) && any (is_tagged tenant profile x) db.assignments)
  remove-missing x found = elim (Bool-cases (x == tag)) [
    | inl same ↦
        let here : x ≡ tag = (ground (arith, eq_iff x tag)) in
        rw (here, eq_refl tag, any-of_first-none tenant profile tag db.assignments found) refl
    | inr other ↦ rw other refl
  ]

  any-removed :
      (x : String) (a : Assignment)
      → first (is_tagged tenant profile tag) db.assignments ≡ some a
      → any
          (is_tagged tenant profile x)
          (put_row (record a { removed_at = some now; updated_at = now }) db.assignments)
        ≡ (not (x == tag) && any (is_tagged tenant profile x) db.assignments)
  any-removed x a found = elim (Bool-cases (x == tag)) [
    | inl same ↦
        let here : x ≡ tag = (ground (arith, eq_iff x tag)) in
        rw
          (
            here,
            eq_refl tag,
            any-closed now tenant profile tag a db.assignments keyed
                (count-has_duplicate tenant profile tag db.assignments unique) found,
          )
          refl
    | inr other ↦
        rw
          (
            other,
            any-put_row (is_tagged tenant profile x)
                (record a { removed_at = some now; updated_at = now }) db.assignments
                (λ old e.
                  (let same : a ≡ old = cc (
                      get_row-of_first (is_tagged tenant profile tag) a db.assignments keyed
                        found) in
                    subst (λ o. is_tagged tenant profile x o ≡ false) same (not_x other))),
            is_tagged-closed now tenant profile x a,
          )
          refl
  ]
    where
      not_x : (x == tag) ≡ false → is_tagged tenant profile x a ≡ false
      not_x other = ground (
        arith,
        first_sound (is_tagged tenant profile tag) a db.assignments found,
        eq_iff x tag,
        eq_iff a.tag_id tag,
        eq_iff a.tag_id x,
      )

  remove_lem :
      (x : String)
      → is_ok (remove_tag_from_profile now event_id tenant profile tag db).0 ≡ true
      → let after = (remove_tag_from_profile now event_id tenant profile tag db).1 in
        (after.tags ≡ db.tags)
        × (any (is_tagged tenant profile x) after.assignments
            ≡ (not (x == tag) && any (is_tagged tenant profile x) db.assignments))
  unfolding remove_tag_from_profile remove_tag remove_assignment add_timeline_event
  remove_lem x done = elim (Bool-cases (lacks_profile tenant (get_row profile db.profiles))) [
    | inl lacking ↦ absurd (cc (rw lacking at done))
    | inr there ↦ elim (Option-cases (get_row tag db.tags)) [
      | inl missing ↦ absurd (cc (rw (there, missing) at done))
      | inr (t, found_t) ↦ elim (Bool-cases (t.tenant_id == tenant)) [
        | inr foreign ↦ absurd (cc (rw (there, found_t, foreign) at done))
        | inl ours ↦ elim (Option-cases (first (is_tagged tenant profile tag) db.assignments)) [
          | inl gone ↦ rw (there, found_t, ours, gone) (refl, remove-missing x gone)
          | inr (a, found) ↦ rw (there, found_t, ours, found) (refl, any-removed x a found)
        ]
      ]
    ]
  ]

  -- A removal of a tag that did not raise, from tables whose assignments keep the unique
  -- constraint, shows exactly the tags that were shown for the profile before, without that one.
  pub shown-remove_tag_from_profile :
      (x : String)
      → is_ok (remove_tag_from_profile now event_id tenant profile tag db).0 ≡ true
      → elem x (shown tenant profile (remove_tag_from_profile now event_id tenant profile tag db).1)
        ≡ (not (x == tag) && elem x (shown tenant profile db))
  shown-remove_tag_from_profile x done =
      let after = (remove_tag_from_profile now event_id tenant profile tag db).1 in
      let (tags, rows) = remove_lem x done in
      rw (elem-shown tenant profile x after, elem-shown tenant profile x db, tags, rows)
        (swap (any (is_active_tag tenant x) db.tags) (not (x == tag))
          (any (is_tagged tenant profile x) db.assignments))
    where
      swap : (a b c : Bool) → (a && (b && c)) ≡ (b && (a && c))
      swap a b c = ground arith
