-- ===== src/Customers/Profiles/Contact.antt =====
-- A LINE user who writes again is the same customer (`resolve_or_create_line_profile`).
use kachu_v.Table.Laws.{
  first-put_row_found, first-put_row_new, first_sound, get_row-id, get_row-put_row,
}
use kachu_v.Prelude.{
  Option, Option-cases, String, arith, eq_refl, first, inl, inr, none, ok, refl, some, subst, ℕ,
  ◌+◌, ◌≡◌, ◌⊎◌,
}
use kachu_v.Table.{IsKeyed, get_row, put_row}
use kachu_v.Customers.{
  ChannelEntity, CustomerDb, Profile, ProfileLink, assignment_row, entity_row, link_row,
  profile_row, tag_row,
}
use kachu_v.Customers.Profiles.{
  create_profile, is_entity, is_link, known_profile, linked_profile, new_entity, new_link,
  new_profile, resolve_or_create_line_profile, touch, touched,
}

-- The user's identity, its link and the linked profile are there.
abbrev pub IsKnown : String → String → Profile → CustomerDb → Type 0
IsKnown tenant user p db =
    (e : ChannelEntity) × (l : ProfileLink) × (first (is_entity tenant "line" user) db.entities
      ≡ some e)
    × (first (is_link tenant e.id) db.links ≡ some l)
    × (get_row l.profile_id db.profiles ≡ some p)

module _ (now : ℕ) (profile_id entity_id link_id tenant user : String) where
  pub known_lem :
      (db : CustomerDb) (p : Profile)
      → IsKnown tenant user p db
      → (resolve_or_create_line_profile now profile_id entity_id link_id tenant user db).0
        ≡ ok (touched now p)
  unfolding resolve_or_create_line_profile known_profile linked_profile touch
  known_lem db p (e, l, found_e, found_l, found_p) =
      rw (found_e, found_l, found_p, resolve_or_create_line_profile, known_profile, linked_profile)
        refl

  abbrev looked_up : CustomerDb → Option (ChannelEntity × Profile)
  looked_up db = known_profile tenant (first (is_entity tenant "line" user) db.entities) db

  -- The user is not known, or is, by rows that are there.
  contact_cases :
      (db : CustomerDb)
      → (looked_up db ≡ none)
        ⊎ ((e : ChannelEntity) × (l : ProfileLink) × (p : Profile) × (first
                (is_entity tenant "line" user)
                db.entities
              ≡ some e)
            × (first (is_link tenant e.id) db.links ≡ some l)
            × (get_row l.profile_id db.profiles ≡ some p)
            × (looked_up db ≡ some (e, p)))
  unfolding known_profile linked_profile
  contact_cases db = elim (Option-cases (first (is_entity tenant "line" user) db.entities)) [
    | inl no_e ↦ inl (rw (no_e, known_profile) refl)
    | inr (e, found_e) ↦ elim (Option-cases (first (is_link tenant e.id) db.links)) [
      | inl no_l ↦ inl (rw (found_e, no_l, known_profile, linked_profile) refl)
      | inr (l, found_l) ↦ elim (Option-cases (get_row l.profile_id db.profiles)) [
        | inl no_p ↦ inl (rw (found_e, found_l, no_p, known_profile, linked_profile) refl)
        | inr (p, found_p) ↦ inr (
          e,
          l,
          p,
          found_e,
          found_l,
          found_p,
          rw (found_e, found_l, found_p, known_profile, linked_profile) refl,
        )
      ]
    ]
  ]

  created-IsKnown :
      (db : CustomerDb) (p : Profile)
      → first (is_link tenant entity_id) db.links ≡ none
      → (create_profile now profile_id entity_id link_id tenant user db).0 ≡ ok p
      → IsKnown tenant user p (create_profile now profile_id entity_id link_id tenant user db).1
  unfolding create_profile new_profile
  created-IsKnown db p unlinked done =
      elim (Option-cases (first (is_entity tenant "line" user) db.entities)) [
        | inr (e, there) ↦ absurd (cc (rw (there, create_profile) at done))
        | inl free ↦
            let q = new_profile now profile_id tenant in
            let e = new_entity now entity_id tenant user in
            let l = new_link now link_id tenant profile_id entity_id in
            let same : q ≡ p = cc (rw (free, create_profile) at done) in
            rw (free, create_profile)
              (
                e,
                l,
                first-put_row_new (is_entity tenant "line" user) e db.entities free
                    (ground (arith, eq_refl tenant, eq_refl user)),
                first-put_row_new (is_link tenant entity_id) l db.links unlinked
                    (ground (arith, eq_refl tenant, eq_refl entity_id)),
                subst (λ r. get_row profile_id (put_row q db.profiles) ≡ some r) same
                    (rw (get_row-put_row profile_id q db.profiles, eq_refl profile_id) refl),
              )
      ]

  -- After a contact that did not raise, the user is known as the profile that it returned.
  contact-IsKnown :
      (db : CustomerDb) (p : Profile)
      → IsKeyed db.entities
      → first (is_link tenant entity_id) db.links ≡ none
      → (resolve_or_create_line_profile now profile_id entity_id link_id tenant user db).0 ≡ ok p
      → IsKnown tenant user p
          (resolve_or_create_line_profile now profile_id entity_id link_id tenant user db).1
  unfolding resolve_or_create_line_profile touch
  contact-IsKnown db p keyed unlinked done = elim (contact_cases db) [
    | inl unknown ↦
        rw (unknown, resolve_or_create_line_profile)
          (created-IsKnown db p unlinked (rw (unknown, resolve_or_create_line_profile) at done))
    | inr (e, l, q, found_e, found_l, found_q, known) ↦
        let e' = record e { occurred_at = some now; received_at = some now; updated_at = now } in
        let same : touched now q ≡ p = cc (rw (known, resolve_or_create_line_profile) at done) in
        rw (known, resolve_or_create_line_profile)
          (subst (λ r. IsKnown tenant user r (touch now e q db).1) same
            (
              e',
              l,
              first-put_row_found (is_entity tenant "line" user) e' e db.entities keyed found_e refl
                  (first_sound (is_entity tenant "line" user) e db.entities found_e),
              found_l,
              rw
                  (
                    get_row-put_row l.profile_id (touched now q) db.profiles,
                    get_row-id l.profile_id q db.profiles found_q,
                    eq_refl l.profile_id,
                  )
                  refl,
            ))
  ]

-- After a contact of a LINE user that returned a profile, under a new key for the identity that no
-- link uses, the next contact of that user returns the same profile, with one more interaction and
-- the time of that contact.
pub resolve_or_create_line_profile_again :
    (now later : ℕ)
    (profile_id entity_id link_id profile_id' entity_id' link_id' tenant user : String)
    (db : CustomerDb) (p : Profile)
    → IsKeyed db.entities
    → first (is_link tenant entity_id) db.links ≡ none
    → (resolve_or_create_line_profile now profile_id entity_id link_id tenant user db).0 ≡ ok p
    → let (_, after) =
        resolve_or_create_line_profile now profile_id entity_id link_id tenant user db in
      (resolve_or_create_line_profile later profile_id' entity_id' link_id' tenant user after).0
      ≡ ok (record p {
        last_interaction_at = some later;
        interaction_count = p.interaction_count + 1;
        updated_at = later;
      })
resolve_or_create_line_profile_again now later profile_id entity_id link_id profile_id' entity_id'
      link_id' tenant user db p keyed unlinked done =
    let after =
      (resolve_or_create_line_profile now profile_id entity_id link_id tenant user db).1 in
    known_lem later profile_id' entity_id' link_id' tenant user after p
      (contact-IsKnown now profile_id entity_id link_id tenant user db p keyed unlinked done)
