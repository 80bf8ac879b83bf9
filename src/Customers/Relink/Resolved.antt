-- ===== src/Customers/Relink/Resolved.antt =====
-- After a relink, the user is the target customer.
use kachu_v.Customers.Profiles.Contact.{known_lem}
use kachu_v.Table.Pairs.{first-All}
use kachu_v.Table.Laws.{first-put_row_found, first-put_row_new, first_sound}
use kachu_v.Prelude.{
  All, Bool, Bool-cases, Error, Option, Option-cases, Result, String, any, ap, arith, eq_iff,
  eq_refl, first, if◌then◌else◌, inl, inr, integrity_error, is_ok, lookup_error, none, ok, raise,
  refl, some, strip, subst, sym, true, value_error, ℕ, ◌==◌, ◌∙◌, ◌≡◌,
}
use kachu_v.Table.{IsKeyed, get_row, put_row}
use kachu_v.Handoff.{lock_row, normal_channel}
use kachu_v.Customers.{
  ChannelEntity, CustomerDb, Profile, ProfileLink, add_timeline_event, assignment_row, entity_row,
  link_row, profile_row, tag_row,
}
use kachu_v.Customers.Profiles.{is_entity, is_link, resolve_or_create_line_profile, touched}
use kachu_v.Customers.Relink.{
  Relink, add_link, manual_link, move_link, moved_out_event, relink_profile_channel_entity,
  relinked_event, relinked_link,
}

-- The identity of the user and its link to the target are there.
abbrev pub IsLinked : String → String → String → String → Profile → CustomerDb → Type 0
IsLinked tenant channel user target p db =
    (e : ChannelEntity) × (l : ProfileLink) × (first (is_entity tenant channel user) db.entities
      ≡ some e)
    × (first (is_link tenant e.id) db.links ≡ some l)
    × (l.profile_id ≡ target)
    × (get_row target db.profiles ≡ some p)

-- What the links and identities rely on: unique keys, and profile identifiers without blanks.
abbrev pub IsTidy : CustomerDb → Type 0
IsTidy db =
    IsKeyed db.links × IsKeyed db.entities × All (λ l. strip l.profile_id ≡ l.profile_id) db.links

module _ (now : ℕ) (tenant : String) (r : Relink) (target : String) (p : Profile) where
  abbrev Linked : CustomerDb → Type 0
  Linked db = IsLinked tenant r.channel r.user target p db

  out-Linked :
      (out_id : String) (source : Option Profile) (db : CustomerDb)
      → Linked db
      → Linked (moved_out_event now out_id tenant r source target db)
  unfolding moved_out_event add_timeline_event
  out-Linked out_id none db h = h
  out-Linked out_id (some source) db h = h

  event-Linked :
      (event_id source : String) (db : CustomerDb)
      → Linked db
      → Linked (relinked_event now event_id tenant r source target db)
  unfolding relinked_event add_timeline_event
  event-Linked event_id source db h = h

  move_link-Linked :
      (out_id event_id : String) (e : ChannelEntity) (l : ProfileLink) (db : CustomerDb)
      → IsTidy db
      → first (is_entity tenant r.channel r.user) db.entities ≡ some e
      → first (is_link tenant e.id) db.links ≡ some l
      → get_row target db.profiles ≡ some p
      → Linked (move_link now out_id event_id tenant r target e l db).1
  unfolding move_link
  move_link-Linked out_id event_id e l db (keyed, keyed_e, tidy) found_e found_l there =
      elim (Bool-cases (strip l.profile_id == target)) [
        | inl same ↦
            rw (move_link, same)
              (
                e,
                l,
                found_e,
                found_l,
                sym (
                      first-All (λ x. strip x.profile_id ≡ x.profile_id) (is_link tenant e.id) l
                        db.links tidy found_l)
                    ∙ ground (arith, eq_iff (strip l.profile_id) target),
                there,
              )
        | inr other ↦
            let source = strip l.profile_id in
            let written : CustomerDb = record db {
              links = put_row (relinked_link now r target l) db.links;
              entities = put_row (record e { updated_at = now }) db.entities;
            } in
            let found : Option Profile =
              if source == "" then none else get_row source db.profiles in
            rw (move_link, other)
              (event-Linked event_id source
                (moved_out_event now out_id tenant r found target written)
                (out-Linked out_id found written (
                  record e { updated_at = now },
                  relinked_link now r target l,
                  first-put_row_found (is_entity tenant r.channel r.user)
                      (record e { updated_at = now }) e db.entities keyed_e found_e refl
                      (first_sound (is_entity tenant r.channel r.user) e db.entities found_e),
                  first-put_row_found (is_link tenant e.id) (relinked_link now r target l) l
                      db.links keyed found_l refl
                      (first_sound (is_link tenant e.id) l db.links found_l),
                  refl,
                  there,
                )))
      ]

  add_link-Linked :
      (link_id event_id : String) (e : ChannelEntity) (db : CustomerDb)
      → first (is_entity tenant r.channel r.user) db.entities ≡ some e
      → first (is_link tenant e.id) db.links ≡ none
      → get_row target db.profiles ≡ some p
      → Linked (add_link now link_id event_id tenant r target e db).1
  unfolding add_link
  add_link-Linked link_id event_id e db found_e unlinked there =
      let l = manual_link now link_id tenant r target e in
      event-Linked event_id "" (record db { links = put_row l db.links })
        (
          e,
          l,
          found_e,
          first-put_row_new (is_link tenant e.id) l db.links unlinked
              (rw (eq_refl tenant, eq_refl e.id) refl),
          refl,
          there,
        )

-- A relink that returned a link has linked the identity to a customer of the tenant.
abbrev Relinked :
    String
    → Relink
    → String
    → CustomerDb
    → Result (ProfileLink × ChannelEntity) × CustomerDb
    → Type 0
Relinked tenant r target db after =
    is_ok after.0 ≡ true
    → (p : Profile) × (get_row target db.profiles ≡ some p)
      × (p.tenant_id ≡ tenant)
      × IsLinked tenant r.channel r.user target p after.1

-- Some link has the identity.
abbrev is_bound : String → CustomerDb → Bool
is_bound entity db = any (λ l. l.channel_entity_id == entity) db.links

relink_lem :
    (now : ℕ) (link_id out_id event_id tenant target channel user actor reason : String)
    (db : CustomerDb)
    → IsTidy db
    → Relinked tenant
        (record {
          channel = normal_channel channel;
          user = strip user;
          actor = actor;
          reason = reason;
        })
        target
        db
        (relink_profile_channel_entity now link_id out_id event_id tenant target channel user actor
          reason db)
unfolding relink_profile_channel_entity
relink_lem now link_id out_id event_id tenant target channel user actor reason db tidy =
    let r : Relink = record {
      channel = normal_channel channel;
      user = strip user;
      actor = actor;
      reason = reason;
    } in
    let call =
      relink_profile_channel_entity now link_id out_id event_id tenant target channel user actor
        reason db in
    let refused : (e : Error) → call ≡ (raise e, db) → Relinked tenant r target db call =
      λ e failed done. absurd (cc (failed, done)) in
    elim (Bool-cases (strip user == "")) [
      | inl blank ↦
          refused (value_error "external_user_id is required")
            (rw (relink_profile_channel_entity, blank) refl)
      | inr named ↦ elim (Option-cases (get_row target db.profiles)) [
        | inl missing ↦
            refused (lookup_error "target profile not found")
              (rw (relink_profile_channel_entity, named, missing) refl)
        | inr (p, there) ↦ elim (Bool-cases (p.tenant_id == tenant)) [
          | inr foreign ↦
              refused (lookup_error "target profile not found")
                (rw (relink_profile_channel_entity, named, there, foreign) refl)
          | inl ours ↦ elim (Bool-cases (strip p.merged_into_profile_id == "")) [
            | inr merged ↦
                refused (value_error "target profile is merged")
                  (rw (relink_profile_channel_entity, named, there, ours, merged) refl)
            | inl whole ↦
                elim (Option-cases (first (is_entity tenant r.channel r.user) db.entities)) [
                  | inl unknown ↦
                      refused (lookup_error "channel entity not found") (
                        rw (relink_profile_channel_entity, named, there, ours, whole, unknown) refl)
                  | inr (e, found_e) ↦ λ good. (
                    p,
                    there,
                    ground (arith, eq_iff p.tenant_id tenant),
                    elim (Option-cases (first (is_link tenant e.id) db.links)) [
                      | inl unlinked ↦ elim (Bool-cases (is_bound e.id db)) [
                        | inl bound ↦
                            let failed : call ≡ (raise integrity_error, db) =
                              rw
                                (
                                  relink_profile_channel_entity, named, there, ours, whole, found_e,
                                  unlinked, bound,
                                )
                                refl in
                            absurd (cc (failed, good))
                        | inr free ↦
                            let after = add_link now link_id event_id tenant r target e db in
                            let done : call ≡ (ok after.0, after.1) =
                              rw
                                (
                                  relink_profile_channel_entity, named, there, ours, whole, found_e,
                                  unlinked, free,
                                )
                                refl in
                            subst (λ q. IsLinked tenant r.channel r.user target p q.1) (sym done)
                              (add_link-Linked now tenant r target p link_id event_id e db found_e
                                unlinked there)
                      ]
                      | inr (l, found_l) ↦
                          let after = move_link now out_id event_id tenant r target e l db in
                          let done : call ≡ (ok after.0, after.1) =
                            rw
                              (
                                relink_profile_channel_entity, named, there, ours, whole, found_e,
                                found_l,
                              )
                              refl in
                          subst (λ q. IsLinked tenant r.channel r.user target p q.1) (sym done)
                            (move_link-Linked now tenant r target p out_id event_id e l db tidy
                              found_e found_l there)
                    ],
                  )
                ]
          ]
        ]
      ]
    ]

-- After a relink of a LINE user that returned a link, the user's next contact returns the target
-- customer, with one more interaction, if keys are unique and profile identifiers have no blanks.
pub relink_profile_channel_entity_resolves :
    (now now' : ℕ) (link_id out_id event_id tenant target user actor reason : String)
    (profile_id entity_id link_id' : String) (db : CustomerDb) (done : ProfileLink × ChannelEntity)
    → IsTidy db
    → let after =
        relink_profile_channel_entity now link_id out_id event_id tenant target "line" user actor
          reason db in
      after.0 ≡ ok done
      → (p : Profile) × (get_row target db.profiles ≡ some p)
        × (p.tenant_id ≡ tenant)
        × ((resolve_or_create_line_profile now' profile_id entity_id link_id' tenant
              (strip user)
              after.1).0
            ≡ ok (touched now' p))
unfolding normal_channel strip
relink_profile_channel_entity_resolves now now' link_id out_id event_id tenant target user actor
      reason profile_id entity_id link_id' db done tidy returned =
    let after =
      relink_profile_channel_entity now link_id out_id event_id tenant target "line" user actor
        reason db in
    let (p, there, ours, (e, l, found_e, found_l, to_target, still)) =
      relink_lem now link_id out_id event_id tenant target "line" user actor reason db tidy
        (ap is_ok returned) in
    (
      p,
      there,
      ours,
      known_lem now' profile_id entity_id link_id' tenant (strip user) after.1 p (
        e,
        l,
        found_e,
        found_l,
        subst (λ k. get_row k after.1.profiles ≡ some p) (sym to_target) still,
      ),
    )
