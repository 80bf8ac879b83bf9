-- ===== src/Customers/Merge/Consent.antt =====
-- Consent survives a merge: `merge_customer_profiles` and then `get_profile_line_user_ids`.
use kachu_v.Prelude.{
  All, Bool, Bool-cases, List, Option-cases, String, [], ap, arith, count, elem, eq_iff, false, inl,
  inr, is_ok, none, refl, some, subst, sym, true, ℕ, ◌&&◌, ◌==◌, ◌||◌, ◌∷◌, ◌≡◌,
}
use kachu_v.Table.{get_row}
use kachu_v.Recipients.{gather}
use kachu_v.Customers.{
  CustomerDb, Profile, ProfileLink, assignment_row, entity_row, link_row, profile_row, tag_row,
}
use kachu_v.Customers.Profiles.{get_profile_line_user_ids, reached, reached_users}
use kachu_v.Customers.Merge.{is_link_of, merge_customer_profiles}
use kachu_v.Customers.Merge.Effects.{
  merge_customer_profiles_links, merge_customer_profiles_profiles,
}

-- The customer must not be sent anything.
abbrev pub is_silenced : Profile → Bool
is_silenced p = p.opt_out || p.status == "blacklisted"

-- A link reaches nobody, if it is one of a silenced profile, or of another tenant, or of a
-- profile that was not asked for.
reached-silenced :
    (tenant : String) (ids : List String) (db : CustomerDb) (p : Profile) (l : ProfileLink)
    → get_row l.profile_id db.profiles ≡ some p
    → is_silenced p ≡ true
    → reached tenant ids db l ≡ none
unfolding reached
reached-silenced tenant ids db p l found silenced =
    elim (Option-cases (get_row l.channel_entity_id db.entities)) [
      | inl none_e ↦ rw (none_e, reached) refl
      | inr (e, found_e) ↦ rw (found_e, found, reached) (ground arith)
    ]

reached-other :
    (tenant : String) (ids : List String) (db : CustomerDb) (l : ProfileLink)
    → (l.tenant_id == tenant && elem l.profile_id ids) ≡ false
    → reached tenant ids db l ≡ none
unfolding reached
reached-other tenant ids db l other =
    elim (Option-cases (get_row l.channel_entity_id db.entities)) [
      | inl none_e ↦ rw (none_e, reached) refl
      | inr (e, found_e) ↦ elim (Option-cases (get_row l.profile_id db.profiles)) [
        | inl none_p ↦ rw (found_e, none_p, reached) refl
        | inr (p, found_p) ↦ rw (found_e, found_p, reached) (ground arith)
      ]
    ]

reached_users-none :
    (tenant : String) (ids : List String) (db : CustomerDb) (ls : List ProfileLink)
    → All (λ l. reached tenant ids db l ≡ none) ls
    → reached_users tenant ids db ls ≡ []
unfolding reached_users
reached_users-none tenant ids db [] h = refl
reached_users-none tenant ids db (l ∷ ls) h =
    rw (h.0, reached_users) (reached_users-none tenant ids db ls h.1)

-- No link of the tenant belongs to the source after its links have moved.
links-moved :
    (tenant source : String) (links : List ProfileLink)
    → count (is_link_of tenant source) links ≡ 0
    → All (λ l. is_link_of tenant source l ≡ false) links
links-moved tenant source [] h = tt
links-moved tenant source (l ∷ links) h = ground (arith, links-moved tenant source links)

All-map :
    (P Q : ProfileLink → Type 0) (links : List ProfileLink)
    → ((l : ProfileLink) → P l → Q l)
    → All P links
    → All Q links
All-map P Q [] f h = tt
All-map P Q (l ∷ links) f h = (f l h.0, All-map P Q links f h.1)

-- After a merge that did not raise, if the source or the target had opted out or was
-- blacklisted, then asking for the LINE users of the two profiles returns nobody.
pub get_profile_line_user_ids-merge_customer_profiles :
    (now : ℕ) (event_id audit_id tenant actor reason source_id target_id : String) (db : CustomerDb)
    (source target : Profile)
    → get_row source_id db.profiles ≡ some source
    → get_row target_id db.profiles ≡ some target
    → (is_silenced source || is_silenced target) ≡ true
    → is_ok
        (merge_customer_profiles now event_id audit_id tenant source_id target_id actor reason db).0
      ≡ true
    → let (_, after) =
        merge_customer_profiles now event_id audit_id tenant source_id target_id actor reason db in
      get_profile_line_user_ids tenant (source_id ∷ target_id ∷ []) after ≡ []
unfolding get_profile_line_user_ids gather
get_profile_line_user_ids-merge_customer_profiles now event_id audit_id tenant actor reason
      source_id target_id db source target found_s found_t silenced done =
    let after =
      (merge_customer_profiles now event_id audit_id tenant source_id target_id actor reason
        db).1 in
    let (kept, merged, found_k, found_m, _, opt_out, blacklisted, _, _) =
      merge_customer_profiles_profiles now event_id audit_id tenant actor reason source_id target_id
        db done source target found_s found_t in
    let silent : is_silenced kept ≡ true = rw (opt_out, blacklisted) (ground arith) in
    let moved =
      (merge_customer_profiles_links now event_id audit_id tenant actor reason source_id target_id
        db done).1 in
    let none_reached : All (λ l. reached tenant (source_id ∷ target_id ∷ []) after l ≡ none)
        after.links =
      All-map _ _ after.links
        (λ l away. elim (Bool-cases (l.profile_id == target_id)) [
          | inl same ↦
              reached-silenced tenant (source_id ∷ target_id ∷ []) after kept l
                (subst (λ k. get_row k after.profiles ≡ some kept)
                  (sym (ground (arith, eq_iff l.profile_id target_id))) found_k)
                silent
          | inr other ↦ reached-other tenant (source_id ∷ target_id ∷ []) after l (
              ground (
                arith,
                eq_iff l.profile_id source_id,
                eq_iff source_id l.profile_id,
                eq_iff target_id l.profile_id,
                eq_iff l.profile_id target_id,
              ))
        ])
        (links-moved tenant source_id after.links moved) in
    ap gather
      (reached_users-none tenant (source_id ∷ target_id ∷ []) after after.links none_reached)
