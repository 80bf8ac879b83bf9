-- ===== src/Proactive/Once.antt =====
-- The engine suggests a thing once: while a suggestion is active, a further scan that finds the same
-- returns an active one and makes none.
use kachu_v.Table.{put_row}
use kachu_v.Table.Laws.{any-of_first, first_sound}
use kachu_v.Approvals.Due.{Formats}
use kachu_v.Proactive.Detect.{Nudge, days, detect_nudge, nudge_type}
use kachu_v.Proactive.Scan.{
  FollowUp, follow_up, make_suggestion, no_follow_up, run_once_for_tenant, suggest, with_table,
}
use kachu_v.Prelude.{
  All, Bool, Bool-cases, List, Option, Option-cases, Result, String, [], any, ap, arith, eq_iff,
  eq_refl, false, filter, first, inl, inr, not, ok, order_by_desc, refl, some, subst, sym, true, ℕ,
  ◌&&◌, ◌+◌, ◌==◌, ◌∙◌, ◌∷◌, ◌≡◌, ◌⊎◌,
}
use kachu_v.Table.Counts.{
  All-order_by_desc, any-filter, any-order_by_desc, any-update_where, any_mono, first-none-any,
  put_row-any,
}
use kachu_v.Table.Pairs.{first-All}
use kachu_v.Suggestions.{Suggestion, suggestion_row}
use kachu_v.Suggestions.Store.{
  create_suggestion, expire_due_suggestions, get_latest_active_suggestion, is_due, is_live, is_past,
}
use kachu_v.Customers.{CustomerDb, assignment_row, entity_row, link_row, profile_row, tag_row}
use kachu_v.Proactive.{Settings, Shop, published_row}

-- A suggestion of the tenant and the type that is live.
abbrev pub is_of : String → String → Suggestion → Bool
is_of tenant kind s = s.tenant_id == tenant && s.suggestion_type == kind && is_live s

-- ... and that has not expired at the instant.
abbrev pub is_active_at : ℕ → String → String → Suggestion → Bool
is_active_at now tenant kind s = is_of tenant kind s && not (is_past now s.expires_at)

filter_passes : (p : Suggestion → Bool) (xs : List Suggestion) → All (λ x. p x ≡ true) (filter p xs)
filter_passes p [] = tt
filter_passes p (x ∷ xs) = ground (arith, filter_passes p xs)

module _ (now : ℕ) (tenant kind : String) where
  -- If an active suggestion is there, the query finds one.
  found-of_any :
      (table : List Suggestion)
      → any (is_active_at now tenant kind) table ≡ true
      → (s : Suggestion) × (get_latest_active_suggestion now tenant kind table ≡ some s)
  unfolding get_latest_active_suggestion
  found-of_any table there =
      let fresh : Suggestion → Bool = λ s. not (is_past now s.expires_at) in
      let rows = order_by_desc (λ s. s.created_at) (filter (is_of tenant kind) table) in
      elim (Option-cases (first fresh rows)) [
        | inl missing ↦ absurd (
            cc (
              first-none-any fresh rows missing,
              any-order_by_desc fresh (λ s. s.created_at) (filter (is_of tenant kind) table),
              any-filter (is_of tenant kind) fresh table,
              there,
            ))
        | inr (s, found) ↦ (s, found)
      ]

  -- What the query found stands in the table, is of the tenant and the type, and has not expired.
  found_stands :
      (table : List Suggestion) (s : Suggestion)
      → get_latest_active_suggestion now tenant kind table ≡ some s
      → (is_of tenant kind s ≡ true)
        × ((q : Suggestion → Bool) → q s ≡ true → any q table ≡ true)
        × (is_past now s.expires_at ≡ false)
  unfolding get_latest_active_suggestion
  found_stands table s found =
      let rows = order_by_desc (λ x. x.created_at) (filter (is_of tenant kind) table) in
      (
        first-All (λ x. is_of tenant kind x ≡ true) (λ x. not (is_past now x.expires_at)) s rows
            (All-order_by_desc _ (λ x. x.created_at) (filter (is_of tenant kind) table)
              (filter_passes (is_of tenant kind) table))
            found,
        λ q pass.
            any_mono (λ x. is_of tenant kind x && q x) q table (λ x h. ground arith)
              (sym (any-filter (is_of tenant kind) q table)
                ∙ (sym (any-order_by_desc q (λ x. x.created_at) (filter (is_of tenant kind) table))
                    ∙ any-of_first q (λ x. not (is_past now x.expires_at)) s rows found pass)),
        ground (arith, first_sound (λ x. not (is_past now x.expires_at)) s rows found),
      )

  -- What expires is not active.
  any-expire :
      (scope : Option String) (table : List Suggestion)
      → any (is_active_at now tenant kind) table ≡ true
      → any (is_active_at now tenant kind) (expire_due_suggestions now scope table).1 ≡ true
  unfolding expire_due_suggestions
  any-expire scope table there =
      any-update_where (is_active_at now tenant kind) (is_due now scope) _ table
        (λ x active. ground arith) there

same_suggestion :
    (r s : Suggestion) (f g : FollowUp)
    → ◌≡◌ {A = Result (Option Suggestion × FollowUp)} (ok (some r, f)) (ok (some s, g))
    → r ≡ s
same_suggestion r s f g e = cc

-- A live suggestion of the tenant is one that waits for the owner or was accepted.
is_of_live :
    (tenant kind : String) (s : Suggestion)
    → is_of tenant kind s ≡ true
    → (s.tenant_id ≡ tenant) × ((s.status ≡ "pending") ⊎ (s.status ≡ "accepted"))
is_of_live tenant kind s fits = (
  ground (arith, eq_iff s.tenant_id tenant),
  elim (Bool-cases (s.status == "pending")) [
    | inl waits ↦ inl (ground (arith, eq_iff s.status "pending"))
    | inr not_waits ↦ inr (ground (arith, eq_iff s.status "accepted"))
  ],
)

is_of-type :
    (tenant kind : String) (s : Suggestion) → is_of tenant kind s ≡ true → s.suggestion_type ≡ kind
is_of-type tenant kind s fits = ground (arith, eq_iff s.suggestion_type kind)

-- The state in which a scan looks: what is due has expired.
abbrev pub expired : String → ℕ → Shop → Shop
expired tenant now before =
    with_table before (expire_due_suggestions now (some tenant) before.customers.suggestions).1

module _ {J : Type 0} (formats : Formats J) (settings : Settings) (has_dispatcher : Bool)
    (tenant : String) (shop : Shop) where
  abbrev pub scan : ℕ → String → Shop → Result (Option Suggestion × FollowUp) × Shop
  scan now new_id before =
      run_once_for_tenant formats settings has_dispatcher now new_id tenant before

  -- What is made is of the tenant and the type, expires after a day, and is written.
  make_suggestion_lem :
      (now : ℕ) (new_id : String) (nudge : Nudge) (db : CustomerDb)
      → let (s, table) =
          make_suggestion formats settings has_dispatcher now new_id tenant nudge db in
        (is_of tenant (nudge_type nudge) s ≡ true)
        × (table ≡ put_row s db.suggestions)
        × (s.expires_at ≡ some (now + days 1))
  unfolding make_suggestion create_suggestion
  make_suggestion_lem now new_id nudge db =
      (rw (eq_refl tenant, eq_refl (nudge_type nudge)) refl, refl, refl)

  -- A scan that finds the nudge returns a suggestion of its type that is live, and stands in the
  -- table afterwards.
  scan_lem :
      (now : ℕ) (new_id : String) (nudge : Nudge)
      → detect_nudge formats now tenant (expired tenant now shop) ≡ ok (some nudge)
      → (s : Suggestion) × (f : FollowUp) × ((scan now new_id shop).0 ≡ ok (some s, f))
        × (is_of tenant (nudge_type nudge) s ≡ true)
        × ((q : Suggestion → Bool)
            → q s ≡ true
            → any q (scan now new_id shop).1.customers.suggestions ≡ true)
  unfolding run_once_for_tenant suggest create_suggestion
  scan_lem now new_id nudge detected =
      let kept = (expire_due_suggestions now (some tenant) shop.customers.suggestions).1 in
      elim (Option-cases (get_latest_active_suggestion now tenant (nudge_type nudge) kept)) [
        | inr (s, found) ↦
            let (fits, stands, _) = found_stands now tenant (nudge_type nudge) kept s found in
            let done : scan now new_id shop ≡ (ok (some s, no_follow_up), with_table shop kept) =
              rw (run_once_for_tenant, detected, found) refl in
            rw done (s, no_follow_up, refl, fits, stands)
        | inl missing ↦
            let before = with_table shop kept in
            let (s, table) =
              make_suggestion formats settings has_dispatcher now new_id tenant nudge
                before.customers in
            let f = follow_up settings has_dispatcher nudge s.id tenant before in
            let (fits, written, _) = make_suggestion_lem now new_id nudge before.customers in
            let done : scan now new_id shop ≡ (ok (some s, f), with_table before table) =
              rw (run_once_for_tenant, detected, missing) refl in
            rw done (s, f, refl, fits, λ q pass. rw written (put_row-any q s kept pass))
      ]

  -- A scan that returned a suggestion is followed by one that finds the same thing while the
  -- suggestion has not expired: it returns a suggestion of the tenant and of that type, pending or
  -- accepted and not expired, makes none and starts nothing.
  pub run_once_for_tenant_again :
      (now now' : ℕ) (new_id new_id' : String) (nudge : Nudge) (s : Suggestion) (f : FollowUp)
      → detect_nudge formats now tenant (expired tenant now shop) ≡ ok (some nudge)
      → (scan now new_id shop).0 ≡ ok (some s, f)
      → is_past now' s.expires_at ≡ false
      → let shop' = (scan now new_id shop).1 in
        detect_nudge formats now' tenant (expired tenant now' shop') ≡ ok (some nudge)
        → (s' : Suggestion) × (scan now' new_id' shop'
            ≡ (ok (some s', no_follow_up), expired tenant now' shop'))
          × (s'.suggestion_type ≡ s.suggestion_type)
          × (s'.tenant_id ≡ tenant)
          × ((s'.status ≡ "pending") ⊎ (s'.status ≡ "accepted"))
          × (is_past now' s'.expires_at ≡ false)
  unfolding run_once_for_tenant
  run_once_for_tenant_again now now' new_id new_id' nudge s f detected returned lasting again =
      let kind = nudge_type nudge in
      let shop' = (scan now new_id shop).1 in
      let (r, g, got, fits, stands) = scan_lem now new_id nudge detected in
      let same : r ≡ s = same_suggestion r s g f (sym got ∙ returned) in
      let active : is_active_at now' tenant kind r ≡ true =
        ground (arith, subst (λ x. is_past now' x.expires_at ≡ false) (sym same) lasting) in
      let kept =
        any-expire now' tenant kind (some tenant) shop'.customers.suggestions
          (stands (is_active_at now' tenant kind) active) in
      let (s', found) =
        found-of_any now' tenant kind (expired tenant now' shop').customers.suggestions kept in
      let (fits', _, fresh) =
        found_stands now' tenant kind (expired tenant now' shop').customers.suggestions s' found in
      (
        s',
        rw (run_once_for_tenant, again, found) refl,
        is_of-type tenant kind s' fits'
            ∙ (sym (is_of-type tenant kind r fits) ∙ ap (λ x. x.suggestion_type) same),
        (is_of_live tenant kind s' fits').0,
        (is_of_live tenant kind s' fits').1,
        fresh,
      )
