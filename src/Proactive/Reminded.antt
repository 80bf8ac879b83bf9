-- ===== src/Proactive/Reminded.antt =====
-- A suggestion is reminded of once.
use kachu_v.Table.Counts.{any-filter, any-order_by_desc, any_mono}
use kachu_v.Proactive.Scan.{has_recipients}
use kachu_v.Table.Laws.{get_row-id, get_row-put_row}
use kachu_v.Prelude.{
  Bool, Bool-cases, List, Option-cases, String, [], any, ap, arith, eq_iff, eq_refl, false, filter,
  inl, inr, none, ok, refl, some, subst, sym, true, ℕ, ◌&&◌, ◌+◌, ◌==◌, ◌∙◌, ◌∷◌, ◌≡◌, ◌≢◌, ◌⊎◌,
}
use kachu_v.Table.{get_row, put_row}
use kachu_v.Suggestions.{Snapshot, Suggestion, Value, instant, number, suggestion_row}
use kachu_v.Suggestions.Store.{
  expire_due_suggestions, is_live, list_pending_suggestions, update_suggestion_status, with_status,
}
use kachu_v.Decisions.{has_field, set_field}
use kachu_v.Proactive.{Settings, Shop, published_row, resolve_tenant_line_recipients}
use kachu_v.Proactive.Remind.{
  needs_reminder, remind_rows, reminded_snapshot, send_due_reminders_for_tenant,
}

-- The suggestion under the key is marked as reminded of, so that no scan reminds of it again.
abbrev pub IsMarked : String → List Suggestion → Type 0
IsMarked k table =
    (s : Suggestion) × (get_row k table ≡ some s)
    × (has_field "reminded_at" s.result_snapshot ≡ true)

has_field-set_field :
    (k : String) (v : Value) (fs : Snapshot) → has_field k (set_field k v fs) ≡ true
has_field-set_field k v [] = rw (eq_refl k) refl
has_field-set_field k v (f ∷ fs) = ground (arith, has_field-set_field k v fs, eq_refl k)

has_field-set_other :
    (k j : String) (v : Value) (fs : Snapshot)
    → has_field k fs ≡ true
    → has_field k (set_field j v fs) ≡ true
has_field-set_other k j v [] h = absurd (cc)
has_field-set_other k j v (f ∷ fs) h =
    ground (arith, has_field-set_other k j v fs, eq_iff f.0 j, eq_iff f.0 k, eq_iff j k)

module _ (now : ℕ) where
  marked_snapshot : (fs : Snapshot) → has_field "reminded_at" (reminded_snapshot now fs) ≡ true
  marked_snapshot fs =
      has_field-set_other "reminded_at" "reminder_count" (number 1)
        (set_field "reminded_at" (instant now) fs)
        (has_field-set_field "reminded_at" (instant now) fs)

  abbrev write : Suggestion → List Suggestion → List Suggestion
  write s table =
      (update_suggestion_status now s.id s.status (some (reminded_snapshot now s.result_snapshot))
        none table).1

  -- The write for a suggestion marks it, if it is stored, and keeps the other marks.
  write_cases :
      (s : Suggestion) (table : List Suggestion)
      → (get_row s.id table ≡ none) × (write s table ≡ table)
        ⊎ ((x : Suggestion) × (get_row s.id table ≡ some x)
            × (write s table
                ≡ put_row
                    (with_status now s.status (some (reminded_snapshot now s.result_snapshot)) x)
                    table))
  unfolding update_suggestion_status
  write_cases s table = elim (Option-cases (get_row s.id table)) [
    | inl missing ↦
        let e : update_suggestion_status now s.id s.status
              (some (reminded_snapshot now s.result_snapshot)) none table
            ≡ (ok none, table) =
          rw (update_suggestion_status, missing) refl in
        inl (missing, ap (λ q. q.1) e)
    | inr (x, found) ↦
        let r = with_status now s.status (some (reminded_snapshot now s.result_snapshot)) x in
        let e : update_suggestion_status now s.id s.status
              (some (reminded_snapshot now s.result_snapshot)) none table
            ≡ (ok (some r), put_row r table) =
          rw (update_suggestion_status, found) refl in
        inr (x, found, ap (λ q. q.1) e)
  ]

  write-IsMarked :
      (s : Suggestion) (k : String) (table : List Suggestion)
      → (IsMarked k table ⊎ (s.id ≡ k) × (get_row k table ≢ none))
      → IsMarked k (write s table)
  unfolding with_status
  write-IsMarked s k table h = elim (write_cases s table) [
    | inl (missing, e) ↦ elim h [
      | inl marked ↦ subst (IsMarked k) (sym e) marked
      | inr (same, there) ↦ absurd (there (subst (λ j. get_row j table ≡ none) same missing))
    ]
    | inr (x, found, e) ↦
        let r = with_status now s.status (some (reminded_snapshot now s.result_snapshot)) x in
        let id : r.id ≡ s.id = get_row-id s.id x table found in
        let at_k = get_row-put_row k r table in
        subst (IsMarked k) (sym e) (elim (Bool-cases (r.id == k)) [
          | inl same ↦ (r, at_k ∙ rw same refl, marked_snapshot s.result_snapshot)
          | inr other ↦ elim h [
            | inl (y, here, marked) ↦ (y, at_k ∙ rw other here, marked)
            | inr (same, there) ↦ absurd (cc (other, id ∙ same, eq_refl k))
          ]
        ])
  ]

  still_stored :
      (s : Suggestion) (k : String) (table : List Suggestion)
      → get_row k table ≢ none
      → get_row k (write s table) ≢ none
  still_stored s k table there = elim (write_cases s table) [
    | inl (missing, e) ↦ λ f. there (subst (λ t. get_row k t ≡ none) e f)
    | inr (x, found, e) ↦ λ f.
        let r = with_status now s.status (some (reminded_snapshot now s.result_snapshot)) x in
        let gone : get_row k (put_row r table) ≡ none = subst (λ t. get_row k t ≡ none) e f in
        elim (Bool-cases (r.id == k)) [
          | inl same ↦
              let here : get_row k (put_row r table) ≡ some r =
                get_row-put_row k r table ∙ rw same refl in
              absurd (cc (here, gone))
          | inr other ↦
              let before : get_row k (put_row r table) ≡ get_row k table =
                get_row-put_row k r table ∙ rw other refl in
              there (sym before ∙ gone)
        ]
  ]

  -- The loop keeps marks.
  remind_rows_keeps :
      (rows : List Suggestion) (k : String) (sent : ℕ) (table : List Suggestion)
      → IsMarked k table
      → IsMarked k (remind_rows now rows sent table).1
  unfolding remind_rows
  remind_rows_keeps [] k sent table marked = marked
  remind_rows_keeps (s ∷ rows) k sent table marked = elim (Bool-cases (needs_reminder now s)) [
    | inl due ↦
        rw (remind_rows, due)
          (remind_rows_keeps rows k (sent + 1) (write s table)
            (write-IsMarked s k table (inl marked)))
    | inr early ↦ rw (remind_rows, early) (remind_rows_keeps rows k sent table marked)
  ]

  -- The loop marks each stored suggestion that it reminds of.
  remind_rows_marks :
      (rows : List Suggestion) (k : String) (sent : ℕ) (table : List Suggestion)
      → any (λ s. s.id == k && needs_reminder now s) rows ≡ true
      → get_row k table ≢ none
      → IsMarked k (remind_rows now rows sent table).1
  unfolding remind_rows
  remind_rows_marks [] k sent table there stored = absurd (cc)
  remind_rows_marks (s ∷ rows) k sent table there stored =
      elim (Bool-cases (needs_reminder now s)) [
        | inr early ↦
            rw (remind_rows, early) (remind_rows_marks rows k sent table (ground arith) stored)
        | inl due ↦ elim (Bool-cases (s.id == k)) [
          | inl same ↦
              rw (remind_rows, due)
                (remind_rows_keeps rows k (sent + 1) (write s table)
                  (write-IsMarked s k table (inr (ground (arith, eq_iff s.id k), stored))))
          | inr other ↦
              rw (remind_rows, due)
                (remind_rows_marks rows k (sent + 1) (write s table) (ground arith)
                  (still_stored s k table stored))
        ]
      ]

any-of_get_row :
    (p : Suggestion → Bool) (k : String) (s : Suggestion) (table : List Suggestion)
    → get_row k table ≡ some s
    → p s ≡ true
    → any (λ x. x.id == k && p x) table ≡ true
any-of_get_row p k s [] found pass = absurd (cc)
any-of_get_row p k s (x ∷ xs) found pass = elim (Bool-cases (x.id == k)) [
  | inl same ↦
      let this : x ≡ s = cc (rw same at found) in
      rw (same, subst (λ y. p y ≡ true) (sym this) pass) refl
  | inr other ↦ rw other (any-of_get_row p k s xs (rw other at found) pass)
]

-- A suggestion that is reminded of is marked: after the reminders of a tenant that has recipients,
-- each live suggestion of the tenant that was to be reminded of is still stored and needs no
-- reminder at any time.
pub send_due_reminders_for_tenant_once :
    (settings : Settings) (now : ℕ) (tenant k : String) (s : Suggestion) (shop : Shop)
    → (settings.access_token == "") ≡ false
    → has_recipients (resolve_tenant_line_recipients settings tenant shop.memberships) ≡ true
    → get_row k (expire_due_suggestions now (some tenant) shop.customers.suggestions).1 ≡ some s
    → (s.tenant_id ≡ tenant) × (is_live s ≡ true) × (needs_reminder now s ≡ true)
    → (s' : Suggestion) × (get_row k
          (send_due_reminders_for_tenant settings now tenant shop).1.customers.suggestions
        ≡ some s')
      × ((t : ℕ) → needs_reminder t s' ≡ false)
unfolding send_due_reminders_for_tenant list_pending_suggestions needs_reminder
send_due_reminders_for_tenant_once settings now tenant k s shop token recipients found
      (ours, live, due) =
    let kept = (expire_due_suggestions now (some tenant) shop.customers.suggestions).1 in
    let mine : Suggestion → Bool = λ x. x.tenant_id == tenant && is_live x in
    let listed : any (λ x. x.id == k && needs_reminder now x) (list_pending_suggestions tenant kept)
        ≡ true =
      any-order_by_desc (λ x. x.id == k && needs_reminder now x) (λ x. x.created_at)
        (filter mine kept)
      ∙ (any-filter mine (λ x. x.id == k && needs_reminder now x) kept
          ∙ any_mono (λ x. x.id == k && (mine x && needs_reminder now x)) _ kept
              (λ x h. ground arith)
              (any-of_get_row (λ x. mine x && needs_reminder now x) k s kept found
                (rw (live, due) (ground (arith, eq_iff s.tenant_id tenant))))) in
    let (s', stored, marked) =
      remind_rows_marks now (list_pending_suggestions tenant kept) k 0 kept listed
        (λ f. absurd (cc (f, found))) in
    (s', rw (send_due_reminders_for_tenant, token, recipients) stored, λ t. silent t s' marked)
  where
    silent :
        (t : ℕ) (x : Suggestion)
        → has_field "reminded_at" x.result_snapshot ≡ true
        → needs_reminder t x ≡ false
    silent t x marked = elim (Option-cases x.expires_at) [
      | inl never ↦ rw (needs_reminder, never) refl
      | inr (e, expires) ↦ rw (needs_reminder, expires) (ground arith)
    ]
