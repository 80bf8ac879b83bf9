-- ===== src/Assets/Pending.antt =====
-- A user has at most one pending photo, the last one (`save_pending_asset_intent`).
use kachu_v.Prelude.{
  Bool, Bool-cases, List, Option, String, [], arith, count, eq_iff, eq_refl, false, filter,
  if◌then◌else◌, inl, inr, refl, some, subst, suc, sym, true, ℕ, ◌&&◌, ◌++◌, ◌==◌, ◌∷◌, ◌≡◌,
}
use kachu_v.Table.{get_row, put_row, update_where}
use kachu_v.Table.Laws.{get_row-id}
use kachu_v.Assets.{
  AssetIntent, asset_row, get_latest_pending_asset_intent, is_open, is_pending, new_intent,
  resolve_pending_asset_intent, resolved, save_pending_asset_intent, superseded,
}

-- The rows of a new photo's table.
abbrev saved_rows : ℕ → String → String → AssetIntent → List AssetIntent → List AssetIntent
saved_rows now tenant user row table =
    update_where (is_pending tenant user) (superseded now) table ++ row ∷ []

superseded_lem :
    (t u : String) (now : ℕ) (a : AssetIntent) → is_pending t u (superseded now a) ≡ false
superseded_lem t u now a = ground arith

count-saved_rows :
    (now : ℕ) (tenant user t u : String) (row : AssetIntent) (table : List AssetIntent)
    → row.tenant_id ≡ tenant
    → row.line_user_id ≡ user
    → row.status ≡ "pending"
    → count (is_pending t u) (saved_rows now tenant user row table)
      ≡ (if tenant == t && user == u then 1 else count (is_pending t u) table)
count-saved_rows now tenant user t u row [] rt ru rs = rw (rt, ru, rs) (ground arith)
count-saved_rows now tenant user t u row (a ∷ table) rt ru rs =
    elim (Bool-cases (is_pending tenant user a)) [
      | inl was ↦
          rw
            (was, superseded_lem t u now a, count-saved_rows now tenant user t u row table rt ru rs)
            (ground (
              arith,
              eq_iff a.tenant_id tenant,
              eq_iff a.line_user_id user,
              eq_iff a.tenant_id t,
              eq_iff a.line_user_id u,
              eq_iff tenant t,
              eq_iff user u,
            ))
      | inr idle ↦
          rw (idle, count-saved_rows now tenant user t u row table rt ru rs)
            (ground (
              arith,
              eq_iff a.tenant_id t,
              eq_iff a.line_user_id u,
              eq_iff a.tenant_id tenant,
              eq_iff a.line_user_id user,
              eq_iff tenant t,
              eq_iff user u,
            ))
    ]

-- After a photo is saved, its user has exactly one pending photo, and every other user has as many
-- as before.
pub count-save_pending_asset_intent :
    (now : ℕ) (new_id tenant user message payload asset_type : String) (expires : Option ℕ)
    (table : List AssetIntent) (t u : String)
    → count
        (is_pending t u)
        (save_pending_asset_intent now new_id tenant user message payload asset_type expires
          table).1
      ≡ (if tenant == t && user == u then 1 else count (is_pending t u) table)
unfolding save_pending_asset_intent new_intent
count-save_pending_asset_intent now new_id tenant user message payload asset_type expires table t
      u =
    count-saved_rows now tenant user t u
      (new_intent now new_id tenant user message payload asset_type expires) table refl refl refl

filter-saved_rows :
    (now later : ℕ) (tenant user : String) (row : AssetIntent) (table : List AssetIntent)
    → is_pending tenant user row && is_open later row.expires_at ≡ true
    → filter
        (λ a. is_pending tenant user a && is_open later a.expires_at)
        (saved_rows now tenant user row table)
      ≡ row ∷ []
filter-saved_rows now later tenant user row [] h = ground arith
filter-saved_rows now later tenant user row (a ∷ table) h =
    elim (Bool-cases (is_pending tenant user a)) [
      | inl was ↦
          rw (was, superseded_lem tenant user now a)
            (filter-saved_rows now later tenant user row table h)
      | inr idle ↦ rw (idle, idle) (filter-saved_rows now later tenant user row table h)
    ]

-- Until it expires, the photo that was saved last is the one that the user's next decision is
-- about.
pub get_latest-save_pending_asset_intent :
    (now later : ℕ) (new_id tenant user message payload asset_type : String) (expires : Option ℕ)
    (table : List AssetIntent)
    → is_open later expires ≡ true
    → let (row, table') =
        save_pending_asset_intent now new_id tenant user message payload asset_type expires table in
      get_latest_pending_asset_intent later tenant user table' ≡ some row
unfolding save_pending_asset_intent get_latest_pending_asset_intent new_intent
get_latest-save_pending_asset_intent now later new_id tenant user message payload asset_type expires
      table not_expired =
    rw
      (filter-saved_rows now later tenant user
        (new_intent now new_id tenant user message payload asset_type expires) table
        (ground (arith, eq_refl tenant, eq_refl user)))
      refl

count-put_row_resolved :
    (r old : AssetIntent) (p : AssetIntent → Bool) (table : List AssetIntent)
    → get_row r.id table ≡ some old
    → p old ≡ true
    → p r ≡ false
    → count p table ≡ suc (count p (put_row r table))
count-put_row_resolved r old p [] found was now_not = absurd (cc)
count-put_row_resolved r old p (a ∷ table) found was now_not = elim (Bool-cases (a.id == r.id)) [
  | inl same ↦
      let here : a ≡ old = cc (rw same at found) in
      rw (same, now_not, subst (λ b. p b ≡ true) (sym here) was) (ground arith)
  | inr other ↦
      rw (other, count-put_row_resolved r old p table (rw other at found) was now_not)
        (ground arith)
]

-- A decision on a pending photo, to any status but "pending", takes it from the user's pending
-- ones: after it there is one less.
pub count-resolve_pending_asset_intent :
    (now : ℕ) (id status decision tenant user : String) (a : AssetIntent) (table : List AssetIntent)
    → get_row id table ≡ some a
    → is_pending tenant user a ≡ true
    → (status == "pending") ≡ false
    → count (is_pending tenant user) table
      ≡ suc (
          count
            (is_pending tenant user)
            (resolve_pending_asset_intent now id status decision table).1)
unfolding resolve_pending_asset_intent resolved
count-resolve_pending_asset_intent now id status decision tenant user a table found pending moved =
    let same_id : a.id ≡ id = get_row-id id a table found in
    rw (found, resolve_pending_asset_intent)
      (count-put_row_resolved (resolved now status decision a) a (is_pending tenant user) table
        (subst (λ k. get_row k table ≡ some a) (sym same_id) found) pending (ground arith))
