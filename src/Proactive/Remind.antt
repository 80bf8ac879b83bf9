-- ===== src/Proactive/Remind.antt =====
-- The reminders of suggestions that are about to expire (`send_due_reminders_for_tenant`). The cards
-- are started as tasks beside the loop, one for each reminder.
use kachu_v.Prelude.{
  Bool, List, String, [], false, if◌then◌else◌, leb, none, not, some, ℕ, ◌&&◌, ◌+◌, ◌==◌, ◌||◌, ◌∷◌,
}
use kachu_v.Suggestions.{Snapshot, Suggestion, instant, number, suggestion_row}
use kachu_v.Tenants.{Tenant, list_active_tenants, tenant_row}
use kachu_v.Suggestions.Store.{
  expire_due_suggestions, list_pending_suggestions, update_suggestion_status,
}
use kachu_v.Decisions.{has_field, set_field}
use kachu_v.Proactive.{Settings, Shop, published_row, resolve_tenant_line_recipients}
use kachu_v.Proactive.Scan.{has_recipients, with_table}

-- The tests of the loop: the suggestion expires within twelve hours, and was not reminded of.
unfoldable pub needs_reminder : ℕ → Suggestion → Bool
needs_reminder now s = elim s.expires_at [
  | none ↦ false
  | some t ↦ leb t (now + 43200000000) && not (has_field "reminded_at" s.result_snapshot)
]

abbrev pub reminded_snapshot : ℕ → Snapshot → Snapshot
reminded_snapshot now fields =
    set_field "reminder_count" (number 1) (set_field "reminded_at" (instant now) fields)

-- The loop over the suggestions, with the number of reminders so far.
unfoldable pub remind_rows : ℕ → List Suggestion → ℕ → List Suggestion → ℕ × List Suggestion
unfolding needs_reminder update_suggestion_status
remind_rows now [] sent table = (sent, table)
remind_rows now (s ∷ rows) sent table =
    if needs_reminder now s
    then remind_rows now rows (sent + 1)
        (update_suggestion_status now s.id s.status (some (reminded_snapshot now s.result_snapshot))
          none table).1
    else remind_rows now rows sent table

unfoldable pub send_due_reminders_for_tenant : Settings → ℕ → String → Shop → ℕ × Shop
unfolding expire_due_suggestions resolve_tenant_line_recipients list_pending_suggestions remind_rows
send_due_reminders_for_tenant settings now tenant shop =
    let kept = (expire_due_suggestions now (some tenant) shop.customers.suggestions).1 in
    if settings.access_token == ""
      || not (has_recipients (resolve_tenant_line_recipients settings tenant shop.memberships))
    then (0, with_table shop kept)
    else (let (sent, table) = remind_rows now (list_pending_suggestions tenant kept) 0 kept in
        (sent, with_table shop table))

unfoldable pub send_due_reminders : Settings → ℕ → List Tenant → ℕ → Shop → ℕ × Shop
unfolding send_due_reminders_for_tenant
send_due_reminders settings now [] total shop = (total, shop)
send_due_reminders settings now (t ∷ tenants) total shop =
    let (sent, shop') = send_due_reminders_for_tenant settings now t.id shop in
    send_due_reminders settings now tenants (total + sent) shop'

unfoldable pub send_due_reminders_all_tenants : Settings → ℕ → Shop → ℕ × Shop
unfolding send_due_reminders list_active_tenants
send_due_reminders_all_tenants settings now shop =
    send_due_reminders settings now (list_active_tenants shop.customers.tenants) 0 shop
