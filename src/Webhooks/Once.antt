-- ===== src/Webhooks/Once.antt =====
-- Each event is accepted once, however often it is delivered.
use kachu_v.Prelude.{
  Bool, Bool-cases, List, Result, String, [], arith, count, eq_iff, eq_refl, false, first,
  if◌then◌else◌, inl, inr, is_some, none, not, ok, raise, strip, true, ℕ, ◌&&◌, ◌++◌, ◌==◌, ◌||◌,
  ◌∷◌, ◌≡◌, ◌≢◌, ◌⊎◌,
}
use kachu_v.Webhooks.{Delivery, WebhookEvent, is_event, new_event, record_webhook_event_if_new}

abbrev pub same_event : String → String → String → Delivery → Bool
same_event tenant provider key d =
    d.tenant_id == tenant && d.provider == provider && strip d.dedupe_key == key

abbrev pub is_accepted : Result Bool → Bool
is_accepted (ok b) = b
is_accepted (raise e) = false

-- The deliveries that were told to be new, in a batch with the instants and the new keys of each.
unfoldable pub accepted : List (ℕ × String × Delivery) → List WebhookEvent → List Delivery
accepted [] table = []
accepted ((now, new_id, d) ∷ ds) table =
    let (r, table') = record_webhook_event_if_new now new_id d table in
    if is_accepted r then d ∷ accepted ds table' else accepted ds table'

abbrev pub delivered : String → String → String → List (ℕ × String × Delivery) → Bool
delivered tenant provider key [] = false
delivered tenant provider key ((now, new_id, d) ∷ ds) =
    same_event tenant provider key d || delivered tenant provider key ds

is_some-first-append :
    (p : WebhookEvent → Bool) (table : List WebhookEvent) (e : WebhookEvent)
    → is_some (first p (table ++ e ∷ [])) ≡ (is_some (first p table) || p e)
is_some-first-append p [] e = ground arith
is_some-first-append p (x ∷ xs) e = ground (arith, is_some-first-append p xs e)

-- One delivery, as the later ones see it: the event is known if it was, or if it is this one.
record_known :
    (now : ℕ) (new_id tenant provider key : String) (d : Delivery) (table : List WebhookEvent)
    → key ≢ ""
    → let (r, table') = record_webhook_event_if_new now new_id d table in
      (is_some (first (is_event tenant provider key) table') ≡ (
        is_some (first (is_event tenant provider key) table) || same_event tenant provider key d))
      × (same_event tenant provider key d ≡ true
          → is_accepted r ≡ not (is_some (first (is_event tenant provider key) table)))
unfolding record_webhook_event_if_new
record_known now new_id tenant provider key d table named =
    elim (Bool-cases (same_event tenant provider key d)) [
      | inl same ↦
          let t : d.tenant_id ≡ tenant = ground (arith, eq_iff d.tenant_id tenant) in
          let p : d.provider ≡ provider =
            ground (arith, eq_iff d.tenant_id tenant, eq_iff d.provider provider) in
          let k : strip d.dedupe_key ≡ key = ground (
            arith,
            eq_iff d.tenant_id tenant,
            eq_iff d.provider provider,
            eq_iff (strip d.dedupe_key) key,
          ) in
          rw (t, p, k)
            (ground (
              arith,
              eq_iff key "",
              eq_refl tenant,
              eq_refl provider,
              eq_refl key,
              is_some-first-append (is_event tenant provider key) table
                  (record (new_event now new_id d) {
                    tenant_id = tenant;
                    provider = provider;
                    dedupe_key = key;
                  }),
            ))
      | inr other ↦ ground (
        arith,
        is_some-first-append (is_event tenant provider key) table (new_event now new_id d),
      )
    ]

-- Exactly once: of the deliveries of one event in a batch, however many there are and whatever else
-- is delivered between them, one is accepted as new if the event was not stored, and none if it was.
pub accepted_once :
    (tenant provider key : String) (ds : List (ℕ × String × Delivery)) (table : List WebhookEvent)
    → key ≢ ""
    → count (same_event tenant provider key) (accepted ds table) ≡ (
        if is_some (first (is_event tenant provider key) table)
        then 0
        else if delivered tenant provider key ds
        then 1
        else 0)
unfolding accepted
accepted_once tenant provider key [] table named = ground arith
accepted_once tenant provider key ((now, new_id, d) ∷ ds) table named = ground (
  arith,
  record_known now new_id tenant provider key d table named,
  accepted_once tenant provider key ds (record_webhook_event_if_new now new_id d table).1 named,
)

-- A delivery without a key is an error and stores nothing; any other is accepted exactly when no
-- event with its tenant, provider and stripped key is stored.
pub record_webhook_event_if_new_branches :
    (now : ℕ) (new_id : String) (d : Delivery) (table : List WebhookEvent)
    → let (r, table') = record_webhook_event_if_new now new_id d table in
      (((strip d.dedupe_key ≡ "") × (is_accepted r ≡ false) × (table' ≡ table))
        ⊎ ((r ≡ ok false)
            × (table' ≡ table)
            × (is_some (first (is_event d.tenant_id d.provider (strip d.dedupe_key)) table)
                ≡ true)))
      ⊎ ((r ≡ ok true)
          × (first (is_event d.tenant_id d.provider (strip d.dedupe_key)) table ≡ none)
          × (is_some (first (is_event d.tenant_id d.provider (strip d.dedupe_key)) table') ≡ true))
unfolding record_webhook_event_if_new
record_webhook_event_if_new_branches now new_id d table = ground (
  arith,
  eq_iff (strip d.dedupe_key) "",
  eq_refl d.tenant_id,
  eq_refl d.provider,
  eq_refl (strip d.dedupe_key),
  is_some-first-append (is_event d.tenant_id d.provider (strip d.dedupe_key)) table
      (new_event now new_id d),
)
