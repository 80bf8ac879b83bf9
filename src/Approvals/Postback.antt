-- ===== src/Approvals/Postback.antt =====
-- What the owner's answer to a draft leaves in the table (`handle_postback`).
use kachu_v.Prelude.{
  List, Option-cases, Result, Result-cases, String, first, inl, inr, none, ok, raise, refl, some,
  subst, sym, ℕ, ◌≡◌, ◌⊎◌,
}
use kachu_v.Tenants.{Tenant, get_tenant, tenant_row}
use kachu_v.Approvals.{
  Approval, approval_row, change, decide_pending_approval, decided, get_pending_approval_by_run_id,
  is_run, update_pending_approval_status, with_approval_status,
}
use kachu_v.Approvals.Due.{Formats}
use kachu_v.Approvals.Schedule.{Zones, resolve_scheduled_publish_at}
use kachu_v.Approvals.Bridge.{
  Agents, ApprovalAction, ApprovalResult, Office, RunView, approve, decide_run, defer_with_schedule,
  edit, edited_payload, handle_postback, if_reviewed, missing, open_approval, payload_text,
  record_decision, reject, result, schedule_payload, schedule_publish, status_or_unknown,
  timezone_of,
}
use kachu_v.Approvals.Unique.{IsUnique}
use kachu_v.Approvals.Outcomes.{Recorded, change-Recorded}

module _ {J W : Type 0} (formats : Formats J) (agents : Agents J W) where
  -- What an answer that returns leaves in the table.
  abbrev Leaves : String → List Approval → Result ApprovalResult × Office W → Type 0
  Leaves run table after =
      (r : ApprovalResult)
      → after.0 ≡ ok r
      → (r.decision ≡ "missing") × (after.1.approvals ≡ table)
        ⊎ Recorded run r.decision table after.1.approvals

  Leaves-of :
      (run : String) (table : List Approval) (call after : Result ApprovalResult × Office W)
      → call ≡ after
      → Leaves run table after
      → Leaves run table call
  Leaves-of run table call after e h = subst (Leaves run table) (sym e) h

  same_result : (x r : ApprovalResult) → ok x ≡ ok r → x ≡ r
  same_result x r e = cc

  Leaves-missing :
      (run : String) (x : ApprovalResult) (db : Office W)
      → x.decision ≡ "missing"
      → Leaves run db.approvals (ok x, db)
  Leaves-missing run x db missed r e =
      inl (subst (λ y. y.decision ≡ "missing") (same_result x r e) missed, refl)

  Leaves-Recorded :
      (run : String) (x : ApprovalResult) (table : List Approval) (db : Office W)
      → Recorded run x.decision table db.approvals
      → Leaves run table (ok x, db)
  Leaves-Recorded run x table db done r e =
      inr (subst (λ y. Recorded run y.decision table db.approvals) (same_result x r e) done)

  reviewed-Leaves :
      (run : String) (reviewed : Result (Unit {0})) (x : ApprovalResult) (table : List Approval)
      (db : Office W)
      → Recorded run x.decision table db.approvals
      → Leaves run table (if_reviewed reviewed x, db)
  reviewed-Leaves run (raise e) x table db done = λ r f. absurd (cc)
  reviewed-Leaves run (ok u) x table db done = Leaves-Recorded run x table db done

  decide_Recorded :
      (now : ℕ) (run decision actor payload : String) (table : List Approval)
      → IsUnique table
      → Recorded run decision table (decide_pending_approval now run decision actor payload table).1
  unfolding decide_pending_approval decided
  decide_Recorded now run decision actor payload table unique =
      change-Recorded run decision (decided now decision actor payload) table (λ _. refl)
        (λ _. refl) (λ _. refl) unique

  defer-Leaves :
      (now : ℕ) (tenants : List Tenant) (run tenant actor wish : String) (db : Office W)
      → IsUnique db.approvals
      → Leaves run db.approvals
          (defer_with_schedule formats agents now tenants run tenant actor wish db)
  unfolding defer_with_schedule update_pending_approval_status with_approval_status
  defer-Leaves now tenants run tenant actor wish db unique =
      let call = defer_with_schedule formats agents now tenants run tenant actor wish db in
      elim (Option-cases (get_pending_approval_by_run_id run db.approvals)) [
        | inl missing_row ↦
            Leaves-of run db.approvals call (ok missing, db)
              (rw (missing_row, defer_with_schedule) refl) (Leaves-missing run missing db refl)
        | inr (a, found) ↦ elim (Option-cases (formats.parse_instant wish)) [
          | inl wrong ↦
              Leaves-of run db.approvals call (ok (result "invalid_schedule" "missing" ""), db)
                (rw (found, defer_with_schedule, wrong) refl)
                (Leaves-missing run (result "invalid_schedule" "missing" "") db refl)
          | inr (t, parsed) ↦
              let f =
                with_approval_status now "scheduled" actor
                  (some (formats.dumps (schedule_payload formats tenants tenant t))) in
              Leaves-of run db.approvals call
                (
                  ok (result "scheduled" "scheduled" (formats.format_instant t)),
                  record db { approvals = (change run f db.approvals).1 },
                )
                (rw (found, defer_with_schedule, parsed) refl)
                (Leaves-Recorded run (result "scheduled" "scheduled" (formats.format_instant t))
                  db.approvals (record db { approvals = (change run f db.approvals).1 })
                  (change-Recorded run "scheduled" f db.approvals (λ _. refl) (λ _. refl)
                    (λ _. refl) unique))
        ]
      ]

  record-Leaves :
      (now : ℕ) (run tenant decision actor : String) (db : Office W) (taken : Result RunView × W)
      → IsUnique db.approvals
      → Leaves run db.approvals
          (record_decision formats agents now run tenant decision actor db taken)
  unfolding record_decision
  record-Leaves now run tenant decision actor db (raise e, world) unique = λ r done. absurd (cc)
  record-Leaves now run tenant decision actor db (ok view, world) unique =
      let call = record_decision formats agents now run tenant decision actor db (ok view, world) in
      let payload =
        payload_text formats (edited_payload formats decision (first (is_run run) db.approvals)) in
      let written = (decide_pending_approval now run decision actor payload db.approvals).1 in
      let answer = result (status_or_unknown view) decision "" in
      let stored = decide_Recorded now run decision actor payload db.approvals unique in
      elim (Option-cases (first (is_run run) db.approvals)) [
        | inl missing_row ↦
            Leaves-of run db.approvals call
              (ok answer, record { approvals = written; world = world })
              (rw (missing_row, record_decision, missing_row) refl)
              (Leaves-Recorded run answer db.approvals
                (record { approvals = written; world = world }) stored)
        | inr (a, found) ↦
            let (reviewed, world') =
              agents.after_approval_decision tenant a.workflow_type decision run world in
            Leaves-of run db.approvals call
              (if_reviewed reviewed answer, record { approvals = written; world = world' })
              (rw (found, record_decision, found) refl)
              (reviewed-Leaves run reviewed answer db.approvals
                (record { approvals = written; world = world' }) stored)
      ]

  decide-Leaves :
      (now : ℕ) (run tenant decision actor : String) (db : Office W)
      → IsUnique db.approvals
      → Leaves run db.approvals (decide_run formats agents now run tenant decision actor db)
  unfolding decide_run
  decide-Leaves now run tenant decision actor db unique =
      let call = decide_run formats agents now run tenant decision actor db in
      elim (Result-cases (agents.get_run run db.world)) [
        | inr (e, failed) ↦
            Leaves-of run db.approvals call (raise e, db) (rw (failed, decide_run) refl)
              (λ r done. absurd (cc))
        | inl (view, seen) ↦ elim (Option-cases (open_approval view.approvals)) [
          | inl none_open ↦
              Leaves-of run db.approvals call (ok missing, db)
                (rw (seen, decide_run, none_open) refl) (Leaves-missing run missing db refl)
          | inr (id, named) ↦
              let taken =
                agents.decide id decision actor
                  (edited_payload formats decision (first (is_run run) db.approvals)) db.world in
              Leaves-of run db.approvals call
                (record_decision formats agents now run tenant decision actor db taken)
                (rw (seen, decide_run, named) refl)
                (record-Leaves now run tenant decision actor db taken unique)
        ]
      ]

  -- The owner's answer: a result says that the run is not found and the table is as it was, or the
  -- run's row, where there is one, has the status that the result names, and the rows of other runs
  -- are as they were.
  pub handle_postback-Recorded :
      (now : ℕ) (zones : Zones) (tenants : List Tenant) (run tenant : String)
      (action : ApprovalAction) (actor : String) (db : Office W) (r : ApprovalResult)
      → IsUnique db.approvals
      → let after = handle_postback formats agents now zones tenants run tenant action actor db in
        after.0 ≡ ok r
        → (r.decision ≡ "missing") × (after.1.approvals ≡ db.approvals)
          ⊎ Recorded run r.decision db.approvals after.1.approvals
  unfolding handle_postback defer_with_schedule decided with_approval_status decide_pending_approval
      update_pending_approval_status get_pending_approval_by_run_id
  handle_postback-Recorded now zones tenants run tenant edit actor db r unique =
      Leaves-Recorded run (result "waiting_edit" "editing" "") db.approvals
        (record db {
          approvals =
              (decide_pending_approval now run "editing" actor (payload_text formats none)
                db.approvals).1;
        })
        (decide_Recorded now run "editing" actor (payload_text formats none) db.approvals unique) r
  handle_postback-Recorded now zones tenants run tenant schedule_publish actor db r unique =
      let call =
        handle_postback formats agents now zones tenants run tenant schedule_publish actor db in
      let wish =
        formats.format_instant
          (resolve_scheduled_publish_at zones now (timezone_of (get_tenant tenant tenants))).0 in
      elim (Option-cases (get_pending_approval_by_run_id run db.approvals)) [
        | inl missing_row ↦
            Leaves-of run db.approvals call (ok missing, db)
              (rw (missing_row, handle_postback) refl) (Leaves-missing run missing db refl) r
        | inr (a, found) ↦
            Leaves-of run db.approvals call
              (defer_with_schedule formats agents now tenants run tenant actor wish db)
              (rw (found, handle_postback) refl)
              (defer-Leaves now tenants run tenant actor wish db unique) r
      ]
  handle_postback-Recorded now zones tenants run tenant approve actor db r unique =
      decide-Leaves now run tenant "approved" actor db unique r
  handle_postback-Recorded now zones tenants run tenant reject actor db r unique =
      decide-Leaves now run tenant "rejected" actor db unique r
