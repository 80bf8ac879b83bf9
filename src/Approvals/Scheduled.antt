-- ===== src/Approvals/Scheduled.antt =====
-- `ScheduledApprovalService` of src/kachu_plus/approval.py: what was scheduled is approved when its
-- time has come. A run of the service reads the clock once.
use kachu_v.Prelude.{List, Result, [], if◌then◌else◌, length, ok, raise, ℕ, ◌+◌, ◌==◌, ◌∷◌}
use kachu_v.Tenants.{Tenant, tenant_row}
use kachu_v.Approvals.{Approval, approval_row}
use kachu_v.Approvals.Schedule.{Zones}
use kachu_v.Approvals.Due.{Formats, list_due_scheduled_approvals}
use kachu_v.Approvals.Bridge.{Agents, ApprovalResult, Office, approve, handle_postback}

pub record DueCounts : Type 0 where
  pub due : ℕ
  pub approved : ℕ
  pub failed : ℕ

abbrev pub tally : ApprovalResult → DueCounts → DueCounts
tally r counts =
    if r.decision == "approved"
    then record counts { approved = counts.approved + 1 }
    else record counts { failed = counts.failed + 1 }

module _ {J W : Type 0} (formats : Formats J) (agents : Agents J W) (zones : Zones)
    (tenants : List Tenant) (now : ℕ) where
  -- The loop over the rows, on the counts so far.
  unfoldable pub approve_rows : List Approval → DueCounts → Office W → Result DueCounts × Office W
  unfolding handle_postback
  approve_rows [] counts db = (ok counts, db)
  approve_rows (a ∷ rows) counts db =
      let (answer, db') =
        handle_postback formats agents now zones tenants a.agentos_run_id a.tenant_id approve
          "scheduled-publisher" db in
      elim answer [ raise e ↦ (raise e, db') | ok r ↦ approve_rows rows (tally r counts) db' ]

  unfoldable pub process_due_approvals : ℕ → Office W → Result DueCounts × Office W
  unfolding approve_rows list_due_scheduled_approvals
  process_due_approvals limit db =
      elim (list_due_scheduled_approvals formats now limit db.approvals) [
        | raise e ↦ (raise e, db)
        | ok rows ↦ approve_rows rows (record { due = length rows; approved = 0; failed = 0 }) db
      ]
