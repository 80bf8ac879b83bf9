-- ===== src/Approvals/Blocked.antt =====
-- What an exception of AgentOS does to the service for scheduled approvals.
use kachu_v.Prelude.{Error, List, ok, raise, ℕ, ◌∷◌, ◌≡◌}
use kachu_v.Tenants.{Tenant, tenant_row}
use kachu_v.Approvals.{Approval, approval_row}
use kachu_v.Approvals.Due.{Formats, list_due_scheduled_approvals}
use kachu_v.Approvals.Schedule.{Zones}
use kachu_v.Approvals.Bridge.{Agents, Office}

module _ {J W : Type 0} (formats : Formats J) (agents : Agents J W) (zones : Zones)
    (tenants : List Tenant) (limit : ℕ) (db : Office W) where
  -- At the instant, the first of the due rows is one whose run AgentOS does not tell.
  abbrev pub StuckAt : ℕ → Type 0
  StuckAt t =
      (a : Approval) × (rows : List Approval) × (e : Error) × (list_due_scheduled_approvals formats
          t limit db.approvals
        ≡ ok (a ∷ rows))
      × (agents.get_run a.agentos_run_id db.world ≡ raise e)
