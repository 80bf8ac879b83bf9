-- ===== src/Approvals/Sync.antt =====
-- `PendingApprovalSyncService` of src/kachu_plus/approval.py: decisions that were taken in AgentOS
-- are written to the table.
use kachu_v.Prelude.{
  Bool, List, Option, String, [], elem, if◌then◌else◌, length, none, ok, or_text, raise, some,
  strip, ℕ, ◌+◌, ◌∷◌,
}
use kachu_v.Approvals.{Approval, approval_row, decide_pending_approval, list_pending_approvals}
use kachu_v.Approvals.Due.{Formats}
use kachu_v.Approvals.Bridge.{AgentApproval, Agents, RunView}

pub record SyncCounts : Type 0 where
  pub checked : ℕ
  pub synced : ℕ
  pub skipped : ℕ
  pub failed : ℕ

-- `for approval in reversed(approvals)`: the last that is approved or rejected.
abbrev pub is_terminal : AgentApproval → Bool
is_terminal a = elem (strip a.decision) ("approved" ∷ "rejected" ∷ [])

unfoldable pub terminal_approval : List AgentApproval → Option AgentApproval
terminal_approval [] = none
terminal_approval (a ∷ rest) = elim (terminal_approval rest) [
  | none ↦ if is_terminal a then some a else none
  | some b ↦ some b
]

module _ {J W : Type 0} (formats : Formats J) (agents : Agents J W) (world : W) (now : ℕ) where
  unfoldable pub mirror : AgentApproval → RunView → String → List Approval → List Approval
  unfolding decide_pending_approval
  mirror terminal view run table =
      (decide_pending_approval now run (or_text terminal.decision "pending")
        (or_text terminal.actor_id "agentos-sync")
        (formats.dumps (
          formats.object (
            ("synced_from", "agentos")
            ∷ ("approval_id", terminal.id)
            ∷ ("run_status", elim view.run_status [ none ↦ "" | some s ↦ s ])
            ∷ [])))
        table).1

  -- The body of the loop, on the counts and the table so far.
  unfoldable pub sync_row : Approval → SyncCounts → List Approval → SyncCounts × List Approval
  unfolding mirror terminal_approval
  sync_row a counts table = elim (agents.get_run a.agentos_run_id world) [
    | raise e ↦ (record counts { failed = counts.failed + 1 }, table)
    | ok view ↦ elim (terminal_approval view.approvals) [
      | none ↦ (record counts { skipped = counts.skipped + 1 }, table)
      | some terminal ↦ (
        record counts { synced = counts.synced + 1 },
        mirror terminal view a.agentos_run_id table,
      )
    ]
  ]

  unfoldable pub sync_rows : List Approval → SyncCounts → List Approval → SyncCounts × List Approval
  unfolding sync_row
  sync_rows [] counts table = (counts, table)
  sync_rows (a ∷ rows) counts table =
      let (counts', table') = sync_row a counts table in sync_rows rows counts' table'

  unfoldable pub sync_open_approvals : ℕ → List Approval → SyncCounts × List Approval
  unfolding sync_rows list_pending_approvals
  sync_open_approvals limit table =
      let rows =
        list_pending_approvals ("pending" ∷ "delivery_failed" ∷ [])
          ("kachu_planned_content" ∷ "kachu_meta_reply" ∷ []) limit table in
      sync_rows rows (record { checked = length rows; synced = 0; skipped = 0; failed = 0 }) table
