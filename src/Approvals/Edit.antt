-- ===== src/Approvals/Edit.antt =====
-- `complete_edit_and_approve` of src/kachu_plus/approval.py: an edited draft is approved, and the
-- review is told where it differs from the draft.
use kachu_v.Prelude.{
  Option, Result, String, [], first, if◌then◌else◌, none, ok, or_text, raise, some, ℕ,
}
use kachu_v.Approvals.{Approval, approval_row, decide_pending_approval, is_run}
use kachu_v.Approvals.Due.{Formats}
use kachu_v.Approvals.Bridge.{
  Agents, ApprovalResult, Office, RunView, if_reviewed, missing, open_approval, payload_text,
  result, status_or_unknown,
}

module _ {J W : Type 0} (formats : Formats J) (agents : Agents J W) where
  -- One comparison of an edited field with the draft's: `after_preference_update` where they differ.
  unfoldable pub review_field :
      (platform key run_id : String) → Approval → J → J → W → Result (Unit {0}) × W
  review_field platform key run a edited original world = elim (formats.get key edited) [
    | raise e ↦ (raise e, world)
    | ok none ↦ (ok tt, world)
    | ok (some v) ↦ elim (formats.get key original) [
      | raise e ↦ (raise e, world)
      | ok old ↦
          if agents.same old v
          then (ok tt, world)
          else agents.after_preference_update a.tenant_id platform
              (elim old [ none ↦ "" | some o ↦ formats.to_text o ]) (formats.to_text v) run
              a.workflow_type world
    ]
  ]

  unfoldable pub review_edit : String → Option Approval → J → W → Result (Unit {0}) × W
  unfolding review_field
  review_edit run none edited world = (ok tt, world)
  review_edit run (some a) edited world =
      let original : J = elim (formats.loads (or_text a.draft_content "{}")) [
        | none ↦ formats.object []
        | some j ↦ j
      ] in
      let (first_review, world') = review_field "google" "post_text" run a edited original world in
      elim first_review [
        | raise e ↦ (raise e, world')
        | ok _ ↦ review_field "review_reply" "reply_draft" run a edited original world'
      ]

  unfoldable pub record_edit :
      (now : ℕ) (run_id actor_line_id : String)
      → J
      → Office W
      → Result RunView × W
      → Result ApprovalResult × Office W
  unfolding decide_pending_approval payload_text review_edit
  record_edit now run actor edited db (raise e, world) = (raise e, record db { world = world })
  record_edit now run actor edited db (ok view, world) =
      let pending = first (is_run run) db.approvals in
      let written =
        (decide_pending_approval now run "approved" actor (payload_text formats (some edited))
          db.approvals).1 in
      let (reviewed, world') = review_edit run pending edited world in
      (
        if_reviewed reviewed (result (status_or_unknown view) "approved" ""),
        record { approvals = written; world = world' },
      )

  unfoldable pub complete_edit_and_approve :
      (now : ℕ) (run_id actor_line_id : String) → J → Office W → Result ApprovalResult × Office W
  unfolding record_edit open_approval
  complete_edit_and_approve now run actor edited db = elim (agents.get_run run db.world) [
    | raise e ↦ (raise e, db)
    | ok view ↦ elim (open_approval view.approvals) [
      | none ↦ (ok missing, db)
      | some id ↦
          record_edit now run actor edited db
            (agents.decide id "approved" actor (some edited) db.world)
    ]
  ]
