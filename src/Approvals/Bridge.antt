-- ===== src/Approvals/Bridge.antt =====
-- `ApprovalBridge` of src/kachu_plus/approval.py: what the owner's answer to a draft does. The
-- remote AgentOS and the reviews after a task (src/kachu_plus/learning.py, which write other
-- tables) have a state of their own, the world; a result's message is left out.
use kachu_v.Prelude.{
  Bool, List, Option, Result, String, [], first, if◌then◌else◌, none, ok, or_text, raise, some, ℕ,
  ◌==◌, ◌∷◌,
}
use kachu_v.Tenants.{Tenant, get_tenant, tenant_row}
use kachu_v.Approvals.{
  Approval, approval_row, decide_pending_approval, get_pending_approval_by_run_id, is_run,
  update_pending_approval_status,
}
use kachu_v.Approvals.Schedule.{Zones, resolve_scheduled_publish_at}
use kachu_v.Approvals.Due.{Formats}

-- An approval and a run as AgentOS tells them; the run's status may be missing.
pub record AgentApproval : Type 0 where
  pub id : String
  pub decision : String
  pub actor_id : String

pub record RunView : Type 0 where
  pub run_status : Option String
  pub approvals : List AgentApproval

-- `get_run` and `decide_approval` of the AgentOS client, and `after_approval_decision` and
-- `after_preference_update` of the review: tenant, workflow and outcome or platform, original and
-- edited draft, with the run. `same` is the equality of a value that may be missing with another.
pub record Agents (J W : Type 0) : Type 0 where
  pub get_run : String → W → Result RunView
  pub decide : String → String → String → Option J → W → Result RunView × W
  pub after_approval_decision : String → String → String → String → W → Result (Unit {0}) × W
  pub after_preference_update :
      String → String → String → String → String → String → W → Result (Unit {0}) × W
  pub same : Option J → J → Bool

pub record Office (W : Type 0) : Type 0 where
  pub approvals : List Approval
  pub world : W

pub record ApprovalResult : Type 0 where
  pub run_status : String
  pub decision : String
  pub scheduled_for : String

pub data ApprovalAction : Type 0 where
  approve reject edit schedule_publish : ApprovalAction

-- `get_pending_approval_id_for_run`, on the run's approvals.
unfoldable pub open_approval : List AgentApproval → Option String
open_approval approvals = elim (first (λ a. a.decision == "pending") approvals) [
  | none ↦ none
  | some a ↦ some a.id
]

abbrev pub result : String → String → String → ApprovalResult
result run_status decision scheduled_for = record {
  run_status = run_status;
  decision = decision;
  scheduled_for = scheduled_for;
}

abbrev pub missing : ApprovalResult
missing = result "not_found" "missing" ""

-- The answer of a call that awaits a review and then returns.
abbrev pub if_reviewed : Result (Unit {0}) → ApprovalResult → Result ApprovalResult
if_reviewed (raise e) answer = raise e
if_reviewed (ok _) answer = ok answer

abbrev pub status_or_unknown : RunView → String
status_or_unknown view = elim view.run_status [ none ↦ "unknown" | some s ↦ s ]

abbrev pub timezone_of : Option Tenant → String
timezone_of none = "Asia/Taipei"
timezone_of (some t) = t.timezone

module _ {J : Type 0} (formats : Formats J) where
  -- `json.dumps(decision_payload or {})`
  unfoldable pub payload_text : Option J → String
  payload_text none = formats.dumps (formats.object [])
  payload_text (some j) = formats.dumps (if formats.truthy j then j else formats.object [])

  -- The payload of a schedule.
  unfoldable pub schedule_payload : List Tenant → String → ℕ → J
  unfolding get_tenant
  schedule_payload tenants tenant t = formats.object (
      ("scheduled_for", formats.format_instant t)
      ∷ ("scheduled_timezone", or_text (timezone_of (get_tenant tenant tenants)) "Asia/Taipei")
      ∷ [])

  -- The draft that is sent with an approval.
  unfoldable pub edited_payload : String → Option Approval → Option J
  edited_payload decision none = none
  edited_payload decision (some a) =
      if decision == "approved" then formats.loads (or_text a.draft_content "{}") else none

module _ {J W : Type 0} (formats : Formats J) (agents : Agents J W) where
  -- What `handle_postback` does after AgentOS has answered to the decision.
  unfoldable pub record_decision :
      (now : ℕ) (run_id tenant_id decision actor_line_id : String)
      → Office W
      → Result RunView × W
      → Result ApprovalResult × Office W
  unfolding decide_pending_approval edited_payload payload_text
  record_decision now run tenant decision actor db (raise e, world) =
      (raise e, record db { world = world })
  record_decision now run tenant decision actor db (ok view, world) =
      let pending = first (is_run run) db.approvals in
      let written =
        (decide_pending_approval now run decision actor
          (payload_text formats (edited_payload formats decision pending)) db.approvals).1 in
      let answer = result (status_or_unknown view) decision "" in
      elim pending [
        | none ↦ (ok answer, record { approvals = written; world = world })
        | some a ↦
            let (reviewed, world') =
              agents.after_approval_decision tenant a.workflow_type decision run world in
            (if_reviewed reviewed answer, record { approvals = written; world = world' })
      ]

  unfoldable pub decide_run :
      (now : ℕ) (run_id tenant_id decision actor_line_id : String)
      → Office W
      → Result ApprovalResult × Office W
  unfolding record_decision edited_payload open_approval
  decide_run now run tenant decision actor db = elim (agents.get_run run db.world) [
    | raise e ↦ (raise e, db)
    | ok view ↦ elim (open_approval view.approvals) [
      | none ↦ (ok missing, db)
      | some id ↦ record_decision now run tenant decision actor db (
          agents.decide id decision actor
            (edited_payload formats decision (first (is_run run) db.approvals)) db.world)
    ]
  ]

  unfoldable pub defer_with_schedule :
      (now : ℕ) (tenants : List Tenant) (run_id tenant_id actor_line_id scheduled_for : String)
      → Office W
      → Result ApprovalResult × Office W
  unfolding update_pending_approval_status schedule_payload get_pending_approval_by_run_id
  defer_with_schedule now tenants run tenant actor scheduled_for db =
      elim (get_pending_approval_by_run_id run db.approvals) [
        | none ↦ (ok missing, db)
        | some a ↦ elim (formats.parse_instant scheduled_for) [
          | none ↦ (ok (result "invalid_schedule" "missing" ""), db)
          | some t ↦
              let (_, written) =
                update_pending_approval_status now run "scheduled" actor
                  (some (formats.dumps (schedule_payload formats tenants tenant t))) db.approvals in
              (
                ok (result "scheduled" "scheduled" (formats.format_instant t)),
                record db { approvals = written },
              )
        ]
      ]

  unfoldable pub handle_postback :
      (now : ℕ) (zones : Zones) (tenants : List Tenant) (run_id tenant_id : String)
      → ApprovalAction
      → String
      → Office W
      → Result ApprovalResult × Office W
  unfolding decide_run defer_with_schedule decide_pending_approval get_tenant
      resolve_scheduled_publish_at get_pending_approval_by_run_id payload_text
  handle_postback now zones tenants run tenant edit actor db = (
    ok (result "waiting_edit" "editing" ""),
    record db {
      approvals =
          (decide_pending_approval now run "editing" actor (payload_text formats none)
            db.approvals).1;
    },
  )
  handle_postback now zones tenants run tenant schedule_publish actor db =
      elim (get_pending_approval_by_run_id run db.approvals) [
        | none ↦ (ok missing, db)
        | some a ↦
            defer_with_schedule now tenants run tenant actor
              (formats.format_instant
                (resolve_scheduled_publish_at zones now
                  (timezone_of (get_tenant tenant tenants))).0)
              db
      ]
  handle_postback now zones tenants run tenant approve actor db =
      decide_run now run tenant "approved" actor db
  handle_postback now zones tenants run tenant reject actor db =
      decide_run now run tenant "rejected" actor db
