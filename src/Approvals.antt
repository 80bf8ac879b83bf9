-- ===== src/Approvals.antt =====
-- Drafts that wait for the owner's approval: the table of `PendingApprovalTable` and the operations
-- of src/kachu_plus/persistence/repository.py on it (lines 1641 to 1818). The columns of JSON hold
-- texts. The services on the table (src/kachu_plus/approval.py) are the children `Bridge`,
-- `Edit`, `Scheduled` and `Sync`.
pub mod Due
pub mod Schedule
pub mod Bridge
pub mod Edit
pub mod Scheduled
pub mod Sync
pub mod Unique
pub mod Change
pub mod Requests
pub mod Backlog
pub mod Progress
pub mod Liveness
pub mod Outcomes
pub mod Postback
pub mod Blocked
pub mod Mirror
mod Examples
mod ScheduleExamples
use kachu_v.Prelude.{
  Bool, List, Option, String, [], elem, filter, first, max, none, not, or_text, order_by,
  order_by_desc, some, take, true, ℕ, ◌&&◌, ◌==◌, ◌∷◌,
}
use kachu_v.Table.{Row, put_row}

pub record Approval : Type 0 where
  pub id : String
  pub tenant_id : String
  pub agentos_task_id : String
  pub agentos_run_id : String
  pub workflow_type : String
  pub review_id : String
  pub draft_content : String
  pub status : String
  pub actor_line_id : String
  pub decision_payload_json : String
  pub created_at : ℕ
  pub updated_at : ℕ
  pub decided_at : Option ℕ

instance abbrev pub approval_row : Row Approval
approval_row = record { id_of = λ a. a.id }

abbrev pub is_run : String → Approval → Bool
is_run run a = a.agentos_run_id == run

unfoldable pub get_pending_approval_by_run_id : String → List Approval → Option Approval
get_pending_approval_by_run_id run table = first (is_run run) table

unfoldable pub new_approval :
    (now : ℕ) (new_id tenant_id task_id run_id workflow_type draft_content review_id : String)
    → Approval
new_approval now new_id tenant task run workflow draft review = record {
  id = new_id;
  tenant_id = tenant;
  agentos_task_id = task;
  agentos_run_id = run;
  workflow_type = workflow;
  review_id = review;
  draft_content = draft;
  status = "pending";
  actor_line_id = "";
  decision_payload_json = "{}";
  created_at = now;
  updated_at = now;
  decided_at = none;
}

-- The row that `save_pending_approval` writes: a new one, or the run's row with a new draft.
unfoldable pub saved_approval :
    (now : ℕ) (new_id tenant_id task_id run_id workflow_type draft_content review_id : String)
    → Option Approval
    → Approval
unfolding new_approval
saved_approval now new_id tenant task run workflow draft review none =
    new_approval now new_id tenant task run workflow draft review
saved_approval now new_id tenant task run workflow draft review (some a) = record a {
  tenant_id = tenant;
  agentos_task_id = task;
  workflow_type = workflow;
  review_id = review;
  draft_content = draft;
  status = "pending";
  updated_at = now;
  decided_at = none;
}

unfoldable pub save_pending_approval :
    (now : ℕ) (new_id tenant_id task_id run_id workflow_type draft_content review_id : String)
    → List Approval
    → Approval × List Approval
unfolding saved_approval
save_pending_approval now new_id tenant task run workflow draft review table =
    let a =
      saved_approval now new_id tenant task run workflow draft review (first (is_run run) table) in
    (a, put_row a table)

-- A change of the run's row: none is returned and nothing is written where the run has none.
unfoldable pub change :
    String → (Approval → Approval) → List Approval → Option Approval × List Approval
change run f table = elim (first (is_run run) table) [
  | none ↦ (none, table)
  | some a ↦ (some (f a), put_row (f a) table)
]

unfoldable pub decided : ℕ → String → String → String → Approval → Approval
decided now decision actor payload a = record a {
  status = decision;
  actor_line_id = actor;
  decision_payload_json = payload;
  updated_at = now;
  decided_at = some now;
}

-- The payload is the text of `json.dumps(decision_payload or {})`.
unfoldable pub decide_pending_approval :
    (now : ℕ) (run_id decision actor_line_id payload : String)
    → List Approval
    → Option Approval × List Approval
unfolding change decided
decide_pending_approval now run decision actor payload table =
    change run (decided now decision actor payload) table

unfoldable pub with_approval_status : ℕ → String → String → Option String → Approval → Approval
with_approval_status now status actor payload a = record a {
  status = status;
  actor_line_id = or_text actor a.actor_line_id;
  decision_payload_json = elim payload [ none ↦ a.decision_payload_json | some p ↦ p ];
  updated_at = now;
  decided_at = none;
}

unfoldable pub update_pending_approval_status :
    (now : ℕ) (run_id status actor_line_id : String)
    → Option String
    → List Approval
    → Option Approval × List Approval
unfolding change with_approval_status
update_pending_approval_status now run status actor payload table =
    change run (with_approval_status now status actor payload) table

unfoldable pub with_draft : ℕ → String → String → String → Approval → Approval
with_draft now draft actor status a = record a {
  draft_content = draft;
  status = status;
  actor_line_id = actor;
  updated_at = now;
  decided_at = none;
}

unfoldable pub update_pending_approval_draft :
    (now : ℕ) (run_id draft_content actor_line_id status : String)
    → List Approval
    → Option Approval × List Approval
unfolding change with_draft
update_pending_approval_draft now run draft actor status table =
    change run (with_draft now draft actor status) table

-- `if statuses: stmt.where(status.in_(statuses))`, and the same for the excluded workflow types.
abbrev pub kept_by : List String → List String → Approval → Bool
kept_by [] [] a = true
kept_by [] (w ∷ ws) a = not (elem a.workflow_type (w ∷ ws))
kept_by (s ∷ ss) [] a = elem a.status (s ∷ ss)
kept_by (s ∷ ss) (w ∷ ws) a = elem a.status (s ∷ ss) && not (elem a.workflow_type (w ∷ ws))

unfoldable pub list_pending_approvals :
    (statuses exclude_workflow_types : List String) → ℕ → List Approval → List Approval
list_pending_approvals statuses excluded limit table = take (max limit 1) (
    order_by (λ a. a.updated_at)
      (order_by (λ a. a.created_at) (filter (kept_by statuses excluded) table)))

-- `order_by(updated_at.desc(), created_at.desc())` and `first()`
unfoldable pub newest : (Approval → Bool) → List Approval → Option Approval
newest p table =
    first (λ _. true)
      (order_by_desc (λ a. a.updated_at) (order_by_desc (λ a. a.created_at) (filter p table)))

unfoldable pub get_latest_editing_approval :
    (tenant_id actor_line_id : String) → List Approval → Option Approval
unfolding newest
get_latest_editing_approval tenant actor table =
    newest (λ a. a.tenant_id == tenant && a.status == "editing" && a.actor_line_id == actor) table

unfoldable pub get_latest_schedule_pending_approval :
    (tenant_id actor_line_id : String) → List String → List Approval → Option Approval
unfolding newest
get_latest_schedule_pending_approval tenant actor statuses table =
    let active : List String = elim statuses [
      | [] ↦ "schedule_requested" ∷ "schedule_confirmation" ∷ []
      | s ∷ ss ↦ s ∷ ss
    ] in
    newest (λ a. a.tenant_id == tenant && a.actor_line_id == actor && elem a.status active) table
