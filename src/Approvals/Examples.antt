-- ===== src/Approvals/Examples.antt =====
-- The theorems on approvals at a concrete table, with an AgentOS that keeps the list of its open
-- runs and a format in which a payload is the text of its instant.
use kachu_v.Approvals.Sync.{sync_open_approvals}
use kachu_v.Approvals.Postback.{handle_postback-Recorded}
use kachu_v.Approvals.Outcomes.{Recorded, nine_o_clock_lem}
use kachu_v.Approvals.Mirror.{IsMirrored, sync_open_approvals-IsMirrored}
use kachu_v.Prelude.{
  All, Bool-cases, List, Result, String, [], arith, count, elem, eq_iff, false, if◌then◌else◌, inl,
  inr, length, lookup_error, max, none, ok, raise, refl, some, strip, true, ◌%◌, ◌+◌, ◌<◌, ◌==◌,
  ◌∷◌, ◌≡◌, ◌≢◌, ◌≤◌, ◌⊎◌,
}
use kachu_v.Prelude.Laws.{unequal}
use kachu_v.Tenants.{tenant_row}
use kachu_v.Approvals.{
  Approval, approval_row, get_pending_approval_by_run_id, list_pending_approvals,
}
use kachu_v.Approvals.Due.{Formats, is_due_payload, text_field}
use kachu_v.Approvals.Schedule.{Zones, nine_o_clock}
use kachu_v.Approvals.Bridge.{
  Agents, ApprovalResult, Office, RunView, decide_run, handle_postback, open_approval,
  record_decision, reject, result,
}
use kachu_v.Approvals.Scheduled.{DueCounts, process_due_approvals}
use kachu_v.Approvals.Unique.{IsUnique, drafts}
use kachu_v.Approvals.Requests.{
  ApprovalRequest, IsFresh, apply_requests, apply_requests-IsUnique, decide, drafts-apply_requests,
  save, set_status, spec_requests,
}
use kachu_v.Approvals.Backlog.{is_overdue}
use kachu_v.Approvals.Progress.{Orderly, Serves}
use kachu_v.Approvals.Liveness.{process_due_approvals_serves, process_runs, process_runs_serve}

abbrev draft_of : String → String → String → Approval
draft_of id run status = record {
  id = id;
  tenant_id = "t1";
  agentos_task_id = "k1";
  agentos_run_id = run;
  workflow_type = "kachu_google_post";
  review_id = "";
  draft_content = "{}";
  status = status;
  actor_line_id = "o1";
  decision_payload_json = "soon";
  created_at = 1;
  updated_at = 1;
  decided_at = none;
}

abbrev two_drafts : List Approval
two_drafts = draft_of "a1" "r1" "scheduled" ∷ draft_of "a2" "r2" "pending" ∷ []

two_drafts-IsUnique : IsUnique two_drafts
two_drafts-IsUnique = ((refl, (refl, tt)), ((unequal "r1" "r2" refl, tt), (tt, tt)))

abbrev requests : List ApprovalRequest
requests =
    save 5 "a3" "t1" "k2" "r3" "kachu_google_post" "{}" ""
    ∷ decide 6 "r2" "approved" "o1" "{}"
    ∷ set_status 7 "r3" "scheduled" "o1" (some "soon")
    ∷ []

apply_requests-IsUnique_example : IsUnique (apply_requests requests two_drafts)
apply_requests-IsUnique_example = apply_requests-IsUnique requests two_drafts two_drafts-IsUnique

requests-IsFresh : IsFresh requests two_drafts
requests-IsFresh = (refl, (tt, (tt, tt)))

drafts-apply_requests_example :
    drafts (apply_requests requests two_drafts) ≡ spec_requests requests (drafts two_drafts)
drafts-apply_requests_example =
    drafts-apply_requests requests two_drafts two_drafts-IsUnique requests-IsFresh

-- A payload is a text, and the only instant that is read is "soon".
abbrev texts : Formats String
texts = record {
  loads = λ s. some s;
  dumps = λ s. s;
  get = λ key s. ok (some s);
  truthy = λ s. true;
  to_text = λ s. s;
  object = λ fields. "soon";
  parse_instant = λ s. if s == "soon" then some 5 else none;
  format_instant = λ t. "soon";
}

abbrev view_of : String → List String → RunView
view_of run open_runs = record {
  run_status = some "running";
  approvals =
      record {
        id = run;
        decision = if elem run open_runs then "pending" else "approved";
        actor_id = "o2";
      }
      ∷ [];
}

abbrev without : String → List String → List String
without run [] = []
without run (x ∷ xs) = let rest = without run xs in if x == run then rest else x ∷ rest

abbrev agents : Agents String (List String)
agents = record {
  get_run = λ run w. ok (view_of run w);
  decide = λ id decision actor payload w. (ok (view_of id w), without id w);
  after_approval_decision = λ tenant workflow outcome run w. (ok tt, w);
  after_preference_update = λ tenant platform original edited run workflow w. (ok tt, w);
  same = λ old new. false;
}

abbrev Open : List String → String → Type 0
Open w run = elem run w ≡ true

without_other : (run k : String) (w : List String) → run ≢ k → Open w k → Open (without run w) k
without_other run k [] away h = h
without_other run k (x ∷ xs) away h =
    ground (arith, without_other run k xs away, eq_iff x run, eq_iff x k)

agents-Serves : Serves agents Open
unfolding open_approval
agents-Serves = (
  λ w run is_open. (
    view_of run w,
    run,
    refl,
    rw is_open refl,
    λ decision actor payload. (view_of run w, without run w, refl, λ k. without_other run k w),
  ),
  λ tenant workflow outcome run w. (w, refl, λ k h. h),
)

abbrev no_zones : Zones
no_zones = record { known = λ name. false; to_wall = λ name t. t; from_wall = λ name t. t }

abbrev office : Office (List String)
office = record { approvals = two_drafts; world = "r1" ∷ [] }

office-Orderly : Orderly agents Open texts office
unfolding is_due_payload text_field strip get_pending_approval_by_run_id
office-Orderly = (
  two_drafts-IsUnique,
  ((λ t sched. refl), ((λ t sched. refl), tt)),
  λ k a found sched. elim (Bool-cases ("r1" == k)) [
    | inl same ↦ rw same refl
    | inr other ↦ elim (Bool-cases ("r2" == k)) [
      | inl same ↦ absurd (cc (rw (other, same) at found))
      | inr third ↦ absurd (cc (rw (other, third) at found))
    ]
  ],
)

process_due_approvals_serves_example :
    (counts : DueCounts) × (db' : Office (List String)) × (process_due_approvals texts agents
        no_zones [] 7 20 office
      ≡ (ok counts, db'))
    × (counts.approved ≡ counts.due)
    × (counts.failed ≡ 0)
    × ((counts.due ≡ max 20 1) ⊎ (counts.due ≡ count (is_overdue texts 7) two_drafts))
    × (count (is_overdue texts 7) db'.approvals + counts.due
        ≡ count (is_overdue texts 7) two_drafts)
process_due_approvals_serves_example =
    process_due_approvals_serves agents Open texts agents-Serves no_zones [] 20 7 office
      office-Orderly

process_runs_serve_example :
    count
      (is_overdue texts 6)
      (process_runs texts agents no_zones [] 20 (7 ∷ 8 ∷ []) office).approvals
    ≡ 0
process_runs_serve_example =
    process_runs_serve agents Open texts agents-Serves no_zones [] 20 (7 ∷ 8 ∷ []) office 6
      office-Orderly (omega arith, (omega arith, tt)) (omega arith)

nine_o_clock_lem_example :
    (100000000000 + 600000000 < nine_o_clock 100000000000)
    × (nine_o_clock 100000000000 ≤ 100000000000 + 87000000000)
    × (nine_o_clock 100000000000 % 86400000000 ≡ 32400000000)
nine_o_clock_lem_example = nine_o_clock_lem 100000000000

abbrev rejected_r1 : Result ApprovalResult × Office (List String)
rejected_r1 = handle_postback texts agents 3 no_zones [] "r1" "t1" reject "o1" office

r1_rejected : rejected_r1.0 ≡ ok (result "running" "rejected" "")
unfolding handle_postback decide_run record_decision open_approval
r1_rejected = refl

handle_postback-Recorded_example :
    ((result "running" "rejected" "").decision ≡ "missing") × (rejected_r1.1.approvals ≡ two_drafts)
    ⊎ Recorded "r1" "rejected" two_drafts rejected_r1.1.approvals
handle_postback-Recorded_example =
    handle_postback-Recorded texts agents 3 no_zones [] "r1" "t1" reject "o1" office
      (result "running" "rejected" "") two_drafts-IsUnique r1_rejected

-- An AgentOS that answers to nothing.
abbrev silent : Agents String (List String)
silent = record agents { get_run = λ run w. raise (lookup_error run) }

sync_open_approvals-IsMirrored_example :
    let rows =
      list_pending_approvals
        ("pending" ∷ "delivery_failed" ∷ [])
        ("kachu_planned_content" ∷ "kachu_meta_reply" ∷ [])
        50
        two_drafts in
    let after = sync_open_approvals texts agents ("r1" ∷ []) 9 50 two_drafts in
    All (IsMirrored texts agents ("r1" ∷ []) 9 after.1) rows
    × ((k : String) → All (λ a. a.agentos_run_id ≢ k) rows → drafts after.1 k ≡ drafts two_drafts k)
    × (after.0.checked ≡ length rows)
    × (after.0.synced + after.0.skipped + after.0.failed ≡ after.0.checked)
sync_open_approvals-IsMirrored_example =
    sync_open_approvals-IsMirrored texts agents ("r1" ∷ []) 9 50 two_drafts two_drafts-IsUnique
