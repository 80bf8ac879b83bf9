-- ===== src/Approvals/Requests.antt =====
-- The table of approvals as a map from runs to drafts: what any sequence of requests to it does.
use kachu_v.Prelude.{
  List, Option, String, [], ap, if◌then◌else◌, none, refl, some, ℕ, ◌==◌, ◌∙◌, ◌∷◌, ◌≡◌,
}
use kachu_v.Table.{get_row}
use kachu_v.Approvals.{
  Approval, approval_row, decide_pending_approval, decided, save_pending_approval, saved_approval,
  update_pending_approval_draft, update_pending_approval_status, with_approval_status, with_draft,
}
use kachu_v.Approvals.Change.{change-IsUnique, drafts-change, drafts-save, save-IsUnique}
use kachu_v.Approvals.Unique.{Drafts, IsUnique, drafts}
use mathlib.Core.Path.{fun_ext}
use mathlib.Core.Option.{map as map_option}

-- The calls that write to the table, each with the time at which it is made.
pub data ApprovalRequest : Type 0 where
  save : ℕ → (new_id tenant task run workflow draft review : String) → ApprovalRequest
  decide : ℕ → (run decision actor payload : String) → ApprovalRequest
  set_status : ℕ → (run status actor : String) → Option String → ApprovalRequest
  set_draft : ℕ → (run draft actor status : String) → ApprovalRequest

abbrev pub apply_request : ApprovalRequest → List Approval → List Approval
apply_request (save now new_id tenant task run workflow draft review) table =
    (save_pending_approval now new_id tenant task run workflow draft review table).1
apply_request (decide now run decision actor payload) table =
    (decide_pending_approval now run decision actor payload table).1
apply_request (set_status now run status actor payload) table =
    (update_pending_approval_status now run status actor payload table).1
apply_request (set_draft now run draft actor status) table =
    (update_pending_approval_draft now run draft actor status table).1

abbrev pub apply_requests : List ApprovalRequest → List Approval → List Approval
apply_requests [] table = table
apply_requests (r ∷ rs) table = apply_requests rs (apply_request r table)

-- The specification: a request writes the entry of its run and no other.
abbrev pub spec_request : ApprovalRequest → Drafts → Drafts
spec_request (save now new_id tenant task run workflow draft review) m k =
    if run == k
    then some (saved_approval now new_id tenant task run workflow draft review (m k))
    else m k
spec_request (decide now run decision actor payload) m k =
    if run == k then map_option (decided now decision actor payload) (m k) else m k
spec_request (set_status now run status actor payload) m k =
    if run == k then map_option (with_approval_status now status actor payload) (m k) else m k
spec_request (set_draft now run draft actor status) m k =
    if run == k then map_option (with_draft now draft actor status) (m k) else m k

abbrev pub spec_requests : List ApprovalRequest → Drafts → Drafts
spec_requests [] m = m
spec_requests (r ∷ rs) m = spec_requests rs (spec_request r m)

-- The new keys are unused when they are given.
abbrev pub IsFreshRequest : ApprovalRequest → List Approval → Type 0
IsFreshRequest (save now new_id tenant task run workflow draft review) table =
    get_row new_id table ≡ none
IsFreshRequest (decide now run decision actor payload) table = Unit
IsFreshRequest (set_status now run status actor payload) table = Unit
IsFreshRequest (set_draft now run draft actor status) table = Unit

abbrev pub IsFresh : List ApprovalRequest → List Approval → Type 0
IsFresh [] table = Unit
IsFresh (r ∷ rs) table = IsFreshRequest r table × IsFresh rs (apply_request r table)

apply_request-IsUnique :
    (r : ApprovalRequest) (table : List Approval)
    → IsUnique table
    → IsUnique (apply_request r table)
unfolding decide_pending_approval update_pending_approval_status update_pending_approval_draft
    decided with_approval_status with_draft
apply_request-IsUnique (save now new_id tenant task run workflow draft review) table unique =
    save-IsUnique table unique now new_id tenant task run workflow draft review
apply_request-IsUnique (decide now run decision actor payload) table unique =
    change-IsUnique run (decided now decision actor payload) (λ a. refl) (λ a. refl) table unique
apply_request-IsUnique (set_status now run status actor payload) table unique =
    change-IsUnique run (with_approval_status now status actor payload) (λ a. refl) (λ a. refl)
      table unique
apply_request-IsUnique (set_draft now run draft actor status) table unique =
    change-IsUnique run (with_draft now draft actor status) (λ a. refl) (λ a. refl) table unique

drafts-apply_request :
    (r : ApprovalRequest) (table : List Approval)
    → IsUnique table
    → IsFreshRequest r table
    → drafts (apply_request r table) ≡ spec_request r (drafts table)
unfolding decide_pending_approval update_pending_approval_status update_pending_approval_draft
    decided with_approval_status with_draft
drafts-apply_request (save now new_id tenant task run workflow draft review) table unique fresh =
    fun_ext (drafts-save table unique now new_id tenant task run workflow draft review fresh)
drafts-apply_request (decide now run decision actor payload) table unique fresh =
    fun_ext
      (drafts-change run (decided now decision actor payload) (λ a. refl) (λ a. refl) table unique)
drafts-apply_request (set_status now run status actor payload) table unique fresh = fun_ext (
    drafts-change run (with_approval_status now status actor payload) (λ a. refl) (λ a. refl) table
      unique)
drafts-apply_request (set_draft now run draft actor status) table unique fresh =
    fun_ext
      (drafts-change run (with_draft now draft actor status) (λ a. refl) (λ a. refl) table unique)

-- Whatever requests are made, at most one row stands for a run afterwards, if that was so before.
pub apply_requests-IsUnique :
    (rs : List ApprovalRequest) (table : List Approval)
    → IsUnique table
    → IsUnique (apply_requests rs table)
apply_requests-IsUnique [] table unique = unique
apply_requests-IsUnique (r ∷ rs) table unique =
    apply_requests-IsUnique rs (apply_request r table) (apply_request-IsUnique r table unique)

-- Any requests, with unused keys for new rows, act on a table in which at most one row stands for a
-- run as the specification acts on the map from runs to drafts.
pub drafts-apply_requests :
    (rs : List ApprovalRequest) (table : List Approval)
    → IsUnique table
    → IsFresh rs table
    → drafts (apply_requests rs table) ≡ spec_requests rs (drafts table)
drafts-apply_requests [] table unique fresh = refl
drafts-apply_requests (r ∷ rs) table unique fresh =
    drafts-apply_requests rs (apply_request r table) (apply_request-IsUnique r table unique) fresh.1
    ∙ ap (spec_requests rs) (drafts-apply_request r table unique fresh.0)
