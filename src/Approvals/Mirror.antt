-- ===== src/Approvals/Mirror.antt =====
-- The sync writes to each open approval what AgentOS has decided (`sync_open_approvals`).
use kachu_v.Table.Counts.{All-take, Pairs-filter, Pairs-order_by, Pairs-take}
use kachu_v.Table.Pairs.{All-filter, All-map, All-order_by, Pairs}
use kachu_v.Prelude.{
  All, Bool-cases, Error, List, Option-cases, Result-cases, String, [], arith, filter, inl, inr,
  length, max, none, ok, eq_iff, false, or_text, order_by, raise, refl, some, strip, subst, sym,
  take, true, ℕ, ◌+◌, ◌∙◌, ◌∷◌, ◌==◌, ◌≡◌, ◌≢◌, ◌⊎◌,
}
use kachu_v.Approvals.{
  Approval, approval_row, decide_pending_approval, decided, kept_by, list_pending_approvals,
}
use kachu_v.Approvals.Due.{Formats}
use kachu_v.Approvals.Bridge.{AgentApproval, Agents, RunView}
use kachu_v.Approvals.Sync.{
  SyncCounts, is_terminal, mirror, sync_open_approvals, sync_row, sync_rows, terminal_approval,
}
use kachu_v.Approvals.Change.{change_row}
use kachu_v.Approvals.Unique.{IsUnique, OtherRun, drafts, own_drafts}

-- The decision is neither to approve nor to reject.
abbrev pub IsOpen : AgentApproval → Type 0
IsOpen a = (strip a.decision ≢ "approved") × (strip a.decision ≢ "rejected")

-- The decision is to approve or to reject, and stands in the list with no such decision behind it.
pub data IsLastDecision (d : AgentApproval) : List AgentApproval → Type 0 where
  here_last :
      (rest : List AgentApproval)
      → (strip d.decision ≡ "approved") ⊎ (strip d.decision ≡ "rejected")
      → All IsOpen rest
      → IsLastDecision d (d ∷ rest)
  later :
      (a : AgentApproval) (rest : List AgentApproval)
      → IsLastDecision d rest
      → IsLastDecision d (a ∷ rest)

not_terminal-IsOpen : (a : AgentApproval) → is_terminal a ≡ false → IsOpen a
not_terminal-IsOpen a h = (
  λ e. ground (arith, eq_iff "approved" (strip a.decision)),
  λ e. ground (arith, eq_iff "rejected" (strip a.decision)),
)

is_terminal-decides :
    (a : AgentApproval)
    → is_terminal a ≡ true
    → (strip a.decision ≡ "approved") ⊎ (strip a.decision ≡ "rejected")
is_terminal-decides a h = elim (Bool-cases ("approved" == strip a.decision)) [
  | inl yes_text ↦ inl (ground (arith, eq_iff "approved" (strip a.decision)))
  | inr no_text ↦ inr (ground (arith, eq_iff "rejected" (strip a.decision)))
]

terminal_approval-IsOpen :
    (approvals : List AgentApproval) → terminal_approval approvals ≡ none → All IsOpen approvals
unfolding terminal_approval
terminal_approval-IsOpen [] h = tt
terminal_approval-IsOpen (a ∷ rest) h = elim (Option-cases (terminal_approval rest)) [
  | inr (d, found) ↦ absurd (cc (rw found at h))
  | inl missing ↦ elim (Bool-cases (is_terminal a)) [
    | inl decides ↦ absurd (cc (rw (missing, decides) at h))
    | inr waits ↦ (not_terminal-IsOpen a waits, terminal_approval-IsOpen rest missing)
  ]
]

terminal_approval-IsLastDecision :
    (d : AgentApproval) (approvals : List AgentApproval)
    → terminal_approval approvals ≡ some d
    → IsLastDecision d approvals
unfolding terminal_approval
terminal_approval-IsLastDecision d [] h = absurd (cc)
terminal_approval-IsLastDecision d (a ∷ rest) h = elim (Option-cases (terminal_approval rest)) [
  | inr (b, found) ↦
      later a rest (terminal_approval-IsLastDecision d rest (found ∙ (rw found at h)))
  | inl missing ↦ elim (Bool-cases (is_terminal a)) [
    | inr waits ↦ absurd (cc (rw (missing, waits) at h))
    | inl decides ↦
        let same : a ≡ d = cc (rw (missing, decides) at h) in
        subst (λ x. IsLastDecision x (a ∷ rest)) same
          (here_last rest (is_terminal-decides a decides) (terminal_approval-IsOpen rest missing))
  ]
]

-- Such a decision is not blank, and so it is written as it is.
decides-text :
    (d : AgentApproval)
    → (strip d.decision ≡ "approved") ⊎ (strip d.decision ≡ "rejected")
    → or_text d.decision "pending" ≡ d.decision
unfolding strip
decides-text d decides = elim (Bool-cases (d.decision == "")) [
  | inr named ↦ rw named refl
  | inl blank ↦
      let empty : d.decision ≡ "" = ground (arith, eq_iff d.decision "") in
      elim decides [ inl e ↦ absurd (cc (rw empty at e)) | inr e ↦ absurd (cc (rw empty at e)) ]
]

IsLastDecision-text :
    (d : AgentApproval) (approvals : List AgentApproval)
    → IsLastDecision d approvals
    → or_text d.decision "pending" ≡ d.decision
IsLastDecision-text d _ (here_last rest decides waits) = decides-text d decides
IsLastDecision-text d _ (later a rest last) = IsLastDecision-text d rest last

module _ {J W : Type 0} (formats : Formats J) (agents : Agents J W) (world : W) (now : ℕ) where
  -- The status that a draft has after the sync: that of the last decision to approve or to reject
  -- that AgentOS tells of its run, and the status it had, if AgentOS raises or tells no such
  -- decision.
  abbrev pub HasMirrored : Approval → String → Type 0
  HasMirrored a status =
      ((e : Error) × (agents.get_run a.agentos_run_id world ≡ raise e) × (status ≡ a.status))
      ⊎ (view : RunView) × (agents.get_run a.agentos_run_id world ≡ ok view)
        × (All IsOpen view.approvals × (status ≡ a.status)
            ⊎ (d : AgentApproval) × IsLastDecision d view.approvals × (status ≡ d.decision))

  abbrev pub IsMirrored : List Approval → Approval → Type 0
  IsMirrored table a =
      (a' : Approval) × (drafts table a.agentos_run_id ≡ some a') × HasMirrored a a'.status

  -- What one row of the loop does: the row's draft has the mirrored status, the other runs are as
  -- they were, and one of the three counts is one more.
  abbrev RowSynced : Approval → SyncCounts → List Approval → SyncCounts × List Approval → Type 0
  RowSynced a counts table after =
      IsUnique after.1
      × IsMirrored after.1 a
      × ((k : String) → a.agentos_run_id ≢ k → drafts after.1 k ≡ drafts table k)
      × (after.0.synced + after.0.skipped + after.0.failed
          ≡ counts.synced + counts.skipped + counts.failed + 1)
      × (after.0.checked ≡ counts.checked)

  sync_row_lem :
      (a : Approval) (counts : SyncCounts) (table : List Approval)
      → IsUnique table
      → drafts table a.agentos_run_id ≡ some a
      → RowSynced a counts table (sync_row formats agents world now a counts table)
  unfolding mirror decide_pending_approval decided sync_row
  sync_row_lem a counts table unique found =
      let call = sync_row formats agents world now a counts table in
      elim (Result-cases (agents.get_run a.agentos_run_id world)) [
        | inr (e, failed) ↦
            let after : call ≡ (record counts { failed = counts.failed + 1 }, table) =
              rw (sync_row, failed) refl in
            subst (RowSynced a counts table) (sym after)
              (unique, (a, found, inl (e, failed, refl)), λ k away. refl, ground arith, refl)
        | inl (view, seen) ↦ elim (Option-cases (terminal_approval view.approvals)) [
          | inl open_still ↦
              let after : call ≡ (record counts { skipped = counts.skipped + 1 }, table) =
                rw (sync_row, seen, open_still) refl in
              subst (RowSynced a counts table) (sym after) (
                unique,
                (
                  a,
                  found,
                  inr (view, seen, inl (terminal_approval-IsOpen view.approvals open_still, refl)),
                ),
                λ k away. refl,
                ground arith,
                refl,
              )
          | inr (d, decision) ↦
              let table' = mirror formats agents world now d view a.agentos_run_id table in
              let after : call ≡ (record counts { synced = counts.synced + 1 }, table') =
                rw (sync_row, seen, decision) refl in
              let (unique', _, frame, own) =
                change_row
                  (decided now (or_text d.decision "pending") (or_text d.actor_id "agentos-sync") (
                    formats.dumps (
                      formats.object (
                        ("synced_from", "agentos")
                        ∷ ("approval_id", d.id)
                        ∷ ("run_status", elim view.run_status [ none ↦ "" | some s ↦ s ])
                        ∷ []))))
                  a table (λ _. refl) (λ _. refl) unique found in
              subst (RowSynced a counts table) (sym after) (
                unique',
                (
                  _,
                  own,
                  let last = terminal_approval-IsLastDecision d view.approvals decision in
                      inr (view, seen, inr (d, last, IsLastDecision-text d view.approvals last)),
                ),
                frame,
                ground arith,
                refl,
              )
        ]
      ]

  sync_rows_lem :
      (rows : List Approval) (counts : SyncCounts) (table : List Approval)
      → IsUnique table
      → Pairs OtherRun rows
      → All (λ a. drafts table a.agentos_run_id ≡ some a) rows
      → let after = sync_rows formats agents world now rows counts table in
        All (IsMirrored after.1) rows
        × (after.0.synced + after.0.skipped + after.0.failed
            ≡ counts.synced + counts.skipped + counts.failed + length rows)
        × (after.0.checked ≡ counts.checked)
        × ((k : String) → All (λ a. a.agentos_run_id ≢ k) rows → drafts after.1 k ≡ drafts table k)
  unfolding sync_rows
  sync_rows_lem [] counts table unique distinct stored = (tt, ground arith, refl, λ k away. refl)
  sync_rows_lem (a ∷ rows) counts table unique distinct stored =
      let after = sync_row formats agents world now a counts table in
      let (unique', (a', here, has), frame, more, same) =
        sync_row_lem a counts table unique stored.0 in
      let (rest, sum, checked, others) =
        sync_rows_lem rows after.0 after.1 unique' distinct.1
          (still rows frame distinct.0 stored.1) in
      (
        ((a', others a.agentos_run_id (behind rows distinct.0) ∙ here, has), rest),
        ground arith,
        checked ∙ same,
        λ k away. others k away.1 ∙ frame k away.0,
      )
    where
      still :
          (xs : List Approval)
          → ((k : String)
              → a.agentos_run_id ≢ k
              → drafts (sync_row formats agents world now a counts table).1 k ≡ drafts table k)
          → All (OtherRun a) xs
          → All (λ x. drafts table x.agentos_run_id ≡ some x) xs
          → All
              (λ x.
                drafts (sync_row formats agents world now a counts table).1 x.agentos_run_id
                ≡ some x)
              xs
      still [] frame away h = tt
      still (x ∷ xs) frame away h = (frame x.agentos_run_id away.0 ∙ h.0, still xs frame away.1 h.1)

      behind :
          (xs : List Approval)
          → All (OtherRun a) xs
          → All (λ x. x.agentos_run_id ≢ a.agentos_run_id) xs
      behind [] away = tt
      behind (x ∷ xs) away = ((λ e. away.0 (sym e)), behind xs away.1)

  -- A sync gives each row that it lists the last decision to approve or to reject that AgentOS tells
  -- of its run, or the status it had where AgentOS tells none or raises, leaves the rows of all other
  -- runs as they were, and counts each row that it checked once: as synced, skipped or failed.
  pub sync_open_approvals-IsMirrored :
      (limit : ℕ) (table : List Approval)
      → IsUnique table
      → let rows =
          list_pending_approvals
            ("pending" ∷ "delivery_failed" ∷ [])
            ("kachu_planned_content" ∷ "kachu_meta_reply" ∷ [])
            limit
            table in
        let after = sync_open_approvals formats agents world now limit table in
        All (IsMirrored after.1) rows
        × ((k : String) → All (λ a. a.agentos_run_id ≢ k) rows → drafts after.1 k ≡ drafts table k)
        × (after.0.checked ≡ length rows)
        × (after.0.synced + after.0.skipped + after.0.failed ≡ after.0.checked)
  unfolding sync_open_approvals list_pending_approvals
  sync_open_approvals-IsMirrored limit table unique =
      let p =
        kept_by ("pending" ∷ "delivery_failed" ∷ [])
          ("kachu_planned_content" ∷ "kachu_meta_reply" ∷ []) in
      let rows =
        take (max limit 1)
          (order_by (λ a. a.updated_at) (order_by (λ a. a.created_at) (filter p table))) in
      let symm : (x y : Approval) → OtherRun x y → OtherRun y x = λ x y d e. d (sym e) in
      let (mirrored, sum, checked, others) =
        sync_rows_lem rows (record { checked = length rows; synced = 0; skipped = 0; failed = 0 })
          table unique
          (Pairs-take OtherRun (max limit 1) _ (
            Pairs-order_by OtherRun _ _ symm
              (Pairs-order_by OtherRun _ _ symm (Pairs-filter OtherRun p table unique.1))))
          (All-take _ (max limit 1) _ (
            All-order_by _ _ _ (
              All-order_by _ _ _ (
                All-map (filter p table) (λ a h. h.0)
                  (All-filter _ p table (own_drafts table unique.1)))))) in
      (mirrored, others, checked, ground arith)
