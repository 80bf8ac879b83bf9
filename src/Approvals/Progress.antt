-- ===== src/Approvals/Progress.antt =====
-- What the service for scheduled approvals achieves while AgentOS answers.
use kachu_v.Approvals.Scheduled.{DueCounts, approve_rows, tally}
use kachu_v.Table.Counts.{count-put_row, count-put_row_le}
use kachu_v.Table.{get_row}
use kachu_v.Table.Pairs.{All-put_row, Pairs, get_row-of_first}
use kachu_v.Approvals.Schedule.{Zones}
use kachu_v.Prelude.{
  All, Bool, List, Option, String, [], ap, arith, count, false, first, length, ok, refl, some,
  subst, suc, sym, true, ℕ, ◌+◌, ◌∙◌, ◌∷◌, ◌≡◌, ◌≢◌, ◌≤◌,
}
use kachu_v.Tenants.{Tenant, tenant_row}
use kachu_v.Approvals.{
  Approval, approval_row, change, decide_pending_approval, decided, get_pending_approval_by_run_id,
  is_run,
}
use kachu_v.Approvals.Due.{Formats, is_scheduled}
use kachu_v.Approvals.Bridge.{
  Agents, ApprovalResult, Office, RunView, approve, decide_run, edited_payload, handle_postback,
  open_approval, payload_text, record_decision, result, status_or_unknown,
}
use kachu_v.Approvals.Change.{change_row}
use kachu_v.Approvals.Unique.{IsUnique, OtherRun, drafts}
use kachu_v.Approvals.Backlog.{Readable}

module _ {J W : Type 0} (agents : Agents J W) (Open : W → String → Type 0) where
  -- While a run is open, AgentOS names its approval and takes a decision on it, which leaves the
  -- other runs open; the review returns and leaves all runs open.
  abbrev pub Serves : Type 0
  Serves =
      ((w : W) (run : String)
        → Open w run
        → (view : RunView) × (id : String) × (agents.get_run run w ≡ ok view)
          × (open_approval view.approvals ≡ some id)
          × ((decision actor : String) (payload : Option J)
              → (view' : RunView) × (w' : W) × (agents.decide id decision actor payload w
                  ≡ (ok view', w'))
                × ((k : String) → run ≢ k → Open w k → Open w' k)))
      × ((tenant workflow outcome run : String) (w : W)
          → (w' : W) × (agents.after_approval_decision tenant workflow outcome run w ≡ (ok tt, w'))
            × ((k : String) → Open w k → Open w' k))

  -- What the service relies on: one row for each run, payloads of scheduled rows that are read
  -- without an exception, and an open run for each scheduled row.
  abbrev pub Orderly : Formats J → Office W → Type 0
  Orderly formats db =
      IsUnique db.approvals
      × All (λ a. (t : ℕ) → Readable formats t a) db.approvals
      × ((k : String) (a : Approval)
          → drafts db.approvals k ≡ some a
          → is_scheduled a ≡ true
          → Open db.world k)

  module _ (formats : Formats J) (serves : Serves) where
    decide_run_lem :
        (now : ℕ) (run tenant actor : String) (db : Office W) (a : Approval)
        → first (is_run run) db.approvals ≡ some a
        → Open db.world run
        → (r : ApprovalResult) × (w : W) × (payload : String) × (decide_run formats agents now run
              tenant "approved" actor db
            ≡ (
              ok r,
              record {
                approvals = (change run (decided now "approved" actor payload) db.approvals).1;
                world = w;
              },
            ))
          × (r.decision ≡ "approved")
          × ((k : String) → run ≢ k → Open db.world k → Open w k)
    unfolding decide_run record_decision decide_pending_approval
    decide_run_lem now run tenant actor db a found is_open =
        let (view, id, seen, named, takes) = serves.0 db.world run is_open in
        let edited = edited_payload formats "approved" (some a) in
        let (view', w, took, others) = takes "approved" actor edited in
        let (w', told, all_open) = serves.1 tenant a.workflow_type "approved" run w in
        (
          result (status_or_unknown view') "approved" "",
          w',
          payload_text formats
              (edited_payload formats "approved" (first (is_run run) db.approvals)),
          rw (seen, decide_run, named, found, took, record_decision, found, told)
              (ap {A = Option Approval}
                (λ o. (
                  ok (result (status_or_unknown view') "approved" ""),
                  record {
                    approvals =
                        (decide_pending_approval now run "approved" actor
                          (payload_text formats (edited_payload formats "approved" o))
                          db.approvals).1;
                    world = w';
                  },
                ))
                found),
          refl,
          λ k away o. all_open k (others k away o),
        )

    -- One row: its run is approved, and what was orderly stays so.
    module _ (zones : Zones) (tenants : List Tenant) (now : ℕ) where
      -- A test that no row passes once it is approved.
      abbrev pub Passing : (Approval → Bool) → Type 0
      Passing p =
          (actor payload : String) (a : Approval)
          → p (decided now "approved" actor payload a) ≡ false

      abbrev pub Approved : Office W → Office W → List Approval → Type 0
      Approved db db' rows =
          Orderly formats db'
          × ((p : Approval → Bool)
              → Passing p
              → All (λ a. p a ≡ true) rows
              → count p db'.approvals + length rows ≡ count p db.approvals)
          × ((p : Approval → Bool) → Passing p → count p db'.approvals ≤ count p db.approvals)

      approve_row :
          (a : Approval) (db : Office W)
          → Orderly formats db
          → drafts db.approvals a.agentos_run_id ≡ some a
          → is_scheduled a ≡ true
          → (r : ApprovalResult) × (db' : Office W) × (handle_postback formats agents now zones
                tenants a.agentos_run_id a.tenant_id approve "scheduled-publisher" db
              ≡ (ok r, db'))
            × (r.decision ≡ "approved")
            × Approved db db' (a ∷ [])
            × ((k : String) → a.agentos_run_id ≢ k → drafts db'.approvals k ≡ drafts db.approvals k)
      unfolding handle_postback get_pending_approval_by_run_id decided change
      approve_row a db (unique, readable, runs_open) found scheduled =
          let (r, w, payload, done, named, others) =
            decide_run_lem now a.agentos_run_id a.tenant_id "scheduled-publisher" db a found
              (runs_open a.agentos_run_id a found scheduled) in
          let f = decided now "approved" "scheduled-publisher" payload in
          let (unique', e, frame, own) =
            change_row f a db.approvals (λ _. refl) (λ _. refl) unique found in
          let here : get_row a.id db.approvals ≡ some a =
            get_row-of_first (is_run a.agentos_run_id) a db.approvals unique.0 found in
          let fails : is_scheduled (f a) ≡ false = refl in
          let off : (k : String) (x : Approval)
              → drafts (change a.agentos_run_id f db.approvals).1 k ≡ some x
              → is_scheduled x ≡ true
              → a.agentos_run_id ≢ k =
            λ k x there sched same. absurd (cc (own, there, same, sched, fails)) in
          (
            r,
            record { approvals = (change a.agentos_run_id f db.approvals).1; world = w },
            done,
            named,
            (
              (
                unique',
                subst (All _) (sym e)
                    (All-put_row _ (f a) db.approvals (λ t sched. absurd (cc sched)) readable),
                λ k x there sched.
                    others k (off k x there sched)
                      (runs_open k x (sym (frame k (off k x there sched)) ∙ there) sched),
              ),
              λ p no pass.
                  subst (λ t. count p t + 1 ≡ count p db.approvals) (sym e)
                    (count-put_row p (f a) a db.approvals here pass.0
                      (no "scheduled-publisher" payload a)),
              λ p no.
                  subst (λ t. count p t ≤ count p db.approvals) (sym e)
                    (count-put_row_le p (f a) db.approvals (no "scheduled-publisher" payload a)),
            ),
            frame,
          )

      tally_lem :
          (r : ApprovalResult) (counts : DueCounts)
          → r.decision ≡ "approved"
          → tally r counts ≡ record counts { approved = counts.approved + 1 }
      tally_lem r counts named = rw named refl

      -- The loop over rows of different runs that are scheduled in the table.
      pub approve_rows_lem :
          (rows : List Approval) (counts : DueCounts) (db : Office W)
          → Orderly formats db
          → Pairs OtherRun rows
          → All
              (λ a. (drafts db.approvals a.agentos_run_id ≡ some a) × (is_scheduled a ≡ true))
              rows
          → (db' : Office W) × (approve_rows formats agents zones tenants now rows counts db
              ≡ (ok (record counts { approved = counts.approved + length rows }), db'))
            × Approved db db' rows
      unfolding approve_rows
      approve_rows_lem [] counts db orderly distinct stored = (
        db,
        ap (λ n. (ok (record counts { approved = n }), db)) {x = counts.approved}
            {y = counts.approved + 0} (ground arith),
        (orderly, λ p no pass. ground arith, λ p no. ground arith),
      )
      approve_rows_lem (a ∷ rows) counts db orderly distinct stored =
          let (r, db', done, named, (orderly', fewer, less), frame) =
            approve_row a db orderly stored.0.0 stored.0.1 in
          let (db'', rest, (orderly'', fewer', less')) =
            approve_rows_lem rows (tally r counts) db' orderly' distinct.1
              (still rows db' frame distinct.0 stored.1) in
          (
            db'',
            rw (done, approve_rows, done)
                (rest
                  ∙ (ap (λ c. (ok (record c { approved = c.approved + length rows }), db''))
                        (tally_lem r counts named)
                      ∙ ap (λ n. (ok (record counts { approved = n }), db''))
                          {x = counts.approved + 1 + length rows}
                          {y = counts.approved + suc (length rows)} (ground arith))),
            (
              orderly'',
              λ p no pass. ground (arith, fewer p no (pass.0, tt), fewer' p no pass.1),
              λ p no. ground (arith, less p no, less' p no),
            ),
          )
        where
          still :
              (xs : List Approval) (db' : Office W)
              → ((k : String)
                  → a.agentos_run_id ≢ k
                  → drafts db'.approvals k ≡ drafts db.approvals k)
              → All (OtherRun a) xs
              → All
                  (λ x. (drafts db.approvals x.agentos_run_id ≡ some x) × (is_scheduled x ≡ true))
                  xs
              → All
                  (λ x. (drafts db'.approvals x.agentos_run_id ≡ some x) × (is_scheduled x ≡ true))
                  xs
          still [] db' frame away h = tt
          still (x ∷ xs) db' frame away h =
              ((frame x.agentos_run_id away.0 ∙ h.0.0, h.0.1), still xs db' frame away.1 h.1)
