-- ===== src/Approvals/Liveness.antt =====
-- The service for scheduled approvals leaves no approval behind while AgentOS answers.
use kachu_v.Prelude.{
  All, Bool, Bool-cases, List, Option-cases, Result-cases, String, [], ap, arith, count, inl, inr,
  leb, length, ltb, max, ok, or_text, refl, subst, sym, true, ℕ, ◌+◌, ◌==◌, ◌∙◌, ◌∷◌, ◌≡◌, ◌≤◌, ◌⊎◌,
}
use kachu_v.Table.Pairs.{All-map}
use kachu_v.Tenants.{Tenant, tenant_row}
use kachu_v.Approvals.{Approval, approval_row, decided}
use kachu_v.Approvals.Due.{Formats, is_due_payload, is_scheduled, text_field}
use kachu_v.Approvals.Schedule.{Zones}
use kachu_v.Approvals.Bridge.{Agents, Office}
use kachu_v.Approvals.Scheduled.{DueCounts, process_due_approvals}
use kachu_v.Approvals.Unique.{own_drafts}
use kachu_v.Approvals.Backlog.{
  due_rows, due_rows-All, due_rows-Pairs, is_due_row, is_overdue, length-due_rows,
  list_due_scheduled_approvals_lem,
}
use kachu_v.Approvals.Progress.{Approved, Orderly, Passing, Serves, approve_rows_lem}

-- The service is run at these times, one after another.
abbrev pub process_runs :
    {J W : Type 0}
    → Formats J
    → Agents J W
    → Zones
    → List Tenant
    → (limit : ℕ) → List ℕ
    → Office W
    → Office W
process_runs formats agents zones tenants limit [] db = db
process_runs formats agents zones tenants limit (t ∷ ts) db =
    process_runs formats agents zones tenants limit ts
      (process_due_approvals formats agents zones tenants t limit db).1

-- What is due stays due.
is_due_row_mono :
    {J : Type 0} (formats : Formats J) (s t : ℕ) (a : Approval)
    → s ≤ t
    → is_due_row formats s a ≡ true
    → is_due_row formats t a ≡ true
unfolding is_due_payload
is_due_row_mono formats s t a h due =
    elim (Option-cases (formats.loads (or_text a.decision_payload_json "{}"))) [
      | inl broken ↦ absurd (cc (rw (broken, is_due_payload) at due))
      | inr (payload, loaded) ↦ elim (Result-cases (text_field formats "scheduled_for" payload)) [
        | inr (e, failed) ↦ absurd (cc (rw (loaded, is_due_payload, failed) at due))
        | inl (scheduled, read) ↦ elim (Bool-cases (scheduled == "")) [
          | inl blank ↦ absurd (cc (rw (loaded, is_due_payload, read, blank) at due))
          | inr named ↦ elim (Option-cases (formats.parse_instant scheduled)) [
            | inl wrong ↦ absurd (cc (rw (loaded, is_due_payload, read, named, wrong) at due))
            | inr (instant, parsed) ↦
                let before : leb instant s ≡ true =
                  rw (loaded, is_due_payload, read, named, parsed) at due in
                rw (loaded, is_due_payload, read, named, parsed) (ground arith)
          ]
        ]
      ]
    ]

abbrev approving : ℕ → ℕ → DueCounts
approving due n = record { due = due; approved = n; failed = 0 }

count_mono :
    (p q : Approval → Bool) (table : List Approval)
    → ((a : Approval) → p a ≡ true → q a ≡ true)
    → count p table ≤ count q table
count_mono p q [] h = ground arith
count_mono p q (a ∷ table) h = ground (arith, count_mono p q table h, h a)

module _ {J W : Type 0} (agents : Agents J W) (Open : W → String → Type 0) (formats : Formats J)
    (serves : Serves agents Open) (zones : Zones) (tenants : List Tenant) (limit : ℕ) where
  process_due_approvals_lem :
      (now : ℕ) (db : Office W)
      → Orderly agents Open formats db
      → let rows = due_rows formats now limit db.approvals in
        (db' : Office W) × (process_due_approvals formats agents zones tenants now limit db
          ≡ (ok (approving (length rows) (length rows)), db'))
        × Approved agents Open formats serves zones tenants now db db' rows
  unfolding process_due_approvals
  process_due_approvals_lem now db orderly =
      let rows = due_rows formats now limit db.approvals in
      let (db', done, after) =
        approve_rows_lem agents Open formats serves zones tenants now rows
          (approving (length rows) 0) db orderly
          (due_rows-Pairs formats now limit db.approvals orderly.0.1)
          (All-map rows (λ a h. (h.0, ground arith))
            (due_rows-All formats now limit db.approvals _
              (own_drafts db.approvals orderly.0.1))) in
      (
        db',
        rw
            (
              process_due_approvals,
              list_due_scheduled_approvals_lem formats now limit db.approvals
                  (All-map db.approvals (λ a h. h now) orderly.1),
            )
            (done
              ∙ ap (λ n. (ok (approving (length rows) n), db')) {x = 0 + length rows}
                  {y = length rows} (ground arith)),
        after,
      )

  overdue-Passing :
      (t now : ℕ) → Passing agents Open formats serves zones tenants now (is_overdue formats t)
  unfolding decided
  overdue-Passing t now actor payload a = refl

  scheduled-Passing : (now : ℕ) → Passing agents Open formats serves zones tenants now is_scheduled
  unfolding decided
  scheduled-Passing now actor payload a = refl

  rows_overdue :
      (now : ℕ) (db : Office W)
      → Orderly agents Open formats db
      → All (λ a. is_overdue formats now a ≡ true) (due_rows formats now limit db.approvals)
  rows_overdue now db orderly =
      All-map (due_rows formats now limit db.approvals) (λ a h. h.1)
        (due_rows-All formats now limit db.approvals _ orderly.1)

  -- One run of the service, while AgentOS answers for each scheduled row: it returns, approves all
  -- that it lists and fails on none; it lists all that is due or as many as the limit (at least
  -- one), and as many fewer are due afterwards.
  pub process_due_approvals_serves :
      (now : ℕ) (db : Office W)
      → Orderly agents Open formats db
      → (counts : DueCounts) × (db' : Office W) × (process_due_approvals formats agents zones
            tenants now limit db
          ≡ (ok counts, db'))
        × (counts.approved ≡ counts.due)
        × (counts.failed ≡ 0)
        × ((counts.due ≡ max limit 1) ⊎ (counts.due ≡ count (is_overdue formats now) db.approvals))
        × (count (is_overdue formats now) db'.approvals + counts.due
            ≡ count (is_overdue formats now) db.approvals)
  process_due_approvals_serves now db orderly =
      let rows = due_rows formats now limit db.approvals in
      let (db', done, after) = process_due_approvals_lem now db orderly in
      (
        approving (length rows) (length rows),
        db',
        done,
        refl,
        refl,
        elim (length-due_rows formats now limit db.approvals) [
          | inl (e, _) ↦ inl e
          | inr (e, _) ↦ inr e
        ],
        after.1 (is_overdue formats now) (overdue-Passing now now) (rows_overdue now db orderly),
      )

  runs_le :
      (p : Approval → Bool)
      → ((now : ℕ) → Passing agents Open formats serves zones tenants now p)
      → (times : List ℕ) (db : Office W) → Orderly agents Open formats db
      → count p (process_runs formats agents zones tenants limit times db).approvals
        ≤ count p db.approvals
  runs_le p pass [] db orderly = ground arith
  runs_le p pass (t ∷ ts) db orderly =
      let (db', done, after) = process_due_approvals_lem t db orderly in
      subst
        (λ q.
          count p (process_runs formats agents zones tenants limit ts q.1).approvals
          ≤ count p db.approvals)
        (sym done) (ground (arith, runs_le p pass ts db' after.0, after.2 p (pass t)))

  -- No approval is left behind: while AgentOS answers for each scheduled row, no approval that was
  -- due at an instant is still scheduled after as many runs at or after it as rows were scheduled,
  -- whatever the limit is.
  pub process_runs_serve :
      (times : List ℕ) (db : Office W) (due_at : ℕ)
      → Orderly agents Open formats db
      → All (λ t. due_at ≤ t) times
      → count is_scheduled db.approvals ≤ length times
      → count
          (is_overdue formats due_at)
          (process_runs formats agents zones tenants limit times db).approvals
        ≡ 0
  process_runs_serve [] db due_at orderly later enough = ground (
    arith,
    count_mono (is_overdue formats due_at) is_scheduled db.approvals (λ a h. ground arith),
  )
  process_runs_serve (t ∷ ts) db due_at orderly later enough =
      let rows = due_rows formats t limit db.approvals in
      let (db', done, after) = process_due_approvals_lem t db orderly in
      let fewer =
        after.1 is_scheduled (scheduled-Passing t)
          (All-map rows (λ a h. ground arith) (rows_overdue t db orderly)) in
      let rest = process_runs_serve ts db' due_at after.0 later.1 in
      let none_left = runs_le (is_overdue formats due_at) (overdue-Passing due_at) ts db' after.0 in
      let less = after.2 (is_overdue formats due_at) (overdue-Passing due_at t) in
      let still_due =
        count_mono (is_overdue formats due_at) (is_overdue formats t) db.approvals
          (λ a h. ground (arith, is_due_row_mono formats due_at t a later.0)) in
      subst
        (λ q.
          count (is_overdue formats due_at)
            (process_runs formats agents zones tenants limit ts q.1).approvals
          ≡ 0)
        (sym done)
        (elim (length-due_rows formats t limit db.approvals) [
          | inl (e, h) ↦ rest (ground arith)
          | inr (e, h) ↦ elim (Bool-cases (ltb 0 (length rows))) [
            | inl some_left ↦ rest (ground arith)
            | inr nothing ↦ ground arith
          ]
        ])
