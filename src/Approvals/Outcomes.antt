-- ===== src/Approvals/Outcomes.antt =====
-- When a schedule falls due, and what the change of a run's row leaves in the table.
use kachu_v.Prelude.{
  Bool-cases, List, String, [], arith, eq_refl, false, if◌then◌else◌, inl, inr, leb, ok, refl, some,
  strip, ℕ, ◌%◌, ◌*◌, ◌+◌, ◌/◌, ◌<◌, ◌==◌, ◌∙◌, ◌∷◌, ◌≡◌, ◌≢◌, ◌≤◌,
}
use kachu_v.Prelude.Laws.{test_unequal}
use kachu_v.Tenants.{Tenant, tenant_row}
use kachu_v.Approvals.{
  Approval, approval_row, change, update_pending_approval_status, with_approval_status,
}
use kachu_v.Approvals.Due.{Formats, is_due_payload, text_field}
use kachu_v.Approvals.Schedule.{nine_o_clock}
use kachu_v.Approvals.Bridge.{Agents, Office, defer_with_schedule, schedule_payload}
use kachu_v.Approvals.Change.{drafts-change}
use kachu_v.Approvals.Unique.{IsUnique, drafts}
use kachu_v.Approvals.Backlog.{is_overdue}

-- Nine o'clock that is chosen is more than ten minutes and at most a day and ten minutes away, and
-- stands nine hours after a midnight.
pub nine_o_clock_lem :
    (wall : ℕ)
    → (wall + 600000000 < nine_o_clock wall)
      × (nine_o_clock wall ≤ wall + 87000000000)
      × (nine_o_clock wall % 86400000000 ≡ 32400000000)
unfolding nine_o_clock
nine_o_clock_lem wall = (
  ground arith,
  ground arith,
  elim (Bool-cases (leb ((wall / 86400000000) * 86400000000 + 32400000000) (wall + 600000000))) [
    | inl past ↦ rw past (omega arith)
    | inr ahead ↦ rw ahead (omega arith)
  ],
)

-- The table is as it was, or holds the status for the run and all other runs as they were.
abbrev pub Recorded : String → String → List Approval → List Approval → Type 0
Recorded run status table table' =
    ((a : Approval)
      → drafts table run ≡ some a
      → (a' : Approval) × (drafts table' run ≡ some a') × (a'.status ≡ status))
    × ((k : String) → run ≢ k → drafts table' k ≡ drafts table k)

pub change-Recorded :
    (run status : String) (f : Approval → Approval) (table : List Approval)
    → ((x : Approval) → (f x).id ≡ x.id)
    → ((x : Approval) → (f x).agentos_run_id ≡ x.agentos_run_id)
    → ((x : Approval) → (f x).status ≡ status)
    → IsUnique table
    → Recorded run status table (change run f table).1
change-Recorded run status f table keep_id keep_run set unique =
    let after = drafts-change run f keep_id keep_run table unique in
    (
      λ a found. (f a, after run ∙ rw (eq_refl run, found) refl, set a),
      λ k away. after k ∙ rw (test_unequal run k away) refl,
    )

-- The text under a key of a dict that is built from these fields in turn: that of the last of them.
abbrev pub field_or : String → String → List (String × String) → String
field_or text_ key [] = text_
field_or text_ key (f ∷ fields) = field_or (if f.0 == key then f.1 else text_) key fields

-- What the code relies on of JSON: the text of a dict is not empty and is read as that dict, and
-- `get` finds in it the text under a key.
pub record ReadsObjects {J : Type 0} (formats : Formats J) : Type 0 where
  pub full :
      (fields : List (String × String)) → (formats.dumps (formats.object fields) == "") ≡ false
  pub loads-dumps :
      (fields : List (String × String))
      → formats.loads (formats.dumps (formats.object fields)) ≡ some (formats.object fields)
  pub text_field-object :
      (key : String) (fields : List (String × String))
      → text_field formats key (formats.object fields) ≡ ok (strip (field_or "" key fields))

-- What the code relies on of ISO times: the text of the instant has no blanks around it, is not
-- empty, and is read as that instant.
pub record ReadsInstant {J : Type 0} (formats : Formats J) (t : ℕ) : Type 0 where
  pub bare : strip (formats.format_instant t) ≡ formats.format_instant t
  pub named : (formats.format_instant t == "") ≡ false
  pub parse-format : formats.parse_instant (formats.format_instant t) ≡ some t

module _ {J W : Type 0} (formats : Formats J) (agents : Agents J W) where
  -- A schedule: after it the run has a draft that is due at the instant that the owner wants and at
  -- all later ones, and at none before, if the dicts that the code writes are read back, and the
  -- texts of that instant.
  pub defer_with_schedule_due :
      (now : ℕ) (tenants : List Tenant) (run tenant actor wish : String) (db : Office W)
      (a : Approval) (t : ℕ)
      → IsUnique db.approvals
      → drafts db.approvals run ≡ some a
      → formats.parse_instant wish ≡ some t
      → ReadsObjects formats
      → ReadsInstant formats t
      → (a' : Approval) × (drafts
            (defer_with_schedule formats agents now tenants run tenant actor wish db).1.approvals
            run
          ≡ some a')
        × ((now' : ℕ) → is_overdue formats now' a' ≡ leb t now')
  unfolding defer_with_schedule with_approval_status update_pending_approval_status is_due_payload
      schedule_payload
  defer_with_schedule_due now tenants run tenant actor wish db a t unique found parsed objects
        instant =
      let payload = schedule_payload formats tenants tenant t in
      let f = with_approval_status now "scheduled" actor (some (formats.dumps payload)) in
      (
        f a,
        rw (found, defer_with_schedule, parsed)
            (drafts-change run f (λ _. refl) (λ _. refl) db.approvals unique run
              ∙ rw (eq_refl run, found) refl),
        λ now'.
            rw
              (
                objects.full _,
                is_due_payload,
                objects.loads-dumps _,
                objects.text_field-object "scheduled_for" _,
                instant.bare,
                instant.named,
                instant.parse-format,
              )
              refl,
      )
