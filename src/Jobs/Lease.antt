-- ===== src/Jobs/Lease.antt =====
-- While a job is leased or not yet due, no worker gets it (`claim_due_recurring_job`).
use kachu_v.Table.Pairs.{first-All}
use kachu_v.Table.Laws.{first-put_row_found, first-put_row_new, first_sound}
use kachu_v.Prelude.{
  All, Bool-cases, List, Option-cases, String, arith, eq_iff, first, inl, inr, ltb, max, none, not,
  refl, some, sym, true, ℕ, ◌&&◌, ◌+◌, ◌<◌, ◌==◌, ◌↔◌, ◌∙◌, ◌≡◌, ◌≢◌, ◌≤◌, ◌⊎◌,
}
use kachu_v.Table.{IsKeyed, get_row, put_row}
use kachu_v.Jobs.{
  Job, claim_due_recurring_job, get_recurring_job, is_job, is_locked, job_row,
  mark_recurring_job_completed, mark_recurring_job_failed, new_job, or_new, seconds,
}

-- No worker gets the job at the instant `t`: the claim returns none and writes nothing.
abbrev pub IsRefused : String → String → List Job → ℕ → Type 0
IsRefused tenant job_type table t =
    (fresh : String) (lease : ℕ)
    → claim_due_recurring_job t fresh tenant job_type lease table ≡ (none, table)

-- A claim returns no job and writes nothing, or it leases the job of the query or a new one.
module _ (now : ℕ) (new_id tenant job_type : String) (lease : ℕ) (table : List Job) where
  abbrev candidate : Job
  candidate =
      or_new (first (is_job tenant job_type) table)
        (unfold new_job in new_job now new_id tenant job_type)

  abbrev claimed : Job
  claimed = record candidate {
    locked_until = some (now + seconds (max lease 60));
    updated_at = now;
  }

  claim_cases :
      (claim_due_recurring_job now new_id tenant job_type lease table ≡ (none, table))
      ⊎ (claim_due_recurring_job now new_id tenant job_type lease table
          ≡ (some claimed, put_row claimed table))
  unfolding claim_due_recurring_job
  claim_cases = elim (Bool-cases (is_locked now candidate && not (candidate.id == ""))) [
    | inl held ↦ inl (rw held)
    | inr open_ ↦ elim (Bool-cases (ltb now candidate.next_run_at && not (candidate.id == ""))) [
      | inl early ↦ inl (rw (open_, early))
      | inr due ↦ inr (rw (open_, due))
    ]
  ]

-- A stored job with an identifier is refused while it is locked or not due.
IsRefused-row :
    (t : ℕ) (tenant job_type : String) (j : Job) (table : List Job)
    → first (is_job tenant job_type) table ≡ some j
    → j.id ≢ ""
    → (is_locked t j ≡ true) ⊎ (ltb t j.next_run_at ≡ true)
    → IsRefused tenant job_type table t
unfolding claim_due_recurring_job
IsRefused-row t tenant job_type j table found named held fresh lease =
    rw found (ground (arith, eq_iff j.id ""))

-- Each row has a primary key of its own, which is no empty text.
abbrev pub IsStored : List Job → Type 0
IsStored table = IsKeyed table × All (λ j. j.id ≢ "") table

module _ (now : ℕ) (new_id tenant job_type : String) (lease : ℕ) (table : List Job)
    (stored : IsStored table) (fresh : new_id ≢ "") where
  -- The row that was leased is the row that the next query finds.
  claimed_found :
      let j = claimed now new_id tenant job_type lease table in
      (first (is_job tenant job_type) (put_row j table) ≡ some j) × (j.id ≢ "")
  unfolding new_job
  claimed_found = elim (Option-cases (first (is_job tenant job_type) table)) [
    | inl missing ↦ rw missing (
      first-put_row_new (is_job tenant job_type) _ table missing
          (ground (arith, eq_iff tenant tenant, eq_iff job_type job_type)),
      fresh,
    )
    | inr (j, found) ↦ rw found (
      first-put_row_found (is_job tenant job_type)
          (record j { locked_until = some (now + seconds (max lease 60)); updated_at = now }) j
          table stored.0 found refl (first_sound (is_job tenant job_type) j table found),
      first-All (λ x. x.id ≢ "") (is_job tenant job_type) j table stored.1 found,
    )
  ]

  -- Mutual exclusion: after a claim that returned a job, and until the lease ends (at least 60
  -- seconds later), every claim of that tenant's job is refused and writes nothing.
  pub claim_due_recurring_job_excludes :
      (job : Job) (t : ℕ)
      → (claim_due_recurring_job now new_id tenant job_type lease table).0 ≡ some job
      → t < now + seconds (max lease 60)
      → IsRefused tenant job_type
          (claim_due_recurring_job now new_id tenant job_type lease table).1
          t
  claim_due_recurring_job_excludes job t got early =
      elim (claim_cases now new_id tenant job_type lease table) [
        | inl refused ↦ absurd (cc (rw refused at got))
        | inr done ↦ rw done (
            IsRefused-row t tenant job_type (claimed now new_id tenant job_type lease table)
              (put_row (claimed now new_id tenant job_type lease table) table) claimed_found.0
              claimed_found.1 (inl (ground arith)))
      ]

-- Who gets a job: a claim is refused exactly when the stored job is still leased or not yet due.
pub claim_due_recurring_job-eq-none_iff :
    (now : ℕ) (new_id tenant job_type : String) (lease : ℕ) (table : List Job)
    → IsStored table
    → ((claim_due_recurring_job now new_id tenant job_type lease table).0 ≡ none) ↔ (
        (j : Job) × (get_recurring_job tenant job_type table ≡ some j)
        × ((is_locked now j ≡ true) ⊎ (now < j.next_run_at)))
unfolding claim_due_recurring_job get_recurring_job
claim_due_recurring_job-eq-none_iff now new_id tenant job_type lease table stored =
    elim (Option-cases (first (is_job tenant job_type) table)) [
      | inl missing ↦ rw missing (λ e. absurd (ground arith), λ h. absurd (cc (h.1)))
      | inr (j, found) ↦
          let named = first-All (λ x. x.id ≢ "") (is_job tenant job_type) j table stored.1 found in
          rw found
            (λ e. (j, refl, ground arith), λ (j', same, held). ground (arith, eq_iff j.id ""))
    ]

module _ (now : ℕ) (job : Job) (table : List Job) (stored : IsStored table)
    (current : get_recurring_job job.tenant_id job.job_type table ≡ some job) where
  -- What a mark does to the row that its job's query finds.
  marked :
      (j : Job)
      → j.id ≡ job.id
      → j.tenant_id ≡ job.tenant_id
      → j.job_type ≡ job.job_type
      → (first (is_job job.tenant_id job.job_type) (put_row j table) ≡ some j) × (j.id ≢ "")
  unfolding get_recurring_job
  marked j same tenant type = (
    first-put_row_found (is_job job.tenant_id job.job_type) j job table stored.0 current same
        (ground (arith, eq_iff j.tenant_id job.tenant_id, eq_iff j.job_type job.job_type)),
    λ e.
        first-All (λ x. x.id ≢ "") (is_job job.tenant_id job.job_type) job table stored.1 current
          (sym same ∙ e),
  )

  -- A completed job is given to no worker before its interval (at least 300 seconds) is over, and
  -- is given to the first that asks afterwards, however long its lease was.
  pub mark_recurring_job_completed_due :
      (interval : ℕ) (result : String) (t : ℕ)
      → get_row job.id table ≡ some job
      → let table' = (mark_recurring_job_completed now job.id interval result table).1 in
        (t < now + seconds (max interval 300) → IsRefused job.tenant_id job.job_type table' t)
        × (now + seconds (max interval 300) ≤ t
            → (fresh : String) (lease : ℕ)
            → (claim_due_recurring_job t fresh job.tenant_id job.job_type lease table').0 ≢ none)
  unfolding mark_recurring_job_completed claim_due_recurring_job
  mark_recurring_job_completed_due interval result t here =
      let next = now + seconds (max interval 300) in
      let j : Job = record job {
        last_run_at = some now;
        next_run_at = next;
        locked_until = none;
        last_result_json = result;
        updated_at = now;
      } in
      let (found, named) = marked j refl refl refl in
      rw here (
        λ early.
            IsRefused-row t job.tenant_id job.job_type j (put_row j table) found named
              (inr (ground arith)),
        λ late fresh lease. rw found (ground arith),
      )

  -- A failed job is free again for the first worker that asks after its delay (at least 60
  -- seconds), and for none before.
  pub mark_recurring_job_failed_due :
      (delay : ℕ) (result : String) (t : ℕ)
      → get_row job.id table ≡ some job
      → let table' = (mark_recurring_job_failed now job.id delay result table).1 in
        (t < now + seconds (max delay 60) → IsRefused job.tenant_id job.job_type table' t)
        × (now + seconds (max delay 60) ≤ t
            → (fresh : String) (lease : ℕ)
            → (claim_due_recurring_job t fresh job.tenant_id job.job_type lease table').0 ≢ none)
  unfolding mark_recurring_job_failed claim_due_recurring_job
  mark_recurring_job_failed_due delay result t here =
      let next = now + seconds (max delay 60) in
      let j : Job = record job {
        next_run_at = next;
        locked_until = none;
        last_result_json = result;
        updated_at = now;
      } in
      let (found, named) = marked j refl refl refl in
      rw here (
        λ early.
            IsRefused-row t job.tenant_id job.job_type j (put_row j table) found named
              (inr (ground arith)),
        λ late fresh lease. rw found (ground arith),
      )
