-- ===== src/Jobs/Examples.antt =====
-- The theorems on the leases at concrete calls: one job, which a worker claims and then completes.
use kachu_v.Prelude.{
  List, String, [], arith, max, none, refl, some, true, ℕ, ◌+◌, ◌<◌, ◌↔◌, ◌∷◌, ◌≡◌, ◌≢◌, ◌≤◌, ◌⊎◌,
}
use kachu_v.Prelude.Laws.{unequal}
use kachu_v.Jobs.{
  Job, claim_due_recurring_job, get_recurring_job, is_locked, job_row, mark_recurring_job_completed,
  seconds,
}
use kachu_v.Jobs.Lease.{
  IsRefused, IsStored, claim_due_recurring_job-eq-none_iff, claim_due_recurring_job_excludes,
  mark_recurring_job_completed_due,
}

abbrev due_job : Job
due_job = record {
  id = "j1";
  tenant_id = "t1";
  job_type = "scan";
  next_run_at = 5;
  last_run_at = none;
  locked_until = none;
  last_result_json = "{}";
  created_at = 1;
  updated_at = 1;
}

abbrev stored_jobs : List Job
stored_jobs = due_job ∷ []

stored_jobs-IsStored : IsStored stored_jobs
stored_jobs-IsStored = ((refl, tt), (unequal "j1" "" refl, tt))

abbrev claimed_job : Job
claimed_job = record due_job { locked_until = some 60000010; updated_at = 10 }

claimed_lem : (claim_due_recurring_job 10 "j2" "t1" "scan" 30 stored_jobs).0 ≡ some claimed_job
unfolding claim_due_recurring_job
claimed_lem = refl

claim_due_recurring_job_excludes_example :
    IsRefused "t1" "scan" (claim_due_recurring_job 10 "j2" "t1" "scan" 30 stored_jobs).1 20
claim_due_recurring_job_excludes_example =
    claim_due_recurring_job_excludes 10 "j2" "t1" "scan" 30 stored_jobs stored_jobs-IsStored
      (unequal "j2" "" refl) claimed_job 20 claimed_lem (ground arith)

claim_due_recurring_job-eq-none_iff_example :
    ((claim_due_recurring_job 4 "j2" "t1" "scan" 30 stored_jobs).0 ≡ none) ↔ (
      (j : Job) × (get_recurring_job "t1" "scan" stored_jobs ≡ some j)
      × ((is_locked 4 j ≡ true) ⊎ (4 < j.next_run_at)))
claim_due_recurring_job-eq-none_iff_example =
    claim_due_recurring_job-eq-none_iff 4 "j2" "t1" "scan" 30 stored_jobs stored_jobs-IsStored

due_current : get_recurring_job "t1" "scan" stored_jobs ≡ some due_job
unfolding get_recurring_job
due_current = refl

mark_recurring_job_completed_due_example :
    let table = (mark_recurring_job_completed 10 "j1" 600 "{}" stored_jobs).1 in
    (20 < 10 + seconds (max 600 300) → IsRefused "t1" "scan" table 20)
    × (10 + seconds (max 600 300) ≤ 20
        → (fresh : String) (lease : ℕ)
        → (claim_due_recurring_job 20 fresh "t1" "scan" lease table).0 ≢ none)
mark_recurring_job_completed_due_example =
    mark_recurring_job_completed_due 10 due_job stored_jobs stored_jobs-IsStored due_current 600
      "{}" 20 refl
