-- ===== src/Jobs.antt =====
-- The leases on recurring jobs of `KachuPlusRepository` (src/kachu_plus/persistence/repository.py,
-- lines 195 to 288), which keep two workers from running one tenant's job at once. Instants are
-- numbers of microseconds; a lease or a delay that is negative in the source acts as 0.
pub mod Lease
mod Examples
use kachu_v.Prelude.{
  Bool, List, Option, String, false, first, if◌then◌else◌, ltb, max, none, not, some, ℕ, ◌&&◌, ◌*◌,
  ◌+◌, ◌==◌,
}
use kachu_v.Table.{Row, get_row, put_row}

pub record Job : Type 0 where
  pub id : String
  pub tenant_id : String
  pub job_type : String
  pub next_run_at : ℕ
  pub last_run_at : Option ℕ
  pub locked_until : Option ℕ
  pub last_result_json : String
  pub created_at : ℕ
  pub updated_at : ℕ

instance abbrev pub job_row : Row Job
job_row = record { id_of = λ j. j.id }

-- `timedelta(seconds=n)`
abbrev pub seconds : ℕ → ℕ
seconds n = n * 1000000

abbrev pub is_job : String → String → Job → Bool
is_job tenant job_type j = j.tenant_id == tenant && j.job_type == job_type

unfoldable pub get_recurring_job : String → String → List Job → Option Job
get_recurring_job tenant job_type table = first (is_job tenant job_type) table

unfoldable pub new_job : ℕ → String → String → String → Job
new_job now new_id tenant job_type = record {
  id = new_id;
  tenant_id = tenant;
  job_type = job_type;
  next_run_at = now;
  last_run_at = none;
  locked_until = none;
  last_result_json = "{}";
  created_at = now;
  updated_at = now;
}

abbrev pub or_new : Option Job → Job → Job
or_new none j = j
or_new (some j) _ = j

-- `locked_until is not None and locked_until > now`
abbrev pub is_locked : ℕ → Job → Bool
is_locked now j = elim j.locked_until [ none ↦ false | some t ↦ ltb now t ]

unfoldable pub claim_due_recurring_job :
    (now : ℕ) (new_id tenant_id job_type : String) (lease_seconds : ℕ)
    → List Job
    → Option Job × List Job
unfolding new_job
claim_due_recurring_job now new_id tenant job_type lease_seconds table =
    let job = or_new (first (is_job tenant job_type) table) (new_job now new_id tenant job_type) in
    if is_locked now job && not (job.id == "")
    then (none, table)
    else if ltb now job.next_run_at && not (job.id == "")
    then (none, table)
    else let claimed = record job {
      locked_until = some (now + seconds (max lease_seconds 60));
      updated_at = now;
    } in
      (some claimed, put_row claimed table)

-- The write of the two `mark` operations: the next run, the lease given back, and the result.
unfoldable pub finished : ℕ → Option ℕ → ℕ → String → Option Job → List Job → Option Job × List Job
finished now last_run next_run result none table = (none, table)
finished now last_run next_run result (some j) table =
    let j' = record j {
      last_run_at = elim last_run [ none ↦ j.last_run_at | some t ↦ some t ];
      next_run_at = next_run;
      locked_until = none;
      last_result_json = result;
      updated_at = now;
    } in
    (some j', put_row j' table)

unfoldable pub mark_recurring_job_completed :
    (now : ℕ) (job_id : String) (interval_seconds : ℕ) (result : String)
    → List Job
    → Option Job × List Job
unfolding finished
mark_recurring_job_completed now job_id interval_seconds result table =
    finished now (some now) (now + seconds (max interval_seconds 300)) result (get_row job_id table)
      table

unfoldable pub mark_recurring_job_failed :
    (now : ℕ) (job_id : String) (retry_after_seconds : ℕ) (result : String)
    → List Job
    → Option Job × List Job
unfolding finished
mark_recurring_job_failed now job_id retry_after_seconds result table =
    finished now none (now + seconds (max retry_after_seconds 60)) result (get_row job_id table)
      table
