-- ===== src/Proactive/Passes.antt =====
-- The scan of all tenants (`run_once_all_tenants`), under the leases on their jobs.
use kachu_v.Prelude.{
  Bool, Error, List, Option, Result, String, [], none, ok, raise, some, ℕ, ◌++◌, ◌∷◌,
}
use kachu_v.Tenants.{Tenant, list_active_tenants, tenant_row}
use kachu_v.Suggestions.{Suggestion, suggestion_row}
use kachu_v.Jobs.{
  Job, claim_due_recurring_job, job_row, mark_recurring_job_completed, mark_recurring_job_failed,
}
use kachu_v.Approvals.Due.{Formats}
use kachu_v.Customers.{assignment_row, entity_row, link_row, profile_row, tag_row}
use kachu_v.Proactive.{Settings, Shop, published_row}
use kachu_v.Proactive.Scan.{run_once_for_tenant}

-- `result.get("id") if result else ""`
abbrev pub result_id : Option Suggestion → String
result_id none = ""
result_id (some s) = s.id

abbrev pub with_jobs : Shop → List Job → Shop
with_jobs shop jobs = record shop { jobs = jobs }

-- The keys that a pass may give for a tenant, to a new job and to a new suggestion, and `str` of an
-- exception.
pub record PassInputs : Type 0 where
  pub job_key : String → String
  pub suggestion_key : String → String
  pub error_text : Error → String

module _ {J : Type 0} (formats : Formats J) (settings : Settings) (has_dispatcher : Bool)
    (inputs : PassInputs) (now : ℕ) where
  -- A tenant whose job was claimed: the job is marked as completed, or as failed and the exception
  -- raised again.
  unfoldable pub scan_claimed : String → Job → Shop → Result (Option Suggestion) × Shop
  unfolding run_once_for_tenant mark_recurring_job_completed mark_recurring_job_failed
  scan_claimed tenant job shop =
      let (answer, shop') =
        run_once_for_tenant formats settings has_dispatcher now (inputs.suggestion_key tenant)
          tenant shop in
      elim answer [
        | raise e ↦ (
          raise e,
          with_jobs shop'
              (mark_recurring_job_failed now job.id 900
                (formats.dumps (formats.object (("error", inputs.error_text e) ∷ [])))
                shop'.jobs).1,
        )
        | ok (made, _) ↦ (
          ok made,
          with_jobs shop'
              (mark_recurring_job_completed now job.id 86400
                (formats.dumps (formats.object (("suggestion_id", result_id made) ∷ [])))
                shop'.jobs).1,
        )
      ]

  abbrev summarised :
      String → Option Suggestion → List (String × Suggestion) → List (String × Suggestion)
  summarised tenant none summary = summary
  summarised tenant (some s) summary = summary ++ (tenant, s) ∷ []

  -- The loop over the tenants, on the summary so far.
  unfoldable pub scan_tenants :
      List Tenant → List (String × Suggestion) → Shop → Result (List (String × Suggestion)) × Shop
  unfolding scan_claimed claim_due_recurring_job
  scan_tenants [] summary shop = (ok summary, shop)
  scan_tenants (t ∷ tenants) summary shop =
      let (claimed, jobs) =
        claim_due_recurring_job now (inputs.job_key t.id) t.id "daily_proactive_scan" 300
          shop.jobs in
      elim claimed [
        | none ↦ scan_tenants tenants summary (with_jobs shop jobs)
        | some job ↦
            let (answer, shop') = scan_claimed t.id job (with_jobs shop jobs) in
            elim answer [
              | raise e ↦ (raise e, shop')
              | ok made ↦ scan_tenants tenants (summarised t.id made summary) shop'
            ]
      ]

  unfoldable pub run_once_all_tenants : Shop → Result (List (String × Suggestion)) × Shop
  unfolding scan_tenants list_active_tenants
  run_once_all_tenants shop = scan_tenants (list_active_tenants shop.customers.tenants) [] shop
