-- ===== src/Onboarding/Steps.antt =====
-- The step of a tenant and the answers stored at it, through the writes of the handlers: a change
-- of the step, a new entry, a deletion (src/kachu_plus/onboarding/flow.py).
use kachu_v.Prelude.{
  All, List, String, [], elem, first, if◌then◌else◌, refl, some, strip, ℕ, ◌+◌, ◌==◌, ◌∷◌, ◌≡◌,
}
use kachu_v.Table.{IsKeyed}
use kachu_v.Table.Laws.{first-put_row_found, first_sound, put_row-IsKeyed}
use kachu_v.Tenants.{tenant_row}
use kachu_v.Onboarding.{
  OnboardingDb, OnboardingState, delete_knowledge_entries_by_category, entry_row, is_state,
  save_knowledge_entry, state_row, update_onboarding_step,
}
use kachu_v.Onboarding.Flow.{Call, Website, forget, handle_interview_q1}
use kachu_v.Onboarding.Entries.{entries_of, entries_of-delete, entries_of-save_knowledge_entry}

-- The tenant is at the step, and the table of steps has no key twice.
abbrev pub IsAt : String → String → OnboardingDb → Type 0
IsAt tenant step db =
    IsKeyed db.states
    × ((s : OnboardingState) × (first (is_state tenant) db.states ≡ some s) × (s.step ≡ step))

update_onboarding_step_lem :
    (now : ℕ) (id tenant old step : String) (db : OnboardingDb)
    → IsAt tenant old db
    → IsAt tenant step (update_onboarding_step now id tenant step db)
      × ((update_onboarding_step now id tenant step db).entries ≡ db.entries)
unfolding update_onboarding_step
update_onboarding_step_lem now id tenant old step db (keyed, (s, found, _)) =
    let s' = record s { step = step; updated_at = now } in
    rw (found, update_onboarding_step)
      (
        (
          put_row-IsKeyed s' db.states keyed,
          (
            s',
            first-put_row_found (is_state tenant) s' s db.states keyed found refl
                (first_sound (is_state tenant) s db.states found),
            refl,
          ),
        ),
        refl,
      )

-- How many answers of a category a tenant has at a step: one for each question that is answered.
abbrev pub answered : String → String → ℕ
answered step category =
    if category == "core_value"
    then (if elem step ("interview_q2" ∷ "interview_q3" ∷ "completed" ∷ []) then 1 else 0)
    else if category == "pain_point"
    then (if elem step ("interview_q3" ∷ "completed" ∷ []) then 1 else 0)
    else if step == "completed"
    then 1
    else 0

abbrev pub categories : List String
categories = "core_value" ∷ "pain_point" ∷ "goal" ∷ []

-- The tenant is at the step, with the answers that belong to it.
abbrev pub IsConsistent : String → String → OnboardingDb → Type 0
IsConsistent tenant step db =
    IsAt tenant step db × All (λ c. entries_of tenant c db ≡ answered step c) categories

-- The ingestion of a website leaves steps and interview answers as they are.
abbrev pub IsHarmless : Website → Type 0
IsHarmless w =
    (tenant content conversation : String) (db : OnboardingDb)
    → ((w.ingest tenant content conversation db).1.states ≡ db.states)
      × All
          (λ c.
            entries_of tenant c (w.ingest tenant content conversation db).1
            ≡ entries_of tenant c db)
          categories

module _ (call : Call) (tenant : String) where
  abbrev pub step_to : String → OnboardingDb → OnboardingDb
  step_to step db = update_onboarding_step call.now call.state_id tenant step db

  pub go :
      (old step : String) (db : OnboardingDb)
      → IsAt tenant old db
      → All (λ c. entries_of tenant c db ≡ answered step c) categories
      → IsConsistent tenant step (step_to step db)
  go old step db at_old counts =
      let (at_new, same) =
        update_onboarding_step_lem call.now call.state_id tenant old step db at_old in
      (at_new, rw same counts)

  abbrev pub noted : String → String → String → String → OnboardingDb → OnboardingDb
  noted id category content conversation db =
      save_knowledge_entry call.now id tenant category content conversation db

  pub noted-IsAt :
      (step id category content conversation : String) (db : OnboardingDb)
      → IsAt tenant step db
      → IsAt tenant step (noted id category content conversation db)
  unfolding save_knowledge_entry
  noted-IsAt step id category content conversation db h = h

  -- One more entry, counted under its category.
  pub noted_counts :
      (step id category content conversation : String) (db : OnboardingDb)
      → All (λ c. entries_of tenant c db ≡ answered step c) categories
      → All
          (λ c.
            entries_of tenant c (noted id category content conversation db)
            ≡ answered step c + (if category == c then 1 else 0))
          categories
  noted_counts step id category content conversation db (c, (p, (g, _))) =
      rw
        (
          entries_of-save_knowledge_entry tenant "core_value" call.now id category content
              conversation db,
          entries_of-save_knowledge_entry tenant "pain_point" call.now id category content
              conversation db,
          entries_of-save_knowledge_entry tenant "goal" call.now id category content conversation
              db,
          c,
          p,
          g,
        )
        (refl, (refl, (refl, tt)))

  pub handle_interview_q1_lem :
      (content conversation : String) (db : OnboardingDb)
      → IsConsistent tenant "interview_q1" db
      → IsConsistent tenant "interview_q2"
          (handle_interview_q1 call tenant content conversation db).1
  unfolding handle_interview_q1
  handle_interview_q1_lem content conversation db (at_step, counts) =
      go "interview_q1" "interview_q2"
        (noted call.entry_id "core_value" (strip content) conversation db)
        (noted-IsAt "interview_q1" call.entry_id "core_value" (strip content) conversation db
          at_step)
        (noted_counts "interview_q1" call.entry_id "core_value" (strip content) conversation db
          counts)

  -- After a deletion, the counts of the other categories are as before.
  dropped_counts :
      (step category : String) (db : OnboardingDb)
      → All (λ c. entries_of tenant c db ≡ answered step c) categories
      → All
          (λ c.
            entries_of tenant c (delete_knowledge_entries_by_category tenant category db)
            ≡ (if category == c then 0 else answered step c))
          categories
  dropped_counts step category db (c, (p, (g, _))) =
      rw
        (
          entries_of-delete tenant "core_value" category db,
          entries_of-delete tenant "pain_point" category db,
          entries_of-delete tenant "goal" category db,
          c,
          p,
          g,
        )
        (refl, (refl, (refl, tt)))

  dropped-IsAt :
      (step category : String) (db : OnboardingDb)
      → IsAt tenant step db
      → IsAt tenant step (delete_knowledge_entries_by_category tenant category db)
  unfolding delete_knowledge_entries_by_category
  dropped-IsAt step category db h = h

  abbrev dropped : String → OnboardingDb → OnboardingDb
  dropped category db = delete_knowledge_entries_by_category tenant category db

  pub redo_from_q2 :
      (db : OnboardingDb)
      → IsConsistent tenant "interview_q2" db
      → IsConsistent tenant "interview_q1"
          (step_to "interview_q1" (forget call tenant "interview_q2" "interview_q1" db))
  unfolding forget
  redo_from_q2 db (at_step, counts) =
      go "interview_q2" "interview_q1" (dropped "core_value" db)
        (dropped-IsAt "interview_q2" "core_value" db at_step)
        (dropped_counts "interview_q2" "core_value" db counts)

  pub redo_from_q3 :
      (db : OnboardingDb)
      → IsConsistent tenant "interview_q3" db
      → IsConsistent tenant "interview_q2"
          (step_to "interview_q2" (forget call tenant "interview_q3" "interview_q2" db))
  unfolding forget
  redo_from_q3 db (at_step, counts) =
      go "interview_q3" "interview_q2" (dropped "pain_point" db)
        (dropped-IsAt "interview_q3" "pain_point" db at_step)
        (dropped_counts "interview_q3" "pain_point" db counts)

  pub redo_all_from_q3 :
      (db : OnboardingDb)
      → IsConsistent tenant "interview_q3" db
      → IsConsistent tenant "interview_q1"
          (step_to "interview_q1" (forget call tenant "interview_q3" "interview_q1" db))
  unfolding forget
  redo_all_from_q3 db (at_step, (c, (p, (g, _)))) =
      go "interview_q3" "interview_q1" (dropped "pain_point" (dropped "core_value" db))
        (dropped-IsAt "interview_q3" "pain_point" (dropped "core_value" db)
          (dropped-IsAt "interview_q3" "core_value" db at_step))
        (rw
          (
            entries_of-delete tenant "core_value" "pain_point" (dropped "core_value" db),
            entries_of-delete tenant "pain_point" "pain_point" (dropped "core_value" db),
            entries_of-delete tenant "goal" "pain_point" (dropped "core_value" db),
            entries_of-delete tenant "core_value" "core_value" db,
            entries_of-delete tenant "goal" "core_value" db,
            g,
          )
          (refl, (refl, (refl, tt))))
