-- ===== src/Onboarding/Handlers.antt =====
-- Each handler of the onboarding leaves the tenant at a step, with the answers that belong to it
-- (src/kachu_plus/onboarding/flow.py, lines 210 to 355).
use kachu_v.Prelude.{
  All, Bool-cases, Option-cases, String, [], arith, elem, eq_iff, inl, inr, lower, none, refl, some,
  strip, subst, true, ◌==◌, ◌∙◌, ◌∷◌, ◌≡◌, ◌⊎◌,
}
use kachu_v.Tenants.{Tenant, get_tenant, tenant_row}
use kachu_v.Onboarding.{OnboardingDb, entry_row, state_row}
use kachu_v.Onboarding.Answers.{detect_redo_step, parse_sleep_threshold, prev_step}
use kachu_v.Onboarding.Flow.{
  Call, Website, basic_info, change_tenant, handle_asking_address, handle_asking_industry,
  handle_asking_name, handle_asking_sleep_threshold, handle_awaiting_docs, handle_interview_q2,
  handle_interview_q3, handle_new, handle_step, ingest_website, note_basic_info,
}
use kachu_v.Onboarding.Entries.{entries_of}
use kachu_v.Onboarding.Steps.{
  IsAt, IsConsistent, IsHarmless, answered, categories, go, handle_interview_q1_lem, noted,
  noted-IsAt, noted_counts, redo_all_from_q3, redo_from_q2, redo_from_q3, step_to,
}

module _ (call : Call) (tenant : String) where
  -- The steps that a return can lead to.
  detect_redo_step_q2 :
      (content : String)
      → (detect_redo_step content "interview_q2" ≡ none)
        ⊎ (detect_redo_step content "interview_q2" ≡ some "interview_q1")
  unfolding detect_redo_step prev_step
  detect_redo_step_q2 content = ground arith

  detect_redo_step_q3 :
      (content : String)
      → (detect_redo_step content "interview_q3" ≡ none)
        ⊎ (detect_redo_step content "interview_q3" ≡ some "interview_q1")
        ⊎ (detect_redo_step content "interview_q3" ≡ some "interview_q2")
  unfolding detect_redo_step prev_step
  detect_redo_step_q3 content = ground arith

  -- The tenant is at some step, with the answers that belong to it.
  abbrev pub Consistent : OnboardingDb → Type 0
  Consistent db = (step : String) × IsConsistent tenant step db

  handle_interview_q2_lem :
      (content conversation : String) (db : OnboardingDb)
      → IsConsistent tenant "interview_q2" db
      → Consistent (handle_interview_q2 call tenant content conversation db).1
  unfolding handle_interview_q2
  handle_interview_q2_lem content conversation db (at_step, counts) =
      elim (detect_redo_step_q2 content) [
        | inr back ↦
            rw (back, handle_interview_q2)
              ("interview_q1", redo_from_q2 call tenant db (at_step, counts))
        | inl onward ↦
            rw (onward, handle_interview_q2)
              (
                "interview_q3",
                go call tenant "interview_q2" "interview_q3"
                    (noted call tenant call.entry_id "pain_point" (strip content) conversation db)
                    (noted-IsAt call tenant "interview_q2" call.entry_id "pain_point"
                      (strip content) conversation db at_step)
                    (noted_counts call tenant "interview_q2" call.entry_id "pain_point"
                      (strip content) conversation db counts),
              )
      ]

  unchanged-IsConsistent :
      (step : String) (db db' : OnboardingDb)
      → db'.states ≡ db.states
      → All (λ c. entries_of tenant c db' ≡ entries_of tenant c db) categories
      → IsConsistent tenant step db
      → IsConsistent tenant step db'
  unchanged-IsConsistent step db db' states (sc, (sp, (sg, _))) (at_step, (c, (p, (g, _)))) =
      (rw states at_step, (sc ∙ c, (sp ∙ p, (sg ∙ g, tt))))

  noted_basic_info :
      (db : OnboardingDb)
      → IsAt tenant "interview_q3" db
      → All (λ c. entries_of tenant c db ≡ answered "completed" c) categories
      → IsConsistent tenant "completed"
          (step_to call tenant "completed" (note_basic_info call tenant db))
  unfolding note_basic_info
  noted_basic_info db at_step counts = elim (Option-cases (get_tenant tenant db.tenants)) [
    | inl missing ↦
        rw (missing, note_basic_info) (go call tenant "interview_q3" "completed" db at_step counts)
    | inr (t, found) ↦
        rw (found, note_basic_info)
          (go call tenant "interview_q3" "completed"
            (noted call tenant call.info_id "basic_info" (basic_info t) "" db)
            (noted-IsAt call tenant "interview_q3" call.info_id "basic_info" (basic_info t) "" db
              at_step)
            (noted_counts call tenant "completed" call.info_id "basic_info" (basic_info t) "" db
              counts))
  ]

  handle_interview_q3_lem :
      (content conversation : String) (db : OnboardingDb)
      → IsConsistent tenant "interview_q3" db
      → Consistent (handle_interview_q3 call tenant content conversation db).1
  unfolding handle_interview_q3
  handle_interview_q3_lem content conversation db (at_step, counts) =
      elim (detect_redo_step_q3 content) [
        | inr (inl back) ↦
            rw (back, handle_interview_q3)
              ("interview_q1", redo_all_from_q3 call tenant db (at_step, counts))
        | inr (inr back) ↦
            rw (back, handle_interview_q3)
              ("interview_q2", redo_from_q3 call tenant db (at_step, counts))
        | inl onward ↦
            rw (onward, handle_interview_q3)
              (
                "completed",
                noted_basic_info
                    (noted call tenant call.entry_id "goal" (strip content) conversation db)
                    (noted-IsAt call tenant "interview_q3" call.entry_id "goal" (strip content)
                      conversation db at_step)
                    (noted_counts call tenant "interview_q3" call.entry_id "goal" (strip content)
                      conversation db counts),
              )
      ]

  change_tenant_lem :
      (f : Tenant → Tenant) (db : OnboardingDb)
      → ((change_tenant call tenant f db).states ≡ db.states)
        × ((change_tenant call tenant f db).entries ≡ db.entries)
  change_tenant_lem f db = elim (Option-cases (get_tenant tenant db.tenants)) [
    | inl missing ↦ rw (missing, change_tenant) (refl, refl)
    | inr (t, found) ↦ rw (found, change_tenant) (refl, refl)
  ]

  -- A step whose answer goes to the tenant's row.
  plain :
      (old step : String) (f : Tenant → Tenant) (db : OnboardingDb)
      → All (λ c. answered old c ≡ answered step c) categories
      → IsConsistent tenant old db
      → IsConsistent tenant step (step_to call tenant step (change_tenant call tenant f db))
  plain old step f db (ec, (ep, (eg, _))) (at_step, (c, (p, (g, _)))) =
      let (states, entries) = change_tenant_lem f db in
      go call tenant old step (change_tenant call tenant f db) (rw states at_step)
        (rw entries (c ∙ ec, (p ∙ ep, (g ∙ eg, tt))))

  handle_new_lem :
      (db : OnboardingDb)
      → IsConsistent tenant "new" db
      → IsConsistent tenant "asking_name" (handle_new call tenant db).1
  unfolding handle_new
  handle_new_lem db (at_step, counts) = go call tenant "new" "asking_name" db at_step counts

  ingest_website_lem :
      (content conversation : String) (db : OnboardingDb)
      → ((w : Website) → call.website ≡ some w → IsHarmless w)
      → IsConsistent tenant "awaiting_docs" db
      → IsConsistent tenant "awaiting_docs" (ingest_website call tenant content conversation db).1
  unfolding ingest_website
  ingest_website_lem content conversation db harmless h = elim (Option-cases call.website) [
    | inl unset ↦ rw (unset, ingest_website) h
    | inr (w, set) ↦
        let after = w.ingest tenant content conversation db in
        let (states, entries) = harmless w set tenant content conversation db in
        let kept = unchanged-IsConsistent "awaiting_docs" db after.1 states entries h in
        elim (Bool-cases (w.contains_url content)) [
          | inr no_url ↦ rw (set, ingest_website, no_url) h
          | inl url ↦ elim (Option-cases after.0) [
            | inl nothing ↦ rw (set, ingest_website, url, nothing) kept
            | inr (reply, e) ↦ rw (set, ingest_website, url, e) kept
          ]
        ]
  ]

  handle_awaiting_docs_lem :
      (content conversation : String) (db : OnboardingDb)
      → ((w : Website) → call.website ≡ some w → IsHarmless w)
      → IsConsistent tenant "awaiting_docs" db
      → Consistent (handle_awaiting_docs call tenant content conversation db).1
  unfolding handle_awaiting_docs
  handle_awaiting_docs_lem content conversation db harmless (at_step, counts) =
      elim (Bool-cases
        (elem (lower (strip content)) ("完成" ∷ "好了" ∷ "done" ∷ "跳過" ∷ "skip" ∷ "next" ∷ []))) [
          | inl skip ↦
              rw (skip, handle_awaiting_docs)
                ("interview_q1", go call tenant "awaiting_docs" "interview_q1" db at_step counts)
          | inr doc ↦ elim (Bool-cases (strip content == "")) [
            | inl blank ↦ rw (doc, blank, handle_awaiting_docs) ("awaiting_docs", (at_step, counts))
            | inr full ↦
                rw (doc, full, handle_awaiting_docs)
                  (
                    "awaiting_docs",
                    ingest_website_lem content conversation
                        (noted call tenant call.entry_id "brand_material" (strip content)
                          conversation db)
                        harmless
                        (
                          noted-IsAt call tenant "awaiting_docs" call.entry_id "brand_material"
                              (strip content) conversation db at_step,
                          noted_counts call tenant "awaiting_docs" call.entry_id "brand_material"
                              (strip content) conversation db counts,
                        ),
                  )
          ]
        ]

  here :
      (k step : String) (db : OnboardingDb)
      → (step == k) ≡ true
      → IsConsistent tenant step db
      → IsConsistent tenant k db
  here k step db e h =
      let same : step ≡ k = ground (arith, eq_iff step k) in
      subst (λ j. IsConsistent tenant j db) same h

  -- The handler of a step leaves the tenant at a step, with the answers that belong to it.
  pub handle_step_lem :
      (step content conversation : String) (db : OnboardingDb)
      → ((w : Website) → call.website ≡ some w → IsHarmless w)
      → IsConsistent tenant step db
      → Consistent (handle_step call tenant step content conversation db).1
  unfolding handle_step handle_asking_name handle_asking_industry handle_asking_sleep_threshold
      handle_asking_address
  handle_step_lem step content conversation db harmless h = elim (Bool-cases (step == "new")) [
    | inl e ↦ rw (e, handle_step) ("asking_name", handle_new_lem db (here "new" step db e h))
    | inr n0 ↦ elim (Bool-cases (step == "asking_name")) [
      | inl e ↦
          rw (n0, e, handle_step)
            (
              "asking_industry",
              plain "asking_name" "asking_industry" (λ t. record t { name = strip content }) db
                  (refl, (refl, (refl, tt))) (here "asking_name" step db e h),
            )
      | inr n1 ↦ elim (Bool-cases (step == "asking_industry")) [
        | inl e ↦
            rw (n0, n1, e, handle_step)
              (
                "asking_sleep_threshold",
                plain "asking_industry" "asking_sleep_threshold"
                    (λ t. record t { industry_type = strip content }) db (refl, (refl, (refl, tt)))
                    (here "asking_industry" step db e h),
              )
        | inr n2 ↦ elim (Bool-cases (step == "asking_sleep_threshold")) [
          | inl e ↦
              rw (n0, n1, n2, e, handle_step)
                (
                  "asking_address",
                  plain "asking_sleep_threshold" "asking_address"
                      (λ t. record t { sleep_threshold = parse_sleep_threshold content }) db
                      (refl, (refl, (refl, tt))) (here "asking_sleep_threshold" step db e h),
                )
          | inr n3 ↦ elim (Bool-cases (step == "asking_address")) [
            | inl e ↦
                rw (n0, n1, n2, n3, e, handle_step)
                  (
                    "awaiting_docs",
                    plain "asking_address" "awaiting_docs"
                        (λ t. record t { address = strip content }) db (refl, (refl, (refl, tt)))
                        (here "asking_address" step db e h),
                  )
            | inr n4 ↦ elim (Bool-cases (step == "awaiting_docs")) [
              | inl e ↦
                  rw (n0, n1, n2, n3, n4, e, handle_step)
                    (handle_awaiting_docs_lem content conversation db harmless
                      (here "awaiting_docs" step db e h))
              | inr n5 ↦ elim (Bool-cases (step == "interview_q1")) [
                | inl e ↦
                    rw (n0, n1, n2, n3, n4, n5, e, handle_step)
                      (
                        "interview_q2",
                        handle_interview_q1_lem call tenant content conversation db
                            (here "interview_q1" step db e h),
                      )
                | inr n6 ↦ elim (Bool-cases (step == "interview_q2")) [
                  | inl e ↦
                      rw (n0, n1, n2, n3, n4, n5, n6, e, handle_step)
                        (handle_interview_q2_lem content conversation db
                          (here "interview_q2" step db e h))
                  | inr n7 ↦ elim (Bool-cases (step == "interview_q3")) [
                    | inl e ↦
                        rw (n0, n1, n2, n3, n4, n5, n6, n7, e, handle_step)
                          (handle_interview_q3_lem content conversation db
                            (here "interview_q3" step db e h))
                    | inr n8 ↦ rw (n0, n1, n2, n3, n4, n5, n6, n7, n8, handle_step) (step, h)
                  ]
                ]
              ]
            ]
          ]
        ]
      ]
    ]
  ]
