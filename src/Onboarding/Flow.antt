-- ===== src/Onboarding/Flow.antt =====
-- The state machine `OnboardingFlow` (src/kachu_plus/onboarding/flow.py, lines 140 to 355). A reply
-- is the key of its message with what is filled in. The ingestion of websites is a parameter.
use kachu_v.Prelude.{
  Bool, List, Option, String, [], append, decimal, elem, if◌then◌else◌, lower, none, not, some,
  strip, ℕ, ◌&&◌, ◌==◌, ◌||◌, ◌∷◌,
}
use kachu_v.Tenants.{Tenant, get_tenant, save_tenant, tenant_row}
use kachu_v.Onboarding.{
  OnboardingDb, delete_knowledge_entries_by_category, entry_row, get_or_create_onboarding_state,
  save_knowledge_entry, state_row, update_onboarding_step,
}
use kachu_v.Onboarding.Answers.{detect_redo_step, parse_sleep_threshold}

-- A message of `_BOT_MESSAGES`, the one with the shop's name, `_invalid_answer_prompt`, a return to
-- an earlier question, and the reply of the website ingestion.
pub data Reply : Type 0 where
  bot_message bot_message_for invalid_answer asked_again website_reply : String → Reply

-- `contains_url`, and `ingest_from_message` of a text in a conversation: what it makes of the
-- tables, and the reply, if it returned a result.
pub record Website : Type 0 where
  pub contains_url : String → Bool
  pub ingest : String → String → String → OnboardingDb → Option String × OnboardingDb

-- What one call reads from outside: the clock, keys for new rows, and the ingestion, if it is set.
pub record Call : Type 0 where
  pub now : ℕ
  pub state_id : String
  pub entry_id : String
  pub info_id : String
  pub website : Option Website

abbrev pub is_unanswered : String → String → String → Bool
is_unanswered step msg_type content =
    not (elem step ("new" ∷ "awaiting_docs" ∷ []))
    && (not (msg_type == "text") || strip content == "")

-- `_STEP_CATEGORY.get(step, "")`
abbrev pub step_category : String → String
step_category step =
    if step == "interview_q1"
    then "core_value"
    else if step == "interview_q2"
    then "pain_point"
    else ""

-- The text of the entry "basic_info"; a number is written in decimals.
unfoldable pub basic_info : Tenant → String
unfolding decimal
basic_info t = append "店名：" (
    append t.name (
      append "，行業：" (
        append t.industry_type (
          append "，地址："
            (append t.address (append "，沉睡閾值：" (append (decimal t.sleep_threshold) " 天")))))))

module _ (call : Call) (tenant : String) where
  -- `update_onboarding_step` and the reply
  abbrev pub go_to : String → OnboardingDb → OnboardingDb
  go_to step db = update_onboarding_step call.now call.state_id tenant step db

  abbrev pub note : String → String → String → OnboardingDb → OnboardingDb
  note category content conversation db =
      save_knowledge_entry call.now call.entry_id tenant category content conversation db

  -- A write to the tenant's row, if it is there.
  abbrev pub change_tenant : (Tenant → Tenant) → OnboardingDb → OnboardingDb
  change_tenant f db = elim (get_tenant tenant db.tenants) [
    | none ↦ db
    | some t ↦ record db { tenants = save_tenant call.now (f t) db.tenants }
  ]

  unfoldable pub handle_new : OnboardingDb → List Reply × OnboardingDb
  unfolding update_onboarding_step
  handle_new db = (bot_message "welcome" ∷ [], go_to "asking_name" db)

  unfoldable pub handle_asking_name : String → OnboardingDb → List Reply × OnboardingDb
  unfolding update_onboarding_step get_tenant save_tenant
  handle_asking_name content db = (
    bot_message_for (strip content) ∷ [],
    go_to "asking_industry" (change_tenant (λ t. record t { name = strip content }) db),
  )

  unfoldable pub handle_asking_industry : String → OnboardingDb → List Reply × OnboardingDb
  unfolding update_onboarding_step get_tenant save_tenant
  handle_asking_industry content db = (
    bot_message "asking_sleep_threshold" ∷ [],
    go_to "asking_sleep_threshold"
        (change_tenant (λ t. record t { industry_type = strip content }) db),
  )

  unfoldable pub handle_asking_sleep_threshold : String → OnboardingDb → List Reply × OnboardingDb
  unfolding update_onboarding_step get_tenant save_tenant parse_sleep_threshold
  handle_asking_sleep_threshold content db = (
    bot_message "asking_address" ∷ [],
    go_to "asking_address"
        (change_tenant (λ t. record t { sleep_threshold = parse_sleep_threshold content }) db),
  )

  unfoldable pub handle_asking_address : String → OnboardingDb → List Reply × OnboardingDb
  unfolding update_onboarding_step get_tenant save_tenant
  handle_asking_address content db = (
    bot_message "awaiting_docs" ∷ [],
    go_to "awaiting_docs" (change_tenant (λ t. record t { address = strip content }) db),
  )

  -- The call of the ingestion; one that raised has no result.
  unfoldable pub ingest_website : String → String → OnboardingDb → List Reply × OnboardingDb
  ingest_website content conversation db = elim call.website [
    | none ↦ (bot_message "doc_received" ∷ [], db)
    | some w ↦
        let (result, db') = w.ingest tenant content conversation db in
        if w.contains_url content
        then (elim result [
          | none ↦ (bot_message "doc_received" ∷ [], db')
          | some reply ↦ (website_reply reply ∷ [], db')
        ])
        else (bot_message "doc_received" ∷ [], db)
  ]

  unfoldable pub handle_awaiting_docs : String → String → OnboardingDb → List Reply × OnboardingDb
  unfolding update_onboarding_step save_knowledge_entry ingest_website
  handle_awaiting_docs content conversation db =
      if elem (lower (strip content)) ("完成" ∷ "好了" ∷ "done" ∷ "跳過" ∷ "skip" ∷ "next" ∷ [])
      then (bot_message "interview_q1" ∷ [], go_to "interview_q1" db)
      else if strip content == ""
      then (bot_message "doc_received" ∷ [], db)
      else ingest_website content conversation
          (note "brand_material" (strip content) conversation db)

  unfoldable pub handle_interview_q1 : String → String → OnboardingDb → List Reply × OnboardingDb
  unfolding update_onboarding_step save_knowledge_entry
  handle_interview_q1 content conversation db = (
    bot_message "interview_q2" ∷ [],
    go_to "interview_q2" (note "core_value" (strip content) conversation db),
  )

  -- The answers that a return from the second or the third question deletes.
  unfoldable pub forget : String → String → OnboardingDb → OnboardingDb
  unfolding delete_knowledge_entries_by_category
  forget current redo db =
      if current == "interview_q2"
      then delete_knowledge_entries_by_category tenant (step_category redo) db
      else if redo == "interview_q1"
      then delete_knowledge_entries_by_category tenant "pain_point"
          (delete_knowledge_entries_by_category tenant "core_value" db)
      else delete_knowledge_entries_by_category tenant "pain_point" db

  unfoldable pub handle_interview_q2 : String → String → OnboardingDb → List Reply × OnboardingDb
  unfolding update_onboarding_step save_knowledge_entry detect_redo_step forget
  handle_interview_q2 content conversation db = elim (detect_redo_step content "interview_q2") [
    | some redo ↦ (asked_again redo ∷ [], go_to redo (forget "interview_q2" redo db))
    | none ↦ (
      bot_message "interview_q3" ∷ [],
      go_to "interview_q3" (note "pain_point" (strip content) conversation db),
    )
  ]

  unfoldable pub note_basic_info : OnboardingDb → OnboardingDb
  unfolding get_tenant save_knowledge_entry basic_info
  note_basic_info db = elim (get_tenant tenant db.tenants) [
    | none ↦ db
    | some t ↦ save_knowledge_entry call.now call.info_id tenant "basic_info" (basic_info t) "" db
  ]

  unfoldable pub handle_interview_q3 : String → String → OnboardingDb → List Reply × OnboardingDb
  unfolding update_onboarding_step save_knowledge_entry detect_redo_step forget note_basic_info
  handle_interview_q3 content conversation db = elim (detect_redo_step content "interview_q3") [
    | some redo ↦ (asked_again redo ∷ [], go_to redo (forget "interview_q3" redo db))
    | none ↦ (
      bot_message "completed" ∷ [],
      go_to "completed" (note_basic_info (note "goal" (strip content) conversation db)),
    )
  ]

  -- The handler of a step; a step without one, such as "completed", is left with no reply.
  unfoldable pub handle_step : String → String → String → OnboardingDb → List Reply × OnboardingDb
  unfolding handle_new handle_asking_name handle_asking_industry handle_asking_sleep_threshold
      handle_asking_address handle_awaiting_docs handle_interview_q1 handle_interview_q2
      handle_interview_q3
  handle_step step content conversation db =
      if step == "new"
      then handle_new db
      else if step == "asking_name"
      then handle_asking_name content db
      else if step == "asking_industry"
      then handle_asking_industry content db
      else if step == "asking_sleep_threshold"
      then handle_asking_sleep_threshold content db
      else if step == "asking_address"
      then handle_asking_address content db
      else if step == "awaiting_docs"
      then handle_awaiting_docs content conversation db
      else if step == "interview_q1"
      then handle_interview_q1 content conversation db
      else if step == "interview_q2"
      then handle_interview_q2 content conversation db
      else if step == "interview_q3"
      then handle_interview_q3 content conversation db
      else ([], db)

  unfoldable pub handle_message :
      (msg_type content source_conversation_id : String) → OnboardingDb → List Reply × OnboardingDb
  unfolding get_or_create_onboarding_state handle_step
  handle_message msg_type content conversation db =
      let (state, db') = get_or_create_onboarding_state call.now call.state_id tenant db in
      if is_unanswered state.step msg_type content
      then (invalid_answer state.step ∷ [], db')
      else handle_step state.step content conversation db'
