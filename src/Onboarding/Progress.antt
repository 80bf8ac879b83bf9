-- ===== src/Onboarding/Progress.antt =====
-- The progress of the onboarding through the messages of a tenant (`handle_message` of
-- src/kachu_plus/onboarding/flow.py, lines 173 to 206).
use kachu_v.Tenants.{tenant_row}
use kachu_v.Prelude.{
  All, Bool-cases, List, String, [], elem, eq_refl, false, first, inl, inr, none, not, refl, some,
  strip, subst, sym, true, ℕ, ◌==◌, ◌||◌, ◌∷◌, ◌≡◌, ◌⊎◌,
}
use kachu_v.Table.{IsKeyed}
use kachu_v.Table.Laws.{first-put_row_new, put_row-IsKeyed}
use kachu_v.Onboarding.{
  OnboardingDb, OnboardingState, entry_row, get_onboarding_state, get_or_create_onboarding_state,
  is_state, new_state, state_row,
}
use kachu_v.Onboarding.Flow.{Call, Reply, Website, handle_message, invalid_answer, is_unanswered}
use kachu_v.Onboarding.Entries.{entries_of}
use kachu_v.Onboarding.Handlers.{handle_step_lem}
use kachu_v.Onboarding.Steps.{IsConsistent, IsHarmless, answered, categories}

-- A message of the tenant, with what the call reads from outside.
pub record Message : Type 0 where
  pub call : Call
  pub msg_type : String
  pub content : String
  pub conversation : String

abbrev pub received : String → Message → OnboardingDb → List Reply × OnboardingDb
received tenant m db = handle_message m.call tenant m.msg_type m.content m.conversation db

-- The tenant has a step and the answers that belong to it, or has neither.
abbrev pub IsReady : String → OnboardingDb → Type 0
IsReady tenant db =
    ((step : String) × IsConsistent tenant step db)
    ⊎ IsKeyed db.states
      × (first (is_state tenant) db.states ≡ none)
      × All (λ c. entries_of tenant c db ≡ 0) categories

get_or_create_lem :
    (now : ℕ) (id tenant : String) (db : OnboardingDb)
    → IsReady tenant db
    → IsConsistent tenant
        (get_or_create_onboarding_state now id tenant db).0.step
        (get_or_create_onboarding_state now id tenant db).1
unfolding get_or_create_onboarding_state get_onboarding_state
get_or_create_lem now id tenant db (inl (step, ((keyed, (s, found, at_step)), counts))) =
    rw (found, get_or_create_onboarding_state)
      (
        (keyed, (s, found, refl)),
        subst (λ k. All (λ c. entries_of tenant c db ≡ answered k c) categories) (sym at_step)
            counts,
      )
get_or_create_lem now id tenant db (inr (keyed, missing, counts)) =
    let s = new_state now id tenant "new" in
    rw (missing, get_or_create_onboarding_state)
      (
        (
          put_row-IsKeyed s db.states keyed,
          (s, first-put_row_new (is_state tenant) s db.states missing (eq_refl tenant), refl),
        ),
        counts,
      )

-- The ingestion of websites, where one is set, leaves steps and interview answers as they are.
abbrev pub IsSafe : Message → Type 0
IsSafe m = (w : Website) → m.call.website ≡ some w → IsHarmless w

received_lem :
    (tenant : String) (m : Message) (db : OnboardingDb)
    → IsSafe m
    → IsReady tenant db
    → (step : String) × IsConsistent tenant step (received tenant m db).1
unfolding handle_message
received_lem tenant m db safe ready =
    let start = get_or_create_onboarding_state m.call.now m.call.state_id tenant db in
    let h = get_or_create_lem m.call.now m.call.state_id tenant db ready in
    elim (Bool-cases (is_unanswered start.0.step m.msg_type m.content)) [
      | inl unanswered ↦ rw (unanswered, handle_message) (start.0.step, h)
      | inr fine ↦
          rw (fine, handle_message)
            (handle_step_lem m.call tenant start.0.step m.content m.conversation start.1 safe h)
    ]

unfoldable pub receive_all : String → List Message → OnboardingDb → OnboardingDb
receive_all tenant [] db = db
receive_all tenant (m ∷ ms) db = receive_all tenant ms (received tenant m db).1

-- After any messages of a tenant, in any order and of any kind, returns to earlier questions
-- included, the tenant has exactly one stored answer for each interview question that lies before
-- its step, and none for the others: if it starts so or has no step and no answers, and the
-- ingestion of websites leaves steps and interview answers as they are.
pub receive_all-IsReady :
    (tenant : String) (messages : List Message) (db : OnboardingDb)
    → All IsSafe messages
    → IsReady tenant db
    → IsReady tenant (receive_all tenant messages db)
unfolding receive_all
receive_all-IsReady tenant [] db safe ready = ready
receive_all-IsReady tenant (m ∷ ms) db safe ready =
    receive_all-IsReady tenant ms (received tenant m db).1 safe.1
      (inl (received_lem tenant m db safe.0 ready))

-- At a step that asks a question, a message that is no text, or a blank one, changes nothing, and
-- is answered by asking again.
pub handle_message_unanswered :
    (call : Call) (tenant msg_type content conversation : String) (db : OnboardingDb)
    (s : OnboardingState)
    → first (is_state tenant) db.states ≡ some s
    → elem s.step ("new" ∷ "awaiting_docs" ∷ []) ≡ false
    → (not (msg_type == "text") || strip content == "") ≡ true
    → handle_message call tenant msg_type content conversation db ≡ (invalid_answer s.step ∷ [], db)
unfolding handle_message get_or_create_onboarding_state get_onboarding_state
handle_message_unanswered call tenant msg_type content conversation db s found asks blank =
    rw (found, get_or_create_onboarding_state, handle_message, asks, blank) refl
