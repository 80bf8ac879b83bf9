-- ===== src/Routing/Modes.antt =====
-- Which messages are carried out, which are answered and which are asked back about
-- (`classify_boss_message` of src/kachu_plus/intent_router.py and `DialogueStateResolver` of
-- src/kachu_plus/dialogue_state.py, composed as in src/kachu_plus/line/webhook.py).
use Prim.Native.Char.{Char}
use kachu_v.Prelude.{
  Bool, Bool-cases, List, Option, String, [], ap, false, first, if◌then◌else◌, inl, inr, is_some,
  none, not, refl, some, strip, true, ◌&&◌, ◌==◌, ◌||◌, ◌∙◌, ◌∷◌, ◌≡◌,
}
use kachu_v.Routing.{
  BossRouteDecision, BossRouteMode, clarify_mode, classify_boss_message, consult_mode,
  contains_keyword, decide, derive_intent_label, execute_mode, looks_like_capability_question,
  looks_like_content_consult_question, looks_like_execute, looks_like_greeting,
}
use kachu_v.Routing.Keywords.{consult_kw, execute_kw}
use kachu_v.Routing.Dialogue.{
  Conversation, ExecuteTaskRecord, apply, apply_inferred, apply_mode, asks_for_revision,
  asks_for_status, carries_consult, fill_label, get_latest_execute_task_record,
  list_recent_conversations, resolve, resolve_consult, resolve_task, route,
}

-- A message that is a question, a greeting or a request for advice.
unfoldable pub is_consultation : (Char → Bool) → String → Bool
unfolding looks_like_capability_question looks_like_greeting looks_like_content_consult_question
    contains_keyword
is_consultation is_word text_ =
    looks_like_capability_question text_
    || looks_like_greeting is_word text_
    || looks_like_content_consult_question text_
    || contains_keyword text_ consult_kw

unfoldable pub is_order : String → Bool
unfolding contains_keyword looks_like_execute
is_order text_ = contains_keyword text_ execute_kw || looks_like_execute text_

-- A message on the user's latest task: how far it is, or a change to it.
unfoldable pub follows_task :
    (tenant_id line_user_id text_ : String) → List ExecuteTaskRecord → Bool
unfolding get_latest_execute_task_record asks_for_status asks_for_revision strip
follows_task tenant user text_ tasks =
    not (strip text_ == "")
    && is_some (get_latest_execute_task_record tenant user none tasks)
    && (asks_for_status (strip text_) || asks_for_revision (strip text_))

-- A short message that goes on with a talk.
unfoldable pub follows_talk : (tenant_id line_user_id text_ : String) → List Conversation → Bool
unfolding list_recent_conversations carries_consult strip
follows_talk tenant user text_ conversations =
    not (strip text_ == "")
    && is_some
        (first (λ c. true) (list_recent_conversations tenant 6 (some user) [] [] conversations))
    && carries_consult (strip text_)

abbrev pub mode_by : (consultation order task talk : Bool) → BossRouteMode
mode_by consultation order task talk =
    if consultation
    then consult_mode
    else if order
    then execute_mode
    else if task
    then execute_mode
    else if talk
    then consult_mode
    else clarify_mode

-- The mode a dialogue state infers.
abbrev inferred_by : (task talk : Bool) → Option BossRouteMode
inferred_by task talk = if task then some execute_mode else if talk then some consult_mode else none

resolve_consult-inferred :
    (s : String) (recent : List Conversation)
    → (resolve_consult s recent).inferred_mode
      ≡ inferred_by false (is_some (first (λ c. true) recent) && carries_consult s)
unfolding resolve_consult
resolve_consult-inferred s [] = refl
resolve_consult-inferred s (c ∷ cs) = elim (Bool-cases (carries_consult s)) [
  | inl carries ↦ simp (carries)
  | inr new ↦ simp (new)
]

resolve_task-inferred :
    (s : String) (latest : Option ExecuteTaskRecord) (recent : List Conversation)
    → (resolve_task s latest recent).inferred_mode
      ≡ inferred_by
          (is_some latest && (asks_for_status s || asks_for_revision s))
          (is_some (first (λ c. true) recent) && carries_consult s)
unfolding resolve_task
resolve_task-inferred s none recent = resolve_consult-inferred s recent
resolve_task-inferred s (some task) recent = elim (Bool-cases (asks_for_status s)) [
  | inl status ↦ simp (status)
  | inr other ↦ elim (Bool-cases (asks_for_revision s)) [
    | inl revision ↦ simp (other, revision)
    | inr new ↦ simp (other, new, resolve_consult-inferred s recent)
  ]
]

resolve-inferred :
    (tenant user text_ : String) (tasks : List ExecuteTaskRecord)
    (conversations : List Conversation)
    → (resolve tenant user text_ tasks conversations).inferred_mode
      ≡ inferred_by
          (follows_task tenant user text_ tasks)
          (follows_talk tenant user text_ conversations)
unfolding resolve follows_task follows_talk
resolve-inferred tenant user text_ tasks conversations = elim (Bool-cases (strip text_ == "")) [
  | inl empty ↦ simp (empty)
  | inr full ↦ simp (
    full,
    resolve_task-inferred (strip text_) (get_latest_execute_task_record tenant user none tasks)
        (list_recent_conversations tenant 6 (some user) [] [] conversations),
  )
]

fill_label-mode : (label : String) (d : BossRouteDecision) → (fill_label label d).mode ≡ d.mode
unfolding fill_label
fill_label-mode label d = elim (Bool-cases (d.intent_label == "" && not (label == ""))) [
  | inl fills ↦ simp (fills)
  | inr keeps ↦ simp (keeps)
]

-- The mode that an inferred one leaves or sets.
abbrev classified : (consultation order : Bool) → BossRouteMode
classified consultation order =
    if consultation then consult_mode else if order then execute_mode else clarify_mode

apply_inferred-mode_by :
    (consultation order task talk : Bool) (label : String) (d : BossRouteDecision)
    → d.mode ≡ classified consultation order
    → (apply_inferred (inferred_by task talk) label d).mode ≡ mode_by consultation order task talk
unfolding apply_inferred
apply_inferred-mode_by true o true k label d p = simp (p)
apply_inferred-mode_by true o false true label d p = simp (p)
apply_inferred-mode_by true o false false label d p = p
apply_inferred-mode_by false true true k label d p =
    ap (λ n. (apply_mode execute_mode label d n).mode) p ∙ fill_label-mode label d ∙ p
apply_inferred-mode_by false true false true label d p = simp (p)
apply_inferred-mode_by false true false false label d p = p
apply_inferred-mode_by false false true k label d p = simp (p)
apply_inferred-mode_by false false false true label d p = simp (p)
apply_inferred-mode_by false false false false label d p = p

chosen :
    (capability greets content consults orders : Bool) (label : String)
    → (if capability
        then decide consult_mode "capability_overview"
        else if greets
        then decide consult_mode "greeting"
        else if content
        then decide consult_mode "content_consult"
        else if orders && not consults
        then decide execute_mode label
        else if consults
        then decide consult_mode ""
        else decide clarify_mode "").mode
      ≡ classified (capability || greets || content || consults) orders
chosen true g c h o label = refl
chosen false true c h o label = refl
chosen false false true h o label = refl
chosen false false false true true label = refl
chosen false false false true false label = refl
chosen false false false false true label = refl
chosen false false false false false label = refl

classify_boss_message-classified :
    (is_word : Char → Bool) (text_ : String)
    → (classify_boss_message is_word text_).mode
      ≡ classified (is_consultation is_word text_) (is_order text_)
unfolding classify_boss_message is_consultation is_order
classify_boss_message-classified is_word text_ =
    chosen (looks_like_capability_question text_) (looks_like_greeting is_word text_)
      (looks_like_content_consult_question text_) (contains_keyword text_ consult_kw)
      (contains_keyword text_ execute_kw || looks_like_execute text_) (derive_intent_label text_)

-- What a message asks for is decided in this order: a question, a greeting or a wish for advice is
-- answered, an order is carried out, a message on the user's latest task is carried out, a message
-- that goes on with a talk is answered, and any other message is asked back about.
pub route-mode_by :
    (is_word : Char → Bool) (tenant user text_ : String) (tasks : List ExecuteTaskRecord)
    (conversations : List Conversation)
    → (route is_word tenant user text_ tasks conversations).mode
      ≡ mode_by
          (is_consultation is_word text_)
          (is_order text_)
          (follows_task tenant user text_ tasks)
          (follows_talk tenant user text_ conversations)
unfolding route apply
route-mode_by is_word tenant user text_ tasks conversations =
    let state = resolve tenant user text_ tasks conversations in
    let d = classify_boss_message is_word text_ in
    ap (λ m. (apply_inferred m state.inferred_intent_label d).mode)
      (resolve-inferred tenant user text_ tasks conversations)
    ∙ apply_inferred-mode_by (is_consultation is_word text_) (is_order text_)
        (follows_task tenant user text_ tasks) (follows_talk tenant user text_ conversations)
        state.inferred_intent_label d (classify_boss_message-classified is_word text_)
