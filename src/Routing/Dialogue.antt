-- ===== src/Routing/Dialogue.antt =====
-- What the owner's message carries on from: the latest task and the recent talk
-- (src/kachu_plus/dialogue_state.py, with the two queries of
-- src/kachu_plus/persistence/repository.py it makes), and the route the webhook takes
-- (`src/kachu_plus/line/webhook.py`, lines 1658 to 1663).
use Prim.Native.Char.{Char}
use kachu_v.Prelude.{
  Bool, List, Option, String, [], contains_any, elem, false, filter, first, if◌then◌else◌, leb, map,
  none, not, order_by_desc, some, strip, suc, take, true, ℕ, ◌&&◌, ◌==◌, ◌||◌, ◌∷◌,
}
use kachu_v.Routing.{
  BossRouteDecision, BossRouteMode, clarify_mode, classify_boss_message, consult_mode, decide,
  execute_mode,
}
use kachu_v.Routing.Labels.{
  consult_carry_signals, reference_signals, revision_signals, status_signals,
}

-- `ExecuteTaskRecordTable` and, as far as the queries read it, `ConversationTable`.
pub record ExecuteTaskRecord : Type 0 where
  pub id : String
  pub tenant_id : String
  pub line_user_id : String
  pub intent_label : String
  pub source_text : String
  pub objective : String
  pub task_id : String
  pub run_id : String
  pub related_conversation_id : String
  pub status : String
  pub created_at : ℕ
  pub updated_at : ℕ

pub record Conversation : Type 0 where
  pub id : String
  pub tenant_id : String
  pub line_user_id : String
  pub actor_role : String
  pub conversation_kind : String
  pub content_text : String
  pub created_at : ℕ

-- `if value: stmt = stmt.where(column == value)`, and the same with `column.in_(values)`.
unfoldable pub allows : Option String → String → Bool
allows none column = true
allows (some value) column = value == "" || column == value

unfoldable pub allows_any : List String → String → Bool
allows_any [] column = true
allows_any (v ∷ vs) column = elem column (v ∷ vs)

unfoldable pub get_latest_execute_task_record :
    (tenant_id line_user_id : String) (intent_label : Option String)
    → List ExecuteTaskRecord
    → Option ExecuteTaskRecord
unfolding allows
get_latest_execute_task_record tenant user label table =
    first (λ a. true)
      (order_by_desc (λ a. a.created_at)
        (filter
          (λ a. a.tenant_id == tenant && a.line_user_id == user && allows label a.intent_label)
          table))

unfoldable pub list_recent_conversations :
    (tenant_id : String) (limit : ℕ) (line_user_id : Option String)
    → (actor_roles conversation_kinds : List String) → List Conversation
    → List Conversation
unfolding allows allows_any
list_recent_conversations tenant limit user roles kinds table = take limit (
    order_by_desc (λ c. c.created_at)
      (filter
        (λ c.
          c.tenant_id == tenant
          && allows user c.line_user_id
          && allows_any roles c.actor_role
          && allows_any kinds c.conversation_kind)
        table))

-- `DialogueState`
pub record DialogueState : Type 0 where
  pub is_follow_up : Bool
  pub inferred_mode : Option BossRouteMode
  pub inferred_intent_label : String
  pub carry_over_task_id : String
  pub carry_over_run_id : String
  pub carry_over_source_text : String
  pub reason : String
  pub recent_conversation_ids : List String

-- The two cases of `apply` that the inferred mode decides.
unfoldable pub fill_label : String → BossRouteDecision → BossRouteDecision
fill_label label d =
    if d.intent_label == "" && not (label == "") then record d { intent_label = label } else d

unfoldable pub apply_mode :
    BossRouteMode → String → BossRouteDecision → BossRouteMode → BossRouteDecision
unfolding fill_label
apply_mode execute_mode label d execute_mode = fill_label label d
apply_mode execute_mode label d consult_mode = d
apply_mode execute_mode label d clarify_mode = decide execute_mode label
apply_mode consult_mode label d execute_mode = d
apply_mode consult_mode label d consult_mode = d
apply_mode consult_mode label d clarify_mode = decide consult_mode ""
apply_mode clarify_mode label d m = d

unfoldable pub apply_inferred :
    Option BossRouteMode → String → BossRouteDecision → BossRouteDecision
unfolding apply_mode
apply_inferred none label d = d
apply_inferred (some m) label d = apply_mode m label d d.mode

unfoldable pub apply : DialogueState → BossRouteDecision → BossRouteDecision
unfolding apply_inferred
apply state d = apply_inferred state.inferred_mode state.inferred_intent_label d

-- `len(text)`, in code points.
unfoldable pub text_length : String → ℕ
text_length String.[] = 0
text_length (String.◌∷◌ c s) = suc (text_length s)

abbrev pub state_of : List Conversation → DialogueState
state_of recent = record {
  is_follow_up = false;
  inferred_mode = none;
  inferred_intent_label = "";
  carry_over_task_id = "";
  carry_over_run_id = "";
  carry_over_source_text = "";
  reason = "";
  recent_conversation_ids = map (λ c. c.id) recent;
}

unfoldable pub asks_for_status : String → Bool
unfolding contains_any
asks_for_status s = contains_any s status_signals

unfoldable pub asks_for_revision : String → Bool
unfolding contains_any text_length
asks_for_revision s =
    contains_any s revision_signals && (contains_any s reference_signals || leb (text_length s) 18)

unfoldable pub carries_consult : String → Bool
unfolding contains_any text_length
carries_consult s =
    contains_any s consult_carry_signals
    || leb (text_length s) 12 && contains_any s reference_signals

unfoldable pub resolve_consult : String → List Conversation → DialogueState
unfolding carries_consult
resolve_consult s [] = state_of []
resolve_consult s (c ∷ cs) =
    if carries_consult s
    then record (state_of (c ∷ cs)) {
      is_follow_up = true;
      inferred_mode = some consult_mode;
      reason = "recent_dialogue_consult_carry_over";
    }
    else state_of (c ∷ cs)

abbrev pub carry_over : ExecuteTaskRecord → String → String → List Conversation → DialogueState
carry_over task label reason recent = record (state_of recent) {
  is_follow_up = true;
  inferred_mode = some execute_mode;
  inferred_intent_label = label;
  carry_over_task_id = task.task_id;
  carry_over_run_id = task.run_id;
  carry_over_source_text = task.source_text;
  reason = reason;
}

unfoldable pub resolve_task : String → Option ExecuteTaskRecord → List Conversation → DialogueState
unfolding asks_for_status asks_for_revision resolve_consult
resolve_task s none recent = resolve_consult s recent
resolve_task s (some task) recent =
    if asks_for_status s
    then carry_over task "draft_status" "active_task_status_follow_up" recent
    else if asks_for_revision s
    then carry_over task task.intent_label "active_task_revision_follow_up" recent
    else resolve_consult s recent

-- `DialogueStateResolver.resolve`
unfoldable pub resolve :
    (tenant_id line_user_id text_ : String)
    → List ExecuteTaskRecord
    → List Conversation
    → DialogueState
unfolding strip get_latest_execute_task_record list_recent_conversations resolve_task
resolve tenant user text_ tasks conversations =
    let recent = list_recent_conversations tenant 6 (some user) [] [] conversations in
    let normalized = strip text_ in
    if normalized == ""
    then state_of recent
    else resolve_task normalized (get_latest_execute_task_record tenant user none tasks) recent

-- The route of a message.
unfoldable pub route :
    (Char → Bool)
    → (tenant_id line_user_id text_ : String) → List ExecuteTaskRecord
    → List Conversation
    → BossRouteDecision
unfolding resolve apply classify_boss_message
route is_word tenant user text_ tasks conversations =
    apply (resolve tenant user text_ tasks conversations) (classify_boss_message is_word text_)
