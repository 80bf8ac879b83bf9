-- ===== src/Memory.antt =====
-- What is remembered of a conversation: knowledge, preferences and episodes
-- (`ConversationMemoryPromoter` of src/kachu_plus/memory_promotion.py, with the operations of
-- src/kachu_plus/persistence/repository.py it calls).
pub mod Recent
pub mod Again
mod Examples
use Prim.Native.Char.{Char, code}
use kachu_v.Prelude.{
  Bool, List, Option, String, [], any, append, contains_any, eqb, false, filter, if◌then◌else◌,
  none, not, or_text, order_by_desc, some, strip, take, true, ℕ, ◌&&◌, ◌++◌, ◌==◌, ◌∷◌,
}
use kachu_v.Onboarding.{KnowledgeEntry}
use kachu_v.Routing.Dialogue.{Conversation, ExecuteTaskRecord, allows}

pub record PreferenceMemory : Type 0 where
  pub id : String
  pub tenant_id : String
  pub platform : String
  pub original_draft : String
  pub edited_draft : String
  pub diff_notes : String
  pub run_id : String
  pub created_at : ℕ

pub record EpisodicMemory : Type 0 where
  pub id : String
  pub tenant_id : String
  pub workflow_type : String
  pub outcome : String
  pub context_summary_json : String
  pub created_at : ℕ

-- The three tables.
pub record Memories : Type 0 where
  pub knowledge : List KnowledgeEntry
  pub preferences : List PreferenceMemory
  pub episodes : List EpisodicMemory

-- How many rows of each table a conversation has added.
pub record Promoted : Type 0 where
  pub knowledge_count : ℕ
  pub preference_count : ℕ
  pub episode_count : ℕ

unfoldable pub recent_knowledge :
    (tenant_id : String) (limit : ℕ) → List KnowledgeEntry → List KnowledgeEntry
recent_knowledge tenant limit table =
    take limit (order_by_desc (λ e. e.created_at) (filter (λ e. e.tenant_id == tenant) table))

unfoldable pub get_preference_memories :
    (tenant_id platform : String) (limit : ℕ) → List PreferenceMemory → List PreferenceMemory
get_preference_memories tenant platform limit table = take limit (
    order_by_desc (λ e. e.created_at)
      (filter (λ e. e.tenant_id == tenant && e.platform == platform) table))

unfoldable pub get_episodic_memories :
    (tenant_id : String) (workflow_type : Option String) (limit : ℕ)
    → List EpisodicMemory
    → List EpisodicMemory
unfolding allows
get_episodic_memories tenant workflow limit table = take limit (
    order_by_desc (λ e. e.created_at)
      (filter (λ e. e.tenant_id == tenant && allows workflow e.workflow_type) table))

unfoldable pub platform_from_text : String → String
unfolding contains_any
platform_from_text s =
    if contains_any s ("fb" ∷ "facebook" ∷ "粉專" ∷ "meta" ∷ "ig" ∷ "instagram" ∷ [])
    then "ig_fb"
    else if contains_any s ("line" ∷ "line官方" ∷ "官方line" ∷ [])
    then "line"
    else "google"

unfoldable pub infer_knowledge_category : String → String
unfolding contains_any
infer_knowledge_category s =
    if contains_any s ("營業" ∷ "公休" ∷ "地址" ∷ "電話" ∷ "預約" ∷ "店休" ∷ "打烊" ∷ [])
    then "basic_info"
    else if contains_any s ("價格" ∷ "價位" ∷ "售價" ∷ "優惠" ∷ "折扣" ∷ "方案" ∷ [])
    then "offer"
    else if contains_any s ("菜單" ∷ "服務" ∷ "品項" ∷ "新品" ∷ "套餐" ∷ "商品" ∷ [])
    then "product"
    else if contains_any s ("理念" ∷ "主打" ∷ "特色" ∷ "堅持" ∷ "品牌" ∷ "定位" ∷ [])
    then "core_value"
    else if contains_any s ("目標" ∷ "希望" ∷ "想要" ∷ "今年" ∷ "本月" ∷ [])
    then "goal"
    else if contains_any s ("安全" ∷ "安心" ∷ "副作用" ∷ "天然" ∷ "西藥" ∷ "農藥" ∷ "重金屬" ∷ [])
    then "pain_point"
    else if contains_any s ("困擾" ∷ "痛點" ∷ "卡住" ∷ "抱怨" ∷ "問題" ∷ [])
    then "pain_point"
    else ""

unfoldable pub states_preference : String → Bool
unfolding contains_any
states_preference s =
    contains_any s ("語氣" ∷ "口吻" ∷ "風格" ∷ "不要" ∷ "改成" ∷ "CTA" ∷ "hashtag" ∷ "表情符號" ∷ "emoji" ∷ [])

unfoldable pub accepts_result : String → Bool
unfolding contains_any
accepts_result s = contains_any s ("可以" ∷ "發吧" ∷ "就這個" ∷ "不錯" ∷ "好，發" ∷ "ok" ∷ "OK" ∷ [])

unfoldable pub judges_result : String → Bool
unfolding contains_any
judges_result s =
    contains_any s
      ("可以" ∷ "發吧" ∷ "就這個" ∷ "不錯" ∷ "好，發" ∷ "ok" ∷ "OK" ∷ "改一下" ∷ "重寫" ∷ "不要" ∷ "太長" ∷ "太像" ∷ [])

-- A row that is added when it is wanted and the table has no match.
abbrev pub add_unless {ℓ} : {A : Type ℓ} → Bool → (List A → Bool) → A → List A → Bool × List A
add_unless wanted matches row table =
    if wanted && not (matches table) then (true, table ++ row ∷ []) else (false, table)

unfoldable pub has_matching_knowledge :
    (tenant_id category content_text : String) → List KnowledgeEntry → Bool
unfolding recent_knowledge strip
has_matching_knowledge tenant category content table =
    any (λ e. e.category == category && strip e.content == strip content)
      (recent_knowledge tenant 30 table)

unfoldable pub has_matching_preference :
    (tenant_id platform content_text : String) → List PreferenceMemory → Bool
unfolding get_preference_memories strip
has_matching_preference tenant platform content table =
    any (λ e. strip e.edited_draft == strip content)
      (get_preference_memories tenant platform 10 table)

unfoldable pub has_matching_episode :
    (tenant_id workflow_type outcome : String) → List EpisodicMemory → Bool
unfolding get_episodic_memories
has_matching_episode tenant workflow outcome table =
    any (λ e. e.outcome == outcome) (get_episodic_memories tenant (some workflow) 5 table)

unfoldable pub promote_knowledge :
    (now : ℕ) (new_id tenant_id content_text : String)
    → Conversation
    → List KnowledgeEntry
    → Bool × List KnowledgeEntry
unfolding infer_knowledge_category has_matching_knowledge
promote_knowledge now new_id tenant content conversation table =
    add_unless
      (not (conversation.conversation_kind == "onboarding")
        && not (infer_knowledge_category content == ""))
      (has_matching_knowledge tenant (infer_knowledge_category content) content)
      record {
        id = new_id;
        tenant_id = tenant;
        category = infer_knowledge_category content;
        content = content;
        source_type = "conversation";
        source_conversation_id = conversation.id;
        status = "active";
        confidence_score = 7200;
        supersedes_entry_id = "";
        created_at = now;
      }
      table

abbrev pub run_id_of : Option ExecuteTaskRecord → String
run_id_of none = ""
run_id_of (some task) = task.run_id

unfoldable pub promote_preference :
    (now : ℕ) (new_id tenant_id content_text : String)
    → Option ExecuteTaskRecord
    → List PreferenceMemory
    → Bool × List PreferenceMemory
unfolding platform_from_text has_matching_preference states_preference
promote_preference now new_id tenant content latest table =
    add_unless (states_preference content)
      (has_matching_preference tenant (platform_from_text content) content)
      record {
        id = new_id;
        tenant_id = tenant;
        platform = platform_from_text content;
        original_draft = content;
        edited_draft = content;
        diff_notes = "老闆主動描述偏好";
        run_id = run_id_of latest;
        created_at = now;
      }
      table

-- `content_text.replace('"', '\\"')`
unfoldable pub escape_quotes : String → String
escape_quotes String.[] = ""
escape_quotes (String.◌∷◌ c s) =
    let rest = escape_quotes s in if eqb (code c) 34 then append "\\\"" rest else String.◌∷◌ c rest

unfoldable pub promote_episode :
    (now : ℕ) (new_id tenant_id content_text : String)
    → Conversation
    → Option ExecuteTaskRecord
    → List EpisodicMemory
    → Bool × List EpisodicMemory
unfolding has_matching_episode judges_result accepts_result escape_quotes
promote_episode now new_id tenant content conversation none table = (false, table)
promote_episode now new_id tenant content conversation (some task) table =
    let outcome = if accepts_result content then "accepted" else "needs_revision" in
    let workflow = or_text task.intent_label "general_follow_up" in
    add_unless (judges_result content) (has_matching_episode tenant workflow outcome)
      record {
        id = new_id;
        tenant_id = tenant;
        workflow_type = workflow;
        outcome = outcome;
        context_summary_json = append "{\"conversation_id\": \"" (
            append conversation.id (
              append "\", \"task_id\": \"" (
                append task.task_id
                  (append "\", \"signal\": \"" (append (escape_quotes content) "\"}")))));
        created_at = now;
      }
      table

abbrev pub added : Bool → ℕ
added b = if b then 1 else 0

-- `promote_conversation`
unfoldable pub promote_conversation :
    (now : ℕ) (knowledge_id preference_id episode_id tenant_id : String)
    → Conversation
    → Option ExecuteTaskRecord
    → Memories
    → Promoted × Memories
unfolding promote_knowledge promote_preference promote_episode strip
promote_conversation now k p e tenant conversation latest store =
    let content = strip conversation.content_text in
    if conversation.actor_role == "boss" && not (content == "")
    then (let known = promote_knowledge now k tenant content conversation store.knowledge in
        let preferred = promote_preference now p tenant content latest store.preferences in
        let judged = promote_episode now e tenant content conversation latest store.episodes in
        (
          record {
            knowledge_count = added known.0;
            preference_count = added preferred.0;
            episode_count = added judged.0;
          },
          record { knowledge = known.1; preferences = preferred.1; episodes = judged.1 },
        ))
    else (record { knowledge_count = 0; preference_count = 0; episode_count = 0 }, store)
