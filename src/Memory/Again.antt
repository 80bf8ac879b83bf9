-- ===== src/Memory/Again.antt =====
-- What is remembered of a conversation is remembered once
-- (`promote_conversation` of src/kachu_plus/memory_promotion.py).
use kachu_v.Prelude.{
  All, Bool-cases, List, Option, String, arith, eq_refl, false, if◌then◌else◌, inl, inr, ltb, none,
  not, or_text, refl, some, strip, true, ℕ, ◌&&◌, ◌==◌, ◌≡◌,
}
use kachu_v.Onboarding.{KnowledgeEntry}
use kachu_v.Routing.Dialogue.{Conversation, ExecuteTaskRecord, allows}
use kachu_v.Memory.{
  EpisodicMemory, Memories, PreferenceMemory, accepts_result, get_episodic_memories,
  get_preference_memories, has_matching_episode, has_matching_knowledge, has_matching_preference,
  infer_knowledge_category, platform_from_text, promote_conversation, promote_episode,
  promote_knowledge, promote_preference, recent_knowledge,
}
use kachu_v.Memory.Recent.{add_unless_again, any-newest}

-- The rows were written before the time.
pub record IsBefore (now : ℕ) (store : Memories) : Type 0 where
  pub knowledge_before : All (λ e. ltb e.created_at now ≡ true) store.knowledge
  pub preferences_before : All (λ e. ltb e.created_at now ≡ true) store.preferences
  pub episodes_before : All (λ e. ltb e.created_at now ≡ true) store.episodes

module _ (now later : ℕ) (new_id later_id tenant content : String) where
  promote_knowledge_again :
      (conversation : Conversation) (table : List KnowledgeEntry)
      → All (λ e. ltb e.created_at now ≡ true) table
      → let table' = (promote_knowledge now new_id tenant content conversation table).1 in
        promote_knowledge later later_id tenant content conversation table' ≡ (false, table')
  unfolding promote_knowledge has_matching_knowledge recent_knowledge
  promote_knowledge_again conversation table before =
      add_unless_again _ (has_matching_knowledge tenant (infer_knowledge_category content) content)
        _ _ table
        (any-newest (λ e. e.created_at) _ _ _ 29 table before (eq_refl tenant)
          (ground (arith, eq_refl (infer_knowledge_category content), eq_refl (strip content))))

  promote_preference_again :
      (latest : Option ExecuteTaskRecord) (table : List PreferenceMemory)
      → All (λ e. ltb e.created_at now ≡ true) table
      → let table' = (promote_preference now new_id tenant content latest table).1 in
        promote_preference later later_id tenant content latest table' ≡ (false, table')
  unfolding promote_preference has_matching_preference get_preference_memories
  promote_preference_again latest table before =
      add_unless_again _ (has_matching_preference tenant (platform_from_text content) content) _ _
        table
        (any-newest (λ e. e.created_at) _ _ _ 9 table before
          (ground (arith, eq_refl tenant, eq_refl (platform_from_text content)))
          (eq_refl (strip content)))

  promote_episode_again :
      (conversation : Conversation) (latest : Option ExecuteTaskRecord)
      (table : List EpisodicMemory)
      → All (λ e. ltb e.created_at now ≡ true) table
      → let table' = (promote_episode now new_id tenant content conversation latest table).1 in
        promote_episode later later_id tenant content conversation latest table' ≡ (false, table')
  unfolding promote_episode has_matching_episode get_episodic_memories allows
  promote_episode_again conversation none table before = refl
  promote_episode_again conversation (some task) table before =
      let workflow = or_text task.intent_label "general_follow_up" in
      let outcome = if accepts_result content then "accepted" else "needs_revision" in
      add_unless_again _ (has_matching_episode tenant workflow outcome) _ _ table (
        any-newest (λ e. e.created_at) _ _ _ 4 table before
          (ground (arith, eq_refl tenant, eq_refl workflow)) (eq_refl outcome))

-- After a conversation was promoted into rows that are all older, promoting it again with the same
-- task, at any later or earlier time, adds nothing.
pub promote_conversation_again :
    (now later : ℕ) (k p e k' p' e' tenant : String) (conversation : Conversation)
    (latest : Option ExecuteTaskRecord) (store : Memories)
    → IsBefore now store
    → let store' = (promote_conversation now k p e tenant conversation latest store).1 in
      promote_conversation later k' p' e' tenant conversation latest store'
      ≡ (record { knowledge_count = 0; preference_count = 0; episode_count = 0 }, store')
unfolding promote_conversation
promote_conversation_again now later k p e k' p' e' tenant conversation latest store before =
    let content = strip conversation.content_text in
    elim (Bool-cases (conversation.actor_role == "boss" && not (content == ""))) [
      | inl said ↦
          rw
            (
              said,
              promote_knowledge_again now later k k' tenant content conversation store.knowledge
                  before.knowledge_before,
              promote_preference_again now later p p' tenant content latest store.preferences
                  before.preferences_before,
              promote_episode_again now later e e' tenant content conversation latest store.episodes
                  before.episodes_before,
            )
            refl
      | inr unsaid ↦ rw (unsaid) refl
    ]
