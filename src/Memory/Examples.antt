-- ===== src/Memory/Examples.antt =====
-- The theorem on promotions at a concrete conversation: a wish about the style of a post, which is
-- a judgement on the latest task too.
use kachu_v.Prelude.{[], refl, some, true, ◌∷◌, ◌≡◌}
use kachu_v.Routing.Dialogue.{Conversation, ExecuteTaskRecord}
use kachu_v.Memory.{EpisodicMemory, Memories, accepts_result, promote_conversation}
use kachu_v.Memory.Again.{IsBefore, promote_conversation_again}

abbrev wish : Conversation
wish = record {
  id = "c1";
  tenant_id = "t1";
  line_user_id = "u1";
  actor_role = "boss";
  conversation_kind = "chat";
  content_text = " 優惠語氣不要 ";
  created_at = 7;
}

abbrev judged_task : ExecuteTaskRecord
judged_task = record {
  id = "e1";
  tenant_id = "t1";
  line_user_id = "u1";
  intent_label = "google_post";
  source_text = "發一篇貼文";
  objective = "";
  task_id = "k1";
  run_id = "r1";
  related_conversation_id = "";
  status = "created";
  created_at = 5;
  updated_at = 5;
}

abbrev empty_store : Memories
empty_store = record { knowledge = []; preferences = []; episodes = [] }

abbrev earlier_episode : EpisodicMemory
earlier_episode = record {
  id = "m1";
  tenant_id = "t1";
  workflow_type = "google_post";
  outcome = "accepted";
  context_summary_json = "{}";
  created_at = 6;
}

abbrev stored : Memories
stored = record empty_store { episodes = earlier_episode ∷ [] }

stored-IsBefore : IsBefore 8 stored
stored-IsBefore = record {
  knowledge_before = tt;
  preferences_before = tt;
  episodes_before = (refl, tt);
}

promote_conversation_again_example :
    let store' = (promote_conversation 8 "k" "p" "e" "t1" wish (some judged_task) stored).1 in
    promote_conversation 9 "k2" "p2" "e2" "t1" wish (some judged_task) store'
    ≡ (record { knowledge_count = 0; preference_count = 0; episode_count = 0 }, store')
promote_conversation_again_example =
    promote_conversation_again 8 9 "k" "p" "e" "k2" "p2" "e2" "t1" wish (some judged_task) stored
      stored-IsBefore

first_promotion_test :
    (promote_conversation 8 "k" "p" "e" "t1" wish (some judged_task) stored).0
    ≡ record { knowledge_count = 1; preference_count = 1; episode_count = 1 }
unfolding promote_conversation
first_promotion_test = refl

refusal_test : accepts_result "不可以" ≡ true
unfolding accepts_result
refusal_test = refl
