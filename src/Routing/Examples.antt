-- ===== src/Routing/Examples.antt =====
-- The theorem on routes at concrete messages: a change to the latest task, and the same task asked
-- about with a wish for advice.
use kachu_v.Prelude.{[], refl, true, ◌∷◌, ◌≡◌}
use kachu_v.Routing.{clarify_mode, classify_boss_message, consult_mode, decide, execute_mode}
use kachu_v.Routing.Dialogue.{ExecuteTaskRecord, route}
use kachu_v.Routing.Modes.{follows_talk, follows_task, is_consultation, is_order, route-mode_by}

abbrev last_task : ExecuteTaskRecord
last_task = record {
  id = "e1";
  tenant_id = "t1";
  line_user_id = "u1";
  intent_label = "google_post";
  source_text = "發一篇貼文";
  objective = "";
  task_id = "k1";
  run_id = "r1";
  related_conversation_id = "";
  status = "created";
  created_at = 5;
  updated_at = 5;
}

route-mode_by_example : (route (λ c. true) "t1" "u1" "短一點" (last_task ∷ []) []).mode ≡ execute_mode
unfolding is_consultation is_order follows_task follows_talk
route-mode_by_example = route-mode_by (λ c. true) "t1" "u1" "短一點" (last_task ∷ []) []

revision_test :
    route (λ c. true) "t1" "u1" "短一點" (last_task ∷ []) [] ≡ decide execute_mode "google_post"
unfolding route
revision_test = refl

advice_test : (route (λ c. true) "t1" "u1" "進度好嗎" (last_task ∷ []) []).mode ≡ consult_mode
unfolding route
advice_test = refl

order_test : route (λ c. true) "t1" "u1" "回覆評論" [] [] ≡ decide execute_mode "review_reply"
unfolding route
order_test = refl

url_test : (classify_boss_message (λ c. true) "看 https://a.b").mode ≡ clarify_mode
unfolding classify_boss_message
url_test = refl
