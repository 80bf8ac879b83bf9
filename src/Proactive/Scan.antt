-- ===== src/Proactive/Scan.antt =====
-- What the engine does for one tenant (`run_once_for_tenant`). Its follow-up, a task that is started
-- beside it, is part of the result.
use kachu_v.Prelude.{
  Bool, List, Option, Result, String, [], false, if◌then◌else◌, length, map, none, ok, raise, some,
  true, ℕ, ◌&&◌, ◌+◌, ◌==◌, ◌∷◌,
}
use kachu_v.Tenants.{get_tenant, tenant_row}
use kachu_v.Suggestions.{Suggestion, suggestion_row}
use kachu_v.Suggestions.Store.{
  create_suggestion, expire_due_suggestions, get_latest_active_suggestion,
}
use kachu_v.Customers.{CustomerDb, assignment_row, entity_row, link_row, profile_row, tag_row}
use kachu_v.Customers.Profiles.{list_sleeping_customer_profiles}
use kachu_v.Approvals.Due.{Formats}
use kachu_v.Proactive.{Settings, Shop, published_row, resolve_tenant_line_recipients}
use kachu_v.Proactive.Detect.{
  Nudge, days, detect_nudge, negative_review, no_post, nudge_type, sleep_threshold_of,
  sleeping_customers, stale_knowledge,
}

abbrev pub title_map : Nudge → String
title_map no_post = "最近 7 天沒有新貼文"
title_map negative_review = "有待回覆的負評"
title_map stale_knowledge = "知識庫已超過 60 天未更新"
title_map sleeping_customers = "有一批沉睡顧客可喚回"

abbrev pub reason_map : Nudge → String
reason_map no_post = "品牌陣地已連續 7 天沒有新貼文，曝光會持續下滑。"
reason_map negative_review = "目前存在至少一則未處理負評，持續暴露會影響轉換。"
reason_map stale_knowledge = "知識庫已超過 60 天未更新，之後的諮詢與草稿會逐漸脫離現況。"
reason_map sleeping_customers = "有一批顧客超過商家設定門檻未互動，已接近流失。"

abbrev pub body_map : Nudge → String
body_map no_post = "建議先補一篇本週 Google 商家動態，維持品牌存在感。"
body_map negative_review = "建議優先起草回覆，先止血再觀察後續評價變化。"
body_map stale_knowledge = "建議先補最新營業資訊、主打商品或檔期內容，避免後續生成沿用過時資訊。"
body_map sleeping_customers = "建議先發一則溫和的回流訊息，測試沉睡顧客回應率。"

abbrev pub action_map : Nudge → String
action_map no_post = "發一篇本週 Google 商家動態"
action_map negative_review = "起草並回覆未處理負評"
action_map stale_knowledge = "更新目前的店家知識與主打資訊"
action_map sleeping_customers = "發送一則好久不見喚回訊息"

abbrev pub draft_map : Nudge → String
draft_map no_post = "本週新消息已準備好，歡迎回來看看我們這次的新亮點。"
draft_map negative_review = "謝謝你的回饋，我們已注意到這次體驗不如預期，會立即改善。"
draft_map stale_knowledge = "最近店裡有一些新變化，我可以先幫你整理成最新版品牌資料，之後產出的內容會更準。"
draft_map sleeping_customers = "好久不見，最近店裡準備了新的內容，想邀請你有空再回來看看。"

abbrev pub category_map : Nudge → String
category_map no_post = "brand_presence"
category_map negative_review = "brand_presence"
category_map stale_knowledge = "knowledge_health"
category_map sleeping_customers = "customer_relationship"

-- What is started beside: the preparation of a content gap, a card to the recipients, or nothing.
pub data FollowUp : Type 0 where
  prepare_content_gap : String → FollowUp
  push_card : List String → FollowUp
  no_follow_up : FollowUp

abbrev pub has_recipients : List String → Bool
has_recipients [] = false
has_recipients (r ∷ rs) = true

-- The profiles that the suggestion is about, at most twenty.
unfoldable pub affected_profiles : Nudge → String → CustomerDb → List String
unfolding get_tenant list_sleeping_customer_profiles
affected_profiles sleeping_customers tenant db =
    map (λ p. p.id)
      (list_sleeping_customer_profiles tenant (sleep_threshold_of (get_tenant tenant db.tenants)) 20
        db)
affected_profiles no_post tenant db = []
affected_profiles negative_review tenant db = []
affected_profiles stale_knowledge tenant db = []

abbrev pub is_no_post : Nudge → Bool
is_no_post no_post = true
is_no_post negative_review = false
is_no_post stale_knowledge = false
is_no_post sleeping_customers = false

abbrev pub with_table : Shop → List Suggestion → Shop
with_table shop table = record shop { customers = record shop.customers { suggestions = table } }

unfoldable pub follow_up : Settings → Bool → Nudge → String → String → Shop → FollowUp
unfolding resolve_tenant_line_recipients
follow_up settings has_dispatcher nudge suggestion tenant shop =
    let recipients =
      if settings.access_token == ""
      then []
      else resolve_tenant_line_recipients settings tenant shop.memberships in
    if is_no_post nudge && has_recipients recipients && has_dispatcher
    then prepare_content_gap suggestion
    else if has_recipients recipients
    then push_card recipients
    else no_follow_up

module _ {J : Type 0} (formats : Formats J) (settings : Settings) (has_dispatcher : Bool) where
  -- The suggestion that is made of a nudge, which expires after a day.
  unfoldable pub make_suggestion :
      ℕ → String → String → Nudge → CustomerDb → Suggestion × List Suggestion
  unfolding create_suggestion affected_profiles
  make_suggestion now new_id tenant nudge db =
      let ids = affected_profiles nudge tenant db in
      create_suggestion now new_id tenant (nudge_type nudge) (category_map nudge) (title_map nudge)
        (reason_map nudge) (body_map nudge) ids (length ids) (action_map nudge) (draft_map nudge) ""
        (formats.dumps (formats.object (("detected_at", formats.format_instant now) ∷ [])))
        (some (now + days 1)) db.suggestions

  unfoldable pub suggest :
      ℕ → String → String → Nudge → Shop → (Option Suggestion × FollowUp) × Shop
  unfolding make_suggestion follow_up
  suggest now new_id tenant nudge shop =
      let (s, table) = make_suggestion now new_id tenant nudge shop.customers in
      ((some s, follow_up settings has_dispatcher nudge s.id tenant shop), with_table shop table)

  unfoldable pub run_once_for_tenant :
      (now : ℕ) (new_id tenant_id : String) → Shop → Result (Option Suggestion × FollowUp) × Shop
  unfolding detect_nudge suggest expire_due_suggestions get_latest_active_suggestion
  run_once_for_tenant now new_id tenant shop =
      let (_, kept) = expire_due_suggestions now (some tenant) shop.customers.suggestions in
      let shop' = with_table shop kept in
      elim (detect_nudge formats now tenant shop') [
        | raise e ↦ (raise e, shop')
        | ok none ↦ (ok (none, no_follow_up), shop')
        | ok (some nudge) ↦ elim (get_latest_active_suggestion now tenant (nudge_type nudge) kept) [
          | some s ↦ (ok (some s, no_follow_up), shop')
          | none ↦ let (made, after) = suggest now new_id tenant nudge shop' in (ok made, after)
        ]
      ]
