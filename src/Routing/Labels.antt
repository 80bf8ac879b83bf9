-- ===== src/Routing/Labels.antt =====
-- The keywords by which `_derive_intent_label` of src/kachu_plus/intent_router.py names a task, and
-- the signals of src/kachu_plus/dialogue_state.py.
use kachu_v.Prelude.{List, String, [], ◌∷◌}

abbrev pub content_plan_kw : List String
content_plan_kw = "內容企劃" ∷ "貼文企劃" ∷ "發文企劃" ∷ "先給企劃" ∷ []

abbrev pub plan_subject_kw : List String
plan_subject_kw = "貼文" ∷ "發文" ∷ "商家動態" ∷ "內容" ∷ "文案" ∷ []

abbrev pub meta_reauth_kw : List String
meta_reauth_kw = "重新授權FB" ∷ "重新授權 FB" ∷ "重新授權IG" ∷ "重新授權 IG" ∷ "重新授權Meta" ∷ "重新授權 Meta" ∷ []

abbrev pub meta_disconnect_kw : List String
meta_disconnect_kw = "解除Meta" ∷ "解除 Meta" ∷ "解除FB" ∷ "解除 FB" ∷ "解除綁定Meta" ∷ "解除綁定 Meta" ∷ []

abbrev pub meta_status_kw : List String
meta_status_kw = "目前連的是" ∷ "現在連的是" ∷ "哪個粉專" ∷ "Meta 狀態" ∷ "Meta狀態" ∷ "查看Meta" ∷ "查看 Meta" ∷ []

abbrev pub meta_connect_kw : List String
meta_connect_kw =
    "連接FB" ∷ "連接 FB" ∷ "連接IG" ∷ "連接 IG" ∷ "連接Meta" ∷ "連接 Meta" ∷ "連接Facebook" ∷ "連接 Facebook"
    ∷ "綁定FB" ∷ "綁定 FB" ∷ "綁定IG" ∷ "綁定 IG" ∷ "綁定Meta" ∷ "綁定 Meta" ∷ "串接FB" ∷ "串接 FB" ∷ "串接IG"
    ∷ "串接 IG" ∷ "串接Meta" ∷ "串接 Meta" ∷ "串接Facebook" ∷ "串接 Facebook" ∷ []

abbrev pub sleep_query_kw : List String
sleep_query_kw = "哪些客人" ∷ "沉睡顧客" ∷ "沉睡客人" ∷ "查沉睡" ∷ "流失顧客" ∷ "流失客人" ∷ "客人列表" ∷ []

abbrev pub sleep_sign_kw : List String
sleep_sign_kw = "沒來" ∷ "多久" ∷ "超過" ∷ "流失" ∷ "沉睡" ∷ []

abbrev pub meta_insights_kw : List String
meta_insights_kw =
    "FB成效" ∷ "FB 成效" ∷ "臉書成效" ∷ "臉書 成效" ∷ "Facebook成效" ∷ "Facebook 成效" ∷ "IG成效" ∷ "IG 成效"
    ∷ "Instagram成效" ∷ "Instagram 成效" ∷ "社群成效" ∷ "社群 成效" ∷ "Meta成效" ∷ "Meta 成效" ∷ []

abbrev pub review_reply_kw : List String
review_reply_kw = "回覆評論" ∷ "回那個" ∷ "回那則" ∷ "處理評論" ∷ "回負評" ∷ "回差評" ∷ "回好評" ∷ "回評論" ∷ []

abbrev pub google_post_kw : List String
google_post_kw = "發文" ∷ "寫一篇" ∷ "幫我寫" ∷ "幫我發" ∷ "商家動態" ∷ "活動公告" ∷ "寫文案" ∷ []

abbrev pub analytics_kw : List String
analytics_kw = "月報" ∷ "週報" ∷ "查流量" ∷ "看流量" ∷ "拉報告" ∷ "流量報告" ∷ "ga4" ∷ []

abbrev pub closing_kw : List String
closing_kw = "公休" ∷ "店休" ∷ "今天休" ∷ "今日休" ∷ "不營業" ∷ "打烊" ∷ "暫停營業" ∷ []

abbrev pub knowledge_kw : List String
knowledge_kw = "幫我更新" ∷ "更新營業" ∷ "更新地址" ∷ "更新電話" ∷ "更新菜單" ∷ "更新Google" ∷ "更新店家" ∷ []

abbrev pub tag_kw : List String
tag_kw =
    "建立標籤" ∷ "新增標籤" ∷ "新建標籤" ∷ "刪除標籤" ∷ "移除標籤" ∷ "停用標籤" ∷ "查看標籤" ∷ "我的標籤" ∷ "標籤列表" ∷ "顯示標籤"
    ∷ "有什麼標籤" ∷ []

-- `_STATUS_SIGNALS`
abbrev pub status_signals : List String
status_signals = "草稿" ∷ "進度" ∷ "好了嗎" ∷ "好了沒" ∷ "完成了嗎" ∷ "完成沒" ∷ "狀態" ∷ "在哪" ∷ "怎麼還沒" ∷ []

-- `_REFERENCE_SIGNALS`
abbrev pub reference_signals : List String
reference_signals = "那個" ∷ "那篇" ∷ "上一個" ∷ "剛剛" ∷ "前面" ∷ "上次" ∷ "這個" ∷ "它" ∷ []

-- `_REVISION_SIGNALS`
abbrev pub revision_signals : List String
revision_signals =
    "改" ∷ "修改" ∷ "重寫" ∷ "重來" ∷ "補上" ∷ "加上" ∷ "改成" ∷ "換成" ∷ "短一點" ∷ "長一點" ∷ "不要" ∷ "太" ∷ []

-- `_CONSULT_CARRY_SIGNALS`
abbrev pub consult_carry_signals : List String
consult_carry_signals = "那你覺得" ∷ "那現在" ∷ "那我要" ∷ "那應該" ∷ "接下來呢" ∷ "所以呢" ∷ []
