-- ===== src/Routing/Keywords.antt =====
-- The keywords of src/kachu_plus/intent_router.py and src/kachu_plus/dialogue_state.py.
use kachu_v.Prelude.{List, String, [], ◌∷◌}

-- `_EXECUTE_KW`
abbrev pub execute_kw : List String
execute_kw =
    "幫我寫" ∷ "幫我發" ∷ "寫一篇" ∷ "發一篇" ∷ "發一個" ∷ "寫個" ∷ "發文" ∷ "發布" ∷ "商家動態" ∷ "活動公告" ∷ "限時優惠" ∷ "寫文案"
    ∷ "宣傳貼文" ∷ "宣傳文案" ∷ "po文" ∷ "幫我規劃" ∷ "內容企劃" ∷ "貼文企劃" ∷ "發文企劃" ∷ "先給企劃" ∷ "幫我回覆" ∷ "幫我處理"
    ∷ "回覆評論" ∷ "回那個" ∷ "回那則" ∷ "處理評論" ∷ "回那條" ∷ "回評論" ∷ "回負評" ∷ "回差評" ∷ "回好評" ∷ "幫我查" ∷ "幫我拉"
    ∷ "查流量" ∷ "看流量" ∷ "拉報告" ∷ "月報" ∷ "週報" ∷ "流量報告" ∷ "業績報告" ∷ "ga4" ∷ "FB成效" ∷ "FB 成效" ∷ "臉書成效"
    ∷ "臉書 成效" ∷ "Facebook成效" ∷ "Facebook 成效" ∷ "IG成效" ∷ "IG 成效" ∷ "Instagram成效" ∷ "Instagram 成效"
    ∷ "社群成效" ∷ "社群 成效" ∷ "Meta成效" ∷ "Meta 成效" ∷ "連接FB" ∷ "連接 FB" ∷ "連接IG" ∷ "連接 IG" ∷ "連接Meta"
    ∷ "連接 Meta" ∷ "連接Facebook" ∷ "連接 Facebook" ∷ "綁定FB" ∷ "綁定 FB" ∷ "綁定IG" ∷ "綁定 IG" ∷ "綁定Meta"
    ∷ "綁定 Meta" ∷ "串接FB" ∷ "串接 FB" ∷ "串接IG" ∷ "串接 IG" ∷ "串接Meta" ∷ "串接 Meta" ∷ "串接Facebook"
    ∷ "串接 Facebook" ∷ "重新授權FB" ∷ "重新授權 FB" ∷ "重新授權IG" ∷ "重新授權 IG" ∷ "重新授權Meta" ∷ "重新授權 Meta"
    ∷ "解除Meta" ∷ "解除 Meta" ∷ "解除FB" ∷ "解除 FB" ∷ "解除綁定Meta" ∷ "解除綁定 Meta" ∷ "目前連的是" ∷ "現在連的是"
    ∷ "哪個粉專" ∷ "Meta 狀態" ∷ "Meta狀態" ∷ "查看Meta" ∷ "查看 Meta" ∷ "哪些客人" ∷ "沉睡顧客" ∷ "沉睡客人" ∷ "查沉睡"
    ∷ "多久沒來" ∷ "流失顧客" ∷ "流失客人" ∷ "客人列表" ∷ "幫我更新" ∷ "更新營業" ∷ "更新地址" ∷ "更新電話" ∷ "更新菜單" ∷ "更新Google"
    ∷ "更新店家" ∷ "公休" ∷ "店休" ∷ "今天休" ∷ "今日休" ∷ "不營業" ∷ "打烊" ∷ "暫停營業" ∷ "休息日" ∷ "建立標籤" ∷ "新增標籤"
    ∷ "新建標籤" ∷ "刪除標籤" ∷ "移除標籤" ∷ "停用標籤" ∷ "查看標籤" ∷ "我的標籤" ∷ "標籤列表" ∷ "顯示標籤" ∷ "有什麼標籤" ∷ []

-- `_CONSULT_KW`
abbrev pub consult_kw : List String
consult_kw =
    "你覺得" ∷ "你建議" ∷ "你認為" ∷ "你看" ∷ "策略" ∷ "定位" ∷ "方向" ∷ "看法" ∷ "先討論" ∷ "討論一下" ∷ "想聊聊" ∷ "想聊" ∷ "想了解"
    ∷ "為什麼" ∷ "原因是" ∷ "幫我分析" ∷ "幫我評估" ∷ "幫我想想" ∷ "怎麼提升" ∷ "怎麼讓" ∷ "怎麼辦" ∷ "怎麼做才" ∷ "怎麼看" ∷ "如何提升"
    ∷ "如何讓" ∷ "如何才" ∷ "如何面對" ∷ "要怎麼讓" ∷ "要怎麼做" ∷ "應該怎麼" ∷ "應該如何" ∷ "應該先" ∷ "值得嗎" ∷ "合理嗎" ∷ "好嗎"
    ∷ "適合嗎" ∷ "最佳實踐" ∷ "有什麼建議" ∷ []

abbrev pub capability_signals : List String
capability_signals =
    "你能幫我做什麼" ∷ "你能做什麼" ∷ "你可以幫我做什麼" ∷ "你可以做什麼" ∷ "你會做什麼" ∷ "你會什麼" ∷ "可以幫我什麼" ∷ "能幫我什麼" ∷ []

abbrev pub greetings : List String
greetings = "你好" ∷ "您好" ∷ "嗨" ∷ "哈囉" ∷ "hello" ∷ "hi" ∷ "在嗎" ∷ []

abbrev pub content_tokens : List String
content_tokens = "貼文" ∷ "發文" ∷ "內容" ∷ "企劃" ∷ "主題" ∷ "角度" ∷ "文案" ∷ "母親節" ∷ []

abbrev pub content_signals : List String
content_signals =
    "怎麼切角度" ∷ "切角度" ∷ "不知道怎麼切" ∷ "不知道怎麼做" ∷ "不知道如何做" ∷ "不知道怎麼寫" ∷ "不知道怎麼規劃" ∷ "怎麼抓方向" ∷ "怎麼切"
    ∷ "什麼角度" ∷ []

abbrev pub draft_status_signals : List String
draft_status_signals = "好了嗎" ∷ "好了沒" ∷ "完成了嗎" ∷ "完成沒" ∷ "進度" ∷ "狀態" ∷ "在哪" ∷ "怎麼還沒" ∷ "你不是要" ∷ []

abbrev pub website_kw : List String
website_kw = "官網" ∷ "網站" ∷ "首頁" ∷ "品牌資料" ∷ "品牌介紹" ∷ "給你" ∷ "參考這個" ∷ []

abbrev pub tag_action_kw : List String
tag_action_kw = "建" ∷ "建立" ∷ "新增" ∷ "新建" ∷ "刪" ∷ "移除" ∷ "停用" ∷ "看" ∷ "查看" ∷ "列出" ∷ []
