-- ===== src/Routing.antt =====
-- What an owner's message asks for: to do something, to be advised, or to be asked back
-- (`classify_boss_message` of src/kachu_plus/intent_router.py). The rendered replies are left out;
-- `is_word` stands for the class `\w` of Python's regular expressions.
pub mod Keywords
pub mod Labels
pub mod Urls
pub mod Dialogue
pub mod Modes
mod Examples
use Prim.Native.Char.{Char, code}
use kachu_v.Prelude.{
  Bool, List, String, [], contains, contains_any, elem, eqb, if◌then◌else◌, is_prefix, is_space,
  lower, map, not, strip, ◌&&◌, ◌==◌, ◌||◌, ◌∷◌,
}
use kachu_v.Routing.Keywords.{
  capability_signals, consult_kw, content_signals, content_tokens, draft_status_signals, execute_kw,
  greetings, tag_action_kw, website_kw,
}
use kachu_v.Routing.Labels.{
  analytics_kw, closing_kw, content_plan_kw, google_post_kw, knowledge_kw, meta_connect_kw,
  meta_disconnect_kw, meta_insights_kw, meta_reauth_kw, meta_status_kw, plan_subject_kw,
  review_reply_kw, sleep_query_kw, sleep_sign_kw, tag_kw,
}
use kachu_v.Routing.Urls.{contains_url}

-- `BossRouteMode` and `BossRouteDecision`, without the texts of replies and questions.
pub data BossRouteMode : Type 0 where
  execute_mode consult_mode clarify_mode : BossRouteMode

pub record BossRouteDecision : Type 0 where
  pub mode : BossRouteMode
  pub intent_label : String

abbrev pub decide : BossRouteMode → String → BossRouteDecision
decide mode label = record { mode = mode; intent_label = label }

-- `_contains_any` of the router: both sides in lower case.
unfoldable pub contains_keyword : String → List String → Bool
unfolding lower contains_any
contains_keyword text_ keywords = contains_any (lower text_) (map lower keywords)

-- `re.sub(r"\s+", "", text)`
unfoldable pub remove_space : String → String
unfolding is_space
remove_space String.[] = ""
remove_space (String.◌∷◌ c s) =
    let rest = remove_space s in if is_space c then rest else String.◌∷◌ c rest

unfoldable pub looks_like_capability_question : String → Bool
unfolding remove_space lower contains_any
looks_like_capability_question text_ = contains_any (lower (remove_space text_)) capability_signals

-- `re.sub(r"[\s\W_]+", "", text)`
unfoldable pub remove_punctuation : (Char → Bool) → String → String
unfolding is_space
remove_punctuation is_word String.[] = ""
remove_punctuation is_word (String.◌∷◌ c s) =
    let rest = remove_punctuation is_word s in
    if is_space c || not (is_word c) || eqb (code c) 95 then rest else String.◌∷◌ c rest

unfoldable pub looks_like_greeting : (Char → Bool) → String → Bool
unfolding remove_punctuation lower
looks_like_greeting is_word text_ = elem (lower (remove_punctuation is_word text_)) greetings

unfoldable pub looks_like_content_consult_question : String → Bool
unfolding strip contains_any
looks_like_content_consult_question text_ =
    let normalized = strip text_ in
    not (normalized == "")
    && contains_any normalized content_tokens
    && contains_any normalized content_signals

unfoldable pub looks_like_draft_status : String → Bool
unfolding contains_any
looks_like_draft_status text_ =
    contains_any text_ ("草稿" ∷ "貼文" ∷ "回覆" ∷ []) && contains_any text_ draft_status_signals

unfoldable pub looks_like_website_ingest : String → Bool
unfolding contains_url strip is_prefix contains_any contains lower
looks_like_website_ingest text_ =
    contains_url text_
    && (is_prefix "http://" (strip text_)
        || is_prefix "https://" (strip text_)
        || contains_any text_ website_kw
        || contains "website" (lower text_))

unfoldable pub asks_for_customers : String → Bool
unfolding contains contains_any
asks_for_customers text_ = contains "客人" text_ && contains_any text_ sleep_sign_kw

unfoldable pub is_about_reviews : String → Bool
unfolding contains_any
is_about_reviews text_ = contains_any text_ ("評論" ∷ "評價" ∷ "留言" ∷ [])

unfoldable pub looks_like_execute : String → Bool
unfolding looks_like_draft_status looks_like_website_ingest is_about_reviews contains_any contains
    asks_for_customers
looks_like_execute text_ =
    looks_like_draft_status text_
    || looks_like_website_ingest text_
    || is_about_reviews text_ && contains_any text_ ("回" ∷ "回覆" ∷ "處理" ∷ "看" ∷ "查看" ∷ "檢查" ∷ [])
    || contains "標籤" text_ && contains_any text_ tag_action_kw
    || asks_for_customers text_

-- `_derive_intent_label`
unfoldable pub derive_intent_label : String → String
unfolding looks_like_draft_status looks_like_website_ingest contains_keyword contains contains_any
    asks_for_customers is_about_reviews
derive_intent_label text_ =
    if looks_like_draft_status text_
    then "draft_status"
    else if looks_like_website_ingest text_
    then "website_ingest"
    else if contains_keyword text_ content_plan_kw
    then "content_plan"
    else if contains "規劃" text_ && contains_any text_ plan_subject_kw
    then "content_plan"
    else if contains_keyword text_ meta_reauth_kw
    then "meta_reauth"
    else if contains_keyword text_ meta_disconnect_kw
    then "meta_disconnect"
    else if contains_keyword text_ meta_status_kw
    then "meta_status"
    else if contains_keyword text_ meta_connect_kw
    then "meta_connect"
    else if contains_any text_ sleep_query_kw
    then "sleep_customer_query"
    else if asks_for_customers text_
    then "sleep_customer_query"
    else if contains_keyword text_ meta_insights_kw
    then "meta_insights"
    else if contains_keyword text_ review_reply_kw
    then "review_reply"
    else if is_about_reviews text_
    then "review_reply"
    else if contains_keyword text_ google_post_kw
    then "google_post"
    else if contains_keyword text_ analytics_kw
    then "analytics_report"
    else if contains_keyword text_ closing_kw
    then "business_profile_update"
    else if contains_keyword text_ knowledge_kw
    then "knowledge_update"
    else if contains_keyword text_ tag_kw
    then "tag_management"
    else if contains "標籤" text_
    then "tag_management"
    else "general_execute"

unfoldable pub classify_boss_message : (Char → Bool) → String → BossRouteDecision
unfolding looks_like_capability_question looks_like_greeting looks_like_content_consult_question
    contains_keyword looks_like_execute derive_intent_label
classify_boss_message is_word text_ =
    if looks_like_capability_question text_
    then decide consult_mode "capability_overview"
    else if looks_like_greeting is_word text_
    then decide consult_mode "greeting"
    else if looks_like_content_consult_question text_
    then decide consult_mode "content_consult"
    else (let has_consult = contains_keyword text_ consult_kw in
        let has_execute = contains_keyword text_ execute_kw || looks_like_execute text_ in
        if has_execute && not has_consult
        then decide execute_mode (derive_intent_label text_)
        else if has_consult
        then decide consult_mode ""
        else decide clarify_mode "")
