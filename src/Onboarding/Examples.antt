-- ===== src/Onboarding/Examples.antt =====
-- The theorems on the onboarding at concrete messages.
use kachu_v.Prelude.{
  All, List, Option, String, [], contains, contains_any, first, inr, lower, none, refl, some, strip,
  subst, ℕ, ◌∷◌, ◌≡◌,
}
use kachu_v.Onboarding.{OnboardingDb, OnboardingState, entry_row, is_state, state_row}
use kachu_v.Onboarding.Answers.{Days, parse_sleep_threshold, parse_sleep_threshold-Days}
use kachu_v.Onboarding.Flow.{Call, Website, handle_message}
use kachu_v.Onboarding.Steps.{IsHarmless}
use kachu_v.Onboarding.Progress.{IsReady, IsSafe, Message, receive_all, receive_all-IsReady}

-- A call without an ingestion of websites, and one with an ingestion that writes nothing.
abbrev call_at : ℕ → Option Website → Call
call_at now website = record {
  now = now;
  state_id = "s1";
  entry_id = "k1";
  info_id = "k2";
  website = website;
}

abbrev idle_website : Website
idle_website = record {
  contains_url = λ t. contains "http" t;
  ingest = λ tenant content conversation db. (none, db);
}

idle_website-IsHarmless : IsHarmless idle_website
idle_website-IsHarmless tenant content conversation db = (refl, (refl, (refl, (refl, tt))))

abbrev message : Option Website → String → Message
message website content = record {
  call = call_at 1 website;
  msg_type = "text";
  content = content;
  conversation = "c1";
}

-- From the welcome to the third question, and back to the second.
abbrev conversation : List Message
conversation =
    message none "hi"
    ∷ message none "Shop"
    ∷ message none "cafe"
    ∷ message none "30"
    ∷ message none "Taipei"
    ∷ message (some idle_website) "http://shop"
    ∷ message none "skip"
    ∷ message none "taste"
    ∷ message none "staff"
    ∷ message none "上一題"
    ∷ []

no_website-IsSafe : (content : String) → IsSafe (message none content)
no_website-IsSafe content w e = absurd (cc)

idle-IsSafe : (content : String) → IsSafe (message (some idle_website) content)
idle-IsSafe content w e =
    let same : idle_website ≡ w = cc e in subst IsHarmless same idle_website-IsHarmless

conversation-IsSafe : All IsSafe conversation
conversation-IsSafe = (
  no_website-IsSafe "hi",
  (
    no_website-IsSafe "Shop",
    (
      no_website-IsSafe "cafe",
      (
        no_website-IsSafe "30",
        (
          no_website-IsSafe "Taipei",
          (
            idle-IsSafe "http://shop",
            (
              no_website-IsSafe "skip",
              (
                no_website-IsSafe "taste",
                (no_website-IsSafe "staff", (no_website-IsSafe "上一題", tt)),
              ),
            ),
          ),
        ),
      ),
    ),
  ),
)

abbrev empty_db : OnboardingDb
empty_db = record { tenants = []; states = []; entries = [] }

receive_all-IsReady_example : IsReady "t1" (receive_all "t1" conversation empty_db)
receive_all-IsReady_example =
    receive_all-IsReady "t1" conversation empty_db conversation-IsSafe
      (inr (tt, refl, (refl, (refl, (refl, tt)))))

abbrev asking : OnboardingState
asking = record {
  id = "s1";
  tenant_id = "t1";
  step = "asking_name";
  created_at = 1;
  updated_at = 1;
}

parse_sleep_threshold-Days_example : Days (parse_sleep_threshold "約 45 天")
parse_sleep_threshold-Days_example = parse_sleep_threshold-Days "約 45 天"

parse_sleep_threshold_test : parse_sleep_threshold "約 45 天" ≡ 45
unfolding parse_sleep_threshold contains strip
parse_sleep_threshold_test = refl

step_test :
    (first (is_state "t1") (receive_all "t1" conversation empty_db).states)
    ≡ some (record asking { step = "interview_q2" })
unfolding receive_all handle_message contains strip lower contains_any
step_test = refl
