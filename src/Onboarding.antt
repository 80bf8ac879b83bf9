-- ===== src/Onboarding.antt =====
-- The onboarding of a tenant (src/kachu_plus/onboarding/flow.py) and the tables that it writes: its
-- step, and the knowledge entries (src/kachu_plus/persistence/repository.py, lines 2277 to 2351 and
-- 2536 to 2546). A confidence is counted in ten-thousandths.
pub mod Answers
pub mod Flow
pub mod Steps
pub mod Handlers
pub mod Progress
pub mod Entries
mod Examples
use kachu_v.Prelude.{
  Bool, List, Option, String, [], false, filter, first, none, order_by_desc, some, take, ℕ, ◌&&◌,
  ◌++◌, ◌==◌, ◌∷◌,
}
use kachu_v.Table.{Row, delete_where, put_row}
use kachu_v.Tenants.{Tenant, tenant_row}

pub record OnboardingState : Type 0 where
  pub id : String
  pub tenant_id : String
  pub step : String
  pub created_at : ℕ
  pub updated_at : ℕ

pub record KnowledgeEntry : Type 0 where
  pub id : String
  pub tenant_id : String
  pub category : String
  pub content : String
  pub source_type : String
  pub source_conversation_id : String
  pub status : String
  pub confidence_score : ℕ
  pub supersedes_entry_id : String
  pub created_at : ℕ

instance abbrev pub state_row : Row OnboardingState
state_row = record { id_of = λ s. s.id }

instance abbrev pub entry_row : Row KnowledgeEntry
entry_row = record { id_of = λ e. e.id }

pub record OnboardingDb : Type 0 where
  pub tenants : List Tenant
  pub states : List OnboardingState
  pub entries : List KnowledgeEntry

abbrev pub is_state : String → OnboardingState → Bool
is_state tenant s = s.tenant_id == tenant

unfoldable pub get_onboarding_state : String → OnboardingDb → Option OnboardingState
get_onboarding_state tenant db = first (is_state tenant) db.states

abbrev pub new_state : ℕ → String → String → String → OnboardingState
new_state now id tenant step = record {
  id = id;
  tenant_id = tenant;
  step = step;
  created_at = now;
  updated_at = now;
}

unfoldable pub get_or_create_onboarding_state :
    (now : ℕ) (new_id tenant_id : String) → OnboardingDb → OnboardingState × OnboardingDb
unfolding get_onboarding_state
get_or_create_onboarding_state now new_id tenant db = elim (get_onboarding_state tenant db) [
  | some s ↦ (s, db)
  | none ↦ (
    new_state now new_id tenant "new",
    record db { states = put_row (new_state now new_id tenant "new") db.states },
  )
]

unfoldable pub update_onboarding_step :
    (now : ℕ) (new_id tenant_id step : String) → OnboardingDb → OnboardingDb
update_onboarding_step now new_id tenant step db = elim (first (is_state tenant) db.states) [
  | none ↦ record db { states = put_row (new_state now new_id tenant step) db.states }
  | some s ↦ record db { states = put_row (record s { step = step; updated_at = now }) db.states }
]

unfoldable pub is_onboarding_complete : String → OnboardingDb → Bool
unfolding get_onboarding_state
is_onboarding_complete tenant db = elim (get_onboarding_state tenant db) [
  | none ↦ false
  | some s ↦ s.step == "completed"
]

-- With the defaults of the arguments that the onboarding leaves out.
unfoldable pub save_knowledge_entry :
    (now : ℕ) (new_id tenant_id category content source_conversation_id : String)
    → OnboardingDb
    → OnboardingDb
save_knowledge_entry now new_id tenant category content conversation db =
    let entry : KnowledgeEntry = record {
      id = new_id;
      tenant_id = tenant;
      category = category;
      content = content;
      source_type = "conversation";
      source_conversation_id = conversation;
      status = "active";
      confidence_score = 10000;
      supersedes_entry_id = "";
      created_at = now;
    } in
    record db { entries = db.entries ++ entry ∷ [] }

unfoldable pub list_knowledge_entries : String → ℕ → OnboardingDb → List KnowledgeEntry
list_knowledge_entries tenant limit db =
    take limit (order_by_desc (λ e. e.created_at) (filter (λ e. e.tenant_id == tenant) db.entries))

abbrev pub is_entry : String → String → KnowledgeEntry → Bool
is_entry tenant category e = e.tenant_id == tenant && e.category == category

unfoldable pub delete_knowledge_entries_by_category : String → String → OnboardingDb → OnboardingDb
delete_knowledge_entries_by_category tenant category db = record db {
  entries = delete_where (is_entry tenant category) db.entries;
}
