-- ===== src/Suggestions/Rows.antt =====
-- The suggestions' table (`SuggestionTable` in src/kachu_plus/persistence/tables.py). The column
-- of profile identifiers is a JSON array of texts, or a text that `json.loads` refuses (none).
-- The column of the result is a JSON object, as the list of its fields.
use kachu_v.Prelude.{Bool, List, Option, String, ℕ}
use kachu_v.Table.{Row}

-- What `_execute_suggestion` and `_persist_agentos_execution` return.
pub data Execution : Type 0 where
  agentos : String → String → Option String → String → Bool → Execution
  line_push_campaign : List String → ℕ → ℕ → String → Execution
  prepared_campaign : List String → ℕ → String → Execution

-- A value of the result: a text, an instant in ISO format, an execution, reported
-- metrics, or a count.
pub data Value : Type 0 where
  text : String → Value
  instant : ℕ → Value
  execution : Execution → Value
  metrics : List (String × String) → Value
  number : ℕ → Value

abbrev pub Snapshot : Type 0
Snapshot = List (String × Value)

pub record Suggestion : Type 0 where
  pub id : String
  pub tenant_id : String
  pub suggestion_type : String
  pub category : String
  pub title : String
  pub reason : String
  pub body : String
  pub affected_profile_ids : Option (List String)
  pub profile_count : ℕ
  pub suggested_action : String
  pub draft_message : String
  pub status : String
  pub related_run_id : String
  pub payload_json : String
  pub expires_at : Option ℕ
  pub sent_at : Option ℕ
  pub result_snapshot : Snapshot
  pub created_at : ℕ
  pub updated_at : ℕ

instance abbrev pub suggestion_row : Row Suggestion
suggestion_row = record { id_of = λ s. s.id }
