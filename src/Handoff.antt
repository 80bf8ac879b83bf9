-- ===== src/Handoff.antt =====
-- The locks by which a conversation is handed over to a person: `upsert_`, `get_active_` and
-- `release_conversation_handoff_lock` of src/kachu_plus/persistence/repository.py (lines 645 to
-- 739), and the three routes of src/kachu_plus/customer_tags.py that call them.
pub mod Locking
pub mod Cycle
mod Examples
use kachu_v.Prelude.{
  Bool, List, Option, Result, String, false, filter, first, if◌then◌else◌, none, ok, or_text,
  order_by_desc, raise, some, strip, true, value_error, ℕ, ◌&&◌, ◌==◌,
}
use kachu_v.Table.{Row, put_row}

pub record HandoffLock : Type 0 where
  pub id : String
  pub tenant_id : String
  pub channel_type : String
  pub external_user_id : String
  pub reason : String
  pub is_active : Bool
  pub locked_by_line_user_id : String
  pub released_by_line_user_id : String
  pub locked_at : ℕ
  pub released_at : Option ℕ
  pub updated_at : ℕ

instance abbrev pub lock_row : Row HandoffLock
lock_row = record { id_of = λ l. l.id }

-- `str(channel_type or "line").strip() or "line"`
unfoldable pub normal_channel : String → String
normal_channel channel = or_text (strip (or_text channel "line")) "line"

abbrev pub is_lock : String → String → String → HandoffLock → Bool
is_lock tenant channel user l =
    l.tenant_id == tenant && l.channel_type == channel && l.external_user_id == user

abbrev pub is_active_lock : String → String → String → HandoffLock → Bool
is_active_lock tenant channel user l = is_lock tenant channel user l && l.is_active

abbrev pub by_locked_at : HandoffLock → ℕ
by_locked_at l = l.locked_at

-- The row that `upsert_conversation_handoff_lock` writes, in place of the newest one it found.
unfoldable pub locked :
    ℕ → String → String → String → String → String → String → Option HandoffLock → HandoffLock
locked now new_id tenant channel user actor reason found = record {
  id = elim found [ none ↦ new_id | some l ↦ l.id ];
  tenant_id = tenant;
  channel_type = channel;
  external_user_id = user;
  reason = or_text (strip (or_text reason "human_handoff")) "human_handoff";
  is_active = true;
  locked_by_line_user_id = strip actor;
  released_by_line_user_id = "";
  locked_at = now;
  released_at = none;
  updated_at = now;
}

unfoldable pub upsert_conversation_handoff_lock :
    (now : ℕ) (new_id tenant_id channel_type external_user_id actor reason : String)
    → List HandoffLock
    → Result HandoffLock × List HandoffLock
unfolding normal_channel locked
upsert_conversation_handoff_lock now new_id tenant channel_type external_user_id actor reason
      table =
    let user = strip external_user_id in
    let channel = normal_channel channel_type in
    if user == ""
    then (raise (value_error "external_user_id is required"), table)
    else let found =
        first (λ _. true)
          (order_by_desc by_locked_at (filter (is_lock tenant channel user) table)) in
      let lock = locked now new_id tenant channel user actor reason found in
      (ok lock, put_row lock table)

unfoldable pub get_active_conversation_handoff_lock :
    (tenant_id channel_type external_user_id : String) → List HandoffLock → Option HandoffLock
unfolding normal_channel
get_active_conversation_handoff_lock tenant channel_type external_user_id table =
    let user = strip external_user_id in
    if user == ""
    then none
    else first (λ _. true)
        (order_by_desc by_locked_at
          (filter (is_active_lock tenant (normal_channel channel_type) user) table))

unfoldable pub released :
    ℕ → String → Option HandoffLock → List HandoffLock → Option HandoffLock × List HandoffLock
released now actor none table = (none, table)
released now actor (some l) table =
    let l' = record l {
      is_active = false;
      released_by_line_user_id = strip actor;
      released_at = some now;
      updated_at = now;
    } in
    (some l', put_row l' table)

unfoldable pub release_conversation_handoff_lock :
    (now : ℕ) (tenant_id channel_type external_user_id actor : String)
    → List HandoffLock
    → Option HandoffLock × List HandoffLock
unfolding normal_channel released
release_conversation_handoff_lock now tenant channel_type external_user_id actor table =
    released now actor
      (first (λ _. true)
        (order_by_desc by_locked_at (
          filter (is_active_lock tenant (normal_channel channel_type) (strip external_user_id))
            table)))
      table
