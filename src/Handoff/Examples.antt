-- ===== src/Handoff/Examples.antt =====
-- The theorems on handoff locks at a concrete conversation.
use kachu_v.Prelude.{List, [], false, none, ok, refl, some, strip, true, ◌==◌, ◌∷◌, ◌≡◌}
use kachu_v.Handoff.{
  HandoffLock, get_active_conversation_handoff_lock, lock_row, release_conversation_handoff_lock,
  upsert_conversation_handoff_lock,
}
use kachu_v.Handoff.Locking.{IsUnique}
use kachu_v.Handoff.Cycle.{
  get_active-release_conversation_handoff_lock, get_active-upsert_conversation_handoff_lock,
}

abbrev old_lock : HandoffLock
old_lock = record {
  id = "l1";
  tenant_id = "t1";
  channel_type = "line";
  external_user_id = "u1";
  reason = "";
  is_active = true;
  locked_by_line_user_id = "o1";
  released_by_line_user_id = "";
  locked_at = 1;
  released_at = none;
  updated_at = 1;
}

abbrev one_lock : List HandoffLock
one_lock = old_lock ∷ []

one_lock-IsUnique : IsUnique one_lock
one_lock-IsUnique = ((refl, tt), (tt, tt))

u1_named : (strip "u1" == "") ≡ false
unfolding strip
u1_named = refl

get_active-upsert_example :
    let (r, table) =
      upsert_conversation_handoff_lock 5 "l2" "t1" "line" "u1" "o2" "busy" one_lock in
    (l : HandoffLock) × (r ≡ ok l)
    × (get_active_conversation_handoff_lock "t1" "line" "u1" table ≡ some l)
    × (l.locked_by_line_user_id ≡ strip "o2")
    × IsUnique table
get_active-upsert_example =
    get_active-upsert_conversation_handoff_lock "t1" "line" "u1" one_lock one_lock-IsUnique 5 "l2"
      "o2" "busy" u1_named

get_active-release_example :
    let (r, table) = release_conversation_handoff_lock 5 "t1" "line" "u1" "o2" one_lock in
    (get_active_conversation_handoff_lock "t1" "line" "u1" table ≡ none)
    × (r ≡ none → table ≡ one_lock)
    × IsUnique table
get_active-release_example =
    get_active-release_conversation_handoff_lock "t1" "line" "u1" one_lock one_lock-IsUnique 5 "o2"
