-- ===== src/Handoff/Cycle.antt =====
-- Locking and releasing a conversation: what the routes for a handover rest on.
use kachu_v.Table.Laws.{first_sound}
use kachu_v.Prelude.{
  Bool-cases, List, Option-cases, String, arith, false, first, inl, inr, none, ok, refl, some,
  strip, ℕ, ◌==◌, ◌≡◌,
}
use kachu_v.Table.{put_row}
use kachu_v.Handoff.{
  HandoffLock, get_active_conversation_handoff_lock, is_lock, lock_row, locked, normal_channel,
  release_conversation_handoff_lock, upsert_conversation_handoff_lock,
}
use kachu_v.Handoff.Locking.{
  IsUnique, active-of_none, active-of_row, is_lock_sound, newest-eq-first, write_found, write_new,
}

module _ (tenant channel_type external_user_id : String) (table : List HandoffLock)
    (unique : IsUnique table) where
  abbrev user : String
  user = strip external_user_id

  abbrev channel : String
  channel = normal_channel channel_type

  -- Locking an identity that is not blank gives one row, which is active, and keeps rows unique.
  module _ (now : ℕ) (new_id actor reason : String) (named : (user == "") ≡ false) where
    abbrev row : HandoffLock
    row =
        locked now new_id tenant channel user actor reason
          (first (is_lock tenant channel user) table)

    upsert-eq :
        upsert_conversation_handoff_lock now new_id tenant channel_type external_user_id actor
          reason table
        ≡ (ok row, put_row row table)
    unfolding upsert_conversation_handoff_lock
    upsert-eq = rw (named, newest-eq-first tenant channel user table unique.1)

    row_written :
        IsUnique (put_row row table)
        × (first (is_lock tenant channel user) (put_row row table) ≡ some row)
    unfolding locked
    row_written = elim (Option-cases (first (is_lock tenant channel user) table)) [
      | inl missing ↦ write_new tenant channel user row (refl, refl, refl) table unique missing
      | inr (l, found) ↦
          write_found tenant channel user row (refl, refl, refl) table unique l found (rw found)
    ]

    -- After a lock, the conversation has an active lock, which is the one that the call returned
    -- and names its actor; rows stay unique.
    pub get_active-upsert_conversation_handoff_lock :
        let (r, table') =
          upsert_conversation_handoff_lock now new_id tenant channel_type external_user_id actor
            reason table in
        (l : HandoffLock) × (r ≡ ok l)
        × (get_active_conversation_handoff_lock tenant channel_type external_user_id table'
            ≡ some l)
        × (l.locked_by_line_user_id ≡ strip actor)
        × IsUnique table'
    unfolding get_active_conversation_handoff_lock locked
    get_active-upsert_conversation_handoff_lock = rw upsert-eq (
      row,
      refl,
      rw (
        named,
        active-of_row tenant channel user row (put_row row table) row_written.0.1 row_written.1,
      ),
      refl,
      row_written.0,
    )

  -- After a release the conversation has no active lock, whether it had one before or not; a
  -- release that finds none returns none and writes nothing, and rows stay unique.
  pub get_active-release_conversation_handoff_lock :
      (now : ℕ) (actor : String)
      → let (r, table') =
          release_conversation_handoff_lock now tenant channel_type external_user_id actor table in
        (get_active_conversation_handoff_lock tenant channel_type external_user_id table' ≡ none)
        × (r ≡ none → table' ≡ table)
        × IsUnique table'
  unfolding get_active_conversation_handoff_lock release_conversation_handoff_lock
  get_active-release_conversation_handoff_lock now actor =
      elim (Option-cases (first (is_lock tenant channel user) table)) [
        | inl missing ↦ rw (active-of_none tenant channel user table missing) (
            rw (active-of_none tenant channel user table missing) (ground arith, λ _. refl, unique))
        | inr (l, found) ↦ elim (Bool-cases l.is_active) [
          | inr idle ↦
              rw (active-of_row tenant channel user l table unique.1 found, idle)
                (rw (active-of_row tenant channel user l table unique.1 found, idle)
                  (ground arith, λ _. refl, unique))
          | inl active ↦
              let r : HandoffLock = record l {
                is_active = false;
                released_by_line_user_id = strip actor;
                released_at = some now;
                updated_at = now;
              } in
              let same =
                is_lock_sound tenant channel user l
                  (first_sound (is_lock tenant channel user) l table found) in
              let (unique', found') =
                write_found tenant channel user r same table unique l found refl in
              rw (active-of_row tenant channel user l table unique.1 found, active)
                (
                  rw (active-of_row tenant channel user r (put_row r table) unique'.1 found')
                      (ground arith),
                  λ e. absurd (cc),
                  unique',
                )
        ]
      ]
