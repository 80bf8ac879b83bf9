-- ===== src/Approvals/Schedule.antt =====
-- When a draft is published that the owner schedules: `_resolve_scheduled_publish_at` of
-- src/kachu_plus/approval.py.
use kachu_v.Prelude.{Bool, String, if◌then◌else◌, leb, or_text, strip, ℕ, ◌*◌, ◌+◌, ◌/◌}

-- The time zones of `zoneinfo`: whether a name is known, and the wall clock of a zone, in
-- microseconds since its epoch.
pub record Zones : Type 0 where
  pub known : String → Bool
  pub to_wall : String → ℕ → ℕ
  pub from_wall : String → ℕ → ℕ

-- Nine o'clock of the wall clock, today or, if that is not more than ten minutes away, tomorrow.
unfoldable pub nine_o_clock : ℕ → ℕ
nine_o_clock wall =
    let today = (wall / 86400000000) * 86400000000 + 32400000000 in
    if leb today (wall + 600000000) then today + 86400000000 else today

unfoldable pub resolve_scheduled_publish_at : Zones → (now : ℕ) → String → ℕ × String
unfolding nine_o_clock
resolve_scheduled_publish_at zones now timezone_name =
    let name = or_text (strip (or_text timezone_name "Asia/Taipei")) "Asia/Taipei" in
    if zones.known name
    then (zones.from_wall name (nine_o_clock (zones.to_wall name now)), name)
    else (nine_o_clock now, "UTC")
