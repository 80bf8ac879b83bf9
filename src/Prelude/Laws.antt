-- ===== src/Prelude/Laws.antt =====
-- Texts that a computed test tells apart are not equal.
use kachu_v.Prelude.{String, arith, eq_iff, false, ◌==◌, ◌≡◌, ◌≢◌}

pub unequal : (s t : String) → (s == t) ≡ false → s ≢ t
unequal s t h e = ground (arith, eq_iff s t)

pub test_unequal : (s t : String) → s ≢ t → (s == t) ≡ false
test_unequal s t h = ground (arith, eq_iff s t)
