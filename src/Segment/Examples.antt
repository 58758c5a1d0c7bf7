-- ===== src/Segment/Examples.antt =====
-- Names and words of segments (audit/src/segment.rs).
use riscdom.Prelude.{refl, ◌≡◌}
use riscdom.Prelude.Text.{chars}
use riscdom.Segment.{is_safe, safe_owner}

dots_and_slashes : safe_owner (chars "../a b..") ≡ chars ".._a_b"
unfolding safe_owner is_safe
dots_and_slashes = refl

nothing_left : safe_owner (chars "...") ≡ chars "node"
unfolding safe_owner is_safe
nothing_left = refl
