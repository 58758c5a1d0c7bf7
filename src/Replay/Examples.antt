-- ===== src/Replay/Examples.antt =====
-- The replay guard on the traffic of two peers (net/src/replay.rs).
use riscdom.Prelude.{[], arith, insert, lookup, ok, refl, some, ℕ, ◌+◌, ◌↔◌, ◌∷◌, ◌≡◌, ◌≢◌}
use riscdom.Prelude.Int.{add_i64, pos, sub_i64, wrap_i64, ◌+ℤ◌, ◌-ℤ◌}
use riscdom.Replay.{Call, accept, advance, call, entry_or_default, high_water, new, run}
use riscdom.Replay.Once.{IsSeen, accepted_once}
use riscdom.Replay.InWindow.{InWindow, NoOverflow, accept_iff}

abbrev now_ms : ℕ
now_ms = 1_700_000_000_000

abbrev first : Call
first = record { from = "dev-a"; ts = pos now_ms; body_hash = "hash-1"; now = pos now_ms }

abbrev second : Call
second = record { from = "dev-a"; ts = pos now_ms; body_hash = "hash-2"; now = pos (now_ms + 5) }

abbrev other : Call
other = record { from = "dev-b"; ts = pos now_ms; body_hash = "hash-1"; now = pos now_ms }

first_accepted : (call new first).0 ≡ ok tt
unfolding accept add_i64 sub_i64 wrap_i64 ◌+ℤ◌ ◌-ℤ◌ lookup
first_accepted = refl

same_millisecond :
    ((call (call new first).1 second).0 ≡ ok tt)
    × (high_water (call new first).1 "dev-a" ≡ some (pos now_ms))
unfolding accept advance high_water add_i64 sub_i64 wrap_i64 ◌+ℤ◌ ◌-ℤ◌ lookup insert
same_millisecond = (refl, refl)

accepted_once_example : (call (run (call new first).1 (second ∷ other ∷ [])) first).0 ≢ ok tt
accepted_once_example =
    accepted_once new first (second ∷ other ∷ []) first first_accepted refl refl refl

in_range : NoOverflow new first
unfolding ◌+ℤ◌ ◌-ℤ◌
in_range = omega arith

accept_iff_example :
    ((call new first).0 ≡ ok tt)
    ↔ (InWindow new first × (¬ IsSeen (entry_or_default new "dev-a") (pos now_ms) "hash-1"))
accept_iff_example = accept_iff new first in_range
