-- ===== src/Online/Examples.antt =====
-- A node that registers, is judged and is silent (net/src/relay.rs).
use riscdom.Prelude.{List, [], false, insert, lookup, none, refl, some, true, ◌↔◌, ◌∷◌, ◌≡◌}
use riscdom.Prelude.Int.{pos, sub_i64, wrap_i64, ℤ, ◌-ℤ◌, ◌≤ℤ◌}
use riscdom.Online.{
  Call, Registration, beat, beating, entry_of, find_entry, is_online, judging, mark_judged, new,
  online_at, online_window_ms, register, registering, run, sort_entries, step,
}
use riscdom.Online.Presence.{is_online-run, last_heard}

abbrev claims : Registration
claims = record {
  addresses = "10.0.0.7:47820" ∷ [];
  capabilities = "server" ∷ [];
  rooms = "kitchen" ∷ [];
}

abbrev calls : List Call
calls =
    beating "dev-b" (pos 500)
    ∷ registering "dev-a" claims (pos 1000)
    ∷ beating "dev-a" (pos 2000)
    ∷ judging "dev-a" (pos 3000)
    ∷ []

-- At the 45 seconds the node is still online; a beat alone places nobody.
within :
    (is_online (run new calls) "dev-a" (pos 47000) ≡ true)
    × (is_online (run new calls) "dev-b" (pos 600) ≡ false)
unfolding run step register beat mark_judged is_online insert lookup find_entry sort_entries
    entry_of sub_i64 wrap_i64 ◌-ℤ◌
within = (refl, refl)

too_late :
    (is_online (run new calls) "dev-a" (pos 47001) ≡ false)
    × (online_at (run new calls) (pos 47000) ≡ 1)
unfolding run step register beat mark_judged is_online online_at insert lookup find_entry
    sort_entries entry_of sub_i64 wrap_i64 ◌-ℤ◌
too_late = (refl, refl)

is_online-run_example : (is_online (run new calls) "dev-a" (pos 47000) ≡ true) ↔ (
    (at : ℤ) × (last_heard "dev-a" none calls ≡ some at)
    × (sub_i64 (pos 47000) at ≤ℤ online_window_ms))
is_online-run_example = is_online-run "dev-a" (pos 47000) calls
