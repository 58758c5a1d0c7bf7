-- ===== src/Suppression/Examples.antt =====
-- One node that loses its centre and stands in (net/src/suppression.rs).
use riscdom.Prelude.{
  Bool, List, String, [], arith, false, lookup, refl, set_insert, some, true, ℕ, ◌+◌, ◌∷◌, ◌≡◌, ◌≢◌,
}
use riscdom.Prelude.Int.{
  le_bytes_i64, pos, saturating_add_i64, saturating_sub_i64, sub_i64, wrap_i64, ℤ, ◌-ℤ◌, ◌≤ℤ◌,
}
use riscdom.Prelude.Utf8.{as_bytes}
use riscdom.Witness.{WitnessTable, counts, judge}
use riscdom.Suppression.{
  backoff_delay_ms, candidate, confirm, first_in_line, fnv, is_first_in_line, maybe_stand_in, new,
  observe, standing_in, suppression_backoff_max, suppression_wait,
}
use riscdom.Suppression.Layers.{Call, confirms, observes, stands_in}
use riscdom.Suppression.Timeline.{StoodIn, after, standing_in_only_after, stands_in_at_last}

abbrev at : ℕ → ℤ
at n = pos (1_700_000_000_000 + n)

abbrev report : WitnessTable
report = record {
  subjects = ("centre", ("dev-b", record { reachable = false; at_ms = at 60_000 }) ∷ []) ∷ [];
}

abbrev everyone : String → Bool
everyone w = true

abbrev history : List Call
history =
    stands_in (at 90_000)
    ∷ confirms report "centre" (at 60_000) everyone
    ∷ observes false (at 60_000)
    ∷ observes false (at 0)
    ∷ []

judged :
    judge report "centre" (at 60_000) everyone
    ≡ some (record { peer = "centre"; witnesses = "dev-b" ∷ []; reports = 1 })
unfolding judge counts lookup set_insert sub_i64 wrap_i64 ◌-ℤ◌
judged = refl

waited : suppression_wait ≤ℤ saturating_sub_i64 (at 60_000) (at 0)
unfolding saturating_sub_i64
waited = omega arith

backoff_over : saturating_add_i64 (at 60_000) (pos suppression_backoff_max) ≤ℤ at 90_000
unfolding saturating_add_i64
backoff_over = omega arith

stood_in : (after "dev-a" (at 0) history).phase ≡ standing_in
unfolding after new observe confirm judge counts maybe_stand_in backoff_delay_ms lookup set_insert
    sub_i64 wrap_i64 ◌-ℤ◌ saturating_sub_i64 saturating_add_i64 fnv as_bytes le_bytes_i64
stood_in = refl

standing_in_only_after_example : StoodIn "dev-a" (after "dev-a" (at 0) history).since_ms history
standing_in_only_after_example = standing_in_only_after "dev-a" (at 0) history stood_in

stands_in_at_last_example :
    (maybe_stand_in
      (confirm
        (observe (observe (new "dev-a" (at 0)) false (at 0)) false (at 60_000))
        report
        "centre"
        (at 60_000)
        everyone).1
      (at 90_000)).0
    ≡ true
unfolding new
stands_in_at_last_example =
    stands_in_at_last (new "dev-a" (at 0)) (at 0) (at 60_000) (at 60_000) (at 90_000) report
      "centre" everyone _ starts waited judged backoff_over
  where
    starts : (new "dev-a" (at 0)).phase ≡ candidate
    starts = refl

two_delays : ◌≢◌ {A = ℤ} (backoff_delay_ms "dev-a" (at 0)) (backoff_delay_ms "dev-b" (at 0))
unfolding backoff_delay_ms fnv as_bytes le_bytes_i64
two_delays = λ e. grind arith

least_of_three : first_in_line ("dev-c" ∷ "dev-a" ∷ "dev-b" ∷ []) ≡ some "dev-a"
unfolding first_in_line
least_of_three = refl

a_is_first : is_first_in_line "dev-a" ("dev-b" ∷ []) ≡ true
unfolding is_first_in_line
a_is_first = refl
