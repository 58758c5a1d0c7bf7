-- ===== src/Witness/Examples.antt =====
-- Judgements of one subject (net/src/liveness.rs).
use mathlib.Core.Bool.{false≢true}
use riscdom.Prelude.{
  Any, Bool, List, Map, String, [], arith, eq_iff, false, insert, lookup, none, refl, set_insert,
  some, true, ℕ, ◌+◌, ◌↔◌, ◌∷◌, ◌≡◌,
}
use riscdom.Prelude.Int.{pos, sub_i64, wrap_i64, ◌-ℤ◌, ◌≤ℤ◌}
use riscdom.Witness.{
  Judgement, WitnessReport, WitnessTable, counts, judge, new, record_report, report_window_ms,
}
use riscdom.Witness.Judge.{Counts, Lives, judge_iff}
use riscdom.Witness.Records.{Report, record_all, veto}

abbrev start_ms : ℕ
start_ms = 1_700_000_000_000

abbrev everyone : String → Bool
everyone w = true

abbrev one_report : WitnessTable
one_report = record_report new "dev-a" "dev-b" false (pos start_ms)

one_report_judged :
    judge one_report "dev-b" (pos (start_ms + 1000)) everyone
    ≡ some (record { peer = "dev-b"; witnesses = "dev-a" ∷ []; reports = 1 })
unfolding judge counts record_report insert lookup set_insert sub_i64 wrap_i64 ◌-ℤ◌
one_report_judged = refl

own_report_ignored :
    judge (record_report new "dev-b" "dev-b" false (pos start_ms)) "dev-b" (pos start_ms) everyone
    ≡ none
unfolding judge counts record_report insert lookup set_insert sub_i64 wrap_i64 ◌-ℤ◌
own_report_ignored = refl

abbrev one_map : Map WitnessReport
one_map = ("dev-a", record { reachable = false; at_ms = pos start_ms }) ∷ []

one_report_held : lookup "dev-b" one_report.subjects ≡ some one_map
unfolding record_report lookup insert
one_report_held = refl

judge_iff_example :
    ((j : Judgement) × (judge one_report "dev-b" (pos start_ms) everyone ≡ some j)) ↔ (
      Any (Counts "dev-b" (pos start_ms) everyone) one_map
      × (¬ Any (Lives "dev-b" (pos start_ms) everyone) one_map))
judge_iff_example = judge_iff one_report "dev-b" (pos start_ms) everyone one_map one_report_held

fresh_enough : sub_i64 (pos (start_ms + 45_000)) (pos start_ms) ≤ℤ report_window_ms
unfolding sub_i64 wrap_i64 ◌-ℤ◌
fresh_enough = omega arith

-- After the report of life, its witness says of another that it is dead, and another says so of the
-- subject.
abbrev heard_later : List Report
heard_later =
    ("dev-c", "dev-d", false, pos (start_ms + 10))
    ∷ ("dev-e", "dev-b", false, pos (start_ms + 20))
    ∷ []

veto_example :
    judge
      (record_all heard_later (record_report one_report "dev-c" "dev-b" true (pos start_ms)))
      "dev-b"
      (pos (start_ms + 45_000))
      everyone
    ≡ none
veto_example =
    veto one_report "dev-c" "dev-b" (pos start_ms) (pos (start_ms + 45_000)) heard_later everyone
      (
        λ (w, s). false≢true ((eq_iff "dev-d" "dev-b").1 s),
        (λ (w, s). false≢true ((eq_iff "dev-e" "dev-c").1 w), tt),
      )
      (λ p. false≢true ((eq_iff "dev-c" "dev-b").1 p)) fresh_enough refl
