-- ===== src/Witness.antt =====
-- net/src/liveness.rs: the server's witness records, and its judgement of a subject.
-- The lock around the records is not modelled: each operation holds it from its first read to its
-- last. The proofs are in the modules below.
pub mod Judge
pub mod Records
mod Examples
use riscdom.Prelude.{
  Bool, List, Map, Option, String, [], false, if◌then◌else◌, insert, length, lookup, none,
  set_insert, some, str_eq, true, unwrap_or, ℕ, ◌&&◌, ◌*◌, ◌∷◌,
}
use riscdom.Prelude.Int.{ltb_ℤ, pos, sub_i64, ℤ}

abbrev pub report_window_ms : ℤ
report_window_ms = pos (3 * 15_000)

pub record WitnessReport : Type 0 where
  pub reachable : Bool
  pub at_ms : ℤ

pub record WitnessTable : Type 0 where
  pub subjects : Map (Map WitnessReport)

abbrev pub new : WitnessTable
new = record { subjects = [] }

-- `WitnessTable::record`, a reserved word here.
unfoldable pub record_report : WitnessTable → String → String → Bool → ℤ → WitnessTable
record_report t witness subject reachable now =
    let reports = unwrap_or (lookup subject t.subjects) [] in
    record {
      subjects =
          insert subject (insert witness (record { reachable = reachable; at_ms = now }) reports)
            t.subjects;
    }

pub record Judgement : Type 0 where
  pub peer : String
  pub witnesses : List String
  pub reports : ℕ

module _ (subject : String) (now : ℤ) (witness_online : String → Bool) where
  -- The three `continue`s of the loop: the report counts when none of them is taken.
  unfoldable pub counts : String → WitnessReport → Bool
  counts witness report =
      if str_eq witness subject
      then false
      else if ltb_ℤ report_window_ms (sub_i64 now report.at_ms)
      then false
      else witness_online witness

  -- The loop over the reports, with its two variables.
  unfoldable pub gather : Map WitnessReport → List String → Bool → List String × Bool
  gather [] witnesses veto = (witnesses, veto)
  gather ((witness, report) ∷ reports) witnesses veto =
      let counted = counts witness report in
      gather reports (if counted then set_insert witness witnesses else witnesses)
        (if counted && report.reachable then true else veto)

  unfoldable pub verdict : List String × Bool → Option Judgement
  verdict ([], veto) = none
  verdict (w ∷ ws, true) = none
  verdict (w ∷ ws, false) =
      some (record { peer = subject; witnesses = w ∷ ws; reports = length (w ∷ ws) })

  unfoldable pub judge_reports : Option (Map WitnessReport) → Option Judgement
  unfolding gather verdict
  judge_reports none = none
  judge_reports (some reports) = verdict (gather reports [] false)

unfoldable pub judge : WitnessTable → String → ℤ → (String → Bool) → Option Judgement
unfolding judge_reports
judge t subject now witness_online =
    judge_reports subject now witness_online (lookup subject t.subjects)
