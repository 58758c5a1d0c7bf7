-- ===== src/Witness/Records.antt =====
-- What the witness table keeps, and the veto of a witness of life (net/src/liveness.rs).
use riscdom.Prelude.{
  All, All-lookup, Bool, Bool-cases, List, Option, Option-cases, String, [], arith, eq_iff, false,
  if◌then◌else◌, inl, inr, lookup, lookup-insert, none, refl, some, str_eq, true, unwrap_or, ◌&&◌,
  ◌∙◌, ◌∷◌, ◌≡◌, ◌≢◌,
}
use riscdom.Prelude.Int.{sub_i64, ℤ, ◌≤ℤ◌}
use riscdom.Witness.{WitnessReport, WitnessTable, judge, record_report, report_window_ms}
use riscdom.Witness.Judge.{Counts, judge_iff, none-Lives}

-- The latest report of a witness about a subject.
abbrev pub report_of : WitnessTable → String → String → Option WitnessReport
report_of t subject witness = lookup witness (unwrap_or (lookup subject t.subjects) [])

-- A report replaces the earlier one of the same witness about the same subject, and no other.
pub report_of-record_report :
    (t : WitnessTable) (witness subject : String) (reachable : Bool) (now : ℤ) (s w : String)
    → report_of (record_report t witness subject reachable now) s w ≡ (
        if str_eq subject s && str_eq witness w
        then some (record { reachable = reachable; at_ms = now })
        else report_of t s w)
unfolding record_report
report_of-record_report t witness subject reachable now s w = rw lookup-insert (
    ground (
      arith,
      eq_iff subject s,
      lookup-insert witness w (record { reachable = reachable; at_ms = now })
          (unwrap_or (lookup subject t.subjects) []),
    ))

-- A report as it comes in: of a witness, about a subject, whether it reached it, and when.
abbrev pub Report : Type 0
Report = String × String × Bool × ℤ

-- The table after reports have come in, in order.
abbrev pub record_all : List Report → WitnessTable → WitnessTable
record_all [] t = t
record_all ((witness, subject, reachable, at) ∷ later) t =
    record_all later (record_report t witness subject reachable at)

-- None of the reports is of this witness about this subject.
abbrev pub NoneOf : String → String → List Report → Type 0
NoneOf witness subject reports = All (λ r. ¬ ((r.0 ≡ witness) × (r.1 ≡ subject))) reports

report_of-record_all :
    (witness subject : String) (later : List Report) (t : WitnessTable)
    → NoneOf witness subject later
    → report_of (record_all later t) subject witness ≡ report_of t subject witness
report_of-record_all witness subject [] t h = refl
report_of-record_all witness subject ((w, s, reachable, at) ∷ later) t (other, h) =
    report_of-record_all witness subject later (record_report t w s reachable at) h
    ∙ report_of-record_report t w s reachable at subject witness
    ∙ elim (Bool-cases (str_eq s subject && str_eq w witness)) [
      | inr other_one ↦ rw other_one refl
      | inl same ↦ absurd (
          other (
            (eq_iff w witness).0 (ground (arith, same)),
            (eq_iff s subject).0 (ground (arith, same)),
          ))
    ]

-- A table that holds a report of life, of a witness that counts, judges nothing.
life_vetoes :
    (t : WitnessTable) (witness subject : String) (at now : ℤ) (witness_online : String → Bool)
    → report_of t subject witness ≡ some (record { reachable = true; at_ms = at })
    → witness ≢ subject
    → sub_i64 now at ≤ℤ report_window_ms
    → witness_online witness ≡ true
    → judge t subject now witness_online ≡ none
unfolding lookup
life_vetoes t witness subject at now witness_online life ne fresh online =
    elim (Option-cases (judge t subject now witness_online)) [
      | inl e ↦ e
      | inr (j, e) ↦ elim (Option-cases (lookup subject t.subjects)) [
        | inl unheard ↦ absurd (let nothing = rw unheard at life in cc)
        | inr (reports, held) ↦
            let among : lookup witness reports ≡ some (record { reachable = true; at_ms = at }) =
              rw held at life in
            let alone = ((judge_iff t subject now witness_online reports held).0 (j, e)).1 in
            let lives = none-Lives subject now witness_online reports alone in
            cc (
              All-lookup (λ e. Counts subject now witness_online e → e.1.reachable ≡ false) witness
                (record { reachable = true; at_ms = at }) reports lives among (ne, fresh, online))
      ]
    ]

-- Once a witness other than the subject has reported it reachable, and whatever reports of other
-- witnesses about the subject, and of any witness about others, have come in before and after, there
-- is no judgement of the subject while that report is fresh and that witness online.
pub veto :
    (t : WitnessTable) (witness subject : String) (at now : ℤ) (later : List Report)
    (witness_online : String → Bool)
    → NoneOf witness subject later
    → witness ≢ subject
    → sub_i64 now at ≤ℤ report_window_ms
    → witness_online witness ≡ true
    → judge (record_all later (record_report t witness subject true at)) subject now witness_online
      ≡ none
veto t witness subject at now later witness_online others ne fresh online =
    let kept =
      report_of-record_all witness subject later (record_report t witness subject true at) others
      ∙ report_of-record_report t witness subject true at subject witness
      ∙ rw ((eq_iff subject subject).1 refl) (rw ((eq_iff witness witness).1 refl) refl) in
    life_vetoes (record_all later (record_report t witness subject true at)) witness subject at now
      witness_online kept ne fresh online
