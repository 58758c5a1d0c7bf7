-- ===== src/Runs/Derive.antt =====
-- audit/src/run.rs: the rows of the run index, derived from the chain.
use riscdom.Prelude.{
  Bool, List, Option, Result, String, [], err, false, if◌then◌else◌, is_some, length, none, not, ok,
  some, str_eq, unwrap_or, ◌&&◌, ◌++◌, ◌+◌, ◌||◌, ◌∷◌,
}
use riscdom.Prelude.Int.{ℤ}
use riscdom.Json.{Json, get_str}
use riscdom.Event.{StoredEvent}
use riscdom.Store.{AuditError}
use riscdom.Runs.{
  RebuildReport, RunEndPayload, RunRecord, RunStartPayload, action_run_abandoned, action_run_end,
  action_run_start, parse_run_end, parse_run_start, run_abandoned, run_open,
}

-- The loop's state: the rows and the report so far.
abbrev pub Derivation : Type 0
Derivation = List RunRecord × RebuildReport

abbrev pub is_open_run : String → RunRecord → Bool
is_open_run run_id r = str_eq r.run_id run_id && not (is_some r.end_seq)

-- `iter_mut().find(…)`, with what is then written to the row; `none` when there is none.
unfoldable pub change_open :
    String → (RunRecord → RunRecord) → List RunRecord → Option (List RunRecord)
change_open run_id change [] = none
change_open run_id change (r ∷ rs) =
    let rest = change_open run_id change rs in
    if is_open_run run_id r
    then some (change r ∷ rs)
    else elim rest [ none ↦ none | some rs' ↦ some (r ∷ rs') ]

abbrev pub has_run : String → List RunRecord → Bool
has_run run_id [] = false
has_run run_id (r ∷ rs) = str_eq r.run_id run_id || has_run run_id rs

abbrev orphan : Derivation → Derivation
orphan (rows, report) = (rows, record report { orphans = report.orphans + 1 })

abbrev pub started : RunStartPayload → ℤ → ℤ → RunRecord
started p at id = record {
  run_id = p.run_id;
  session_id = p.session_id;
  parent_run_id = p.parent_run_id;
  resumed_from_snapshot = p.resumed_from_snapshot;
  fingerprint = p.fingerprint;
  fingerprint_schema = p.fingerprint_schema;
  started_at_ms = at;
  ended_at_ms = none;
  start_seq = id;
  end_seq = none;
  status = run_open;
}

abbrev pub add_start : Result RunStartPayload AuditError → ℤ → ℤ → Derivation → Derivation
add_start (err e) at id d = orphan d
add_start (ok p) at id (rows, report) =
    let counted = record report { starts = report.starts + 1 } in
    if has_run p.run_id rows
    then orphan (rows, counted)
    else (rows ++ started p at id ∷ [], counted)

abbrev pub changed :
    Option (List RunRecord) → (RebuildReport → RebuildReport) → Derivation → Derivation
changed none count d = orphan d
changed (some rows) count (old, report) = (rows, count report)

abbrev pub add_end : Result RunEndPayload AuditError → ℤ → ℤ → Derivation → Derivation
add_end (err e) at id d = orphan d
add_end (ok p) at id d =
    changed
      (change_open p.run_id
        (λ r. record r { end_seq = some id; ended_at_ms = some at; status = p.status }) d.0)
      (λ report. record report { ends = report.ends + 1 }) d

abbrev pub add_abandoned : String → Derivation → Derivation
add_abandoned run_id d =
    changed (change_open run_id (λ r. record r { status = run_abandoned }) d.0)
      (λ report. record report { abandoned = report.abandoned + 1 }) d

module _ {V : Type 0} ⦃json : Json V⦄ where
  unfoldable pub derive_one : StoredEvent V → Derivation → Derivation
  unfolding change_open parse_run_start parse_run_end
  derive_one e d =
      if str_eq e.event.action action_run_start
      then add_start (parse_run_start e.event.detail) e.event.timestamp_ms e.id d
      else if str_eq e.event.action action_run_end
      then add_end (parse_run_end e.event.detail) e.event.timestamp_ms e.id d
      else if str_eq e.event.action action_run_abandoned
      then add_abandoned (unwrap_or (get_str e.event.detail "run_id") "") d
      else d

  unfoldable pub derive_loop : List (StoredEvent V) → Derivation → Derivation
  unfolding derive_one
  derive_loop [] d = d
  derive_loop (e ∷ es) d = derive_loop es (derive_one e d)

  unfoldable pub derive_runs_from : List (StoredEvent V) → Derivation
  unfolding derive_loop
  derive_runs_from events =
      let (rows, report) =
        derive_loop events
          ([], record { runs = 0; starts = 0; ends = 0; abandoned = 0; orphans = 0 }) in
      (rows, record report { runs = length rows })
