-- ===== src/Runs/Examples.antt =====
-- One run that ends, and one that is abandoned (audit/src/run.rs).
use riscdom.Prelude.{
  All, List, String, [], arith, false, length, lookup, none, ok, refl, some, true, ℕ, ◌*◌, ◌∷◌, ◌≡◌,
}
use riscdom.Prelude.Int.{pos, ◌≤ℤ◌}
use riscdom.Json.{Json}
use riscdom.Event.{StoredEvent}
use riscdom.Runs.{RunRecord, parse_status, run_abandoned, run_interval}
use riscdom.Runs.Interval.{EndsAt, run_interval_lem}
use riscdom.Runs.Derive.{derive_runs_from}
use riscdom.Runs.Derived.{AreOnce, IsOrdered}
use riscdom.Runs.Indexed.{IsHeard, IsRun, derive_runs_from_lem}

-- Objects of texts; a text is an object with one member without a name.
abbrev Members : Type 0
Members = List (String × String)

abbrev toy : Json Members
toy = record {
  get = λ v key. elim (lookup key v) [ none ↦ none | some s ↦ some (("", s) ∷ []) ];
  as_str = λ v. lookup "" v;
  as_u64 = λ v. none;
  as_i64 = λ v. none;
  as_bool = λ v. none;
  is_null = λ v. false;
  object = λ members. [];
  remove = λ key v. v;
  null = [];
  str = λ s. ("", s) ∷ [];
  num = λ n. [];
  int = λ n. [];
  beq = λ v w. true;
  to_string = λ v. none;
  from_str = λ s. none;
}

abbrev event : ℕ → String → Members → StoredEvent Members
event id action members = record {
  id = pos id;
  event = record {
    timestamp_ms = pos (id * 1000);
    actor = "host";
    action = action;
    detail = members;
    agent_id = none;
  };
  prev_hash = "p";
  hash = "h";
}

abbrev start_of : String → Members
start_of run_id =
    ("run_id", run_id)
    ∷ ("fingerprint", "f")
    ∷ ("fingerprint_schema", "s")
    ∷ ("fingerprint_json", "{}")
    ∷ []

abbrev events : List (StoredEvent Members)
events =
    event 1 "run.start" (start_of "r1")
    ∷ event 2 "run.end" (("run_id", "r1") ∷ ("status", "ok") ∷ [])
    ∷ event 3 "run.start" (start_of "r2")
    ∷ event 4 "host.run.abandoned" (("run_id", "r2") ∷ [])
    ∷ event 5 "run.end" (("run_id", "r1") ∷ [])
    ∷ []

abbrev abandoned_run : RunRecord
abandoned_run = record {
  run_id = "r2";
  session_id = none;
  parent_run_id = none;
  resumed_from_snapshot = none;
  fingerprint = "f";
  fingerprint_schema = "s";
  started_at_ms = pos 3000;
  ended_at_ms = none;
  start_seq = pos 3;
  end_seq = none;
  status = run_abandoned;
}

second_run :
    elim (derive_runs_from ⦃json = toy⦄ events).0 [
      | [] ↦ none
      | r ∷ rs ↦ elim rs [ [] ↦ none | q ∷ qs ↦ some q ]
    ]
    ≡ some abandoned_run
unfolding derive_runs_from lookup parse_status
second_run = refl

one_orphan : (derive_runs_from ⦃json = toy⦄ events).1.orphans ≡ 1
unfolding derive_runs_from lookup parse_status
one_orphan = refl

abandoned_interval : run_interval ⦃json = toy⦄ abandoned_run events ≡ ok (pos 3, pos 4)
unfolding run_interval lookup
abandoned_interval = refl

run_interval_lem_example :
    (pos 3 ≡ pos 3) × (pos 3 ≤ℤ pos 4) × EndsAt ⦃json = toy⦄ abandoned_run (pos 4) events
run_interval_lem_example =
    run_interval_lem ⦃json = toy⦄ abandoned_run events (pos 3) (pos 4) abandoned_interval

derive_runs_from_lem_example :
    let (rows, report) = derive_runs_from ⦃json = toy⦄ events in
    All (IsRun ⦃json = toy⦄ events) rows
    × All (IsHeard ⦃json = toy⦄ rows) events
    × All (IsOrdered (pos 5)) rows
    × AreOnce rows
    × (report.runs ≡ length rows)
derive_runs_from_lem_example = derive_runs_from_lem ⦃json = toy⦄ (pos 0) events (omega arith)
