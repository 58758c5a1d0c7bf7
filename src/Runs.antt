-- ===== src/Runs.antt =====
-- audit/src/run.rs: runs as the events of the chain tell them. The fingerprints of a configuration are
-- not modelled; the proofs are in the modules below.
pub mod Interval
pub mod Derive
pub mod Steps
pub mod Derived
pub mod Closing
pub mod Indexed
mod Examples
use riscdom.Prelude.{
  Bool, List, Option, Result, String, [], err, false, if◌then◌else◌, none, not, ok, some, str_eq,
  true, unwrap_or, ℕ, ◌&&◌, ◌∷◌,
}
use riscdom.Prelude.Int.{leb_ℤ, ltb_ℤ, ℤ}
use riscdom.Prelude.Text.{concat, show_i64}
use riscdom.Json.{Json, get_str}
use riscdom.Event.{StoredEvent}
use riscdom.Store.{AuditError, failed, other}

abbrev pub action_run_start : String
action_run_start = "run.start"

abbrev pub action_run_end : String
action_run_end = "run.end"

abbrev pub action_run_abandoned : String
action_run_abandoned = "host.run.abandoned"

-- `open` is a reserved word here, and `ok` a result.
pub data RunStatus : Type 0 where
  run_open run_ok run_failed run_interrupted run_abandoned : RunStatus

unfoldable pub status_as_str : RunStatus → String
status_as_str run_open = "open"
status_as_str run_ok = "ok"
status_as_str run_failed = "failed"
status_as_str run_interrupted = "interrupted"
status_as_str run_abandoned = "abandoned"

unfoldable pub parse_status : String → RunStatus
parse_status raw =
    if str_eq raw "open"
    then run_open
    else if str_eq raw "ok"
    then run_ok
    else if str_eq raw "interrupted"
    then run_interrupted
    else if str_eq raw "abandoned"
    then run_abandoned
    else run_failed

pub record RunRecord : Type 0 where
  pub run_id : String
  pub session_id : Option String
  pub parent_run_id : Option String
  pub resumed_from_snapshot : Option String
  pub fingerprint : String
  pub fingerprint_schema : String
  pub started_at_ms : ℤ
  pub ended_at_ms : Option ℤ
  pub start_seq : ℤ
  pub end_seq : Option ℤ
  pub status : RunStatus

pub record RunStartPayload : Type 0 where
  pub run_id : String
  pub fingerprint : String
  pub fingerprint_schema : String
  pub fingerprint_json : String
  pub session_id : Option String
  pub parent_run_id : Option String
  pub resumed_from_snapshot : Option String
  pub sandbox : Option String
  pub instance_id : Option String

pub record RunEndPayload : Type 0 where
  pub run_id : String
  pub status : RunStatus
  pub reason : String

pub record RebuildReport : Type 0 where
  pub runs : ℕ
  pub starts : ℕ
  pub ends : ℕ
  pub abandoned : ℕ
  pub orphans : ℕ

abbrev pub is_abandoned : RunStatus → Bool
is_abandoned run_open = false
is_abandoned run_ok = false
is_abandoned run_failed = false
is_abandoned run_interrupted = false
is_abandoned run_abandoned = true

abbrev pub is_before : ℤ → Option ℤ → Bool
is_before id none = true
is_before id (some bound) = ltb_ℤ id bound

abbrev pub names_run : String → Option String → Bool
names_run run_id none = false
names_run run_id (some named) = str_eq named run_id

module _ {V : Type 0} ⦃json : Json V⦄ where
  -- The closure `text`.
  abbrev text_member : V → String → Result String AuditError
  text_member value key = elim (get_str value key) [
    | none ↦ err (other (concat ("run.start is missing `" ∷ key ∷ "`" ∷ [])))
    | some s ↦ ok s
  ]

  unfoldable pub parse_run_start : V → Result RunStartPayload AuditError
  parse_run_start value = elim (text_member value "run_id") [
    | err e ↦ err e
    | ok run_id ↦ elim (text_member value "fingerprint") [
      | err e ↦ err e
      | ok fingerprint ↦ elim (text_member value "fingerprint_schema") [
        | err e ↦ err e
        | ok fingerprint_schema ↦ elim (text_member value "fingerprint_json") [
          | err e ↦ err e
          | ok fingerprint_json ↦ ok (record {
            run_id = run_id;
            fingerprint = fingerprint;
            fingerprint_schema = fingerprint_schema;
            fingerprint_json = fingerprint_json;
            session_id = get_str value "session_id";
            parent_run_id = get_str value "parent_run_id";
            resumed_from_snapshot = get_str value "resumed_from_snapshot";
            sandbox = get_str value "sandbox";
            instance_id = get_str value "instance";
          })
        ]
      ]
    ]
  ]

  unfoldable pub parse_run_end : V → Result RunEndPayload AuditError
  unfolding parse_status
  parse_run_end value = elim (get_str value "run_id") [
    | none ↦ err (other "run.end is missing `run_id`")
    | some run_id ↦ ok (record {
      run_id = run_id;
      status = elim (get_str value "status") [ none ↦ run_failed | some s ↦ parse_status s ];
      reason = unwrap_or (get_str value "reason") "";
    })
  ]

  -- The ids of the later starts of runs, and the least of them.
  unfoldable pub next_start : ℤ → List (StoredEvent V) → Option ℤ
  next_start start [] = none
  next_start start (e ∷ es) =
      let rest = next_start start es in
      if ltb_ℤ start e.id && str_eq e.event.action action_run_start
      then elim rest [ none ↦ some e.id | some id ↦ if leb_ℤ e.id id then some e.id else some id ]
      else rest

  abbrev pub is_mark_of : Option ℤ → ℤ → String → StoredEvent V → Bool
  is_mark_of bound start run_id e =
      ltb_ℤ start e.id
      && is_before e.id bound
      && str_eq e.event.action action_run_abandoned
      && names_run run_id (get_str e.event.detail "run_id")

  unfoldable pub find_mark : Option ℤ → ℤ → String → List (StoredEvent V) → Option ℤ
  find_mark bound start run_id [] = none
  find_mark bound start run_id (e ∷ es) =
      if is_mark_of bound start run_id e then some e.id else find_mark bound start run_id es

  unfoldable pub abandoned_end : List (StoredEvent V) → RunRecord → Option ℤ
  unfolding next_start find_mark
  abandoned_end events r = find_mark (next_start r.start_seq events) r.start_seq r.run_id events

  unfoldable pub run_end : RunRecord → List (StoredEvent V) → Result ℤ AuditError
  unfolding abandoned_end status_as_str
  run_end r events = elim r.end_seq [
    | some end ↦
        if leb_ℤ r.start_seq end
        then ok end
        else err (
            other (
              concat (
                "run "
                ∷ r.run_id
                ∷ " has an end ("
                ∷ show_i64 end
                ∷ ") before its start ("
                ∷ show_i64 r.start_seq
                ∷ ")"
                ∷ [])))
    | none ↦
        if is_abandoned r.status
        then elim (abandoned_end events r) [
          | some end ↦ ok end
          | none ↦ err (
              other (
                concat (
                  "run " ∷ r.run_id ∷ " is marked abandoned but the chain has no `"
                  ∷ action_run_abandoned ∷ "` event for it, so there is no record to export" ∷ [])))
        ]
        else err (
            other (
              concat (
                "run "
                ∷ r.run_id
                ∷ " has not ended (status: "
                ∷ status_as_str r.status
                ∷ "): there is no `run.end` on the chain, so there is no record to export"
                ∷ [])))
  ]

  unfoldable pub run_interval : RunRecord → List (StoredEvent V) → Result (ℤ × ℤ) AuditError
  unfolding run_end
  run_interval r events = elim (run_end r events) [ err e ↦ err e | ok end ↦ ok (r.start_seq, end) ]
