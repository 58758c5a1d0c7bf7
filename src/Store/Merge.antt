-- ===== src/Store/Merge.antt =====
-- audit/src/store.rs: how a segment is merged into the main chain, or its conflict recorded.
use riscdom.Prelude.{
  Bool, List, Option, Result, String, [], err, false, if◌then◌else◌, length, none, not, ok, some,
  str_eq, suc, true, unwrap_or, ℕ, ◌&&◌, ◌∷◌,
}
use riscdom.Prelude.Int.{ℤ}
use riscdom.Prelude.Text.{concat, show_i64, show_nat}
use riscdom.Event.{AuditEvent, RawRow, StoredEvent}
use riscdom.Json.{Json, get_str}
use riscdom.Segment.{
  MergeOutcome, Segment, SegmentKind, SegmentState, action_segment_forked, action_segment_merged,
  cleared_detail, closed, folded, folded_outcome, forked, forked_outcome, main, opened,
  partial_merge_prefix, partial_merge_recorded, segment_forked_detail, segment_merged_detail,
  state_as_str, temporary,
}
use riscdom.Store.{
  AuditError, AuditStore, Db, and_then, append, json_error, last_hash, new_event, other, with_ok,
}
use riscdom.Store.Segments.{segment, update_segment}

module _ {V : Type 0} ⦃json : Json V⦄ where
  unfoldable pub into_stored : RawRow → Result (StoredEvent V) AuditError
  into_stored row = elim (json.from_str row.detail_json) [
    | none ↦ err json_error
    | some detail ↦ ok (record {
      id = row.id;
      event = record {
        timestamp_ms = row.timestamp_ms;
        actor = row.actor;
        action = row.action;
        detail = detail;
        agent_id = row.agent_id;
      };
      prev_hash = row.prev_hash;
      hash = row.hash;
    })
  ]

  -- `all`: the first row that does not decode is the error.
  unfoldable pub stored_rows : List RawRow → Result (List (StoredEvent V)) AuditError
  unfolding into_stored
  stored_rows [] = ok []
  stored_rows (row ∷ rows) = elim (into_stored row) [
    | err e ↦ err e
    | ok event ↦ elim (stored_rows rows) [ err e ↦ err e | ok events ↦ ok (event ∷ events) ]
  ]

  unfoldable pub main_chain_row_with :
      String → String → V → List RawRow → Result (Option ℤ) AuditError
  main_chain_row_with actor action detail [] = ok none
  main_chain_row_with actor action detail (row ∷ rows) =
      let rest = main_chain_row_with actor action detail rows in
      if str_eq row.actor actor && str_eq row.action action
      then elim (json.from_str row.detail_json) [
        | none ↦ err json_error
        | some existing ↦ if json.beq existing detail then ok (some row.id) else rest
      ]
      else rest

  -- The first event of the segment that the main chain already holds, and the id of that row.
  unfoldable pub find_conflict :
      List (StoredEvent V) → List RawRow → Result (Option (String × String × ℤ)) AuditError
  unfolding main_chain_row_with
  find_conflict [] rows = ok none
  find_conflict (e ∷ es) rows =
      let rest = find_conflict es rows in
      elim (main_chain_row_with e.event.actor e.event.action (cleared_detail e.event.detail) rows) [
        | err x ↦ err x
        | ok none ↦ rest
        | ok (some id) ↦ ok (some (e.event.actor, e.event.action, id))
      ]

  -- An event as it is transcribed: the mark cleared.
  abbrev pub outgoing : AuditEvent V → AuditEvent V
  outgoing event = record event { detail = cleared_detail event.detail }

module _ (V : Type 0) ⦃json : Json V⦄ where
  -- The loop of `merged_already`.
  unfoldable pub merged_already : String → List RawRow → Result Bool AuditError
  merged_already id [] = ok false
  merged_already id (row ∷ rows) =
      let rest = merged_already id rows in
      if not (str_eq row.action action_segment_merged)
      then rest
      else elim (json.from_str row.detail_json) [
        | none ↦ err json_error
        | some detail ↦ elim (get_str detail "segment_id") [
          | none ↦ rest
          | some named ↦ if str_eq named id then ok true else rest
        ]
      ]

abbrev pub mark_segment_forked : String → String → AuditStore → Db (Unit {0})
mark_segment_forked id reason =
    update_segment id λ seg. record seg { state = forked; note = some reason }

abbrev pub mark_segment_folded : String → Option String → AuditStore → Db (Unit {0})
mark_segment_folded id head =
    update_segment id λ seg. record seg { state = folded; head_hash = head }

abbrev pub set_segment_note : String → String → AuditStore → Db (Unit {0})
set_segment_note id note = update_segment id λ seg. record seg { note = some note }

abbrev pub is_temporary : SegmentKind → Bool
is_temporary main = false
is_temporary temporary = true

abbrev pub is_mergeable : SegmentState → Bool
is_mergeable opened = true
is_mergeable closed = true
is_mergeable folded = false
is_mergeable forked = false

abbrev pub has_partial_merge : Segment → Bool
has_partial_merge seg = elim seg.note [ none ↦ false | some note ↦ partial_merge_recorded note ]

abbrev pub fork_reason : String × String × ℤ → String
fork_reason (actor, action, id) = concat (
    "conflicts with the main chain at event "
    ∷ show_i64 id
    ∷ ": "
    ∷ actor
    ∷ " "
    ∷ action
    ∷ "; not merged"
    ∷ [])

module _ (V : Type 0) ⦃json : Json V⦄ (sha256_hex : String → String)
    -- What `to_string` writes of an error.
    (show_error : AuditError → String)
    -- What opening a segment's own store finds.
    (segment_store : String → Result AuditStore AuditError) where
  -- A failed append of the loop is noted on the segment's row, if the database takes the note.
  abbrev pub noting :
      Db (StoredEvent V) → (AuditError → AuditStore → Db (Unit {0})) → (AuditStore → Db ℕ) → Db ℕ
  noting (ok stored, t) note k = k t
  noting (err x, t) note k = (err x, (note x t).1)

  abbrev pub partial_note : ℕ → ℕ → AuditError → String
  partial_note merged total x = concat (
      partial_merge_prefix
      ∷ show_nat merged
      ∷ " of "
      ∷ show_nat total
      ∷ " events: "
      ∷ show_error x
      ∷ [])

  -- The loop that appends the events, `merged` of `total` so far.
  unfoldable pub transcribe : String → ℕ → ℕ → List (StoredEvent V) → AuditStore → Db ℕ
  transcribe id merged total [] s = (ok merged, s)
  transcribe id merged total (e ∷ es) s =
      noting (append sha256_hex (outgoing e.event) s)
        (λ x. set_segment_note id (partial_note merged total x))
        (λ t. transcribe id (suc merged) total es t)

  unfoldable pub record_fork :
      String → Segment → String × String × ℤ → ℤ → ℤ → AuditStore → Db MergeOutcome
  record_fork id seg (actor, action, row_id) now stamp s =
      let reason = fork_reason (actor, action, row_id) in
      and_then
        (append {V = V} sha256_hex
          (new_event stamp "host" action_segment_forked
            (segment_forked_detail id seg.kind now reason (some row_id)))
          s)
        λ _ t. and_then (mark_segment_forked id reason t) λ _ u. (ok (forked_outcome reason), u)

  unfoldable pub fold_segment :
      String → Segment → List (StoredEvent V) → ℤ → ℤ → AuditStore → Db MergeOutcome
  fold_segment id seg events now stamp s =
      and_then (transcribe id 0 (length events) events s) λ merged t.
        and_then
          (append {V = V} sha256_hex
            (new_event stamp "host" action_segment_merged
              (segment_merged_detail id seg.kind now merged))
            t)
          λ _ u.
            and_then (mark_segment_folded id (last_hash u) u) λ _ v. (ok (folded_outcome merged), v)

  abbrev pub merge_found :
      Option (String × String × ℤ)
      → String
      → Segment
      → List (StoredEvent V)
      → ℤ
      → ℤ
      → AuditStore
      → Db MergeOutcome
  merge_found (some conflict) id seg events now stamp s = record_fork id seg conflict now stamp s
  merge_found none id seg events now stamp s = fold_segment id seg events now stamp s

  -- Once the guards are passed: read the segment's own store, look for a conflict, then write.
  unfoldable pub merge_events : String → Segment → ℤ → ℤ → AuditStore → Db MergeOutcome
  merge_events id seg now stamp s = with_ok (segment_store id) s λ file.
      with_ok (stored_rows {V = V} file.rows) s λ events.
        with_ok (find_conflict events s.rows) s
          λ conflict. merge_found conflict id seg events now stamp s

  abbrev refused : List String → AuditStore → Db MergeOutcome
  refused message s = (err (other (concat message)), s)

  abbrev pub merge_known : Option Segment → String → ℤ → ℤ → AuditStore → Db MergeOutcome
  merge_known none id now stamp s = refused ("no segment " ∷ id ∷ []) s
  merge_known (some seg) id now stamp s =
      if not (is_temporary seg.kind)
      then refused (id ∷ " is not a temporary segment" ∷ []) s
      else if not (is_mergeable seg.state)
      then refused
          (id
            ∷ " is "
            ∷ state_as_str seg.state
            ∷ " — only an open or closed segment can be merged"
            ∷ [])
          s
      else with_ok (merged_already V id s.rows) s λ already.
        if already
        then refused (id ∷ " is already merged" ∷ []) s
        else if has_partial_merge seg
        then refused
            (id
              ∷ " has a partial merge recorded ("
              ∷ unwrap_or seg.note ""
              ∷ "); refusing to merge again"
              ∷ [])
            s
        else merge_events id seg now stamp s

  unfoldable pub merge_segment : String → ℤ → ℤ → AuditStore → Db MergeOutcome
  merge_segment id now stamp s = merge_known (segment id s) id now stamp s
