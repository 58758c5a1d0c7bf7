-- ===== src/Store.antt =====
-- audit/src/store.rs: the append-only store and how an event is appended, with audit/src/error.rs.
-- SQLite is a library. A table is a list or a map, and what the database answers to the writes to
-- come, which the code cannot know, is part of the state: a write takes the next answer, and changes
-- nothing when it is an error. With no answer left, writes succeed. The transaction around an append
-- makes the whole append one write. The proofs are in the modules below.
pub mod Segments
pub mod Merge
pub mod Rows
pub mod AppendGrows
pub mod Grows
pub mod MergeGrows
pub mod Runs
pub mod Success
pub mod Outcomes
pub mod Marks
pub mod Merged
pub mod Conflicts
pub mod Once
pub mod Retry
pub mod Opening
pub mod Unmarked
pub mod Toy
mod Examples
mod MergeExamples
use riscdom.Prelude.{
  Bool, List, Map, Option, Result, String, [], err, false, if◌then◌else◌, none, ok, some, str_eq,
  suc, true, unwrap_or, zero, ℕ, ◌++◌, ◌-◌, ◌^◌, ◌||◌, ◌∷◌,
}
use riscdom.Prelude.Int.{ltb_ℤ, pos, ℤ, ◌+ℤ◌}
use riscdom.Event.{AuditEvent, RawRow, StoredEvent}
use riscdom.Json.{Json}
use riscdom.Segment.{Segment}
use riscdom.Chain.{compute_hash, genesis_prev_hash}

pub data AuditError : Type 0 where
  sqlite_busy sqlite_locked unique_constraint table_full : AuditError
  sqlite : (message : String) → AuditError
  json_error io_error : AuditError
  data_too_new : (found supported : ℤ) → AuditError
  other : (message : String) → AuditError

unfoldable pub is_lock_error : AuditError → Bool
is_lock_error sqlite_busy = true
is_lock_error sqlite_locked = true
is_lock_error _ = false

pub record AuditStore : Type 0 where
  pub rows : List RawRow
  pub segments : Map Segment
  pub answers : List (Option AuditError)

-- What an operation on the store returns, and the store after it.
abbrev pub Db : Type 0 → Type 0
Db A = Result A AuditError × AuditStore

-- `?`: the rest of a function runs only after success.
abbrev pub and_then : {A B : Type 0} → Db A → (A → AuditStore → Db B) → Db B
and_then (ok a, s) k = k a s
and_then (err e, s) k = (err e, s)

-- The same for a result that no write made.
abbrev pub with_ok : {A B : Type 0} → Result A AuditError → AuditStore → (A → Db B) → Db B
with_ok (ok a) s k = k a
with_ok (err e) s k = (err e, s)

abbrev pub failed : {A : Type 0} → AuditError → AuditStore → Db A
failed e s = (err e, s)

-- After a failed write, undo what was written before it and report the failure.
abbrev pub or_undo : {A B : Type 0} → Db A → (AuditStore → Db (Unit {0})) → B → Db B
or_undo (ok a, s) undo b = (ok b, s)
or_undo (err e, s) undo b = and_then (undo s) λ _ t. failed e t

-- One write, answered by the database.
abbrev pub answer :
    List (Option AuditError) → (AuditStore → AuditStore) → AuditStore → Db (Unit {0})
answer [] change s = (ok tt, change s)
answer (none ∷ rest) change s = (ok tt, change (record s { answers = rest }))
answer (some e ∷ rest) change s = (err e, record s { answers = rest })

unfoldable pub write : (AuditStore → AuditStore) → AuditStore → Db (Unit {0})
write change s = answer s.answers change s

abbrev pub last_row : List RawRow → Option RawRow
last_row [] = none
last_row (row ∷ []) = some row
last_row (row ∷ next ∷ rows) = last_row (next ∷ rows)

-- `SELECT hash FROM audit_events ORDER BY id DESC LIMIT 1`, and the same for the id.
unfoldable pub last_hash : AuditStore → Option String
last_hash s = elim (last_row s.rows) [ none ↦ none | some row ↦ some row.hash ]

unfoldable pub last_id : AuditStore → Option ℤ
last_id s = elim (last_row s.rows) [ none ↦ none | some row ↦ some row.id ]

-- The id of an AUTOINCREMENT key: one more than the last, as long as an `i64` holds it.
abbrev pub next_id : Option ℤ → Option ℤ
next_id none = some (pos 1)
next_id (some id) = if ltb_ℤ id (pos (2 ^ 63 - 1)) then some (id +ℤ pos 1) else none

-- `hash TEXT NOT NULL UNIQUE`.
abbrev pub hash_taken : String → List RawRow → Bool
hash_taken hash [] = false
hash_taken hash (row ∷ rows) = str_eq row.hash hash || hash_taken hash rows

abbrev pub new_row : {V : Type 0} → ℤ → AuditEvent V → String → String → String → RawRow
new_row id event detail_json prev_hash hash = record {
  id = id;
  timestamp_ms = event.timestamp_ms;
  actor = event.actor;
  action = event.action;
  detail_json = detail_json;
  prev_hash = prev_hash;
  hash = hash;
  agent_id = event.agent_id;
}

-- The INSERT: a key that is used up or a hash that is there already is refused.
abbrev pub insert_at :
    {V : Type 0}
    → Option ℤ
    → AuditEvent V
    → String
    → String
    → String
    → AuditStore
    → Db (StoredEvent V)
insert_at none event detail_json prev_hash hash s = (err table_full, s)
insert_at (some id) event detail_json prev_hash hash s =
    if hash_taken hash s.rows then (err unique_constraint, s) else (
      ok (record { id = id; event = event; prev_hash = prev_hash; hash = hash }),
      record s { rows = s.rows ++ new_row id event detail_json prev_hash hash ∷ [] },
    )

unfoldable pub insert_row :
    {V : Type 0} → AuditEvent V → String → String → String → AuditStore → Db (StoredEvent V)
insert_row event detail_json prev_hash hash s =
    insert_at (next_id (last_id s)) event detail_json prev_hash hash s

-- `AuditEvent::new`, at the instant that it reads from the clock.
abbrev pub new_event : {V : Type 0} → ℤ → String → String → V → AuditEvent V
new_event now actor action detail = record {
  timestamp_ms = now;
  actor = actor;
  action = action;
  detail = detail;
  agent_id = none;
}

abbrev pub append_max_attempts : ℕ
append_max_attempts = 5

module _ {V : Type 0} ⦃json : Json V⦄ (sha256_hex : String → String) where
  -- Inside the transaction: read the head, write the detail, hash, insert.
  abbrev pub chain_detail : Option String → AuditEvent V → AuditStore → Db (StoredEvent V)
  chain_detail none event s = (err json_error, s)
  chain_detail (some detail_json) event s =
      let prev_hash = unwrap_or (last_hash s) genesis_prev_hash in
      insert_row event detail_json prev_hash
        (compute_hash sha256_hex prev_hash event.timestamp_ms event.actor event.action detail_json)
        s

  unfoldable pub chain_event : AuditEvent V → AuditStore → Db (StoredEvent V)
  chain_event event s = chain_detail (json.to_string event.detail) event s

  unfoldable pub append_once : AuditEvent V → AuditStore → Db (StoredEvent V)
  append_once event s = and_then (write (λ t. t) s) λ _ t. chain_event event t

  -- The loop of `append_with`, with so many attempts left after this one.
  unfoldable pub retry : ℕ → AuditEvent V → AuditStore → Db (StoredEvent V)
  retry zero event s = append_once event s
  retry (suc left) event s =
      let (result, t) = append_once event s in
      elim result [
        | ok stored ↦ (ok stored, t)
        | err e ↦ elim (is_lock_error e) [ true ↦ retry left event t | false ↦ (err e, t) ]
      ]

  -- `attempts.max(1)`.
  unfoldable pub append_with : ℕ → AuditEvent V → AuditStore → Db (StoredEvent V)
  append_with attempts event s = retry (attempts - 1) event s

  unfoldable pub append : AuditEvent V → AuditStore → Db (StoredEvent V)
  append event s = append_with append_max_attempts event s
