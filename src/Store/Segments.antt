-- ===== src/Store/Segments.antt =====
-- audit/src/store.rs: how a segment is opened, closed and adopted.
use riscdom.Prelude.{
  Map, Option, String, [], err, if◌then◌else◌, insert, is_some, lookup, none, ok, some, str_eq, suc,
  zero, ℕ, ◌-◌, ◌^◌, ◌∷◌,
}
use riscdom.Prelude.Int.{ℤ}
use riscdom.Prelude.Text.{chars, concat, of_chars, show_i64, show_nat}
use riscdom.Json.{Json}
use riscdom.Segment.{
  Segment, SegmentKind, SegmentState, action_segment_closed, action_segment_opened, closed, opened,
  safe_owner, segment_closed_detail, segment_opened_detail, temporary,
}
use riscdom.Store.{
  AuditStore, Db, and_then, append, last_hash, last_id, new_event, or_undo, other,
  unique_constraint, write,
}

-- The statements on the `segments` table.
abbrev pub segment : String → AuditStore → Option Segment
segment id s = lookup id s.segments

unfoldable pub insert_segment : Segment → AuditStore → Db (Unit {0})
unfolding write
insert_segment seg s = and_then (write (λ t. t) s) λ _ t.
    if is_some (segment seg.segment_id t)
    then (err unique_constraint, t)
    else (ok tt, record t { segments = insert seg.segment_id seg t.segments })

-- `UPDATE segments SET … WHERE segment_id = ?1`.
unfoldable pub update_segment : String → (Segment → Segment) → AuditStore → Db (Unit {0})
unfolding write
update_segment id change s =
    write
      (λ t. record t {
        segments = elim (segment id t) [
          | none ↦ t.segments
          | some seg ↦ insert id (change seg) t.segments
        ];
      })
      s

abbrev pub set_segment_state : String → SegmentState → Option ℤ → AuditStore → Db (Unit {0})
set_segment_state id state closed_at_ms =
    update_segment id λ seg. record seg { state = state; closed_at_ms = closed_at_ms }

abbrev pub without : String → Map Segment → Map Segment
without id [] = []
without id ((k, seg) ∷ m) = if str_eq k id then without id m else (k, seg) ∷ without id m

unfoldable pub delete_segment : String → AuditStore → Db (Unit {0})
unfolding write
delete_segment id s = write (λ t. record t { segments = without id t.segments }) s

-- The closure `mint`.
abbrev pub mint : ℤ → Option String → Option ℕ → String
mint now (some owner) (some n) =
    concat
      ("seg-" ∷ of_chars (safe_owner (chars owner)) ∷ "-" ∷ show_i64 now ∷ "-" ∷ show_nat n ∷ [])
mint now (some owner) none =
    concat ("seg-" ∷ of_chars (safe_owner (chars owner)) ∷ "-" ∷ show_i64 now ∷ [])
mint now none (some n) = concat ("seg-" ∷ show_i64 now ∷ "-" ∷ show_nat n ∷ [])
mint now none none = concat ("seg-" ∷ show_i64 now ∷ [])

-- The loop over the suffixes: `left` of them from `n` on.
unfoldable pub free_from : ℕ → ℕ → ℤ → Option String → AuditStore → Option String
free_from zero n now owner s = none
free_from (suc left) n now owner s = elim (segment (mint now owner (some n)) s) [
  | none ↦ some (mint now owner (some n))
  | some seg ↦ free_from left (suc n) now owner s
]

-- `2..=u32::MAX` has 2^32 - 2 suffixes.
unfoldable pub free_segment_id : ℤ → Option String → AuditStore → Option String
unfolding free_from
free_segment_id now owner s = elim (segment (mint now owner none) s) [
  | none ↦ some (mint now owner none)
  | some seg ↦ free_from (2 ^ 32 - 2) 2 now owner s
]

-- The record that an opened segment starts with: both halves of the anchor are read before its
-- opening event is appended.
abbrev pub fresh_segment : String → SegmentKind → ℤ → AuditStore → Segment
fresh_segment id kind now s = record {
  segment_id = id;
  kind = kind;
  head_hash = none;
  head_prev_chain = last_hash s;
  head_prev_length = last_id s;
  opened_at_ms = some now;
  closed_at_ms = none;
  state = opened;
  note = none;
}

module _ (V : Type 0) ⦃json : Json V⦄ (sha256_hex : String → String) where
  -- `now` is the instant that the operation reads first, `stamp` the one that `AuditEvent::new` reads.
  abbrev pub record_segment : Segment → ℤ → AuditStore → Db Segment
  record_segment seg stamp s = and_then (insert_segment seg s) λ _ t.
      or_undo
        (append {V = V} sha256_hex
          (new_event stamp "host" action_segment_opened (segment_opened_detail seg)) t)
        (delete_segment seg.segment_id) seg

  abbrev pub open_as : Option String → SegmentKind → ℤ → ℤ → AuditStore → Db Segment
  open_as none kind now stamp s = (err (other "could not mint a segment id"), s)
  open_as (some id) kind now stamp s = record_segment (fresh_segment id kind now s) stamp s

  unfoldable pub open_segment_inner : SegmentKind → Option String → ℤ → ℤ → AuditStore → Db Segment
  open_segment_inner kind owner now stamp s = open_as (free_segment_id now owner s) kind now stamp s

  unfoldable pub open_segment : SegmentKind → ℤ → ℤ → AuditStore → Db Segment
  unfolding open_segment_inner
  open_segment kind now stamp s = open_segment_inner kind none now stamp s

  unfoldable pub open_segment_for : SegmentKind → String → ℤ → ℤ → AuditStore → Db Segment
  unfolding open_segment_inner
  open_segment_for kind owner now stamp s = open_segment_inner kind (some owner) now stamp s

  abbrev pub close_found : Option Segment → String → ℤ → ℤ → AuditStore → Db Segment
  close_found none id now stamp s = (err (other (concat ("no segment " ∷ id ∷ []))), s)
  close_found (some seg) id now stamp s = and_then (set_segment_state id closed (some now) s) λ _ t.
      or_undo
        (append {V = V} sha256_hex
          (new_event stamp "host" action_segment_closed (segment_closed_detail id now)) t)
        (set_segment_state id opened none) (record seg { state = closed; closed_at_ms = some now })

  unfoldable pub close_segment : String → ℤ → ℤ → AuditStore → Db Segment
  close_segment id now stamp s = close_found (segment id s) id now stamp s

-- A segment that stood in on another node, as the centre records it.
abbrev pub adopted_segment : String → Option String → Option ℤ → Segment
adopted_segment id head_prev_chain head_prev_length = record {
  segment_id = id;
  kind = temporary;
  head_hash = none;
  head_prev_chain = head_prev_chain;
  head_prev_length = head_prev_length;
  opened_at_ms = none;
  closed_at_ms = none;
  state = closed;
  note = some "adopted from another node";
}

unfoldable pub adopt_segment : String → Option String → Option ℤ → AuditStore → Db (Unit {0})
adopt_segment id head_prev_chain head_prev_length s =
    if is_some (segment id s)
    then (ok tt, s)
    else insert_segment (adopted_segment id head_prev_chain head_prev_length) s
