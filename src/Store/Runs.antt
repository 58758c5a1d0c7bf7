-- ===== src/Store/Runs.antt =====
-- Whatever is done with a store, its chain only grows (audit/src/store.rs).
use riscdom.Prelude.{List, Option, Result, String, [], length, refl, ℕ, ◌++◌, ◌∷◌, ◌≡◌}
use riscdom.Prelude.Int.{ℤ}
use riscdom.Event.{AuditEvent, RawRow}
use riscdom.Json.{Json}
use riscdom.Chain.{intact, verify_chain}
use riscdom.Chain.Verify.{verify_chain_iff}
use riscdom.Segment.{SegmentKind}
use riscdom.Store.{AuditError, AuditStore, append_with, last_id}
use riscdom.Store.Segments.{adopt_segment, close_segment, open_segment_inner}
use riscdom.Store.Merge.{merge_segment}
use riscdom.Store.Rows.{Grows, Grows-same, Grows-trans, IsSound, count_id, last_id-IsNumbered}
use riscdom.Store.AppendGrows.{append_with-Grows}
use riscdom.Store.Grows.{adopt_segment-Grows, close_segment-Grows, open_segment_inner-Grows}
use riscdom.Store.MergeGrows.{merge_segment-Grows}

-- One call on the store, with the instants that it reads and, for a merge, what opening the
-- segment's own store finds then.
pub data Call (V : Type 0) : Type 0 where
  appended : (attempts : ℕ) (event : AuditEvent V) → Call V
  opening : (kind : SegmentKind) (owner : Option String) (now stamp : ℤ) → Call V
  closing : (segment_id : String) (now stamp : ℤ) → Call V
  adopting : (segment_id : String) (head : Option String) (n : Option ℤ) → Call V
  merging :
      (segment_store : String → Result AuditStore AuditError) (segment_id : String) (now stamp : ℤ)
      → Call V

module _ (V : Type 0) ⦃json : Json V⦄ (sha256_hex : String → String)
    (show_error : AuditError → String) where
  abbrev pub step : Call V → AuditStore → AuditStore
  step (appended attempts event) s = (append_with sha256_hex attempts event s).1
  step (opening kind owner now stamp) s = (open_segment_inner V sha256_hex kind owner now stamp s).1
  step (closing id now stamp) s = (close_segment V sha256_hex id now stamp s).1
  step (adopting id head n) s = (adopt_segment id head n s).1
  step (merging segment_store id now stamp) s =
      (merge_segment V sha256_hex show_error segment_store id now stamp s).1

  abbrev pub run : List (Call V) → AuditStore → AuditStore
  run [] s = s
  run (c ∷ cs) s = run cs (step c s)

  step-Grows : (c : Call V) (s : AuditStore) → Grows sha256_hex s (step c s)
  step-Grows (appended attempts event) s = append_with-Grows sha256_hex attempts event s
  step-Grows (opening kind owner now stamp) s =
      open_segment_inner-Grows V sha256_hex kind owner now stamp s
  step-Grows (closing id now stamp) s = close_segment-Grows V sha256_hex id now stamp s
  step-Grows (adopting id head n) s = adopt_segment-Grows sha256_hex id head n s
  step-Grows (merging segment_store id now stamp) s =
      merge_segment-Grows V sha256_hex show_error segment_store id now stamp s

  pub run-Grows : (cs : List (Call V)) (s : AuditStore) → Grows sha256_hex s (run cs s)
  run-Grows [] s = Grows-same sha256_hex s s refl
  run-Grows (c ∷ cs) s =
      Grows-trans sha256_hex s (step c s) (run cs (step c s)) (step-Grows c s)
        (run-Grows cs (step c s))

  -- Whatever calls are made on a store (appends, segments opened, closed, adopted and merged), and
  -- whatever the database answers, every row stays as it was, in front of the new ones.
  pub run-append_only :
      (cs : List (Call V)) (s : AuditStore)
      → (tail : List RawRow) × ((run cs s).rows ≡ s.rows ++ tail)
  run-append_only cs s = (run-Grows cs s).0

  -- Of a store whose rows are an intact chain with the ids 1, 2 and so on (an empty one, say),
  -- whatever calls are made and whatever the database answers, the verification of the chain finds
  -- it intact and counts all its rows, and the last id is their number.
  pub verify_chain-run :
      (cs : List (Call V)) (s : AuditStore)
      → IsSound sha256_hex s.rows
      → let rows = (run cs s).rows in
        (verify_chain sha256_hex rows ≡ intact (length rows))
        × (last_id (run cs s) ≡ count_id (length rows))
  verify_chain-run cs s h =
      let sound = (run-Grows cs s).1 h in
      (
        (verify_chain_iff sha256_hex (run cs s).rows (length (run cs s).rows)).1 (sound.0, refl),
        last_id-IsNumbered (run cs s) sound.1,
      )
