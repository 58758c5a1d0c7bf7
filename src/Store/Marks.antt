-- ===== src/Store/Marks.antt =====
-- Which segments the chain says were merged, and which a merge accepts (audit/src/store.rs).
use text.Mathlib.Text.{starts_with}
use riscdom.Prelude.{
  All, List, String, [], arith, eq_iff, false, inl, inr, not, ok, refl, some, true, ◌++◌, ◌∷◌, ◌≡◌,
  ◌≢◌, ◌⊎◌,
}
use riscdom.Event.{RawRow}
use riscdom.Json.{Json, get_str}
use riscdom.Segment.{
  Segment, SegmentKind, SegmentState, action_segment_merged, closed, folded, forked, main, opened,
  partial_merge_recorded, temporary,
}
use riscdom.Store.{AuditStore}
use riscdom.Store.Segments.{segment}
use riscdom.Store.Merge.{has_partial_merge, is_mergeable, is_temporary, merged_already}

module _ (V : Type 0) ⦃json : Json V⦄ where
  -- A row that says that the segment was merged.
  abbrev pub Marks : String → RawRow → Type 0
  Marks id row =
      (row.action ≡ action_segment_merged)
      × ((detail : V) × (json.from_str row.detail_json ≡ some detail)
          × (get_str detail "segment_id" ≡ some id))

  merged_already-next :
      (id : String) (row : RawRow) (rows : List RawRow)
      → merged_already V id (row ∷ rows) ≡ ok false
      → merged_already V id rows ≡ ok false
  unfolding merged_already
  merged_already-next id row rows h = ground arith

  merged_already-head :
      (id : String) (row : RawRow) (rows : List RawRow)
      → Marks id row
      → merged_already V id (row ∷ rows) ≢ ok false
  unfolding merged_already
  merged_already-head id row rows m h =
      ground (arith, eq_iff row.action action_segment_merged, eq_iff id id, m.0, m.1.1, m.1.2)

  -- Where a row says so, not every row is one that does not.
  pub Unmarked-Marks :
      (id : String) (before : List RawRow) (row : RawRow) (after : List RawRow)
      → Marks id row
      → ¬ All (λ r. ¬ Marks id r) (before ++ row ∷ after)
  Unmarked-Marks id [] row after m h = h.0 m
  Unmarked-Marks id (r ∷ before) row after m h = Unmarked-Marks id before row after m h.1

  -- The chain says of a segment that was not merged nowhere that it was.
  pub merged_already-none :
      (id : String) (rows : List RawRow)
      → merged_already V id rows ≡ ok false
      → All (λ row. ¬ Marks id row) rows
  merged_already-none id [] h = tt
  merged_already-none id (row ∷ rows) h = (
    λ m. merged_already-head id row rows m h,
    merged_already-none id rows (merged_already-next id row rows h),
  )

  -- A segment that a merge accepts: a temporary one, open or closed, whose note tells of no partial
  -- merge, and of which no row says that it was merged.
  abbrev pub IsMergeable : String → Segment → AuditStore → Type 0
  IsMergeable id seg s =
      (segment id s ≡ some seg)
      × (seg.kind ≡ temporary)
      × ((seg.state ≡ opened) ⊎ (seg.state ≡ closed))
      × All (λ row. ¬ Marks id row) s.rows
      × (¬ (
          (note : String) × (seg.note ≡ some note)
          × (starts_with note "merge failed after " ≡ true)))

  pub temporary-only : (kind : SegmentKind) → not (is_temporary kind) ≡ false → kind ≡ temporary
  temporary-only main h = cc
  temporary-only temporary h = refl

  pub opened-or_closed :
      (state : SegmentState)
      → not (is_mergeable state) ≡ false
      → (state ≡ opened) ⊎ (state ≡ closed)
  opened-or_closed opened h = inl refl
  opened-or_closed closed h = inr refl
  opened-or_closed folded h = absurd cc
  opened-or_closed forked h = absurd cc

  pub no_partial_merge :
      (seg : Segment)
      → has_partial_merge seg ≡ false
      → ¬ (
          (note : String) × (seg.note ≡ some note)
          × (starts_with note "merge failed after " ≡ true))
  unfolding partial_merge_recorded
  no_partial_merge seg h (note, noted, partial) = let found = rw noted at h in cc (found, partial)
