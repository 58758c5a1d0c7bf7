-- ===== src/Store/MergeExamples.antt =====
-- The merge of a segment on a small store (audit/src/store.rs).
use riscdom.Prelude.{
  List, String, [], err, insert, lookup, none, ok, refl, some, ℕ, ◌++◌, ◌∷◌, ◌≡◌, ◌≢◌,
}
use riscdom.Prelude.Int.{pos, ◌+ℤ◌}
use riscdom.Prelude.Text.{show_i64}
use riscdom.Event.{RawRow, StoredEvent}
use riscdom.Chain.{compute_hash}
use riscdom.Segment.{
  MergeOutcome, Segment, cleared_detail, folded_outcome, forked_outcome, is_safe,
  partial_merge_recorded, pop_dots, safe_chars, safe_owner, segment_closed_detail,
  segment_forked_detail, segment_merged_detail, segment_opened_detail, temporary,
}
use riscdom.Store.{
  AuditStore, Db, append, append_once, append_with, chain_event, insert_row, is_lock_error,
  last_hash, last_id, retry, sqlite, write,
}
use riscdom.Store.Segments.{
  close_segment, free_segment_id, insert_segment, open_segment_inner, segment, update_segment,
}
use riscdom.Store.Merge.{
  find_conflict, fold_segment, into_stored, main_chain_row_with, merge_events, merge_segment,
  merged_already, record_fork, stored_rows, transcribe,
}
use riscdom.Store.Runs.{closing, run}
use riscdom.Store.Outcomes.{Transcribed, merge_event}
use riscdom.Store.Marks.{IsMergeable}
use riscdom.Store.Merged.{MergeEnds, merge_segment_lem}
use riscdom.Store.Once.{merged_once}
use riscdom.Store.Retry.{with_answers}
use riscdom.Store.Unmarked.{fold_segment-unmarked}
use riscdom.Store.Toy.{
  closed_store, edge, empty, opened_segment, own_file, plain, show, stored_two, toy, toy_laws,
}

abbrev merged : Db MergeOutcome
merged =
    merge_segment String ⦃json = toy⦄ plain show (λ id. own_file) edge (pos 3000) (pos 3001)
      closed_store

merged_folded : merged ≡ (ok (folded_outcome 1), merged.1)
unfolding append_with retry append_once write chain_event insert_row last_id last_hash
    open_segment_inner free_segment_id insert_segment insert lookup append close_segment
    update_segment safe_owner safe_chars is_safe pop_dots show_i64 compute_hash
    segment_opened_detail segment_closed_detail ◌+ℤ◌ merge_segment merged_already
    partial_merge_recorded merge_events stored_rows into_stored find_conflict main_chain_row_with
    fold_segment transcribe segment_merged_detail cleared_detail
merged_folded = refl

merge_segment_lem_example :
    (seg : Segment) × IsMergeable String ⦃json = toy⦄ edge seg closed_store
    × MergeEnds String ⦃json = toy⦄ plain show
        (λ id. own_file)
        edge
        seg
        (pos 3000)
        (pos 3001)
        closed_store
        (folded_outcome 1)
        merged.1
merge_segment_lem_example =
    merge_segment_lem String ⦃json = toy⦄ plain show (λ id. own_file) edge (pos 3000) (pos 3001)
      closed_store (folded_outcome 1) merged.1 merged_folded

merged_once_example :
    merge_segment String ⦃json = toy⦄ plain show
      (λ id. own_file)
      edge
      (pos 5000)
      (pos 5001)
      (run String ⦃json = toy⦄ plain show (closing edge (pos 4000) (pos 4001) ∷ []) merged.1)
    ≢ (ok (folded_outcome 1), empty)
merged_once_example =
    merged_once String ⦃json = toy⦄ toy_laws plain show (λ id. own_file) (λ id. own_file) edge
      (pos 3000) (pos 3001) closed_store 1 merged.1 merged_folded
      (closing edge (pos 4000) (pos 4001) ∷ []) (pos 5000) (pos 5001) (folded_outcome 1) empty

-- Every event is transcribed and then the append of the marker fails: no partial merge is noted, and
-- the next merge takes the transcripts for a conflict.
abbrev half : Db MergeOutcome
half =
    merge_segment String ⦃json = toy⦄ plain show (λ id. own_file) edge (pos 3000) (pos 3001)
      (with_answers (none ∷ some (sqlite "disk full") ∷ []) closed_store)

marker_fails : half.0 ≡ err (sqlite "disk full")
unfolding append_with retry append_once write chain_event insert_row last_id last_hash
    open_segment_inner free_segment_id insert_segment insert lookup append close_segment
    update_segment safe_owner safe_chars is_safe pop_dots show_i64 compute_hash
    segment_opened_detail segment_closed_detail ◌+ℤ◌ merge_segment merged_already
    partial_merge_recorded merge_events stored_rows into_stored find_conflict main_chain_row_with
    fold_segment transcribe segment_merged_detail cleared_detail is_lock_error
marker_fails = refl

forked_by_retry :
    (merge_segment String ⦃json = toy⦄ plain show
      (λ id. own_file)
      edge
      (pos 4000)
      (pos 4001)
      half.1).0
    ≡ ok (forked_outcome "conflicts with the main chain at event 4: agent tool.call; not merged")
unfolding append_with retry append_once write chain_event insert_row last_id last_hash
    open_segment_inner free_segment_id insert_segment insert lookup append close_segment
    update_segment safe_owner safe_chars is_safe pop_dots show_i64 compute_hash
    segment_opened_detail segment_closed_detail ◌+ℤ◌ merge_segment merged_already
    partial_merge_recorded merge_events stored_rows into_stored find_conflict main_chain_row_with
    fold_segment transcribe segment_merged_detail cleared_detail is_lock_error record_fork
    segment_forked_detail
forked_by_retry = refl

abbrev short_of_one : AuditStore
short_of_one = with_answers (none ∷ some (sqlite "disk full") ∷ []) closed_store

abbrev transcribed : Db ℕ
transcribed =
    transcribe String ⦃json = toy⦄ plain show (λ id. own_file) edge 0 1 (stored_two ∷ [])
      short_of_one

abbrev marker : Db (StoredEvent String)
marker =
    append ⦃json = toy⦄ plain
      (merge_event String ⦃json = toy⦄ plain show (λ id. own_file) edge temporary (pos 3000)
        (pos 3001) 1)
      transcribed.1

all_transcribed : transcribed ≡ (ok 1, transcribed.1)
unfolding append_with retry append_once write chain_event insert_row last_id last_hash
    open_segment_inner free_segment_id insert_segment insert lookup append close_segment
    update_segment safe_owner safe_chars is_safe pop_dots show_i64 compute_hash
    segment_opened_detail segment_closed_detail ◌+ℤ◌ transcribe cleared_detail
all_transcribed = refl

no_marker : marker ≡ (err (sqlite "disk full"), marker.1)
unfolding append_with retry append_once write chain_event insert_row last_id last_hash
    open_segment_inner free_segment_id insert_segment insert lookup append close_segment
    update_segment safe_owner safe_chars is_safe pop_dots show_i64 compute_hash
    segment_opened_detail segment_closed_detail ◌+ℤ◌ transcribe cleared_detail is_lock_error
    segment_merged_detail
no_marker = refl

fold_segment-unmarked_example :
    (fold_segment String ⦃json = toy⦄ plain show
        (λ id. own_file)
        edge
        opened_segment
        (stored_two ∷ [])
        (pos 3000)
        (pos 3001)
        short_of_one
      ≡ (err (sqlite "disk full"), marker.1))
    × ((rows : List RawRow) × (marker.1.rows ≡ short_of_one.rows ++ rows)
        × Transcribed ⦃json = toy⦄ (stored_two ∷ []) rows)
    × (segment edge marker.1 ≡ segment edge short_of_one)
fold_segment-unmarked_example =
    fold_segment-unmarked String ⦃json = toy⦄ plain show (λ id. own_file) edge opened_segment
      (stored_two ∷ []) (pos 3000) (pos 3001) short_of_one 1 transcribed.1 (sqlite "disk full")
      marker.1 all_transcribed no_marker
