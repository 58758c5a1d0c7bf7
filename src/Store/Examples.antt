-- ===== src/Store/Examples.antt =====
-- A small store on which a segment is opened and closed (audit/src/store.rs).
use riscdom.Prelude.{List, String, [], false, insert, length, lookup, ok, refl, some, ◌++◌, ◌≡◌}
use riscdom.Prelude.Int.{pos, ◌+ℤ◌}
use riscdom.Prelude.Text.{show_i64}
use riscdom.Event.{RawRow}
use riscdom.Chain.{compute_hash, intact, verify_chain}
use riscdom.Segment.{
  Segment, is_safe, pop_dots, safe_chars, safe_owner, segment_closed_detail, segment_opened_detail,
  temporary,
}
use riscdom.Store.{
  Db, append, append_once, append_with, chain_event, insert_row, is_lock_error, last_hash, last_id,
  retry, sqlite, write,
}
use riscdom.Store.Segments.{
  close_segment, free_segment_id, insert_segment, open_segment_inner, update_segment,
}
use riscdom.Store.Rows.{count_id}
use riscdom.Store.Runs.{run-append_only, verify_chain-run}
use riscdom.Store.Opening.{HasOpened, open_segment_inner_lem}
use riscdom.Store.Toy.{closed_store, empty, life, opened_segment, plain, show, toy}

three_rows : length closed_store.rows ≡ 3
unfolding append_with retry append_once write chain_event insert_row last_id last_hash
    open_segment_inner free_segment_id insert_segment insert lookup append close_segment
    update_segment safe_owner safe_chars is_safe pop_dots show_i64 compute_hash
    segment_opened_detail segment_closed_detail ◌+ℤ◌
three_rows = refl

run-append_only_example : (tail : List RawRow) × (closed_store.rows ≡ [] ++ tail)
run-append_only_example = run-append_only String ⦃json = toy⦄ plain show life empty

verify_chain-run_example :
    (verify_chain plain closed_store.rows ≡ intact (length closed_store.rows))
    × (last_id closed_store ≡ count_id (length closed_store.rows))
verify_chain-run_example = verify_chain-run String ⦃json = toy⦄ plain show life empty (tt, tt)

not_locked : is_lock_error (sqlite "disk full") ≡ false
unfolding is_lock_error
not_locked = refl

abbrev opened_now : Db Segment
opened_now =
    open_segment_inner String ⦃json = toy⦄ plain temporary (some "edge") (pos 1500) (pos 1501) empty

opened_well : opened_now ≡ (ok opened_segment, opened_now.1)
unfolding append_with retry append_once write chain_event insert_row last_id last_hash
    open_segment_inner free_segment_id insert_segment insert lookup append safe_owner safe_chars
    is_safe pop_dots show_i64 compute_hash segment_opened_detail ◌+ℤ◌
opened_well = refl

open_segment_inner_lem_example :
    HasOpened String ⦃json = toy⦄ plain temporary
      (pos 1500)
      (pos 1501)
      empty
      opened_segment
      opened_now.1
open_segment_inner_lem_example =
    open_segment_inner_lem String ⦃json = toy⦄ plain temporary (some "edge") (pos 1500) (pos 1501)
      empty opened_segment opened_now.1 opened_well
