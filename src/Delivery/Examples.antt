-- ===== src/Delivery/Examples.antt =====
-- A delivery of one event, and of two in the other order (net/src/suppression.rs).
use riscdom.Prelude.{String, [], err, false, none, ok, refl, some, sym, true, ◌↔◌, ◌∙◌, ◌∷◌, ◌≡◌}
use riscdom.Prelude.Int.{pos}
use riscdom.Json.{Json}
use riscdom.Event.{RawRow, StoredEvent}
use riscdom.Chain.{compute_hash}
use riscdom.Store.Merge.{stored_rows}
use riscdom.Delivery.{
  SegmentDone, SegmentEvent, insert_sorted, positions_problem, range, sort, verify_delivery,
  verify_linkage,
}
use riscdom.Delivery.Sender.{segment_frames}
use riscdom.Delivery.Linkage.{IsStream, verify_linkage_iff}
use riscdom.Delivery.Sent.{WritesAgain, verify_linkage-segment_frames}

abbrev toy : Json String
toy = record {
  get = λ v key. none;
  as_str = λ v. some v;
  as_u64 = λ v. none;
  as_i64 = λ v. none;
  as_bool = λ v. none;
  is_null = λ v. false;
  object = λ members. "";
  remove = λ key v. v;
  null = "";
  str = λ s. s;
  num = λ n. "";
  int = λ n. "";
  beq = λ v w. true;
  to_string = λ v. some v;
  from_str = λ s. some s;
}

-- In place of the digest, the text itself.
abbrev plain : String → String
plain s = s

abbrev row : RawRow
row = record {
  id = pos 7;
  timestamp_ms = pos 1000;
  actor = "agent";
  action = "tool.call";
  detail_json = "one";
  prev_hash = "marker";
  hash = compute_hash plain "marker" (pos 1000) "agent" "tool.call" "one";
  agent_id = none;
}

abbrev sent : SegmentEvent String
sent = record {
  segment_id = "seg-edge-1500";
  centre = "centre";
  index = 0;
  total = 1;
  ts = pos 1000;
  actor = "agent";
  action = "tool.call";
  agent_id = none;
  detail = "one";
  hash = some row.hash;
  prev_hash = some "marker";
}

abbrev done : SegmentDone
done = record {
  segment_id = "seg-edge-1500";
  centre = "centre";
  total = 2;
  head_prev_chain = none;
  anchor_length = none;
  anchor_hash = none;
}

other_order : verify_delivery "centre" done (record sent { index = 1 } ∷ sent ∷ []) ≡ ok tt
unfolding verify_delivery sort insert_sorted range
other_order = refl

twice : verify_delivery "centre" done (sent ∷ sent ∷ []) ≡ err (positions_problem 2 (0 ∷ 0 ∷ []))
unfolding verify_delivery sort insert_sorted range
twice = refl

verify_linkage_iff_example :
    (verify_linkage ⦃json = toy⦄ plain (sent ∷ []) ≡ ok tt)
    ↔ ((false ≡ false) × IsStream ⦃json = toy⦄ plain none (sent ∷ []))
verify_linkage_iff_example = verify_linkage_iff ⦃json = toy⦄ plain (sent ∷ [])

writes_again : WritesAgain toy
writes_again = record { again = λ v w s e f. sym f ∙ refl }

-- The row as an event, read back from the store.
abbrev stored : StoredEvent String
stored = record {
  id = pos 7;
  event = record {
    timestamp_ms = pos 1000;
    actor = "agent";
    action = "tool.call";
    detail = "one";
    agent_id = none;
  };
  prev_hash = "marker";
  hash = row.hash;
}

read_back : stored_rows ⦃json = toy⦄ (row ∷ []) ≡ ok (stored ∷ [])
unfolding stored_rows
read_back = refl

verify_linkage-segment_frames_example :
    let (frames, finished) =
      segment_frames
        (stored ∷ [])
        "seg-edge-1500"
        "centre"
        (some "marker")
        (some (pos 6))
        (some "marker") in
    (verify_delivery "centre" finished frames ≡ ok tt)
    × (verify_linkage ⦃json = toy⦄ plain frames ≡ ok tt)
verify_linkage-segment_frames_example =
    verify_linkage-segment_frames ⦃json = toy⦄ writes_again plain "marker" row [] (stored ∷ [])
      "seg-edge-1500" "centre" (some "marker") (some (pos 6)) (some "marker") read_back
      (("one", refl), tt) ((refl, refl), tt)
