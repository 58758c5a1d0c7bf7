-- ===== src/Delivery/Sender.antt =====
-- host-core/src/state.rs, `segment_frames`: the stream that a closed segment travels as.
use riscdom.Prelude.{List, Option, String, [], length, none, some, suc, ℕ, ◌∷◌}
use riscdom.Prelude.Int.{negsuc, pos, ℤ}
use riscdom.Event.{StoredEvent}
use riscdom.Delivery.{SegmentDone, SegmentEvent}

-- `u64::try_from`.
abbrev as_u64 : ℤ → Option ℕ
as_u64 (pos n) = some n
as_u64 (negsuc n) = none

module _ {V : Type 0} where
  abbrev pub frame_of : String → String → (total index : ℕ) → StoredEvent V → SegmentEvent V
  frame_of segment_id centre total index stored = record {
    segment_id = segment_id;
    centre = centre;
    index = index;
    total = total;
    ts = stored.event.timestamp_ms;
    actor = stored.event.actor;
    action = stored.event.action;
    agent_id = stored.event.agent_id;
    detail = stored.event.detail;
    hash = some stored.hash;
    prev_hash = some stored.prev_hash;
  }

  -- The events from position `index` on.
  unfoldable pub frames_from :
      String → String → (total index : ℕ) → List (StoredEvent V) → List (SegmentEvent V)
  frames_from segment_id centre total index [] = []
  frames_from segment_id centre total index (stored ∷ events) =
      frame_of segment_id centre total index stored
      ∷ frames_from segment_id centre total (suc index) events

  unfoldable pub segment_frames :
      List (StoredEvent V)
      → String
      → String
      → Option String
      → Option ℤ
      → Option String
      → List (SegmentEvent V) × SegmentDone
  unfolding frames_from
  segment_frames events segment_id centre head_prev_chain head_prev_length anchor_hash =
      let total = length events in
      (
        frames_from segment_id centre total 0 events,
        record {
          segment_id = segment_id;
          centre = centre;
          total = total;
          head_prev_chain = head_prev_chain;
          anchor_length = elim head_prev_length [ none ↦ none | some id ↦ as_u64 id ];
          anchor_hash = anchor_hash;
        },
      )
