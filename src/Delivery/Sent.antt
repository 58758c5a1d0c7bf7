-- ===== src/Delivery/Sent.antt =====
-- What a sender makes of an intact chain passes the checks of a delivery (host-core/src/state.rs,
-- net/src/suppression.rs).
use mathlib.Core.Path.{subst}
use riscdom.Prelude.{
  All, List, Option, Result-cases, String, [], ap, arith, err, false, inl, inr, length, none, ok,
  refl, some, suc, sym, ℕ, ◌∙◌, ◌∷◌, ◌≡◌,
}
use riscdom.Prelude.Int.{ℤ}
use riscdom.Json.{Json}
use riscdom.Event.{RawRow, StoredEvent}
use riscdom.Chain.Verify.{IsChain}
use riscdom.Store.{json_error}
use riscdom.Store.Merge.{into_stored, stored_rows}
use riscdom.Delivery.{indices, is_empty, range, verify_delivery, verify_linkage}
use riscdom.Delivery.Sender.{frames_from, segment_frames}
use riscdom.Delivery.Sort.{times, times-range}
use riscdom.Delivery.Envelope.{verify_delivery_iff}
use riscdom.Delivery.Linkage.{Continues, IsStream, verify_linkage_iff}

-- What the code relies on of `serde_json`: of a text that it wrote it reads a value that it writes as
-- that text again.
pub record WritesAgain {V : Type 0} (json : Json V) : Type 0 where
  pub again :
      (v w : V) (s : String)
      → json.to_string v ≡ some s
      → json.from_str s ≡ some w
      → json.to_string w ≡ some s

-- The rows' details were written by the library.
abbrev pub AreWritten : {V : Type 0} → Json V → List RawRow → Type 0
AreWritten {V = V} json rows = All (λ row. (v : V) × (json.to_string v ≡ some row.detail_json)) rows

module _ {V : Type 0} ⦃json : Json V⦄ where
  -- An event is what a row holds.
  abbrev IsOf : RawRow → StoredEvent V → Type 0
  IsOf row e =
      (e.event.timestamp_ms ≡ row.timestamp_ms)
      × (e.event.actor ≡ row.actor)
      × (e.event.action ≡ row.action)
      × (json.from_str row.detail_json ≡ some e.event.detail)
      × (e.hash ≡ row.hash)
      × (e.prev_hash ≡ row.prev_hash)

  into_stored-IsOf : (row : RawRow) (e : StoredEvent V) → into_stored row ≡ ok e → IsOf row e
  unfolding into_stored
  into_stored-IsOf row e h = go (json.from_str row.detail_json) refl h
    where
      go :
          (d : Option V)
          → json.from_str row.detail_json ≡ d
          → (elim d [
            | none ↦ err json_error
            | some detail ↦ ok (record {
              id = row.id;
              event = record {
                timestamp_ms = row.timestamp_ms;
                actor = row.actor;
                action = row.action;
                detail = detail;
                agent_id = row.agent_id;
              };
              prev_hash = row.prev_hash;
              hash = row.hash;
            })
          ])
            ≡ ok e
          → IsOf row e
      go none d h = absurd cc
      go (some detail) d h = (
        ground (arith, h),
        ground (arith, h),
        ground (arith, h),
        d ∙ ap some (ground (arith, h)),
        ground (arith, h),
        ground (arith, h),
      )

module _ {V : Type 0} ⦃json : Json V⦄ (laws : WritesAgain json) (sha256_hex : String → String)
    (segment_id centre : String) (total : ℕ) where
  frames_from-IsStream :
      (index : ℕ) (prev : String) (before : Option String) (rows : List RawRow)
      (events : List (StoredEvent V))
      → stored_rows rows ≡ ok events
      → AreWritten json rows
      → Continues before prev
      → IsChain sha256_hex prev rows
      → IsStream sha256_hex before (frames_from segment_id centre total index events)
  unfolding stored_rows frames_from
  frames_from-IsStream index prev before [] [] e w c h = tt
  frames_from-IsStream index prev before [] (x ∷ events) e w c h = absurd cc
  frames_from-IsStream index prev before (row ∷ rows) events e ((v, text), w) c ((l, r), h) =
      elim (Result-cases (into_stored {V = V} row)) [
        | inr (why, bad) ↦ absurd (ground (arith, e, bad))
        | inl (x, read) ↦ elim (Result-cases (stored_rows {V = V} rows)) [
          | inr (why, bad) ↦ absurd (ground (arith, e, read, bad))
          | inl (xs, rest) ↦
              let all : x ∷ xs ≡ events = ground (arith, e, read, rest) in
              let (t, a, n, d, own, p) = into_stored-IsOf row x read in
              subst
                (λ es. IsStream sha256_hex before (frames_from segment_id centre total index es))
                all
                (
                  row.prev_hash,
                  row.hash,
                  (
                    ap some p,
                    ap some own,
                    (
                      row.detail_json,
                      laws.again v x.event.detail row.detail_json text d,
                      rw (t, a, n) (sym r),
                    ),
                  ),
                  rw l c,
                  frames_from-IsStream (suc index) row.hash (some row.hash) rows xs rest w refl h,
                )
        ]
      ]

  indices-frames_from :
      (index : ℕ) (events : List (StoredEvent V))
      → indices (frames_from segment_id centre total index events) ≡ range index (length events)
  unfolding frames_from range
  indices-frames_from index [] = refl
  indices-frames_from index (x ∷ events) =
      ap (λ l. index ∷ l) (indices-frames_from (suc index) events)

  some_frame :
      (row : RawRow) (rows : List RawRow) (events : List (StoredEvent V))
      → stored_rows (row ∷ rows) ≡ ok events
      → is_empty (frames_from segment_id centre total 0 events) ≡ false
  unfolding stored_rows frames_from
  some_frame row rows (x ∷ events) e = refl
  some_frame row rows [] e = elim (Result-cases (into_stored {V = V} row)) [
    | inr (why, bad) ↦ absurd (ground (arith, e, bad))
    | inl (x, read) ↦ elim (Result-cases (stored_rows {V = V} rows)) [
      | inr (why, bad) ↦ absurd (ground (arith, e, read, bad))
      | inl (xs, rest) ↦ absurd (ground (arith, e, read, rest))
    ]
  ]

  length-frames_from :
      (index : ℕ) (events : List (StoredEvent V))
      → length (frames_from segment_id centre total index events) ≡ length events
  unfolding frames_from
  length-frames_from index [] = refl
  length-frames_from index (x ∷ events) = ap suc (length-frames_from (suc index) events)

module _ {V : Type 0} ⦃json : Json V⦄ (laws : WritesAgain json) (sha256_hex : String → String) where
  -- Of the rows of an intact chain, from wherever in it and at least one, whose details `serde_json`
  -- wrote, the frames and the end that a sender makes are accepted by the node that they are addressed
  -- to: as complete, and as a chain.
  pub verify_linkage-segment_frames :
      (prev : String) (row : RawRow) (rows : List RawRow) (events : List (StoredEvent V))
      (segment_id centre : String) (head : Option String) (head_id : Option ℤ)
      (anchor : Option String)
      → stored_rows (row ∷ rows) ≡ ok events
      → AreWritten json (row ∷ rows)
      → IsChain sha256_hex prev (row ∷ rows)
      → let (frames, done) = segment_frames events segment_id centre head head_id anchor in
        (verify_delivery centre done frames ≡ ok tt) × (verify_linkage sha256_hex frames ≡ ok tt)
  unfolding segment_frames
  verify_linkage-segment_frames prev row rows events segment_id centre head head_id anchor e w h =
      let total = length events in
      let frames = frames_from segment_id centre total 0 events in
      let done = (segment_frames events segment_id centre head head_id anchor).1 in
      let stream =
        frames_from-IsStream laws sha256_hex segment_id centre total 0 prev none (row ∷ rows) events
          e w tt h in
      let counted = length-frames_from laws sha256_hex segment_id centre total 0 events in
      let placed = indices-frames_from laws sha256_hex segment_id centre total 0 events in
      (
        (verify_delivery_iff centre done frames).1
            (refl, counted, λ p. ap (times p) placed ∙ times-range p 0 total ∙ ground arith),
        (verify_linkage_iff sha256_hex frames).1
            (some_frame laws sha256_hex segment_id centre total row rows events e, stream),
      )
