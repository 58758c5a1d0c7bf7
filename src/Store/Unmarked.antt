-- ===== src/Store/Unmarked.antt =====
-- A merge whose marker cannot be appended (audit/src/store.rs).
use riscdom.Prelude.{List, Result, String, ap, err, length, lookup, ok, ℕ, ◌++◌, ◌∙◌, ◌≡◌}
use riscdom.Prelude.Int.{ℤ}
use riscdom.Event.{AuditEvent, RawRow, StoredEvent}
use riscdom.Json.{Json}
use riscdom.Segment.{Segment, folded_outcome}
use riscdom.Store.{AuditError, AuditStore, Db, and_then, append, last_hash}
use riscdom.Store.Segments.{segment}
use riscdom.Store.Merge.{fold_segment, mark_segment_folded, transcribe}
use riscdom.Store.Success.{SameData, append-Appended}
use riscdom.Store.Outcomes.{Transcribed, merge_event, transcribe-Transcripts}

module _ (V : Type 0) ⦃json : Json V⦄ (sha256_hex : String → String)
    (show_error : AuditError → String) (segment_store : String → Result AuditStore AuditError) where
  append-fails :
      (event : AuditEvent V) (s : AuditStore) (e : AuditError) (t : AuditStore)
      → append sha256_hex event s ≡ (err e, t)
      → SameData s t
  append-fails event s e t h = let a = append-Appended sha256_hex event s in rw h at a

  -- When all the events of a segment are transcribed and then the append of the merge's marker fails,
  -- the merge fails with that error; the transcripts are on the chain, and the segment's row is as it
  -- was: no partial merge is noted there.
  pub fold_segment-unmarked :
      (id : String) (seg : Segment) (es : List (StoredEvent V)) (now stamp : ℤ) (s : AuditStore)
      (n : ℕ) (u : AuditStore) (e : AuditError) (t : AuditStore)
      → transcribe V sha256_hex show_error segment_store id 0 (length es) es s ≡ (ok n, u)
      → append sha256_hex
          (merge_event V sha256_hex show_error segment_store id seg.kind now stamp n)
          u
        ≡ (err e, t)
      → (fold_segment V sha256_hex show_error segment_store id seg es now stamp s ≡ (err e, t))
        × ((rows : List RawRow) × (t.rows ≡ s.rows ++ rows) × Transcribed es rows)
        × (segment id t ≡ segment id s)
  unfolding fold_segment
  fold_segment-unmarked id seg es now stamp s n u e t p q =
      let (rows, r, tr, count, segs) =
        transcribe-Transcripts V sha256_hex show_error segment_store id 0 (length es) es n s u p in
      let (same_rows, same_segs) =
        append-fails (merge_event V sha256_hex show_error segment_store id seg.kind now stamp n) u e
          t q in
      (
        ap
              (λ x. and_then x λ merged v.
                and_then
                  (append {V = V} sha256_hex
                    (merge_event V sha256_hex show_error segment_store id seg.kind now stamp merged)
                    v)
                  λ _ w.
                    and_then (mark_segment_folded id (last_hash w) w)
                      λ _ z. (ok (folded_outcome merged), z))
              p
            ∙ ap
                (λ (x : Db (StoredEvent V)). and_then x λ _ w.
                  and_then (mark_segment_folded id (last_hash w) w)
                    λ _ z. (ok (folded_outcome n), z))
                q,
        (rows, same_rows ∙ r, tr),
        ap (lookup id) (same_segs ∙ segs),
      )
