-- ===== src/Store/MergeGrows.antt =====
-- A merge only appends to the rows (audit/src/store.rs).
use riscdom.Prelude.{
  Bool, List, Option, Result, String, [], err, false, if◌then◌else◌, length, none, not, ok, refl,
  some, suc, true, ℕ, ◌∷◌,
}
use riscdom.Prelude.Int.{ℤ}
use riscdom.Event.{StoredEvent}
use riscdom.Json.{Json}
use riscdom.Segment.{
  Segment, action_segment_forked, action_segment_merged, folded, folded_outcome, forked,
  forked_outcome, segment_forked_detail, segment_merged_detail,
}
use riscdom.Store.{AuditError, AuditStore, Db, and_then, append, last_hash, new_event, with_ok}
use riscdom.Store.Segments.{segment}
use riscdom.Store.Merge.{
  find_conflict, fold_segment, fork_reason, has_partial_merge, is_mergeable, is_temporary,
  mark_segment_folded, mark_segment_forked, merge_events, merge_found, merge_known, merge_segment,
  merged_already, noting, outgoing, partial_note, record_fork, set_segment_note, stored_rows,
  transcribe,
}
use riscdom.Store.Rows.{Grows, Grows-same, Grows-trans, and_then-Grows, with_ok-Grows}
use riscdom.Store.AppendGrows.{append-Grows}
use riscdom.Store.Grows.{update_segment-Grows}

module _ (V : Type 0) ⦃json : Json V⦄ (sha256_hex : String → String)
    (show_error : AuditError → String) (segment_store : String → Result AuditStore AuditError) where
  noting-Grows :
      (s : AuditStore) (x : Db (StoredEvent V)) (note : AuditError → AuditStore → Db (Unit {0}))
      (k : AuditStore → Db ℕ)
      → Grows sha256_hex s x.1
      → ((e : AuditError) (t : AuditStore) → Grows sha256_hex t (note e t).1)
      → ((t : AuditStore) → Grows sha256_hex t (k t).1)
      → Grows sha256_hex s (noting V sha256_hex show_error segment_store x note k).1
  noting-Grows s (ok stored, t) note k g n h = Grows-trans sha256_hex s t (k t).1 g (h t)
  noting-Grows s (err e, t) note k g n h = Grows-trans sha256_hex s t (note e t).1 g (n e t)

  transcribe-Grows :
      (id : String) (merged total : ℕ) (es : List (StoredEvent V)) (s : AuditStore)
      → Grows sha256_hex s (transcribe V sha256_hex show_error segment_store id merged total es s).1
  unfolding transcribe
  transcribe-Grows id merged total [] s = Grows-same sha256_hex s s refl
  transcribe-Grows id merged total (e ∷ es) s =
      noting-Grows s (append sha256_hex (outgoing e.event) s)
        (λ x.
          set_segment_note id (partial_note V sha256_hex show_error segment_store merged total x))
        (λ t. transcribe V sha256_hex show_error segment_store id (suc merged) total es t)
        (append-Grows sha256_hex (outgoing e.event) s)
        (λ x t.
          update_segment-Grows sha256_hex id
            (λ g. record g {
              note = some (partial_note V sha256_hex show_error segment_store merged total x);
            })
            t)
        (λ t. transcribe-Grows id (suc merged) total es t)

  record_fork-Grows :
      (id : String) (seg : Segment) (conflict : String × String × ℤ) (now stamp : ℤ)
      (s : AuditStore)
      → Grows sha256_hex s
          (record_fork V sha256_hex show_error segment_store id seg conflict now stamp s).1
  unfolding record_fork
  record_fork-Grows id seg (actor, action, row_id) now stamp s =
      let reason = fork_reason (actor, action, row_id) in
      let forking =
        new_event {V = V} stamp "host" action_segment_forked
          (segment_forked_detail id seg.kind now reason (some row_id)) in
      and_then-Grows sha256_hex s (append sha256_hex forking s)
        (λ _ t. and_then (mark_segment_forked id reason t) λ _ u. (ok (forked_outcome reason), u))
        (append-Grows sha256_hex forking s)
        λ a t.
          and_then-Grows sha256_hex t (mark_segment_forked id reason t)
            (λ _ u. (ok (forked_outcome reason), u))
            (update_segment-Grows sha256_hex id
              (λ g. record g { state = forked; note = some reason }) t)
            λ b u. Grows-same sha256_hex u u refl

  fold_segment-Grows :
      (id : String) (seg : Segment) (es : List (StoredEvent V)) (now stamp : ℤ) (s : AuditStore)
      → Grows sha256_hex s
          (fold_segment V sha256_hex show_error segment_store id seg es now stamp s).1
  unfolding fold_segment
  fold_segment-Grows id seg es now stamp s =
      and_then-Grows sha256_hex s
        (transcribe V sha256_hex show_error segment_store id 0 (length es) es s)
        (λ merged t.
          and_then
            (append {V = V} sha256_hex
              (new_event stamp "host" action_segment_merged
                (segment_merged_detail id seg.kind now merged))
              t)
            λ _ u.
              and_then (mark_segment_folded id (last_hash u) u)
                λ _ v. (ok (folded_outcome merged), v))
        (transcribe-Grows id 0 (length es) es s)
        λ merged t.
          let merging =
            new_event {V = V} stamp "host" action_segment_merged
              (segment_merged_detail id seg.kind now merged) in
          and_then-Grows sha256_hex t (append sha256_hex merging t)
            (λ _ u.
              and_then (mark_segment_folded id (last_hash u) u)
                λ _ v. (ok (folded_outcome merged), v))
            (append-Grows sha256_hex merging t)
            λ a u.
              and_then-Grows sha256_hex u (mark_segment_folded id (last_hash u) u)
                (λ _ v. (ok (folded_outcome merged), v))
                (update_segment-Grows sha256_hex id
                  (λ g. record g { state = folded; head_hash = last_hash u }) u)
                λ b v. Grows-same sha256_hex v v refl

  merge_found-Grows :
      (o : Option (String × String × ℤ)) (id : String) (seg : Segment) (es : List (StoredEvent V))
      (now stamp : ℤ) (s : AuditStore)
      → Grows sha256_hex s
          (merge_found V sha256_hex show_error segment_store o id seg es now stamp s).1
  merge_found-Grows none id seg es now stamp s = fold_segment-Grows id seg es now stamp s
  merge_found-Grows (some conflict) id seg es now stamp s =
      record_fork-Grows id seg conflict now stamp s

  merge_events-Grows :
      (id : String) (seg : Segment) (now stamp : ℤ) (s : AuditStore)
      → Grows sha256_hex s (merge_events V sha256_hex show_error segment_store id seg now stamp s).1
  unfolding merge_events
  merge_events-Grows id seg now stamp s =
      with_ok-Grows sha256_hex s (segment_store id)
        (λ file. with_ok (stored_rows {V = V} file.rows) s λ events.
          with_ok (find_conflict events s.rows) s λ conflict.
            merge_found V sha256_hex show_error segment_store conflict id seg events now stamp s)
        λ file.
          with_ok-Grows sha256_hex s (stored_rows {V = V} file.rows)
            (λ events. with_ok (find_conflict events s.rows) s λ conflict.
              merge_found V sha256_hex show_error segment_store conflict id seg events now stamp s)
            λ events.
              with_ok-Grows sha256_hex s (find_conflict events s.rows)
                (λ conflict.
                  merge_found V sha256_hex show_error segment_store conflict id seg events now stamp
                    s)
                λ conflict. merge_found-Grows conflict id seg events now stamp s

  if-Grows :
      {A : Type 0} (b : Bool) (s : AuditStore) (x y : Db A)
      → Grows sha256_hex s x.1
      → Grows sha256_hex s y.1
      → Grows sha256_hex s (if b then x else y).1
  if-Grows true s x y g h = g
  if-Grows false s x y g h = h

  merge_known-Grows :
      (o : Option Segment) (id : String) (now stamp : ℤ) (s : AuditStore)
      → Grows sha256_hex s (merge_known V sha256_hex show_error segment_store o id now stamp s).1
  merge_known-Grows none id now stamp s = Grows-same sha256_hex s s refl
  merge_known-Grows (some seg) id now stamp s =
      if-Grows (not (is_temporary seg.kind)) s _ _ (Grows-same sha256_hex s s refl) (
        if-Grows (not (is_mergeable seg.state)) s _ _ (Grows-same sha256_hex s s refl) (
          with_ok-Grows sha256_hex s (merged_already V id s.rows) _ λ already.
            if-Grows already s _ _ (Grows-same sha256_hex s s refl) (
              if-Grows (has_partial_merge seg) s _ _ (Grows-same sha256_hex s s refl)
                (merge_events-Grows id seg now stamp s))))

  pub merge_segment-Grows :
      (id : String) (now stamp : ℤ) (s : AuditStore)
      → Grows sha256_hex s (merge_segment V sha256_hex show_error segment_store id now stamp s).1
  unfolding merge_segment
  merge_segment-Grows id now stamp s = merge_known-Grows (segment id s) id now stamp s
