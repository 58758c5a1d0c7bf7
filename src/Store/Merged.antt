-- ===== src/Store/Merged.antt =====
-- The two ends of a merge (audit/src/store.rs).
use mathlib.Core.Path.{subst}
use mathlib.Core.List.{append_assoc}
use riscdom.Prelude.{
  Bool, List, Option, Result, String, [], ap, arith, err, false, if◌then◌else◌, inl, inr, length,
  lookup, none, not, ok, refl, some, sym, true, ℕ, ◌++◌, ◌∙◌, ◌∷◌, ◌≡◌, ◌⊎◌,
}
use riscdom.Prelude.Int.{ℤ}
use riscdom.Event.{RawRow, StoredEvent}
use riscdom.Json.{Json}
use riscdom.Segment.{MergeOutcome, Segment, SegmentKind, folded, folded_outcome, forked_outcome}
use riscdom.Store.{AuditError, AuditStore, Db, and_then, append, last_hash, last_row, with_ok}
use riscdom.Store.Segments.{segment}
use riscdom.Store.Merge.{
  find_conflict, fold_segment, has_partial_merge, is_mergeable, is_temporary, mark_segment_folded,
  merge_events, merge_found, merge_known, merge_segment, merged_already, stored_rows, transcribe,
}
use riscdom.Store.Success.{Holds, and_then-inv, append-Appends, with_ok-inv}
use riscdom.Store.Outcomes.{
  HasForked, Transcribed, fork_text, merge_event, record_fork-HasForked, transcribe-Transcripts,
  update_segment-inv,
}
use riscdom.Store.Marks.{
  IsMergeable, merged_already-none, no_partial_merge, opened-or_closed, temporary-only,
}
use riscdom.Store.Conflicts.{FindEnds, find_conflict_lem}

module _ (V : Type 0) ⦃json : Json V⦄ (sha256_hex : String → String)
    (show_error : AuditError → String) (segment_store : String → Result AuditStore AuditError) where
  -- The new rows are the transcripts of the events and then the marker of the merge; the segment's
  -- row says folded, and where on the chain.
  abbrev pub HasFolded :
      String → Segment → List (StoredEvent V) → ℤ → ℤ → AuditStore → AuditStore → Type 0
  HasFolded id seg es now stamp s t =
      ((rows : List RawRow) × (row : RawRow) × (t.rows ≡ s.rows ++ (rows ++ row ∷ []))
        × Transcribed es rows
        × Holds
            (merge_event V sha256_hex show_error segment_store id seg.kind now stamp (length es))
            row)
      × (segment id t ≡ some (record seg { state = folded; head_hash = last_hash t }))

  merge_event-count :
      (id : String) (kind : SegmentKind) (now stamp : ℤ) (n m : ℕ)
      → n ≡ m
      → (row : RawRow)
      → Holds (merge_event V sha256_hex show_error segment_store id kind now stamp n) row
      → Holds (merge_event V sha256_hex show_error segment_store id kind now stamp m) row
  merge_event-count id kind now stamp n m e row h = rw e at h

  fold_segment-HasFolded :
      (id : String) (seg : Segment) (es : List (StoredEvent V)) (now stamp : ℤ) (s : AuditStore)
      (o : MergeOutcome) (t : AuditStore)
      → segment id s ≡ some seg
      → fold_segment V sha256_hex show_error segment_store id seg es now stamp s ≡ (ok o, t)
      → (o ≡ folded_outcome (length es)) × HasFolded id seg es now stamp s t
  unfolding fold_segment last_hash
  fold_segment-HasFolded id seg es now stamp s o t e h =
      let marked : ℕ → AuditStore → Db MergeOutcome = λ n u.
        and_then (mark_segment_folded id (last_hash u) u) λ _ v. (ok (folded_outcome n), v) in
      let (n, u, tr, h1) =
        and_then-inv (transcribe V sha256_hex show_error segment_store id 0 (length es) es s)
          (λ n u.
            and_then
              (append {V = V} sha256_hex
                (merge_event V sha256_hex show_error segment_store id seg.kind now stamp n) u)
              λ _ v. marked n v)
          o t h in
      let (rows, r, trs, count, g) =
        transcribe-Transcripts V sha256_hex show_error segment_store id 0 (length es) es n s u tr in
      let (stored, v, a, h2) =
        and_then-inv
          (append {V = V} sha256_hex
            (merge_event V sha256_hex show_error segment_store id seg.kind now stamp n) u)
          (λ _ v. marked n v) o t h1 in
      let (row, r', hold, g') =
        append-Appends sha256_hex
          (merge_event V sha256_hex show_error segment_store id seg.kind now stamp n) u stored v
          a in
      let (mark, w, m, h3) =
        and_then-inv (mark_segment_folded id (last_hash v) v) (λ _ w. (ok (folded_outcome n), w)) o
          t h2 in
      let (q, f) =
        update_segment-inv id (λ x. record x { state = folded; head_hash = last_hash v }) seg v w
          (ap (lookup id) (g' ∙ g) ∙ e) m in
      let same : w ≡ t = ap (λ p. p.1) h3 in
      let said : ok (folded_outcome n) ≡ ok o = ap (λ p. p.0) h3 in
      let n_is : n ≡ length es = omega (arith, count) in
      let rows_are : t.rows ≡ v.rows = sym (ap (λ (x : AuditStore). x.rows) same) ∙ q in
      (
        cc,
        (
          (
            rows,
            row,
            rows_are ∙ r' ∙ ap (λ l. l ++ row ∷ []) r ∙ append_assoc s.rows rows (row ∷ []),
            trs,
            merge_event-count id seg.kind now stamp n (length es) n_is row hold,
          ),
          sym (ap (λ (x : AuditStore). lookup id x.segments) same)
              ∙ f
              ∙ ap
                  (λ (l : List RawRow). some (record seg {
                    state = folded;
                    head_hash = elim (last_row l) [ none ↦ none | some x ↦ some x.hash ];
                  }))
                  (sym rows_are),
        ),
      )

  -- What a merge that succeeds has read and done.
  abbrev pub MergeEnds : String → Segment → ℤ → ℤ → AuditStore → MergeOutcome → AuditStore → Type 0
  MergeEnds id seg now stamp s o t =
      (file : AuditStore) × (es : List (StoredEvent V)) × (segment_store id ≡ ok file)
      × (stored_rows file.rows ≡ ok es)
      × (((conflict : String × String × ℤ) × FindEnds (ok (some conflict)) es s.rows
            × (o ≡ forked_outcome (fork_text conflict))
            × HasForked V sha256_hex show_error segment_store id seg conflict now stamp s t)
          ⊎ (FindEnds (ok none) es s.rows
              × (o ≡ folded_outcome (length es))
              × HasFolded id seg es now stamp s t))

  merge_events-MergeEnds :
      (id : String) (seg : Segment) (now stamp : ℤ) (s : AuditStore) (o : MergeOutcome)
      (t : AuditStore)
      → segment id s ≡ some seg
      → merge_events V sha256_hex show_error segment_store id seg now stamp s ≡ (ok o, t)
      → MergeEnds id seg now stamp s o t
  unfolding merge_events
  merge_events-MergeEnds id seg now stamp s o t e h =
      let found : Option (String × String × ℤ) → List (StoredEvent V) → Db MergeOutcome =
        λ c es. merge_found V sha256_hex show_error segment_store c id seg es now stamp s in
      let (file, f, h1) =
        with_ok-inv (segment_store id) s
          (λ file.
            with_ok (stored_rows file.rows) s
              λ es. with_ok (find_conflict es s.rows) s λ c. found c es)
          o t h in
      let (es, g, h2) =
        with_ok-inv (stored_rows file.rows) s
          (λ es. with_ok (find_conflict es s.rows) s λ c. found c es) o t h1 in
      let (conflict, c, h3) = with_ok-inv (find_conflict es s.rows) s (λ c. found c es) o t h2 in
      (file, es, f, g, ends es conflict c h3)
    where
      ends :
          (es : List (StoredEvent V)) (c : Option (String × String × ℤ))
          → find_conflict es s.rows ≡ ok c
          → merge_found V sha256_hex show_error segment_store c id seg es now stamp s ≡ (ok o, t)
          → ((conflict : String × String × ℤ) × FindEnds (ok (some conflict)) es s.rows
              × (o ≡ forked_outcome (fork_text conflict))
              × HasForked V sha256_hex show_error segment_store id seg conflict now stamp s t)
            ⊎ (FindEnds (ok none) es s.rows
                × (o ≡ folded_outcome (length es))
                × HasFolded id seg es now stamp s t)
      ends es none c h =
          let (said, done) = fold_segment-HasFolded id seg es now stamp s o t e h in
          inr (subst (λ f. FindEnds f es s.rows) c (find_conflict_lem es s.rows), said, done)
      ends es (some conflict) c h =
          let (said, done) =
            record_fork-HasForked V sha256_hex show_error segment_store id seg conflict now stamp s
              o t e h in
          inl (
            conflict,
            subst (λ f. FindEnds f es s.rows) c (find_conflict_lem es s.rows),
            said,
            done,
          )

  -- A guard that a call has passed.
  guard_passed :
      (b : Bool) (e : AuditError) (x : Db MergeOutcome) (s : AuditStore) (o : MergeOutcome)
      (t : AuditStore)
      → (if b then (err e, s) else x) ≡ (ok o, t)
      → (b ≡ false) × (x ≡ (ok o, t))
  guard_passed true e x s o t h = absurd cc
  guard_passed false e x s o t h = (refl, h)

  -- A merge that succeeds found a temporary segment, open or closed, whose note does not begin as that
  -- of a partial merge, and no row of the chain that is an event of its merge; and it read the events
  -- of the segment from its own store. Either one of them has, the mark of its detail aside, the actor,
  -- the action and the detail of a row that was on the chain, and then one row is new, which holds the
  -- fork, the outcome and the segment's row say forked, with a reason that names the event's actor and
  -- action and that row's id, and nothing is transcribed; or none of them has, and then the new rows
  -- hold the events one each and in order, with the mark cleared, and last the merge with their number,
  -- which the outcome tells too, and the segment's row says folded, with the hash of the last row.
  pub merge_segment_lem :
      (id : String) (now stamp : ℤ) (s : AuditStore) (o : MergeOutcome) (t : AuditStore)
      → merge_segment V sha256_hex show_error segment_store id now stamp s ≡ (ok o, t)
      → (seg : Segment) × IsMergeable V id seg s × MergeEnds id seg now stamp s o t
  unfolding merge_segment
  merge_segment_lem id now stamp s o t h = known (segment id s) refl h
    where
      known :
          (found : Option Segment)
          → segment id s ≡ found
          → merge_known V sha256_hex show_error segment_store found id now stamp s ≡ (ok o, t)
          → (seg : Segment) × IsMergeable V id seg s × MergeEnds id seg now stamp s o t
      known none e h = absurd cc
      known (some seg) e h =
          let (k, h1) = guard_passed (not (is_temporary seg.kind)) _ _ s o t h in
          let (m, h2) = guard_passed (not (is_mergeable seg.state)) _ _ s o t h1 in
          let (already, a, h3) = with_ok-inv (merged_already V id s.rows) s _ o t h2 in
          let (fresh, h4) = guard_passed already _ _ s o t h3 in
          let (p, h5) = guard_passed (has_partial_merge seg) _ _ s o t h4 in
          (
            seg,
            (
              e,
              temporary-only V seg.kind k,
              opened-or_closed V seg.state m,
              merged_already-none V id s.rows (a ∙ ap ok fresh),
              no_partial_merge V seg p,
            ),
            merge_events-MergeEnds id seg now stamp s o t e h5,
          )
