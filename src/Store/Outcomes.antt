-- ===== src/Store/Outcomes.antt =====
-- What a merge has done when it says folded or forked (audit/src/store.rs).
use mathlib.Core.List.{append-nil, append_assoc}
use riscdom.Prelude.{
  List, Result, String, [], ap, arith, err, insert, length, lookup, lookup-insert_self, none, ok,
  refl, some, suc, sym, ℕ, ◌++◌, ◌+◌, ◌∙◌, ◌∷◌, ◌≡◌,
}
use riscdom.Prelude.Int.{ℤ}
use riscdom.Prelude.Text.{concat, show_i64}
use riscdom.Event.{AuditEvent, RawRow, StoredEvent}
use riscdom.Json.{Json}
use riscdom.Segment.{
  MergeOutcome, Segment, SegmentKind, action_segment_forked, action_segment_merged, cleared_detail,
  forked, forked_outcome, segment_forked_detail, segment_merged_detail,
}
use riscdom.Store.{AuditError, AuditStore, Db, and_then, append, new_event}
use riscdom.Store.Segments.{segment, update_segment}
use riscdom.Store.Merge.{
  fork_reason, mark_segment_forked, noting, outgoing, partial_note, record_fork, set_segment_note,
  transcribe,
}
use riscdom.Store.Success.{Holds, and_then-inv, append-Appends, write-inv}

-- What the segment's row is after an update that the database took.
pub update_segment-inv :
    (id : String) (change : Segment → Segment) (seg : Segment) (s t : AuditStore)
    → segment id s ≡ some seg
    → update_segment id change s ≡ (ok tt, t)
    → (t.rows ≡ s.rows) × (segment id t ≡ some (change seg))
unfolding update_segment
update_segment-inv id change seg s t e h =
    let (rest, p) =
      write-inv
        (λ x. record x {
          segments = elim (segment id x) [
            | none ↦ x.segments
            | some g ↦ insert id (change g) x.segments
          ];
        })
        s t h in
    (
      ap (λ (x : AuditStore). x.rows) p,
      ap (λ (x : AuditStore). lookup id x.segments) p
          ∙ rw e (lookup-insert_self id (change seg) s.segments),
    )

module _ {V : Type 0} ⦃json : Json V⦄ where
  -- The rows hold the events, one each and in their order, with the mark cleared.
  abbrev pub Transcribed : List (StoredEvent V) → List RawRow → Type 0
  Transcribed [] [] = Unit
  Transcribed [] (row ∷ rows) = ⊥
  Transcribed (e ∷ es) [] = ⊥
  Transcribed (e ∷ es) (row ∷ rows) =
      Holds (record e.event { detail = json.remove "provisional" e.event.detail }) row
      × Transcribed es rows

-- The reason of a fork, which names the actor and the action of the event and the id of the row.
abbrev pub fork_text : String × String × ℤ → String
fork_text (actor, action, id) = concat (
    "conflicts with the main chain at event "
    ∷ show_i64 id
    ∷ ": "
    ∷ actor
    ∷ " "
    ∷ action
    ∷ "; not merged"
    ∷ [])

module _ (V : Type 0) ⦃json : Json V⦄ (sha256_hex : String → String)
    (show_error : AuditError → String) (segment_store : String → Result AuditStore AuditError) where
  -- The rows of the events are new, and all of them.
  abbrev Transcripts : ℕ → List (StoredEvent V) → ℕ → AuditStore → AuditStore → Type 0
  Transcripts merged es n s t =
      (rows : List RawRow) × (t.rows ≡ s.rows ++ rows)
      × Transcribed es rows
      × (n ≡ merged + length es)
      × (t.segments ≡ s.segments)

  pub transcribe-Transcripts :
      (id : String) (merged total : ℕ) (es : List (StoredEvent V)) (n : ℕ) (s t : AuditStore)
      → transcribe V sha256_hex show_error segment_store id merged total es s ≡ (ok n, t)
      → Transcripts merged es n s t
  unfolding transcribe cleared_detail
  transcribe-Transcripts id merged total [] n s t h =
      let same : s ≡ t = ap (λ p. p.1) h in
      let count : merged ≡ n = cc in
      (
        [],
        sym (ap (λ (x : AuditStore). x.rows) same) ∙ sym (append-nil s.rows),
        tt,
        omega (arith, count),
        sym (ap (λ (x : AuditStore). x.segments) same),
      )
  transcribe-Transcripts id merged total (e ∷ es) n s t h =
      go (append sha256_hex (outgoing e.event) s) refl h
        λ u. transcribe-Transcripts id (suc merged) total es n u t
    where
      go :
          (x : Db (StoredEvent V))
          → append sha256_hex (outgoing e.event) s ≡ x
          → noting V sha256_hex show_error segment_store x
              (λ y.
                set_segment_note id
                  (partial_note V sha256_hex show_error segment_store merged total y))
              (λ u. transcribe V sha256_hex show_error segment_store id (suc merged) total es u)
            ≡ (ok n, t)
          → ((u : AuditStore)
              → transcribe V sha256_hex show_error segment_store id (suc merged) total es u
                ≡ (ok n, t)
              → Transcripts (suc merged) es n u t)
          → Transcripts merged (e ∷ es) n s t
      go (err y, u) a h rest = absurd cc
      go (ok stored, u) a h rest =
          let (row, r, hold, g) = append-Appends sha256_hex (outgoing e.event) s stored u a in
          let (rows, r', tr, m, g') = rest u h in
          (
            row ∷ rows,
            r' ∙ ap (λ l. l ++ rows) r ∙ append_assoc s.rows (row ∷ []) rows,
            (hold, tr),
            omega (arith, m),
            g' ∙ g,
          )

  abbrev pub fork_event : String → SegmentKind → ℤ → ℤ → String × String × ℤ → AuditEvent V
  fork_event id kind now stamp (actor, action, row_id) =
      new_event stamp "host" action_segment_forked
        (segment_forked_detail id kind now (fork_reason (actor, action, row_id)) (some row_id))

  abbrev pub merge_event : String → SegmentKind → ℤ → ℤ → ℕ → AuditEvent V
  merge_event id kind now stamp n =
      new_event stamp "host" action_segment_merged (segment_merged_detail id kind now n)

  -- One new row, the fork; the segment's row says why; nothing is transcribed.
  abbrev pub HasForked :
      String → Segment → String × String × ℤ → ℤ → ℤ → AuditStore → AuditStore → Type 0
  HasForked id seg conflict now stamp s t =
      ((row : RawRow) × (t.rows ≡ s.rows ++ row ∷ [])
        × Holds (fork_event id seg.kind now stamp conflict) row)
      × (segment id t ≡ some (record seg { state = forked; note = some (fork_text conflict) }))

  pub record_fork-HasForked :
      (id : String) (seg : Segment) (conflict : String × String × ℤ) (now stamp : ℤ)
      (s : AuditStore) (o : MergeOutcome) (t : AuditStore)
      → segment id s ≡ some seg
      → record_fork V sha256_hex show_error segment_store id seg conflict now stamp s ≡ (ok o, t)
      → (o ≡ forked_outcome (fork_text conflict)) × HasForked id seg conflict now stamp s t
  unfolding record_fork
  record_fork-HasForked id seg (actor, action, row_id) now stamp s o t e h =
      let conflict : String × String × ℤ = (actor, action, row_id) in
      let reason = fork_reason conflict in
      let (stored, u, a, h1) =
        and_then-inv (append {V = V} sha256_hex (fork_event id seg.kind now stamp conflict) s)
          (λ _ u. and_then (mark_segment_forked id reason u) λ _ v. (ok (forked_outcome reason), v))
          o t h in
      let (mark, v, m, h2) =
        and_then-inv (mark_segment_forked id reason u) (λ _ v. (ok (forked_outcome reason), v)) o t
          h1 in
      let (row, r, hold, g) =
        append-Appends sha256_hex (fork_event id seg.kind now stamp conflict) s stored u a in
      let (q, f) =
        update_segment-inv id (λ x. record x { state = forked; note = some reason }) seg u v
          (ap (lookup id) g ∙ e) m in
      let same : v ≡ t = ap (λ p. p.1) h2 in
      let said : ok (forked_outcome reason) ≡ ok o = ap (λ p. p.0) h2 in
      (
        cc,
        (
          (row, sym (ap (λ (x : AuditStore). x.rows) same) ∙ q ∙ r, hold),
          sym (ap (λ (x : AuditStore). lookup id x.segments) same) ∙ f,
        ),
      )
