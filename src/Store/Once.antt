-- ===== src/Store/Once.antt =====
-- No segment is merged twice (audit/src/store.rs).
use mathlib.Core.List.{append_assoc}
use mathlib.Core.Path.{subst}
use riscdom.Prelude.{
  All, List, Result, String, [], ap, inl, inr, length, ok, some, sym, ℕ, ◌++◌, ◌∙◌, ◌∷◌, ◌≡◌, ◌≢◌,
}
use riscdom.Prelude.Int.{ℤ}
use riscdom.Event.{RawRow}
use riscdom.Json.{Json, get_str}
use riscdom.Segment.{MergeOutcome, SegmentKind, folded_outcome, kind_as_str, segment_merged_detail}
use riscdom.Store.{AuditError, AuditStore}
use riscdom.Store.Merge.{merge_segment}
use riscdom.Store.Runs.{Call, run, run-Grows}
use riscdom.Store.Success.{Holds}
use riscdom.Store.Outcomes.{merge_event}
use riscdom.Store.Marks.{Marks, Unmarked-Marks}
use riscdom.Store.Merged.{merge_segment_lem}

-- What the code relies on of `serde_json`: what it writes of a value it reads back as that value, and
-- an object built with a first member `segment_id` that is a text has that text there.
pub record JsonLaws {V : Type 0} (json : Json V) : Type 0 where
  pub round_trip : (v : V) (s : String) → json.to_string v ≡ some s → json.from_str s ≡ some v
  pub first_member :
      (v : V) (rest : List (String × V))
      → json.get (json.object (("segment_id", v) ∷ rest)) "segment_id" ≡ some v
  pub text : (s : String) → json.as_str (json.str s) ≡ some s

module _ (V : Type 0) ⦃json : Json V⦄ (laws : JsonLaws json) (sha256_hex : String → String)
    (show_error : AuditError → String) where
  merge_event-Marks :
      (segment_store : String → Result AuditStore AuditError) (id : String) (kind : SegmentKind)
      (now stamp : ℤ) (n : ℕ) (row : RawRow)
      → Holds (merge_event V sha256_hex show_error segment_store id kind now stamp n) row
      → Marks V id row
  unfolding segment_merged_detail
  merge_event-Marks segment_store id kind now stamp n row h = (
    h.2,
    (
      segment_merged_detail id kind now n,
      laws.round_trip (segment_merged_detail id kind now n) row.detail_json h.4,
      rw
          (
            laws.first_member (json.str id) (
                ("kind", json.str (kind_as_str kind))
                ∷ ("merged_at_ms", json.int now)
                ∷ ("event_count", json.num n)
                ∷ []),
            get_str,
          )
          (laws.text id),
    ),
  )

  -- The marker that a fold leaves at the end of the chain.
  folded-Marks :
      (segment_store : String → Result AuditStore AuditError) (id : String) (now stamp : ℤ)
      (s : AuditStore) (n : ℕ) (t : AuditStore)
      → merge_segment V sha256_hex show_error segment_store id now stamp s
        ≡ (ok (folded_outcome n), t)
      → (rows : List RawRow) × (row : RawRow) × (t.rows ≡ rows ++ row ∷ []) × Marks V id row
  folded-Marks segment_store id now stamp s n t h =
      let (seg, guards, (file, es, f, g, ends)) =
        merge_segment_lem V sha256_hex show_error segment_store id now stamp s (folded_outcome n) t
          h in
      elim ends [
        | inl (conflict, c, said, done) ↦ absurd (cc said)
        | inr (c, said, done) ↦ (
          s.rows ++ done.0.0,
          done.0.1,
          done.0.2 ∙ sym (append_assoc s.rows done.0.0 (done.0.1 ∷ [])),
          merge_event-Marks segment_store id seg.kind now stamp (length es) done.0.1 done.0.4,
        )
      ]

  -- Once a segment was folded, no later merge of it succeeds, whatever calls are made in between
  -- (a segment may be closed again, say), whatever its own store then holds and whatever the
  -- database answers.
  pub merged_once :
      (segment_store later_store : String → Result AuditStore AuditError) (id : String)
      (now stamp : ℤ) (s : AuditStore) (n : ℕ) (t : AuditStore)
      → merge_segment V sha256_hex show_error segment_store id now stamp s
        ≡ (ok (folded_outcome n), t)
      → (cs : List (Call V)) (now' stamp' : ℤ) (o : MergeOutcome) (u : AuditStore)
      → merge_segment V sha256_hex show_error later_store id now' stamp'
          (run V sha256_hex show_error cs t)
        ≢ (ok o, u)
  merged_once segment_store later_store id now stamp s n t h cs now' stamp' o u again =
      let (rows, row, r, marks) = folded-Marks segment_store id now stamp s n t h in
      let later = run V sha256_hex show_error cs t in
      let ((tail, grown), sound) = run-Grows V sha256_hex show_error cs t in
      let (seg, guards, ends) =
        merge_segment_lem V sha256_hex show_error later_store id now' stamp' later o u again in
      let all : later.rows ≡ rows ++ row ∷ tail =
        grown ∙ ap (λ l. l ++ tail) r ∙ append_assoc rows (row ∷ []) tail in
      Unmarked-Marks V id rows row tail marks (subst (All (λ r. ¬ Marks V id r)) all guards.3)
