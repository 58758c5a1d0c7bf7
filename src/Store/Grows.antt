-- ===== src/Store/Grows.antt =====
-- The store only grows, and stays sound (audit/src/store.rs).
use riscdom.Prelude.{
  Bool-cases, Option, String, err, if◌then◌else◌, inl, inr, insert, is_some, none, ok, refl, some,
}
use riscdom.Prelude.Int.{ℤ}
use riscdom.Json.{Json}
use riscdom.Segment.{
  Segment, SegmentKind, action_segment_closed, action_segment_opened, closed, opened,
  segment_closed_detail, segment_opened_detail,
}
use riscdom.Store.{AuditStore, append, new_event, or_undo, unique_constraint, write}
use riscdom.Store.Segments.{
  adopt_segment, adopted_segment, close_found, close_segment, delete_segment, free_segment_id,
  fresh_segment, insert_segment, open_as, open_segment_inner, segment, set_segment_state,
  update_segment, without,
}
use riscdom.Store.Rows.{Grows, Grows-same, and_then-Grows, or_undo-Grows, write-Grows}
use riscdom.Store.AppendGrows.{append-Grows}

module _ (sha256_hex : String → String) where
  insert_segment-Grows :
      (seg : Segment) (s : AuditStore) → Grows sha256_hex s (insert_segment seg s).1
  unfolding insert_segment
  insert_segment-Grows seg s =
      and_then-Grows sha256_hex s (write (λ t. t) s)
        (λ _ t.
          if is_some (segment seg.segment_id t)
          then (err unique_constraint, t)
          else (ok tt, record t { segments = insert seg.segment_id seg t.segments }))
        (write-Grows sha256_hex (λ t. t) s λ t. refl)
        λ a t. elim (Bool-cases (is_some (segment seg.segment_id t))) [
          | inl y ↦ rw y (Grows-same sha256_hex t t refl)
          | inr n ↦ rw n (
              Grows-same sha256_hex t (record t { segments = insert seg.segment_id seg t.segments })
                refl)
        ]

  pub update_segment-Grows :
      (id : String) (change : Segment → Segment) (s : AuditStore)
      → Grows sha256_hex s (update_segment id change s).1
  unfolding update_segment
  update_segment-Grows id change s =
      write-Grows sha256_hex
        (λ t. record t {
          segments = elim (segment id t) [
            | none ↦ t.segments
            | some seg ↦ insert id (change seg) t.segments
          ];
        })
        s λ t. refl

  delete_segment-Grows : (id : String) (s : AuditStore) → Grows sha256_hex s (delete_segment id s).1
  unfolding delete_segment
  delete_segment-Grows id s =
      write-Grows sha256_hex (λ t. record t { segments = without id t.segments }) s λ t. refl

  pub adopt_segment-Grows :
      (id : String) (head : Option String) (n : Option ℤ) (s : AuditStore)
      → Grows sha256_hex s (adopt_segment id head n s).1
  unfolding adopt_segment
  adopt_segment-Grows id head n s = elim (Bool-cases (is_some (segment id s))) [
    | inl y ↦ rw y (Grows-same sha256_hex s s refl)
    | inr f ↦ rw f (insert_segment-Grows (adopted_segment id head n) s)
  ]

module _ (V : Type 0) ⦃json : Json V⦄ (sha256_hex : String → String) where
  open_as-Grows :
      (o : Option String) (kind : SegmentKind) (now stamp : ℤ) (s : AuditStore)
      → Grows sha256_hex s (open_as V sha256_hex o kind now stamp s).1
  open_as-Grows none kind now stamp s = Grows-same sha256_hex s s refl
  open_as-Grows (some id) kind now stamp s =
      let seg = fresh_segment id kind now s in
      let opening =
        new_event {V = V} stamp "host" action_segment_opened (segment_opened_detail seg) in
      and_then-Grows sha256_hex s (insert_segment seg s)
        (λ _ t. or_undo (append sha256_hex opening t) (delete_segment id) seg)
        (insert_segment-Grows sha256_hex seg s)
        λ a t.
          or_undo-Grows sha256_hex t (append sha256_hex opening t) (delete_segment id) seg
            (append-Grows sha256_hex opening t) (delete_segment-Grows sha256_hex id)

  pub open_segment_inner-Grows :
      (kind : SegmentKind) (owner : Option String) (now stamp : ℤ) (s : AuditStore)
      → Grows sha256_hex s (open_segment_inner V sha256_hex kind owner now stamp s).1
  unfolding open_segment_inner
  open_segment_inner-Grows kind owner now stamp s =
      open_as-Grows (free_segment_id now owner s) kind now stamp s

  close_found-Grows :
      (o : Option Segment) (id : String) (now stamp : ℤ) (s : AuditStore)
      → Grows sha256_hex s (close_found V sha256_hex o id now stamp s).1
  close_found-Grows none id now stamp s = Grows-same sha256_hex s s refl
  close_found-Grows (some seg) id now stamp s =
      let closing =
        new_event {V = V} stamp "host" action_segment_closed (segment_closed_detail id now) in
      let shut = record seg { state = closed; closed_at_ms = some now } in
      and_then-Grows sha256_hex s (set_segment_state id closed (some now) s)
        (λ _ t. or_undo (append sha256_hex closing t) (set_segment_state id opened none) shut)
        (update_segment-Grows sha256_hex id
          (λ g. record g { state = closed; closed_at_ms = some now }) s)
        λ a t.
          or_undo-Grows sha256_hex t (append sha256_hex closing t)
            (set_segment_state id opened none) shut (append-Grows sha256_hex closing t)
            (update_segment-Grows sha256_hex id
              λ g. record g { state = opened; closed_at_ms = none })

  pub close_segment-Grows :
      (id : String) (now stamp : ℤ) (s : AuditStore)
      → Grows sha256_hex s (close_segment V sha256_hex id now stamp s).1
  unfolding close_segment
  close_segment-Grows id now stamp s = close_found-Grows (segment id s) id now stamp s
