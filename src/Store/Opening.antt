-- ===== src/Store/Opening.antt =====
-- What opening a segment has done when it succeeds (audit/src/store.rs).
use riscdom.Prelude.{
  List, Option, Option-cases, String, [], ap, err, if◌then◌else◌, inl, inr, insert, is_some, lookup,
  lookup-insert_self, none, ok, refl, some, sym, ◌++◌, ◌∙◌, ◌∷◌, ◌≡◌, ◌⊎◌,
}
use riscdom.Prelude.Int.{ℤ}
use riscdom.Event.{RawRow}
use riscdom.Json.{Json}
use riscdom.Segment.{Segment, SegmentKind, action_segment_opened, opened, segment_opened_detail}
use riscdom.Store.{
  AuditStore, Db, and_then, append, failed, last_hash, last_id, last_row, new_event, or_undo,
  unique_constraint, write,
}
use riscdom.Store.Segments.{
  delete_segment, free_segment_id, fresh_segment, insert_segment, open_as, open_segment_inner,
  record_segment, segment,
}
use riscdom.Store.Success.{Appends, and_then-inv, append-Appends, write-inv}

or_undo-inv :
    {A B : Type 0} (x : Db A) (undo : AuditStore → Db (Unit {0})) (b c : B) (t : AuditStore)
    → or_undo x undo b ≡ (ok c, t)
    → (a : A) × (x ≡ (ok a, t)) × (b ≡ c)
or_undo-inv (ok a, s) undo b c t h =
    let same : s ≡ t = ap (λ p. p.1) h in
    let said : ok b ≡ ok c = ap (λ p. p.0) h in (a, ap (λ u. (ok a, u)) same, cc)
or_undo-inv (err e, s) undo b c t h = absurd (go (undo s) h)
  where
    go : (y : Db (Unit {0})) → and_then y (λ _ u. failed e u) ≡ (ok c, t) → ⊥
    go (ok d, u) h = cc
    go (err d, u) h = cc

insert_segment-inv :
    (seg : Segment) (s t : AuditStore)
    → insert_segment seg s ≡ (ok tt, t)
    → (segment seg.segment_id s ≡ none)
      × (t.rows ≡ s.rows)
      × (t.segments ≡ insert seg.segment_id seg s.segments)
unfolding insert_segment
insert_segment-inv seg s t h =
    let put : AuditStore → Db (Unit {0}) = λ u.
      if is_some (segment seg.segment_id u)
      then (err unique_constraint, u)
      else (ok tt, record u { segments = insert seg.segment_id seg u.segments }) in
    let (a, u, w, g) = and_then-inv (write (λ u. u) s) (λ _ u. put u) tt t h in
    let (rest, e) = write-inv (λ u. u) s u w in
    elim (Option-cases (segment seg.segment_id u)) [
      | inr (taken, y) ↦ absurd (let g' = rw y at g in cc)
      | inl n ↦
          let done : record u { segments = insert seg.segment_id seg u.segments } ≡ t =
            ap (λ p. p.1) (rw n at g) in
          (
            sym (ap (λ (x : AuditStore). lookup seg.segment_id x.segments) e) ∙ n,
            sym (ap (λ (x : AuditStore). x.rows) done) ∙ ap (λ (x : AuditStore). x.rows) e,
            sym (ap (λ (x : AuditStore). x.segments) done)
                ∙ ap (λ (x : AuditStore). insert seg.segment_id seg x.segments) e,
          )
    ]

-- An anchor is the hash and the id of the last of the rows, and nothing where there are none.
abbrev pub IsAnchor : List RawRow → Option String → Option ℤ → Type 0
IsAnchor rows chain length_at =
    ((rows ≡ []) × (chain ≡ none) × (length_at ≡ none))
    ⊎ ((earlier : List RawRow) × (row : RawRow) × (rows ≡ earlier ++ row ∷ [])
        × (chain ≡ some row.hash)
        × (length_at ≡ some row.id))

last_row-split :
    (rows : List RawRow)
    → ((rows ≡ []) × (last_row rows ≡ none))
      ⊎ ((earlier : List RawRow) × (row : RawRow) × (rows ≡ earlier ++ row ∷ [])
          × (last_row rows ≡ some row))
last_row-split [] = inl (refl, refl)
last_row-split (row ∷ []) = inr ([], row, refl, refl)
last_row-split (row ∷ next ∷ rows) = elim (last_row-split (next ∷ rows)) [
  | inl (none_there, e) ↦ absurd cc
  | inr (earlier, r, split, e) ↦ inr (row ∷ earlier, r, ap (λ l. row ∷ l) split, e)
]

head-IsAnchor : (s : AuditStore) → IsAnchor s.rows (last_hash s) (last_id s)
unfolding last_hash last_id
head-IsAnchor s = elim (last_row-split s.rows) [
  | inl (none_there, e) ↦ inl (none_there, rw (e, last_hash) refl, rw (e, last_id) refl)
  | inr (earlier, row, split, e) ↦
      inr (earlier, row, split, rw (e, last_hash) refl, rw (e, last_id) refl)
]

-- A segment that was opened just now and holds nothing else yet.
abbrev pub IsFresh : SegmentKind → ℤ → List RawRow → Segment → Type 0
IsFresh kind now rows seg =
    (seg.kind ≡ kind)
    × (seg.state ≡ opened)
    × (seg.opened_at_ms ≡ some now)
    × (seg.closed_at_ms ≡ none)
    × (seg.head_hash ≡ none)
    × (seg.note ≡ none)
    × IsAnchor rows seg.head_prev_chain seg.head_prev_length

module _ (V : Type 0) ⦃json : Json V⦄ (sha256_hex : String → String) where
  -- The segment is new, both halves of its anchor are the head of the chain as it was, and the one new
  -- row is the opening.
  abbrev pub HasOpened : SegmentKind → ℤ → ℤ → AuditStore → Segment → AuditStore → Type 0
  HasOpened kind now stamp s seg t =
      (segment seg.segment_id s ≡ none)
      × IsFresh kind now s.rows seg
      × (segment seg.segment_id t ≡ some seg)
      × Appends (new_event {V = V} stamp "host" action_segment_opened (segment_opened_detail seg))
          (record s { segments = insert seg.segment_id seg s.segments }) t

  record_segment-HasOpened :
      (id : String) (kind : SegmentKind) (now stamp : ℤ) (s : AuditStore) (seg : Segment)
      (t : AuditStore)
      → record_segment V sha256_hex (fresh_segment id kind now s) stamp s ≡ (ok seg, t)
      → HasOpened kind now stamp s seg t
  record_segment-HasOpened id kind now stamp s seg t h =
      let new = fresh_segment id kind now s in
      let event =
        new_event {V = V} stamp "host" action_segment_opened (segment_opened_detail new) in
      let (a, u, w, g) =
        and_then-inv (insert_segment new s)
          (λ _ u. or_undo (append sha256_hex event u) (delete_segment id) new) seg t h in
      let (free, rows, segs) = insert_segment-inv new s u w in
      let (stored, written, said) =
        or_undo-inv (append sha256_hex event u) (delete_segment id) new seg t g in
      let (row, r, hold, kept) = append-Appends sha256_hex event u stored t written in
      rw⁻¹ said (
        free,
        (refl, refl, refl, refl, refl, refl, head-IsAnchor s),
        ap (lookup id) (kept ∙ segs) ∙ lookup-insert_self id new s.segments,
        (row, r ∙ ap (λ l. l ++ row ∷ []) rows, hold, kept ∙ segs),
      )

  -- When a segment is opened, its id was not in use; it is of the kind asked for, open since the
  -- instant of the call, not closed, without a head and a note of its own; it holds as its anchor the
  -- hash and the id of the last row as they were before the call, or nothing if there was no row; the
  -- store has it under its id, and one row more, which is the event of its opening; nothing else is
  -- changed.
  pub open_segment_inner_lem :
      (kind : SegmentKind) (owner : Option String) (now stamp : ℤ) (s : AuditStore) (seg : Segment)
      (t : AuditStore)
      → open_segment_inner V sha256_hex kind owner now stamp s ≡ (ok seg, t)
      → HasOpened kind now stamp s seg t
  unfolding open_segment_inner
  open_segment_inner_lem kind owner now stamp s seg t h = go (free_segment_id now owner s) h
    where
      go :
          (o : Option String)
          → open_as V sha256_hex o kind now stamp s ≡ (ok seg, t)
          → HasOpened kind now stamp s seg t
      go none h = absurd cc
      go (some id) h = record_segment-HasOpened id kind now stamp s seg t h
