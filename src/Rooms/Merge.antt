-- ===== src/Rooms/Merge.antt =====
-- What a merge of rooms keeps, adds and reports (net/src/rooms.rs).
use riscdom.Prelude.{
  Bool-cases, List, Option, String, [], ap, arith, eq_iff, if◌then◌else◌, inl, inr, is_some, length,
  length-append, none, refl, some, str_eq, ℕ, ◌++◌, ◌+◌, ◌∙◌, ◌∷◌, ◌≡◌,
}
use riscdom.Rooms.{Room, RoomsFile, find_room}
use riscdom.Rooms.Published.{
  RoomMergeReport, merge_loop, merge_one, merge_rooms, same_room, summary,
}

abbrev pub or_else : {A : Type 0} → Option A → Option A → Option A
or_else none b = b
or_else (some a) b = some a

find_room-append :
    (name : String) (rooms : List Room) (room : Room)
    → find_room name (rooms ++ room ∷ [])
      ≡ or_else (find_room name rooms) (if str_eq room.name name then some room else none)
unfolding find_room
find_room-append name [] room = refl
find_room-append name (r ∷ rooms) room = ground (arith, find_room-append name rooms room)

abbrev reported : RoomMergeReport → ℕ
reported report = report.added + report.unchanged + length report.conflicts

module _ (show_texts : List String → String) (local : List Room) where
  -- What one round does to what is found under a name.
  merge_one-find_room :
      (name : String) (o : Option Room) (room : Room) (s : List Room × RoomMergeReport)
      → find_room name (merge_one show_texts o room s).0
        ≡ or_else
            (find_room name s.0)
            (if is_some o then none else if str_eq room.name name then some room else none)
  merge_one-find_room name none room s = find_room-append name s.0 room
  merge_one-find_room name (some known) room s = elim (Bool-cases (same_room known room)) [
    | inl t ↦ rw t (or_none (find_room name s.0))
    | inr f ↦ rw f (or_none (find_room name s.0))
  ]
    where
      or_none : (o : Option Room) → o ≡ or_else o none
      or_none none = refl
      or_none (some r) = refl

  merge_one-reported :
      (o : Option Room) (room : Room) (s : List Room × RoomMergeReport)
      → reported (merge_one show_texts o room s).1 ≡ reported s.1 + 1
  merge_one-reported none room s = omega arith
  merge_one-reported (some known) room s = elim (Bool-cases (same_room known room)) [
    | inl t ↦ rw t (omega arith)
    | inr f ↦ rw f (
        omega (
          arith,
          length-append s.1.conflicts (
              record {
                name = room.name;
                local = summary show_texts known;
                from_published = summary show_texts room;
              }
              ∷ []),
        ))
  ]

  merge_loop-kept :
      (name : String) (k : Room) (published : List Room) (s : List Room × RoomMergeReport)
      → find_room name s.0 ≡ some k
      → find_room name (merge_loop show_texts local published s).0 ≡ some k
  unfolding merge_loop
  merge_loop-kept name k [] s e = e
  merge_loop-kept name k (room ∷ published) s e =
      merge_loop-kept name k published (merge_one show_texts (find_room room.name local) room s)
        (merge_one-find_room name (find_room room.name local) room s ∙ rw e refl)

  merge_loop-added :
      (name : String) (published : List Room) (s : List Room × RoomMergeReport)
      → find_room name local ≡ none
      → find_room name s.0 ≡ none
      → find_room name (merge_loop show_texts local published s).0 ≡ find_room name published
  unfolding merge_loop find_room
  merge_loop-added name [] s n e = e
  merge_loop-added name (room ∷ published) s n e =
      let next = merge_one show_texts (find_room room.name local) room s in
      let found = merge_one-find_room name (find_room room.name local) room s in
      elim (Bool-cases (str_eq room.name name)) [
        | inl t ↦
            let same : room.name ≡ name = (eq_iff room.name name).0 t in
            let unknown : find_room room.name local ≡ none = ap (λ k. find_room k local) same ∙ n in
            rw t (merge_loop-kept name room published next (found ∙ ground (arith, e, t, unknown)))
        | inr f ↦ rw f (merge_loop-added name published next n (found ∙ ground (arith, e, f)))
      ]

  merge_loop-reported :
      (published : List Room) (s : List Room × RoomMergeReport)
      → reported (merge_loop show_texts local published s).1 ≡ reported s.1 + length published
  unfolding merge_loop
  merge_loop-reported [] s = omega arith
  merge_loop-reported (room ∷ published) s = omega (
    arith,
    merge_loop-reported published (merge_one show_texts (find_room room.name local) room s),
    merge_one-reported (find_room room.name local) room s,
  )

-- After a merge, what is found under a name is the local room if there is one, and else the first
-- published one; and each published room is counted once, as added, as unchanged or as a conflict.
pub merge_rooms_lem :
    (show_texts : List String → String) (local published : RoomsFile) (name : String)
    → let (merged, report) = merge_rooms show_texts local published in
      (find_room name merged.rooms
        ≡ or_else (find_room name local.rooms) (find_room name published.rooms))
      × (report.added + report.unchanged + length report.conflicts ≡ length published.rooms)
unfolding merge_rooms
merge_rooms_lem show_texts local published name = (
  go (find_room name local.rooms) refl,
  omega (arith, merge_loop-reported show_texts local.rooms published.rooms start),
)
  where
    start : List Room × RoomMergeReport
    start = (local.rooms, record { added = 0; unchanged = 0; conflicts = [] })

    go :
        (o : Option Room)
        → find_room name local.rooms ≡ o
        → find_room name (merge_loop show_texts local.rooms published.rooms start).0
          ≡ or_else o (find_room name published.rooms)
    go none e = merge_loop-added show_texts local.rooms name published.rooms start e e
    go (some k) e = merge_loop-kept show_texts local.rooms name k published.rooms start e
