-- ===== src/Rooms/Published.antt =====
-- net/src/rooms.rs: how a published set of rooms is merged into the local file. What `{:?}` writes of a
-- list of texts is a parameter.
use riscdom.Prelude.{
  Bool, List, Option, String, [], false, if◌then◌else◌, none, not, some, str_eq, true, ℕ, ◌&&◌,
  ◌++◌, ◌+◌, ◌==◌, ◌∷◌,
}
use riscdom.Prelude.Text.{concat, show_nat}
use riscdom.Rooms.{Mention, Room, RoomsFile, find_room, members_only, mention_as_str, nobody}

abbrev same_texts : List String → List String → Bool
same_texts [] [] = true
same_texts [] (b ∷ bs) = false
same_texts (a ∷ as') [] = false
same_texts (a ∷ as') (b ∷ bs) = str_eq a b && same_texts as' bs

abbrev same_bool : Bool → Bool → Bool
same_bool true b = b
same_bool false b = not b

abbrev same_mention : Mention → Mention → Bool
same_mention members_only members_only = true
same_mention members_only nobody = false
same_mention nobody members_only = false
same_mention nobody nobody = true

-- `==`, as it is derived.
unfoldable pub same_room : Room → Room → Bool
same_room a b =
    str_eq a.name b.name
    && same_texts a.members b.members
    && a.rules.rate.messages == b.rules.rate.messages
    && a.rules.rate.window_seconds == b.rules.rate.window_seconds
    && same_mention a.rules.mention b.rules.mention
    && same_bool a.rules.require_signature b.rules.require_signature

pub record RoomConflict : Type 0 where
  pub name : String
  pub local : String
  pub from_published : String

pub record RoomMergeReport : Type 0 where
  pub added : ℕ
  pub unchanged : ℕ
  pub conflicts : List RoomConflict

module _ (show_texts : List String → String) where
  unfoldable pub summary : Room → String
  unfolding mention_as_str
  summary room = concat (
      "members "
      ∷ show_texts room.members
      ∷ ", rate "
      ∷ show_nat room.rules.rate.messages
      ∷ " per "
      ∷ show_nat room.rules.rate.window_seconds
      ∷ "s, mention "
      ∷ mention_as_str room.rules.mention
      ∷ [])

  -- One round of the loop: what the local file has under the name decides.
  abbrev pub merge_one :
      Option Room → Room → List Room × RoomMergeReport → List Room × RoomMergeReport
  merge_one none room (rooms, report) =
      (rooms ++ room ∷ [], record report { added = report.added + 1 })
  merge_one (some known) room (rooms, report) =
      if same_room known room
      then (rooms, record report { unchanged = report.unchanged + 1 })
      else (
        rooms,
        record report {
          conflicts =
              report.conflicts
              ++ record { name = room.name; local = summary known; from_published = summary room }
                ∷ [];
        },
      )

  unfoldable pub merge_loop :
      List Room → List Room → List Room × RoomMergeReport → List Room × RoomMergeReport
  merge_loop local [] s = s
  merge_loop local (room ∷ published) s =
      merge_loop local published (merge_one (find_room room.name local) room s)

  unfoldable pub merge_rooms : RoomsFile → RoomsFile → RoomsFile × RoomMergeReport
  unfolding merge_loop
  merge_rooms local published =
      let (rooms, report) =
        merge_loop local.rooms published.rooms
          (local.rooms, record { added = 0; unchanged = 0; conflicts = [] }) in
      (record { schema_version = 1; rooms = rooms }, report)
