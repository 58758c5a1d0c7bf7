-- ===== src/Discovery/Toy.antt =====
-- How entries and rooms may be written as values, for the tests, and that they are read back.
use riscdom.Frames.Toy
use riscdom.Frames.Toy.{Value, field, end, obj, str, texts, num, bit}
use riscdom.Prelude.{
  List, Result, String, [], arith, err, false, if◌then◌else◌, ok, refl, true, ◌∷◌, ◌≡◌,
}
use riscdom.Peers.{PeerEntry}
use riscdom.Rooms.{Mention, Room, members_only, nobody}
use riscdom.Discovery.{Codec}
use riscdom.Discovery.Published.{CodecLaws}

abbrev entry_value : PeerEntry Value → Value
entry_value e = obj (
    field "node_id" (str e.node_id) (
      field "addresses" (texts e.addresses) (
        field "public_key" e.public_key
          (field "capabilities" (texts e.capabilities) (field "rooms" (texts e.rooms) end)))))

abbrev entry_of : Value → Result (PeerEntry Value) String
entry_of
      (obj (
        field _ (str node_id) (
          field _
            (texts reached)
            (field _ public_key (field _ (texts capabilities) (field _ (texts rooms) end)))))) =
    ok (record {
      node_id = node_id;
      addresses = reached;
      public_key = public_key;
      capabilities = capabilities;
      rooms = rooms;
    })
entry_of _ = err "not an entry"

abbrev entries_value : List (PeerEntry Value) → Value
entries_value [] = Toy.null
entries_value (e ∷ es) = obj (field "first" (entry_value e) (field "rest" (entries_value es) end))

abbrev put {ℓ} : {A : Type ℓ} → Result A String → Result (List A) String → Result (List A) String
put (ok a) (ok as') = ok (a ∷ as')
put _ _ = err "not a list"

abbrev entries_of : Value → Result (List (PeerEntry Value)) String
entries_of (obj (field _ first (field _ rest end))) = put (entry_of first) (entries_of rest)
entries_of _ = ok []

abbrev mention_value : Mention → Value
mention_value members_only = bit true
mention_value nobody = bit false

abbrev room_value : Room → Value
room_value r = obj (
    field "name" (str r.name) (
      field "members" (texts r.members) (
        field "messages" (num r.rules.rate.messages) (
          field "window_seconds" (num r.rules.rate.window_seconds) (
            field "mention" (mention_value r.rules.mention)
              (field "require_signature" (bit r.rules.require_signature) end))))))

abbrev room_of : Value → Result Room String
room_of
      (obj (
        field _ (str name) (
          field _ (texts members) (
            field _ (num messages) (
              field _
                (num window_seconds)
                (field _ (bit mention) (field _ (bit require_signature) end))))))) =
    ok (record {
      name = name;
      members = members;
      rules = record {
        rate = record { messages = messages; window_seconds = window_seconds };
        mention = if mention then members_only else nobody;
        require_signature = require_signature;
      };
    })
room_of _ = err "not a room"

abbrev rooms_value : List Room → Value
rooms_value [] = Toy.null
rooms_value (r ∷ rs) = obj (field "first" (room_value r) (field "rest" (rooms_value rs) end))

abbrev rooms_of : Value → Result (List Room) String
rooms_of (obj (field _ first (field _ rest end))) = put (room_of first) (rooms_of rest)
rooms_of _ = ok []

abbrev pub codec : Codec Value
codec = record {
  entry_value = entry_value;
  entry_of = entry_of;
  entries_value = entries_value;
  entries_of = entries_of;
  rooms_value = rooms_value;
  rooms_of = rooms_of;
}

entries-read : (es : List (PeerEntry Value)) → entries_of (entries_value es) ≡ ok es
entries-read [] = refl
entries-read (e ∷ es) = rw (entries-read es)

room-read : (r : Room) → room_of (room_value r) ≡ ok r
room-read r = go r.rules.mention refl
  where
    go : (m : Mention) → r.rules.mention ≡ m → room_of (room_value r) ≡ ok r
    go members_only e = ground (arith, e)
    go nobody e = ground (arith, e)

rooms-read : (rs : List Room) → rooms_of (rooms_value rs) ≡ ok rs
rooms-read [] = refl
rooms-read (r ∷ rs) = rw (room-read r) (rw (rooms-read rs))

pub codec_laws : CodecLaws codec
codec_laws = record { entries = entries-read; rooms = rooms-read; entry = λ e. refl }
